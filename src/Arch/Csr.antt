-- ===== src/Arch/Csr.antt =====
-- include/arch/loongarch.h: the accessors of the control registers. The registers are a function from
-- their numbers to words of 64 bits, and an instruction that writes one keeps the value; an unsigned
-- int has the low 32 bits.
use echo_os.Base.{ℕ, ◌-◌, ◌%◌, ◌^◌, Bool, not, ◌==◌, if◌then◌else◌, bit_and, bit_or}

abbrev pub Csrs : Type 0
Csrs = ℕ → ℕ

-- `csrrd` and `csrwr`
abbrev csrwr : Csrs → ℕ → ℕ → Csrs
csrwr c n v r = if r == n then v else c r

abbrev uint : ℕ → ℕ
uint x = x % 2 ^ 32

abbrev pub csr_crmd_ie : ℕ
csr_crmd_ie = 4

abbrev pub hwi_vec : ℕ
hwi_vec = 0x3fc

abbrev pub ti_vec : ℕ
ti_vec = 2 ^ 11

abbrev pub csr_ticlr_clr : ℕ
csr_ticlr_clr = 1

abbrev pub csr_tcfg_en : ℕ
csr_tcfg_en = 1

abbrev pub csr_tcfg_per : ℕ
csr_tcfg_per = 2

abbrev pub r_csr_crmd : Csrs → ℕ
r_csr_crmd c = uint (c 0)

abbrev pub w_csr_crmd : Csrs → ℕ → Csrs
w_csr_crmd c x = csrwr c 0 (uint x)

abbrev pub r_csr_prmd : Csrs → ℕ
r_csr_prmd c = uint (c 1)

abbrev pub w_csr_prmd : Csrs → ℕ → Csrs
w_csr_prmd c x = csrwr c 1 (uint x)

abbrev pub r_csr_era : Csrs → ℕ
r_csr_era c = c 6

abbrev pub w_csr_era : Csrs → ℕ → Csrs
w_csr_era c x = csrwr c 6 x

abbrev pub r_csr_estat : Csrs → ℕ
r_csr_estat c = uint (c 5)

abbrev pub r_csr_ecfg : Csrs → ℕ
r_csr_ecfg c = uint (c 4)

abbrev pub w_csr_ecfg : Csrs → ℕ → Csrs
w_csr_ecfg c x = csrwr c 4 (uint x)

abbrev pub r_csr_ticlr : Csrs → ℕ
r_csr_ticlr c = uint (c 0x44)

abbrev pub w_csr_ticlr : Csrs → ℕ → Csrs
w_csr_ticlr c x = csrwr c 0x44 (uint x)

abbrev pub w_csr_eentry : Csrs → ℕ → Csrs
w_csr_eentry c x = csrwr c 0xc x

abbrev pub w_csr_tcfg : Csrs → ℕ → Csrs
w_csr_tcfg c x = csrwr c 0x41 x

-- The registers that the kernel has accessors for and does not use.
abbrev r_csr_eentry : Csrs → ℕ
r_csr_eentry c = c 0xc

abbrev r_csr_tlbrelo0 : Csrs → ℕ
r_csr_tlbrelo0 c = c 0x8c

abbrev r_csr_tlbrelo1 : Csrs → ℕ
r_csr_tlbrelo1 c = c 0x8d

abbrev w_csr_tlbrentry : Csrs → ℕ → Csrs
w_csr_tlbrentry c x = csrwr c 0x88 x

abbrev w_csr_merrentry : Csrs → ℕ → Csrs
w_csr_merrentry c x = csrwr c 0x93 x

abbrev w_csr_stlbps : Csrs → ℕ → Csrs
w_csr_stlbps c x = csrwr c 0x1e (uint x)

abbrev w_csr_asid : Csrs → ℕ → Csrs
w_csr_asid c x = csrwr c 0x18 (uint x)

unfoldable pub intr_get : Csrs → Bool
intr_get c = not (bit_and (r_csr_crmd c) csr_crmd_ie == 0)

unfoldable pub intr_on : Csrs → Csrs
intr_on c = w_csr_crmd c (bit_or (r_csr_crmd c) csr_crmd_ie)

-- The mask is an int, -5, which has all bits but one.
unfoldable pub intr_off : Csrs → Csrs
intr_off c = w_csr_crmd c (bit_and (r_csr_crmd c) (2 ^ 32 - 1 - csr_crmd_ie))
