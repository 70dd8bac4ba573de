-- ===== src/Trap/Back.antt =====
-- kernel/trap/trap.c, `trap_handler`: what it gives back where it comes back.
use echo_os.Base.{ℕ, ◌%◌, ◌^◌, true, false, not, ◌==◌, bit_and, bit_or, ◌≡◌, refl, ap, arith}
use echo_os.Base.Bits.{bit_and_four, bit_or_four, bit_and_not_four}
use echo_os.Arch.Csr.{
  Csrs, r_csr_era, r_csr_prmd, w_csr_era, w_csr_prmd, r_csr_crmd, intr_get, intr_on, intr_off,
}
use echo_os.Trap.{System, leave}

-- Enabling interrupts sets the bit that is read, which 32 bits keep.
four_in : (a : ℕ) → (bit_and (bit_or a 4 % 2 ^ 32 % 2 ^ 32) 4 == 0) ≡ false
four_in a = ground (arith, bit_and_four (bit_or a 4 % 2 ^ 32 % 2 ^ 32), bit_or_four a)

pub intr_get-intr_on : (c : Csrs) → intr_get (intr_on c) ≡ true
unfolding intr_get intr_on
intr_get-intr_on c = ap not (four_in (r_csr_crmd c))

-- What the handler gives back: the return address, the mode of before, and enabled interrupts.
abbrev pub Back : System → System → Type 0
Back s s' =
    (r_csr_era s'.csrs ≡ r_csr_era s.csrs)
    × (r_csr_prmd s'.csrs ≡ r_csr_prmd s.csrs)
    × (intr_get s'.csrs ≡ true)

pub leave-Back :
    (s t : System) → Back s (leave (r_csr_era (intr_off s.csrs)) (r_csr_prmd (intr_off s.csrs)) t)
unfolding intr_on intr_off
leave-Back s t = (
  refl,
  omega arith,
  intr_get-intr_on
      (w_csr_prmd (w_csr_era t.csrs (r_csr_era (intr_off s.csrs))) (r_csr_prmd (intr_off s.csrs))),
)

-- While the handler runs interrupts are off.
four_out : (a : ℕ) → (bit_and (bit_and a 0xfffffffb % 2 ^ 32 % 2 ^ 32) 4 == 0) ≡ true
four_out a =
    ground (arith, bit_and_four (bit_and a 0xfffffffb % 2 ^ 32 % 2 ^ 32), bit_and_not_four a)

pub intr_get-intr_off : (c : Csrs) → intr_get (intr_off c) ≡ false
unfolding intr_get intr_off
intr_get-intr_off c = ap not (four_out (r_csr_crmd c))
