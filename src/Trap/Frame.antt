-- ===== src/Trap/Frame.antt =====
-- kernel/trap/trap.c, `trap_entry`: the assembly that an interrupt enters, as a list of instructions.
-- A register is its number, and memory is a function from the address of a word of 64 bits to it; the
-- words of one frame do not overlap.
pub mod Words
pub mod Restore
mod Tests
use echo_os.Base.{
  ℕ, zero, suc, ◌+◌, ◌-◌, ◌*◌, ◌%◌, ◌^◌, Bool, List, [], ◌∷◌, ◌++◌, map, ◌==◌, if◌then◌else◌,
}

pub record Machine : Type 0 where
  pub reg : ℕ → ℕ
  pub mem : ℕ → ℕ

-- An immediate below 0 is given by what it adds modulo 2 ^ 64.
pub data Instr : Type 0 where
  addi_d : ℕ → ℕ → ℕ → Instr
  st_d : ℕ → ℕ → ℕ → Instr
  ld_d : ℕ → ℕ → ℕ → Instr

abbrev pub put : (ℕ → ℕ) → ℕ → ℕ → ℕ → ℕ
put f n v k = if k == n then v else f k

abbrev pub at : ℕ → ℕ → ℕ
at base offset = (base + offset) % 2 ^ 64

unfoldable pub step : Machine → Instr → Machine
step s (addi_d rd rj imm) = record s { reg = put s.reg rd (at (s.reg rj) imm) }
step s (st_d rd rj imm) = record s { mem = put s.mem (at (s.reg rj) imm) (s.reg rd) }
step s (ld_d rd rj imm) = record s { reg = put s.reg rd (s.mem (at (s.reg rj) imm)) }

unfoldable pub run : Machine → List Instr → Machine
run s [] = s
run s (i ∷ is) = run (step s i) is

abbrev pub sp : ℕ
sp = 3

-- The registers by their names, each with its offset: ra, tp, sp, a0 to a7, v0 and v1, which are other
-- names of a0 and a1, t0 to t8, r21, fp, and s0 to s8.
abbrev pub frame : List (ℕ × ℕ)
frame =
    (1, 0)
    ∷ (2, 8)
    ∷ (3, 16)
    ∷ (4, 24)
    ∷ (5, 32)
    ∷ (6, 40)
    ∷ (7, 48)
    ∷ (8, 56)
    ∷ (9, 64)
    ∷ (10, 72)
    ∷ (11, 80)
    ∷ (4, 88)
    ∷ (5, 96)
    ∷ (12, 104)
    ∷ (13, 112)
    ∷ (14, 120)
    ∷ (15, 128)
    ∷ (16, 136)
    ∷ (17, 144)
    ∷ (18, 152)
    ∷ (19, 160)
    ∷ (20, 168)
    ∷ (21, 176)
    ∷ (22, 184)
    ∷ (23, 192)
    ∷ (24, 200)
    ∷ (25, 208)
    ∷ (26, 216)
    ∷ (27, 224)
    ∷ (28, 232)
    ∷ (29, 240)
    ∷ (30, 248)
    ∷ (31, 256)
    ∷ []

abbrev pub save : ℕ × ℕ → Instr
save (r, offset) = st_d r sp offset

abbrev pub restore : ℕ × ℕ → Instr
restore (r, offset) = ld_d r sp offset

abbrev pub reversed : List (ℕ × ℕ) → List (ℕ × ℕ)
reversed [] = []
reversed (p ∷ ps) = reversed ps ++ (p ∷ [])

-- Up to the call of `trap_handler`.
unfoldable pub save_all : Machine → Machine
save_all s = run s (addi_d sp sp (2 ^ 64 - 256) ∷ map save frame)

-- From its return on, up to `ertn`.
unfoldable pub restore_all : Machine → Machine
restore_all s = run s (map restore (reversed frame) ++ (addi_d sp sp 256 ∷ []))

-- `handler` is what `trap_handler` does to the machine.
unfoldable pub trap_entry : (Machine → Machine) → Machine → Machine
trap_entry handler s = restore_all (handler (save_all s))
