-- ===== src/Mm/DeadBeef.antt =====
-- kernel/mm/mm.c: the canary word that the buddy allocator leaves in a block. A `u32` is stored
-- with its low byte first.
use echo_os.Base.{ℕ, ◌+◌, ◌-◌, ◌*◌, ◌/◌, ◌%◌, ◌<◌, ◌≤◌, ◌==◌, Bool, true, ◌≡◌, arith, ◌⊎◌}
use echo_os.Utils.Memory.{Memory, store}

abbrev pub store_u32 : Memory → ℕ → ℕ → Memory
store_u32 m p v =
    store (store (store (store m p (v % 256)) (p + 1) (v / 256 % 256)) (p + 2) (v / 65536 % 256))
      (p + 3) (v / 16777216 % 256)

abbrev pub load_u32 : Memory → ℕ → ℕ
load_u32 m p = m p + m (p + 1) * 256 + m (p + 2) * 65536 + m (p + 3) * 16777216

-- `(u32 *)addr - 3` is twelve bytes below `addr`.
unfoldable pub set_dead_beef : Memory → ℕ → Memory
set_dead_beef m addr = store_u32 m (addr - 12) 0xdeadbeef

unfoldable pub check_dead_beef : Memory → ℕ → Bool
check_dead_beef m addr = load_u32 m (addr - 12) == 0xdeadbeef

-- The canary that `set_dead_beef` writes is found by `check_dead_beef` at the same address, and
-- writing it changes the four bytes from `addr - 12` on and no other.
pub check_dead_beef-set_dead_beef :
    (m : Memory) (addr : ℕ)
    → (check_dead_beef (set_dead_beef m addr) addr ≡ true)
      × ((q : ℕ) → (q < addr - 12) ⊎ (addr - 12 + 4 ≤ q) → set_dead_beef m addr q ≡ m q)
unfolding check_dead_beef set_dead_beef
check_dead_beef-set_dead_beef m addr = (ground arith, λ q far. ground arith)
