-- ===== src/Utils/Memory.antt =====
-- kernel/utils/memory.c over the machine's memory, a function from addresses to bytes. The pointers
-- run upwards and are not wrapped: an object ends below the last address.
pub mod Laws
use echo_os.Base.{ℕ, zero, suc, ◌+◌, ◌==◌, if◌then◌else◌}

abbrev pub Memory : Type 0
Memory = ℕ → ℕ

abbrev pub store : Memory → ℕ → ℕ → Memory
store m p v q = if p == q then v else m q

unfoldable pub memset : Memory → ℕ → ℕ → ℕ → Memory
memset m ptr c zero = m
memset m ptr c (suc size) = memset (store m ptr c) (ptr + 1) c size

-- 1 for equal regions, 0 for different ones.
unfoldable pub memcmp : Memory → ℕ → ℕ → ℕ → ℕ
memcmp m ptr1 ptr2 zero = 1
memcmp m ptr1 ptr2 (suc size) = if m ptr1 == m ptr2 then memcmp m (ptr1 + 1) (ptr2 + 1) size else 0

unfoldable pub memcpy : Memory → ℕ → ℕ → ℕ → Memory
memcpy m ptr1 ptr2 zero = m
memcpy m ptr1 ptr2 (suc size) = memcpy (store m ptr1 (m ptr2)) (ptr1 + 1) (ptr2 + 1) size
