-- ===== src/Mm/SysHeap/Tests.antt =====
-- kernel/mm/kmalloc.c and sys_heap.c: runs on a heap of 32 bytes at address 100.
use echo_os.Base.{ℕ, ◌+◌, List, [], ◌∷◌, some, done, fault, ◌≡◌, refl, arith}
use echo_os.Base.Int.{pos}
use echo_os.Mm.Bitmap.{alloc_bits, scan_bits, mark_bits, set_bit, is_used}
use echo_os.Mm.SysHeap.{SysHeap, sys_heap_alloc, kmalloc, kfree}
use echo_os.Mm.SysHeap.Alloc.{IsValid, AllocOutcome, sys_heap_alloc_lem}
use echo_os.Mm.SysHeap.Empty.{empty_map-Implements}
use echo_os.Mm.SysHeap.Session.{Block, Remove, Steps, stay, next, got, Implements}
use echo_os.Mm.SysHeap.Session.Kept.{session-Implements}
use echo_os.Mm.SysHeap.Free.{kfree-kmalloc, kmalloc_at_top}

abbrev heap_with : List ℕ → ℕ → SysHeap
heap_with map last = record { bitmap = map; last = last; memory = λ q. 0 }

abbrev empty_heap : SysHeap
empty_heap = heap_with (0 ∷ 0 ∷ 0 ∷ 0 ∷ []) 0

empty_heap-IsValid : IsValid empty_heap
empty_heap-IsValid = record {
  bytes = (omega arith, (omega arith, (omega arith, (omega arith, tt))));
  nonempty = omega arith;
  last_in_map = omega arith;
}

first_block : kmalloc 100 empty_heap (pos 3) ≡ done (some 100, heap_with (7 ∷ 0 ∷ 0 ∷ 0 ∷ []) 3)
unfolding kmalloc sys_heap_alloc alloc_bits scan_bits mark_bits set_bit
first_block = refl

second_block :
    kmalloc 100 (heap_with (7 ∷ 0 ∷ 0 ∷ 0 ∷ []) 3) (pos 2)
    ≡ done (some 103, heap_with (31 ∷ 0 ∷ 0 ∷ 0 ∷ []) 5)
unfolding kmalloc sys_heap_alloc alloc_bits scan_bits mark_bits set_bit
second_block = refl

sys_heap_alloc_lem_example : AllocOutcome 100 empty_heap 3 (sys_heap_alloc 100 empty_heap 3)
sys_heap_alloc_lem_example = sys_heap_alloc_lem 100 empty_heap 3 empty_heap-IsValid (omega arith)

kfree-kmalloc_example :
    (h'' : SysHeap) × (kfree 100 (heap_with (7 ∷ 0 ∷ 0 ∷ 0 ∷ []) 3) (some 100) (pos 3) ≡ done h'')
    × IsValid h''
    × (h''.memory ≡ empty_heap.memory)
    × ((q : ℕ) → is_used h''.bitmap q ≡ is_used empty_heap.bitmap q)
kfree-kmalloc_example =
    kfree-kmalloc 100 empty_heap (heap_with (7 ∷ 0 ∷ 0 ∷ 0 ∷ []) 3) 3 100 empty_heap-IsValid
      (omega arith) first_block

kmalloc_at_top_example : kmalloc 100 (heap_with (0 ∷ 0 ∷ 0 ∷ 0 ∷ []) 32) (pos 3) ≡ fault
kmalloc_at_top_example =
    kmalloc_at_top 100 (heap_with (0 ∷ 0 ∷ 0 ∷ 0 ∷ []) 32) 3 refl (omega arith) (omega arith)

-- Two blocks, and the first one given back.
two_blocks : Steps 100 empty_heap [] (heap_with (31 ∷ 0 ∷ 0 ∷ 0 ∷ []) 5) ((3, 2) ∷ ((0, 3) ∷ []))
two_blocks =
    next (next stay (got 3 100 (omega arith) first_block)) (got 2 103 (omega arith) second_block)

empty_heap-Implements : Implements empty_heap []
empty_heap-Implements = empty_map-Implements 4 (λ q. 0) (omega arith)

session-Implements_example :
    Implements (heap_with (31 ∷ 0 ∷ 0 ∷ 0 ∷ []) 5) ((3, 2) ∷ ((0, 3) ∷ []))
    × ((i n : ℕ) (rest : List Block)
        → Remove i n ((3, 2) ∷ ((0, 3) ∷ [])) rest
        → (h'' : SysHeap) × (kfree 100 (heap_with (31 ∷ 0 ∷ 0 ∷ 0 ∷ []) 5) (some (100 + i)) (pos n)
            ≡ done h'')
          × Implements h'' rest)
session-Implements_example =
    session-Implements 100 empty_heap (heap_with (31 ∷ 0 ∷ 0 ∷ 0 ∷ []) 5) []
      ((3, 2) ∷ ((0, 3) ∷ [])) empty_heap-Implements two_blocks
