-- ===== src/Mm/Bitmap/Tests.antt =====
-- kernel/mm/bitmap.c: runs on a map of two bytes.
use echo_os.Base.{ℕ, List, [], ◌∷◌, some, done, fault, ◌≡◌, refl, arith}
use echo_os.Mm.Bitmap.{alloc_bits, alloc_aligned_bits, scan_bits, mark_bits, set_bit}
use echo_os.Mm.Bitmap.Bits.{IsBytes}
use echo_os.Mm.Bitmap.Scan.{Allocated, alloc_bits_lem, alloc_bits_at_top}
use echo_os.Mm.Bitmap.Aligned.{AllocatedBytes, alloc_aligned_bits_lem}

abbrev two_bytes : List ℕ
two_bytes = 7 ∷ 0 ∷ []

two_bytes-IsBytes : IsBytes two_bytes
two_bytes-IsBytes = (omega arith, (omega arith, tt))

-- Three bits are taken behind the three in use.
alloc_three : alloc_bits 20 two_bytes 2 3 0 ≡ done (some 3, 63 ∷ 0 ∷ [], 6)
unfolding alloc_bits scan_bits mark_bits set_bit
alloc_three = refl

-- A search from bit 12 for six bits counts across the end of the map.
alloc_wrapped : alloc_bits 20 (0 ∷ 0 ∷ []) 2 6 12 ≡ fault
unfolding alloc_bits scan_bits mark_bits set_bit
alloc_wrapped = refl

alloc_bits_lem_example : Allocated two_bytes 3 0 (alloc_bits 20 two_bytes 2 3 0)
alloc_bits_lem_example =
    alloc_bits_lem two_bytes 3 0 20 two_bytes-IsBytes (omega arith) (omega arith)

alloc_bits_at_top_example : alloc_bits 20 two_bytes 2 3 16 ≡ fault
alloc_bits_at_top_example = alloc_bits_at_top two_bytes 3 19 (omega arith)

alloc_aligned_bits_lem_example : AllocatedBytes two_bytes 1 0 (alloc_aligned_bits 5 two_bytes 2 8 0)
alloc_aligned_bits_lem_example =
    alloc_aligned_bits_lem two_bytes 8 0 5 two_bytes-IsBytes (omega arith) (omega arith)
      (omega arith)
