-- ===== src/Mm/SysHeap/Free.antt =====
-- kernel/mm/kmalloc.c and sys_heap.c: allocation and release together.
use echo_os.Base.{
  ℕ, zero, suc, ◌+◌, ◌-◌, ◌*◌, ◌/◌, ◌%◌, ◌<◌, ◌≤◌, List, false, done, fault, timeout, ltb, length,
  true, arith, ◌≡◌, refl, none, some, Bool-cases, inl, inr, ◌⊎◌, ◌≢◌, lt→ltb,
}
use native.Mathlib.Numerals.{add-two}
use echo_os.Base.Int.{pos}
use echo_os.Mm.Bitmap.{is_used, free_bits, free_aligned_bits}
use echo_os.Mm.Bitmap.Bits.{IsBytes, Painted}
use echo_os.Mm.Bitmap.Mark.{free_bits-Painted}
use echo_os.Mm.Bitmap.Scan.{alloc_bits_at_top}
use echo_os.Mm.Bitmap.Bytes.{free_aligned_bits-Painted}
use echo_os.Mm.SysHeap.{
  SysHeap, threshold, sys_heap_alloc, free_index, sys_heap_free, kmalloc, kfree,
}
use echo_os.Mm.SysHeap.Alloc.{IsValid, granted, Granted, AllocOutcome, sys_heap_alloc_lem}

-- A pointer that `kmalloc` returns stands for a run of the heap that was free and is now in use.
pub kmalloc-Granted :
    (base : ℕ) (h h' : SysHeap) (n p : ℕ)
    → IsValid h
    → h.last < 8 * length h.bitmap
    → kmalloc base h (pos n) ≡ done (some p, h')
    → (0 < n) × (base ≤ p) × Granted h h' (p - base) n
unfolding kmalloc
kmalloc-Granted base h h' zero p valid last_ok e = absurd (cc)
kmalloc-Granted base h h' (suc n) p valid last_ok e =
    let (le, g) : AllocOutcome base h (suc n) (done (some p, h')) =
      rw e at (sys_heap_alloc_lem base h (suc n) valid last_ok) in
    (omega arith, le, g)

-- A request that `kmalloc` declines leaves the map as it is.
pub kmalloc_declined :
    (base : ℕ) (h h' : SysHeap) (n : ℕ)
    → IsValid h
    → h.last < 8 * length h.bitmap
    → kmalloc base h (pos n) ≡ done (none, h')
    → h'.bitmap ≡ h.bitmap
unfolding kmalloc
kmalloc_declined base h h' zero valid last_ok e = cc
kmalloc_declined base h h' (suc n) valid last_ok e =
    let (same, last, mem) : AllocOutcome base h (suc n) (done (none, h')) =
      rw e at (sys_heap_alloc_lem base h (suc n) valid last_ok) in
    same

-- On a heap that is not full to its last bit a request ends, or reads in front of the map.
pub kmalloc_ends :
    (base : ℕ) (h : SysHeap) (n : ℕ)
    → IsValid h
    → h.last < 8 * length h.bitmap
    → kmalloc base h (pos n) ≢ timeout
unfolding kmalloc
kmalloc_ends base h zero valid last_ok e = cc
kmalloc_ends base h (suc n) valid last_ok e =
    let broken : AllocOutcome base h (suc n) timeout =
      rw e at (sys_heap_alloc_lem base h (suc n) valid last_ok) in
    broken

pub Granted-IsValid : (h h' : SysHeap) (index n : ℕ) → IsValid h → Granted h h' index n → IsValid h'
Granted-IsValid h h' index n v g = record {
  bytes = g.painted.bytes;
  nonempty = omega (arith, g.painted.same_length, v.nonempty);
  last_in_map = omega (arith, g.painted.same_length, g.last_behind, g.in_map);
}

-- On a valid heap, two calls of `kmalloc` in a row that both return a pointer, each starting with
-- `last` in the map, return blocks that do not overlap.
pub kmalloc_disjoint :
    (base : ℕ) (h h' h'' : SysHeap) (n n' p p' : ℕ)
    → IsValid h
    → h.last < 8 * length h.bitmap
    → h'.last < 8 * length h'.bitmap
    → kmalloc base h (pos n) ≡ done (some p, h')
    → kmalloc base h' (pos n') ≡ done (some p', h'')
    → (p + granted n ≤ p') ⊎ (p' + granted n' ≤ p)
kmalloc_disjoint base h h' h'' n n' p p' valid ok ok' e e' =
    let (n_pos, le, g) = kmalloc-Granted base h h' n p valid ok e in
    let valid' = Granted-IsValid h h' (p - base) n valid g in
    let (n'_pos, le', g') = kmalloc-Granted base h' h'' n' p' valid' ok' e' in
    ground (
      arith,
      g.painted.bits (p - base),
      g.painted.bits (p' - base),
      g'.was_free (p - base),
      g'.was_free (p' - base),
    )

abbrev pub Freed : ℕ → SysHeap → ℕ → ℕ → ℕ → Type 0
Freed base h p n run =
    (map : List ℕ) × (free_index base h p n ≡ done map) × Painted h.bitmap map (p - base) run 0

free_small :
    (base : ℕ) (h : SysHeap) (n p : ℕ)
    → base ≤ p
    → ltb n threshold ≡ true
    → (map : List ℕ) × (free_bits h.bitmap (p - base) n ≡ done map)
      × Painted h.bitmap map (p - base) n 0
    → Freed base h p n (granted n)
unfolding free_index
free_small base h n p le small (map, ran, painted) =
    let here : ltb p base ≡ false = ground arith in (map, rw (small, here) ran, rw small painted)

free_large :
    (base : ℕ) (h : SysHeap) (n p : ℕ)
    → base ≤ p
    → ltb n threshold ≡ false
    → (p - base) % 8 ≡ 0
    → (map : List ℕ) × (free_aligned_bits h.bitmap (p - base) n ≡ done map)
      × Painted h.bitmap map ((p - base + 7) / 8 * 8) ((n + 7) / 8 * 8) 0
    → Freed base h p n (granted n)
unfolding free_index
free_large base h n p le large at8 (map, ran, painted) =
    let whole : (p - base + 7) / 8 * 8 ≡ p - base = omega arith in
    let here : ltb (p + 14) base ≡ false = ground arith in
    (map, rw (large, here) ran, rw large (rw whole at painted))

-- Freeing a block of the heap, at bit `p - base` of the map: exactly its bits are clear afterwards.
pub free_block :
    (base : ℕ) (h : SysHeap) (n p : ℕ)
    → 0 < n
    → base ≤ p
    → IsBytes h.bitmap
    → p - base + granted n ≤ 8 * length h.bitmap
    → (threshold ≤ n → (p - base) % 8 ≡ 0)
    → Freed base h p n (granted n)
free_block base h n p n_pos le bytes in_map aligned = elim (Bool-cases (ltb n threshold)) [
  | inl small ↦
      free_small base h n p le small
        (free_bits-Painted h.bitmap (p - base) n bytes (ground (arith, in_map)))
  | inr large ↦ free_large base h n p le large (aligned (ground arith)) (
      free_aligned_bits-Painted h.bitmap (p - base) n bytes
        (ground (arith, in_map, aligned (ground arith))))
]

-- On a valid heap with `last` in the map, `kfree` with the pointer and the size of a `kmalloc`
-- that succeeded ends, and each bit of the map and the memory are what they were before the
-- `kmalloc`; the heap is valid.
pub kfree-kmalloc :
    (base : ℕ) (h h' : SysHeap) (n p : ℕ)
    → IsValid h
    → h.last < 8 * length h.bitmap
    → kmalloc base h (pos n) ≡ done (some p, h')
    → (h'' : SysHeap) × (kfree base h' (some p) (pos n) ≡ done h'')
      × IsValid h''
      × (h''.memory ≡ h.memory)
      × ((q : ℕ) → is_used h''.bitmap q ≡ is_used h.bitmap q)
unfolding kfree sys_heap_free
kfree-kmalloc base h h' zero p valid ok e =
    absurd (omega (arith, (kmalloc-Granted base h h' zero p valid ok e).0))
kfree-kmalloc base h h' (suc n) p valid ok e =
    let (n_pos, le, g) = kmalloc-Granted base h h' (suc n) p valid ok e in
    let (map, ran, painted) =
      free_block base h' (suc n) p n_pos le g.painted.bytes
        (omega (arith, g.in_map, g.painted.same_length)) g.aligned in
    (
      record h' { bitmap = map },
      rw ran refl,
      record {
        bytes = painted.bytes;
        nonempty = omega (arith, painted.same_length, g.painted.same_length, valid.nonempty);
        last_in_map =
            omega (arith, painted.same_length, g.painted.same_length, g.last_behind, g.in_map);
      },
      g.memory_kept,
      λ q. ground (arith, painted.bits q, g.painted.bits q, g.was_free q),
    )

-- Once an allocation has ended at the top of the map, a request of at least one byte below the
-- threshold reads the byte behind the map.
pub kmalloc_at_top :
    (base : ℕ) (h : SysHeap) (n : ℕ)
    → h.last ≡ 8 * length h.bitmap
    → 0 < n
    → n < threshold
    → kmalloc base h (pos n) ≡ fault
unfolding kmalloc sys_heap_alloc
kmalloc_at_top base h zero top n_pos small = absurd (omega arith)
kmalloc_at_top base h (suc n) top n_pos small =
    rw
      (
        lt→ltb (suc n) threshold small,
        top,
        add-two (8 * length h.bitmap),
        alloc_bits_at_top h.bitmap (suc n) (suc (8 * length h.bitmap)) n_pos,
      )
      refl
