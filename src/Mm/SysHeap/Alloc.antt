-- ===== src/Mm/SysHeap/Alloc.antt =====
-- kernel/mm/sys_heap.c, `sys_heap_alloc`: what a call may come to, and what it means for a client.
use echo_os.Base.{
  ℕ, ◌+◌, ◌-◌, ◌*◌, ◌/◌, ◌%◌, ◌<◌, ◌≤◌, List, true, false, done, fault, timeout, ltb, if◌then◌else◌,
  length, arith, ◌≡◌, refl, Option, none, some, Bool-cases, inl, inr, ◌⊎◌, ◌^◌, dec_lt, Exec, ◌>>=◌,
}
use echo_os.Mm.Bitmap.{is_used}
use echo_os.Mm.Bitmap.Bits.{IsBytes, inside, Painted}
use echo_os.Mm.Bitmap.Scan.{Allocated, alloc_bits_lem}
use echo_os.Mm.Bitmap.Aligned.{
  AllocatedBytes, alloc_aligned_bits_lem, alloc_aligned_bits_over, zero_byte-is_used,
}
use echo_os.Mm.SysHeap.{SysHeap, threshold, round_trip, take_index, sys_heap_alloc}

pub record IsValid (h : SysHeap) : Type 0 where
  pub bytes : IsBytes h.bitmap
  pub nonempty : 0 < length h.bitmap
  pub last_in_map : h.last ≤ 8 * length h.bitmap

-- The bits that a request is given: whole bytes of the map from the threshold on.
abbrev pub granted : ℕ → ℕ
granted size = if ltb size threshold then size else (size + 7) / 8 * 8

-- The run from bit `index` on was free; it is in use afterwards, and all else is as before.
pub record Granted (h h' : SysHeap) (index size : ℕ) : Type 0 where
  pub in_map : index + granted size ≤ 8 * length h.bitmap
  pub was_free : (q : ℕ) → inside index (granted size) q ≡ true → is_used h.bitmap q ≡ false
  pub painted : Painted h.bitmap h'.bitmap index (granted size) 1
  pub last_behind : h'.last ≡ index + granted size
  pub memory_kept : h'.memory ≡ h.memory
  pub aligned : threshold ≤ size → index % 8 ≡ 0

-- A run of `n` bits that was counted across the end of the map: its `p` highest bits are the lowest of
-- the map, the rest are the highest, and all are clear.
abbrev pub Across : List ℕ → ℕ → Type 0
Across map n =
    (p : ℕ) × (p < n)
    × (n ≤ p + 8 * length map)
    × ((q : ℕ) → q < p → is_used map q ≡ false)
    × ((q : ℕ) → q < 8 * length map → p + 8 * length map ≤ q + n → is_used map q ≡ false)

abbrev pub AllocOutcome : ℕ → SysHeap → ℕ → Exec (Option ℕ × SysHeap) → Type 0
AllocOutcome base h size (done (none, h')) =
    (h'.bitmap ≡ h.bitmap) × (h'.last ≡ h.last) × (h'.memory ≡ h.memory)
AllocOutcome base h size (done (some p, h')) = (base ≤ p) × Granted h h' (p - base) size
AllocOutcome base h size fault = (2 ^ 31 ≤ size + 7) ⊎ Across h.bitmap (granted size)
AllocOutcome base h size timeout = ⊥

small_outcome :
    (base : ℕ) (h : SysHeap) (size : ℕ) (run : Exec (Option ℕ × List ℕ × ℕ))
    → ltb size threshold ≡ true
    → Allocated h.bitmap size h.last run
    → AllocOutcome base h size (run >>= take_index base h)
small_outcome base h size (done (none, map, last)) small (e, e') = (e, e', refl)
small_outcome base h size (done (some index, map, last)) small (behind, top, free, painted) =
    let at : base + index - base ≡ index = omega arith in
    (
      omega arith,
      rw (at) (record {
        in_map = rw small (omega arith);
        was_free = rw small free;
        painted = rw small painted;
        last_behind = rw small (omega arith);
        memory_kept = refl;
        aligned = λ big. absurd (ground arith);
      }),
    )
small_outcome base h size fault small (p, pos, low, bound, below, above) =
    inr (p, rw small low, rw small (omega arith), below, λ q lt far. above q lt (rw small at far))
small_outcome base h size timeout small never = never

large_outcome :
    (base : ℕ) (h : SysHeap) (size : ℕ) (run : Exec (Option ℕ × List ℕ × ℕ))
    → ltb size threshold ≡ false
    → AllocatedBytes h.bitmap ((size + 7) / 8) h.last run
    → AllocOutcome base h size (run >>= take_index base h)
large_outcome base h size (done (none, map, last)) large (e, e') = (e, e', refl)
large_outcome base h size (done (some index, map, last)) large
      (behind, top, multiple, free, painted) =
    let at : base + index - base ≡ index = omega arith in
    (
      omega arith,
      rw (at) (record {
        in_map = rw large (omega arith);
        was_free = rw large free;
        painted = rw large painted;
        last_behind = rw large (omega arith);
        memory_kept = refl;
        aligned = λ big. multiple;
      }),
    )
large_outcome base h size fault large (i, low, bound, below, above) = inr (
  i * 8,
  rw large (omega arith),
  rw large (omega arith),
  (λ q lt. zero_byte-is_used h.bitmap q (below (q / 8) (omega arith))),
  λ q lt far.
      let far' : i * 8 + 8 * length h.bitmap ≤ q + (size + 7) / 8 * 8 = rw large at far in
      zero_byte-is_used h.bitmap q (above (q / 8) (omega arith) (omega arith)),
)
large_outcome base h size timeout large never = never

-- On a valid heap with the end of the last allocation in the map, `sys_heap_alloc` ends. It
-- returns NULL and changes nothing; or it returns a pointer into the heap to a run of `size`
-- bytes (whole bytes of the map from the threshold on, aligned to 8) that was free, is in use
-- afterwards and ends at the new `last`, with all other bits and the memory as before; or it
-- faults, and then 7 added to the size is no int, or a run of the request's length was counted across
-- the end of the map: its upper bits, less than all, were the lowest of the map, the others the highest,
-- and all were clear.
pub sys_heap_alloc_lem :
    (base : ℕ) (h : SysHeap) (size : ℕ)
    → IsValid h
    → h.last < 8 * length h.bitmap
    → AllocOutcome base h size (sys_heap_alloc base h size)
unfolding sys_heap_alloc
sys_heap_alloc_lem base h size valid last_ok = elim (Bool-cases (ltb size threshold)) [
  | inl small ↦
      let run =
        alloc_bits_lem h.bitmap size h.last (round_trip h) valid.bytes last_ok (omega arith) in
      rw small (small_outcome base h size _ small run)
  | inr large ↦ elim (dec_lt (size + 7) (2 ^ 31)) [
    | yes fits ↦
        let run =
          alloc_aligned_bits_lem h.bitmap size h.last (round_trip h) valid.bytes valid.nonempty
            (omega arith) fits in
        rw large (large_outcome base h size _ large run)
    | no over ↦
        rw
          (
            large,
            alloc_aligned_bits_over (round_trip h) h.bitmap (length h.bitmap) size h.last
                (omega arith),
          )
          (inl (omega arith))
  ]
]
