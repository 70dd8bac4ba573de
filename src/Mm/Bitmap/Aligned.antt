-- ===== src/Mm/Bitmap/Aligned.antt =====
-- kernel/mm/bitmap.c, `alloc_aligned_bits`: the whole call.
use echo_os.Base.{
  ℕ, ◌+◌, ◌-◌, ◌*◌, ◌/◌, ◌%◌, ◌<◌, ◌≤◌, List, true, false, done, fault, timeout, ltb, length, arith,
  ◌≡◌, ◌^◌, refl, lt→ltb, Option, none, some, Exec, dec_lt, ◌>>=◌, get_or,
}
use echo_os.Mm.Bitmap.{mark_bytes, alloc_aligned_bits, is_used}
use echo_os.Mm.Bitmap.Bits.{IsBytes, inside, Painted}
use echo_os.Mm.Bitmap.Bytes.{byte_bits, mark_bytes-Painted, mark_bytes-fault}
use echo_os.Mm.Bitmap.Zeros.{Found, scan_bytes_lem}

-- What `alloc_aligned_bits` may come to; `n` is the size in whole bytes.
abbrev pub AllocatedBytes : List ℕ → ℕ → ℕ → Exec (Option ℕ × List ℕ × ℕ) → Type 0
AllocatedBytes map n last (done (none, map', last')) = (map' ≡ map) × (last' ≡ last)
AllocatedBytes map n last (done (some index, map', last')) =
    (index + n * 8 ≡ last')
    × (last' < 8 * length map)
    × (index % 8 ≡ 0)
    × ((q : ℕ) → inside index (n * 8) q ≡ true → is_used map q ≡ false)
    × Painted map map' index (n * 8) 1
AllocatedBytes map n last fault =
    (i : ℕ) × (i < n)
    × ((last + 7) / 8 % length map + n ≤ i + length map)
    × ((q : ℕ) → q < i → get_or map q 0 ≡ 0)
    × ((q : ℕ) → q < length map → i + length map ≤ q + n → get_or map q 0 ≡ 0)
AllocatedBytes map n last timeout = ⊥

pub zero_byte-is_used : (map : List ℕ) (q : ℕ) → get_or map (q / 8) 0 ≡ 0 → is_used map q ≡ false
zero_byte-is_used map q e = rw (e, (byte_bits (q % 8) (omega arith)).1) refl

alloc_aligned_bits_finish :
    (map : List ℕ) (n last : ℕ) (found : Option ℕ)
    → IsBytes map
    → Found map n ((last + 7) / 8 % length map) found
    → AllocatedBytes map n last (elim found [
      | none ↦ done (none, map, last)
      | some i ↦ mark_bytes map i 0 n >>= (λ map'. done (some (i * 8 - n * 8), map', i * 8))
    ])
alloc_aligned_bits_finish map n last none h f = (refl, refl)
alloc_aligned_bits_finish map n last (some i) h (hi, free, above, bound) = elim (dec_lt i n) [
  | yes low ↦ rw (mark_bytes-fault map i 0 n (omega arith) (omega arith) (omega arith)) (
    i,
    low,
    bound,
    (λ q lt.
        let same : i - (i - q - 1) - 1 ≡ q = omega arith in
        rw same at (free (i - q - 1) (omega arith) (omega arith))),
    λ q lt far.
        let t = i + length map - q - 1 in
        let same : i + length map - t - 1 ≡ q = omega arith in
        rw same at (above t (omega arith) (omega arith)),
  )
  | no high ↦
      let (map', ran, painted) =
        mark_bytes-Painted map i 0 n (i - n) h (omega arith) (omega arith) in
      let same : i * 8 - n * 8 ≡ (i - n) * 8 = omega arith in
      rw (ran, same)
        (
          omega arith,
          omega arith,
          omega arith,
          (λ q in_run.
              let bounds : (i - n ≤ q / 8) × (q / 8 < i) = ground arith in
              let back : i - (i - q / 8 - 1) - 1 ≡ q / 8 = omega arith in
              zero_byte-is_used map q
                (rw back at (free (i - q / 8 - 1) (omega arith) (omega arith)))),
          painted,
        )
]

-- On a map of at least one byte, with fuel for one round over it, and for a size below 2 ^ 31 - 7,
-- `alloc_aligned_bits` ends, whatever `*last` is. It returns -1 and changes nothing; or it returns the start of a run of
-- whole bytes, `size` rounded up, at a byte boundary, all of whose bits were clear, sets these
-- bits and no other, and leaves the end of the run, which is in the map, in `*last`; or it
-- faults, and then the run was counted up to the end of the map or across it: for some index `i` below
-- its length the lowest `i` bytes and the rest of the run at the top of the map were zero, the latter
-- at or behind the byte where the search began.
pub alloc_aligned_bits_lem :
    (map : List ℕ) (size last fuel : ℕ)
    → IsBytes map
    → 0 < length map
    → length map < fuel
    → size + 7 < 2 ^ 31
    → AllocatedBytes map ((size + 7) / 8) last (alloc_aligned_bits fuel map (length map) size last)
unfolding alloc_aligned_bits
alloc_aligned_bits_lem map size last fuel h hl hf fits =
    let (r, ran, found) =
      scan_bytes_lem map ((size + 7) / 8) ((last + 7) / 8 % length map) (grind arith) fuel hf in
    rw (lt→ltb (size + 7) (2 ^ 31) fits, ran)
      (alloc_aligned_bits_finish map ((size + 7) / 8) last r h found)

pub alloc_aligned_bits_over :
    (fuel : ℕ) (map : List ℕ) (map_size size last : ℕ)
    → 2 ^ 31 ≤ size + 7
    → alloc_aligned_bits fuel map map_size size last ≡ fault
unfolding alloc_aligned_bits
alloc_aligned_bits_over fuel map map_size size last over =
    let too_large : ltb (size + 7) (2 ^ 31) ≡ false = ground arith in rw too_large refl
