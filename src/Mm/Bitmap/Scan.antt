-- ===== src/Mm/Bitmap/Scan.antt =====
-- kernel/mm/bitmap.c, `alloc_bits`: the whole call.
use echo_os.Base.{
  ℕ, suc, ◌+◌, ◌-◌, ◌*◌, ◌/◌, ◌%◌, ◌<◌, ◌≤◌, List, true, false, done, fault, timeout, length, arith,
  ◌≡◌, refl, Option, none, some, Exec, dec_lt, ◌>>=◌,
}
use echo_os.Mm.Bitmap.{scan_bits, alloc_bits, is_used, mark_bits}
use echo_os.Mm.Bitmap.Bits.{IsBytes, inside, Painted}
use echo_os.Mm.Bitmap.Mark.{mark_bits-Painted, mark_bits-fault}
use echo_os.Mm.Bitmap.Search.{Found, scan_bits_lem}

-- What `alloc_bits` may come to on map `map`: -1 with nothing changed; a run of `size` clear bits
-- below the new `*last`, now set; or a fault, when the run found reaches below bit 0 and was
-- counted across the end of the map.
abbrev pub Allocated : List ℕ → ℕ → ℕ → Exec (Option ℕ × List ℕ × ℕ) → Type 0
Allocated map size last (done (none, map', last')) = (map' ≡ map) × (last' ≡ last)
Allocated map size last (done (some index, map', last')) =
    (index + size ≡ last')
    × (last' ≤ 8 * length map)
    × ((q : ℕ) → inside index size q ≡ true → is_used map q ≡ false)
    × Painted map map' index size 1
Allocated map size last fault =
    (p : ℕ) × (0 < p)
    × (p < size)
    × (last + size ≤ p + 8 * length map)
    × ((q : ℕ) → q < p → is_used map q ≡ false)
    × ((q : ℕ) → q < 8 * length map → p + 8 * length map ≤ q + size → is_used map q ≡ false)
Allocated map size last timeout = ⊥

alloc_bits-Found :
    (map : List ℕ) (size last p : ℕ)
    → IsBytes map
    → Found map size last (some p)
    → Allocated map size last (mark_bits map p 0 size >>= (λ map'. done (some (p - size), map', p)))
alloc_bits-Found map size last p h (hp, free, above, bound, begun) = elim (dec_lt p size) [
  | yes low ↦ rw (mark_bits-fault map p 0 size (omega arith) (omega arith) hp) (
    p,
    begun (omega arith),
    low,
    bound,
    (λ q lt.
        let same : p - (p - q - 1) - 1 ≡ q = omega arith in
        rw same at (free (p - q - 1) (omega arith) (omega arith))),
    λ q lt far.
        let t = p + 8 * length map - q - 1 in
        let same : p + 8 * length map - t - 1 ≡ q = omega arith in
        rw same at (above t (omega arith) (omega arith)),
  )
  | no high ↦
      let (map', ran, painted) = mark_bits-Painted map p 0 size (p - size) h (omega arith) hp in
      rw ran (
        omega arith,
        hp,
        (λ q in_run.
            let bounds : (p - size ≤ q) × (q < p - size + size) = ground arith in
            let same : p - (p - q - 1) - 1 ≡ q = omega arith in
            rw same at (free (p - q - 1) (omega arith) (omega arith))),
        painted,
      )
]

alloc_bits_finish :
    (map : List ℕ) (size last : ℕ) (found : Option ℕ)
    → IsBytes map
    → Found map size last found
    → Allocated map size last (elim found [
      | none ↦ done (none, map, last)
      | some last' ↦
          mark_bits map last' 0 size >>= (λ map'. done (some (last' - size), map', last'))
    ])
alloc_bits_finish map size last none h f = (refl, refl)
alloc_bits_finish map size last (some p) h f = alloc_bits-Found map size last p h f

-- On a map of bytes, with `*last` in the map and fuel for one round over it, `alloc_bits` ends.
-- It returns -1 and changes nothing; or it returns the start of a run of `size` bits of the map
-- that were clear, sets these bits and no other, and leaves the end of the run in `*last`; or it
-- faults, and then the run was counted across the end of the map: for some position `p` above 0 and
-- below `size` the lowest `p` bits and the highest `size - p` bits of the map were clear, these at or
-- behind `*last`.
pub alloc_bits_lem :
    (map : List ℕ) (size last fuel : ℕ)
    → IsBytes map
    → last < 8 * length map
    → 8 * length map + 1 < fuel
    → Allocated map size last (alloc_bits fuel map (length map) size last)
unfolding alloc_bits
alloc_bits_lem map size last fuel h hl hf =
    let (r, ran, found) = scan_bits_lem map size last (last / 8) (omega arith) fuel refl hf in
    rw ran (alloc_bits_finish map size last r h found)

-- With `*last` at `8 * map_size`, as after an allocation that ends at the top of the map, a call
-- for at least one bit reads the byte behind the map.
pub alloc_bits_at_top :
    (map : List ℕ) (size fuel : ℕ)
    → 0 < size
    → alloc_bits (suc fuel) map (length map) size (8 * length map) ≡ fault
unfolding alloc_bits scan_bits
alloc_bits_at_top map size fuel h =
    let i : 8 * length map / 8 ≡ length map = omega arith in
    let j : 8 * length map % 8 ≡ 0 = omega arith in rw (i, j) (ground arith)
