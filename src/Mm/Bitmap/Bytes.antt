-- ===== src/Mm/Bitmap/Bytes.antt =====
-- kernel/mm/bitmap.c, the byte-aligned pair `alloc_aligned_bits` and `free_aligned_bits`.
use echo_os.Base.{
  ℕ, zero, suc, ◌+◌, ◌-◌, ◌*◌, ◌/◌, ◌%◌, ◌^◌, ◌<◌, ◌≤◌, List, true, false, done, fault, ltb, ◌==◌,
  ◌&&◌, if◌then◌else◌, length, arith, ◌≡◌, refl, not, lt→ltb, Bool-cases, inl, inr, ltb→lt, ==_iff,
  ==_false, set, bit_and, each_below, each_below-holds, get_or-set_self, get_or-set_ne, length-set,
  All-set,
}
use echo_os.Mm.Bitmap.{mark_bytes, clear_bytes, free_aligned_bits, is_used}
use echo_os.Mm.Bitmap.Bits.{IsBytes, inside, Painted}
use echo_os.Mm.Bitmap.Mark.{Painted-down, Painted-up, Painted-none}

full_byte : each_below 8 (λ k. not (bit_and 0xFF (2 ^ k) == 0) && (bit_and 0 (2 ^ k) == 0)) ≡ true
unfolding each_below
full_byte = refl

-- One byte written whole: all its bits are set (0xFF) or clear (0).
pub byte_bits :
    (k : ℕ) → k < 8 → ((bit_and 0xFF (2 ^ k) == 0) ≡ false) × ((bit_and 0 (2 ^ k) == 0) ≡ true)
byte_bits k h = ground (
  arith,
  each_below-holds 8 (λ k. not (bit_and 0xFF (2 ^ k) == 0) && (bit_and 0 (2 ^ k) == 0)) k full_byte
      h,
)

abbrev fill : ℕ → ℕ
fill v = if v == 0 then 0 else 0xFF

fill_bits : (v k : ℕ) → k < 8 → (bit_and (fill v) (2 ^ k) == 0) ≡ (v == 0)
fill_bits v k h = elim (Bool-cases (v == 0)) [
  | inl e ↦ rw (e, (byte_bits k h).1)
  | inr e ↦ rw (e, (byte_bits k h).0)
]

byte-Painted :
    (map : List ℕ) (b v : ℕ)
    → IsBytes map
    → b < length map
    → Painted map (set map b (fill v)) (b * 8) 8 v
byte-Painted map b v h lt = record {
  same_length = length-set map b _;
  bytes = All-set (λ b. b < 256) map b _ h (ground arith);
  bits = bits;
}
  where
    bits :
        (q : ℕ)
        → is_used (set map b (fill v)) q
          ≡ (if inside (b * 8) 8 q then not (v == 0) else is_used map q)
    bits q = elim (Bool-cases (b == (q / 8))) [
      | inl e ↦
          let e' : b ≡ q / 8 = (==_iff _ _).0 e in
          rw (← e', get_or-set_self map b (fill v) 0 lt, fill_bits v (q % 8) (omega arith))
            (ground arith)
      | inr e ↦
          rw (get_or-set_ne map b (q / 8) (fill v) 0 (==_false _ _ e))
            (ground (arith, ==_false _ _ e))
    ]

-- Rounds `l` on fill the `n` bytes below byte `i - l`.
pub mark_bytes-Painted :
    (map : List ℕ) (i l n lo : ℕ)
    → IsBytes map
    → lo + n + l ≡ i
    → i ≤ length map
    → (map' : List ℕ) × (mark_bytes map i l n ≡ done map') × Painted map map' (lo * 8) (n * 8) 1
unfolding mark_bytes
mark_bytes-Painted map i l zero lo h e hi = (map, refl, Painted-none map _ 1 h)
mark_bytes-Painted map i l (suc n) lo h e hi =
    let top = byte-Painted map (i - l - 1) 1 h (omega arith) in
    let (map', ran, p) =
      mark_bytes-Painted (set map (i - l - 1) 0xFF) i (l + 1) n lo top.bytes (omega arith)
        (omega (arith, top.same_length)) in
    (
      map',
      rw (lt→ltb l i (omega arith), lt→ltb (i - l - 1) (length map) (omega arith)) ran,
      Painted-down map _ map' (lo * 8) ((i - l - 1) * 8) (n * 8) 8 (suc n * 8) 1 (omega arith)
          (omega arith) top p,
    )

-- `bitmap[i - l - 1]` with a negative index.
pub mark_bytes-fault :
    (map : List ℕ) (i l n : ℕ) → l ≤ i → i < l + n → i ≤ length map → mark_bytes map i l n ≡ fault
unfolding mark_bytes
mark_bytes-fault map i l zero lo lt hi = absurd (omega arith)
mark_bytes-fault map i l (suc n) lo lt hi = elim (Bool-cases (ltb l i)) [
  | inl e ↦
      rw (e, lt→ltb (i - l - 1) (length map) (omega (arith, ltb→lt l i e)))
        (mark_bytes-fault (set map (i - l - 1) 0xFF) i (l + 1) n (omega (arith, ltb→lt l i e))
          (omega arith) (omega (arith, length-set {0})))
  | inr e ↦ rw e refl
]

clear_bytes-Painted :
    (map : List ℕ) (index i n lo : ℕ)
    → IsBytes map
    → index + i ≡ lo
    → lo + n ≤ length map
    → (map' : List ℕ) × (clear_bytes map index i n ≡ done map')
      × Painted map map' (lo * 8) (n * 8) 0
unfolding clear_bytes
clear_bytes-Painted map index i zero lo h e hi = (map, refl, Painted-none map _ 0 h)
clear_bytes-Painted map index i (suc n) lo h e hi =
    let first = byte-Painted map lo 0 h (omega arith) in
    let (map', ran, p) =
      clear_bytes-Painted (set map lo 0) index (i + 1) n (lo + 1) first.bytes (omega arith)
        (omega (arith, first.same_length)) in
    (
      map',
      rw (e, lt→ltb lo (length map) (omega arith)) ran,
      Painted-up map _ map' (lo * 8) ((lo + 1) * 8) (n * 8) 8 (suc n * 8) 0 (omega arith)
          (omega arith) first p,
    )

-- When the run lies in a map of bytes, with `index` and `size` rounded up to whole bytes,
-- `free_aligned_bits` clears its bits and leaves every other bit and the length of the map as
-- they were.
pub free_aligned_bits-Painted :
    (map : List ℕ) (index size : ℕ)
    → IsBytes map
    → (index + 7) / 8 + (size + 7) / 8 ≤ length map
    → (map' : List ℕ) × (free_aligned_bits map index size ≡ done map')
      × Painted map map' ((index + 7) / 8 * 8) ((size + 7) / 8 * 8) 0
unfolding free_aligned_bits
free_aligned_bits-Painted map index size h hi =
    clear_bytes-Painted map ((index + 7) / 8) 0 ((size + 7) / 8) ((index + 7) / 8) h (omega arith)
      hi
