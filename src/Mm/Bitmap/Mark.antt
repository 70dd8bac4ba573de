-- ===== src/Mm/Bitmap/Mark.antt =====
-- kernel/mm/bitmap.c, the loops that set or clear a run of bits.
use echo_os.Base.{
  ℕ, zero, suc, ◌+◌, ◌-◌, ◌*◌, ◌<◌, ◌≤◌, List, done, fault, ltb, length, arith, ◌≡◌, refl, lt→ltb,
  ltb→lt, Bool-cases, inl, inr, length-set,
}
use echo_os.Mm.Bitmap.{mark_bits, clear_bits, free_bits}
use echo_os.Mm.Bitmap.Bits.{IsBytes, Painted, with_bit, set_bit_lem, with_bit-Painted}

-- Two adjacent runs painted one after the other, the upper run first.
pub Painted-down :
    (a b c : List ℕ) (lo mid n m all v : ℕ)
    → lo + n ≡ mid
    → n + m ≡ all
    → Painted a b mid m v
    → Painted b c lo n v
    → Painted a c lo all v
Painted-down a b c lo mid n m all v e f p q = record {
  same_length = omega (arith, p.same_length, q.same_length);
  bytes = q.bytes;
  bits = λ x. ground (arith, p.bits x, q.bits x);
}

-- The same, the lower run first.
pub Painted-up :
    (a b c : List ℕ) (lo mid n m all v : ℕ)
    → lo + m ≡ mid
    → n + m ≡ all
    → Painted a b lo m v
    → Painted b c mid n v
    → Painted a c lo all v
Painted-up a b c lo mid n m all v e f p q = record {
  same_length = omega (arith, p.same_length, q.same_length);
  bytes = q.bytes;
  bits = λ x. ground (arith, p.bits x, q.bits x);
}

pub Painted-none : (a : List ℕ) (lo v : ℕ) → IsBytes a → Painted a a lo 0 v
Painted-none a lo v h = record { same_length = refl; bytes = h; bits = λ x. ground arith }

-- Rounds `l` on of the marking loop set the `n` bits below `last - l`.
pub mark_bits-Painted :
    (map : List ℕ) (last l n lo : ℕ)
    → IsBytes map
    → lo + n + l ≡ last
    → last ≤ 8 * length map
    → (map' : List ℕ) × (mark_bits map last l n ≡ done map') × Painted map map' lo n 1
unfolding mark_bits
mark_bits-Painted map last l zero lo h e hi = (map, refl, Painted-none map _ 1 h)
mark_bits-Painted map last l (suc n) lo h e hi =
    let top = with_bit-Painted map (last - l - 1) 1 h (omega arith) in
    let (map', ran, p) =
      mark_bits-Painted (with_bit map (last - l - 1) 1) last (l + 1) n lo top.bytes (omega arith)
        (omega (arith, top.same_length)) in
    (
      map',
      rw (lt→ltb l last (omega arith), set_bit_lem map (last - l - 1) 1 (omega arith)) ran,
      Painted-down map _ map' lo (last - l - 1) n 1 (suc n) 1 (omega arith) (omega arith) top p,
    )

-- A run that reaches below the start of the map faults: `*last - l - 1` is negative in C.
pub mark_bits-fault :
    (map : List ℕ) (last l n : ℕ)
    → l ≤ last
    → last < l + n
    → last ≤ 8 * length map
    → mark_bits map last l n ≡ fault
unfolding mark_bits
mark_bits-fault map last l zero lo lt hi = absurd (omega arith)
mark_bits-fault map last l (suc n) lo lt hi = elim (Bool-cases (ltb l last)) [
  | inl e ↦
      rw (e, set_bit_lem map (last - l - 1) 1 (omega (arith, ltb→lt l last e)))
        (mark_bits-fault (with_bit map (last - l - 1) 1) last (l + 1) n
          (omega (arith, ltb→lt l last e)) (omega arith) (omega (arith, length-set {0})))
  | inr e ↦ rw e refl
]

clear_bits-Painted :
    (map : List ℕ) (index i n lo : ℕ)
    → IsBytes map
    → index + i ≡ lo
    → lo + n ≤ 8 * length map
    → (map' : List ℕ) × (clear_bits map index i n ≡ done map') × Painted map map' lo n 0
unfolding clear_bits
clear_bits-Painted map index i zero lo h e hi = (map, refl, Painted-none map _ 0 h)
clear_bits-Painted map index i (suc n) lo h e hi =
    let first = with_bit-Painted map lo 0 h (omega arith) in
    let (map', ran, p) =
      clear_bits-Painted (with_bit map lo 0) index (i + 1) n (lo + 1) first.bytes (omega arith)
        (omega (arith, first.same_length)) in
    (
      map',
      rw (e, set_bit_lem map lo 0 (omega arith)) ran,
      Painted-up map _ map' lo (lo + 1) n 1 (suc n) 0 refl (omega arith) first p,
    )

-- A run of bits that lies in a map of bytes is cleared by `free_bits`, which leaves every other
-- bit, the length of the map and its being a list of bytes as they were.
pub free_bits-Painted :
    (map : List ℕ) (index size : ℕ)
    → IsBytes map
    → index + size ≤ 8 * length map
    → (map' : List ℕ) × (free_bits map index size ≡ done map') × Painted map map' index size 0
unfolding free_bits
free_bits-Painted map index size h hi = clear_bits-Painted map index 0 size index h (omega arith) hi
