-- ===== src/Mm/Bitmap/Bits.antt =====
-- kernel/mm/bitmap.c, `set_bit`: it changes one bit of the map and no other.
use echo_os.Base.{
  ℕ, ◌+◌, ◌/◌, ◌%◌, ◌^◌, ◌<◌, bit_and, List, ◌&&◌, Bool, true, false, done, not, ltb, leb, ◌==◌,
  if◌then◌else◌, length, get_or, set, arith, each_below, each_below-holds, ◌≡◌, refl, All,
  All-get_or, All-set, get_or-set_self, get_or-set_ne, length-set, ==_iff, Bool-cases, inl, lt→ltb,
  inr, ==_false,
}
use echo_os.Mm.Bitmap.{put_bit, set_bit, is_used}

-- Every element of the map is a byte.
abbrev pub IsBytes : List ℕ → Type 0
IsBytes map = All (λ b. b < 256) map

abbrev pub inside : ℕ → ℕ → ℕ → Bool
inside lo n q = leb lo q && ltb q (lo + n)

-- `map'` is `map` with the `n` bits from `lo` on set to `value`.
pub record Painted (map map' : List ℕ) (lo n value : ℕ) : Type 0 where
  pub same_length : length map' ≡ length map
  pub bytes : IsBytes map'
  pub bits : (q : ℕ) → is_used map' q ≡ (if inside lo n q then not (value == 0) else is_used map q)

abbrev same : Bool → Bool → Bool
same true b = b
same false b = not b

same_eq : (a b : Bool) → same a b ≡ true → a ≡ b
same_eq true b h = ground arith
same_eq false true h = ground arith
same_eq false false h = refl

abbrev bit_law : ℕ → ℕ → ℕ → ℕ → Bool
bit_law v b j k =
    same (bit_and (put_bit b j v) (2 ^ k) == 0) (if j == k then v == 0 else bit_and b (2 ^ k) == 0)

put_bit_table_set :
    each_below 256 (λ b. each_below 8 (λ j. each_below 8 (λ k. bit_law 1 b j k))) ≡ true
unfolding each_below
put_bit_table_set = refl

put_bit_table_clear :
    each_below 256 (λ b. each_below 8 (λ j. each_below 8 (λ k. bit_law 0 b j k))) ≡ true
unfolding each_below
put_bit_table_clear = refl

put_bit_table_byte :
    each_below 256 (λ b. each_below 8 (λ j. ltb (put_bit b j 0) 256 && ltb (put_bit b j 1) 256))
    ≡ true
unfolding each_below
put_bit_table_byte = refl

module _ (b j k : ℕ) (hb : b < 256) (hj : j < 8) (hk : k < 8) where
  put_bit-one :
      (bit_and (put_bit b j 1) (2 ^ k) == 0) ≡ (if j == k then false else bit_and b (2 ^ k) == 0)
  put_bit-one = same_eq _ _ (
      each_below-holds 8 (λ k. bit_law 1 b j k) k
        (each_below-holds 8 (λ j. each_below 8 (λ k. bit_law 1 b j k)) j
          (each_below-holds 256 (λ b. each_below 8 (λ j. each_below 8 (λ k. bit_law 1 b j k))) b
            put_bit_table_set hb)
          hj)
        hk)

  put_bit-zero :
      (bit_and (put_bit b j 0) (2 ^ k) == 0) ≡ (if j == k then true else bit_and b (2 ^ k) == 0)
  put_bit-zero = same_eq _ _ (
      each_below-holds 8 (λ k. bit_law 0 b j k) k
        (each_below-holds 8 (λ j. each_below 8 (λ k. bit_law 0 b j k)) j
          (each_below-holds 256 (λ b. each_below 8 (λ j. each_below 8 (λ k. bit_law 0 b j k))) b
            put_bit_table_clear hb)
          hj)
        hk)

  put_bit_law :
      (v : ℕ)
      → (bit_and (put_bit b j v) (2 ^ k) == 0) ≡ (if j == k then v == 0 else bit_and b (2 ^ k) == 0)
  put_bit_law v = elim (Bool-cases (v == 0)) [
    | inl e ↦ rw e put_bit-zero
    | inr e ↦ rw e put_bit-one
  ]

put_bit-lt : (b j v : ℕ) → b < 256 → j < 8 → put_bit b j v < 256
put_bit-lt b j v hb hj = elim (Bool-cases (v == 0)) [
  | inl e ↦ rw e (ground (arith, row))
  | inr e ↦ rw e (ground (arith, row))
]
  where
    row : (ltb (put_bit b j 0) 256 && ltb (put_bit b j 1) 256) ≡ true
    row =
        each_below-holds 8 (λ j. ltb (put_bit b j 0) 256 && ltb (put_bit b j 1) 256) j
          (each_below-holds 256
            (λ b. each_below 8 (λ j. ltb (put_bit b j 0) 256 && ltb (put_bit b j 1) 256)) b
            put_bit_table_byte hb)
          hj

abbrev pub with_bit : List ℕ → ℕ → ℕ → List ℕ
with_bit map p v = set map (p / 8) (put_bit (get_or map (p / 8) 0) (p % 8) v)

pub set_bit_lem :
    (map : List ℕ) (p v : ℕ) → p / 8 < length map → set_bit map p v ≡ done (with_bit map p v)
unfolding set_bit
set_bit_lem map p v h = rw (lt→ltb _ _ h)

byte_at : (map : List ℕ) (i : ℕ) → IsBytes map → get_or map i 0 < 256
byte_at map i h = All-get_or (λ b. b < 256) map i 0 h (omega arith)

with_bit-is_used :
    (map : List ℕ) (p v q : ℕ)
    → IsBytes map
    → p / 8 < length map
    → is_used (with_bit map p v) q ≡ (if p == q then not (v == 0) else is_used map q)
with_bit-is_used map p v q h lt = elim (Bool-cases ((p / 8) == (q / 8))) [
  | inl e ↦
      let e' : p / 8 ≡ q / 8 = (==_iff _ _).0 e in
      rw
        (
          ← e',
          get_or-set_self map (p / 8) (put_bit (get_or map (p / 8) 0) (p % 8) v) 0 lt,
          put_bit_law (get_or map (p / 8) 0) (p % 8) (q % 8) (byte_at map _ h) (omega arith)
              (omega arith) v,
        )
        (ground arith)
  | inr e ↦
      rw
        (get_or-set_ne map (p / 8) (q / 8) (put_bit (get_or map (p / 8) 0) (p % 8) v) 0
          (==_false _ _ e))
        (ground (arith, ==_false _ _ e))
]

pub with_bit-Painted :
    (map : List ℕ) (p v : ℕ)
    → IsBytes map
    → p / 8 < length map
    → Painted map (with_bit map p v) p 1 v
with_bit-Painted map p v h lt = record {
  same_length = length-set map _ _;
  bytes = All-set (λ b. b < 256) map _ _ h (put_bit-lt _ _ v (byte_at map _ h) (omega arith));
  bits = λ q. ground (arith, with_bit-is_used map p v q h lt);
}
