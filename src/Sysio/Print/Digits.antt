-- ===== src/Sysio/Print/Digits.antt =====
-- kernel/sysio/io.c, `printint`: the digits that are printed stand for the number.
use echo_os.Base.{
  ℕ, zero, suc, ◌+◌, ◌-◌, ◌*◌, ◌/◌, ◌%◌, ◌^◌, ◌<◌, ◌≤◌, true, false, List, [], ◌∷◌, ◌++◌, done, ltb,
  ◌==◌, if◌then◌else◌, ◌≡◌, refl, ap, sym, ◌∙◌, ◌⊎◌, inl, inr, arith, length, each_below,
  each_below-holds, ==_iff, Bool-cases, ==_false, lt→ltb,
}
use native.Mathlib.Numerals.{unary_clauses, add-one}
use echo_os.Base.Int.{ℤ, pos, negsuc}
use echo_os.Sysio.Print.Decimal.{IsNumeral, printed-IsNumeral}
use echo_os.Sysio.Print.{digit, collect, backwards, printint}

-- What a digit stands for.
abbrev digit_value : ℕ → ℕ
digit_value c = if ltb c 97 then c - 48 else c - 87

digit_table : each_below 16 (λ d. digit_value (digit d) == d) ≡ true
unfolding each_below
digit_table = refl

digit_value-digit : (d : ℕ) → d < 16 → digit_value (digit d) ≡ d
digit_value-digit d lt = (==_iff _ d).0 (each_below-holds 16 _ d digit_table lt)

-- Reading a numeral from the left.
unfoldable pub number : ℕ → ℕ → List ℕ → ℕ
number base acc [] = acc
number base acc (c ∷ cs) = number base (acc * base + digit_value c) cs

number-++ :
    (base acc : ℕ) (xs ys : List ℕ)
    → number base acc (xs ++ ys) ≡ number base (number base acc xs) ys
unfolding number
number-++ base acc [] ys = refl
number-++ base acc (x ∷ xs) ys = number-++ base (acc * base + digit_value x) xs ys

-- The number in `buf`, where the lowest digit is first.
abbrev in_buf : ℕ → List ℕ → ℕ
in_buf base [] = 0
in_buf base (c ∷ cs) = in_buf base cs * base + digit_value c

number-backwards : (base : ℕ) (buf : List ℕ) → number base 0 (backwards buf) ≡ in_buf base buf
unfolding number backwards
number-backwards base [] = refl
number-backwards base (c ∷ cs) =
    number-++ base 0 (backwards cs) (c ∷ [])
    ∙ ap (λ n. n * base + digit_value c) (number-backwards base cs)

abbrev Fits : ℕ → ℕ → ℕ → Type 0
Fits base zero x = ⊥
Fits base (suc room) x = (x / base ≡ 0) ⊎ Fits base room (x / base)

module _ (base : ℕ) (split : (x : ℕ) → x / base * base + x % base ≡ x)
    (small : (x : ℕ) → x % base < 16) where
  next_digit : (x n : ℕ) → n ≡ x / base → n * base + digit_value (digit (x % base)) ≡ x
  next_digit x n e =
      ap (λ d. n * base + d) (digit_value-digit (x % base) (small x))
      ∙ (ap (λ q. q * base + x % base) e ∙ split x)

  collect_lem :
      (room k x : ℕ)
      → Fits base k x
      → k ≤ room
      → (buf : List ℕ) × (collect room x base ≡ done buf) × (in_buf base buf ≡ x) × (length buf ≤ k)
  unfolding collect
  collect_lem room zero x fits le = absurd fits
  collect_lem zero (suc k) x fits le = absurd (omega arith)
  collect_lem (suc room) (suc k) x fits le = elim (Bool-cases (x / base == 0)) [
    | inl over ↦ (
      digit (x % base) ∷ [],
      rw over refl,
      next_digit x 0 (sym ((==_iff _ 0).0 over)),
      omega arith,
    )
    | inr more ↦
        let shorter : Fits base k (x / base) = elim fits [
          | inl e ↦ absurd (==_false (x / base) 0 more e)
          | inr f ↦ f
        ] in
        let (buf, ran, is, len) = collect_lem room k (x / base) shorter (omega arith) in
        (
          digit (x % base) ∷ buf,
          rw (more, ran) refl,
          next_digit x (in_buf base buf) is,
          omega (arith, len),
        )
  ]

Fits-ten : (room x : ℕ) → x < 10 ^ suc room → Fits 10 (suc room) x
Fits-ten zero x lt = inl (omega arith)
Fits-ten (suc room) x lt =
    let below : x < 10 ^ room * 10 * 10 = simp unary_clauses at lt in
    let shorter : x / 10 < 10 ^ room * 10 = omega arith in
    inr (Fits-ten room (x / 10) (simp unary_clauses shorter))

abbrev pub absolute : ℤ → ℕ
absolute (pos n) = n
absolute (negsuc n) = suc n

-- The text of a number: a sign where it is negative, and its digits.
abbrev pub signed : ℤ → List ℕ → List ℕ
signed (pos n) cs = cs
signed (negsuc n) cs = 45 ∷ cs

backwards-snoc : (buf : List ℕ) (c : ℕ) → backwards (buf ++ (c ∷ [])) ≡ c ∷ backwards buf
unfolding backwards
backwards-snoc [] c = refl
backwards-snoc (b ∷ buf) c = ap (λ cs. cs ++ (b ∷ [])) (backwards-snoc buf c)

-- `printint` in base 10, with a sign, prints any int but the least one: a minus where it is negative,
-- and then the decimal numeral of its absolute value, which is at least one of the digits '0' to '9',
-- with no '0' in front of others, that read as this number.
pub printint_lem :
    (xx : ℤ)
    → absolute xx < 2 ^ 31
    → (cs : List ℕ) × (printint xx 10 true ≡ done (signed xx cs))
      × (number 10 0 cs ≡ absolute xx)
      × IsNumeral cs
unfolding printint
printint_lem (pos n) lt =
    let (buf, ran, is, len) =
      collect_lem 10 (λ x. omega arith) (λ x. omega arith) 16 10 n (Fits-ten 9 n (omega arith))
        (omega arith) in
    (backwards buf, rw ran refl, number-backwards 10 buf ∙ is, printed-IsNumeral n buf ran)
printint_lem (negsuc n) lt =
    let (buf, ran, is, len) =
      collect_lem 10 (λ x. omega arith) (λ x. omega arith) 16 10 (suc n)
        (Fits-ten 9 (suc n) (omega arith)) (omega arith) in
    let not_least : (n == 2 ^ 31 - 1) ≡ false = ground arith in
    let room_left : ltb (length buf) 16 ≡ true = lt→ltb (length buf) 16 (omega (arith, len)) in
    (
      backwards buf,
      rw (not_least, add-one n, ran, room_left, backwards-snoc buf 45) refl,
      number-backwards 10 buf ∙ is,
      printed-IsNumeral (suc n) buf ran,
    )
