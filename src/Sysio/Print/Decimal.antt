-- ===== src/Sysio/Print/Decimal.antt =====
-- kernel/sysio/io.c, `printint`: what is printed in base 10 is a decimal numeral.
use echo_os.Base.{
  ℕ, zero, suc, ◌+◌, ◌/◌, ◌%◌, ◌≤◌, ◌<◌, ◌≢◌, true, List, [], ◌∷◌, ◌++◌, Exec, done, fault, timeout,
  ◌>>=◌, ◌==◌, ◌≡◌, refl, ap, sym, ◌∙◌, arith, inl, inr, each_below, each_below-holds, ==_iff,
  ==_false, Bool-cases,
}
use mathlib.Core.Path.{subst}
use echo_os.Sysio.Print.{digit, collect, backwards}

-- '0' to '9'
abbrev AllDigits : List ℕ → Type 0
AllDigits [] = Unit
AllDigits (c ∷ cs) = (48 ≤ c) × (c ≤ 57) × AllDigits cs

-- At least one digit, and no '0' in front of others.
abbrev pub IsNumeral : List ℕ → Type 0
IsNumeral [] = ⊥
IsNumeral (c ∷ []) = (48 ≤ c) × (c ≤ 57)
IsNumeral (c ∷ (d ∷ cs)) = (49 ≤ c) × (c ≤ 57) × AllDigits (d ∷ cs)

-- The digits in `buf`, the highest last, which is not '0'.
abbrev Topped : List ℕ → Type 0
Topped [] = ⊥
Topped (c ∷ []) = (49 ≤ c) × (c ≤ 57)
Topped (c ∷ (d ∷ cs)) = (48 ≤ c) × (c ≤ 57) × Topped (d ∷ cs)

abbrev ToppedIf : Exec (List ℕ) → Type 0
ToppedIf (done buf) = Topped buf
ToppedIf fault = Unit
ToppedIf timeout = Unit

ten_digits : each_below 10 (λ d. digit d == 48 + d) ≡ true
unfolding each_below
ten_digits = refl

digit_lem : (d : ℕ) → d < 10 → digit d ≡ 48 + d
digit_lem d lt = (==_iff _ _).0 (each_below-holds 10 _ d ten_digits lt)

ToppedIf-cons :
    (c : ℕ) (m : Exec (List ℕ))
    → 48 ≤ c
    → c ≤ 57
    → ToppedIf m
    → ToppedIf (m >>= λ buf. done (c ∷ buf))
ToppedIf-cons c (done []) low high t = absurd t
ToppedIf-cons c (done (d ∷ buf)) low high t = (low, high, t)
ToppedIf-cons c fault low high t = tt
ToppedIf-cons c timeout low high t = tt

collect-ToppedIf : (room x : ℕ) → x ≢ 0 → ToppedIf (collect room x 10)
unfolding collect
collect-ToppedIf zero x pos = tt
collect-ToppedIf (suc room) x pos =
    let is : digit (x % 10) ≡ 48 + x % 10 = digit_lem (x % 10) (omega arith) in
    elim (Bool-cases (x / 10 == 0)) [
      | inl over ↦
          let small : x / 10 ≡ 0 = (==_iff (x / 10) 0).0 over in
          rw over (omega (arith, is, small, pos), omega (arith, is))
      | inr more ↦ rw more (
          ToppedIf-cons (digit (x % 10)) (collect room (x / 10) 10) (omega (arith, is))
            (omega (arith, is)) (collect-ToppedIf room (x / 10) (==_false (x / 10) 0 more)))
    ]

AllDigits-snoc : (cs : List ℕ) (c : ℕ) → AllDigits cs → 48 ≤ c → c ≤ 57 → AllDigits (cs ++ (c ∷ []))
AllDigits-snoc [] c h low high = (low, high, tt)
AllDigits-snoc (d ∷ cs) c (l, u, h) low high = (l, u, AllDigits-snoc cs c h low high)

backwards-Topped :
    (buf : List ℕ)
    → Topped buf
    → (c : ℕ) × (cs : List ℕ) × (backwards buf ≡ c ∷ cs) × (49 ≤ c) × (c ≤ 57) × AllDigits cs
unfolding backwards
backwards-Topped [] t = absurd t
backwards-Topped (c ∷ []) (low, high) = (c, [], refl, low, high, tt)
backwards-Topped (c ∷ (d ∷ buf)) (low, high, t) =
    let (e, es, is, l, u, all) = backwards-Topped (d ∷ buf) t in
    (e, es ++ (c ∷ []), ap (λ cs. cs ++ (c ∷ [])) is, l, u, AllDigits-snoc es c all low high)

leading-IsNumeral : (c : ℕ) (cs : List ℕ) → 49 ≤ c → c ≤ 57 → AllDigits cs → IsNumeral (c ∷ cs)
leading-IsNumeral c [] low high all = (omega arith, high)
leading-IsNumeral c (d ∷ cs) low high all = (low, high, all)

some_digits : (x : ℕ) (buf : List ℕ) → x ≡ 0 → collect 16 x 10 ≡ done buf → 48 ∷ [] ≡ buf
unfolding collect
some_digits x buf none ran =
    let zero_ran : collect 16 0 10 ≡ done buf = ap (λ n. collect 16 n 10) (sym none) ∙ ran in
    let same : done (48 ∷ []) ≡ done buf = zero_ran in cc

-- What the loop leaves, printed backwards, is a numeral.
pub printed-IsNumeral :
    (x : ℕ) (buf : List ℕ) → collect 16 x 10 ≡ done buf → IsNumeral (backwards buf)
unfolding backwards
printed-IsNumeral x buf ran = elim (Bool-cases (x == 0)) [
  | inl none ↦
      subst (λ b. IsNumeral (backwards b)) (some_digits x buf ((==_iff x 0).0 none) ran)
        (omega arith, omega arith)
  | inr some_left ↦
      let topped : Topped buf =
        subst ToppedIf ran (collect-ToppedIf 16 x (==_false x 0 some_left)) in
      let (c, cs, is, low, high, all) = backwards-Topped buf topped in
      subst IsNumeral (sym is) (leading-IsNumeral c cs low high all)
]
