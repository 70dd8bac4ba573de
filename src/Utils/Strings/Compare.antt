-- ===== src/Utils/Strings/Compare.antt =====
-- kernel/utils/string.c: `strlen`, `strcmp` and `strncmp` against the strings that memory holds.
use echo_os.Base.{
  ℕ, zero, suc, ◌+◌, ◌<◌, ◌==◌, if◌then◌else◌, ◌≡◌, refl, arith, ◌⊎◌, inl, inr, List, [], ◌∷◌,
  Bool-cases, ==_iff, ==_false, done, length,
}
use Prim.Native.Nat.{min}
use echo_os.Base.{ap, take}
use echo_os.Utils.Memory.{Memory}
use echo_os.Utils.Strings.{strlen, strcmp, strncmp}

-- Memory holds the text at an address, its bytes and a NUL behind them. No byte of a text is NUL.
abbrev pub Holds : Memory → ℕ → List ℕ → Type 0
Holds m p [] = m p ≡ 0
Holds m p (c ∷ cs) = (m p ≡ c) × (¬ (c ≡ 0)) × Holds m (p + 1) cs

-- On a text in memory, with fuel for its length, `strlen` ends and returns its length, added to
-- the count it begins with (0 in a call).
pub strlen_from :
    (m : Memory) (p : ℕ) (s : List ℕ) (len fuel : ℕ)
    → Holds m p s
    → length s < fuel
    → strlen fuel m p len ≡ done (len + length s)
unfolding strlen
strlen_from m p s len zero h lt = absurd (omega arith)
strlen_from m p [] len (suc fuel) h lt = ground arith
strlen_from m p (c ∷ cs) len (suc fuel) (e, ne, rest) lt =
    ground (arith, strlen_from m (p + 1) cs (len + 1) fuel rest (omega arith))

abbrev compare_texts : List ℕ → List ℕ → ℕ
compare_texts [] [] = 0
compare_texts [] (d ∷ ds) = 1
compare_texts (c ∷ cs) [] = 1
compare_texts (c ∷ cs) (d ∷ ds) = if c == d then compare_texts cs ds else 1

strcmp_texts :
    (m : Memory) (p q : ℕ) (s t : List ℕ) (fuel : ℕ)
    → Holds m p s
    → Holds m q t
    → length s < fuel
    → strcmp fuel m p q ≡ done (compare_texts s t)
unfolding strcmp
strcmp_texts m p q s t zero hs ht lt = absurd (omega arith)
strcmp_texts m p q [] [] (suc fuel) hs ht lt = ground arith
strcmp_texts m p q [] (d ∷ ds) (suc fuel) hs (e, ne, rest) lt = ground arith
strcmp_texts m p q (c ∷ cs) [] (suc fuel) (e, ne, rest) ht lt = ground arith
strcmp_texts m p q (c ∷ cs) (d ∷ ds) (suc fuel) (e, ne, rest) (e', ne', rest') lt =
    ground (arith, strcmp_texts m (p + 1) (q + 1) cs ds fuel rest rest' (omega arith))

compare_texts_lem :
    (s t : List ℕ) → ((compare_texts s t ≡ 0) × (s ≡ t)) ⊎ ((compare_texts s t ≡ 1) × (¬ (s ≡ t)))
compare_texts_lem [] [] = inl (refl, refl)
compare_texts_lem [] (d ∷ ds) = inr (refl, λ e. cc)
compare_texts_lem (c ∷ cs) [] = inr (refl, λ e. cc)
compare_texts_lem (c ∷ cs) (d ∷ ds) = elim (compare_texts_lem cs ds) [
  | inl (r, e) ↦ elim (Bool-cases (c == d)) [
    | inl same ↦ let same' : c ≡ d = (==_iff c d).0 same in inl (rw same r, cc)
    | inr other ↦ inr (rw other refl, λ e'. ==_false c d other (cc))
  ]
  | inr (r, ne) ↦ inr (ground arith, λ e'. ne (cc))
]

-- With fuel for the first text, `strcmp` ends: with 0 for equal texts, with 1 for different ones.
pub strcmp_lem :
    (m : Memory) (p q : ℕ) (s t : List ℕ) (fuel : ℕ)
    → Holds m p s
    → Holds m q t
    → length s < fuel
    → ((strcmp fuel m p q ≡ done 0) × (s ≡ t)) ⊎ ((strcmp fuel m p q ≡ done 1) × (¬ (s ≡ t)))
strcmp_lem m p q s t fuel hs ht lt =
    rw (strcmp_texts m p q s t fuel hs ht lt) (elim (compare_texts_lem s t) [
      | inl (r, e) ↦ inl (ap done r, e)
      | inr (r, ne) ↦ inr (ap done r, ne)
    ])

-- The number of bytes that `strncmp` looks at.
abbrev pub shared : ℕ → List ℕ → List ℕ → ℕ
shared n s t = min n (min (length s) (length t))

compare_prefixes : ℕ → List ℕ → List ℕ → ℕ
compare_prefixes zero s t = 0
compare_prefixes (suc n) [] t = 0
compare_prefixes (suc n) (c ∷ cs) [] = 0
compare_prefixes (suc n) (c ∷ cs) (d ∷ ds) = if c == d then compare_prefixes n cs ds else 1

strncmp_texts :
    (m : Memory) (p q n : ℕ) (s t : List ℕ)
    → Holds m p s
    → Holds m q t
    → strncmp m p q n ≡ compare_prefixes n s t
unfolding strncmp compare_prefixes
strncmp_texts m p q zero s t hs ht = refl
strncmp_texts m p q (suc n) [] t hs ht = ground arith
strncmp_texts m p q (suc n) (c ∷ cs) [] (e, ne, rest) ht = ground arith
strncmp_texts m p q (suc n) (c ∷ cs) (d ∷ ds) (e, ne, rest) (e', ne', rest') =
    ground (arith, strncmp_texts m (p + 1) (q + 1) n cs ds rest rest')

compare_prefixes_lem :
    (n : ℕ) (s t : List ℕ) (k : ℕ)
    → k ≡ shared n s t
    → ((compare_prefixes n s t ≡ 0) × (take k s ≡ take k t))
      ⊎ ((compare_prefixes n s t ≡ 1) × (¬ (take k s ≡ take k t)))
unfolding compare_prefixes
compare_prefixes_lem n s t zero e = inl (none_looked n s t e, refl)
  where
    none_looked : (n : ℕ) (s t : List ℕ) → 0 ≡ shared n s t → compare_prefixes n s t ≡ 0
    none_looked zero s t e = refl
    none_looked (suc n) [] t e = refl
    none_looked (suc n) (c ∷ cs) [] e = refl
    none_looked (suc n) (c ∷ cs) (d ∷ ds) e = absurd (omega arith)
compare_prefixes_lem zero s t (suc k) e = absurd (omega arith)
compare_prefixes_lem (suc n) [] t (suc k) e = absurd (omega arith)
compare_prefixes_lem (suc n) (c ∷ cs) [] (suc k) e = absurd (omega arith)
compare_prefixes_lem (suc n) (c ∷ cs) (d ∷ ds) (suc k) e = elim (Bool-cases (c == d)) [
  | inr other ↦ inr (rw other refl, λ e'. ==_false c d other (cc))
  | inl same ↦
      let same' : c ≡ d = (==_iff c d).0 same in
      elim (compare_prefixes_lem n cs ds k (omega arith)) [
        | inl (r, e') ↦ inl (rw same r, cc)
        | inr (r, ne) ↦ inr (rw same r, λ e'. ne (cc))
      ]
]

-- `strncmp` returns 0 when the texts agree as far as both reach and at most `n` bytes, and 1
-- otherwise. So a text equals each of its prefixes here, whatever `n` is.
pub strncmp_lem :
    (m : Memory) (p q n : ℕ) (s t : List ℕ)
    → Holds m p s
    → Holds m q t
    → ((strncmp m p q n ≡ 0) × (take (shared n s t) s ≡ take (shared n s t) t))
      ⊎ ((strncmp m p q n ≡ 1) × (¬ (take (shared n s t) s ≡ take (shared n s t) t)))
strncmp_lem m p q n s t hs ht =
    rw (strncmp_texts m p q n s t hs ht) (compare_prefixes_lem n s t (shared n s t) refl)
