-- ===== src/Utils/Split/Join.antt =====
-- kernel/utils/string.c, `split` at a delimiter of one character, as all of its callers have.
use echo_os.Base.{
  append_assoc, length-snoc, ℕ, zero, suc, ◌+◌, ◌<◌, Bool, true, false, ◌&&◌, List, [], ◌∷◌, ◌++◌,
  Exec, done, ltb, ◌==◌, length, All, ◌≡◌, refl, ap, sym, ◌∙◌, arith, Bool-cases, inl, inr, lt→ltb,
  ==_iff,
}
use echo_os.Utils.Split.{agree, split_from, split}

abbrev join : ℕ → List ℕ → List (List ℕ) → List ℕ
join d row [] = row
join d row (r ∷ rows) = row ++ (d ∷ join d r rows)

abbrev pub Without : ℕ → List ℕ → Type 0
Without d cs = All (λ c. (c == d) ≡ false) cs

Without-snoc :
    (d : ℕ) (xs : List ℕ) (c : ℕ) → Without d xs → (c == d) ≡ false → Without d (xs ++ (c ∷ []))
Without-snoc d [] c w e = (e, tt)
Without-snoc d (x ∷ xs) c w e = (w.0, Without-snoc d xs c w.1 e)

and_true : (a b : Bool) → a ≡ true → b ≡ true → (a && b) ≡ true
and_true true b e e' = e'
and_true false b e e' = cc

agree_one : (c d : ℕ) (str : List ℕ) (b : Bool) → (c == d) ≡ b → agree 1 (c ∷ str) (d ∷ []) ≡ b
agree_one c d str b e = ground (arith, e)

-- The rows that a run is to return: together they are the text, and none has the delimiter.
abbrev pub Rows : ℕ → List ℕ → Exec (List (List ℕ)) → Type 0
Rows d text m =
    (row : List ℕ) × (rows : List (List ℕ)) × (m ≡ done (row ∷ rows))
    × (join d row rows ≡ text)
    × All (Without d) (row ∷ rows)

split_from-Rows :
    (fuel d : ℕ) (str : List ℕ) (j : ℕ) (row : List ℕ)
    → length str < fuel
    → j + length str < 100
    → length row + length str < 100
    → Without d row
    → Rows d (row ++ str) (split_from fuel str (d ∷ []) j row)
unfolding split_from
split_from-Rows zero d str j row lt hj hr w = absurd (omega arith)
split_from-Rows (suc fuel) d [] j row lt hj hr w = (row, [], refl, sym (append-nil row), (w, tt))
  where
    append-nil : (xs : List ℕ) → xs ++ [] ≡ xs
    append-nil [] = refl
    append-nil (x ∷ xs) = ap (λ l. x ∷ l) (append-nil xs)
split_from-Rows (suc fuel) d (c ∷ str) j row lt hj hr w =
    let room : (ltb j 100 && ltb (length row) 100) ≡ true =
      and_true _ _ (lt→ltb j 100 (omega arith)) (lt→ltb (length row) 100 (omega arith)) in
    elim (Bool-cases (c == d)) [
      | inl same ↦
          let (r, rows, ran, text, all) =
            split_from-Rows fuel d str (j + 1) [] (omega arith) (omega arith) (omega arith) tt in
          (
            row,
            r ∷ rows,
            rw (room, agree_one c d str true same, ran) refl,
            ap (λ l. row ++ (d ∷ l)) text ∙ ap (λ x. row ++ (x ∷ str)) (sym ((==_iff c d).0 same)),
            (w, all),
          )
      | inr other ↦
          let (r, rows, ran, text, all) =
            split_from-Rows fuel d str j (row ++ (c ∷ [])) (omega arith) (omega arith)
              (omega (arith, length-snoc row c)) (Without-snoc d row c w other) in
          (
            r,
            rows,
            rw (room, agree_one c d str false other, ran) refl,
            text ∙ append_assoc row (c ∷ []) str,
            all,
          )
    ]

-- On a text of fewer than 100 characters, with fuel for its length, `split` at one character ends
-- within the bounds of its result. The rows, joined by the delimiter, are the text, and no row has it.
pub split_lem :
    (fuel d : ℕ) (str : List ℕ)
    → length str < fuel
    → length str < 100
    → Rows d str (split fuel str (d ∷ []))
unfolding split
split_lem fuel d str lt short = split_from-Rows fuel d str 0 [] lt (omega arith) (omega arith) tt
