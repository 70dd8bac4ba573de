-- ===== src/Utils/Split/Word.antt =====
-- kernel/utils/string.c, `split` at one character: a word without it is one row.
use echo_os.Base.{
  ℕ, zero, suc, ◌+◌, ◌<◌, ◌≤◌, List, [], ◌∷◌, ◌++◌, done, length, ◌≡◌, refl, sym, ap, ◌∙◌, arith,
  lt→ltb, ==_iff, append_nil, snoc_append, length-snoc,
}
use echo_os.Utils.Split.{split, split_from}
use echo_os.Utils.Split.Join.{Without}

-- Up to the end of the text.
pub split_from-last :
    (fuel : ℕ) (s : List ℕ) (d j : ℕ) (row : List ℕ)
    → Without d s
    → length s < fuel
    → length row + length s ≤ 100
    → j < 100
    → split_from fuel s (d ∷ []) j row ≡ done ((row ++ s) ∷ [])
unfolding split_from
split_from-last zero s d j row without enough short lt = absurd (omega (arith, enough))
split_from-last (suc fuel) [] d j row without enough short lt =
    ap (λ r. done (r ∷ [])) (sym (append_nil row))
split_from-last (suc fuel) (c ∷ s) d j row (other, without) enough short lt =
    rw (lt→ltb j 100 lt, lt→ltb (length row) 100 (omega (arith, short)), other)
      (split_from-last fuel s d j (row ++ (c ∷ [])) without (omega (arith, enough))
          (omega (arith, short, length-snoc row c)) lt
        ∙ ap (λ r. done (r ∷ [])) (snoc_append row c s))

-- Up to the next delimiter, behind which `fuel` is left.
pub split_from-next :
    (total fuel : ℕ) (s t : List ℕ) (d j : ℕ) (row : List ℕ) (rows : List (List ℕ))
    → total ≡ length s + suc fuel
    → Without d s
    → length row + length s < 100
    → j < 100
    → split_from fuel t (d ∷ []) (j + 1) [] ≡ done rows
    → split_from total (s ++ (d ∷ t)) (d ∷ []) j row ≡ done ((row ++ s) ∷ rows)
unfolding split_from
split_from-next zero fuel s t d j row rows e without short lt ran = absurd (omega (arith, e))
split_from-next (suc total) fuel [] t d j row rows e without short lt ran =
    let same : total ≡ fuel = omega (arith, e) in
    let ran' : split_from total t (d ∷ []) (j + 1) [] ≡ done rows =
      ap (λ n. split_from n t (d ∷ []) (j + 1) []) same ∙ ran in
    rw (lt→ltb j 100 lt, lt→ltb (length row) 100 (omega (arith, short)), (==_iff d d).1 refl, ran')
      (ap (λ r. done (r ∷ rows)) (sym (append_nil row)))
split_from-next (suc total) fuel (c ∷ s) t d j row rows e (other, without) short lt ran =
    rw (lt→ltb j 100 lt, lt→ltb (length row) 100 (omega (arith, short)), other)
      (split_from-next total fuel s t d j (row ++ (c ∷ [])) rows (omega (arith, e)) without
          (omega (arith, short, length-snoc row c)) lt ran
        ∙ ap (λ r. done (r ∷ rows)) (snoc_append row c s))

pub length-pair : (a b : List ℕ) (d : ℕ) → length (a ++ (d ∷ b)) ≡ length a + suc (length b)
length-pair [] b d = omega arith
length-pair (c ∷ a) b d = omega (arith, length-pair a b d)

-- Two words with one delimiter between them are two rows.
pub split_pair :
    (a b : List ℕ) (d : ℕ)
    → Without d a
    → Without d b
    → length a < 100
    → length b < 100
    → split (length (a ++ (d ∷ b)) + 1) (a ++ (d ∷ b)) (d ∷ []) ≡ done (a ∷ (b ∷ []))
unfolding split
split_pair a b d without without' short short' =
    split_from-next (length (a ++ (d ∷ b)) + 1) (length b + 1) a b d 0 [] (b ∷ [])
      (omega (arith, length-pair a b d)) without (omega (arith, short)) (omega arith)
      (split_from-last (length b + 1) b d 1 [] without' (omega arith) (omega (arith, short'))
        (omega arith))
