-- ===== src/Utils/Split.antt =====
-- kernel/utils/string.c, `split`, on texts: `str` and `delim` are the characters before the NUL, and
-- the rows of `result` are returned as a list.
pub mod Join
pub mod Word
use echo_os.Base.{
  ℕ, zero, suc, ◌+◌, Bool, true, false, ◌&&◌, List, [], ◌∷◌, ◌++◌, Exec, done, fault, timeout,
  ◌>>=◌, ltb, ◌==◌, if◌then◌else◌, drop, length,
}

-- `strncmp(str + k, delim, n) == 0` on texts.
abbrev pub agree : ℕ → List ℕ → List ℕ → Bool
agree zero s t = true
agree (suc n) [] t = true
agree (suc n) (c ∷ s) [] = true
agree (suc n) (c ∷ s) (d ∷ t) = (c == d) && agree n s t

-- The `while`, with `str` from index `k` on, and the characters that row `j` has so far. A row
-- has 100 characters, and the result 100 rows. The last row gets no NUL.
unfoldable pub split_from : ℕ → List ℕ → List ℕ → ℕ → List ℕ → Exec (List (List ℕ))
split_from zero str delim j row = timeout
split_from (suc fuel) [] delim j row = done (row ∷ [])
split_from (suc fuel) (c ∷ str) delim j row =
    let same_row = split_from fuel str delim j (row ++ (c ∷ [])) in
    let next_row = split_from fuel (drop (length delim) (c ∷ str)) delim (j + 1) [] in
    if ltb j 100 && ltb (length row) 100
    then (if agree (length delim) (c ∷ str) delim
        then next_row >>= (λ rows. done (row ∷ rows))
        else same_row)
    else fault

unfoldable pub split : ℕ → List ℕ → List ℕ → Exec (List (List ℕ))
split fuel str delim = split_from fuel str delim 0 []
