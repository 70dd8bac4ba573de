-- ===== src/Utils/Strings/Copy.antt =====
-- kernel/utils/string.c: `strcpy` and `strncpy` write a text and its NUL, and nothing else.
use echo_os.Base.{
  ℕ, zero, suc, ◌+◌, ◌<◌, ◌≤◌, ◌≡◌, arith, ◌⊎◌, inl, List, [], ◌∷◌, done, length, take, sym,
}
use mathlib.Core.Path.{subst}
use echo_os.Utils.Memory.{Memory, store}
use echo_os.Utils.Strings.{strcpy, strncpy}
use echo_os.Utils.Strings.Compare.{Holds}

Holds-store :
    (m : Memory) (p q v : ℕ) (s : List ℕ)
    → (q < p) ⊎ (p + length s < q)
    → Holds m p s
    → Holds (store m q v) p s
Holds-store m p q v [] apart h = ground arith
Holds-store m p q v (c ∷ cs) apart (e, ne, rest) =
    (ground arith, ne, Holds-store m (p + 1) q v cs (omega arith) rest)

-- The `n` bytes from `p` on are the only ones that may differ.
abbrev pub Outside : Memory → Memory → ℕ → ℕ → Type 0
Outside m m' p n = (q : ℕ) → (q < p) ⊎ (p + n ≤ q) → m' q ≡ m q

-- The text at `src` does not meet the `n` bytes at `dst`.
abbrev Apart : ℕ → ℕ → List ℕ → Type 0
Apart dst src s = (dst + length s < src) ⊎ (src + length s < dst)

-- The state after the first byte of a copy, and what the copy of the rest makes of it.
module _ (m m' : Memory) (dst src c n : ℕ) (e : m src ≡ c) where
  rest_keeps_first : Outside (store m dst (m src)) m' (dst + 1) n → m' dst ≡ c
  rest_keeps_first out = ground (arith, out dst (inl (omega arith)))

  rest_keeps_Outside : Outside (store m dst (m src)) m' (dst + 1) n → Outside m m' dst (suc n)
  rest_keeps_Outside out q far = ground (arith, out q (omega arith))

-- Where the text at `src` does not meet the bytes at `dst`, `strcpy` with fuel for the text ends.
-- The text is at `dst` afterwards with its NUL, and no other byte has changed.
pub strcpy_lem :
    (m : Memory) (dst src : ℕ) (s : List ℕ) (fuel : ℕ)
    → Holds m src s
    → Apart dst src s
    → length s < fuel
    → (m' : Memory) × (strcpy fuel m dst src ≡ done m')
      × Holds m' dst s
      × Outside m m' dst (suc (length s))
unfolding strcpy
strcpy_lem m dst src s zero h apart lt = absurd (omega arith)
strcpy_lem m dst src [] (suc fuel) h apart lt =
    (store m dst 0, ground arith, ground arith, λ q out. ground arith)
strcpy_lem m dst src (c ∷ cs) (suc fuel) (e, ne, rest) apart lt =
    let (m', ran, copied, out) =
      strcpy_lem (store m dst (m src)) (dst + 1) (src + 1) cs fuel
        (Holds-store m (src + 1) dst (m src) cs (omega arith) rest) (omega arith) (omega arith) in
    (
      m',
      ground arith,
      (rest_keeps_first m m' dst src c (suc (length cs)) e out, ne, copied),
      rest_keeps_Outside m m' dst src c (suc (length cs)) e out,
    )

-- Where the text at `src` does not meet the bytes at `dst`, `strncpy` leaves the first `n` bytes
-- of the text, or all of it, at `dst` with a NUL, which the standard's does not always write, and
-- changes no other byte.
pub strncpy_lem :
    (m : Memory) (dst src n : ℕ) (s : List ℕ)
    → Holds m src s
    → Apart dst src s
    → Holds (strncpy m dst src n) dst (take n s)
      × Outside m (strncpy m dst src n) dst (suc (length (take n s)))
unfolding strncpy
strncpy_lem m dst src zero s h apart = (ground arith, λ q out. ground arith)
strncpy_lem m dst src (suc n) [] h apart = (ground arith, λ q out. ground arith)
strncpy_lem m dst src (suc n) (c ∷ cs) (e, ne, rest) apart =
    let m' : Memory = strncpy (store m dst (m src)) (dst + 1) (src + 1) n in
    let (copied, out) =
      strncpy_lem (store m dst (m src)) (dst + 1) (src + 1) n cs
        (Holds-store m (src + 1) dst (m src) cs (omega arith) rest) (omega arith) in
    let step : strncpy m dst src (suc n) ≡ m' = ground arith in
    subst
      (λ x.
        Holds x dst (take (suc n) (c ∷ cs))
        × Outside m x dst (suc (length (take (suc n) (c ∷ cs)))))
      (sym step)
      (
        (rest_keeps_first m m' dst src c (suc (length (take n cs))) e out, ne, copied),
        rest_keeps_Outside m m' dst src c (suc (length (take n cs))) e out,
      )
