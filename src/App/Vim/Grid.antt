-- ===== src/App/Vim/Grid.antt =====
-- kernel/app/vim.c: the characters that the places of `file_copy` spell.
use echo_os.Base.{
  ℕ, zero, suc, ◌<◌, ◌≤◌, Bool, true, false, not, ◌&&◌, List, [], ◌∷◌, ◌++◌, length, set, replicate,
  ◌≡◌, refl, ap, arith, ◌==◌, if◌then◌else◌, Bool-cases, inl, inr,
}

-- What a place stands for.
abbrev pub is_text : ℕ → Bool
is_text c = not (c == 0) && not (c == 1)

-- The text that the places from the first to the last one spell.
unfoldable pub spelled : List ℕ → List ℕ
spelled [] = []
spelled (c ∷ cells) = if is_text c then c ∷ spelled cells else spelled cells

-- The places from index `p` on are empty.
abbrev pub EmptyFrom : ℕ → List ℕ → Type 0
EmptyFrom p [] = Unit
EmptyFrom zero (c ∷ cells) = (is_text c ≡ false) × EmptyFrom zero cells
EmptyFrom (suc p) (c ∷ cells) = EmptyFrom p cells

spelled-EmptyFrom : (cells : List ℕ) → EmptyFrom zero cells → spelled cells ≡ []
unfolding spelled
spelled-EmptyFrom [] e = refl
spelled-EmptyFrom (c ∷ cells) (here, rest) = rw here (spelled-EmptyFrom cells rest)

-- A character put into the first of the empty places comes behind the text.
pub spelled-set :
    (cells : List ℕ) (p c : ℕ)
    → is_text c ≡ true
    → p < length cells
    → EmptyFrom p cells
    → spelled (set cells p c) ≡ spelled cells ++ (c ∷ [])
unfolding spelled
spelled-set [] p c text lt e = absurd (omega (arith, lt))
spelled-set (d ∷ cells) zero c text lt (here, rest) =
    rw (text, here, spelled-EmptyFrom cells rest) refl
spelled-set (d ∷ cells) (suc p) c text lt e = elim (Bool-cases (is_text d)) [
  | inl is ↦ rw is (ap (λ t. d ∷ t) (spelled-set cells p c text (omega (arith, lt)) e))
  | inr isnt ↦ rw isnt (spelled-set cells p c text (omega (arith, lt)) e)
]

-- A mark put into one of them does not change the text.
pub spelled-mark :
    (cells : List ℕ) (p : ℕ) → EmptyFrom p cells → spelled (set cells p 1) ≡ spelled cells
unfolding spelled
spelled-mark [] p e = refl
spelled-mark (d ∷ cells) zero (here, rest) = rw here refl
spelled-mark (d ∷ cells) (suc p) e = elim (Bool-cases (is_text d)) [
  | inl is ↦ rw is (ap (λ t. d ∷ t) (spelled-mark cells p e))
  | inr isnt ↦ rw isnt (spelled-mark cells p e)
]

EmptyFrom-later : (cells : List ℕ) (p q : ℕ) → p ≤ q → EmptyFrom p cells → EmptyFrom q cells
EmptyFrom-later [] p q le e = tt
EmptyFrom-later (d ∷ cells) zero zero le e = e
EmptyFrom-later (d ∷ cells) zero (suc q) le (here, rest) =
    EmptyFrom-later cells zero q (omega arith) rest
EmptyFrom-later (d ∷ cells) (suc p) zero le e = absurd (omega (arith, le))
EmptyFrom-later (d ∷ cells) (suc p) (suc q) le e = EmptyFrom-later cells p q (omega (arith, le)) e

-- Behind a place that was filled, and behind a later one than it, the places are still empty.
pub EmptyFrom-set :
    (cells : List ℕ) (p q c : ℕ) → p < q → EmptyFrom p cells → EmptyFrom q (set cells p c)
EmptyFrom-set [] p q c lt e = tt
EmptyFrom-set (d ∷ cells) zero zero c lt e = absurd (omega (arith, lt))
EmptyFrom-set (d ∷ cells) zero (suc q) c lt (here, rest) =
    EmptyFrom-later cells zero q (omega arith) rest
EmptyFrom-set (d ∷ cells) (suc p) zero c lt e = absurd (omega (arith, lt))
EmptyFrom-set (d ∷ cells) (suc p) (suc q) c lt e = EmptyFrom-set cells p q c (omega (arith, lt)) e

pub EmptyFrom-mark :
    (cells : List ℕ) (p q : ℕ) → p ≤ q → EmptyFrom p cells → EmptyFrom p (set cells q 1)
EmptyFrom-mark [] p q le e = tt
EmptyFrom-mark (d ∷ cells) zero zero le (here, rest) = (refl, rest)
EmptyFrom-mark (d ∷ cells) zero (suc q) le (here, rest) =
    (here, EmptyFrom-mark cells zero q (omega arith) rest)
EmptyFrom-mark (d ∷ cells) (suc p) zero le e = absurd (omega (arith, le))
EmptyFrom-mark (d ∷ cells) (suc p) (suc q) le e = EmptyFrom-mark cells p q (omega (arith, le)) e

pub EmptyFrom-replicate : (n p : ℕ) → EmptyFrom p (replicate n 0)
EmptyFrom-replicate zero p = tt
EmptyFrom-replicate (suc n) zero = (refl, EmptyFrom-replicate n zero)
EmptyFrom-replicate (suc n) (suc p) = EmptyFrom-replicate n p

pub spelled-replicate : (n : ℕ) → spelled (replicate n 0) ≡ []
spelled-replicate n = spelled-EmptyFrom (replicate n 0) (EmptyFrom-replicate n zero)
