-- ===== src/Base/Outcome.antt =====
-- What running a piece of C comes to: a value, undefined behaviour, or no end within the fuel.

use mathlib.Core.Path.{◌≡◌, refl}

pub data Exec {ℓ} (A : Type ℓ) : Type ℓ where
  done : A → Exec A
  -- an access through a null pointer or outside an object
  fault : Exec A
  -- the fuel of a loop ran out
  timeout : Exec A

infixl 5 ◌>>=◌
abbrev pub ◌>>=◌ {ℓ κ} : {A : Type ℓ} {B : Type κ} → Exec A → (A → Exec B) → Exec B
done a >>= f = f a
fault >>= f = fault
timeout >>= f = timeout

-- A property of a chain holds when it holds of each way the first step may end.
pub bind_cases {ℓ κ μ} :
    {A : Type ℓ} {B : Type κ} (Q : Exec B → Type μ) (m : Exec A) (f : A → Exec B)
    → ((a : A) → m ≡ done a → Q (f a))
    → Q fault
    → Q timeout
    → Q (m >>= f)
bind_cases Q (done a) f value broken endless = value a refl
bind_cases Q fault f value broken endless = broken
bind_cases Q timeout f value broken endless = endless

-- A chain that ends has a first step that ends.
pub bind_done {ℓ κ} :
    {A : Type ℓ} {B : Type κ} (m : Exec A) (f : A → Exec B) (b : B)
    → (m >>= f) ≡ done b
    → (a : A) × (m ≡ done a) × (f a ≡ done b)
bind_done (done a) f b h = (a, refl, h)
bind_done fault f b h = cc
bind_done timeout f b h = cc
