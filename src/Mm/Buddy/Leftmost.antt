-- ===== src/Mm/Buddy/Leftmost.antt =====
-- kernel/mm/buddy.c, `alloc_buddy`: no node is passed over for being in use, so the search always
-- ends at the left end of the tree.
use echo_os.Base.{
  ℕ, zero, suc, ◌+◌, ◌^◌, ◌<◌, ◌≤◌, false, Option, none, some, Exec, done, fault, timeout, ◌>>=◌,
  ◌≡◌, refl, arith, bind_cases, ltb, ◌==◌, Bool-cases, inl, inr, ==_false, lt→ltb,
}
use echo_os.Mm.SysHeap.{SysHeap}
use echo_os.Mm.Buddy.{Node, node, State, allocated, split_buddy, alloc_buddy, with_children}
use echo_os.Mm.Buddy.Shape.{IsTree, leaf, fork, Halves, split_buddy-Halves}

-- An allocation in the tree of a block at `s` that ends has given the block at `s`.
abbrev pub Leftmost : ℕ → ℕ → Exec (Option ℕ × Node × SysHeap) → Type 0
Leftmost o s (done (ret, n, h)) = (ret ≡ some s) × IsTree o s n
Leftmost o s fault = Unit
Leftmost o s timeout = Unit

-- The search in the two halves.
abbrev in_halves :
    ℕ → ℕ → ℕ → ℕ → State → ℕ → ℕ → Node × Node × SysHeap → Exec (Option ℕ × Node × SysHeap)
in_halves fuel base a o st s order (l, r, h1) =
    alloc_buddy fuel base h1 l order >>= λ (ret, l', h2). elim ret [
      | some p ↦ done (some p, node a o st s l' r, h2)
      | none ↦
          alloc_buddy fuel base h2 r order
          >>= (λ (ret', r', h3). done (ret', node a o st s l' r', h3))
    ]

in_halves-Leftmost :
    (fuel base a k : ℕ) (st : State) (s order : ℕ) (l r : Node) (h : SysHeap)
    → IsTree k (s + 2 ^ k) r
    → Leftmost k s (alloc_buddy fuel base h l order)
    → Leftmost (suc k) s (in_halves fuel base a (suc k) st s order (l, r, h))
in_halves-Leftmost fuel base a k st s order l r h tr left =
    finish (alloc_buddy fuel base h l order) left
  where
    finish :
        (e : Exec (Option ℕ × Node × SysHeap))
        → Leftmost k s e
        → Leftmost (suc k) s (
            e >>= λ (ret, l', h2). elim ret [
              | some p ↦ done (some p, node a (suc k) st s l' r, h2)
              | none ↦
                  alloc_buddy fuel base h2 r order
                  >>= (λ (ret', r', h3). done (ret', node a (suc k) st s l' r', h3))
            ])
    finish (done (some p, l', h2)) (e, tl) = (e, fork a k st s l' r tl tr)
    finish (done (none, l', h2)) (e, tl) = absurd (cc)
    finish fault left = tt
    finish timeout left = tt

pub children_there :
    (base : ℕ) (h : SysHeap) (o s k : ℕ) (l r : Node)
    → IsTree k s l
    → with_children base h o s l r ≡ done (l, r, h)
children_there base h o _ _ _ r (leaf a k st s) = refl
children_there base h o _ _ _ r (fork a k st s l l2 t t2) = refl

pub not_above : (o order : ℕ) → order ≤ o → ltb o order ≡ false
not_above o order le = ground arith

-- In a buddy tree of the block at `s`, whatever is in use in it, an allocation of an order that
-- is not above that of the tree returns the block at `s` if it ends, and the tree stays a buddy
-- tree of that block.
pub alloc_buddy-Leftmost :
    (fuel base : ℕ) (h : SysHeap) (o s : ℕ) (n : Node) (order : ℕ)
    → IsTree o s n
    → order ≤ o
    → Leftmost o s (alloc_buddy fuel base h n order)
unfolding alloc_buddy
alloc_buddy-Leftmost zero base h o s n order t le = tt
alloc_buddy-Leftmost (suc fuel) base h _ _ _ order (leaf a zero st s) le =
    let here : order ≡ 0 = omega arith in rw here (refl, leaf a 0 allocated s)
alloc_buddy-Leftmost (suc fuel) base h _ _ _ order (leaf a (suc k) st s) le =
    elim (Bool-cases (order == suc k)) [
      | inl here ↦ rw (not_above (suc k) order le, here) (refl, leaf a (suc k) allocated s)
      | inr below ↦
          rw (not_above (suc k) order le, below)
            (bind_cases (Leftmost (suc k) s) (split_buddy base h (suc k) s)
              (in_halves fuel base a (suc k) st s order)
              (λ (l, r, h1) e.
                let (tl, tr) : Halves k s (done (l, r, h1)) =
                  rw e at (split_buddy-Halves base h k s) in
                in_halves-Leftmost fuel base a k st s order l r h1 tr (
                  alloc_buddy-Leftmost fuel base h1 k s l order tl
                    (omega (arith, ==_false order (suc k) below))))
              tt tt)
    ]
alloc_buddy-Leftmost (suc fuel) base h _ _ _ order (fork a k st s l r tl tr) le =
    elim (Bool-cases (order == suc k)) [
      | inl here ↦ rw (not_above (suc k) order le, here) (refl, fork a k allocated s l r tl tr)
      | inr below ↦
          rw (not_above (suc k) order le, below, children_there base h (suc k) s k l r tl)
            (in_halves-Leftmost fuel base a k st s order l r h tr (
              alloc_buddy-Leftmost fuel base h k s l order tl
                (omega (arith, ==_false order (suc k) below))))
    ]

-- A NULL, with nothing changed, is the answer to an order above that of the tree.
pub alloc_buddy_above :
    (fuel base : ℕ) (h : SysHeap) (o s : ℕ) (n : Node) (order : ℕ)
    → IsTree o s n
    → o < order
    → alloc_buddy (suc fuel) base h n order ≡ done (none, n, h)
unfolding alloc_buddy
alloc_buddy_above fuel base h _ _ _ order (leaf a o st s) lt = rw (lt→ltb o order lt) refl
alloc_buddy_above fuel base h _ _ _ order (fork a k st s l r tl tr) lt =
    rw (lt→ltb (suc k) order lt) refl
