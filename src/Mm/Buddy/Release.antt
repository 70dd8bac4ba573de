-- ===== src/Mm/Buddy/Release.antt =====
-- kernel/mm/buddy.c, `free_buddy` and `merge_buddy`: the tree keeps its shape.
use echo_os.Base.{
  ℕ, suc, ◌+◌, ◌^◌, some, Exec, done, fault, timeout, ◌>>=◌, ◌≡◌, refl, bind_cases, ltb, ◌==◌,
  Bool-cases, inl, inr,
}
use echo_os.Mm.SysHeap.{SysHeap, kfree}
use echo_os.Mm.Buddy.{
  Node, null, node, State, free, allocated, set_free, settle, merge_buddy, descend, free_buddy,
  sizeof_buddy_node,
}
use echo_os.Mm.Buddy.Shape.{IsTree, leaf, fork}

-- The children that are left after the test and the merge: two trees, or none.
abbrev Settled : ℕ → ℕ → Exec (Node × Node × SysHeap) → Type 0
Settled k s (done (l, r, h)) = (a : ℕ) (st : State) → IsTree (suc k) s (node a (suc k) st s l r)
Settled k s fault = Unit
Settled k s timeout = Unit

not_null : (o s : ℕ) (n : Node) → IsTree o s n → ¬ (n ≡ null)
not_null _ _ _ (leaf a o st s) = λ e. cc
not_null _ _ _ (fork a k st s l r tl tr) = λ e. cc

set_free-IsTree : (o s : ℕ) (n : Node) → IsTree o s n → IsTree o s (set_free n)
set_free-IsTree _ _ _ (leaf a o st s) = leaf a o free s
set_free-IsTree _ _ _ (fork a k st s l r tl tr) = fork a k free s l r tl tr

settle-Settled :
    (base : ℕ) (h : SysHeap) (k s : ℕ) (l r : Node)
    → IsTree k s l
    → IsTree k (s + 2 ^ k) r
    → Settled k s (settle base h l r)
unfolding settle merge_buddy
settle-Settled base h k s null r tl tr = tt
settle-Settled base h k s (node la lo lst ls ll lr) null tl tr = absurd (not_null k _ null tr refl)
settle-Settled base h k s (node la lo free ls ll lr) (node ra ro free rs rl rr) tl tr =
    bind_cases (Settled k s) (kfree base h (some la) sizeof_buddy_node) _
      (λ h' e.
        bind_cases (Settled k s) (kfree base h' (some ra) sizeof_buddy_node) _
          (λ h'' e'. λ a st. leaf a (suc k) st s) tt tt)
      tt tt
settle-Settled base h k s (node la lo free ls ll lr) (node ra ro allocated rs rl rr) tl tr =
    λ a st. fork a k st s _ _ tl tr
settle-Settled base h k s (node la lo allocated ls ll lr) (node ra ro rst rs rl rr) tl tr =
    λ a st. fork a k st s _ _ tl tr

-- A tree, or no result.
abbrev pub Kept : ℕ → ℕ → Exec (Node × SysHeap) → Type 0
Kept o s (done (n, h)) = IsTree o s n
Kept o s fault = Unit
Kept o s timeout = Unit

-- The four ways on from a node with two children.
module _ (base : ℕ) (h : SysHeap) (a k : ℕ) (st : State) (s : ℕ) (l r : Node) (tl : IsTree k s l)
    (tr : IsTree k (s + 2 ^ k) r) where
  abbrev rebuild : Node × Node × SysHeap → Exec (Node × SysHeap)
  rebuild (l', r', h') = done (node a (suc k) st s l' r', h')

  settled : (e : Exec (Node × Node × SysHeap)) → Settled k s e → Kept (suc k) s (e >>= rebuild)
  settled (done (l', r', h')) shape = shape a st
  settled fault shape = tt
  settled timeout shape = tt

  settled_left : Kept (suc k) s (settle base h (set_free l) r >>= rebuild)
  settled_left = settled _ (settle-Settled base h k s (set_free l) r (set_free-IsTree k s l tl) tr)

  settled_right : Kept (suc k) s (settle base h l (set_free r) >>= rebuild)
  settled_right = settled _ (settle-Settled base h k s l (set_free r) tl (set_free-IsTree k _ r tr))

  Kept-left :
      (e : Exec (Node × SysHeap))
      → Kept k s e
      → Kept (suc k) s (e >>= λ (l', h'). done (node a (suc k) st s l' r, h'))
  Kept-left (done (l', h')) shape = fork a k st s l' r shape tr
  Kept-left fault shape = tt
  Kept-left timeout shape = tt

  Kept-right :
      (e : Exec (Node × SysHeap))
      → Kept k (s + 2 ^ k) e
      → Kept (suc k) s (e >>= λ (r', h'). done (node a (suc k) st s l r', h'))
  Kept-right (done (r', h')) shape = fork a k st s l r' tl shape
  Kept-right fault shape = tt
  Kept-right timeout shape = tt

descend-Kept :
    (base : ℕ) (h : SysHeap) (o s : ℕ) (n : Node) (start order : ℕ)
    → IsTree o s n
    → Kept o s (descend base h n start order)
unfolding descend
descend-Kept base h _ _ _ start order (leaf a o st s) = leaf a o st s
descend-Kept base h _ _ _ start order (fork a k st s null r tl tr) =
    absurd (not_null k s null tl refl)
descend-Kept base h _ _ _ start order (fork a k st s (node la lo lst ls ll lr) null tl tr) = tt
descend-Kept base h _ _ _ start order
      (fork a k st s (node la lo lst ls ll lr) (node ra ro rst rs rl rr) tl tr) =
    elim (Bool-cases (ltb start rs)) [
      | inl low ↦ elim (Bool-cases (lo == order)) [
        | inl here ↦ rw (low, here) (settled_left base h a k st s _ _ tl tr)
        | inr on ↦
            rw (low, on)
              (Kept-left base h a k st s _ _ tl tr _ (descend-Kept base h k s _ start order tl))
      ]
      | inr high ↦ elim (Bool-cases (ro == order)) [
        | inl here ↦ rw (high, here) (settled_right base h a k st s _ _ tl tr)
        | inr on ↦
            rw (high, on)
              (Kept-right base h a k st s _ _ tl tr _ (descend-Kept base h k _ _ start order tr))
      ]
    ]

-- Whatever address and order are given, a `free_buddy` on a buddy tree that ends without a fault
-- leaves a buddy tree of the same block.
pub free_buddy-Kept :
    (base : ℕ) (h : SysHeap) (o s : ℕ) (n : Node) (start order : ℕ)
    → IsTree o s n
    → Kept o s (free_buddy base h n start order)
unfolding free_buddy settle
free_buddy-Kept base h _ _ _ start order (leaf a o st s) = elim (Bool-cases (o == order)) [
  | inl whole ↦ rw whole tt
  | inr on ↦ rw on (descend-Kept base h o s _ start order (leaf a o st s))
]
free_buddy-Kept base h _ _ _ start order (fork a k st s l r tl tr) =
    elim (Bool-cases (suc k == order)) [
      | inl whole ↦
          rw whole (settled base h a k free s l r tl tr _ (settle-Settled base h k s l r tl tr))
      | inr on ↦ rw on (descend-Kept base h (suc k) s _ start order (fork a k st s l r tl tr))
    ]
