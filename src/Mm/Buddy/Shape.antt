-- ===== src/Mm/Buddy/Shape.antt =====
-- kernel/mm/buddy.c: the shape of a buddy tree, and what splitting makes.
use echo_os.Base.{
  ℕ, zero, suc, ◌+◌, ◌-◌, ◌^◌, Option, none, some, Exec, done, fault, timeout, ◌≡◌, arith,
  bind_cases,
}
use echo_os.Mm.SysHeap.{SysHeap, kmalloc}
use echo_os.Mm.Buddy.{Node, null, node, State, free, split_buddy, halve, sizeof_buddy_node}

-- The tree of a block of order `o` at address `s`: each node has two children or none, and they
-- are the two halves of its block.
pub data IsTree : ℕ → ℕ → Node → Type 0 where
  leaf : (a o : ℕ) (st : State) (s : ℕ) → IsTree o s (node a o st s null null)
  fork :
      (a k : ℕ) (st : State) (s : ℕ) (l r : Node)
      → IsTree k s l
      → IsTree k (s + 2 ^ k) r
      → IsTree (suc k) s (node a (suc k) st s l r)

-- The next `n` pairs of nodes can be had from the system heap.
abbrev pub Supply : ℕ → ℕ → SysHeap → Type 0
Supply zero base h = Unit
Supply (suc n) base h =
    (p : ℕ) × (h' : SysHeap) × (kmalloc base h sizeof_buddy_node ≡ done (some p, h'))
    × ((p' : ℕ) × (h'' : SysHeap) × (kmalloc base h' sizeof_buddy_node ≡ done (some p', h''))
        × Supply n base h'')

pub Supply-pred : (n base : ℕ) (h : SysHeap) → Supply (suc n) base h → Supply n base h
Supply-pred zero base h s = tt
Supply-pred (suc n) base h (p, h', e, (p', h'', e', more)) =
    (p, h', e, (p', h'', e', Supply-pred n base h'' more))

-- What a split comes to, when it comes to something: the trees of the two halves.
abbrev pub Halves : ℕ → ℕ → Exec (Node × Node × SysHeap) → Type 0
Halves k s (done (l, r, h)) = IsTree k s l × IsTree k (s + 2 ^ k) r
Halves k s fault = Unit
Halves k s timeout = Unit

halve-Halves : (k s : ℕ) (l r : Option ℕ) (h : SysHeap) → Halves k s (halve (suc k) s l r h)
halve-Halves k s none r h = tt
halve-Halves k s (some l) none h = tt
halve-Halves k s (some l) (some r) h =
    let pred : suc k - 1 ≡ k = omega arith in rw pred (leaf l k free s, leaf r k free (s + 2 ^ k))

pub split_buddy-Halves :
    (base : ℕ) (h : SysHeap) (k s : ℕ) → Halves k s (split_buddy base h (suc k) s)
unfolding split_buddy
split_buddy-Halves base h k s =
    bind_cases (Halves k s) (kmalloc base h sizeof_buddy_node) _
      (λ (l, h') e.
        bind_cases (Halves k s) (kmalloc base h' sizeof_buddy_node) _
          (λ (r, h'') e'. halve-Halves k s l r h'') tt tt)
      tt tt
