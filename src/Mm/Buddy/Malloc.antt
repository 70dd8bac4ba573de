-- ===== src/Mm/Buddy/Malloc.antt =====
-- kernel/mm/malloc.c over the buddy tree: which block a request gets, and that it gets one.
use echo_os.Base.{
  ℕ, zero, suc, ◌+◌, ◌-◌, ◌^◌, ◌<◌, ◌≤◌, Option, none, some, Exec, done, fault, timeout, ◌>>=◌, ◌≡◌,
  refl, arith, ◌==◌, Bool-cases, inl, inr, ==_false, bind_cases, dec_lt, ap,
}
use echo_os.Base.Int.{ℤ, pos, negsuc}
use echo_os.Mm.SysHeap.{SysHeap}
use echo_os.Mm.Buddy.{
  Node, null, node, free, allocated, split_buddy, alloc_buddy, Buddy, buddy_alloc, hand_out, malloc,
  order_for, tree_fuel, max_order, user_start_addr,
}
use echo_os.Mm.DeadBeef.{set_dead_beef}
use echo_os.Mm.Buddy.Shape.{IsTree, leaf, fork, Supply, Supply-pred}
use echo_os.Mm.Buddy.Order.{order_for-Least}
use echo_os.Mm.Buddy.Leftmost.{
  Leftmost, alloc_buddy-Leftmost, alloc_buddy_above, children_there, not_above,
}

-- A split with a pair of nodes to be had makes the two halves.
split_buddy_supplied :
    (base n : ℕ) (h : SysHeap) (k s : ℕ)
    → Supply (suc n) base h
    → (l r : Node) × (h' : SysHeap) × (split_buddy base h (suc k) s ≡ done (l, r, h'))
      × IsTree k s l
      × Supply n base h'
unfolding split_buddy
split_buddy_supplied base n h k s (p, h', e, (p', h'', e', more)) =
    let pred : suc k - 1 ≡ k = omega arith in
    (
      node p k free s null null,
      node p' k free (s + 2 ^ k) null null,
      h'',
      rw (e, e', pred) refl,
      leaf p k free s,
      more,
    )

-- The search ends, with fuel for the height of the tree and nodes for its splits.
alloc_buddy_ends :
    (fuel base : ℕ) (h : SysHeap) (o s : ℕ) (n : Node) (order : ℕ)
    → IsTree o s n
    → order ≤ o
    → o < fuel
    → Supply o base h
    → (p : ℕ) × (n' : Node) × (h' : SysHeap) × (alloc_buddy fuel base h n order
        ≡ done (some p, n', h'))
unfolding alloc_buddy
alloc_buddy_ends zero base h o s n order t le lt supply = absurd (omega arith)
alloc_buddy_ends (suc fuel) base h _ _ _ order (leaf a zero st s) le lt supply =
    let here : order ≡ 0 = omega arith in (s, node a 0 allocated s null null, h, rw here refl)
alloc_buddy_ends (suc fuel) base h _ _ _ order (leaf a (suc k) st s) le lt supply =
    elim (Bool-cases (order == suc k)) [
      | inl here ↦
          (s, node a (suc k) allocated s null null, h, rw (not_above (suc k) order le, here) refl)
      | inr below ↦
          let (l, r, h1, split, tl, more) = split_buddy_supplied base k h k s supply in
          let (p, l', h2, ran) =
            alloc_buddy_ends fuel base h1 k s l order tl
              (omega (arith, ==_false order (suc k) below)) (omega arith) more in
          (p, node a (suc k) st s l' r, h2, rw (not_above (suc k) order le, below, split, ran) refl)
    ]
alloc_buddy_ends (suc fuel) base h _ _ _ order (fork a k st s l r tl tr) le lt supply =
    elim (Bool-cases (order == suc k)) [
      | inl here ↦
          (s, node a (suc k) allocated s l r, h, rw (not_above (suc k) order le, here) refl)
      | inr below ↦
          let (p, l', h2, ran) =
            alloc_buddy_ends fuel base h k s l order tl
              (omega (arith, ==_false order (suc k) below)) (omega arith)
              (Supply-pred k base h supply) in
          (
            p,
            node a (suc k) st s l' r,
            h2,
            rw (not_above (suc k) order le, below, children_there base h (suc k) s k l r tl, ran)
                refl,
          )
    ]

-- The tree that the kernel keeps: the root has the greatest order and the fixed address.
abbrev pub IsValid : Buddy → Type 0
IsValid b = IsTree max_order user_start_addr b.root

-- What `malloc` comes to: the block at USER_START_ADDR, or NULL; the tree stays valid.
abbrev SameBlock : Exec (Option ℕ × Buddy) → Type 0
SameBlock (done (none, b)) = IsValid b
SameBlock (done (some p, b)) = (p ≡ user_start_addr) × IsValid b
SameBlock fault = Unit
SameBlock timeout = Unit

hand_out-SameBlock :
    (order : ℕ) (e : Exec (Option ℕ × Node × SysHeap))
    → Leftmost max_order user_start_addr e
    → SameBlock (e >>= hand_out order)
hand_out-SameBlock order (done (none, root, heap)) (e, t) = absurd (cc)
hand_out-SameBlock order (done (some p, root, heap)) (e, t) = (cc, t)
hand_out-SameBlock order fault left = tt
hand_out-SameBlock order timeout left = tt

buddy_alloc-SameBlock :
    (base : ℕ) (b : Buddy) (size : ℕ) → IsValid b → SameBlock (buddy_alloc base b size)
unfolding buddy_alloc
buddy_alloc-SameBlock base b size valid =
    bind_cases SameBlock (order_for size) _
      (λ order e. elim (dec_lt max_order order) [
        | yes above ↦
            rw
              (alloc_buddy_above max_order base b.heap max_order user_start_addr b.root order valid
                above)
              valid
        | no fits ↦ hand_out-SameBlock order _ (
            alloc_buddy-Leftmost tree_fuel base b.heap max_order user_start_addr b.root order valid
              (omega arith))
      ])
      tt tt

malloc-SameBlock : (base : ℕ) (b : Buddy) (size : ℤ) → IsValid b → SameBlock (malloc base b size)
unfolding malloc
malloc-SameBlock base b (pos zero) valid = valid
malloc-SameBlock base b (pos (suc n)) valid = buddy_alloc-SameBlock base b (suc n) valid
malloc-SameBlock base b (negsuc n) valid = valid

-- Two calls of `malloc` in a row that both return a block return the same block, the one at
-- USER_START_ADDR: nothing looks at the state of a node, so a block in use is handed out again.
-- The tree is the one that the kernel keeps: a buddy tree whose root has the greatest order and
-- the fixed address.
pub malloc_twice :
    (base : ℕ) (b b' b'' : Buddy) (size size' : ℤ) (p p' : ℕ)
    → IsValid b
    → malloc base b size ≡ done (some p, b')
    → malloc base b' size' ≡ done (some p', b'')
    → (p ≡ p') × (p ≡ user_start_addr)
malloc_twice base b b' b'' size size' p p' valid e e' =
    let (at, valid') : SameBlock (done (some p, b')) =
      rw e at (malloc-SameBlock base b size valid) in
    let (at', valid'') : SameBlock (done (some p', b'')) =
      rw e' at (malloc-SameBlock base b' size' valid') in
    (cc, at)

malloc_found :
    (base : ℕ) (b : Buddy) (n order p : ℕ) (root : Node) (h : SysHeap)
    → IsValid b
    → order ≤ max_order
    → order_for (suc n) ≡ done order
    → alloc_buddy tree_fuel base b.heap b.root order ≡ done (some p, root, h)
    → (b' : Buddy) × (malloc base b (pos (suc n)) ≡ done (some user_start_addr, b')) × IsValid b'
unfolding malloc buddy_alloc
malloc_found base b n order p root h valid fits found ran =
    let (at, valid') : SameBlock (done (some p, root, h) >>= hand_out order) =
      hand_out-SameBlock order (done (some p, root, h)) (
        rw ran at (
          alloc_buddy-Leftmost tree_fuel base b.heap max_order user_start_addr b.root order valid
            fits)) in
    let b' : Buddy = record {
      root = root;
      heap = record h { memory = set_dead_beef h.memory (p + 2 ^ order - 1) };
    } in
    (b', rw (found, ran) (ap (λ q. done (some q, b')) at), valid')

-- With the tree that the kernel keeps, and a system heap that has the nodes for a split at each
-- order, a request of 1 up to 2 ^ 18 bytes gets the block at USER_START_ADDR, and the tree stays
-- valid.
pub malloc_total :
    (base : ℕ) (b : Buddy) (n : ℕ)
    → IsValid b
    → n < 2 ^ max_order
    → Supply max_order base b.heap
    → (b' : Buddy) × (malloc base b (pos (suc n)) ≡ done (some user_start_addr, b')) × IsValid b'
malloc_total base b n valid small supply =
    let (order, found, top, (holds, least)) = order_for-Least (suc n) (omega arith) in
    let fits : order ≤ max_order = elim (dec_lt max_order order) [
      | yes above ↦ absurd (omega (arith, least max_order (omega arith) above))
      | no le ↦ omega arith
    ] in
    let (p, root, h, ran) =
      alloc_buddy_ends tree_fuel base b.heap max_order user_start_addr b.root order valid fits
        (omega arith) supply in
    malloc_found base b n order p root h valid fits found ran
