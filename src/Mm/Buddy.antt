-- ===== src/Mm/Buddy.antt =====
-- kernel/mm/buddy.c and kernel/mm/malloc.c. A `buddy_node` is a tree: each node is pointed to by
-- its parent alone, and holds the address at which `kmalloc` put it. The order of a node is never
-- negative. Calls of `mm_error` print and change nothing else.
pub mod Order
pub mod Shape
pub mod Leftmost
pub mod Malloc
pub mod Release
mod Tests
use echo_os.Base.{
  ℕ, zero, suc, ◌+◌, ◌-◌, ◌^◌, Bool, true, false, Option, none, some, Exec, done, fault, timeout,
  ◌>>=◌, ltb, ◌==◌, if◌then◌else◌, ◌&&◌, ◌||◌,
}
use echo_os.Base.Int.{ℤ, pos, negsuc}
use echo_os.Utils.Memory.{Memory, memcpy, memset}
use echo_os.Mm.SysHeap.{SysHeap, kmalloc, kfree}
use echo_os.Mm.DeadBeef.{set_dead_beef, check_dead_beef}

pub data State : Type 0 where
  free allocated : State

pub data Node : Type 0 where
  null : Node
  node : (addr order : ℕ) → (state : State) → (start : ℕ) → (left right : Node) → Node

abbrev is_free : State → Bool
is_free free = true
is_free allocated = false

-- sizeof(buddy_node): two pointers, two ints, a pointer
abbrev pub sizeof_buddy_node : ℤ
sizeof_buddy_node = pos 32

abbrev pub max_order : ℕ
max_order = 18

abbrev pub user_start_addr : ℕ
user_start_addr = 0x90000000

-- The static `buddy_root` lies at `addr`.
unfoldable pub init_buddy : ℕ → Node
init_buddy addr = node addr max_order free user_start_addr null null

-- The two halves of a block, from the pointers that `kmalloc` gave: a NULL is dereferenced.
abbrev pub halve : ℕ → ℕ → Option ℕ → Option ℕ → SysHeap → Exec (Node × Node × SysHeap)
halve order start none right h = fault
halve order start (some l) none h = fault
halve order start (some l) (some r) h = done (
  node l (order - 1) free start null null,
  node r (order - 1) free (start + 2 ^ (order - 1)) null null,
  h,
)

-- `split_buddy` on a node of order above 0: the children that it makes.
unfoldable pub split_buddy : ℕ → SysHeap → ℕ → ℕ → Exec (Node × Node × SysHeap)
split_buddy base h order start = kmalloc base h sizeof_buddy_node >>= λ (left, h').
    kmalloc base h' sizeof_buddy_node >>= λ (right, h''). halve order start left right h''

-- `merge_buddy` on a node with these children: the children afterwards.
unfoldable pub merge_buddy : ℕ → SysHeap → Node → Node → Exec (Node × Node × SysHeap)
merge_buddy base h null right = done (null, right, h)
merge_buddy base h (node la lo lst ls ll lr) null =
    if is_free lst then fault else done (node la lo lst ls ll lr, null, h)
merge_buddy base h (node la lo lst ls ll lr) (node ra ro rst rs rl rr) =
    if is_free lst && is_free rst
    then (kfree base h (some la) sizeof_buddy_node >>= λ h'.
        kfree base h' (some ra) sizeof_buddy_node >>= λ h''. done (null, null, h''))
    else done (node la lo lst ls ll lr, node ra ro rst rs rl rr, h)

-- The children of a node before the search goes into them: those it has, or two new ones.
abbrev pub with_children : ℕ → SysHeap → ℕ → ℕ → Node → Node → Exec (Node × Node × SysHeap)
with_children base h order start null right = split_buddy base h order start
with_children base h order start (node la lo lst ls ll lr) right =
    done (node la lo lst ls ll lr, right, h)

-- The node that is returned is known by its start (`none` for NULL); beside it the tree afterwards.
unfoldable pub alloc_buddy : ℕ → ℕ → SysHeap → Node → ℕ → Exec (Option ℕ × Node × SysHeap)
alloc_buddy zero base h root order = timeout
alloc_buddy (suc fuel) base h null order = fault
alloc_buddy (suc fuel) base h (node a o st s left right) order =
    if ltb o order
    then done (none, node a o st s left right, h)
    else if order == o
    then done (some s, node a o allocated s left right, h)
    else (with_children base h o s left right >>= λ (l, r, h1).
        alloc_buddy fuel base h1 l order >>= λ (ret, l', h2). elim ret [
          | some p ↦ done (some p, node a o st s l' r, h2)
          | none ↦
              alloc_buddy fuel base h2 r order
              >>= (λ (ret', r', h3). done (ret', node a o st s l' r', h3))
        ])

abbrev pub set_free : Node → Node
set_free null = null
set_free (node a o st s l r) = node a o free s l r

-- The test and the merge at the end of `free_buddy`, for the children of its `root`.
unfoldable pub settle : ℕ → SysHeap → Node → Node → Exec (Node × Node × SysHeap)
settle base h null right = fault
settle base h (node la lo lst ls ll lr) null =
    if is_free lst then fault else done (node la lo lst ls ll lr, null, h)
settle base h (node la lo lst ls ll lr) (node ra ro rst rs rl rr) =
    if is_free lst && is_free rst
    then merge_buddy base h (node la lo lst ls ll lr) (node ra ro rst rs rl rr)
    else done (node la lo lst ls ll lr, node ra ro rst rs rl rr, h)

-- The order and the start of a node that is read through a pointer.
abbrev order_of : Node → Exec ℕ
order_of null = fault
order_of (node a o st s l r) = done o

abbrev start_of : Node → Exec ℕ
start_of null = fault
start_of (node a o st s l r) = done s

-- The `while` of `free_buddy` at a node whose order is not the one sought.
unfoldable pub descend : ℕ → SysHeap → Node → ℕ → ℕ → Exec (Node × SysHeap)
descend base h null start order = fault
descend base h (node a o st s null right) start order = done (node a o st s null right, h)
descend base h (node a o st s (node la lo lst ls ll lr) right) start order =
    let left : Node = node la lo lst ls ll lr in
    let into_left = descend base h (node la lo lst ls ll lr) start order in
    let into_right = descend base h right start order in
    start_of right >>= λ right_start.
    if ltb start right_start
    then (if lo == order
        then settle base h (set_free left) right >>= (λ (l, r, h'). done (node a o st s l r, h'))
        else into_left >>= (λ (l, h'). done (node a o st s l right, h')))
    else (order_of right >>= λ right_order.
        if right_order == order
        then settle base h left (set_free right) >>= (λ (l, r, h'). done (node a o st s l r, h'))
        else into_right >>= (λ (r, h'). done (node a o st s left r, h')))

unfoldable pub free_buddy : ℕ → SysHeap → Node → ℕ → ℕ → Exec (Node × SysHeap)
free_buddy base h null start order = fault
free_buddy base h (node a o st s left right) start order =
    if o == order
    then settle base h left right >>= (λ (l, r, h'). done (node a o free s l r, h'))
    else descend base h (node a o st s left right) start order

-- The `while ((1 << order) < size)` of `buddy_alloc` and `buddy_free`; `1 << 31` overflows an int.
unfoldable pub order_from : ℕ → ℕ → ℕ → Exec ℕ
order_from zero order size = timeout
order_from (suc fuel) order size =
    let rest = order_from fuel (order + 1) size in
    if ltb (2 ^ order) size then (if ltb order 30 then rest else fault) else done order

abbrev pub order_for : ℕ → Exec ℕ
order_for size = order_from 32 0 size

-- The statics of buddy.c and those of the system heap.
pub record Buddy : Type 0 where
  pub root : Node
  pub heap : SysHeap

abbrev pub tree_fuel : ℕ
tree_fuel = max_order + 1

-- The end of `buddy_alloc`: a canary is set in the block that was found.
abbrev pub hand_out : ℕ → Option ℕ × Node × SysHeap → Exec (Option ℕ × Buddy)
hand_out order (none, root, heap) = done (none, record { root = root; heap = heap })
hand_out order (some start, root, heap) = done (
  some start,
  record {
    root = root;
    heap = record heap { memory = set_dead_beef heap.memory (start + 2 ^ order - 1) };
  },
)

unfoldable pub buddy_alloc : ℕ → Buddy → ℕ → Exec (Option ℕ × Buddy)
buddy_alloc base b size = order_for size >>= λ order.
    alloc_buddy tree_fuel base b.heap b.root order >>= λ found. hand_out order found

-- A canary that is gone is reported by `mm_error`; the block is freed all the same.
unfoldable pub buddy_free : ℕ → Buddy → ℕ → ℕ → Exec (Bool × Buddy)
buddy_free base b addr size = order_for size >>= λ order.
    free_buddy base b.heap b.root addr order >>= λ (root, heap).
    done (check_dead_beef b.heap.memory (addr + 2 ^ order - 1), record { root = root; heap = heap })

abbrev with_memory : Buddy → Memory → Buddy
with_memory b m = record {
  root = b.root;
  heap = record { bitmap = b.heap.bitmap; last = b.heap.last; memory = m };
}

unfoldable pub buddy_realloc : ℕ → Buddy → ℕ → ℕ → ℕ → Exec (Option ℕ × Buddy)
buddy_realloc base b addr old_size new_size = buddy_alloc base b new_size >>= λ (new_addr, b').
    elim new_addr [
      | none ↦ done (none, b')
      | some p ↦
          buddy_free base (with_memory b' (memcpy b'.heap.memory p addr old_size)) addr old_size
          >>= (λ (intact, b''). done (some p, b''))
    ]

unfoldable pub buddy_calloc : ℕ → Buddy → ℕ → Exec (Option ℕ × Buddy)
buddy_calloc base b size = buddy_alloc base b size >>= λ (addr, b'). elim addr [
  | none ↦ done (none, b')
  | some p ↦ done (some p, with_memory b' (memset b'.heap.memory p 0 size))
]

unfoldable pub malloc : ℕ → Buddy → ℤ → Exec (Option ℕ × Buddy)
malloc base b (pos (suc n)) = buddy_alloc base b (suc n)
malloc base b size = done (none, b)

unfoldable pub mfree : ℕ → Buddy → Option ℕ → ℤ → Exec Buddy
mfree base b (some addr) (pos (suc n)) = buddy_free base b addr (suc n) >>= λ (intact, b'). done b'
mfree base b addr size = done b

unfoldable pub realloc : ℕ → Buddy → Option ℕ → ℤ → ℤ → Exec (Option ℕ × Buddy)
realloc base b (some addr) (pos (suc old)) (pos (suc new)) =
    buddy_realloc base b addr (suc old) (suc new)
realloc base b addr old new = done (none, b)

unfoldable pub calloc : ℕ → Buddy → ℤ → Exec (Option ℕ × Buddy)
calloc base b (pos (suc n)) = buddy_calloc base b (suc n)
calloc base b size = done (none, b)
