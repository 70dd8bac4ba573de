-- ===== src/Mm/Buddy/Tests.antt =====
-- kernel/mm/buddy.c and kernel/mm/malloc.c: runs with the system heap at address 4096.
use echo_os.Base.{
  ℕ, ◌+◌, ◌-◌, ◌*◌, ◌^◌, ◌<◌, ◌≤◌, some, done, fault, ◌≡◌, refl, arith, replicate, true, ◌⊎◌, ◌++◌,
}
use echo_os.Base.Int.{pos}
use echo_os.Mm.Bitmap.{alloc_aligned_bits, scan_bytes, mark_bytes}
use echo_os.Mm.SysHeap.{SysHeap, sys_heap_alloc, kmalloc}
use echo_os.Mm.Buddy.{
  Node, null, node, free, allocated, init_buddy, alloc_buddy, split_buddy, free_buddy, order_for,
  order_from, Buddy, malloc, max_order, user_start_addr, buddy_alloc,
}
use echo_os.Utils.Memory.{Memory}
use echo_os.Mm.DeadBeef.{set_dead_beef, check_dead_beef, check_dead_beef-set_dead_beef}
use echo_os.Mm.Buddy.Order.{order_for_overflow}
use echo_os.Mm.Buddy.Shape.{IsTree, leaf, fork, Supply}
use echo_os.Mm.Buddy.Malloc.{IsValid, malloc_twice, malloc_total}
use echo_os.Mm.Buddy.{settle}
use echo_os.Mm.Buddy.Release.{Kept, free_buddy-Kept}

abbrev heap : SysHeap
heap = record { bitmap = replicate 160 0; last = 0; memory = λ q. 0 }

abbrev fresh : Buddy
fresh = record { root = node 512 max_order free user_start_addr null null; heap = heap }

fresh-IsValid : IsValid fresh
fresh-IsValid = leaf 512 max_order free user_start_addr

fresh-init_buddy : init_buddy 512 ≡ fresh.root
unfolding init_buddy
fresh-init_buddy = refl

-- A whole tree of order 3 with one half in use.
abbrev halved : Node
halved = node 512 3 free 64 (node 520 2 allocated 64 null null) (node 552 2 free 68 null null)

halved-IsTree : IsTree 3 64 halved
halved-IsTree = fork 512 2 free 64 _ _ (leaf 520 2 allocated 64) (leaf 552 2 free 68)

-- The lower half is handed out although it is in use.
alloc_used : alloc_buddy 5 4096 heap halved 2 ≡ done (some 64, halved, heap)
unfolding alloc_buddy
alloc_used = refl

order_for_overflow_example : order_for (2 ^ 30 + 1) ≡ fault
order_for_overflow_example = order_for_overflow (2 ^ 30 + 1) (omega arith)

free_buddy-Kept_example : Kept 3 64 (free_buddy 4096 heap halved 64 2)
free_buddy-Kept_example = free_buddy-Kept 4096 heap 3 64 halved 64 2 halved-IsTree

-- The block of a tree that was never split cannot be freed: `root->left` is NULL, and is read.
never_split : free_buddy 4096 heap (node 512 3 allocated 64 null null) 64 3 ≡ fault
unfolding free_buddy settle
never_split = refl

-- The heap after `k` nodes of 32 bytes.
abbrev heap_at : ℕ → SysHeap
heap_at k = record {
  bitmap = replicate (4 * k) 255 ++ replicate (160 - 4 * k) 0;
  last = 32 * k;
  memory = λ q. 0;
}

heap-Supply : Supply max_order 4096 heap
unfolding kmalloc sys_heap_alloc alloc_aligned_bits scan_bytes mark_bytes
heap-Supply = (
  4096,
  heap_at 1,
  refl,
  (
    4128,
    heap_at 2,
    refl,
    (
      4160,
      heap_at 3,
      refl,
      (
        4192,
        heap_at 4,
        refl,
        (
          4224,
          heap_at 5,
          refl,
          (
            4256,
            heap_at 6,
            refl,
            (
              4288,
              heap_at 7,
              refl,
              (
                4320,
                heap_at 8,
                refl,
                (
                  4352,
                  heap_at 9,
                  refl,
                  (
                    4384,
                    heap_at 10,
                    refl,
                    (
                      4416,
                      heap_at 11,
                      refl,
                      (
                        4448,
                        heap_at 12,
                        refl,
                        (
                          4480,
                          heap_at 13,
                          refl,
                          (
                            4512,
                            heap_at 14,
                            refl,
                            (
                              4544,
                              heap_at 15,
                              refl,
                              (
                                4576,
                                heap_at 16,
                                refl,
                                (
                                  4608,
                                  heap_at 17,
                                  refl,
                                  (
                                    4640,
                                    heap_at 18,
                                    refl,
                                    (
                                      4672,
                                      heap_at 19,
                                      refl,
                                      (
                                        4704,
                                        heap_at 20,
                                        refl,
                                        (
                                          4736,
                                          heap_at 21,
                                          refl,
                                          (
                                            4768,
                                            heap_at 22,
                                            refl,
                                            (
                                              4800,
                                              heap_at 23,
                                              refl,
                                              (
                                                4832,
                                                heap_at 24,
                                                refl,
                                                (
                                                  4864,
                                                  heap_at 25,
                                                  refl,
                                                  (
                                                    4896,
                                                    heap_at 26,
                                                    refl,
                                                    (
                                                      4928,
                                                      heap_at 27,
                                                      refl,
                                                      (
                                                        4960,
                                                        heap_at 28,
                                                        refl,
                                                        (
                                                          4992,
                                                          heap_at 29,
                                                          refl,
                                                          (
                                                            5024,
                                                            heap_at 30,
                                                            refl,
                                                            (
                                                            5056,
                                                            heap_at 31,
                                                            refl,
                                                            (
                                                            5088,
                                                            heap_at 32,
                                                            refl,
                                                            (
                                                            5120,
                                                            heap_at 33,
                                                            refl,
                                                            (
                                                            5152,
                                                            heap_at 34,
                                                            refl,
                                                            (
                                                            5184,
                                                            heap_at 35,
                                                            refl,
                                                            (5216, heap_at 36, refl, tt),
                                                            ),
                                                            ),
                                                            ),
                                                            ),
                                                            ),
                                                          ),
                                                        ),
                                                      ),
                                                    ),
                                                  ),
                                                ),
                                              ),
                                            ),
                                          ),
                                        ),
                                      ),
                                    ),
                                  ),
                                ),
                              ),
                            ),
                          ),
                        ),
                      ),
                    ),
                  ),
                ),
              ),
            ),
          ),
        ),
      ),
    ),
  ),
)

malloc_total_example :
    (b' : Buddy) × (malloc 4096 fresh (pos 100) ≡ done (some user_start_addr, b')) × IsValid b'
malloc_total_example = malloc_total 4096 fresh 99 fresh-IsValid (omega arith) heap-Supply

-- One split: the two nodes take the first eight bytes of the map.
abbrev once : Buddy
once = record {
  root =
      node 512 18 free user_start_addr (node 4096 17 allocated user_start_addr null null)
        (node 4128 17 free (user_start_addr + 2 ^ 17) null null);
  heap = record {
    bitmap = replicate 8 255 ++ replicate 152 0;
    last = 64;
    memory = set_dead_beef (λ q. 0) (user_start_addr + 2 ^ 17 - 1);
  };
}

abbrev twice : Buddy
twice = record {
  root = once.root;
  heap = record {
    bitmap = once.heap.bitmap;
    last = 64;
    memory = set_dead_beef once.heap.memory (user_start_addr + 2 ^ 17 - 1);
  };
}

first_call : malloc 4096 fresh (pos 70000) ≡ done (some user_start_addr, once)
unfolding malloc buddy_alloc order_from alloc_buddy split_buddy kmalloc sys_heap_alloc
    alloc_aligned_bits scan_bytes mark_bytes
first_call = refl

second_call : malloc 4096 once (pos 80000) ≡ done (some user_start_addr, twice)
unfolding malloc buddy_alloc order_from alloc_buddy
second_call = refl

malloc_twice_example : (user_start_addr ≡ user_start_addr) × (user_start_addr ≡ user_start_addr)
malloc_twice_example =
    malloc_twice 4096 fresh once twice (pos 70000) (pos 80000) user_start_addr user_start_addr
      fresh-IsValid first_call second_call

abbrev zeros : Memory
zeros = λ q. 0

check_dead_beef-set_dead_beef_example :
    (check_dead_beef (set_dead_beef zeros 1000) 1000 ≡ true)
    × ((q : ℕ) → (q < 1000 - 12) ⊎ (1000 - 12 + 4 ≤ q) → set_dead_beef zeros 1000 q ≡ zeros q)
check_dead_beef-set_dead_beef_example = check_dead_beef-set_dead_beef zeros 1000
