-- ===== src/Mm/SysHeap.antt =====
-- kernel/mm/sys_heap.c and kernel/mm/kmalloc.c: the system heap. The address `base` of the array
-- `sys_heap` is a parameter; `bitmap` and `last` are the statics of sys_heap.c.
pub mod Alloc
pub mod Free
pub mod Session
pub mod Empty
mod Tests
use echo_os.Base.{
  ℕ, zero, suc, ◌+◌, ◌-◌, ◌*◌, ◌%◌, ◌^◌, bit_and, List, Option, none, some, Exec, done, fault,
  ◌>>=◌, ltb, ◌==◌, if◌then◌else◌, length,
}
use echo_os.Base.Int.{ℤ, pos, negsuc}
use echo_os.Utils.Memory.{Memory, memcpy, memset}
use echo_os.Mm.Bitmap.{alloc_bits, alloc_aligned_bits, free_bits, free_aligned_bits}

pub record SysHeap : Type 0 where
  pub bitmap : List ℕ
  pub last : ℕ
  pub memory : Memory

-- SYS_HEAP_ALLOC_THRESHOLD
abbrev pub threshold : ℕ
threshold = 16

-- Fuel for one round of `alloc_bits` over the map.
abbrev pub round_trip : SysHeap → ℕ
round_trip h = 8 * length h.bitmap + 2

abbrev pub take_index : ℕ → SysHeap → Option ℕ × List ℕ × ℕ → Exec (Option ℕ × SysHeap)
take_index base h (none, map, last) = done (none, record h { bitmap = map; last = last })
take_index base h (some index, map, last) =
    done (some (base + index), record h { bitmap = map; last = last })

-- The pointer (`none` for NULL) and the heap afterwards.
unfoldable pub sys_heap_alloc : ℕ → SysHeap → ℕ → Exec (Option ℕ × SysHeap)
sys_heap_alloc base h size =
    (if ltb size threshold
      then alloc_bits (round_trip h) h.bitmap (length h.bitmap) size h.last
      else alloc_aligned_bits (round_trip h) h.bitmap (length h.bitmap) size h.last)
    >>= take_index base h

-- The index is `(int)(addr - sys_heap)`, for an address fewer than 2 ^ 31 bytes from the array. A negative index faults in `free_bits` when a bit is
-- written, and in `free_aligned_bits` where `(index + 7) / 8`, which C rounds towards 0, is below 0.
unfoldable pub free_index : ℕ → SysHeap → ℕ → ℕ → Exec (List ℕ)
free_index base h addr size =
    if ltb size threshold
    then (if ltb addr base
        then (if size == 0 then done h.bitmap else fault)
        else free_bits h.bitmap (addr - base) size)
    else (if ltb (addr + 14) base then fault else free_aligned_bits h.bitmap (addr - base) size)

unfoldable pub sys_heap_free : ℕ → SysHeap → ℕ → ℕ → Exec SysHeap
sys_heap_free base h addr size =
    free_index base h addr size >>= λ map. done (record h { bitmap = map })

unfoldable pub sys_heap_realloc : ℕ → SysHeap → ℕ → ℕ → ℕ → Exec (Option ℕ × SysHeap)
sys_heap_realloc base h addr old_size new_size =
    sys_heap_alloc base h new_size >>= λ (new_addr, h'). elim new_addr [
      | none ↦ done (none, h')
      | some p ↦
          sys_heap_free base (record h' { memory = memcpy h'.memory p addr old_size }) addr old_size
          >>= (λ h''. done (some p, h''))
    ]

unfoldable pub sys_heap_calloc : ℕ → SysHeap → ℕ → Exec (Option ℕ × SysHeap)
sys_heap_calloc base h size = sys_heap_alloc base h size >>= λ (addr, h'). elim addr [
  | none ↦ done (none, h')
  | some p ↦ done (some p, record h' { memory = memset h'.memory p 0 size })
]

-- `~(align - 1)` is an unsigned int: the mask has 32 bits, the address 64.
unfoldable pub sys_heap_memalign : ℕ → SysHeap → ℕ → ℕ → Exec (Option ℕ × SysHeap)
sys_heap_memalign base h size align =
    sys_heap_alloc base h ((size + align) % 2 ^ 32) >>= λ (addr, h'). elim addr [
      | none ↦ done (none, h')
      | some p ↦ done (some (bit_and (p + align) (2 ^ 32 - 1 - (align + 2 ^ 32 - 1) % 2 ^ 32)), h')
    ]

unfoldable pub kmalloc : ℕ → SysHeap → ℤ → Exec (Option ℕ × SysHeap)
kmalloc base h (negsuc n) = done (none, h)
kmalloc base h (pos zero) = done (none, h)
kmalloc base h (pos (suc n)) = sys_heap_alloc base h (suc n)

unfoldable pub kfree : ℕ → SysHeap → Option ℕ → ℤ → Exec SysHeap
kfree base h none size = done h
kfree base h (some addr) (negsuc n) = done h
kfree base h (some addr) (pos zero) = done h
kfree base h (some addr) (pos (suc n)) = sys_heap_free base h addr (suc n)

unfoldable pub krealloc : ℕ → SysHeap → Option ℕ → ℤ → ℤ → Exec (Option ℕ × SysHeap)
krealloc base h (some addr) (pos (suc old)) (pos (suc new)) =
    sys_heap_realloc base h addr (suc old) (suc new)
krealloc base h addr old new = done (none, h)

unfoldable pub kcalloc : ℕ → SysHeap → ℤ → Exec (Option ℕ × SysHeap)
kcalloc base h (pos (suc n)) = sys_heap_calloc base h (suc n)
kcalloc base h size = done (none, h)

unfoldable pub kmemalign : ℕ → SysHeap → ℤ → ℤ → Exec (Option ℕ × SysHeap)
kmemalign base h (pos (suc n)) (pos (suc align)) = sys_heap_memalign base h (suc n) (suc align)
kmemalign base h size align = done (none, h)
