-- ===== src/Mm/SysHeap/Session.antt =====
-- kernel/mm/kmalloc.c: the calls of a client, against a list of blocks that do not overlap.
pub mod Kept
use echo_os.Base.{
  ℕ, zero, suc, ◌+◌, ◌-◌, ◌*◌, ◌%◌, ◌<◌, ◌≤◌, Bool, true, false, ◌||◌, not, List, [], ◌∷◌, Option,
  none, some, Exec, done, length, ◌≡◌, refl, sym, ap, ◌∙◌, arith, ltb, if◌then◌else◌, ◌==◌,
}
use mathlib.Core.Path.{subst}
use echo_os.Base.Int.{pos}
use echo_os.Mm.Bitmap.{is_used}
use echo_os.Mm.Bitmap.Bits.{IsBytes, inside, Painted}
use echo_os.Mm.SysHeap.{SysHeap, threshold, kmalloc, kfree, sys_heap_free, free_index}
use echo_os.Mm.SysHeap.Alloc.{IsValid, granted, Granted, AllocOutcome, sys_heap_alloc_lem}
use echo_os.Mm.SysHeap.Free.{kmalloc-Granted, Granted-IsValid, free_block}

-- A block of the client: the first bit of its run in the map, and the size that was asked for.
abbrev pub Block : Type 0
Block = ℕ × ℕ

abbrev pub covered : List Block → ℕ → Bool
covered [] q = false
covered ((i, n) ∷ bs) q = inside i (granted n) q || covered bs q

-- One block is taken out of the list.
pub data Remove : ℕ → ℕ → List Block → List Block → Type 0 where
  here : {i n : ℕ} {bs : List Block} → Remove i n ((i, n) ∷ bs) bs
  there :
      {i n j k : ℕ} {bs cs : List Block} → Remove i n bs cs → Remove i n ((j, k) ∷ bs) ((j, k) ∷ cs)

-- The calls of a client that keeps its blocks: a request is made while the end of the last allocation
-- is in the map, and a block is freed with the pointer and the size that it has.
pub data Step (base : ℕ) : SysHeap → List Block → SysHeap → List Block → Type 0 where
  got :
      {h h' : SysHeap} {bs : List Block} (n p : ℕ)
      → h.last < 8 * length h.bitmap
      → kmalloc base h (pos n) ≡ done (some p, h')
      → Step base h bs h' ((p - base, n) ∷ bs)
  refused :
      {h h' : SysHeap} {bs : List Block} (n : ℕ)
      → h.last < 8 * length h.bitmap
      → kmalloc base h (pos n) ≡ done (none, h')
      → Step base h bs h' bs
  freed :
      {h h' : SysHeap} {bs bs' : List Block} (i n : ℕ)
      → Remove i n bs bs'
      → kfree base h (some (base + i)) (pos n) ≡ done h'
      → Step base h bs h' bs'

pub data Steps (base : ℕ) : SysHeap → List Block → SysHeap → List Block → Type 0 where
  stay : {h : SysHeap} {bs : List Block} → Steps base h bs h bs
  next :
      {h h' h'' : SysHeap} {bs bs' bs'' : List Block}
      → Steps base h bs h' bs'
      → Step base h' bs' h'' bs''
      → Steps base h bs h'' bs''

-- What the list promises of its blocks: each is a run of the map, and no two of them overlap.
abbrev pub Blocks : ℕ → List Block → Type 0
Blocks bits [] = Unit
Blocks bits ((i, n) ∷ bs) =
    (0 < n)
    × (i + granted n ≤ bits)
    × (threshold ≤ n → i % 8 ≡ 0)
    × ((q : ℕ) → inside i (granted n) q ≡ true → covered bs q ≡ false)
    × Blocks bits bs

-- The heap implements the list: the bits in use are those of the blocks.
pub record Implements (h : SysHeap) (bs : List Block) : Type 0 where
  pub valid : IsValid h
  pub blocks : Blocks (8 * length h.bitmap) bs
  pub exact : (q : ℕ) → is_used h.bitmap q ≡ covered bs q
