-- ===== src/Mm/SysHeap/Session/Kept.antt =====
-- kernel/mm/kmalloc.c: every sequence of allocations and releases implements the blocks of the client.
use echo_os.Base.{
  ℕ, zero, suc, ◌+◌, ◌-◌, ◌*◌, ◌%◌, ◌<◌, ◌≤◌, Bool, true, false, ◌||◌, List, ◌∷◌, none, some, done,
  length, ◌≡◌, refl, sym, ap, ◌∙◌, arith, if◌then◌else◌,
}
use mathlib.Core.Path.{subst}
use echo_os.Base.Int.{pos}
use echo_os.Mm.Bitmap.{is_used}
use echo_os.Mm.Bitmap.Bits.{IsBytes, inside, Painted}
use echo_os.Mm.SysHeap.{SysHeap, threshold, kmalloc, kfree, sys_heap_free}
use echo_os.Mm.SysHeap.Alloc.{IsValid, granted, AllocOutcome, sys_heap_alloc_lem}
use echo_os.Mm.SysHeap.Free.{kmalloc-Granted, Granted-IsValid, free_block}
use echo_os.Mm.SysHeap.Session.{
  Block, covered, Remove, here, there, Step, got, refused, freed, Steps, stay, next, Blocks,
  Implements,
}

-- What a block that is taken out was to the list, and what is left.
record Out (bits i n : ℕ) (bs bs' : List Block) : Type 0 where
  positive : 0 < n
  in_map : i + granted n ≤ bits
  aligned : threshold ≤ n → i % 8 ≡ 0
  apart : (q : ℕ) → inside i (granted n) q ≡ true → covered bs' q ≡ false
  left : Blocks bits bs'
  parts : (q : ℕ) → covered bs q ≡ (inside i (granted n) q || covered bs' q)

or_swap : (a b c : Bool) → (a || (b || c)) ≡ (b || (a || c))
or_swap true true c = refl
or_swap true false c = refl
or_swap false b c = refl

-- Two blocks that do not overlap, and the rest.
apart_both :
    (j i whole rest : Bool)
    → whole ≡ (i || rest)
    → (j ≡ true → whole ≡ false)
    → (i ≡ true → rest ≡ false)
    → i ≡ true
    → (j || rest) ≡ false
apart_both true i whole rest e no_j no_i is = ground (arith, no_j refl, e, is)
apart_both false i whole rest e no_j no_i is = no_i is

rest_false : (i whole rest : Bool) → whole ≡ (i || rest) → whole ≡ false → rest ≡ false
rest_false true whole rest e off = ground (arith, e, off)
rest_false false whole rest e off = sym e ∙ off

removed :
    (bits i n : ℕ) (bs bs' : List Block) → Remove i n bs bs' → Blocks bits bs → Out bits i n bs bs'
removed bits i n bs bs' here (n_pos, in_map, at8, apart, rest) = record {
  positive = n_pos;
  in_map = in_map;
  aligned = at8;
  apart = apart;
  left = rest;
  parts = λ q. refl;
}
removed bits i n bs bs' (there {j = j} {k = k} {bs = ds} {cs = cs} r)
      (k_pos, k_in, at8, apart, rest) =
    let out = removed bits i n ds cs r rest in
    record {
      positive = out.positive;
      in_map = out.in_map;
      aligned = out.aligned;
      apart = λ q.
          apart_both (inside j (granted k) q) (inside i (granted n) q) (covered ds q) (covered cs q)
            (out.parts q) (apart q) (out.apart q);
      left = (
        k_pos,
        k_in,
        at8,
        λ q is.
            rest_false (inside i (granted n) q) (covered ds q) (covered cs q) (out.parts q)
              (apart q is),
        out.left,
      );
      parts = λ q.
          ap (λ b. inside j (granted k) q || b) (out.parts q)
          ∙ or_swap (inside j (granted k) q) (inside i (granted n) q) (covered cs q);
    }

kfree_block :
    (base : ℕ) (h : SysHeap) (i n : ℕ)
    → 0 < n
    → IsValid h
    → i + granted n ≤ 8 * length h.bitmap
    → (threshold ≤ n → i % 8 ≡ 0)
    → (map : List ℕ) × (kfree base h (some (base + i)) (pos n) ≡ done (record h { bitmap = map }))
      × Painted h.bitmap map i (granted n) 0
unfolding kfree sys_heap_free
kfree_block base h i zero n_pos valid in_map aligned = absurd (omega (arith, n_pos))
kfree_block base h i (suc n) n_pos valid in_map aligned =
    let at : base + i - base ≡ i = omega arith in
    let (map, ran, painted) =
      free_block base h (suc n) (base + i) n_pos (omega arith) valid.bytes
        (omega (arith, at, in_map)) (λ big. ap (λ k. k % 8) at ∙ aligned big) in
    (map, rw ran refl, subst (λ k. Painted h.bitmap map k (granted (suc n)) 0) at painted)

-- Clearing the bits of a block that is taken out.
cleared :
    (i rest whole used used' : Bool)
    → whole ≡ (i || rest)
    → (i ≡ true → rest ≡ false)
    → used ≡ whole
    → used' ≡ (if i then false else used)
    → used' ≡ rest
cleared true rest whole used used' e apart same now = now ∙ sym (apart refl)
cleared false rest whole used used' e apart same now = now ∙ (same ∙ e)

set_bits :
    (i used used' whole : Bool)
    → used' ≡ (if i then true else used)
    → used ≡ whole
    → used' ≡ (i || whole)
set_bits true used used' whole now same = now
set_bits false used used' whole now same = now ∙ same

done_injective : (a b : SysHeap) → done a ≡ done b → a ≡ b
done_injective a b e = cc

freed-Implements :
    (base : ℕ) (h h' : SysHeap) (bs bs' : List Block) (i n : ℕ)
    → Remove i n bs bs'
    → kfree base h (some (base + i)) (pos n) ≡ done h'
    → Implements h bs
    → Implements h' bs'
freed-Implements base h h' bs bs' i n r e imp =
    let out = removed (8 * length h.bitmap) i n bs bs' r imp.blocks in
    let (map, ran, painted) =
      kfree_block base h i n out.positive imp.valid out.in_map out.aligned in
    let same : h' ≡ record h { bitmap = map } =
      done_injective h' (record h { bitmap = map }) (sym e ∙ ran) in
    subst (λ x. Implements x bs') (sym same)
      (record {
        valid = record {
          bytes = painted.bytes;
          nonempty = omega (arith, painted.same_length, imp.valid.nonempty);
          last_in_map = omega (arith, painted.same_length, imp.valid.last_in_map);
        };
        blocks = subst (λ k. Blocks (8 * k) bs') (sym painted.same_length) out.left;
        exact = λ q.
            cleared (inside i (granted n) q) (covered bs' q) (covered bs q) (is_used h.bitmap q)
              (is_used map q) (out.parts q) (out.apart q) (imp.exact q) (painted.bits q);
      })

got-Implements :
    (base : ℕ) (h h' : SysHeap) (bs : List Block) (n p : ℕ)
    → h.last < 8 * length h.bitmap
    → kmalloc base h (pos n) ≡ done (some p, h')
    → Implements h bs
    → Implements h' ((p - base, n) ∷ bs)
got-Implements base h h' bs n p ok e imp =
    let (n_pos, le, g) = kmalloc-Granted base h h' n p imp.valid ok e in
    record {
      valid = Granted-IsValid h h' (p - base) n imp.valid g;
      blocks = (
        n_pos,
        omega (arith, g.in_map, g.painted.same_length),
        g.aligned,
        λ q is. sym (imp.exact q) ∙ g.was_free q is,
        subst (λ k. Blocks (8 * k) bs) (sym g.painted.same_length) imp.blocks,
      );
      exact = λ q.
          set_bits (inside (p - base) (granted n) q) (is_used h.bitmap q) (is_used h'.bitmap q)
            (covered bs q) (g.painted.bits q) (imp.exact q);
    }

declined :
    (base : ℕ) (h h' : SysHeap) (n : ℕ)
    → IsValid h
    → h.last < 8 * length h.bitmap
    → kmalloc base h (pos n) ≡ done (none, h')
    → (h'.bitmap ≡ h.bitmap) × (h'.last ≡ h.last)
unfolding kmalloc
declined base h h' zero valid ok e = (cc, cc)
declined base h h' (suc n) valid ok e =
    let (same, last, mem) : AllocOutcome base h (suc n) (done (none, h')) =
      rw e at (sys_heap_alloc_lem base h (suc n) valid ok) in
    (same, last)

refused-Implements :
    (base : ℕ) (h h' : SysHeap) (bs : List Block) (n : ℕ)
    → h.last < 8 * length h.bitmap
    → kmalloc base h (pos n) ≡ done (none, h')
    → Implements h bs
    → Implements h' bs
refused-Implements base h h' bs n ok e imp =
    let (same, last) = declined base h h' n imp.valid ok e in
    record {
      valid = record {
        bytes = subst IsBytes (sym same) imp.valid.bytes;
        nonempty = omega (arith, ap length same, imp.valid.nonempty);
        last_in_map = omega (arith, ap length same, last, imp.valid.last_in_map);
      };
      blocks = subst (λ map. Blocks (8 * length map) bs) (sym same) imp.blocks;
      exact = λ q. ap (λ map. is_used map q) same ∙ imp.exact q;
    }

Step-Implements :
    (base : ℕ) (h h' : SysHeap) (bs bs' : List Block)
    → Step base h bs h' bs'
    → Implements h bs
    → Implements h' bs'
Step-Implements base h h' bs bs' (got n p ok e) imp = got-Implements base h h' bs n p ok e imp
Step-Implements base h h' bs bs' (refused n ok e) imp = refused-Implements base h h' bs n ok e imp
Step-Implements base h h' bs bs' (freed i n r e) imp = freed-Implements base h h' bs bs' i n r e imp

Steps-Implements :
    (base : ℕ) (h h' : SysHeap) (bs bs' : List Block)
    → Steps base h bs h' bs'
    → Implements h bs
    → Implements h' bs'
Steps-Implements base h h' bs bs' stay imp = imp
Steps-Implements base h h'' bs bs'' (next {h' = h'} {bs' = bs'} steps step) imp =
    Step-Implements base h' h'' bs' bs'' step (Steps-Implements base h h' bs bs' steps imp)

-- From a heap that implements a list of blocks, which a valid empty heap does with no blocks, every
-- sequence of `kmalloc` and `kfree`, each `kmalloc` called with the end of the last allocation in the
-- map and each `kfree` with a block of the list, leads to a heap that implements the list of the
-- blocks that are left: they are runs of the map, no two of them overlap, and the bits in use are
-- exactly theirs. Each of them can be freed: `kfree` ends, and the heap implements the rest.
pub session-Implements :
    (base : ℕ) (h h' : SysHeap) (bs bs' : List Block)
    → Implements h bs
    → Steps base h bs h' bs'
    → Implements h' bs'
      × ((i n : ℕ) (rest : List Block)
          → Remove i n bs' rest
          → (h'' : SysHeap) × (kfree base h' (some (base + i)) (pos n) ≡ done h'')
            × Implements h'' rest)
session-Implements base h h' bs bs' imp steps =
    let imp' = Steps-Implements base h h' bs bs' steps imp in
    (
      imp',
      λ i n rest r.
          let out = removed (8 * length h'.bitmap) i n bs' rest r imp'.blocks in
          let (map, ran, painted) =
            kfree_block base h' i n out.positive imp'.valid out.in_map out.aligned in
          (
            record h' { bitmap = map },
            ran,
            freed-Implements base h' (record h' { bitmap = map }) bs' rest i n r ran imp',
          ),
    )
