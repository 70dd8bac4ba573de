-- ===== src/Utils/Memory/Laws.antt =====
-- kernel/utils/memory.c: what the three loops do to memory.
use echo_os.Base.{
  ℕ, zero, suc, ◌+◌, ◌<◌, ◌≤◌, ◌==◌, ltb, leb, ◌&&◌, if◌then◌else◌, ◌≡◌, refl, arith, ◌⊎◌, inl, inr,
  Bool-cases, ==_iff, ==_false,
}
use echo_os.Utils.Memory.{Memory, store, memset, memcmp, memcpy}

-- `memset` writes the byte to the region and to nothing else.
pub memset_lem :
    (m : Memory) (ptr c size q : ℕ)
    → memset m ptr c size q ≡ (if leb ptr q && ltb q (ptr + size) then c else m q)
unfolding memset
memset_lem m ptr c zero q = ground arith
memset_lem m ptr c (suc size) q = ground (arith, memset_lem (store m ptr c) (ptr + 1) c size q)

-- `memcpy` leaves what lies outside the destination as it was.
pub memcpy_outside :
    (m : Memory) (ptr1 ptr2 size q : ℕ)
    → (q < ptr1) ⊎ (ptr1 + size ≤ q)
    → memcpy m ptr1 ptr2 size q ≡ m q
unfolding memcpy
memcpy_outside m ptr1 ptr2 zero q h = refl
memcpy_outside m ptr1 ptr2 (suc size) q h =
    ground (arith, memcpy_outside (store m ptr1 (m ptr2)) (ptr1 + 1) (ptr2 + 1) size q)

-- Where the destination does not begin inside the source, `memcpy` copies the source byte by byte.
pub memcpy_lem :
    (m : Memory) (ptr1 ptr2 size t : ℕ)
    → (ptr1 ≤ ptr2) ⊎ (ptr2 + size ≤ ptr1)
    → t < size
    → memcpy m ptr1 ptr2 size (ptr1 + t) ≡ m (ptr2 + t)
unfolding memcpy
memcpy_lem m ptr1 ptr2 zero t apart h = absurd (omega arith)
memcpy_lem m ptr1 ptr2 (suc size) zero apart h =
    let e1 : ptr1 + 0 ≡ ptr1 = omega arith in
    let e2 : ptr2 + 0 ≡ ptr2 = omega arith in
    rw
      (
        e1,
        e2,
        memcpy_outside (store m ptr1 (m ptr2)) (ptr1 + 1) (ptr2 + 1) size ptr1 (inl (omega arith)),
      )
      (ground arith)
memcpy_lem m ptr1 ptr2 (suc size) (suc t) apart h =
    let e1 : ptr1 + suc t ≡ ptr1 + 1 + t = omega arith in
    let e2 : ptr2 + suc t ≡ ptr2 + 1 + t = omega arith in
    rw
      (
        e1,
        e2,
        memcpy_lem (store m ptr1 (m ptr2)) (ptr1 + 1) (ptr2 + 1) size t (omega arith) (omega arith),
      )
      (ground arith)

module _ (m : Memory) (ptr1 ptr2 : ℕ) where
  abbrev SameAt : ℕ → Type 0
  SameAt t = m (ptr1 + t) ≡ m (ptr2 + t)

  same_head : m ptr1 ≡ m ptr2 → SameAt 0
  same_head e =
      let e1 : ptr1 + 0 ≡ ptr1 = omega arith in
      let e2 : ptr2 + 0 ≡ ptr2 = omega arith in rw (e1, e2) e

  head_same : SameAt 0 → m ptr1 ≡ m ptr2
  head_same e =
      let e1 : ptr1 + 0 ≡ ptr1 = omega arith in
      let e2 : ptr2 + 0 ≡ ptr2 = omega arith in rw (e1, e2) at e

  same_tail : (t : ℕ) → m (ptr1 + 1 + t) ≡ m (ptr2 + 1 + t) → SameAt (suc t)
  same_tail t e =
      let e1 : ptr1 + suc t ≡ ptr1 + 1 + t = omega arith in
      let e2 : ptr2 + suc t ≡ ptr2 + 1 + t = omega arith in rw (e1, e2) e

  tail_same : (t : ℕ) → SameAt (suc t) → m (ptr1 + 1 + t) ≡ m (ptr2 + 1 + t)
  tail_same t e =
      let e1 : ptr1 + suc t ≡ ptr1 + 1 + t = omega arith in
      let e2 : ptr2 + suc t ≡ ptr2 + 1 + t = omega arith in rw (e1, e2) at e

  all_same :
      (size : ℕ)
      → m ptr1 ≡ m ptr2
      → ((t : ℕ) → t < size → m (ptr1 + 1 + t) ≡ m (ptr2 + 1 + t))
      → (t : ℕ) → t < suc size
      → SameAt t
  all_same size e all zero h = same_head e
  all_same size e all (suc t) h = same_tail t (all t (omega arith))

-- `memcmp` is 1 for equal regions; for different ones it is 0, and some byte differs.
pub memcmp_lem :
    (m : Memory) (ptr1 ptr2 size : ℕ)
    → ((memcmp m ptr1 ptr2 size ≡ 1) × ((t : ℕ) → t < size → m (ptr1 + t) ≡ m (ptr2 + t)))
      ⊎ ((memcmp m ptr1 ptr2 size ≡ 0) × ((t : ℕ) × (t < size) × (¬ (m (ptr1 + t) ≡ m (ptr2 + t)))))
unfolding memcmp
memcmp_lem m ptr1 ptr2 zero = inl (refl, λ t h. absurd (omega arith))
memcmp_lem m ptr1 ptr2 (suc size) = elim (Bool-cases (m ptr1 == m ptr2)) [
  | inr e ↦ inr (rw e refl, (0, omega arith, λ same. ==_false _ _ e (head_same m ptr1 ptr2 same)))
  | inl e ↦ elim (memcmp_lem m (ptr1 + 1) (ptr2 + 1) size) [
    | inl (r, all) ↦ inl (rw e r, all_same m ptr1 ptr2 size ((==_iff _ _).0 e) all)
    | inr (r, (t, lt, ne)) ↦
        inr (rw e r, (suc t, omega arith, λ same. ne (tail_same m ptr1 ptr2 t same)))
  ]
]
