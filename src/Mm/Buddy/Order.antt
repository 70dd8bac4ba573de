-- ===== src/Mm/Buddy/Order.antt =====
-- kernel/mm/buddy.c: the loop that finds the order of a request.
use echo_os.Base.{
  ℕ, zero, suc, ◌+◌, ◌^◌, ◌<◌, ◌≤◌, true, done, fault, ◌≡◌, refl, arith, ltb, Bool-cases, inl, inr,
  ltb→lt, lt→ltb, ℕ_discrete,
}
use native.Mathlib.Nat.{pow-le-pow_right}
use echo_os.Mm.Buddy.{order_from, order_for}

-- The least order `o` from `order` on whose block holds `size` bytes.
abbrev pub Least : ℕ → ℕ → ℕ → Type 0
Least order size o = (size ≤ 2 ^ o) × ((k : ℕ) → order ≤ k → k < o → 2 ^ k < size)

order_from-Least :
    (fuel order size : ℕ)
    → order ≤ 30
    → 30 < fuel + order
    → size ≤ 2 ^ 30
    → (o : ℕ) × (order_from fuel order size ≡ done o) × (order ≤ o) × (o ≤ 30) × Least order size o
unfolding order_from
order_from-Least zero order size h f small = absurd (omega arith)
order_from-Least (suc fuel) order size h f small = elim (Bool-cases (ltb (2 ^ order) size)) [
  | inr fits ↦
      (order, rw fits refl, omega arith, h, (ground arith, λ k le lt. absurd (omega arith)))
  | inl more ↦ elim (Bool-cases (ltb order 30)) [
    | inl room ↦
        let (o, ran, le, top, (holds, least)) =
          order_from-Least fuel (order + 1) size (omega (arith, ltb→lt _ _ room)) (omega arith)
            small in
        (
          o,
          rw (more, room) ran,
          omega arith,
          top,
          (
            holds,
            λ k lo lt. elim (ℕ_discrete order k) [
              | yes e ↦ rw (← e) (ltb→lt (2 ^ order) size more)
              | no ne ↦ least k (omega arith) lt
            ],
          ),
        )
    | inr full ↦
        let top : order ≡ 30 = ground arith in
        absurd (let big : 2 ^ 30 < size = rw top at (ltb→lt (2 ^ order) size more) in omega (arith))
  ]
]

-- For a request of at most 2 ^ 30 bytes the loop of `buddy_alloc` and `buddy_free` ends, at the
-- least order whose block holds the request.
pub order_for-Least :
    (size : ℕ) → size ≤ 2 ^ 30 → (o : ℕ) × (order_for size ≡ done o) × (o ≤ 30) × Least 0 size o
order_for-Least size small =
    let (o, ran, le, top, least) = order_from-Least 32 0 size (omega arith) (omega arith) small in
    (o, ran, top, least)

-- A greater request shifts 1 by 31 in an `int`, which C leaves undefined.
order_from_overflow :
    (fuel order size : ℕ)
    → order ≤ 30
    → 30 < fuel + order
    → 2 ^ 30 < size
    → order_from fuel order size ≡ fault
unfolding order_from
order_from_overflow zero order size h f big = absurd (omega arith)
order_from_overflow (suc fuel) order size h f big =
    let power : 2 ^ order ≤ 2 ^ 30 = pow-le-pow_right (omega arith) h in
    let more : ltb (2 ^ order) size ≡ true = lt→ltb (2 ^ order) size (omega arith) in
    elim (Bool-cases (ltb order 30)) [
      | inr full ↦ rw (more, full) refl
      | inl room ↦
          rw (more, room)
            (order_from_overflow fuel (order + 1) size (omega (arith, ltb→lt _ _ room))
              (omega arith) big)
    ]

-- For a request of more than 2 ^ 30 bytes the loop comes to `1 << 31`, which overflows an int.
pub order_for_overflow : (size : ℕ) → 2 ^ 30 < size → order_for size ≡ fault
order_for_overflow size big = order_from_overflow 32 0 size (omega arith) (omega arith) big
