-- ===== src/Mm/Bitmap/Search.antt =====
-- kernel/mm/bitmap.c, `alloc_bits`: the search for a run of clear bits.
use echo_os.Base.{
  ℕ, zero, suc, ◌+◌, ◌-◌, ◌*◌, ◌/◌, ◌%◌, ◌<◌, ◌≤◌, List, true, false, done, ltb, ◌==◌,
  if◌then◌else◌, length, arith, ◌≡◌, ◌≢◌, sym, refl, lt→ltb, Option, none, some, Bool-cases, inl,
  inr, ◌⊎◌, Exec, ltb→lt, ==_iff, dec_lt, ==_false,
}
use mathlib.Core.Path.{subst}
use echo_os.Mm.Bitmap.{scan_bits, is_used, is_clear}

-- The `k` bits below position `p`, as far as the map has bits there, are clear.
abbrev pub FreeBelow : List ℕ → ℕ → ℕ → Type 0
FreeBelow map p k = (t : ℕ) → t < k → t < p → is_used map (p - t - 1) ≡ false

-- Of the `k` bits that were counted on the way round the ring to position `p`, those that lie at the top
-- of the map are clear.
abbrev pub FreeAbove : List ℕ → ℕ → ℕ → Type 0
FreeAbove map p k = (t : ℕ) → t < k → p ≤ t → is_used map (p + 8 * length map - t - 1) ≡ false

-- The search from `start` ends at position `p`: the bits before it, round the ring, are clear, and it
-- has not passed `start` again.
abbrev pub Found : List ℕ → ℕ → ℕ → Option ℕ → Type 0
Found map size start none = Unit {0}
Found map size start (some p) =
    (p ≤ 8 * length map)
    × FreeBelow map p size
    × FreeAbove map p size
    × (start + size ≤ p + 8 * length map)
    × (0 < size → 0 < p)

-- Index `i` of `n` is searched, and `d` more before the search is back at `last_i`: it has passed the
-- end of the ring, or it has not. In the first case the places counted may lie across the end.
abbrev pub Phase : ℕ → ℕ → ℕ → ℕ → ℕ → ℕ → ℕ → ℕ → Type 0
Phase n last_i i d start p ring k =
    ((i + d + 1 ≡ last_i) × (start + k ≤ p + ring)) ⊎ ((i + d + 1 ≡ last_i + n) × (start + k ≤ p))

pub Phase-bound :
    (n last_i i d start p ring k : ℕ) → Phase n last_i i d start p ring k → start + k ≤ p + ring
Phase-bound n last_i i d start p ring k (inl h) = h.1
Phase-bound n last_i i d start p ring k (inr h) = omega (arith, h.1)

pub Phase-step :
    (n last_i i d start p ring k k' : ℕ)
    → k' ≤ k + 1
    → Phase n last_i i d start p ring k
    → Phase n last_i i d start (p + 1) ring k'
Phase-step n last_i i d start p ring k k' le (inl h) = inl (h.0, omega (arith, h.1, le))
Phase-step n last_i i d start p ring k k' le (inr h) = inr (h.0, omega (arith, h.1, le))

FreeBelow-step :
    (map : List ℕ) (i j k : ℕ)
    → j < 8
    → is_clear map i j ≡ true
    → FreeBelow map (i * 8 + j) k
    → FreeBelow map (i * 8 + (j + 1)) (k + 1)
FreeBelow-step map i j k hj e h zero lt lp =
    let ei : (i * 8 + (j + 1) - 0 - 1) / 8 ≡ i = omega arith in
    let ej : (i * 8 + (j + 1) - 0 - 1) % 8 ≡ j = omega arith in rw (ei, ej, e) refl
FreeBelow-step map i j k hj e h (suc t) lt lp =
    let same : i * 8 + (j + 1) - suc t - 1 ≡ i * 8 + j - t - 1 = omega arith in
    rw same (h t (omega arith) (omega arith))

-- The byte after byte `i` of a ring of `n` bytes.
pub next_byte :
    (i n : ℕ) → i < n → ((i + 1 < n) × ((i + 1) % n ≡ i + 1)) ⊎ ((i + 1 ≡ n) × ((i + 1) % n ≡ 0))
next_byte i n h = elim (dec_lt (i + 1) n) [
  | yes p ↦ inl (p, grind arith)
  | no p ↦ inr (omega arith, grind arith)
]

FreeAbove-step : (map : List ℕ) (p k : ℕ) → FreeAbove map p k → FreeAbove map (p + 1) (k + 1)
FreeAbove-step map p k h zero lt le = absurd (omega arith)
FreeAbove-step map p k h (suc t) lt le =
    let same : p + 1 + 8 * length map - suc t - 1 ≡ p + 8 * length map - t - 1 = omega arith in
    rw same (h t (omega arith) (omega arith))

module _ (map : List ℕ) (size last last_i : ℕ) (last_ok : last_i < length map) where
  -- The search returns, without a fault, and what it returns is right.
  abbrev pub Ends : Exec (Option ℕ) → Type 0
  Ends run = (r : Option ℕ) × (run ≡ done r) × Found map size last r

  abbrev pub scan : ℕ → ℕ → ℕ → ℕ → Exec (Option ℕ)
  scan fuel i j k = scan_bits fuel map (length map) size last_i i j k

  -- What is known where bit `j` of byte `i` comes next.
  abbrev State : ℕ → ℕ → ℕ → ℕ → Type 0
  State i j k d =
      FreeBelow map (i * 8 + j) k
      × FreeAbove map (i * 8 + j) k
      × Phase (length map) last_i i d last (i * 8 + j) (8 * length map) k

  State-clear :
      (i j k d : ℕ) → j < 8 → is_clear map i j ≡ true → State i j k d → State i (j + 1) (k + 1) d
  State-clear i j k d hj e (free, above, phase) =
      let pos : i * 8 + j + 1 ≡ i * 8 + (j + 1) = omega arith in
      (
        FreeBelow-step map i j k hj e free,
        subst (λ p. FreeAbove map p (k + 1)) pos (FreeAbove-step map (i * 8 + j) k above),
        subst (λ p. Phase (length map) last_i i d last p (8 * length map) (k + 1)) pos
            (Phase-step (length map) last_i i d last (i * 8 + j) (8 * length map) k (k + 1)
              (omega arith) phase),
      )

  State-used : (i j k d : ℕ) → State i j k d → State i (j + 1) 0 d
  State-used i j k d (free, above, phase) =
      let pos : i * 8 + j + 1 ≡ i * 8 + (j + 1) = omega arith in
      (
        (λ t lt lp. absurd (omega arith)),
        (λ t lt lp. absurd (omega arith)),
        subst (λ p. Phase (length map) last_i i d last p (8 * length map) 0) pos
            (Phase-step (length map) last_i i d last (i * 8 + j) (8 * length map) k 0 (omega arith)
              phase),
      )

  Phase-next :
      (i d p k : ℕ)
      → i + 1 < length map
      → (i + 1) ≢ last_i
      → Phase (length map) last_i i d last p (8 * length map) k
      → (0 < d) × Phase (length map) last_i (i + 1) (d - 1) last p (8 * length map) k
  Phase-next i d p k hi on (inl (e, le)) =
      let more : 0 < d = ground (arith, on, e) in (more, inl (omega (arith, e, more), le))
  Phase-next i d p k hi on (inr (e, le)) = (omega (arith, e), inr (omega (arith, e), le))

  State-next :
      (i k d : ℕ)
      → i + 1 < length map
      → (i + 1) ≢ last_i
      → State i 8 k d
      → (0 < d) × State (i + 1) 0 k (d - 1)
  State-next i k d hi on (free, above, phase) =
      let pos : i * 8 + 8 ≡ (i + 1) * 8 + 0 = omega arith in
      let (more, phase') = Phase-next i d (i * 8 + 8) k hi on phase in
      (
        more,
        (
          subst (λ p. FreeBelow map p k) pos free,
          subst (λ p. FreeAbove map p k) pos above,
          subst (λ p. Phase (length map) last_i (i + 1) (d - 1) last p (8 * length map) k) pos
              phase',
        ),
      )

  -- The search goes on at the other end of the map.
  State-wrap :
      (i k d : ℕ) → i + 1 ≡ length map → 0 ≢ last_i → State i 8 k d → (0 < d) × State 0 0 k (d - 1)
  State-wrap i k d hi on (free, above, inl (e, le)) = absurd (omega (arith, last_ok))
  State-wrap i k d hi on (free, above, inr (e, le)) =
      let more : 0 < d = ground (arith, on, e, hi) in
      (
        more,
        (
          (λ t lt lp. absurd (omega arith)),
          (λ t lt lp.
              let same : i * 8 + 8 - t - 1 ≡ 0 * 8 + 0 + 8 * length map - t - 1 = omega arith in
              subst (λ q. is_used map q ≡ false) same (free t lt (omega arith))),
          inl (omega arith, omega arith),
        ),
      )

  -- One bit is looked at.
  look :
      (fuel i j k d : ℕ)
      → j < 8
      → k < size
      → State i j k d
      → ((k' : ℕ) → k' ≤ size → State i (j + 1) k' d → Ends (scan fuel i (j + 1) k'))
      → Ends (scan fuel i (j + 1) (if is_clear map i j then k + 1 else 0))
  look fuel i j k d hj hk state ih = elim (Bool-cases (is_clear map i j)) [
    | inl e ↦ rw e (ih (k + 1) (omega arith) (State-clear i j k d hj e state))
    | inr e ↦ rw e (ih 0 (omega arith) (State-used i j k d state))
  ]

  scan_bits-Ends :
      (fuel i j k d : ℕ)
      → i < length map
      → j ≤ 8
      → k ≤ size
      → 8 * d + (8 - j) < fuel
      → (0 < k → 0 < i * 8 + j)
      → State i j k d
      → Ends (scan fuel i j k)
  unfolding scan_bits
  scan_bits-Ends zero i j k d hi hj hk hf begun state = absurd (omega arith)
  scan_bits-Ends (suc fuel) i j k d hi hj hk hf begun state = elim (Bool-cases (ltb k size)) [
    | inr e ↦
        let whole : size ≡ k = ground (arith) in
        rw e (
          some (i * 8 + j),
          refl,
          subst (λ m. Found map m last (some (i * 8 + j))) (sym whole)
              (
                omega arith,
                state.0,
                state.1,
                Phase-bound (length map) last_i i d last (i * 8 + j) (8 * length map) k state.2,
                begun,
              ),
        )
    | inl e ↦ elim (Bool-cases (j == 8)) [
      | inr e8 ↦
          rw (e, e8, lt→ltb i (length map) hi)
            (look fuel i j k d (omega (arith, ==_false _ _ e8)) (ltb→lt _ _ e) state
              (λ k' hk' state'.
                scan_bits-Ends fuel i (j + 1) k' d hi (omega (arith, ==_false _ _ e8)) hk'
                  (omega (arith, ==_false _ _ e8)) (λ some_counted. omega arith) state'))
      | inl e8 ↦
          let at8 : j ≡ 8 = (==_iff _ _).0 e8 in
          let state8 : State i 8 k d = subst (λ n. State i n k d) at8 state in
          elim (Bool-cases ((i + 1) % length map == last_i)) [
            | inl back ↦ rw (e, e8, back) (none, refl, tt)
            | inr on ↦ elim (next_byte i (length map) hi) [
              | inl (p, q) ↦
                  let on' : ((i + 1) == last_i) ≡ false = rw q at on in
                  let (more, state') = State-next i k d p (==_false _ _ on') state8 in
                  rw (e, e8, q, on', lt→ltb (i + 1) (length map) p)
                    (look fuel (i + 1) 0 k (d - 1) (omega arith) (ltb→lt _ _ e) state'
                      (λ k' hk' state''.
                        scan_bits-Ends fuel (i + 1) 1 k' (d - 1) p (omega arith) hk'
                          (omega (arith, more, hf, at8)) (λ some_counted. omega arith) state''))
              | inr (p, q) ↦
                  let on' : (0 == last_i) ≡ false = rw q at on in
                  let (more, state') = State-wrap i k d p (==_false _ _ on') state8 in
                  rw (e, e8, q, on', lt→ltb 0 (length map) (omega arith))
                    (look fuel 0 0 k (d - 1) (omega arith) (ltb→lt _ _ e) state' (λ k' hk' state''.
                      scan_bits-Ends fuel 0 1 k' (d - 1) (omega arith) (omega arith) hk'
                        (omega (arith, more, hf, at8)) (λ some_counted. omega arith) state''))
            ]
          ]
    ]
  ]

  pub scan_bits_lem :
      (fuel : ℕ)
      → last / 8 ≡ last_i
      → 8 * length map + 1 < fuel
      → Ends (scan fuel last_i (last % 8) 0)
  scan_bits_lem fuel e hf =
      scan_bits-Ends fuel last_i (last % 8) 0 (length map - 1) last_ok (omega arith) (omega arith)
        (omega arith) (λ none_counted. absurd (omega arith))
        (
          (λ t lt lp. absurd (omega arith)),
          (λ t lt lp. absurd (omega arith)),
          inr (omega arith, omega arith),
        )
