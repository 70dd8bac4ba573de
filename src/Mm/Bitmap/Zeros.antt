-- ===== src/Mm/Bitmap/Zeros.antt =====
-- kernel/mm/bitmap.c, `alloc_aligned_bits`: the search for a run of zero bytes.
use echo_os.Base.{
  ℕ, zero, suc, ◌+◌, ◌-◌, ◌%◌, ◌<◌, ◌≤◌, List, false, done, ltb, ◌==◌, if◌then◌else◌, length, arith,
  ◌≡◌, ◌≢◌, sym, refl, lt→ltb, Option, none, some, Bool-cases, inl, inr, Exec, ltb→lt, ==_iff,
  ==_false, get_or,
}
use echo_os.Mm.Bitmap.{scan_bytes}
use echo_os.Mm.Bitmap.Search.{next_byte, Phase, Phase-bound, Phase-step}
use mathlib.Core.Path.{subst}

-- The `k` bytes below byte `i`, as far as the map has bytes there, are zero.
abbrev pub ZeroBelow : List ℕ → ℕ → ℕ → Type 0
ZeroBelow map i k = (t : ℕ) → t < k → t < i → get_or map (i - t - 1) 0 ≡ 0

-- Of the `k` bytes that were counted on the way round to byte `i`, those at the top of the map are zero.
abbrev pub ZeroAbove : List ℕ → ℕ → ℕ → Type 0
ZeroAbove map i k = (t : ℕ) → t < k → i ≤ t → get_or map (i + length map - t - 1) 0 ≡ 0

abbrev pub Found : List ℕ → ℕ → ℕ → Option ℕ → Type 0
Found map size start none = Unit {0}
Found map size start (some i) =
    (i < length map) × ZeroBelow map i size × ZeroAbove map i size × (start + size ≤ i + length map)

ZeroBelow-step :
    (map : List ℕ) (i k : ℕ)
    → get_or map i 0 ≡ 0
    → ZeroBelow map i k
    → ZeroBelow map (i + 1) (k + 1)
ZeroBelow-step map i k e h zero lt lp = let same : i + 1 - 0 - 1 ≡ i = omega arith in rw same e
ZeroBelow-step map i k e h (suc t) lt lp =
    let same : i + 1 - suc t - 1 ≡ i - t - 1 = omega arith in
    rw same (h t (omega arith) (omega arith))

ZeroAbove-step : (map : List ℕ) (i k : ℕ) → ZeroAbove map i k → ZeroAbove map (i + 1) (k + 1)
ZeroAbove-step map i k h zero lt le = absurd (omega arith)
ZeroAbove-step map i k h (suc t) lt le =
    let same : i + 1 + length map - suc t - 1 ≡ i + length map - t - 1 = omega arith in
    rw same (h t (omega arith) (omega arith))

module _ (map : List ℕ) (size last_i : ℕ) (last_ok : last_i < length map) where
  abbrev pub Ends : Exec (Option ℕ) → Type 0
  Ends run = (r : Option ℕ) × (run ≡ done r) × Found map size last_i r

  abbrev pub scan : ℕ → ℕ → ℕ → Exec (Option ℕ)
  scan fuel i k = scan_bytes fuel map (length map) size last_i i k

  abbrev count : ℕ → ℕ → ℕ
  count i k = if get_or map i 0 == 0 then k + 1 else 0

  -- What is known at byte `i`, which `p` stands for before the index is taken back to 0.
  abbrev State : ℕ → ℕ → ℕ → ℕ → Type 0
  State i p k d =
      ZeroBelow map p k × ZeroAbove map p k × Phase (length map) last_i i d last_i p (length map) k

  count-State : (i k d : ℕ) → State i i k d → State i (i + 1) (count i k) d
  count-State i k d (free, above, phase) = elim (Bool-cases (get_or map i 0 == 0)) [
    | inl e ↦ rw e (
      ZeroBelow-step map i k ((==_iff _ _).0 e) free,
      ZeroAbove-step map i k above,
      Phase-step (length map) last_i i d last_i i (length map) k (k + 1) (omega arith) phase,
    )
    | inr e ↦ rw e (
      (λ t lt lp. absurd (omega arith)),
      (λ t lt lp. absurd (omega arith)),
      Phase-step (length map) last_i i d last_i i (length map) k 0 (omega arith) phase,
    )
  ]

  State-next :
      (i k d : ℕ)
      → i + 1 < length map
      → (i + 1) ≢ last_i
      → State i (i + 1) k d
      → (0 < d) × State (i + 1) (i + 1) k (d - 1)
  State-next i k d hi on (free, above, inl (e, le)) =
      let more : 0 < d = ground (arith, on, e) in
      (more, (free, above, inl (omega (arith, e, more), le)))
  State-next i k d hi on (free, above, inr (e, le)) =
      (omega (arith, e), (free, above, inr (omega (arith, e), le)))

  State-wrap :
      (i k d : ℕ)
      → i + 1 ≡ length map
      → 0 ≢ last_i
      → State i (i + 1) k d
      → (0 < d) × State 0 0 k (d - 1)
  State-wrap i k d hi on (free, above, inl (e, le)) = absurd (omega (arith, last_ok))
  State-wrap i k d hi on (free, above, inr (e, le)) =
      let more : 0 < d = ground (arith, on, e, hi) in
      (
        more,
        (
          (λ t lt lp. absurd (omega arith)),
          (λ t lt lp.
              let same : i + 1 - t - 1 ≡ 0 + length map - t - 1 = omega arith in
              subst (λ q. get_or map q 0 ≡ 0) same (free t lt (omega arith))),
          inl (omega arith, omega arith),
        ),
      )

  scan_bytes-Ends :
      (fuel i k d : ℕ) → i < length map → k ≤ size → d < fuel → State i i k d → Ends (scan fuel i k)
  unfolding scan_bytes
  scan_bytes-Ends zero i k d hi hk hf state = absurd (omega arith)
  scan_bytes-Ends (suc fuel) i k d hi hk hf state = elim (Bool-cases (ltb k size)) [
    | inr e ↦
        let whole : size ≡ k = ground arith in
        rw e (
          some i,
          refl,
          subst (λ m. Found map m last_i (some i)) (sym whole)
              (
                hi,
                state.0,
                state.1,
                Phase-bound (length map) last_i i d last_i i (length map) k state.2,
              ),
        )
    | inl e ↦ elim (Bool-cases ((i + 1) % length map == last_i)) [
      | inl back ↦ rw (e, lt→ltb i (length map) hi, back) (none, refl, tt)
      | inr on ↦
          let counted = count-State i k d state in
          let few : count i k ≤ size = ground (arith, ltb→lt _ _ e) in
          elim (next_byte i (length map) hi) [
            | inl (p, q) ↦
                let on' : ((i + 1) == last_i) ≡ false = rw q at on in
                let (more, state') = State-next i (count i k) d p (==_false _ _ on') counted in
                rw (e, lt→ltb i (length map) hi, q, on')
                  (scan_bytes-Ends fuel (i + 1) (count i k) (d - 1) p few (omega (arith, more, hf))
                    state')
            | inr (p, q) ↦
                let on' : (0 == last_i) ≡ false = rw q at on in
                let (more, state') = State-wrap i (count i k) d p (==_false _ _ on') counted in
                rw (e, lt→ltb i (length map) hi, q, on')
                  (scan_bytes-Ends fuel 0 (count i k) (d - 1) (omega arith) few
                    (omega (arith, more, hf)) state')
          ]
    ]
  ]

  pub scan_bytes_lem : (fuel : ℕ) → length map < fuel → Ends (scan fuel last_i 0)
  scan_bytes_lem fuel hf =
      scan_bytes-Ends fuel last_i 0 (length map - 1) last_ok (omega arith) (omega arith) (
        (λ t lt lp. absurd (omega arith)),
        (λ t lt lp. absurd (omega arith)),
        inr (omega arith, omega arith),
      )
