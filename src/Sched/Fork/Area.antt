-- ===== src/Sched/Fork/Area.antt =====
-- kernel/sched/fork.c, `verify_area`: the pages cover the area.
use echo_os.Base.{
  ℕ, zero, suc, ◌+◌, ◌-◌, ◌*◌, ◌/◌, ◌%◌, ◌^◌, ◌<◌, ◌≤◌, ltb, List, [], ◌∷◌, done, ◌≡◌, refl, arith,
  ◌⊎◌, inl, inr, dec_lt, Bool-cases, lt→ltb,
}
use echo_os.Base.Int.{pos}
use echo_os.Sched.Task.{Task}
use echo_os.Sched.Fork.{verify_pages, verify_area}

-- Some page of the list holds the address.
abbrev pub OnPage : ℕ → List ℕ → Type 0
OnPage q [] = ⊥
OnPage q (p ∷ ps) = ((p ≤ q) × (q < p + 4096)) ⊎ OnPage q ps

pages_cover :
    (fuel start size : ℕ)
    → size ≤ 4096 * fuel
    → start + size ≤ 2 ^ 64
    → (ps : List ℕ) × (verify_pages (suc fuel) start size ≡ done ps)
      × ((q : ℕ) → start ≤ q → q < start + size → OnPage q ps)
unfolding verify_pages
pages_cover zero start size le top = ([], ground arith, λ q ge lt. absurd (omega arith))
pages_cover (suc fuel) start size le top = elim (Bool-cases (ltb 0 size)) [
  | inr empty ↦ ([], rw empty refl, λ q ge lt. absurd (ground arith))
  | inl more ↦
      let start' = (start + 4096) % 2 ^ 64 in
      let (ps, ran, cover) = pages_cover fuel start' (size - 4096) (omega arith) (omega arith) in
      (
        start ∷ ps,
        rw (more, ran) refl,
        λ q ge lt. elim (dec_lt q (start + 4096)) [
          | yes here ↦ inl (ge, here)
          | no there ↦
              let unwrapped : start' ≡ start + 4096 = omega arith in
              inr (cover q (omega arith) (omega arith))
        ],
      )
]

area_runs :
    (fuel : ℕ) (current : Task) (addr size start : ℕ) (ps : List ℕ)
    → size + addr % 4096 < 2 ^ 31
    → (addr / 4096 % 2 ^ 20 * 4096 + current.data_base) % 2 ^ 64 ≡ start
    → verify_pages fuel start (size + addr % 4096) ≡ done ps
    → verify_area fuel current addr (pos size) ≡ done ps
unfolding verify_area
area_runs fuel current addr size start ps fits at ran =
    let total : (size % 2 ^ 32 + addr % 4096) % 2 ^ 32 ≡ size + addr % 4096 = omega arith in
    rw (total, at, lt→ltb (size + addr % 4096) (2 ^ 31) fits) ran

-- For an address below 2 ^ 32 and a size that is not negative and stays an int when the offset in the
-- page is added, where the area ends by 2 ^ 64 in the data segment of the task, and with fuel for its
-- pages and one round more, `verify_area` ends, and the pages that it has verified hold every byte of
-- the area.
pub verify_area_lem :
    (fuel : ℕ) (current : Task) (addr size : ℕ)
    → addr < 2 ^ 32
    → size + addr % 4096 < 2 ^ 31
    → current.data_base + addr + size ≤ 2 ^ 64
    → size + addr % 4096 ≤ 4096 * fuel
    → (ps : List ℕ) × (verify_area (suc fuel) current addr (pos size) ≡ done ps)
      × ((t : ℕ) → t < size → OnPage (current.data_base + addr + t) ps)
verify_area_lem fuel current addr size small fits top enough =
    let start = addr / 4096 % 2 ^ 20 * 4096 + current.data_base in
    let page : addr / 4096 % 2 ^ 20 ≡ addr / 4096 = omega arith in
    let whole : start + addr % 4096 ≡ current.data_base + addr = omega (arith, page) in
    elim (dec_lt start (2 ^ 64)) [
      | yes below ↦
          let (ps, ran, cover) =
            pages_cover fuel start (size + addr % 4096) enough (omega (arith, whole, top)) in
          (
            ps,
            area_runs (suc fuel) current addr size start ps fits (omega (arith, below)) ran,
            λ t lt.
                cover (current.data_base + addr + t) (omega (arith, whole))
                  (omega (arith, whole, lt)),
          )
      | no over ↦
          let empty : size + addr % 4096 ≡ 0 = omega (arith, whole, top, over) in
          let (ps, ran, cover) =
            pages_cover fuel (start % 2 ^ 64) (size + addr % 4096) enough (omega (arith, empty)) in
          (
            ps,
            area_runs (suc fuel) current addr size (start % 2 ^ 64) ps fits refl ran,
            λ t lt. absurd (omega (arith, empty, lt)),
          )
    ]

-- The greatest int from an address that is not at a page's start: the size is negative afterwards.
verify_area_over :
    (fuel : ℕ) (current : Task) → verify_area (suc fuel) current 1 (pos (2 ^ 31 - 1)) ≡ done []
unfolding verify_area
verify_area_over fuel current = refl
