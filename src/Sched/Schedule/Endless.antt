-- ===== src/Sched/Schedule/Endless.antt =====
-- kernel/sched/sched.c: the `while (1)` of `schedule` needs a priority above 0.
use echo_os.Base.{
  ℕ, zero, suc, true, List, [], ◌∷◌, Option, none, some, ◌≡◌, refl, arith, inl, inr, All, get_or,
  timeout, All-at, ap,
}
use mathlib.Core.Option
use echo_os.Base.Int.{ℤ, pos, eqb_ℤ}
use echo_os.Sched.Task.{Task, task_running}
use echo_os.Sched.Schedule.{pick, select, recharge, recharge_all}
use echo_os.Sched.Schedule.Pick.{Picked, Unbeaten, pick_lem}

abbrev IsSpent : Option Task → Type 0
IsSpent none = Unit
IsSpent (some t) = (t.counter ≡ pos 0) × (t.priority ≡ pos 0)

-- Slot `k` of the list holds a task that can run.
abbrev Runs : List (Option Task) → ℕ → Type 0
Runs ts k = (t : Task) × (get_or ts k none ≡ some t) × (t.state ≡ task_running)

recharge_all-IsSpent : (ts : List (Option Task)) → All IsSpent ts → All IsSpent (recharge_all ts)
recharge_all-IsSpent [] h = tt
recharge_all-IsSpent (none ∷ ts) h = (tt, recharge_all-IsSpent ts h.1)
recharge_all-IsSpent (some t ∷ ts) ((e, e'), h) = ((rw (e, e') refl, e'), recharge_all-IsSpent ts h)

recharge_all-Runs : (ts : List (Option Task)) (k : ℕ) → Runs ts k → Runs (recharge_all ts) k
recharge_all-Runs [] k (t, at, run) = absurd (cc)
recharge_all-Runs (none ∷ ts) zero (t, at, run) = absurd (cc)
recharge_all-Runs (some u ∷ ts) zero (t, at, run) =
    (recharge t, ap (λ o. Option.map recharge o) at, run)
recharge_all-Runs (u ∷ ts) (suc k) h = recharge_all-Runs ts k h

spent_zero :
    (ts : List (Option Task)) (k i next : ℕ) (c : ℤ)
    → All IsSpent ts
    → Runs ts k
    → Picked i ts (c, next)
    → eqb_ℤ c (pos 0) ≡ true
spent_zero ts k i next c h (t, at, run) (all, inl (e, e')) =
    let unbeaten = All-at (Unbeaten c) ts k none (some t) all tt at in
    let spent = All-at IsSpent ts k none (some t) h tt at in ground (arith, spent.0)
spent_zero ts k i next c h runs (all, inr (j, e, w)) =
    let spent = All-at IsSpent ts j none (some w.task) h tt w.there in
    ground (arith, w.counts, spent.0)

-- If every task has used up its slice and has priority 0, and one of them can run, the loop goes
-- round for ever.
pub select_endless :
    (fuel : ℕ) (ts : List (Option Task)) (k : ℕ)
    → All IsSpent ts
    → Runs ts k
    → select fuel ts ≡ timeout
unfolding select
select_endless zero ts k h runs = refl
select_endless (suc fuel) ts k h runs =
    rw (spent_zero ts k 1 (pick 1 ts).1 (pick 1 ts).0 h runs (pick_lem 1 ts)) (
      select_endless fuel (recharge_all ts) k (recharge_all-IsSpent ts h)
        (recharge_all-Runs ts k runs))
