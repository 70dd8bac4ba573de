-- ===== src/Sched/Schedule/Pick.antt =====
-- kernel/sched/sched.c, the loop of `schedule` that picks a slot.
use echo_os.Base.{
  ℕ, suc, ◌+◌, true, false, ◌&&◌, not, List, [], ◌∷◌, Option, none, some, ◌==◌, ◌≡◌, refl, arith,
  ◌⊎◌, inl, inr, All, get_or, drop, Bool-cases,
}
use mathlib.Core.Path.{subst, sym}
use echo_os.Base.Int.{ℤ, negsuc, ltb_ℤ}
use echo_os.Sched.Task.{Task, task_running}
use echo_os.Sched.Schedule.{better, pick}

-- No task that can run has a counter above `c`.
abbrev pub Unbeaten : ℤ → Option Task → Type 0
Unbeaten c none = Unit
Unbeaten c (some t) = ((t.state == task_running) && ltb_ℤ c t.counter) ≡ false

-- No task that can run has a counter of `c` or more.
abbrev pub Below : ℤ → Option Task → Type 0
Below c none = Unit
Below c (some t) = ((t.state == task_running) && not (ltb_ℤ t.counter c)) ≡ false

-- A slot holds a task that can run, with the counter `c`, and the slots above it hold less.
pub record Winner (ts : List (Option Task)) (k : ℕ) (c : ℤ) : Type 0 where
  pub task : Task
  pub there : get_or ts k none ≡ some task
  pub can_run : task.state ≡ task_running
  pub counts : task.counter ≡ c
  pub above_less : All (Below c) (drop (suc k) ts)

abbrev pub Picked : ℕ → List (Option Task) → ℤ × ℕ → Type 0
Picked i ts (c, next) =
    All (Unbeaten c) ts
    × (((c ≡ negsuc 0) × (next ≡ 0)) ⊎ ((k : ℕ) × (next ≡ i + k) × Winner ts k c))

raise :
    (c d : ℤ) (ts : List (Option Task)) → ltb_ℤ c d ≡ true → All (Unbeaten c) ts → All (Below d) ts
raise c d [] lt h = tt
raise c d (none ∷ ts) lt h = (tt, raise c d ts lt h.1)
raise c d (some t ∷ ts) lt h = (ground arith, raise c d ts lt h.1)

weaken : (d : ℤ) (ts : List (Option Task)) → All (Below d) ts → All (Unbeaten d) ts
weaken d [] h = tt
weaken d (none ∷ ts) h = (tt, weaken d ts h.1)
weaken d (some t ∷ ts) h = (ground arith, weaken d ts h.1)

better-Picked :
    (t : Option Task) (i : ℕ) (ts : List (Option Task)) (best : ℤ × ℕ)
    → Picked (i + 1) ts best
    → Picked i (t ∷ ts) (better t i best)
better-Picked none i ts (c, next) (all, inl idle) = ((tt, all), inl idle)
better-Picked none i ts (c, next) (all, inr (k, e, w)) = (
  (tt, all),
  inr (
    suc k,
    omega arith,
    record {
      task = w.task;
      there = w.there;
      can_run = w.can_run;
      counts = w.counts;
      above_less = w.above_less;
    },
  ),
)
better-Picked (some t) i ts (c, next) (all, won) =
    elim (Bool-cases ((t.state == task_running) && ltb_ℤ c t.counter)) [
      | inl wins ↦
          let more : ltb_ℤ c t.counter ≡ true = ground arith in
          let less : All (Below t.counter) ts = raise c t.counter ts more all in
          let step : better (some t) i (c, next) ≡ (t.counter, i) = rw wins refl in
          subst (Picked i (some t ∷ ts)) (sym step) (
            (ground arith, weaken t.counter ts less),
            inr (
              0,
              omega arith,
              record {
                task = t;
                there = refl;
                can_run = ground arith;
                counts = refl;
                above_less = less;
              },
            ),
          )
      | inr loses ↦
          let step : better (some t) i (c, next) ≡ (c, next) = rw loses refl in
          subst (Picked i (some t ∷ ts)) (sym step) (
            (loses, all),
            elim won [
              | inl idle ↦ inl idle
              | inr (k, e, w) ↦ inr (
                suc k,
                omega arith,
                record {
                  task = w.task;
                  there = w.there;
                  can_run = w.can_run;
                  counts = w.counts;
                  above_less = w.above_less;
                },
              )
            ],
          )
    ]

-- The slot that is picked holds a task that can run, with the greatest counter of all that can, the
-- highest such slot; where none can run with a counter from 0 on, slot 0 is picked, with -1.
pub pick_lem : (i : ℕ) (ts : List (Option Task)) → Picked i ts (pick i ts)
unfolding pick
pick_lem i [] = (tt, inl (refl, refl))
pick_lem i (t ∷ ts) = better-Picked t i ts (pick (i + 1) ts) (pick_lem (i + 1) ts)
