-- ===== src/Sched/Schedule/Ticks.antt =====
-- kernel/sched/sched.c, `do_schedule`: every tick of the clock ends.
use echo_os.Base.{
  ℕ, zero, suc, ◌-◌, true, Option, none, some, Exec, done, fault, timeout, ◌>>=◌, All, All-set,
  All-at, set, ◌≡◌, refl, sym, ap, ◌∙◌, arith, inl, inr, Bool-cases,
}
use mathlib.Core.Path.{subst}
use echo_os.Base.Int.{pos, negsuc, add_ℤ, ltb_ℤ}
use echo_os.Sched.Task.{Task, Sched, task_at}
use echo_os.Sched.Schedule.{count_down, tick, do_schedule, schedule, rouse_all}
use echo_os.Sched.Schedule.Fairness.{schedule_rest}
use echo_os.Sched.Schedule.Rounds.{
  HasSlice, rouse_all-HasSlice, recharge_all-HasSlice, schedule_total,
}

-- What a tick keeps: every slot with its slice and its priority, and the clock.
abbrev pub Ticked : Sched → Sched → Type 0
Ticked s s' = All HasSlice s'.rest × (s'.jiffies ≡ s.jiffies) × (s'.current ≡ s.current)

schedule_keeps :
    (fuel : ℕ) (s : Sched)
    → All HasSlice s.rest
    → (s' : Sched) × (next : ℕ) × (schedule (suc (suc fuel)) s ≡ done (s', next)) × Ticked s s'
schedule_keeps fuel s h =
    let (s', next, ran, chosen, how, idle, current) = schedule_total fuel s h in
    let (ts, ran', state) = schedule_rest (suc (suc fuel)) s s' next ran in
    (
      s',
      next,
      ran,
      (
        elim how [
          | inl e ↦ subst (All HasSlice) (sym e) (rouse_all-HasSlice s.rest h)
          | inr e ↦
              subst (All HasSlice) (sym e)
                (recharge_all-HasSlice (rouse_all s.rest) (rouse_all-HasSlice s.rest h))
        ],
        ap (λ (x : Sched). x.jiffies) state,
        current,
      ),
    )

-- The outcome of a tick, with the slots' slices kept.
abbrev pub TickEnds : Sched → Exec (Sched × Option ℕ) → Type 0
TickEnds s (done (s', next)) = Ticked s s'
TickEnds s fault = ⊥
TickEnds s timeout = ⊥

Ticked-after :
    (s s' s'' : Sched)
    → s'.jiffies ≡ s.jiffies
    → s'.current ≡ s.current
    → Ticked s' s''
    → Ticked s s''
Ticked-after s s' s'' j c (h, j', c') = (h, j' ∙ j, c' ∙ c)

scheduled :
    (fuel : ℕ) (s : Sched)
    → All HasSlice s.rest
    → TickEnds s (schedule (suc (suc fuel)) s >>= (λ (s', next). done (s', some next)))
scheduled fuel s h =
    let (s', next, ran, kept) = schedule_keeps fuel s h in
    subst (λ (m : Exec (Sched × ℕ)). TickEnds s (m >>= (λ (s', next). done (s', some next))))
      (sym ran) kept

down :
    (n : ℕ)
    → ltb_ℤ (pos 0) (add_ℤ (pos n) (negsuc 0)) ≡ true
    → add_ℤ (pos n) (negsuc 0) ≡ pos (n - 1)
down n left = ground (arith, left)

-- The slot of the current task, with a slice that is counted down or renewed.
counted :
    (t : Task)
    → HasSlice (some t)
    → ltb_ℤ (pos 0) (add_ℤ t.counter (negsuc 0)) ≡ true
    → HasSlice (some (record t { counter = add_ℤ t.counter (negsuc 0) }))
counted t (n, p, e, e') left = (
  n - 1,
  p,
  ap (λ c. add_ℤ c (negsuc 0)) e
      ∙ down n (sym (ap (λ c. ltb_ℤ (pos 0) (add_ℤ c (negsuc 0))) e) ∙ left),
  e',
)

renewed : (t : Task) → HasSlice (some t) → HasSlice (some (record t { counter = t.priority }))
renewed t (n, p, e, e') = (suc p, p, e', e')

tick_idle : (fuel : ℕ) (s : Sched) → All HasSlice s.rest → TickEnds s (tick (suc (suc fuel)) s 0)
tick_idle fuel s h = elim (Bool-cases (ltb_ℤ (pos 0) (add_ℤ s.idle.counter (negsuc 0)))) [
  | inl left ↦ rw left (h, refl, refl)
  | inr out ↦
      rw out (scheduled fuel (record s { idle = record (s.idle) { counter = s.idle.priority } }) h)
]

count_slot :
    (fuel : ℕ) (s : Sched) (i : ℕ) (t : Task)
    → HasSlice (some t)
    → All HasSlice s.rest
    → TickEnds s (count_down (suc (suc fuel)) s (suc i) (some t))
count_slot fuel s i t slice h = elim (Bool-cases (ltb_ℤ (pos 0) (add_ℤ t.counter (negsuc 0)))) [
  | inl left ↦ rw left (
    All-set HasSlice s.rest i (some (record t { counter = add_ℤ t.counter (negsuc 0) })) h
        (counted t slice left),
    refl,
    refl,
  )
  | inr out ↦ rw out (
      scheduled fuel (record s { rest = set s.rest i (some (record t { counter = t.priority })) })
        (All-set HasSlice s.rest i (some (record t { counter = t.priority })) h (renewed t slice)))
]

tick-TickEnds :
    (fuel : ℕ) (s : Sched) (i : ℕ) (t : Task)
    → task_at s i ≡ some t
    → All HasSlice s.rest
    → TickEnds s (tick (suc (suc fuel)) s i)
tick-TickEnds fuel s zero t at h = tick_idle fuel s h
tick-TickEnds fuel s (suc i) t at h =
    subst (λ m. TickEnds s (count_down (suc (suc fuel)) s (suc i) m)) (sym at)
      (count_slot fuel s i t (All-at HasSlice s.rest i none (some t) h tt at) h)

-- With a task in the current slot, and in each slot a slice from 0 on and a priority above 0,
-- `do_schedule` ends within two rounds of `schedule`. Every slot then has a slice and a priority
-- again, and the clock and the variable `current` are what they were.
pub do_schedule-TickEnds :
    (fuel : ℕ) (s : Sched) (t : Task)
    → task_at s s.current ≡ some t
    → All HasSlice s.rest
    → TickEnds s (do_schedule (suc (suc fuel)) s)
unfolding do_schedule
do_schedule-TickEnds fuel s t at h = tick-TickEnds fuel s s.current t at h
