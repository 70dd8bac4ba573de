-- ===== src/Sched/Schedule/Fairness.antt =====
-- kernel/sched/sched.c: what the clock does to the choice of `schedule`. No code assigns `current`,
-- which is task[0] from the start, so `do_schedule` counts down the slice of task[0] alone.
use echo_os.Base.{
  ℕ, zero, suc, false, ◌&&◌, not, List, Option, none, some, Exec, fault, ◌>>=◌, ◌==◌, ◌≡◌, done,
  bind_done, ap, ◌∙◌, sym,
}
use echo_os.Sched.Task.{Task, Sched, task_interruptible}
use echo_os.Sched.Schedule.{select, schedule, do_schedule, rouse_all, deliverable}

-- A task that `rouse` leaves as it is.
abbrev IsRoused : Option Task → Type 0
IsRoused none = Unit
IsRoused (some t) = (not (deliverable t == 0) && (t.state == task_interruptible)) ≡ false

-- A call of `schedule` right after another picks the same slot and changes nothing.
pub schedule_rest :
    (fuel : ℕ) (s s' : Sched) (next : ℕ)
    → schedule fuel s ≡ done (s', next)
    → (ts : List (Option Task)) × (select fuel (rouse_all s.rest) ≡ done (ts, next))
      × (s' ≡ record s { rest = ts })
unfolding schedule
schedule_rest fuel s s' next e =
    let ((ts, next'), ran, e') = bind_done (select fuel (rouse_all s.rest)) _ (s', next) e in
    let slot : next' ≡ next = cc in
    let state : record s { rest = ts } ≡ s' = cc in
    (ts, ran ∙ ap (λ n. done (ts, n)) slot, sym state)

abbrev quiet_tick : (Sched → Exec Sched) → Sched × Option ℕ → Exec Sched
quiet_tick rest (s', none) = rest s'
quiet_tick rest (s', some next) = fault

-- `n` calls of `do_schedule`, none of which is an expiry.
unfoldable pub quiet_ticks : ℕ → ℕ → Sched → Exec Sched
quiet_ticks fuel zero s = done s
quiet_ticks fuel (suc n) s = do_schedule fuel s >>= quiet_tick (λ s'. quiet_ticks fuel n s')
