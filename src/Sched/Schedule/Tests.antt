-- ===== src/Sched/Schedule/Tests.antt =====
-- kernel/sched/sched.c: runs on a table of three slots behind task[0].
use echo_os.Base.{ℕ, List, [], ◌∷◌, Option, none, some, done, timeout, ◌≡◌, refl, All, ◌⊎◌}
use echo_os.Base.Int.{pos}
use echo_os.Sched.Task.{Task, Sched, task_running, task_uninterruptible}
use echo_os.Sched.Samples.{task_with, sched_with}
use echo_os.Sched.Schedule.{pick, select, schedule, rouse_all, recharge_all}
use echo_os.Sched.Schedule.Rounds.{Chosen, schedule_total}
use echo_os.Sched.Schedule.Endless.{select_endless}
use echo_os.Sched.Schedule.Wake.{IsRunning, wake_queue, wake_queue-IsRunning}

-- Two tasks that can run, the second with more of its slice left, and one that sleeps.
abbrev ready : List (Option Task)
ready =
    some (task_with task_running (pos 3) (pos 15))
    ∷ some (task_with task_running (pos 9) (pos 15))
    ∷ some (task_with task_uninterruptible (pos 12) (pos 15))
    ∷ []

pick_ready : pick 1 ready ≡ (pos 9, 2)
unfolding pick
pick_ready = refl

-- Every slice is used up, so one round recharges them.
abbrev used_up : List (Option Task)
used_up = some (task_with task_running (pos 0) (pos 15)) ∷ none ∷ []

schedule_total_example :
    (s' : Sched) × (next : ℕ) × (schedule 2 (sched_with (pos 15) used_up) ≡ done (s', next))
    × Chosen s'.rest next
    × ((s'.rest ≡ rouse_all used_up) ⊎ (s'.rest ≡ recharge_all (rouse_all used_up)))
    × (s'.idle ≡ (sched_with (pos 15) used_up).idle)
    × (s'.current ≡ 0)
schedule_total_example =
    schedule_total 0 (sched_with (pos 15) used_up) ((0, 14, refl, refl), (tt, tt))

abbrev no_priority : List (Option Task)
no_priority = some (task_with task_running (pos 0) (pos 0)) ∷ []

select_endless_example : select 1000 no_priority ≡ timeout
select_endless_example =
    select_endless 1000 no_priority 0 ((refl, refl), tt)
      (task_with task_running (pos 0) (pos 0), refl, refl)

abbrev first_choice : ℕ
first_choice = 2

abbrev second_choice : ℕ
second_choice = 2

abbrev asleep : Sched
asleep = sched_with (pos 15) ready

-- The queue of the tasks 3 and 1.
wake_queue-IsRunning_example :
    (s' : Sched) × (wake_queue asleep (3 ∷ 1 ∷ []) ≡ done s') × All (IsRunning s') (3 ∷ 1 ∷ [])
wake_queue-IsRunning_example = wake_queue-IsRunning asleep (3 ∷ 1 ∷ []) (
  (task_with task_uninterruptible (pos 12) (pos 15), refl),
  ((task_with task_running (pos 3) (pos 15), refl), tt),
)
