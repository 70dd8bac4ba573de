-- ===== src/Sched/Schedule/Wake.antt =====
-- kernel/sched/sched.c, the wait queue of `sleep_on` and `wake_up`. The queue is linked through the
-- local `tmp` of each sleeper, which holds the head that it found.
use echo_os.Base.{
  ℕ, zero, suc, ◌<◌, List, [], ◌∷◌, Option, none, some, ◌≡◌, refl, arith, All, get_or, Exec, done,
  ◌>>=◌, ◌≢◌, get_or-set_ne, length, get_or-set_self, ap, ◌∙◌, ℕ_discrete,
}
use mathlib.Core.Path.{subst}
use echo_os.Sched.Task.{Task, Sched, task_running, task_at, put_task, change_task_lem}
use echo_os.Sched.Schedule.{make_running, wake_up, sleep_on_resume}

abbrev empty_queue : Option ℕ
empty_queue = none

abbrev pub Holds : Sched → ℕ → Task → Type 0
Holds s i t = task_at s i ≡ some t

in_table : (ts : List (Option Task)) (i : ℕ) (t : Task) → get_or ts i none ≡ some t → i < length ts
in_table [] i t e = absurd (cc)
in_table (x ∷ ts) zero t e = omega arith
in_table (x ∷ ts) (suc i) t e = omega (arith, in_table ts i t e)

put_task-same :
    (s : Sched) (i : ℕ) (t u : Task) → Holds s i t → task_at (put_task s i (some u)) i ≡ some u
put_task-same s zero t u h = refl
put_task-same s (suc i) t u h = get_or-set_self s.rest i (some u) none (in_table s.rest i t h)

pub put_task-other :
    (s : Sched) (i j : ℕ) (u : Option Task) → i ≢ j → task_at (put_task s i u) j ≡ task_at s j
put_task-other s zero zero u ne = absurd (ne refl)
put_task-other s zero (suc j) none ne = refl
put_task-other s zero (suc j) (some t) ne = refl
put_task-other s (suc i) zero u ne = refl
put_task-other s (suc i) (suc j) u ne = get_or-set_ne s.rest i j u none (λ e. ne (ap suc e))

-- The sleepers of a queue, from its head on, run again one after the other: each passes the wake-up
-- on to the task that it found at the head when it went to sleep.
unfoldable pub resume_all : Sched → List ℕ → Exec Sched
resume_all s [] = done s
resume_all s (h ∷ []) = sleep_on_resume s none
resume_all s (h ∷ (h' ∷ hs)) = sleep_on_resume s (some h') >>= (λ s'. resume_all s' (h' ∷ hs))

unfoldable pub wake_queue : Sched → List ℕ → Exec Sched
wake_queue s [] = done s
wake_queue s (h ∷ hs) = wake_up s (some h) >>= (λ (s', queue). resume_all s' (h ∷ hs))

abbrev pub IsOccupied : Sched → ℕ → Type 0
IsOccupied s i = (t : Task) × Holds s i t

abbrev pub IsRunning : Sched → ℕ → Type 0
IsRunning s i = (t : Task) × Holds s i t × (t.state ≡ task_running)

module _ (s : Sched) (h : ℕ) (t : Task) (at : Holds s h t) where
  abbrev woken : Sched
  woken = put_task s h (some (make_running t))

  woken-IsRunning : IsRunning woken h
  woken-IsRunning = (make_running t, put_task-same s h t (make_running t) at, refl)

  IsOccupied-still : (j : ℕ) → IsOccupied s j → IsOccupied woken j
  IsOccupied-still j (u, e) = elim (ℕ_discrete h j) [
    | yes same ↦
        subst (IsOccupied woken) same (make_running t, put_task-same s h t (make_running t) at)
    | no ne ↦ (u, put_task-other s h j _ ne ∙ e)
  ]

  IsRunning-still : (j : ℕ) → IsRunning s j → IsRunning woken j
  IsRunning-still j (u, e, run) = elim (ℕ_discrete h j) [
    | yes same ↦ subst (IsRunning woken) same woken-IsRunning
    | no ne ↦ (u, put_task-other s h j _ ne ∙ e, run)
  ]

  All-IsOccupied_still : (js : List ℕ) → All (IsOccupied s) js → All (IsOccupied woken) js
  All-IsOccupied_still [] a = tt
  All-IsOccupied_still (j ∷ js) a = (IsOccupied-still j a.0, All-IsOccupied_still js a.1)

resume_all-IsRunning :
    (s : Sched) (h : ℕ) (hs : List ℕ)
    → IsRunning s h
    → All (IsOccupied s) hs
    → (s' : Sched) × (resume_all s (h ∷ hs) ≡ done s')
      × All (IsRunning s') (h ∷ hs)
      × ((j : ℕ) → IsRunning s j → IsRunning s' j)
unfolding resume_all sleep_on_resume
resume_all-IsRunning s h [] run a = (s, refl, (run, tt), λ j r. r)
resume_all-IsRunning s h (h' ∷ hs) run ((t, at), a) =
    let (s', ran, all, still) =
      resume_all-IsRunning (woken s h' t at) h' hs (woken-IsRunning s h' t at)
        (All-IsOccupied_still s h' t at hs a) in
    (
      s',
      ap (λ r. r >>= (λ s'. resume_all s' (h' ∷ hs))) (change_task_lem s h' t make_running at)
          ∙ ran,
      (still h (IsRunning-still s h' t at h run), all),
      λ j r. still j (IsRunning-still s h' t at j r),
    )

-- One `wake_up` wakes the whole queue: once each woken sleeper has run on, every task that was in
-- the queue is ready to run.
pub wake_queue-IsRunning :
    (s : Sched) (queue : List ℕ)
    → All (IsOccupied s) queue
    → (s' : Sched) × (wake_queue s queue ≡ done s') × All (IsRunning s') queue
unfolding wake_queue wake_up
wake_queue-IsRunning s [] a = (s, refl, tt)
wake_queue-IsRunning s (h ∷ hs) ((t, at), a) =
    let (s', ran, all, still) =
      resume_all-IsRunning (woken s h t at) h hs (woken-IsRunning s h t at)
        (All-IsOccupied_still s h t at hs a) in
    (
      s',
      ap (λ r. (r >>= (λ s'. done (s', empty_queue))) >>= (λ (s', queue). resume_all s' (h ∷ hs)))
            (change_task_lem s h t make_running at)
          ∙ ran,
      all,
    )
