-- ===== src/Sched/Schedule.antt =====
-- kernel/sched/sched.c: `schedule` and the functions around it. Of `switch_to`, which is assembly,
-- the model keeps the slot that is switched to; it leaves the variable `current` as it is.
pub mod Pick
pub mod Rounds
pub mod Endless
pub mod Fairness
pub mod Wake
pub mod Ticks
mod Tests
use echo_os.Base.{
  ℕ, zero, suc, ◌+◌, ◌-◌, ◌^◌, bit_and, bit_or, Bool, true, false, ◌&&◌, not, List, [], ◌∷◌, map,
  Option, none, some, Exec, done, fault, timeout, ◌>>=◌, ◌==◌, if◌then◌else◌,
}
use mathlib.Core.Option
use echo_os.Base.Int.{ℤ, pos, negsuc, ltb_ℤ, eqb_ℤ, add_ℤ, halve_ℤ}
use echo_os.Sched.Task.{
  Task, Sched, task_running, task_interruptible, task_uninterruptible, task_at, put_task,
  change_task,
}

-- `~(_S(SIGKILL) | _S(SIGSTOP))`, an int that is widened to 64 bits.
abbrev blockable : ℕ
blockable = 2 ^ 64 - 1 - 2 ^ 8 - 2 ^ 18

-- `signal & ~(_BLOCKABLE & blocked)`
abbrev pub deliverable : Task → ℕ
deliverable t = bit_and t.signal (2 ^ 64 - 1 - bit_and blockable t.blocked)

-- One round of the first loop of `schedule`. Each round looks at its own slot only, so the loop is
-- a map over the slots.
abbrev pub rouse : Task → Task
rouse t =
    if not (deliverable t == 0) && (t.state == task_interruptible)
    then record t { state = task_running }
    else t

abbrev pub rouse_all : List (Option Task) → List (Option Task)
rouse_all = map (Option.map rouse)

-- The `while (--i)` loop: slot `i` is looked at after the slots above it.
abbrev pub better : Option Task → ℕ → ℤ × ℕ → ℤ × ℕ
better none i (c, next) = (c, next)
better (some t) i (c, next) =
    if (t.state == task_running) && ltb_ℤ c t.counter then (t.counter, i) else (c, next)

unfoldable pub pick : ℕ → List (Option Task) → ℤ × ℕ
pick i [] = (negsuc 0, 0)
pick i (t ∷ ts) = better t i (pick (i + 1) ts)

-- `counter = (counter >> 1) + priority`
abbrev pub recharge : Task → Task
recharge t = record t { counter = add_ℤ (halve_ℤ t.counter) t.priority }

abbrev pub recharge_all : List (Option Task) → List (Option Task)
recharge_all = map (Option.map recharge)

-- The `while (1)`: the slots afterwards and the slot to switch to.
unfoldable pub select : ℕ → List (Option Task) → Exec (List (Option Task) × ℕ)
select zero ts = timeout
select (suc fuel) ts =
    let again = select fuel (recharge_all ts) in
    let (c, next) = pick 1 ts in if eqb_ℤ c (pos 0) then again else done (ts, next)

unfoldable pub schedule : ℕ → Sched → Exec (Sched × ℕ)
schedule fuel s =
    select fuel (rouse_all s.rest) >>= λ (rest, next). done (record s { rest = rest }, next)

-- The state afterwards, and the slot switched to when `schedule` was called.
unfoldable pub sys_pause : ℕ → Sched → Exec (Sched × ℕ)
sys_pause fuel s = change_task s s.current (λ t. record t { state = task_interruptible }) >>= λ s'.
    schedule fuel s'

-- `do_schedule` with the task in slot `i`.
abbrev pub count_down : ℕ → Sched → ℕ → Option Task → Exec (Sched × Option ℕ)
count_down fuel s i none = fault
count_down fuel s i (some t) =
    let left : ℤ = add_ℤ t.counter (negsuc 0) in
    let renewed : Sched = put_task s i (some (record t { counter = t.priority })) in
    if ltb_ℤ (pos 0) left
    then done (put_task s i (some (record t { counter = left })), none)
    else schedule fuel renewed >>= (λ (s', next). done (s', some next))

-- The same with the task in slot `i` as `current`.
abbrev pub tick : ℕ → Sched → ℕ → Exec (Sched × Option ℕ)
tick fuel s i = count_down fuel s i (task_at s i)

unfoldable pub do_schedule : ℕ → Sched → Exec (Sched × Option ℕ)
do_schedule fuel s = tick fuel s s.current

-- `sleep_on` up to its call of `schedule`: the head of the queue becomes `current`, and the old
-- head is the local `tmp`. A null `p` returns at once. The panic for task 0 only prints.
unfoldable pub sleep_on : ℕ → Sched → Option ℕ → Exec (Sched × Option ℕ × Option ℕ × ℕ)
sleep_on fuel s queue =
    change_task s s.current (λ t. record t { state = task_uninterruptible }) >>= λ s'.
    schedule fuel s' >>= λ (s'', next). done (s'', some s.current, queue, next)

abbrev pub make_running : Task → Task
make_running t = record t { state = task_running }

-- `sleep_on` from the return of `schedule` on, when the sleeper runs again.
unfoldable pub sleep_on_resume : Sched → Option ℕ → Exec Sched
sleep_on_resume s none = done s
sleep_on_resume s (some tmp) = change_task s tmp make_running

unfoldable pub interruptible_sleep_on :
    ℕ → Sched → Option ℕ → Exec (Sched × Option ℕ × Option ℕ × ℕ)
interruptible_sleep_on fuel s queue =
    change_task s s.current (λ t. record t { state = task_interruptible }) >>= λ s'.
    schedule fuel s' >>= λ (s'', next). done (s'', some s.current, queue, next)

-- From the return of `schedule` on, for the sleeper `current`. With another task at the head of the
-- queue that one is woken, and the sleeper goes back to sleep (`goto repeat`): the last part of the
-- result is then the slot switched to.
unfoldable pub interruptible_resume :
    ℕ → Sched → Option ℕ → Option ℕ → Exec (Sched × Option ℕ × Option ℕ)
interruptible_resume fuel s none tmp = sleep_on_resume s tmp >>= λ s'. done (s', none, none)
interruptible_resume fuel s (some head) tmp =
    if head == s.current
    then sleep_on_resume s tmp >>= (λ s'. done (s', none, none))
    else change_task s head make_running >>= (λ s'.
      change_task s' s'.current (λ t. record t { state = task_interruptible }) >>= λ s''.
      schedule fuel s'' >>= λ (s3, next). done (s3, some head, some next))

-- The queue is empty afterwards.
unfoldable pub wake_up : Sched → Option ℕ → Exec (Sched × Option ℕ)
wake_up s none = done (s, none)
wake_up s (some head) = change_task s head make_running >>= λ s'. done (s', none)

abbrev of_current : Sched → (Task → ℤ) → Exec ℤ
of_current s f = elim (task_at s s.current) [ none ↦ fault | some t ↦ done (f t) ]

unfoldable pub sys_getpid : Sched → Exec ℤ
sys_getpid s = of_current s (λ t. t.pid)

unfoldable pub sys_getppid : Sched → Exec ℤ
sys_getppid s = of_current s (λ t. t.father)

unfoldable pub sys_getuid : Sched → Exec ℤ
sys_getuid s = of_current s (λ t. pos t.uid)

unfoldable pub sys_geteuid : Sched → Exec ℤ
sys_geteuid s = of_current s (λ t. pos t.euid)

unfoldable pub sys_getgid : Sched → Exec ℤ
sys_getgid s = of_current s (λ t. pos t.gid)

unfoldable pub sys_getegid : Sched → Exec ℤ
sys_getegid s = of_current s (λ t. pos t.egid)

-- The slots behind task[0] are emptied. The descriptor table is not in the model.
unfoldable pub sched_init : Sched → Sched
sched_init s = record s { rest = map (λ t. none) s.rest }
