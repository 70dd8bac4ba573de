-- ===== src/Sched/Task.antt =====
-- include/sched/sched.h: the task structure and the task table. A pointer to a task is the number
-- of its slot. Slot 0 holds `init_task`, and no code gives it another.
use echo_os.Base.{ℕ, zero, suc, List, Option, none, some, get_or, set, Exec, done, fault, ap, ◌≡◌}
use echo_os.Base.Int.{ℤ}

-- Of `thread_struct`: the argument registers reg04 to reg07, which `copy_process` takes over with
-- the whole structure, and the fields that it copies one by one.
pub record Thread : Type 0 where
  pub arguments : List ℕ
  pub copied : List ℕ

-- The fields of `task_struct` that the code of kernel/sched reads or writes. `signal` and `blocked`
-- are words of 64 bits; `code_base` and `data_base` stand for the bases of ldt[1] and ldt[2].
pub record Task : Type 0 where
  pub state : ℕ
  pub counter : ℤ
  pub priority : ℤ
  pub signal : ℕ
  pub blocked : ℕ
  pub handlers : List ℕ
  pub start_code : ℕ
  pub pid : ℤ
  pub father : ℤ
  pub leader : ℤ
  pub uid : ℕ
  pub euid : ℕ
  pub gid : ℕ
  pub egid : ℕ
  pub utime : ℤ
  pub stime : ℤ
  pub cutime : ℤ
  pub cstime : ℤ
  pub start_time : ℤ
  pub code_base : ℕ
  pub data_base : ℕ
  pub tss : Thread

abbrev pub task_running : ℕ
task_running = 0

abbrev pub task_interruptible : ℕ
task_interruptible = 1

abbrev pub task_uninterruptible : ℕ
task_uninterruptible = 2

-- `idle` is task[0]; `rest` holds task[1] up to task[NR_TASKS - 1].
pub record Sched : Type 0 where
  pub idle : Task
  pub rest : List (Option Task)
  pub current : ℕ
  pub jiffies : ℤ
  pub last_pid : ℤ

abbrev pub task_at : Sched → ℕ → Option Task
task_at s zero = some s.idle
task_at s (suc i) = get_or s.rest i none

abbrev pub put_task : Sched → ℕ → Option Task → Sched
put_task s zero none = s
put_task s zero (some t) = record s { idle = t }
put_task s (suc i) t = record s { rest = set s.rest i t }

-- A write through a pointer to a task.
abbrev write_through : Sched → ℕ → (Task → Task) → Option Task → Exec Sched
write_through s i f none = fault
write_through s i f (some t) = done (put_task s i (some (f t)))

abbrev pub change_task : Sched → ℕ → (Task → Task) → Exec Sched
change_task s i f = write_through s i f (task_at s i)

pub change_task_lem :
    (s : Sched) (i : ℕ) (t : Task) (f : Task → Task)
    → task_at s i ≡ some t
    → change_task s i f ≡ done (put_task s i (some (f t)))
change_task_lem s i t f h = ap (write_through s i f) h
