-- ===== src/Sched/Samples.antt =====
-- Tasks and tables for the tests of kernel/sched.
use echo_os.Base.{ℕ, List, [], Option}
use echo_os.Base.Int.{ℤ, pos, negsuc}
use echo_os.Sched.Task.{Task, Sched, task_running}

abbrev pub task_with : ℕ → ℤ → ℤ → Task
task_with state counter priority = record {
  state = state;
  counter = counter;
  priority = priority;
  signal = 0;
  blocked = 0;
  handlers = [];
  start_code = 0;
  pid = pos 0;
  father = negsuc 0;
  leader = pos 0;
  uid = 0;
  euid = 0;
  gid = 0;
  egid = 0;
  utime = pos 0;
  stime = pos 0;
  cutime = pos 0;
  cstime = pos 0;
  start_time = pos 0;
  code_base = 0;
  data_base = 0;
  tss = record { arguments = []; copied = [] };
}

abbrev pub sched_with : ℤ → List (Option Task) → Sched
sched_with counter rest = record {
  idle = task_with task_running counter (pos 15);
  rest = rest;
  current = 0;
  jiffies = pos 0;
  last_pid = pos 0;
}
