-- ===== src/Sched/InitTask.antt =====
-- include/sched/sched.h and kernel/sched/sched.c: the first task and the table that the kernel starts with.
use echo_os.Base.{none, replicate}
use echo_os.Base.Int.{pos, negsuc}
use echo_os.Sched.Task.{Thread, Task, Sched, task_running}

-- INIT_THREAD: every register is 0. The fields that `copy_process` copies one by one are 28 words and
-- the 32 registers of the floating point unit.
abbrev pub init_thread : Thread
init_thread = record { arguments = replicate 4 0; copied = replicate 60 0 }

-- INIT_TASK: the bases of the two segments are 0.
abbrev pub init_task : Task
init_task = record {
  state = task_running;
  counter = pos 15;
  priority = pos 15;
  signal = 0;
  blocked = 0;
  handlers = replicate 32 0;
  start_code = 0;
  pid = pos 0;
  father = negsuc 0;
  leader = pos 0;
  uid = 0;
  euid = 0;
  gid = 0;
  egid = 0;
  utime = pos 0;
  stime = pos 0;
  cutime = pos 0;
  cstime = pos 0;
  start_time = pos 0;
  code_base = 0;
  data_base = 0;
  tss = init_thread;
}

-- NR_TASKS is 64.
abbrev pub init_sched : Sched
init_sched = record {
  idle = init_task;
  rest = replicate 63 none;
  current = 0;
  jiffies = pos 0;
  last_pid = pos 0;
}
