-- ===== src/Entry.antt =====
-- kernel/entry.c and kernel/sched/signal.c: what the kernel does after its initialisation, and what
-- a signal does to the current task.
pub mod Boot
mod Tests
use echo_os.Base.{
  ℕ, ◌-◌, ◌^◌, Bool, Option, none, some, Exec, done, fault, ◌>>=◌, ◌==◌, if◌then◌else◌, get_elem?,
  ltb, ◌||◌,
}
use echo_os.Base.Int.{ℤ, pos, eqb_ℤ}
use echo_os.Mm.SysHeap.{SysHeap}
use echo_os.Sched.Task.{Task, Sched, task_at}
use echo_os.Sched.Schedule.{sched_init}
use echo_os.Sched.Fork.{Paging, fork}

-- `kernel_entry` from `sched_init` on: whether it goes on to `entry_shell`, or returns, and the state.
unfoldable pub kernel_entry : Paging → ℕ → ℕ → Sched → SysHeap → Exec (Bool × Sched × SysHeap)
kernel_entry paging base size s h =
    fork paging base size (sched_init s) h >>= λ (pid, s', h'). done (eqb_ℤ pid (pos 0), s', h')

abbrev sigchld : ℕ
sigchld = 17

-- With the handler of the signal: the argument of `do_exit`, or `none` where the function returns.
-- `1 << 31` overflows.
abbrev deliver : ℕ → Option ℕ → Exec (Option ℕ)
deliver signr none = fault
deliver signr (some handler) =
    if handler == 1
    then done none
    else if handler == 0
    then (if signr == sigchld
        then done none
        else if signr == 32
        then fault
        else done (some (2 ^ (signr - 1))))
    else done none

unfoldable pub do_signal : Task → ℕ → Exec (Option ℕ)
do_signal current signr =
    if signr == 0 then fault else deliver signr (get_elem? current.handlers (signr - 1))
