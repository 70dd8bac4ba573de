-- ===== src/Entry/Tests.antt =====
-- kernel/entry.c and kernel/sched/signal.c: runs on a table of two slots and a heap of 32 bytes.
use echo_os.Base.{false}
use echo_os.Base.{true, [], ◌∷◌, none, some, done, ◌≡◌, refl, arith}
use echo_os.Base.Int.{pos}
use echo_os.Mm.SysHeap.{SysHeap}
use echo_os.Mm.SysHeap.Alloc.{IsValid}
use echo_os.Sched.Task.{Task, Sched, task_running}
use echo_os.Sched.Samples.{task_with, sched_with}
use echo_os.Sched.Fork.{Paging}
use echo_os.Entry.{kernel_entry, do_signal}
use echo_os.Entry.Boot.{Booted, kernel_entry-Booted}

abbrev mapped : Paging
mapped = record { get_limit = λ selector. 640; copy_page_tables = λ from to size. false }

abbrev paging : Paging
paging = record { get_limit = λ selector. 640; copy_page_tables = λ from to size. true }

abbrev heap : SysHeap
heap = record { bitmap = 0 ∷ 0 ∷ 0 ∷ 0 ∷ []; last = 0; memory = λ q. 0 }

heap-IsValid : IsValid heap
heap-IsValid = record {
  bytes = (omega arith, (omega arith, (omega arith, (omega arith, tt))));
  nonempty = omega arith;
  last_in_map = omega arith;
}

abbrev table : Sched
table = sched_with (pos 15) (none ∷ none ∷ [])

kernel_entry-Booted_example : Booted paging 100 4 table heap (kernel_entry paging 100 4 table heap)
kernel_entry-Booted_example =
    kernel_entry-Booted paging 100 4 table heap refl heap-IsValid (omega arith)

-- The default action of signal 2, and of SIGCHLD.
abbrev with_handlers : Task
with_handlers = record (task_with task_running (pos 15) (pos 15)) { handlers = 0 ∷ 0 ∷ 1 ∷ [] }

signal_terminates : do_signal with_handlers 2 ≡ done (some 2)
unfolding do_signal
signal_terminates = refl

signal_ignored : do_signal with_handlers 3 ≡ done none
unfolding do_signal
signal_ignored = refl
