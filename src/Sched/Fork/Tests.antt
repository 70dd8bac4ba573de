-- ===== src/Sched/Fork/Tests.antt =====
-- kernel/sched/fork.c: runs on a table of three slots, the second one free, and a heap of 32 bytes.
use echo_os.Base.{ℕ, ◌+◌, ◌<◌, done, List, false, [], ◌∷◌, none, some, ◌≡◌, refl, arith}
use echo_os.Base.Int.{pos}
use echo_os.Mm.SysHeap.{SysHeap}
use echo_os.Mm.SysHeap.Alloc.{IsValid}
use echo_os.Sched.Task.{Task, Sched, task_running}
use echo_os.Sched.Samples.{task_with, sched_with}
use echo_os.Sched.Fork.{Paging, verify_area, find_empty_process, fork}
use echo_os.Sched.Fork.Area.{OnPage, verify_area_lem}
use echo_os.Sched.Fork.Create.{ForkOutcome, fork_lem}

abbrev paging : Paging
paging = record { get_limit = λ selector. 640; copy_page_tables = λ from to size. false }

abbrev small_heap : SysHeap
small_heap = record { bitmap = 0 ∷ 0 ∷ 0 ∷ 0 ∷ []; last = 0; memory = λ q. 0 }

small_heap-IsValid : IsValid small_heap
small_heap-IsValid = record {
  bytes = (omega arith, (omega arith, (omega arith, (omega arith, tt))));
  nonempty = omega arith;
  last_in_map = omega arith;
}

abbrev init_task : Task
init_task = task_with task_running (pos 15) (pos 15)

abbrev table : Sched
table = sched_with (pos 15) (some init_task ∷ none ∷ some init_task ∷ [])

find_second : find_empty_process table ≡ pos 2
unfolding find_empty_process
find_second = refl

fork_lem_example :
    ForkOutcome paging 100 4 init_task table small_heap (fork paging 100 4 table small_heap)
fork_lem_example =
    fork_lem paging 100 4 table small_heap init_task small_heap-IsValid (omega arith) refl

verify_area_lem_example :
    (ps : List ℕ) × (verify_area 4 init_task 4090 (pos 5000) ≡ done ps)
    × ((t : ℕ) → t < 5000 → OnPage (init_task.data_base + 4090 + t) ps)
verify_area_lem_example =
    verify_area_lem 3 init_task 4090 5000 (omega arith) (omega arith) (omega arith) (omega arith)
