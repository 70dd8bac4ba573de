-- ===== src/Sched/Fork.antt =====
-- kernel/sched/fork.c: the creation of a task. The segment limits and the copying of page tables are
-- outside of the repository: they are the record `Paging`. The two panics of `copy_mem` only print.
pub mod Empty
pub mod Create
pub mod Area
mod Tests
use echo_os.Base.{
  ℕ, zero, suc, ◌+◌, ◌-◌, ◌*◌, ◌/◌, ◌%◌, ◌^◌, timeout, Bool, true, false, List, [], ◌∷◌, Option,
  none, some, Exec, done, fault, ◌>>=◌, ltb, if◌then◌else◌,
}
use echo_os.Base.Int.{ℤ, pos, negsuc}
use echo_os.Mm.SysHeap.{SysHeap, kmalloc, kfree}
use echo_os.Sched.Task.{
  Thread, Task, Sched, task_running, task_uninterruptible, task_at, put_task, change_task,
}

pub record Paging : Type 0 where
  pub get_limit : ℕ → ℕ
  -- whether copying fails
  pub copy_page_tables : ℕ → ℕ → ℕ → Bool

-- -EAGAIN
abbrev pub again : ℤ
again = negsuc 10

abbrev pub find_from : ℕ → List (Option Task) → ℤ
find_from i [] = again
find_from i (none ∷ ts) = pos i
find_from i (some t ∷ ts) = find_from (i + 1) ts

unfoldable pub find_empty_process : Sched → ℤ
find_empty_process s = find_from 1 s.rest

-- `nr * 0x4000000` in an int of 32 bits, widened to an unsigned long.
abbrev pub new_base : ℕ → ℕ
new_base nr =
    let product : ℕ = nr * 2 ^ 26 % 2 ^ 32 in
    if ltb product (2 ^ 31) then product else product + (2 ^ 64 - 2 ^ 32)

-- The structure of the new task afterwards, and whether an error is returned.
unfoldable pub copy_mem : Paging → ℕ → Task → Task → Task × Bool
copy_mem paging nr current p =
    let base = new_base nr in
    (
      record p { start_code = base; code_base = base; data_base = base },
      paging.copy_page_tables current.data_base base (paging.get_limit 23),
    )

-- The assignments to `*p` before `copy_mem`.
abbrev pub child : Sched → Task → Task → Task
child s current parent = record current {
  state = task_uninterruptible;
  pid = s.last_pid;
  father = current.pid;
  counter = current.priority;
  signal = 0;
  leader = pos 0;
  utime = pos 0;
  stime = pos 0;
  cutime = pos 0;
  cstime = pos 0;
  start_time = s.jiffies;
  tss = record current.tss { copied = parent.tss.copied };
}

module _ (paging : Paging) (base size : ℕ) where
  -- From the return of `copy_mem` on: `p` is the address of the structure.
  abbrev pub finish_copy : ℕ → ℕ → Sched → SysHeap → Task × Bool → Exec (ℤ × Sched × SysHeap)
  finish_copy nr p s h (t, true) =
      kfree base h (some p) (pos size) >>= λ h'. done (again, put_task s nr none, h')
  finish_copy nr p s h (t, false) =
      done (s.last_pid, put_task s nr (some (record t { state = task_running })), h)

  -- From the return of `kmalloc` on, with the tasks that `current` and `parent_p` point to.
  abbrev pub fill :
      ℕ → Sched → Option Task → Option Task → Option ℕ × SysHeap → Exec (ℤ × Sched × SysHeap)
  fill nr s current parent (none, h) = done (again, s, h)
  fill nr s none parent (some p, h) = fault
  fill nr s (some current) none (some p, h) = fault
  fill nr s (some current) (some parent) (some p, h) =
      finish_copy nr p s h (copy_mem paging nr current (child s current parent))

  unfoldable pub copy_process : ℕ → ℕ → Sched → SysHeap → Exec (ℤ × Sched × SysHeap)
  copy_process nr parent s h =
      kmalloc base h (pos size) >>= fill nr s (task_at s s.current) (task_at s parent)

  abbrev pub fork_into : Sched → SysHeap → ℤ → Exec (ℤ × Sched × SysHeap)
  fork_into s h (negsuc n) = done (negsuc 0, s, h)
  fork_into s h (pos nr) =
      copy_process nr s.current s h >>= λ (result, s', h'). done (pos nr, s', h')

  unfoldable pub fork : Sched → SysHeap → Exec (ℤ × Sched × SysHeap)
  fork s h = fork_into s h (find_empty_process s)

-- The loop of `verify_area`: the pages that `write_verify` is called for. `start` is an unsigned long.
unfoldable pub verify_pages : ℕ → ℕ → ℕ → Exec (List ℕ)
verify_pages zero start size = timeout
verify_pages (suc fuel) start size =
    let rest = verify_pages fuel ((start + 4096) % 2 ^ 64) (size - 4096) in
    if ltb 0 size then rest >>= (λ pages. done (start ∷ pages)) else done []

-- The lowest 32 bits of an int.
abbrev low_word : ℤ → ℕ
low_word (pos n) = n % 2 ^ 32
low_word (negsuc n) = 2 ^ 32 - 1 - n % 2 ^ 32

-- `addr & 0xfff` is `addr % 4096`, and the mask 0xfffff000, which has 32 bits, keeps the page number
-- below 2 ^ 20. The new size is converted back to an int, which is negative from 2 ^ 31 on.
unfoldable pub verify_area : ℕ → Task → ℕ → ℤ → Exec (List ℕ)
verify_area fuel current addr size =
    let total = (low_word size + addr % 4096) % 2 ^ 32 in
    let start = (addr / 4096 % 2 ^ 20 * 4096 + current.data_base) % 2 ^ 64 in
    let pages = verify_pages fuel start total in if ltb total (2 ^ 31) then pages else done []
