-- ===== src/Sched/Fork/Create.antt =====
-- kernel/sched/fork.c, `copy_process` and `fork`: what becomes of the task table and of the heap.
use echo_os.Base.{
  ℕ, zero, suc, ◌-◌, ◌<◌, ◌≤◌, ◌*◌, Bool, true, false, Option, none, some, Exec, done, fault,
  timeout, ◌>>=◌, ◌≡◌, ◌≢◌, ◌⊎◌, inl, inr, refl, sym, ap, arith, length, get_or-set_self,
}
use mathlib.Core.Path.{subst}
use echo_os.Base.Int.{ℤ, pos, negsuc}
use echo_os.Mm.Bitmap.{is_used}
use echo_os.Mm.SysHeap.{SysHeap, kmalloc}
use echo_os.Mm.SysHeap.Alloc.{IsValid, Granted}
use echo_os.Mm.SysHeap.Free.{kmalloc-Granted, kfree-kmalloc, kmalloc_declined, kmalloc_ends}
use echo_os.Sched.Task.{Task, Sched, task_running, task_at, put_task}
use echo_os.Sched.Schedule.Wake.{Holds, IsOccupied, put_task-other}
use echo_os.Sched.Fork.{
  Paging, again, new_base, copy_mem, child, finish_copy, fill, copy_process, fork_into, fork,
  find_empty_process,
}
use echo_os.Sched.Fork.Empty.{FirstEmpty, find_empty_process_lem}

put_task-here :
    (s : Sched) (nr : ℕ) (u : Option Task)
    → 0 < nr
    → nr ≤ length s.rest
    → task_at (put_task s nr u) nr ≡ u
put_task-here s zero u nr_pos le = absurd (omega arith)
put_task-here s (suc i) u nr_pos le = get_or-set_self s.rest i u none (omega arith)

-- The new task in slot `nr` is a ready copy of its parent, with its own address space.
pub record IsChild (s : Sched) (nr : ℕ) (parent c : Task) : Type 0 where
  pub ready : c.state ≡ task_running
  pub pid : c.pid ≡ s.last_pid
  pub father : c.father ≡ parent.pid
  pub full_slice : (c.counter ≡ parent.priority) × (c.priority ≡ parent.priority)
  pub no_signal : (c.signal ≡ 0) × (c.blocked ≡ parent.blocked)
  pub no_time : (c.utime ≡ pos 0) × (c.stime ≡ pos 0) × (c.start_time ≡ s.jiffies)
  pub space :
      (c.start_code ≡ new_base nr) × (c.code_base ≡ new_base nr) × (c.data_base ≡ new_base nr)
  pub registers : c.tss ≡ parent.tss

-- Slot `nr` apart, the tables are the same.
pub record SameBut (nr : ℕ) (s s' : Sched) : Type 0 where
  pub slots : (j : ℕ) → nr ≢ j → task_at s' j ≡ task_at s j
  pub last_pid : s'.last_pid ≡ s.last_pid
  pub current : s'.current ≡ s.current

SameBut-put_task : (s : Sched) (nr : ℕ) (u : Option Task) → 0 < nr → SameBut nr s (put_task s nr u)
SameBut-put_task s zero u nr_pos = absurd (omega arith)
SameBut-put_task s (suc i) u nr_pos = record {
  slots = λ j ne. put_task-other s (suc i) j u ne;
  last_pid = refl;
  current = refl;
}

SameBut-refl : (s : Sched) (nr : ℕ) → SameBut nr s s
SameBut-refl s nr = record { slots = λ j ne. refl; last_pid = refl; current = refl }

module _ (paging : Paging) (base size : ℕ) where
  -- Slot `nr` holds the new task, in a block of the heap; or it is empty, with the heap as before.
  abbrev pub Created : ℕ → Task → Sched → SysHeap → ℤ → Sched → SysHeap → Type 0
  Created nr parent s h r s' h' =
      ((c : Task) × (p : ℕ) × Holds s' nr c
        × IsChild s nr parent c
        × (r ≡ s.last_pid)
        × Granted h h' (p - base) size)
      ⊎ ((r ≡ again)
          × (task_at s' nr ≡ none)
          × ((q : ℕ) → is_used h'.bitmap q ≡ is_used h.bitmap q))

  abbrev pub CopyOutcome : ℕ → Task → Sched → SysHeap → Exec (ℤ × Sched × SysHeap) → Type 0
  CopyOutcome nr parent s h (done (r, s', h')) = SameBut nr s s' × Created nr parent s h r s' h'
  CopyOutcome nr parent s h fault = kmalloc base h (pos size) ≡ fault
  CopyOutcome nr parent s h timeout = ⊥

  module _ (s : Sched) (h : SysHeap) (nr : ℕ) (parent : Task) (valid : IsValid h)
      (ok : h.last < 8 * length h.bitmap) (nr_pos : 0 < nr) (nr_in : nr ≤ length s.rest)
      (empty : task_at s nr ≡ none) (at : Holds s s.current parent) where
    finished :
        (h' : SysHeap) (p : ℕ)
        → kmalloc base h (pos size) ≡ done (some p, h')
        → (failed : Bool) (t : Task) → IsChild s nr parent (record t { state = task_running })
        → CopyOutcome nr parent s h (finish_copy paging base size nr p s h' (t, failed))
    finished h' p e true t c =
        let (h'', ran, v, mem, bits) = kfree-kmalloc base h h' size p valid ok e in
        subst
          (λ r. CopyOutcome nr parent s h (r >>= (λ h''. done (again, put_task s nr none, h''))))
          (sym ran)
          (
            SameBut-put_task s nr none nr_pos,
            inr (refl, put_task-here s nr none nr_pos nr_in, bits),
          )
    finished h' p e false t c = (
      SameBut-put_task s nr _ nr_pos,
      inl (
        _,
        p,
        put_task-here s nr _ nr_pos nr_in,
        c,
        refl,
        (kmalloc-Granted base h h' size p valid ok e).2,
      ),
    )

    copied-IsChild :
        IsChild s nr parent
          (record (copy_mem paging nr parent (child s parent parent)).0 { state = task_running })
    unfolding copy_mem
    copied-IsChild = record {
      ready = refl;
      pid = refl;
      father = refl;
      full_slice = (refl, refl);
      no_signal = (refl, refl);
      no_time = (refl, refl, refl);
      space = (refl, refl, refl);
      registers = refl;
    }

    filled :
        (m : Option ℕ × SysHeap)
        → kmalloc base h (pos size) ≡ done m
        → CopyOutcome nr parent s h (fill paging base size nr s (some parent) (some parent) m)
    filled (none, h') e = (
      SameBut-refl s nr,
      inr (
        refl,
        empty,
        λ q. ap (λ map. is_used map q) (kmalloc_declined base h h' size valid ok e),
      ),
    )
    filled (some p, h') e =
        finished h' p e (copy_mem paging nr parent (child s parent parent)).1
          (copy_mem paging nr parent (child s parent parent)).0 copied-IsChild

    copied :
        (m : Exec (Option ℕ × SysHeap))
        → kmalloc base h (pos size) ≡ m
        → CopyOutcome nr parent s h (m >>= fill paging base size nr s (some parent) (some parent))
    copied (done m) e = filled m e
    copied fault e = e
    copied timeout e = kmalloc_ends base h size valid ok e

    -- `copy_process`, for an empty slot of the table, either makes a ready copy of the current task in
    -- a fresh block of the heap and returns `last_pid`, or returns -EAGAIN with the slot empty and no
    -- bit of the heap taken. The other slots keep their tasks. It faults only
    -- where `kmalloc` does, and it always ends.
    pub copy_process_lem :
        CopyOutcome nr parent s h (copy_process paging base size nr s.current s h)
    unfolding copy_process
    copy_process_lem =
        subst
          (λ o.
            CopyOutcome nr parent s h
              (kmalloc base h (pos size) >>= fill paging base size nr s o o))
          (sym at) (copied (kmalloc base h (pos size)) refl)

  -- What `fork` comes to when `parent` is the current task.
  abbrev pub ForkOutcome : Task → Sched → SysHeap → Exec (ℤ × Sched × SysHeap) → Type 0
  ForkOutcome parent s h (done (negsuc n, s', h')) =
      (n ≡ 0) × (s' ≡ s) × (h' ≡ h) × ((j : ℕ) → j ≤ length s.rest → IsOccupied s j)
  ForkOutcome parent s h (done (pos nr, s', h')) =
      FirstEmpty s (pos nr) × SameBut nr s s' × (r : ℤ) × Created nr parent s h r s' h'
  ForkOutcome parent s h fault = kmalloc base h (pos size) ≡ fault
  ForkOutcome parent s h timeout = ⊥

  module _ (s : Sched) (h : SysHeap) (parent : Task) (valid : IsValid h)
      (ok : h.last < 8 * length h.bitmap) (at : Holds s s.current parent) where
    forked :
        (nr : ℕ) (m : Exec (ℤ × Sched × SysHeap))
        → FirstEmpty s (pos nr)
        → CopyOutcome nr parent s h m
        → ForkOutcome parent s h (m >>= λ (result, s', h'). done (pos nr, s', h'))
    forked nr (done (r, s', h')) first (same, made) = (first, same, r, made)
    forked nr fault first out = out
    forked nr timeout first out = out

    fork_into_lem :
        (r : ℤ) → FirstEmpty s r → ForkOutcome parent s h (fork_into paging base size s h r)
    fork_into_lem (negsuc n) (e, taken) = (refl, refl, refl, taken)
    fork_into_lem (pos nr) first =
        forked nr (copy_process paging base size nr s.current s h) first
          (copy_process_lem s h nr parent valid ok first.0 first.1 first.2 at)

    -- `fork` returns -1 when the table is full, with nothing changed. Otherwise it returns the lowest
    -- free slot, which is never 0, even where `copy_process` fails: the slot then holds a ready copy of
    -- the current task in a fresh block of the heap, or it is empty and no bit of the heap is taken.
    -- It faults only where `kmalloc` does, and it always ends.
    pub fork_lem : ForkOutcome parent s h (fork paging base size s h)
    unfolding fork
    fork_lem = fork_into_lem (find_empty_process s) (find_empty_process_lem s)
