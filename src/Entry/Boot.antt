-- ===== src/Entry/Boot.antt =====
-- kernel/entry.c: the end of the boot.
use echo_os.Base.{
  ℕ, zero, suc, ◌*◌, ◌<◌, Bool, false, List, [], ◌∷◌, Option, none, map, get_or, Exec, done, fault,
  timeout, ◌>>=◌, ◌≡◌, refl, arith, length, ap,
}
use mathlib.Core.Path.{subst}
use echo_os.Base.Int.{ℤ, pos, negsuc, eqb_ℤ}
use echo_os.Mm.SysHeap.{SysHeap, kmalloc}
use echo_os.Mm.SysHeap.Alloc.{IsValid}
use echo_os.Sched.Task.{Task, Sched, task_at}
use echo_os.Sched.Schedule.{sched_init}
use echo_os.Sched.Schedule.Wake.{Holds}
use echo_os.Sched.Fork.{Paging, fork}
use echo_os.Sched.Fork.Create.{Created, SameBut, ForkOutcome, fork_lem}
use echo_os.Entry.{kernel_entry}

abbrev cleared : List (Option Task) → List (Option Task)
cleared = map (λ t. none)

pub emptied : (ts : List (Option Task)) (k : ℕ) → get_or (cleared ts) k none ≡ none
emptied [] k = refl
emptied (t ∷ ts) zero = refl
emptied (t ∷ ts) (suc k) = emptied ts k

pub length-cleared : (ts : List (Option Task)) → length (cleared ts) ≡ length ts
length-cleared [] = refl
length-cleared (t ∷ ts) = ap suc (length-cleared ts)

module _ (paging : Paging) (base size : ℕ) where
  -- The kernel returns; the first slot, if the table has one, is the one that `fork` has tried to fill.
  abbrev pub Booted : Sched → SysHeap → Exec (Bool × Sched × SysHeap) → Type 0
  Booted s h (done (shell, s', h')) =
      (shell ≡ false)
      × (0 < length s.rest
          → SameBut 1 (sched_init s) s'
            × ((r : ℤ) × Created paging base size 1 s.idle (sched_init s) h r s' h'))
  Booted s h fault = kmalloc base h (pos size) ≡ fault
  Booted s h timeout = ⊥

  module _ (s : Sched) (h : SysHeap) where
    -- A slot behind task[0] is not in use any more.
    none_left : (k : ℕ) (t : Task) → ¬ Holds (sched_init s) (suc k) t
    unfolding sched_init
    none_left k t e = cc (emptied s.rest k)

    lowest : (nr : ℕ) → 0 < nr → ((j : ℕ) → j < nr → (t : Task) × Holds (sched_init s) j t) → nr ≡ 1
    lowest zero nr_pos taken = omega arith
    lowest (suc zero) nr_pos taken = refl
    lowest (suc (suc n)) nr_pos taken =
        let (t, e) = taken 1 (omega arith) in absurd (none_left 0 t e)

    length-sched_init : length (sched_init s).rest ≡ length s.rest
    unfolding sched_init
    length-sched_init = length-cleared s.rest

    same_idle : (sched_init s).idle ≡ s.idle
    unfolding sched_init
    same_idle = refl

    idle_is_current : s.current ≡ 0 → Holds (sched_init s) (sched_init s).current s.idle
    unfolding sched_init
    idle_is_current e = ap (task_at (sched_init s)) e

    booted :
        (m : Exec (ℤ × Sched × SysHeap))
        → ForkOutcome paging base size s.idle (sched_init s) h m
        → Booted s h (m >>= λ (pid, s', h'). done (eqb_ℤ pid (pos 0), s', h'))
    booted fault out = out
    booted timeout out = out
    booted (done (negsuc n, s', h')) (e, same, kept, taken) = (
      ground arith,
      λ some_slot.
          let (t, at) = taken 1 (omega (arith, length-sched_init)) in absurd (none_left 0 t at),
    )
    booted (done (pos nr, s', h')) ((nr_pos, nr_in, empty, taken), same, r, created) = (
      ground (arith, nr_pos),
      λ some_slot.
          subst
            (λ n.
              SameBut n (sched_init s) s'
              × ((r : ℤ) × Created paging base size n s.idle (sched_init s) h r s' h'))
            (lowest nr nr_pos taken) (same, (r, created)),
    )

    -- When task[0] is the current task and the heap is valid, with the end of its last allocation in
    -- the map, the kernel never goes on to the shell after its initialisation: it returns. If the
    -- table has a slot behind task[0], slot 1 is then a ready copy of task[0] in a block of the heap,
    -- or empty with no bit of the heap taken, and the other slots are as `sched_init` left them. It
    -- faults only where `kmalloc` does, and it always ends.
    pub kernel_entry-Booted :
        s.current ≡ 0
        → IsValid h
        → h.last < 8 * length h.bitmap
        → Booted s h (kernel_entry paging base size s h)
    unfolding kernel_entry
    kernel_entry-Booted current valid ok =
        booted (fork paging base size (sched_init s) h)
          (fork_lem paging base size (sched_init s) h s.idle valid ok (idle_is_current current))
