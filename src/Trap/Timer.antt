-- ===== src/Trap/Timer.antt =====
-- kernel/trap/trap.c and kernel/sched/sched.c: the timer's interrupts, up to the switch to a task.
use echo_os.Base.{
  ℕ, suc, ◌+◌, ◌%◌, ◌^◌, true, false, List, [], ◌∷◌, Option, none, some, Exec, done, ◌>>=◌, ◌==◌,
  bit_and, bit_or, ◌≡◌, refl, ap, ◌∙◌, arith,
}
use echo_os.Base.Bits.{bit_and_one, bit_or_one}
use echo_os.Base.Int.{ℤ, pos, negsuc, add_ℤ, ltb_ℤ}
use echo_os.Arch.Csr.{
  Csrs, r_csr_estat, r_csr_ecfg, r_csr_ticlr, w_csr_ticlr, csr_ticlr_clr, ti_vec, intr_on, intr_off,
  intr_get, r_csr_era, r_csr_prmd,
}
use echo_os.Sched.Task.{Sched}
use echo_os.Sched.Schedule.{do_schedule, tick}
use echo_os.Sched.Schedule.Rounds.{Chosen}
use echo_os.Trap.{
  System, Pending, Outcome, returned, switched, drain, timer_interrupt, dispatch, leave,
  trap_handler,
}
use echo_os.Trap.Back.{Back, leave-Back}

-- The timer's interrupt is pending and enabled.
abbrev pub TimerPending : Csrs → Type 0
TimerPending c = (bit_and (bit_and (r_csr_estat c) (r_csr_ecfg c)) ti_vec == 0) ≡ false

-- The request of the last interrupt has been cleared: the bit was written to TICLR.
abbrev pub IsCleared : Csrs → Type 0
IsCleared c = bit_and (r_csr_ticlr c) csr_ticlr_clr ≡ 1

cleared_bit : (a : ℕ) → bit_and (bit_or a 1 % 2 ^ 32 % 2 ^ 32) 1 ≡ 1
cleared_bit a = omega (arith, bit_and_one (bit_or a 1 % 2 ^ 32 % 2 ^ 32), bit_or_one a)

-- The clock and the slice of task[0] after `n` ticks.
abbrev pub later : Sched → ℕ → ℤ → Sched
later s n counter = record s {
  idle = record (s.idle) { counter = counter };
  jiffies = add_ℤ s.jiffies (pos n);
}

counted :
    (fuel n : ℕ) (s : Sched)
    → s.current ≡ 0
    → s.idle.counter ≡ pos (suc (suc n))
    → do_schedule fuel s
      ≡ done (record s { idle = record (s.idle) { counter = pos (suc n) } }, none)
unfolding do_schedule
counted fuel n s current slice =
    let down : add_ℤ s.idle.counter (negsuc 0) ≡ pos (suc n) =
      ap (λ c. add_ℤ c (negsuc 0)) slice ∙ ground arith in
    let more : ltb_ℤ (pos 0) (pos (suc n)) ≡ true = ground arith in
    ap (tick fuel s) current ∙ rw (down, more) refl

-- What an interrupt inside of a slice does: the state that comes back.
abbrev pub Served : System → System → ℕ → Type 0
Served s s' n =
    (s'.sched ≡ later s.sched 1 (pos (suc n)))
    × (s'.time_n ≡ s.time_n + 1)
    × (s'.shell ≡ s.shell)
    × (s'.kbd ≡ s.kbd)
    × IsCleared s'.csrs
    × Back s s'

-- With the timer's interrupt pending and enabled, task[0] current and at least two ticks left of its
-- slice, `trap_handler` comes back. It has read and dropped every byte that the keyboard had ready,
-- and no other access to the controllers; the clock and `time_n` have gone on by one, the slice has
-- one tick less, and no other slot has changed; the shell and the keyboard's table are as before; the
-- timer's request is cleared; and the return address, the mode and enabled interrupts are back.
pub timer_tick :
    (fuel n : ℕ) (pending : Pending) (s : System)
    → TimerPending s.csrs
    → s.sched.current ≡ 0
    → s.sched.idle.counter ≡ pos (suc (suc n))
    → (s' : System) × (trap_handler fuel pending s ≡ done (returned s' (drain pending.bytes)))
      × Served s s' n
unfolding trap_handler dispatch timer_interrupt intr_off intr_on
timer_tick fuel n pending s cause current slice =
    let clock : Sched = record (s.sched) { jiffies = add_ℤ s.sched.jiffies (pos 1) } in
    let off = intr_off s.csrs in
    let t : System = record s {
      time_n = s.time_n + 1;
      sched = later s.sched 1 (pos (suc n));
      csrs = w_csr_ticlr off (bit_or (r_csr_ticlr off) csr_ticlr_clr);
    } in
    (
      leave (r_csr_era off) (r_csr_prmd off) t,
      rw (cause, counted fuel n clock current slice) refl,
      (refl, refl, refl, refl, cleared_bit (r_csr_ticlr off), leave-Back s t),
    )

-- What an interrupt at the end of a slice leaves.
abbrev pub SwitchedTo : System → System → ℕ → Type 0
SwitchedTo s s' next =
    Chosen s'.sched.rest next
    × (s'.sched.idle ≡ record (s.sched.idle) { counter = s.sched.idle.priority })
    × (s'.sched.jiffies ≡ add_ℤ s.sched.jiffies (pos 1))
    × (s'.time_n ≡ s.time_n + 1)
    × (s'.shell ≡ s.shell)
    × (s'.kbd ≡ s.kbd)
    × (intr_get s'.csrs ≡ false)
    × (r_csr_ticlr s'.csrs ≡ r_csr_ticlr s.csrs)

-- The interrupts of the timer, one after the other: `raise` is what the hardware does to the registers
-- for each, and what the keyboard has ready is given for each. The result has the slot of the task
-- that was switched to, behind which there is no return.
module _ (raise : Csrs → Csrs) (fuel : ℕ) where
  abbrev go_on : (System → Exec (System × Option ℕ)) → Outcome → Exec (System × Option ℕ)
  go_on rest (returned s writes) = rest s
  go_on rest (switched s next writes) = done (s, some next)

  unfoldable pub run_interrupts : List Pending → System → Exec (System × Option ℕ)
  run_interrupts [] s = done (s, none)
  run_interrupts (pending ∷ more) s =
      trap_handler fuel pending (record s { csrs = raise s.csrs })
      >>= go_on (λ s'. run_interrupts more s')

-- What the last interrupt of a slice has left, `n` interrupts after `s`.
abbrev pub SliceOver : System → System → ℕ → ℕ → Type 0
SliceOver s s' next n =
    Chosen s'.sched.rest next
    × (s'.sched.idle ≡ record (s.sched.idle) { counter = s.sched.idle.priority })
    × (s'.sched.jiffies ≡ add_ℤ s.sched.jiffies (pos n))
    × (s'.time_n ≡ s.time_n + n)
    × (s'.shell ≡ s.shell)
    × (s'.kbd ≡ s.kbd)
    × (intr_get s'.csrs ≡ false)
