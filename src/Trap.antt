-- ===== src/Trap.antt =====
-- kernel/trap/trap.c, extioi.c and ls7a_intc.c, and the end of `kbd_irq`: what an interrupt does. The
-- controllers are outside of the model: what they have ready is given, and what is written to them is
-- returned, in its order. Where `schedule` switches to a task, control leaves by its saved return address,
-- and what the handler has left to do is not done.
pub mod Frame
pub mod Init
pub mod Back
pub mod Keys
pub mod Timer
mod Tests
use echo_os.Base.{
  ℕ, ◌+◌, Bool, true, false, not, List, [], ◌∷◌, ◌++◌, Option, none, some, Exec, done, ◌>>=◌, ◌==◌,
  if◌then◌else◌, bit_and, bit_or,
}
use echo_os.Base.Int.{ℤ, pos, add_ℤ}
use echo_os.Arch.Csr.{
  Csrs, ti_vec, hwi_vec, csr_ticlr_clr, r_csr_prmd, w_csr_prmd, r_csr_era, w_csr_era, r_csr_estat,
  r_csr_ecfg, r_csr_ticlr, w_csr_ticlr, intr_on, intr_off,
}
use echo_os.Utils.Memory.{Memory}
use echo_os.Sched.Task.{Sched}
use echo_os.Sched.Schedule.{do_schedule}
use echo_os.Drivers.Kbd.{Kbd, kbd_irq}
use echo_os.Shell.{Shell, shell_buf_update}
use echo_os.App.Vim.{Vim, vim_input_handle}

-- An access to a controller: a write of a word of memory, of a byte, or of an IOCSR register, or a byte
-- of the keyboard that is read and dropped.
pub data Write : Type 0 where
  mmio_q : ℕ → ℕ → Write
  mmio_b : ℕ → ℕ → Write
  iocsr_q : ℕ → ℕ → Write
  kbd_read : ℕ → Write

-- `vim_file` is the text of the file that is open in vim.
pub record System : Type 0 where
  pub csrs : Csrs
  pub time_n : ℕ
  pub sched : Sched
  pub kbd : Kbd
  pub shell : Shell
  pub vim : Vim
  pub vim_file : ℕ
  pub memory : Memory

-- What the controllers have ready: the bytes of the keyboard, what a read without data gives, and the
-- interrupts that are claimed.
pub record Pending : Type 0 where
  pub bytes : List ℕ
  pub idle : ℕ
  pub irq : ℕ

abbrev pub extioi_isr_base : ℕ
extioi_isr_base = 0x1800

abbrev pub ls7a_int_clear_reg : ℕ
ls7a_int_clear_reg = 0x10000080

abbrev pub ls7a_intc_complete : ℕ → Write
ls7a_intc_complete irq = mmio_q ls7a_int_clear_reg irq

abbrev pub extioi_complete : ℕ → Write
extioi_complete irq = iocsr_q extioi_isr_base irq

-- How a handler ends: it comes back, or `switch_to` has jumped to the saved return address of the task
-- in a slot.
pub data Outcome : Type 0 where
  returned : System → List Write → Outcome
  switched : System → ℕ → List Write → Outcome

-- `while (kbd_has_data()) kbd_read_byte()`
abbrev pub drain : List ℕ → List Write
drain [] = []
drain (b ∷ bytes) = kbd_read b ∷ drain bytes

-- The write to TICLR behind the call of `do_schedule`, when that comes back.
abbrev pub clear_timer : List Write → System → Option ℕ → Outcome
clear_timer reads s none =
    returned (record s { csrs = w_csr_ticlr s.csrs (bit_or (r_csr_ticlr s.csrs) csr_ticlr_clr) })
      reads
clear_timer reads s (some next) = switched s next reads

unfoldable pub timer_interrupt : ℕ → List ℕ → System → Exec Outcome
timer_interrupt fuel bytes s =
    do_schedule fuel (record (s.sched) { jiffies = add_ℤ s.sched.jiffies (pos 1) })
    >>= λ (sched', next).
        done (clear_timer (drain bytes) (record s { time_n = s.time_n + 1; sched = sched' }) next)

-- `kbd_irq` with its calls of the two handlers.
unfoldable pub keyboard_interrupt : Pending → System → Exec System
keyboard_interrupt pending s =
    kbd_irq pending.idle s.kbd pending.bytes >>= λ (kbd', issue_c, state, kbd_n).
    vim_input_handle s.memory s.vim_file s.vim issue_c state kbd_n >>= λ (vim', memory', screen).
    shell_buf_update s.shell issue_c state >>= λ (shell', echo).
    done (record s { kbd = kbd'; vim = vim'; memory = memory'; shell = shell' })

-- The hardware interrupts of the controller; those of the serial port, bit 2, and of the mouse, bit
-- 4, have empty handlers.
abbrev hardware_interrupt : Pending → System → Exec Outcome
hardware_interrupt pending s =
    (if bit_and pending.irq 8 == 0 then done s else keyboard_interrupt pending s) >>= λ s'.
    done (returned s' (ls7a_intc_complete pending.irq ∷ (extioi_complete pending.irq ∷ [])))

-- The branch on the causes that are pending and enabled.
unfoldable pub dispatch : ℕ → Pending → System → Exec Outcome
dispatch fuel pending s =
    let cause = bit_and (r_csr_estat s.csrs) (r_csr_ecfg s.csrs) in
    if not (bit_and cause ti_vec == 0)
    then timer_interrupt fuel pending.bytes s
    else if not (bit_and cause hwi_vec == 0)
    then hardware_interrupt pending s
    else done (returned s [])

abbrev with_csrs : System → Csrs → System
with_csrs s c = record s { csrs = c }

-- The end of the handler, with what was read at its start.
abbrev pub leave : ℕ → ℕ → System → System
leave era prmd s = with_csrs s (intr_on (w_csr_prmd (w_csr_era s.csrs era) prmd))

abbrev pub finish : ℕ → ℕ → Outcome → Outcome
finish era prmd (returned s writes) = returned (leave era prmd s) writes
finish era prmd (switched s next writes) = switched s next writes

unfoldable pub trap_handler : ℕ → Pending → System → Exec Outcome
trap_handler fuel pending s =
    let off = intr_off s.csrs in
    dispatch fuel pending (with_csrs s off) >>= λ served.
    done (finish (r_csr_era off) (r_csr_prmd off) served)
