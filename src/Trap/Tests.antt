-- ===== src/Trap/Tests.antt =====
-- kernel/trap: the controllers' set-up, and interrupts.
use echo_os.Trap.Timer.{Served, timer_tick}
use echo_os.Trap.Init.{ls7a_intc_init}
use echo_os.Trap.{mmio_q, mmio_b}
use echo_os.Sched.Samples.{task_with}
use echo_os.Base.{
  List, some, ◌^◌, ◌-◌, ℕ, ◌*◌, false, [], ◌∷◌, done, ◌==◌, if◌then◌else◌, ◌≡◌, refl, arith,
  replicate,
}
use echo_os.Arch.Csr.{Csrs}
use echo_os.Sched.Samples.{sched_with}
use echo_os.Base.Int.{pos}
use echo_os.Drivers.Kbd.{Kbd, character, key_of}
use echo_os.Shell.Samples.{fresh, fresh-Holds}
use echo_os.App.Vim.Session.{opened}
use echo_os.Trap.{
  System, Pending, returned, drain, trap_handler, ls7a_intc_complete, extioi_complete,
}
use echo_os.Trap.Back.{Back}
use echo_os.Trap.Keys.{one_byte, Keyed, trap_handler_key}

-- The keyboard's interrupt line is pending and enabled.
abbrev csrs : Csrs
csrs r = if r == 5 then 8 else if r == 4 then 0xbfc else if r == 0 then 0xb4 else r * 16

abbrev keyboard : Kbd
keyboard = record { status = replicate 128 0; capslock = false }

abbrev system : System
system = record {
  csrs = csrs;
  time_n = 0;
  sched = sched_with (pos 3) [];
  kbd = keyboard;
  shell = fresh;
  vim = record opened { enable_vim = false };
  vim_file = 0;
  memory = λ q. 0;
}

-- The scan code 0x1c is that of the key 'a'.
abbrev a_key : ℕ
a_key = 0x1c

a_char : character keyboard (key_of a_key) ≡ 97
a_char = refl

trap_handler_key_example :
    (s' : System) × (trap_handler 2 (one_byte 0 a_key 8) system
      ≡ done (returned s' (ls7a_intc_complete 8 ∷ (extioi_complete 8 ∷ []))))
    × Keyed 0 a_key 8 [] system s'
    × Back system s'
trap_handler_key_example =
    trap_handler_key 2 0 a_key 8 system [] refl refl refl refl (omega arith) (λ e. omega (arith, e))
      refl refl fresh-Holds (omega arith)

-- The same system with the timer's last request cleared, and three ticks of the slice left.
abbrev ticking : System
ticking = record system {
  csrs = λ r. if r == 0x44 then 1 else if r == 4 then 0xbfc else 0;
  sched = record (sched_with (pos 3) (some (task_with 0 (pos 2) (pos 4)) ∷ [])) { jiffies = pos 3 };
}

-- The hardware sets the bit of the timer, and the mask is that of `trap_init`.
abbrev raise : Csrs → Csrs
raise c r = if r == 5 then 2 ^ 11 else if r == 4 then 0xbfc else c r

timer_tick_example :
    (s' : System) × (trap_handler 2
        (one_byte 0 a_key 0)
        (record ticking { csrs = raise ticking.csrs })
      ≡ done (returned s' (drain (a_key ∷ []))))
    × Served (record ticking { csrs = raise ticking.csrs }) s' 1
timer_tick_example =
    timer_tick 2 1 (one_byte 0 a_key 0) (record ticking { csrs = raise ticking.csrs }) refl refl
      refl

abbrev presses : List Pending
presses = one_byte 0 a_key 0 ∷ (one_byte 0 a_key 0 ∷ (one_byte 0 a_key 0 ∷ []))

-- The edge register gets bit 7.
edge_register :
    ls7a_intc_init
    ≡ mmio_q 0x10000020 (2 ^ 64 - 1 - 60)
      ∷ (mmio_q 0x10000060 128
          ∷ (mmio_b 0x10000202 2
              ∷ (mmio_b 0x10000203 3
                  ∷ (mmio_b 0x10000204 4 ∷ (mmio_b 0x10000205 4 ∷ (mmio_q 0x100003e0 0 ∷ []))))))
unfolding ls7a_intc_init
edge_register = refl
