-- ===== src/Trap/Frame/Tests.antt =====
-- kernel/trap/trap.c, `trap_entry`: a handler that clears the registers.
use echo_os.Base.{ℕ, ◌*◌, ◌<◌, ◌==◌, if◌then◌else◌, ◌≡◌, refl, arith}
use echo_os.Trap.Frame.{Machine, sp, save_all, trap_entry}
use echo_os.Trap.Frame.Restore.{trap_entry-restores}

abbrev machine : Machine
machine = record { reg = λ k. 1000 * k; mem = λ address. 0 }

abbrev clearing : Machine → Machine
clearing m = record m { reg = λ k. if k == sp then m.reg sp else 0 }

trap_entry-restores_example :
    ((q : ℕ) → 0 < q → q < 32 → (trap_entry clearing machine).reg q ≡ machine.reg q)
    × ((save_all machine).mem (machine.reg sp) ≡ machine.reg 31)
trap_entry-restores_example =
    trap_entry-restores clearing machine (omega arith) refl (λ offset lt. refl)
