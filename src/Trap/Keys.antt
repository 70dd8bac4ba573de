-- ===== src/Trap/Keys.antt =====
-- kernel/trap/trap.c, kernel/drivers/kbd.c and kernel/shell/shell.c: from a key to the command line.
use echo_os.Base.{
  ℕ, ◌+◌, ◌<◌, ◌≢◌, true, false, List, [], ◌∷◌, Exec, done, fault, timeout, ◌==◌, length, bit_and,
  ◌≡◌, refl, get_or,
}
use echo_os.Arch.Csr.{r_csr_estat, r_csr_ecfg, ti_vec, hwi_vec, intr_off, r_csr_era, r_csr_prmd}
use echo_os.Drivers.Kbd.{Kbd, key_of, key_insert, key_push, character}
use echo_os.Drivers.Kbd.Press.{pressed, pressed-down, kbd_irq_press}
use echo_os.Shell.{Shell, shell_buf_size, shell_buf_update}
use echo_os.Shell.Line.{edit, Holds}
use echo_os.Shell.Editor.{Edited, shell_buf_update-Edited}
use echo_os.App.Vim.{vim_input_handle}
use echo_os.Trap.{
  System, returned, Pending, keyboard_interrupt, dispatch, leave, trap_handler, ls7a_intc_complete,
  extioi_complete,
}
use echo_os.Trap.Back.{Back, leave-Back}

Edited-done :
    (line : List ℕ) (m : Exec (Shell × List ℕ))
    → Edited line m
    → (sh : Shell) × (echo : List ℕ) × (m ≡ done (sh, echo)) × (sh.enabled ≡ true) × Holds sh line
Edited-done line (done (sh, echo)) (on, h) = (sh, echo, refl, on, h)
Edited-done line fault e = absurd e
Edited-done line timeout e = absurd e

module _ (idle byte irq : ℕ) where
  abbrev pub one_byte : Pending
  one_byte = record { bytes = byte ∷ []; idle = idle; irq = irq }

  abbrev pub char_of : Kbd → ℕ
  char_of kbd = character (pressed kbd (key_of byte)) (key_of byte)

  -- What the key leaves behind: the line of the shell, and the key in the table.
  abbrev pub Keyed : List ℕ → System → System → Type 0
  Keyed line s s' =
      (s'.shell.enabled ≡ true)
      × Holds s'.shell (edit line (char_of s.kbd))
      × (get_or s'.kbd.status (key_of byte) 0 ≡ key_push)

  module _ (s : System) (line : List ℕ) (table : length s.kbd.status ≡ 128)
      (in_table : key_of byte < 128) (not_insert : key_of byte ≢ key_insert)
      (no_vim : s.vim.enable_vim ≡ false) (on : s.shell.enabled ≡ true) (h : Holds s.shell line)
      (short : length line + 1 < shell_buf_size) where
    vim_ignores :
        (c state n : ℕ)
        → vim_input_handle s.memory s.vim_file s.vim c state n ≡ done (s.vim, s.memory, [])
    unfolding vim_input_handle
    vim_ignores c state n = rw no_vim refl

    keyed : (s' : System) × (keyboard_interrupt one_byte s ≡ done s') × Keyed line s s'
    unfolding keyboard_interrupt
    keyed =
        let (sh, echo, update, on', h') =
          Edited-done (edit line (char_of s.kbd)) (shell_buf_update s.shell (char_of s.kbd) 1)
            (shell_buf_update-Edited s.shell line (char_of s.kbd) on h short) in
        (
          record s { kbd = pressed s.kbd (key_of byte); shell = sh },
          rw
              (
                kbd_irq_press idle byte s.kbd table in_table not_insert,
                vim_ignores (char_of s.kbd) key_push (key_of byte),
                update,
              )
              refl,
          (on', h', pressed-down idle byte s.kbd table in_table not_insert),
        )

-- An interrupt of the keyboard, with the timer's not pending and one byte ready, the scan code of a
-- key of the table other than KEY_INSERT, when vim is closed, the shell is enabled and its ring has a
-- line with room for one more character: `trap_handler` ends. The line is then what an editor makes of
-- it with the character of the key, the key is down in the table, both controllers have got the
-- acknowledgement, and the return address, the mode and enabled interrupts are back.
pub trap_handler_key :
    (fuel idle byte irq : ℕ) (s : System) (line : List ℕ)
    → (bit_and (bit_and (r_csr_estat s.csrs) (r_csr_ecfg s.csrs)) ti_vec == 0) ≡ true
    → (bit_and (bit_and (r_csr_estat s.csrs) (r_csr_ecfg s.csrs)) hwi_vec == 0) ≡ false
    → (bit_and irq 8 == 0) ≡ false
    → length s.kbd.status ≡ 128
    → key_of byte < 128
    → key_of byte ≢ key_insert
    → s.vim.enable_vim ≡ false
    → s.shell.enabled ≡ true
    → Holds s.shell line
    → length line + 1 < shell_buf_size
    → (s' : System) × (trap_handler fuel (one_byte idle byte irq) s
        ≡ done (returned s' (ls7a_intc_complete irq ∷ (extioi_complete irq ∷ []))))
      × Keyed idle byte irq line s s'
      × Back s s'
unfolding trap_handler dispatch intr_off
trap_handler_key fuel idle byte irq s line no_timer hardware key table in_table not_insert no_vim on
      h short =
    let (t, served, keyed_t) =
      keyed idle byte irq (record s { csrs = intr_off s.csrs }) line table in_table not_insert
        no_vim on h short in
    (
      leave (r_csr_era (intr_off s.csrs)) (r_csr_prmd (intr_off s.csrs)) t,
      rw (no_timer, hardware, key, served) refl,
      keyed_t,
      leave-Back s t,
    )
