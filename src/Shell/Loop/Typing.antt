-- ===== src/Shell/Loop/Typing.antt =====
-- kernel/shell/shell.c: a line is typed while the loop of `entry_shell` waits.
use echo_os.Base.{
  not, if◌then◌else◌, ℕ, ◌+◌, ◌<◌, ◌%◌, true, false, List, [], ◌∷◌, ◌++◌, done, length, ◌==◌, set,
  ◌≡◌, refl, sym, arith, lt→ltb, length-snoc, snoc_append, append_nil,
}
use mathlib.Core.Path.{subst}
use echo_os.App.Vim.Session.{Event}
use echo_os.Shell.{Shell, shell_buf_size, push_char, press_key, shell_buf_update}
use echo_os.Shell.Line.{Holds}
use echo_os.Shell.Editor.{Edited, push_char-Edited}
use echo_os.Shell.Loop.{await}

-- Characters that the line takes: not a newline, a backspace or a NUL.
abbrev pub Letters : List ℕ → Type 0
Letters [] = Unit
Letters (c ∷ s) = ((c == 0) ≡ false) × ((c == 8) ≡ false) × ((c == 10) ≡ false) × Letters s

-- The interrupts for a text and the enter key behind it.
abbrev pub typing : List ℕ → List Event
typing [] = record { char = 10; state = 1; kbd_n = 28 } ∷ []
typing (c ∷ s) = record { char = c; state = 1; kbd_n = 0 } ∷ typing s

abbrev pushed : Shell → ℕ → Shell
pushed sh c = record sh {
  buf = set sh.buf sh.end_ptr c;
  end_ptr = (sh.end_ptr + 1) % shell_buf_size;
}

push_char_lem :
    (sh : Shell) (line : List ℕ) (c : ℕ)
    → Holds sh line
    → push_char sh c ≡ done (pushed sh c, c ∷ [])
push_char_lem sh line c h =
    rw (lt→ltb sh.end_ptr (length sh.buf) (omega (arith, h.size, h.end_at))) refl

letter_lem :
    (sh : Shell) (line : List ℕ) (c : ℕ)
    → sh.enabled ≡ true
    → Holds sh line
    → (c == 10) ≡ false
    → (c == 8) ≡ false
    → (c == 0) ≡ false
    → shell_buf_update sh c 1 ≡ done (pushed sh c, c ∷ [])
unfolding shell_buf_update
letter_lem sh line c on h no_enter no_back no_nul =
    subst (λ b. (if not b then done (sh, []) else press_key sh c) ≡ done (pushed sh c, c ∷ []))
      (sym on) (rw (no_enter, no_back, no_nul) (push_char_lem sh line c h))

await_step :
    (sh sh' sh'' : Shell) (e : Event) (events : List Event) (echo more : List ℕ)
    → sh.handle_cmd_flag ≡ false
    → shell_buf_update sh e.char e.state ≡ done (sh', echo)
    → await sh' events ≡ done (sh'', more)
    → await sh (e ∷ events) ≡ done (sh'', echo ++ more)
unfolding await
await_step sh sh' sh'' e events echo more down pressed waited = rw (pressed, waited, down) refl

-- Each letter is put behind the line and echoed, and the enter key ends the wait.
pub await_lem :
    (sh : Shell) (line s : List ℕ)
    → sh.enabled ≡ true
    → sh.handle_cmd_flag ≡ false
    → Holds sh line
    → Letters s
    → length line + length s < shell_buf_size
    → (sh' : Shell) × (await sh (typing s) ≡ done (sh', s ++ (10 ∷ [])))
      × (sh'.enabled ≡ true)
      × Holds sh' (line ++ s)
unfolding await shell_buf_update
await_lem sh line [] on down h letters short = (
  record sh { handle_cmd_flag = true },
  rw (down, on) refl,
  on,
  subst (λ l. Holds (record sh { handle_cmd_flag = true }) l) (sym (append_nil line))
      (record {
        size = h.size;
        start_in = h.start_in;
        short = h.short;
        end_at = h.end_at;
        ring = h.ring;
      }),
)
await_lem sh line (c ∷ s) on down h (no_nul, no_back, no_enter, letters) short =
    let h' : Holds (pushed sh c) (line ++ (c ∷ [])) =
      (subst (Edited (line ++ (c ∷ []))) (push_char_lem sh line c h)
        (push_char-Edited sh line c on h (omega (arith, short)))).1 in
    let (sh', waited, on', held) =
      await_lem (pushed sh c) (line ++ (c ∷ [])) s on down h' letters
        (omega (arith, short, length-snoc line c)) in
    (
      sh',
      await_step sh (pushed sh c) sh' (record { char = c; state = 1; kbd_n = 0 }) (typing s)
          (c ∷ []) (s ++ (10 ∷ [])) down (letter_lem sh line c on h no_enter no_back no_nul) waited,
      on',
      subst (Holds sh') (snoc_append line c s) held,
    )
