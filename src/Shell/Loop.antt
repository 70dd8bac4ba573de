-- ===== src/Shell/Loop.antt =====
-- kernel/shell/shell.c, `entry_shell`: the prompt, the wait for a line, and the commands up to `exit`.
-- The banner of `print_info` is left out, and the registration of the handler is that of Trap.
pub mod Typing
pub mod Whole
mod Tests
use echo_os.Base.{
  ℕ, zero, true, false, ◌==◌, List, [], ◌∷◌, ◌++◌, Option, none, some, Exec, done, fault, timeout,
  ◌>>=◌, if◌then◌else◌,
}
use echo_os.Base.Int.{ℤ, pos, negsuc}
use echo_os.Base.Text.{codes}
use echo_os.Arch.Csr.{intr_on}
use echo_os.Sched.Fork.{Paging}
use echo_os.Sysio.Print.{text, printf}
use echo_os.App.Vim.Session.{Event}
use echo_os.Shell.{Shell, shell_buf_update, enter}
use echo_os.Shell.Console.{Console, BootArgs}
use echo_os.Shell.Command.{shell_path, handle_cmd}

-- The interrupts of the keyboard in one round of the loop: while it waits, and while vim runs.
pub record Round : Type 0 where
  pub typed : List Event
  pub keys : List Event

-- `while (handle_cmd_flag == 0)`: the handler runs for one key after another, and its echo is
-- returned; a wait that is never over is a timeout.
unfoldable pub await : Shell → List Event → Exec (Shell × List ℕ)
await sh [] = if sh.handle_cmd_flag then done (sh, []) else timeout
await sh (e ∷ events) =
    let rest : Shell → Exec (Shell × List ℕ) = λ sh'. await sh' events in
    if sh.handle_cmd_flag
    then done (sh, [])
    else shell_buf_update sh e.char e.state >>= λ (sh', echo).
        rest sh' >>= λ (sh'', more). done (sh'', echo ++ more)

abbrev pub prompt : Exec (List ℕ)
prompt = printf (codes "EchoOS:%s $ ") (text (some shell_path) ∷ [])

-- The test behind `handle_cmd`, with what was printed so far. Where it returns without a value the
-- test reads one that is not there.
abbrev after :
    Option ℤ → Console → List ℕ → (Console → Exec (Console × List ℕ)) → Exec (Console × List ℕ)
after none c out rest = fault
after (some (negsuc zero)) c out rest =
    done (record c { shell = record c.shell { enabled = false } }, out)
after (some state) c out rest = rest c >>= λ (c', more). done (c', out ++ more)

module _ (stale : ℕ → List ℕ) (paging : Paging) (base size : ℕ) (test_sched1 test_sched2 : ℕ)
    (boot : BootArgs) (fuel : ℕ) where
  unfoldable pub shell_loop : List Round → Console → Exec (Console × List ℕ)
  shell_loop [] c = timeout
  shell_loop (r ∷ rounds) c =
      let rest : Console → Exec (Console × List ℕ) = λ c'. shell_loop rounds c' in
      prompt >>= λ shown. await c.shell r.typed >>= λ (sh, echo).
      handle_cmd stale paging base size test_sched1 test_sched2 boot fuel r.keys
        (record c { shell = sh })
      >>= λ (state, c', out). after state c' (shown ++ (echo ++ out)) rest

  unfoldable pub entry_shell : List Round → Console → Exec (Console × List ℕ)
  entry_shell rounds c =
      shell_loop rounds (record c { shell = enter c.shell; csrs = intr_on c.csrs })
