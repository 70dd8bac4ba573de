-- ===== src/Shell.antt =====
-- kernel/shell/shell.c: the line that is typed. `shell_buf` is a ring of SHELL_BUF_SIZE characters; a
-- function that echoes returns the characters that it prints beside the new state.
pub mod Line
pub mod Editor
pub mod Take
pub mod Stays
pub mod Console
pub mod Clock
pub mod Listing
pub mod Command
pub mod Loop
pub mod Samples
mod Tests
use echo_os.Base.{
  ℕ, zero, suc, ◌+◌, ◌-◌, ◌%◌, ◌^◌, Bool, true, false, not, ◌&&◌, List, [], ◌∷◌, ◌++◌, Exec, done,
  fault, timeout, ◌>>=◌, ltb, ◌==◌, if◌then◌else◌, length, get_or, set, replicate,
}

abbrev pub shell_buf_size : ℕ
shell_buf_size = 2048

pub record Shell : Type 0 where
  pub enabled : Bool
  pub handle_cmd_flag : Bool
  pub buf : List ℕ
  pub start_ptr : ℕ
  pub end_ptr : ℕ

-- A write to `shell_buf[end]`, and the step of the pointer behind it.
abbrev pub push_char : Shell → ℕ → Exec (Shell × List ℕ)
push_char sh c =
    if ltb sh.end_ptr (length sh.buf)
    then done (
      record sh { buf = set sh.buf sh.end_ptr c; end_ptr = (sh.end_ptr + 1) % shell_buf_size },
      c ∷ [],
    )
    else fault

-- The pointer is an unsigned int: below 0 it wraps before `%` is taken.
abbrev pub pop_char : Shell → Shell × List ℕ
pop_char sh =
    (record sh { end_ptr = (sh.end_ptr + (2 ^ 32 - 1)) % 2 ^ 32 % shell_buf_size }, 8 ∷ 32 ∷ 8 ∷ [])

-- The keys: '\n' is 10 and '\b' is 8.
abbrev pub press_key : Shell → ℕ → Exec (Shell × List ℕ)
press_key sh c =
    if c == 10
    then done (record sh { handle_cmd_flag = true }, c ∷ [])
    else if not (c == 8) && not (c == 0)
    then push_char sh c
    else if (c == 8) && not (sh.end_ptr == sh.start_ptr)
    then done (pop_char sh)
    else done (sh, [])

-- KEY_PUSH is 1.
unfoldable pub shell_buf_update : Shell → ℕ → ℕ → Exec (Shell × List ℕ)
shell_buf_update sh c state =
    if not sh.enabled then done (sh, []) else if state == 1 then press_key sh c else done (sh, [])

-- The `while` at the start of `handle_cmd`: the characters that go to `cmd_content` from index `i` on,
-- which has 2048 characters.
unfoldable pub take_line : ℕ → Shell → ℕ → Exec (List ℕ × Shell)
take_line zero sh i = timeout
take_line (suc fuel) sh i =
    let slot = sh.start_ptr % shell_buf_size in
    let rest =
      take_line fuel
        (record sh { buf = set sh.buf slot 0; start_ptr = (slot + 1) % shell_buf_size }) (i + 1) in
    if sh.start_ptr == sh.end_ptr
    then (if ltb i 2048 then done ([], sh) else fault)
    else if ltb i 2048 && ltb slot (length sh.buf)
    then rest >>= (λ (line, sh'). done (get_or sh.buf slot 0 ∷ line, sh'))
    else fault

-- What `entry_shell` does before its loop; `print_info` and `intr_on` do not touch this state.
unfoldable pub enter : Shell → Shell
enter sh = record sh { enabled = true; buf = replicate shell_buf_size 0 }
