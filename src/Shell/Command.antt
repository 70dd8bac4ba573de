-- ===== src/Shell/Command.antt =====
-- kernel/shell/shell.c, `handle_cmd`: from the line to what the command does. The text that is printed
-- is returned, with the result; `test_sched` returns without one.
pub mod Words
pub mod Mkdir
pub mod Touch
mod Tests
use echo_os.Base.{
  ℕ, zero, suc, ◌+◌, Bool, true, false, not, ◌||◌, List, [], ◌∷◌, ◌++◌, Option, none, some, Exec,
  done, fault, timeout, ◌>>=◌, ltb, ◌==◌, ◌-◌, ◌*◌, ◌^◌, bit_or, if◌then◌else◌, length, get_or, set,
  drop,
}
use echo_os.Base.Int.{ℤ, pos, negsuc}
use echo_os.Base.Text.{codes}
use echo_os.Arch.Csr.{Csrs, w_csr_tcfg, csr_tcfg_en, csr_tcfg_per}
use echo_os.Utils.Memory.{Memory}
use echo_os.Utils.MemMap.{print_memmap}
use echo_os.Utils.Split.{split}
use echo_os.Fs.{Fs, same_text, through, create_folder}
use echo_os.Fs.Paths.{create_file, path_als}
use echo_os.Mm.SysHeap.{SysHeap}
use echo_os.Sched.Task.{Task, Sched, change_task}
use echo_os.Sched.Fork.{Paging, fork}
use echo_os.Sysio.Print.{Arg, int, ulong, text, printf}
use echo_os.App.Vim.Session.{Event, vim_entry}
use echo_os.Shell.{Shell, shell_buf_size, take_line}
use echo_os.Shell.Console.{Console, BootArgs, Result, say, say_printed, text_of, word, argument}
use echo_os.Shell.Clock.{clock_cmd}
use echo_os.Shell.Listing.{show_help, bootparam_cmd, ls_cmd}

-- `shell_path`, which nothing changes.
abbrev pub shell_path : List ℕ
shell_path = codes "/"

abbrev pub invalid : Console → Exec Result
invalid c = say (pos 0) c (codes "invalid parameter!\n")

-- The commands with an argument split the text at blanks; one row is too few.
abbrev pub with_argument : Console → List (List ℕ) → Exec Result → Exec Result
with_argument c [] command = invalid c
with_argument c (row ∷ []) command = invalid c
with_argument c (row ∷ (r ∷ rows)) command = command

abbrev pub split_line : List ℕ → Exec (List (List ℕ))
split_line line = split (length (text_of line) + 1) (text_of line) (32 ∷ [])

-- The parameters: what the stack holds for `path_als` and for the operations on files, the tables and
-- the heap of `fork`, the addresses of the two test functions, the arguments of the kernel, and for vim
-- the fuel of the copy and the keys that are pressed.
module _ (stale : ℕ → List ℕ) (paging : Paging) (base size : ℕ) (test_sched1 test_sched2 : ℕ)
    (boot : BootArgs) (fuel : ℕ) (events : List Event) where
  -- A fork whose child runs the function at `entry`; `task[pid]` is written through.
  abbrev start_child : ℕ → ℕ → Console → ℤ × Sched × SysHeap → Exec Console
  start_child entry priority c (negsuc n, s, h) = fault
  start_child entry priority c (pos pid, s, h) =
      change_task s pid (λ t. record t {
        tss = record t.tss { copied = set t.tss.copied 0 entry };
        priority = pos priority;
        counter = pos priority;
      })
      >>= λ s'. done (record c { sched = s'; heap = h })

  abbrev spawn : ℕ → ℕ → Console → Exec Console
  spawn entry priority c = fork paging base size c.sched c.heap >>= start_child entry priority c

  unfoldable pub test_sched_cmd : Console → Exec Result
  test_sched_cmd c =
      spawn test_sched1 1 c >>= λ c'. spawn test_sched2 2 c' >>= λ c''. done (none, c'', [])

  abbrev pub root_of : Console → Exec ℕ
  root_of c = path_als (stale 0) c.fs shell_path 0

  unfoldable pub mkdir_cmd : List ℕ → Console → Exec Result
  mkdir_cmd line c = root_of c >>= λ p. split_line line >>= λ rows.
      with_argument c rows
        (create_folder c.fs p (argument line) >>= λ fs'. say (pos 1) (record c { fs = fs' }) [])

  unfoldable pub touch_cmd : List ℕ → Console → Exec Result
  touch_cmd line c = root_of c >>= λ p. split_line line >>= λ rows. with_argument c rows (
      create_file (stale 1) c.fs p (argument line) >>= λ (result, fs').
      say (pos 1) (record c { fs = fs' }) [])

  -- `enable_shell` is 0 while vim runs.
  unfoldable pub vim_cmd : List ℕ → Console → Exec Result
  vim_cmd line c = root_of c >>= λ p. split_line line >>= λ rows. with_argument c rows (
      vim_entry (stale 1) fuel events c.fs c.memory p (argument line) >>= λ (result, fs', m').
      say (pos 1) (record c { fs = fs'; memory = m'; shell = record c.shell { enabled = true } })
        [])

  -- The chain of `strcmp` on the first word.
  unfoldable pub run_cmd : List ℕ → Console → Exec Result
  run_cmd line c =
      let cmd = word line in
      if same_text cmd (codes "help")
      then say (pos 1) c show_help
      else if same_text cmd (codes "exit")
      then say (negsuc 0) c (codes "shell has exited!")
      else if same_text cmd (codes "clear")
      then say (pos 1) c (27 ∷ codes "c")
      else if same_text cmd (codes "memmap")
      then say_printed (pos 1) c print_memmap
      else if same_text cmd (codes "clock")
      then clock_cmd line (length cmd + 1) c
      else if same_text cmd (codes "bootparam")
      then say_printed (pos 1) c (bootparam_cmd boot)
      else if same_text cmd (codes "ls")
      then root_of c >>= (λ p. say_printed (pos 1) c (ls_cmd c.fs p))
      else if same_text cmd (codes "mkdir")
      then mkdir_cmd line c
      else if same_text cmd (codes "touch")
      then touch_cmd line c
      else if same_text cmd (codes "vim")
      then vim_cmd line c
      else if same_text cmd (codes "test_sched")
      then test_sched_cmd c
      else say (pos 0) c (codes "No such command!\n")

  -- `cmd` has 128 characters.
  unfoldable pub handle_cmd : Console → Exec Result
  handle_cmd c = take_line shell_buf_size c.shell 0 >>= λ (line, sh').
      if ltb (length (word line)) 128 then run_cmd line (record c { shell = sh' }) else fault
