-- ===== src/Shell/Console.antt =====
-- kernel/shell/shell.c: what the commands work on, and the words of a line.
use echo_os.Base.{
  ℕ, ◌+◌, false, ◌||◌, List, [], ◌∷◌, Option, some, Exec, done, ◌>>=◌, ◌==◌, if◌then◌else◌, length,
  drop,
}
use echo_os.Base.Int.{ℤ}
use echo_os.Arch.Csr.{Csrs}
use echo_os.Utils.Memory.{Memory}
use echo_os.Fs.{Fs}
use echo_os.Mm.SysHeap.{SysHeap}
use echo_os.Sched.Task.{Sched}
use echo_os.Shell.{Shell}

-- What the commands read and change: `time_n` and `freq` are ints, `freq` never below 0.
pub record Console : Type 0 where
  pub shell : Shell
  pub time_n : ℕ
  pub freq : ℕ
  pub csrs : Csrs
  pub fs : Fs
  pub memory : Memory
  pub sched : Sched
  pub heap : SysHeap

-- What the kernel was given: `a0` is the number of the arguments.
pub record BootArgs : Type 0 where
  pub args : List (List ℕ)
  pub systemtable : ℕ
  pub extlist : ℕ

abbrev pub Result : Type 0
Result = Option ℤ × Console × List ℕ

-- `handle_cmd_flag = 0; return r;` behind what was printed.
abbrev pub say : ℤ → Console → List ℕ → Exec Result
say r c out = done (some r, record c { shell = record c.shell { handle_cmd_flag = false } }, out)

abbrev pub say_printed : ℤ → Console → Exec (List ℕ) → Exec Result
say_printed r c m = m >>= λ out. say r c out

-- The characters before the NUL, and those of the first word.
abbrev pub text_of : List ℕ → List ℕ
text_of [] = []
text_of (c ∷ line) = if c == 0 then [] else c ∷ text_of line

abbrev pub word : List ℕ → List ℕ
word [] = []
word (c ∷ line) = if (c == 0) || (c == 32) then [] else c ∷ word line

-- `&cmd_content[i]`, behind the word and the character that ends it.
abbrev pub argument : List ℕ → List ℕ
argument line = text_of (drop (length (word line) + 1) line)
