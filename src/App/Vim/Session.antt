-- ===== src/App/Vim/Session.antt =====
-- kernel/app/vim.c, `vim_entry`: from the name of a file to the end of the editing. The keyboard's
-- interrupts come while it waits: they are a list of events, and it ends as a timeout where they run out.
use echo_os.Base.{
  ℕ, ◌+◌, ◌*◌, true, false, List, [], ◌∷◌, Option, none, some, Exec, done, timeout, ◌>>=◌,
  if◌then◌else◌, get_or, replicate,
}
use echo_os.Base.Int.{ℤ, pos, negsuc}
use echo_os.Utils.Memory.{Memory}
use echo_os.Fs.{FileInfo, Fs, same_text, through}
use echo_os.Fs.Paths.{create_file}
use echo_os.App.Vim.{Vim, rows, columns, create_copy, vim_input_handle}

-- A character, the state of a key and the key.
pub record Event : Type 0 where
  pub char : ℕ
  pub state : ℕ
  pub kbd_n : ℕ

-- The loop that seeks the file: it reads the name behind each pointer.
unfoldable pub seek_file : Fs → List ℕ → ℕ → List ℕ → Exec (Option ℕ)
seek_file fs name i [] = done none
seek_file fs name i (p ∷ ps) =
    let rest = seek_file fs name (i + 1) ps in
    through (fs.file_at p) (λ file. if same_text file.file_name name then done (some i) else rest)

-- The result of `create_file`, as that of the search.
abbrev made : ℤ × Fs → Option ℕ × Fs
made (pos i, fs) = (some i, fs)
made (negsuc n, fs) = (none, fs)

abbrev seek_or_make : List ℕ → Fs → ℕ → List ℕ → Option ℕ → Exec (Option ℕ × Fs)
seek_or_make stale fs p name (some i) = done (some i, fs)
seek_or_make stale fs p name none = create_file stale fs p name >>= λ r. done (made r)

abbrev pub opened : Vim
opened = record {
  enable_vim = true;
  exit_flag = false;
  file_copy = replicate (rows * columns) 0;
  c_x = 0;
  c_y = 0;
  file_x = 0;
  file_y = 0;
  file_ln = 0;
  offset = pos 0;
}

-- The interrupts up to the one that sets `exit_flag`.
unfoldable pub edit_keys : Memory → ℕ → Vim → List Event → Exec (Vim × Memory)
edit_keys m file_p vim [] = if vim.exit_flag then done (vim, m) else timeout
edit_keys m file_p vim (e ∷ events) =
    let rest : Vim × Memory × List ℕ → Exec (Vim × Memory) = λ s. edit_keys s.1 file_p s.0 events in
    if vim.exit_flag
    then done (vim, m)
    else vim_input_handle m file_p vim e.char e.state e.kbd_n >>= rest

module _ (stale : List ℕ) (fuel : ℕ) (events : List Event) where
  abbrev edit_file : Fs → Memory → FileInfo → Exec (ℤ × Fs × Memory)
  edit_file fs m file = create_copy fuel m file.file_p opened >>= λ vim.
      edit_keys m file.file_p vim events >>= λ (vim', m'). done (pos 1, fs, m')

  abbrev edit_found : ℕ → Memory → Option ℕ × Fs → Exec (ℤ × Fs × Memory)
  edit_found p m (none, fs) = done (negsuc 0, fs, m)
  edit_found p m (some i, fs) =
      through (fs.folder_at p)
        (λ folder. through (fs.file_at (get_or folder.file_list i 0)) (λ file. edit_file fs m file))

  unfoldable pub vim_entry : Fs → Memory → ℕ → List ℕ → Exec (ℤ × Fs × Memory)
  vim_entry fs m p name = through (fs.folder_at p) (λ folder.
      seek_file fs name 0 folder.file_list >>= λ found.
      seek_or_make stale fs p name found >>= edit_found p m)
