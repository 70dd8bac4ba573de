-- ===== src/Shell/Loop/Whole.antt =====
-- kernel/shell/shell.c, `entry_shell`: a whole session, from the keys to the files and the text.
use echo_os.Base.{
  ℕ, ◌+◌, ◌<◌, ◌≤◌, true, false, List, [], ◌∷◌, ◌++◌, none, some, done, length, length-replicate,
  ◌≡◌, refl, ap, ◌∙◌, arith, append_nil, snoc_append,
}
use echo_os.Base.Int.{pos, negsuc}
use echo_os.Base.Text.{codes}
use echo_os.Arch.Csr.{intr_on}
use echo_os.Fs.{Folder, root_path, sizeof_folder, find_folder}
use echo_os.Fs.Folders.{Fresh, slot_of, empty_folder, linked}
use echo_os.Sched.Fork.{Paging}
use echo_os.Sysio.Print.{printf, convert}
use echo_os.App.Vim.Session.{Event}
use echo_os.Shell.{Shell, shell_buf_size, take_line, enter}
use echo_os.Shell.Line.{Holds}
use echo_os.Shell.Take.{take_line-Taken}
use echo_os.Shell.Console.{Console, BootArgs}
use echo_os.Shell.Command.{run_cmd, handle_cmd}
use echo_os.Shell.Command.Words.{Plain}
use echo_os.Shell.Command.Mkdir.{mkdir_line, Taken-done, handle_cmd_mkdir}
use echo_os.Shell.Loop.{Round, await, prompt, shell_loop, entry_shell}
use echo_os.Shell.Loop.Typing.{Letters, typing, await_lem}

abbrev shown : List ℕ
shown = codes "EchoOS:/ $ "

prompt_lem : prompt ≡ done shown
unfolding printf convert
prompt_lem = refl

-- The rounds of a session, with no keys for vim.
abbrev pub lines : List (List ℕ) → List Round
lines [] = []
lines (line ∷ more) = record { typed = typing line; keys = [] } ∷ lines more

enter-Holds :
    (sh : Shell) → sh.start_ptr < shell_buf_size → sh.end_ptr ≡ sh.start_ptr → Holds (enter sh) []
unfolding enter
enter-Holds sh start_in empty = record {
  size = length-replicate {A = ℕ} shell_buf_size 0;
  start_in = start_in;
  short = omega arith;
  end_at = omega (arith, empty, start_in);
  ring = tt;
}

module _ (stale : ℕ → List ℕ) (paging : Paging) (base size : ℕ) (test_sched1 test_sched2 : ℕ)
    (boot : BootArgs) (fuel : ℕ) where
  -- A round whose command returns a number that is not negative, and the rest of the loop.
  round_lem :
      (r : Round) (rounds : List Round) (c c' c'' : Console) (sh : Shell) (n : ℕ)
      (echo out more : List ℕ)
      → await c.shell r.typed ≡ done (sh, echo)
      → handle_cmd stale paging base size test_sched1 test_sched2 boot fuel r.keys
          (record c { shell = sh })
        ≡ done (some (pos n), c', out)
      → shell_loop stale paging base size test_sched1 test_sched2 boot fuel rounds c'
        ≡ done (c'', more)
      → shell_loop stale paging base size test_sched1 test_sched2 boot fuel (r ∷ rounds) c
        ≡ done (c'', (shown ++ (echo ++ out)) ++ more)
  unfolding shell_loop
  round_lem r rounds c c' c'' sh n echo out more waited ran after =
      rw (prompt_lem, waited, ran, after) refl

  last_round_lem :
      (r : Round) (rounds : List Round) (c c' : Console) (sh : Shell) (echo out : List ℕ)
      → await c.shell r.typed ≡ done (sh, echo)
      → handle_cmd stale paging base size test_sched1 test_sched2 boot fuel r.keys
          (record c { shell = sh })
        ≡ done (some (negsuc 0), c', out)
      → shell_loop stale paging base size test_sched1 test_sched2 boot fuel (r ∷ rounds) c
        ≡ done (record c' { shell = record c'.shell { enabled = false } }, shown ++ (echo ++ out))
  unfolding shell_loop
  last_round_lem r rounds c c' sh echo out waited ran = rw (prompt_lem, waited, ran) refl

  handle_cmd_exit :
      (events : List Event) (c : Console)
      → Holds c.shell (codes "exit")
      → (sh : Shell) × Holds sh []
        × (handle_cmd stale paging base size test_sched1 test_sched2 boot fuel events c
            ≡ done (
              some (negsuc 0),
              record c { shell = record sh { handle_cmd_flag = false } },
              codes "shell has exited!",
            ))
  unfolding handle_cmd run_cmd
  handle_cmd_exit events c h =
      let (sh, taken, empty) =
        Taken-done (codes "exit") (take_line shell_buf_size c.shell 0)
          (take_line-Taken shell_buf_size c.shell (codes "exit") 0 h (omega arith) (omega arith)) in
      (sh, empty, rw taken refl)

  -- The loop on a waiting shell with an empty ring, when "exit" is typed.
  exit_round :
      (rounds : List Round) (c : Console)
      → c.shell.enabled ≡ true
      → c.shell.handle_cmd_flag ≡ false
      → Holds c.shell []
      → (c' : Console) × (shell_loop stale paging base size test_sched1 test_sched2 boot fuel
            (record { typed = typing (codes "exit"); keys = [] } ∷ rounds)
            c
          ≡ done (c', shown ++ codes "exit\nshell has exited!"))
        × (c'.shell.enabled ≡ false)
        × Holds c'.shell []
        × (c'.fs ≡ c.fs)
  exit_round rounds c on down h =
      let (sh, waited, on', held) =
        await_lem c.shell [] (codes "exit") on down h
          (refl, refl, refl, (refl, refl, refl, (refl, refl, refl, (refl, refl, refl, tt))))
          (omega arith) in
      let (sh', empty, ran) = handle_cmd_exit [] (record c { shell = sh }) held in
      (
        record c { shell = record sh' { handle_cmd_flag = false; enabled = false } },
        last_round_lem (record { typed = typing (codes "exit"); keys = [] }) rounds c
            (record c { shell = record sh' { handle_cmd_flag = false } }) sh (codes "exit\n")
            (codes "shell has exited!") waited ran,
        refl,
        record {
          size = empty.size;
          start_in = empty.start_in;
          short = empty.short;
          end_at = empty.end_at;
          ring = empty.ring;
        },
        refl,
      )

-- What the session below prints: the prompts, the echo of the keys, and the last words.
abbrev pub session_text : List ℕ → List ℕ
session_text name =
    codes "EchoOS:/ $ mkdir " ++ (name ++ codes "\nEchoOS:/ $ exit\nshell has exited!")

session_text_lem :
    (name : List ℕ)
    → (shown ++ ((mkdir_line name ++ (10 ∷ [])) ++ []))
        ++ (shown ++ codes "exit\nshell has exited!")
      ≡ session_text name
session_text_lem name =
    let rest : List ℕ = shown ++ codes "exit\nshell has exited!" in
    ap (λ t. codes "EchoOS:/ $ mkdir " ++ t)
      (ap (λ t. t ++ rest) (append_nil (name ++ (10 ∷ []))) ∙ snoc_append name 10 rest)

mkdir-Letters : (name : List ℕ) → Letters name → Letters (mkdir_line name)
mkdir-Letters name letters = (
  refl,
  refl,
  refl,
  (
    refl,
    refl,
    refl,
    (refl, refl, refl, (refl, refl, refl, (refl, refl, refl, (refl, refl, refl, letters)))),
  ),
)

-- `entry_shell` is entered with an empty ring and no line complete, "mkdir " is typed with a name
-- behind it and the enter key, and then "exit" with the enter key. The name has fewer than 100
-- characters, none of them a blank, a NUL, a newline or a backspace; the root folder has a free slot
-- and, before it, only folders of other names; and the memory at the start of the free area is unused,
-- holds one more folder and is not at 0. Then the loop ends; the text that was printed is the two
-- prompts, the keys as they were typed and the last words; the shell is off and its ring empty; and the
-- folder is in memory, empty, the root folder has its pointer in the free slot and is otherwise as it
-- was, and a search of the root's list by the name finds it in the slot.
pub entry_shell_mkdir :
    (stale : ℕ → List ℕ) (paging : Paging) (base size : ℕ) (test_sched1 test_sched2 : ℕ)
    (boot : BootArgs) (fuel : ℕ) (c : Console) (name : List ℕ) (root : Folder)
    (at : c.fs.folder_at root_path ≡ some root) (unused : c.fs.folder_at c.fs.info_start ≡ none)
    (fresh : Fresh c.fs name root.folder_list)
    → c.shell.start_ptr < shell_buf_size
    → c.shell.end_ptr ≡ c.shell.start_ptr
    → c.shell.handle_cmd_flag ≡ false
    → Plain name
    → Letters name
    → length name < 100
    → 0 < c.fs.info_start
    → c.fs.info_start + sizeof_folder ≤ 0x122000000
    → (c' : Console) × (entry_shell stale paging base size test_sched1 test_sched2 boot fuel
          (lines (mkdir_line name ∷ (codes "exit" ∷ [])))
          c
        ≡ done (c', session_text name))
      × (c'.shell.enabled ≡ false)
      × Holds c'.shell []
      × (c'.fs.folder_at root_path
          ≡ some (
              linked c.fs root_path root name at unused (slot_of c.fs name root.folder_list fresh)))
      × (c'.fs.folder_at c.fs.info_start ≡ some (empty_folder name))
      × (find_folder c'.fs name 0
            (linked c.fs root_path root name at unused
              (slot_of c.fs name root.folder_list fresh)).folder_list
          ≡ done (some (slot_of c.fs name root.folder_list fresh)))
unfolding entry_shell enter
entry_shell_mkdir stale paging base size test_sched1 test_sched2 boot fuel c name root at unused
      fresh start_in empty down plain letters short start_pos room =
    let c1 : Console = record c { shell = enter c.shell; csrs = intr_on c.csrs } in
    let (sh, waited, on, held) =
      await_lem c1.shell [] (mkdir_line name) refl down (enter-Holds c.shell start_in empty)
        (mkdir-Letters name letters) (omega (arith, short)) in
    let (c2, ran, held', down', on', rooted, there, found) =
      handle_cmd_mkdir stale paging base size test_sched1 test_sched2 boot fuel []
        (record c1 { shell = sh }) name root at unused fresh held plain short start_pos room in
    let (c3, left, off, held'', same) =
      exit_round stale paging base size test_sched1 test_sched2 boot fuel [] c2 (on' ∙ on) down'
        held' in
    (
      c3,
      round_lem stale paging base size test_sched1 test_sched2 boot fuel
            (record { typed = typing (mkdir_line name); keys = [] }) (lines (codes "exit" ∷ [])) c1
            c2 c3 sh 1 (mkdir_line name ++ (10 ∷ [])) [] (shown ++ codes "exit\nshell has exited!")
            waited ran left
          ∙ ap (λ t. done (c3, t)) (session_text_lem name),
      off,
      held'',
      ap (λ fs. fs.folder_at root_path) same ∙ rooted,
      ap (λ fs. fs.folder_at c.fs.info_start) same ∙ there,
      ap
            (λ fs.
              find_folder fs name 0
                (linked c.fs root_path root name at unused
                  (slot_of c.fs name root.folder_list fresh)).folder_list)
            same
          ∙ found,
    )
