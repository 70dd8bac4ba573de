-- ===== src/Shell/Command/Mkdir.antt =====
-- kernel/shell/shell.c, `mkdir`: from the line in the ring to the folder.
use echo_os.Base.{
  ℕ, ◌+◌, ◌<◌, ◌≤◌, false, List, [], ◌++◌, none, some, Exec, done, fault, timeout, length, ◌≡◌,
  refl, ap, arith,
}
use echo_os.Base.Int.{pos}
use echo_os.Base.Text.{codes}
use echo_os.Utils.Split.{split, split_from}
use echo_os.Fs.{Folder, Fs, root_path, sizeof_folder, create_folder, find_folder}
use echo_os.Fs.Paths.{path_als}
use echo_os.Fs.Folders.{Fresh, slot_of, empty_folder, linked, create_folder_lem}
use echo_os.Sched.Fork.{Paging}
use echo_os.App.Vim.Session.{Event}
use echo_os.Shell.{Shell, shell_buf_size, take_line}
use echo_os.Shell.Line.{Holds}
use echo_os.Shell.Stays.{take_line_enabled}
use echo_os.Shell.Take.{Taken, take_line-Taken}
use echo_os.Shell.Console.{Console, BootArgs, argument, say}
use echo_os.Shell.Command.{mkdir_cmd, run_cmd, handle_cmd}
use echo_os.Shell.Command.Words.{Plain, text_of-Plain, split_line_lem}

abbrev pub mkdir_line : List ℕ → List ℕ
mkdir_line name = codes "mkdir " ++ name

pub Taken-done :
    (line : List ℕ) (m : Exec (List ℕ × Shell))
    → Taken line m
    → (sh : Shell) × (m ≡ done (line, sh)) × Holds sh []
Taken-done line (done (line', sh)) (same, h) = (sh, ap (λ l. done (l, sh)) same, h)
Taken-done line fault e = absurd e
Taken-done line timeout e = absurd e

argument_lem : (name : List ℕ) → Plain name → argument (mkdir_line name) ≡ name
argument_lem name plain = text_of-Plain name plain

abbrev mkdir_word : List ℕ
mkdir_word = codes "mkdir"

mkdir-Plain : Plain mkdir_word
mkdir-Plain = (refl, refl, (refl, refl, (refl, refl, (refl, refl, (refl, refl, tt)))))

module _ (stale : ℕ → List ℕ) (paging : Paging) (base size : ℕ) (test_sched1 test_sched2 : ℕ)
    (boot : BootArgs) (fuel : ℕ) (events : List Event) where
  root_lem : (c : Console) → path_als (stale 0) c.fs (codes "/") 0 ≡ done root_path
  unfolding path_als split split_from
  root_lem c = refl

  run_mkdir :
      (c : Console) (name : List ℕ) (fs' : Fs)
      → Plain name
      → length name < 100
      → create_folder c.fs root_path name ≡ done fs'
      → run_cmd stale paging base size test_sched1 test_sched2 boot fuel events (mkdir_line name) c
        ≡ say (pos 1) (record c { fs = fs' }) []
  unfolding run_cmd mkdir_cmd
  run_mkdir c name fs' plain short made =
      rw
        (
          root_lem c,
          split_line_lem mkdir_word name mkdir-Plain plain (omega arith) short,
          argument_lem name plain,
          made,
        )
        refl

-- On a shell whose ring has the line "mkdir ", with a name behind it of fewer than 100 characters, none
-- of them a blank or a NUL, `handle_cmd` ends and returns 1 with nothing printed, when the root folder
-- has a free slot and, before it, only folders of other names, and when the memory at the start of the
-- free area is unused, holds one more folder and is not at 0. The new folder is then empty, its pointer
-- stands in that slot of the root folder, which is otherwise as it was, and a search of the root's list
-- under the name that was typed finds it there; the ring is empty, the flag that a line is complete
-- is down, and the shell is enabled as before.
pub handle_cmd_mkdir :
    (stale : ℕ → List ℕ) (paging : Paging) (base size : ℕ) (test_sched1 test_sched2 : ℕ)
    (boot : BootArgs) (fuel : ℕ) (events : List Event) (c : Console) (name : List ℕ) (root : Folder)
    (at : c.fs.folder_at root_path ≡ some root) (unused : c.fs.folder_at c.fs.info_start ≡ none)
    (fresh : Fresh c.fs name root.folder_list)
    → Holds c.shell (mkdir_line name)
    → Plain name
    → length name < 100
    → 0 < c.fs.info_start
    → c.fs.info_start + sizeof_folder ≤ 0x122000000
    → (c' : Console) × (handle_cmd stale paging base size test_sched1 test_sched2 boot fuel events c
        ≡ done (some (pos 1), c', []))
      × Holds c'.shell []
      × (c'.shell.handle_cmd_flag ≡ false)
      × (c'.shell.enabled ≡ c.shell.enabled)
      × (c'.fs.folder_at root_path
          ≡ some (
              linked c.fs root_path root name at unused (slot_of c.fs name root.folder_list fresh)))
      × (c'.fs.folder_at c.fs.info_start ≡ some (empty_folder name))
      × (find_folder c'.fs name 0
            (linked c.fs root_path root name at unused
              (slot_of c.fs name root.folder_list fresh)).folder_list
          ≡ done (some (slot_of c.fs name root.folder_list fresh)))
unfolding handle_cmd
handle_cmd_mkdir stale paging base size test_sched1 test_sched2 boot fuel events c name root at
      unused fresh h plain short start_pos room =
    let (sh, taken, empty) = Taken-done (mkdir_line name) (take_line shell_buf_size c.shell 0) (
      take_line-Taken shell_buf_size c.shell (mkdir_line name) 0 h h.short
        (omega (arith, h.short))) in
    let (fs', fs'', made, new, parent, found, gone, back) =
      create_folder_lem c.fs root_path root name at unused fresh start_pos room
        (omega (arith, short)) in
    (
      record c { shell = record sh { handle_cmd_flag = false }; fs = fs' },
      rw
          (
            taken,
            run_mkdir stale paging base size test_sched1 test_sched2 boot fuel events
                (record c { shell = sh }) name fs' plain short made,
          )
          refl,
      record {
        size = empty.size;
        start_in = empty.start_in;
        short = empty.short;
        end_at = empty.end_at;
        ring = empty.ring;
      },
      refl,
      take_line_enabled shell_buf_size c.shell 0 (mkdir_line name) sh taken,
      parent,
      new,
      found,
    )
