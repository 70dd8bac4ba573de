-- ===== src/Shell/Command/Touch.antt =====
-- kernel/shell/shell.c, `touch`: from the line in the ring to the file.
use echo_os.Base.{
  ℕ, ◌+◌, ◌<◌, ◌≤◌, false, List, [], ◌∷◌, ◌++◌, none, some, done, length, ◌≡◌, refl, arith,
}
use echo_os.Base.Int.{pos}
use echo_os.Base.Text.{codes}
use echo_os.Utils.Split.{split, split_from}
use echo_os.Utils.Split.Join.{Without}
use echo_os.Utils.Split.Word.{length-pair}
use echo_os.Fs.{Folder, Fs, root_path, sizeof_file, find_file}
use echo_os.Fs.Paths.{path_als, create_file}
use echo_os.Fs.Files.{FreshFile, file_slot, dotted, new_file, listed, create_file_lem}
use echo_os.Sched.Fork.{Paging}
use echo_os.App.Vim.Session.{Event}
use echo_os.Shell.{shell_buf_size, take_line}
use echo_os.Shell.Line.{Holds}
use echo_os.Shell.Take.{take_line-Taken}
use echo_os.Shell.Console.{Console, BootArgs, argument, say}
use echo_os.Shell.Command.{touch_cmd, run_cmd, handle_cmd}
use echo_os.Shell.Command.Words.{Plain, text_of-Plain, split_line_lem}
use echo_os.Shell.Command.Mkdir.{Taken-done}

abbrev touch_word : List ℕ
touch_word = codes "touch"

touch-Plain : Plain touch_word
touch-Plain = (refl, refl, (refl, refl, (refl, refl, (refl, refl, (refl, refl, tt)))))

abbrev pub touch_line : List ℕ → List ℕ
touch_line name = touch_word ++ (32 ∷ name)

argument_lem : (name : List ℕ) → Plain name → argument (touch_line name) ≡ name
argument_lem name plain = text_of-Plain name plain

module _ (stale : ℕ → List ℕ) (paging : Paging) (base size : ℕ) (test_sched1 test_sched2 : ℕ)
    (boot : BootArgs) (fuel : ℕ) (events : List Event) where
  root_lem : (c : Console) → path_als (stale 0) c.fs (codes "/") 0 ≡ done root_path
  unfolding path_als split split_from
  root_lem c = refl

  run_touch :
      (c : Console) (name : List ℕ) (i : ℕ) (fs' : Fs)
      → Plain name
      → length name < 100
      → create_file (stale 1) c.fs root_path name ≡ done (pos i, fs')
      → run_cmd stale paging base size test_sched1 test_sched2 boot fuel events (touch_line name) c
        ≡ say (pos 1) (record c { fs = fs' }) []
  unfolding run_cmd touch_cmd
  run_touch c name i fs' plain short made =
      rw
        (
          root_lem c,
          split_line_lem touch_word name touch-Plain plain (omega arith) short,
          argument_lem name plain,
          made,
        )
        refl

-- On a shell whose ring has the line "touch base.kind", of fewer than 100 characters behind the blank,
-- none of them a blank or a NUL and one of them a dot, `handle_cmd` ends and returns 1 with nothing
-- printed, when the type fits with what the stack holds behind it, when the root folder has a free slot
-- and, before it, only files of other names, and when both areas have room, the memory at the start of
-- the first is unused, and neither starts at 0. The root folder then has the pointer to the file in
-- that slot and is otherwise as it was; a search of its list under the name that was typed finds the
-- file there, which has 4096 bytes at the old start of the data area; the ring is empty, and the flag that a
-- line is complete is down.
pub handle_cmd_touch :
    (stale : ℕ → List ℕ) (paging : Paging) (base size : ℕ) (test_sched1 test_sched2 : ℕ)
    (boot : BootArgs) (fuel : ℕ) (events : List Event) (c : Console) (stem kind : List ℕ)
    (root : Folder) (at : c.fs.folder_at root_path ≡ some root)
    (unused : c.fs.file_at c.fs.info_start ≡ none)
    (fresh : FreshFile c.fs (dotted stem kind) root.file_list)
    → Holds c.shell (touch_line (dotted stem kind))
    → Plain (dotted stem kind)
    → Without 46 stem
    → Without 46 kind
    → length (dotted stem kind) < 100
    → length (kind ++ stale 1) < 16
    → 0 < c.fs.info_start
    → c.fs.info_start + sizeof_file ≤ 0x122000000
    → 0 < c.fs.alloc_start
    → c.fs.alloc_start + 4096 ≤ 0x130000000
    → (c' : Console) × (handle_cmd stale paging base size test_sched1 test_sched2 boot fuel events c
        ≡ done (some (pos 1), c', []))
      × Holds c'.shell []
      × (c'.shell.handle_cmd_flag ≡ false)
      × (c'.fs.folder_at root_path
          ≡ some (listed c.fs root (file_slot c.fs (dotted stem kind) root.file_list fresh)))
      × (c'.fs.file_at c.fs.info_start ≡ some (new_file c.fs (dotted stem kind) (kind ++ stale 1)))
      × (find_file c'.fs
            (dotted stem kind)
            0
            (listed c.fs root (file_slot c.fs (dotted stem kind) root.file_list fresh)).file_list
          ≡ done (some (file_slot c.fs (dotted stem kind) root.file_list fresh)))
unfolding handle_cmd
handle_cmd_touch stale paging base size test_sched1 test_sched2 boot fuel events c stem kind root at
      unused fresh h plain no_dot no_dot' short short' start room data_start data_room =
    let name = dotted stem kind in
    let k = file_slot c.fs name root.file_list fresh in
    let (sh, taken, empty) = Taken-done (touch_line name) (take_line shell_buf_size c.shell 0) (
      take_line-Taken shell_buf_size c.shell (touch_line name) 0 h h.short
        (omega (arith, h.short))) in
    let (fs', fs'', made, parent, there, moved, found, gone, cleared, same, files, folders) =
      create_file_lem c.fs root_path root stem kind (stale 1) at unused fresh no_dot no_dot'
        (omega (arith, short, length-pair stem kind 46)) short' start room data_start data_room in
    (
      record c { shell = record sh { handle_cmd_flag = false }; fs = fs' },
      rw
          (
            taken,
            run_touch stale paging base size test_sched1 test_sched2 boot fuel events
                (record c { shell = sh }) name k fs' plain short made,
          )
          refl,
      record {
        size = empty.size;
        start_in = empty.start_in;
        short = empty.short;
        end_at = empty.end_at;
        ring = empty.ring;
      },
      refl,
      parent,
      there,
      found,
    )
