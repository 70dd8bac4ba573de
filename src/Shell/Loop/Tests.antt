-- ===== src/Shell/Loop/Tests.antt =====
-- kernel/shell/shell.c, `entry_shell`: a session with "mkdir ab" and "exit".
use echo_os.Base.{ℕ, false, List, [], ◌∷◌, some, done, ◌≡◌, refl, arith, inl}
use echo_os.Base.Text.{codes}
use echo_os.Fs.{root_path, find_folder}
use echo_os.Fs.Folders.{slot_of, empty_folder, linked}
use echo_os.Shell.Line.{Holds}
use echo_os.Shell.Console.{Console}
use echo_os.Shell.Samples.{fresh, root_folder, disk, console, paging, boot}
use echo_os.Shell.Command.Mkdir.{mkdir_line}
use echo_os.Shell.Loop.{entry_shell}
use echo_os.Shell.Loop.Whole.{lines, session_text, entry_shell_mkdir}

abbrev ab : List ℕ
ab = codes "ab"

entry_shell_mkdir_example :
    (c' : Console) × (entry_shell
        (λ n. [])
        paging
        100
        4
        1000
        2000
        boot
        0
        (lines (mkdir_line ab ∷ (codes "exit" ∷ [])))
        (console fresh)
      ≡ done (c', session_text ab))
    × (c'.shell.enabled ≡ false)
    × Holds c'.shell []
    × (c'.fs.folder_at root_path
        ≡ some (
            linked disk root_path root_folder ab refl refl
              (slot_of disk ab root_folder.folder_list (inl refl))))
    × (c'.fs.folder_at disk.info_start ≡ some (empty_folder ab))
    × (find_folder c'.fs ab 0
          (linked disk root_path root_folder ab refl refl
            (slot_of disk ab root_folder.folder_list (inl refl))).folder_list
        ≡ done (some (slot_of disk ab root_folder.folder_list (inl refl))))
entry_shell_mkdir_example =
    entry_shell_mkdir (λ n. []) paging 100 4 1000 2000 boot 0 (console fresh) ab root_folder refl
      refl (inl refl) (omega arith) refl refl (refl, refl, (refl, refl, tt))
      (refl, refl, refl, (refl, refl, refl, tt)) (omega arith) (omega arith) (omega arith)
