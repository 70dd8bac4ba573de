-- ===== src/Shell/Command/Tests.antt =====
-- kernel/shell/shell.c: commands.
use echo_os.Base.{ℕ, ◌-◌, [], List, some, done, ◌≡◌, refl, arith, replicate, ◌++◌, inl, false}
use echo_os.Fs.{root_path}
use echo_os.Base.Int.{pos}
use echo_os.Base.Text.{codes}
use echo_os.Sysio.Print.{printf, convert, printint, collect, backwards}
use echo_os.Shell.{Shell, shell_buf_size}
use echo_os.Shell.Line.{Holds}
use echo_os.Shell.Samples.{fresh, root_folder, disk, console, paging, boot}
use echo_os.Shell.Console.{Console, say}
use echo_os.Shell.Clock.{clock_cmd}
use echo_os.Shell.Command.{handle_cmd}
use echo_os.Shell.Command.Touch.{touch_line, handle_cmd_touch}
use echo_os.Fs.{find_file}
use echo_os.Fs.Files.{file_slot, dotted, new_file, listed}

-- A ring of 2048 places that starts with the line.
abbrev with_line : List ℕ → ℕ → Shell
with_line line n = record fresh { buf = line ++ replicate n 0; end_ptr = shell_buf_size - n }

-- "clock -p"
clock_run :
    clock_cmd (codes "clock -p") 6 (console fresh)
    ≡ say (pos 1) (console fresh) (codes "\tPresent clock:7\n")
unfolding clock_cmd printf convert printint collect backwards
clock_run = refl

abbrev ab : List ℕ
ab = codes "ab"

-- "touch ab.c"
abbrev c_type : List ℕ
c_type = codes "c"

touch_shell : Holds (with_line (touch_line (dotted ab c_type)) 2038) (touch_line (dotted ab c_type))
touch_shell = record {
  size = refl;
  start_in = omega arith;
  short = omega arith;
  end_at = refl;
  ring = (refl, (refl, (refl, (refl, (refl, (refl, (refl, (refl, (refl, (refl, tt))))))))));
}

handle_cmd_touch_example :
    (c' : Console) × (handle_cmd
        (λ n. [])
        paging
        100
        4
        1000
        2000
        boot
        0
        []
        (console (with_line (touch_line (dotted ab c_type)) 2038))
      ≡ done (some (pos 1), c', []))
    × Holds c'.shell []
    × (c'.shell.handle_cmd_flag ≡ false)
    × (c'.fs.folder_at root_path
        ≡ some (
            listed disk root_folder
              (file_slot disk (dotted ab c_type) root_folder.file_list (inl refl))))
    × (c'.fs.file_at disk.info_start ≡ some (new_file disk (dotted ab c_type) (c_type ++ [])))
    × (find_file c'.fs
          (dotted ab c_type)
          0
          (listed disk root_folder
            (file_slot disk (dotted ab c_type) root_folder.file_list (inl refl))).file_list
        ≡ done (some (file_slot disk (dotted ab c_type) root_folder.file_list (inl refl))))
handle_cmd_touch_example =
    handle_cmd_touch (λ n. []) paging 100 4 1000 2000 boot 0 []
      (console (with_line (touch_line (dotted ab c_type)) 2038)) ab c_type root_folder refl refl
      (inl refl) touch_shell (refl, refl, (refl, refl, (refl, refl, (refl, refl, tt))))
      (refl, (refl, tt)) (refl, tt) (omega arith) (omega arith) (omega arith) (omega arith)
      (omega arith) (omega arith)
