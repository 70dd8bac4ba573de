-- ===== src/Shell/Samples.antt =====
-- A shell that waits for its first line.
use echo_os.Base.{◌+◌, true, false, [], none, some, replicate, refl, arith}
use echo_os.Base.Int.{pos}
use echo_os.Fs.{Folder, Fs, root_path, sizeof_folder, change}
use echo_os.Sched.Samples.{sched_with}
use echo_os.Sched.Fork.{Paging}
use echo_os.Shell.Console.{Console, BootArgs}
use echo_os.Shell.{Shell, shell_buf_size}
use echo_os.Shell.Line.{Holds}

abbrev pub fresh : Shell
fresh = record {
  enabled = true;
  handle_cmd_flag = false;
  buf = replicate shell_buf_size 0;
  start_ptr = 0;
  end_ptr = 0;
}

pub fresh-Holds : Holds fresh []
fresh-Holds = record {
  size = refl;
  start_in = omega arith;
  short = omega arith;
  end_at = refl;
  ring = tt;
}

-- A console with an empty root folder.
abbrev pub root_folder : Folder
root_folder = record { folder_name = []; file_list = replicate 16 0; folder_list = replicate 16 0 }

abbrev pub disk : Fs
disk = record {
  folder_at = change (λ q. none) root_path (some root_folder);
  file_at = λ q. none;
  info_start = root_path + sizeof_folder;
  alloc_start = 0x122000000;
}

abbrev pub console : Shell → Console
console sh = record {
  shell = sh;
  time_n = 7;
  freq = 0x00800000;
  csrs = λ r. 0;
  fs = disk;
  memory = λ q. 0;
  sched = sched_with (pos 3) [];
  heap = record { bitmap = []; last = 0; memory = λ q. 0 };
}

abbrev pub paging : Paging
paging = record { get_limit = λ n. 0; copy_page_tables = λ a b n. false }

abbrev pub boot : BootArgs
boot = record { args = []; systemtable = 0; extlist = 0 }
