-- ===== src/Shell/Listing.antt =====
-- kernel/shell/shell.c: the commands that only print.
use echo_os.Base.{ℕ, ◌+◌, List, [], ◌∷◌, ◌++◌, some, Exec, done, ◌>>=◌, ◌==◌, if◌then◌else◌, length}
use echo_os.Base.Int.{pos}
use echo_os.Base.Text.{codes}
use echo_os.Fs.{Fs, through}
use echo_os.Sysio.Print.{int, ulong, text, printf}
use echo_os.Shell.Console.{BootArgs}

unfoldable pub show_help : List ℕ
show_help =
    codes "\thelp: show help\n"
    ++ (codes "\texit: exit the shell\n"
        ++ (codes "\tmemmap: print the memory map\n"
            ++ (codes "\tclock: a tool to show time interrupt\n"
                ++ (codes "\t\t-s    reset clock\n"
                    ++ (codes "\t\t-p    print present clock\n"
                        ++ (codes "\t\t-f    modify the speed level\n"
                            ++ codes "\tbootparam: show boot parameter\n"))))))

unfoldable pub print_args : ℕ → List (List ℕ) → Exec (List ℕ)
print_args i [] = done []
print_args i (arg ∷ args) =
    printf (codes "\tcmd arg %d: %s\n") (int (pos i) ∷ (text (some arg) ∷ [])) >>= λ out.
    print_args (i + 1) args >>= λ more. done (out ++ more)

unfoldable pub bootparam_cmd : BootArgs → Exec (List ℕ)
bootparam_cmd boot =
    printf (codes "\tThere is %d args for kernel:\n") (int (pos (length boot.args)) ∷ []) >>= λ out.
    print_args 0 boot.args >>= λ args.
    printf (codes "\tefi system table at %p\n") (ulong boot.systemtable ∷ []) >>= λ table.
    printf (codes "\tefi extend list at %p\n") (ulong boot.extlist ∷ []) >>= λ list.
    done (out ++ (args ++ (table ++ list)))

-- The loops of `ls`. A file's pointer is read through without a test.
unfoldable pub list_files : Fs → List ℕ → Exec (List ℕ)
list_files fs [] = done []
list_files fs (p ∷ ps) =
    let rest : List ℕ → Exec (List ℕ) = λ out. list_files fs ps >>= λ more. done (out ++ more) in
    through (fs.file_at p) (λ file.
      if file.file_p == 0
      then rest []
      else printf (codes "%s    %p    %d    %s\n") (
          text (some file.file_name)
          ∷ (ulong file.file_p ∷ (int (pos file.file_size) ∷ (text (some file.file_type) ∷ []))))
        >>= rest)

unfoldable pub list_folders : Fs → List ℕ → Exec (List ℕ)
list_folders fs [] = done []
list_folders fs (p ∷ ps) =
    let rest : List ℕ → Exec (List ℕ) = λ out. list_folders fs ps >>= λ more. done (out ++ more) in
    if p == 0
    then rest []
    else through (fs.folder_at p) (λ folder.
      printf (codes "%s    %p    ----    dir\n") (text (some folder.folder_name) ∷ (ulong p ∷ []))
      >>= rest)

unfoldable pub ls_cmd : Fs → ℕ → Exec (List ℕ)
ls_cmd fs p = through (fs.folder_at p) (λ folder. list_files fs folder.file_list >>= λ files.
    list_folders fs folder.folder_list >>= λ folders.
    done (codes "file name | address | file size | file type\n" ++ (files ++ folders)))
