-- ===== src/Fs/Paths.antt =====
-- kernel/fs/fs.c: the operations that split a name or a path. The last row that `split` fills has no
-- NUL, so a reader of it goes on into what the stack holds: `stale`, up to the next NUL.
use echo_os.Base.{
  ℕ, ◌+◌, not, ◌&&◌, ◌||◌, List, [], ◌∷◌, ◌++◌, Option, none, some, Exec, done, fault, ◌>>=◌, ltb,
  ◌==◌, if◌then◌else◌, length, get_or, set,
}
use echo_os.Base.Int.{ℤ, pos, negsuc}
use echo_os.Utils.Split.{split}
use echo_os.Fs.{
  Folder, Fs, same_text, root_path, sizeof_folder, sizeof_file, fs_info_malloc, fs_malloc,
  first_null, put_folder, put_file, through, find_folder, find_file,
}

abbrev last_row : List ℕ → List (List ℕ) → List ℕ
last_row row [] = row
last_row row (r ∷ rows) = last_row r rows

-- The new file, with its pointer in slot `i` of the folder at `p`. The name has room for 128
-- characters and the type for 16. Where `fs_malloc` returns 0 the file has no data.
abbrev fill_file : ℕ → Folder → List ℕ → List ℕ → ℕ → ℕ → ℕ × Fs → Exec (ℤ × Fs)
fill_file p folder name kind i q (p_data, fs) =
    if ltb (length kind) 16
    then done (
      pos i,
      put_file (put_folder fs p (record folder { file_list = set folder.file_list i q })) q
          (record { file_name = name; file_type = kind; file_p = p_data; file_size = 4096 }),
    )
    else fault

abbrev add_file : ℕ → Folder → List ℕ → List ℕ → ℕ → ℕ × Fs → Exec (ℤ × Fs)
add_file p folder name kind i (q, fs) =
    if (q == 0) || not (ltb (length name) 128)
    then fault
    else fill_file p folder name kind i q (fs_malloc fs 4096)

-- From the return of `split` on; a name with one row has no dot.
abbrev typed_file : Fs → ℕ → Folder → List ℕ → List ℕ → ℕ → List (List ℕ) → Exec (ℤ × Fs)
typed_file fs p folder name stale i [] = done (negsuc 0, fs)
typed_file fs p folder name stale i (row ∷ []) = done (negsuc 0, fs)
typed_file fs p folder name stale i (row ∷ (r ∷ rows)) =
    add_file p folder name (last_row r rows ++ stale) i (fs_info_malloc fs sizeof_file)

abbrev file_in : Fs → ℕ → Folder → List ℕ → List ℕ → Option ℕ → Exec (ℤ × Fs)
file_in fs p folder name stale none = done (negsuc 0, fs)
file_in fs p folder name stale (some i) =
    split (length name + 1) name (46 ∷ []) >>= typed_file fs p folder name stale i

unfoldable pub create_file : List ℕ → Fs → ℕ → List ℕ → Exec (ℤ × Fs)
create_file stale fs p name =
    through (fs.folder_at p)
      (λ folder. file_in fs p folder name stale (first_null 0 folder.file_list))

-- The `while` of `path_als`: the folder that the last name is sought in, and this name; `none` where
-- a folder on the way is not there.
unfoldable pub walk : Fs → ℕ → List ℕ → List (List ℕ) → Exec (Option (ℕ × List ℕ))
walk fs dst row [] = done (some (dst, row))
walk fs dst row (r ∷ rows) =
    let enter = λ (i : ℕ) (folder : Folder). walk fs (get_or folder.folder_list i 0) r rows in
    through (fs.folder_at dst) (λ folder. find_folder fs row 0 folder.folder_list >>= λ found.
    elim found [ none ↦ done none | some i ↦ enter i folder ])

-- What `path_als` returns for the index that was found in the files of the folder at `dst`. A
-- folder (type 0) is looked up among the files, too.
abbrev pick_pointer : ℕ → ℕ → Folder → Option ℕ → ℕ
pick_pointer kind dst folder none = 0
pick_pointer kind dst folder (some j) =
    if kind == 0
    then get_or folder.folder_list j 0
    else if kind == 1
    then get_or folder.file_list j 0
    else dst

abbrev at_end : List ℕ → Fs → ℕ → Option (ℕ × List ℕ) → Exec ℕ
at_end stale fs kind none = done 0
at_end stale fs kind (some (dst, row)) =
    if ltb 2 kind
    then done dst
    else through (fs.folder_at dst) (λ folder.
      find_file fs (row ++ stale) 0 folder.file_list >>= λ found.
      done (pick_pointer kind dst folder found))

abbrev walk_rows : Fs → List (List ℕ) → Exec (Option (ℕ × List ℕ))
walk_rows fs [] = fault
walk_rows fs (row ∷ rows) = walk fs root_path row rows

-- `path[0] == '/'`
abbrev relative : List ℕ → List ℕ
relative [] = []
relative (c ∷ path) = if c == 47 then path else c ∷ path

-- The pointer; `kind` 0 asks for a folder, 1 for a file and 2 for the folder of a file.
unfoldable pub path_als : List ℕ → Fs → List ℕ → ℕ → Exec ℕ
path_als stale fs path kind = split (length path + 1) (relative path) (47 ∷ []) >>= λ rows.
    if same_text path (47 ∷ []) && (kind == 0)
    then done root_path
    else walk_rows fs rows >>= at_end stale fs kind

-- The first loop to the end of `move_file`: the file of the source's folder with its name loses
-- its data.
unfoldable pub clear_moved : Fs → List ℕ → List ℕ → Exec Fs
clear_moved fs name [] = done fs
clear_moved fs name (p ∷ ps) =
    let rest = clear_moved fs name ps in
    through (fs.file_at p) (λ file.
      if same_text file.file_name name
      then done (put_file fs p (record file { file_p = 0 }))
      else rest)

abbrev move_file_to : Fs → ℕ → ℕ → ℕ → Option ℕ → Exec Fs
move_file_to fs dst src src_folder none = done fs
move_file_to fs dst src src_folder (some i) = through (fs.file_at src) (λ file.
    through (fs.folder_at src_folder) (λ from.
      clear_moved fs file.file_name from.file_list >>= λ fs'.
      through (fs'.folder_at dst)
        (λ to. done (put_folder fs' dst (record to { file_list = set to.file_list i src })))))

-- With the three pointers that `path_als` gave.
unfoldable pub move_file_found : Fs → ℕ → ℕ → ℕ → Exec Fs
move_file_found fs dst src src_folder =
    if (dst == 0) || ((src == 0) || (src_folder == 0))
    then done fs
    else through (fs.folder_at dst)
        (λ to. move_file_to fs dst src src_folder (first_null 0 to.file_list))

-- Each of the three calls of `path_als` finds its own `stale`.
unfoldable pub move_file : (ℕ → List ℕ) → Fs → List ℕ → List ℕ → Exec Fs
move_file stale fs dst src = path_als (stale 0) fs dst 0 >>= λ dst_p.
    path_als (stale 1) fs src 1 >>= λ src_p.
    path_als (stale 2) fs src 2 >>= λ src_folder_p. move_file_found fs dst_p src_p src_folder_p

-- The loop of `move_folder`: it compares the names of the files, and the index is that of a folder.
unfoldable pub find_moved : Fs → List ℕ → ℕ → List ℕ → Exec (Option ℕ)
find_moved fs name i [] = done none
find_moved fs name i (p ∷ ps) =
    let rest = find_moved fs name (i + 1) ps in
    through (fs.file_at p) (λ file. if same_text file.file_name name then done (some i) else rest)

abbrev unlink : Fs → ℕ → Folder → Option ℕ → Fs
unlink fs p folder none = fs
unlink fs p folder (some j) =
    put_folder fs p (record folder { folder_list = set folder.folder_list j 0 })

abbrev move_folder_to : Fs → ℕ → ℕ → ℕ → Option ℕ → Exec Fs
move_folder_to fs dst src src_folder none = done fs
move_folder_to fs dst src src_folder (some i) = through (fs.folder_at src) (λ folder.
    through (fs.folder_at src_folder) (λ from.
      find_moved fs folder.folder_name 0 from.file_list >>= λ found.
      let fs' = unlink fs src_folder from found in
      through (fs'.folder_at dst)
        (λ to. done (put_folder fs' dst (record to { folder_list = set to.folder_list i src })))))

unfoldable pub move_folder_found : Fs → ℕ → ℕ → ℕ → Exec Fs
move_folder_found fs dst src src_folder =
    if (dst == 0) || ((src == 0) || (src_folder == 0))
    then done fs
    else through (fs.folder_at dst)
        (λ to. move_folder_to fs dst src src_folder (first_null 0 to.folder_list))

unfoldable pub move_folder : (ℕ → List ℕ) → Fs → List ℕ → List ℕ → Exec Fs
move_folder stale fs dst src = path_als (stale 0) fs dst 0 >>= λ dst_p.
    path_als (stale 1) fs src 0 >>= λ src_p.
    path_als (stale 2) fs src 2 >>= λ src_folder_p. move_folder_found fs dst_p src_p src_folder_p

-- The root is the first structure of the area; what it holds is left as it is.
unfoldable pub fs_init : Fs → Fs
fs_init fs =
    (fs_info_malloc (record fs { info_start = root_path; alloc_start = 0x122000000 })
      sizeof_folder).1
