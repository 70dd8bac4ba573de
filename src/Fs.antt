-- ===== src/Fs.antt =====
-- kernel/fs/fs.c: the file system, a tree of folders in memory. A pointer is its address, and 0 is the
-- null pointer; `folder_at` and `file_at` give the structures that have been made. Messages that are
-- printed are left out.
pub mod Paths
pub mod Folders
pub mod Files
pub mod Moving
mod Tests
use echo_os.Base.{
  ℕ, zero, suc, ◌+◌, ◌-◌, ◌*◌, Bool, true, false, not, ◌&&◌, ◌||◌, List, [], ◌∷◌, ◌++◌, Option,
  none, some, Exec, done, fault, ◌>>=◌, ltb, ◌==◌, if◌then◌else◌, length, get_or, set, replicate,
}
use echo_os.Base.Int.{ℤ, pos, negsuc}
use echo_os.Utils.Split.{split}

pub record FileInfo : Type 0 where
  pub file_name : List ℕ
  pub file_type : List ℕ
  pub file_p : ℕ
  pub file_size : ℕ

pub record Folder : Type 0 where
  pub folder_name : List ℕ
  pub file_list : List ℕ
  pub folder_list : List ℕ

pub record Fs : Type 0 where
  pub folder_at : ℕ → Option Folder
  pub file_at : ℕ → Option FileInfo
  pub info_start : ℕ
  pub alloc_start : ℕ

-- Two texts are equal, as `strcmp` finds with 0.
abbrev pub same_text : List ℕ → List ℕ → Bool
same_text [] [] = true
same_text [] (d ∷ t) = false
same_text (c ∷ s) [] = false
same_text (c ∷ s) (d ∷ t) = (c == d) && same_text s t

abbrev pub root_path : ℕ
root_path = 0x120000000

-- sizeof(struct file_folder) and sizeof(struct file_info)
abbrev pub sizeof_folder : ℕ
sizeof_folder = 384

abbrev pub sizeof_file : ℕ
sizeof_file = 160

-- The start moves on even where 0 is returned.
unfoldable pub fs_info_malloc : Fs → ℕ → ℕ × Fs
fs_info_malloc fs size =
    let next = fs.info_start + size in
    (if ltb 0x122000000 next then 0 else fs.info_start, record fs { info_start = next })

unfoldable pub fs_malloc : Fs → ℕ → ℕ × Fs
fs_malloc fs size =
    let next = fs.alloc_start + size in
    (if ltb 0x130000000 next then 0 else fs.alloc_start, record fs { alloc_start = next })

-- The first null pointer of a list of 16.
abbrev pub first_null : ℕ → List ℕ → Option ℕ
first_null i [] = none
first_null i (p ∷ ps) = if p == 0 then some i else first_null (i + 1) ps

abbrev pub change {ℓ} : {A : Type ℓ} → (ℕ → A) → ℕ → A → ℕ → A
change f p v q = if q == p then v else f q

abbrev pub put_folder : Fs → ℕ → Folder → Fs
put_folder fs p folder = record fs { folder_at = change fs.folder_at p (some folder) }

abbrev pub put_file : Fs → ℕ → FileInfo → Fs
put_file fs p file = record fs { file_at = change fs.file_at p (some file) }

-- A field of the structure behind a pointer.
abbrev pub through {ℓ κ} : {A : Type ℓ} {B : Type κ} → Option A → (A → Exec B) → Exec B
through none f = fault
through (some a) f = f a

abbrev no_pointers : List ℕ
no_pointers = replicate 16 0

-- The new folder, with its pointer in slot `i` of the folder at `p`. A name of 128 characters or
-- more does not fit, and a null pointer is written through.
abbrev add_folder : ℕ → Folder → List ℕ → ℕ → ℕ × Fs → Exec Fs
add_folder p folder name i (q, fs) =
    if (q == 0) || not (ltb (length name) 128)
    then fault
    else done (
        put_folder (put_folder fs p (record folder { folder_list = set folder.folder_list i q })) q
          (record { folder_name = name; file_list = no_pointers; folder_list = no_pointers }))

abbrev create_in : Fs → ℕ → Folder → List ℕ → Option ℕ → Exec Fs
create_in fs p folder name none = done fs
create_in fs p folder name (some i) = add_folder p folder name i (fs_info_malloc fs sizeof_folder)

unfoldable pub create_folder : Fs → ℕ → List ℕ → Exec Fs
create_folder fs p name =
    through (fs.folder_at p)
      (λ folder. create_in fs p folder name (first_null 0 folder.folder_list))

-- The index of the first folder of a list with this name.
unfoldable pub find_folder : Fs → List ℕ → ℕ → List ℕ → Exec (Option ℕ)
find_folder fs name i [] = done none
find_folder fs name i (p ∷ ps) =
    let rest = find_folder fs name (i + 1) ps in
    if p == 0
    then rest
    else through (fs.folder_at p)
        (λ folder. if same_text name folder.folder_name then done (some i) else rest)

abbrev drop_folder : Fs → ℕ → Folder → Option ℕ → Fs
drop_folder fs p folder none = fs
drop_folder fs p folder (some i) =
    put_folder fs p (record folder { folder_list = set folder.folder_list i 0 })

unfoldable pub del_folder : Fs → ℕ → List ℕ → Exec Fs
del_folder fs p name = through (fs.folder_at p) (λ folder.
    find_folder fs name 0 folder.folder_list >>= λ found. done (drop_folder fs p folder found))

-- The index of the first file with data and this name: `file_p` is read before the pointer is tested.
unfoldable pub find_file : Fs → List ℕ → ℕ → List ℕ → Exec (Option ℕ)
find_file fs name i [] = done none
find_file fs name i (p ∷ ps) =
    let rest = find_file fs name (i + 1) ps in
    through (fs.file_at p) (λ file.
      if not (file.file_p == 0) && same_text name file.file_name then done (some i) else rest)

abbrev drop_file : Fs → Folder → Option ℕ → Exec Fs
drop_file fs folder none = done fs
drop_file fs folder (some i) =
    let p = get_or folder.file_list i 0 in
    through (fs.file_at p) (λ file. done (put_file fs p (record file { file_p = 0 })))

unfoldable pub del_file : Fs → ℕ → List ℕ → Exec Fs
del_file fs p name =
    through (fs.folder_at p)
      (λ folder. find_file fs name 0 folder.file_list >>= λ found. drop_file fs folder found)
