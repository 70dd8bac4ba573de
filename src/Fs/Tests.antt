-- ===== src/Fs/Tests.antt =====
-- kernel/fs/fs.c: a root with one folder in it, and a file in that.
use echo_os.Base.{
  ℕ, ◌+◌, List, [], ◌∷◌, ◌++◌, none, some, done, ◌≡◌, ◌≢◌, refl, arith, set, replicate, inl, inr,
}
use echo_os.Base.Int.{pos}
use echo_os.Utils.Split.{split, split_from}
use echo_os.Fs.{
  FileInfo, Folder, Fs, root_path, sizeof_folder, create_folder, find_folder, find_file, del_folder,
  del_file, change,
}
use echo_os.Fs.Paths.{path_als, walk, move_file}
use echo_os.Fs.Moving.{move_file_lem}
use echo_os.Fs.Paths.{create_file}
use echo_os.Fs.Files.{FreshFile, file_slot, dotted, new_file, listed, create_file_lem}
use echo_os.Fs.Folders.{Fresh, slot_of, empty_folder, linked, create_folder_lem}

-- "ab" and "n.c"
abbrev ab : List ℕ
ab = 97 ∷ 98 ∷ []

abbrev nc : List ℕ
nc = 110 ∷ 46 ∷ 99 ∷ []

abbrev note : FileInfo
note = record { file_name = nc; file_type = 99 ∷ []; file_p = 0x122000000; file_size = 4096 }

abbrev root_folder : Folder
root_folder = record {
  folder_name = [];
  file_list = replicate 16 0;
  folder_list = 500 ∷ replicate 15 0;
}

abbrev sub_folder : Folder
sub_folder = record {
  folder_name = ab;
  file_list = 900 ∷ replicate 15 0;
  folder_list = replicate 16 0;
}

abbrev disk : Fs
disk = record {
  folder_at = change (change (λ q. none) root_path (some root_folder)) 500 (some sub_folder);
  file_at = change (λ q. none) 900 (some note);
  info_start = root_path + sizeof_folder;
  alloc_start = 0x122001000;
}

-- "/ab/n.c" is found as a file.
find_note : path_als [] disk (47 ∷ (ab ++ (47 ∷ nc))) 1 ≡ done 900
unfolding path_als split split_from walk find_folder find_file
find_note = refl

new_fresh : Fresh disk nc root_folder.folder_list
new_fresh = inr ((λ e. omega (arith, e)), (sub_folder, refl, refl, inl refl))

create_folder_lem_example :
    (fs' : Fs) × (fs'' : Fs) × (create_folder disk root_path nc ≡ done fs')
    × (fs'.folder_at disk.info_start ≡ some (empty_folder nc))
    × (fs'.folder_at root_path
        ≡ some (
            linked disk root_path root_folder nc refl refl
              (slot_of disk nc root_folder.folder_list new_fresh)))
    × (find_folder fs' nc 0
          (linked disk root_path root_folder nc refl refl
            (slot_of disk nc root_folder.folder_list new_fresh)).folder_list
        ≡ done (some (slot_of disk nc root_folder.folder_list new_fresh)))
    × (del_folder fs' root_path nc ≡ done fs'')
    × (fs''.folder_at root_path ≡ some root_folder)
create_folder_lem_example =
    create_folder_lem disk root_path root_folder nc refl refl new_fresh (omega arith) (omega arith)
      (omega arith)

-- "/ab/n.c" is moved to the root.
abbrev note_path : List ℕ
note_path = 47 ∷ (ab ++ (47 ∷ nc))

to_root : path_als [] disk (47 ∷ []) 0 ≡ done root_path
unfolding path_als split split_from
to_root = refl

from_ab : path_als [] disk note_path 2 ≡ done 500
unfolding path_als split split_from walk find_folder find_file
from_ab = refl

move_file_lem_example :
    (fs' : Fs) × (move_file (λ n. []) disk (47 ∷ []) note_path ≡ done fs')
    × (fs'.folder_at root_path
        ≡ some (record root_folder { file_list = set root_folder.file_list 0 900 }))
    × (fs'.file_at 900 ≡ some (record note { file_p = 0 }))
    × ((name : List ℕ) (j : ℕ) (ps : List ℕ)
        → find_file fs' name j (900 ∷ ps) ≡ find_file fs' name (j + 1) ps)
    × ((p : ℕ) → p ≢ root_path → fs'.folder_at p ≡ disk.folder_at p)
    × ((p : ℕ) → p ≢ 900 → fs'.file_at p ≡ disk.file_at p)
move_file_lem_example =
    move_file_lem (λ n. []) disk (47 ∷ []) note_path root_path 900 500 0 root_folder sub_folder note
      to_root find_note from_ab (λ e. omega (arith, e)) (λ e. omega (arith, e))
      (λ e. omega (arith, e)) refl refl refl refl (inl refl)

-- "m.c" beside "n.c"
abbrev m_name : List ℕ
m_name = 109 ∷ []

abbrev c_type : List ℕ
c_type = 99 ∷ []

m_fresh : FreshFile disk (dotted m_name c_type) sub_folder.file_list
m_fresh = inr ((λ e. omega (arith, e)), (note, refl, refl, inl refl))

create_file_lem_example :
    (fs' : Fs) × (fs'' : Fs) × (create_file [] disk 500 (dotted m_name c_type)
      ≡ done (pos (file_slot disk (dotted m_name c_type) sub_folder.file_list m_fresh), fs'))
    × (fs'.folder_at 500
        ≡ some (
            listed disk sub_folder
              (file_slot disk (dotted m_name c_type) sub_folder.file_list m_fresh)))
    × (fs'.file_at disk.info_start ≡ some (new_file disk (dotted m_name c_type) (c_type ++ [])))
    × (fs'.alloc_start ≡ disk.alloc_start + 4096)
    × (find_file fs'
          (dotted m_name c_type)
          0
          (listed disk sub_folder
            (file_slot disk (dotted m_name c_type) sub_folder.file_list m_fresh)).file_list
        ≡ done (some (file_slot disk (dotted m_name c_type) sub_folder.file_list m_fresh)))
    × (del_file fs' 500 (dotted m_name c_type) ≡ done fs'')
    × (fs''.file_at disk.info_start
        ≡ some (record (new_file disk (dotted m_name c_type) (c_type ++ [])) { file_p = 0 }))
    × (fs''.folder_at ≡ fs'.folder_at)
    × ((r : ℕ)
        → r ≢ disk.info_start
        → (fs'.file_at r ≡ disk.file_at r) × (fs''.file_at r ≡ disk.file_at r))
    × ((r : ℕ) → r ≢ 500 → fs'.folder_at r ≡ disk.folder_at r)
create_file_lem_example =
    create_file_lem disk 500 sub_folder m_name c_type [] refl refl m_fresh (refl, tt) (refl, tt)
      (omega arith) (omega arith) (omega arith) (omega arith) (omega arith) (omega arith)
