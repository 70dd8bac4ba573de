-- ===== src/Fs/Moving.antt =====
-- kernel/fs/fs.c, `move_file`: what becomes of the file.
use echo_os.Base.{
  ℕ, ◌+◌, true, false, ◌||◌, List, [], ◌∷◌, some, done, ◌==◌, ◌≡◌, refl, ap, ◌∙◌, ◌⊎◌, inl, inr,
  arith, set, ==_iff, ◌≢◌, Bool-cases,
}
use echo_os.Fs.{
  FileInfo, Folder, Fs, same_text, first_null, put_folder, put_file, change, find_file,
}
use echo_os.Fs.Paths.{path_als, clear_moved, move_file_found, move_file}

pub same : (n : ℕ) → (n == n) ≡ true
same n = (==_iff n n).1 refl

pub same_text_refl : (s : List ℕ) → same_text s s ≡ true
same_text_refl [] = refl
same_text_refl (c ∷ s) = rw (same c) (same_text_refl s)

pub change-here {ℓ} : {A : Type ℓ} (f : ℕ → A) (p : ℕ) (v : A) → change f p v p ≡ v
change-here f p v = rw (same p) refl

pub change-other {ℓ} : {A : Type ℓ} (f : ℕ → A) (p q : ℕ) (v : A) → q ≢ p → change f p v q ≡ f q
change-other f p q v ne = elim (Bool-cases (q == p)) [
  | inl e ↦ absurd (ne ((==_iff q p).0 e))
  | inr e ↦ rw e refl
]

-- The list comes to the file at `src` before any other file of its name.
abbrev Leads : Fs → ℕ → FileInfo → List ℕ → Type 0
Leads fs src file [] = ⊥
Leads fs src file (p ∷ ps) =
    (p ≡ src)
    ⊎ ((other : FileInfo) × (fs.file_at p ≡ some other)
        × (same_text other.file_name file.file_name ≡ false)
        × Leads fs src file ps)

abbrev emptied : FileInfo → FileInfo
emptied file = record file { file_p = 0 }

clear_moved_lem :
    (fs : Fs) (src : ℕ) (file : FileInfo) (ps : List ℕ)
    → fs.file_at src ≡ some file
    → Leads fs src file ps
    → clear_moved fs file.file_name ps ≡ done (put_file fs src (emptied file))
unfolding clear_moved
clear_moved_lem fs src file [] at leads = absurd leads
clear_moved_lem fs src file (p ∷ ps) at (inl e) =
    let at_p : fs.file_at p ≡ some file = ap fs.file_at e ∙ at in
    rw (at_p, same_text_refl file.file_name) (ap (λ q. done (put_file fs q (emptied file))) e)
clear_moved_lem fs src file (p ∷ ps) at (inr (other, at_p, differs, leads)) =
    rw (at_p, differs) (clear_moved_lem fs src file ps at leads)

-- A search by name passes a file without data over.
passed_over :
    (fs : Fs) (src : ℕ) (file : FileInfo) (name : List ℕ) (j : ℕ) (ps : List ℕ)
    → fs.file_at src ≡ some (emptied file)
    → find_file fs name j (src ∷ ps) ≡ find_file fs name (j + 1) ps
unfolding find_file
passed_over fs src file name j ps at = rw at refl

move_file_found_lem :
    (fs : Fs) (dst src src_folder i : ℕ) (to from : Folder) (file : FileInfo)
    → dst ≢ 0
    → src ≢ 0
    → src_folder ≢ 0
    → fs.folder_at dst ≡ some to
    → fs.folder_at src_folder ≡ some from
    → fs.file_at src ≡ some file
    → first_null 0 to.file_list ≡ some i
    → Leads fs src file from.file_list
    → move_file_found fs dst src src_folder
      ≡ done (
          put_folder
            (put_file fs src (emptied file))
            dst
            (record to { file_list = set to.file_list i src }))
unfolding move_file_found
move_file_found_lem fs dst src src_folder i to from file d s f at_dst at_from at_src free leads =
    let pointers : ((dst == 0) || ((src == 0) || (src_folder == 0))) ≡ false = ground arith in
    rw
      (
        pointers,
        at_dst,
        free,
        at_src,
        at_from,
        clear_moved_lem fs src file from.file_list at_src leads,
        at_dst,
      )
      refl

-- When the three lookups by `path_als` end, with pointers to a folder, a file and a folder that are
-- there, when the folder that is moved to has a first free slot `i`, and when the list of the folder
-- that is moved from comes to the file before any other of its name, then `move_file` ends. The folder
-- that is moved to then has the file in slot `i`, and the file has lost its data pointer, so that
-- `find_file` passes its pointer over in any list and for any name. Every other folder and every other
-- file is as before.
pub move_file_lem :
    (stale : ℕ → List ℕ) (fs : Fs) (dst_path src_path : List ℕ) (dst src src_folder i : ℕ)
    (to from : Folder) (file : FileInfo)
    → path_als (stale 0) fs dst_path 0 ≡ done dst
    → path_als (stale 1) fs src_path 1 ≡ done src
    → path_als (stale 2) fs src_path 2 ≡ done src_folder
    → dst ≢ 0
    → src ≢ 0
    → src_folder ≢ 0
    → fs.folder_at dst ≡ some to
    → fs.folder_at src_folder ≡ some from
    → fs.file_at src ≡ some file
    → first_null 0 to.file_list ≡ some i
    → Leads fs src file from.file_list
    → (fs' : Fs) × (move_file stale fs dst_path src_path ≡ done fs')
      × (fs'.folder_at dst ≡ some (record to { file_list = set to.file_list i src }))
      × (fs'.file_at src ≡ some (record file { file_p = 0 }))
      × ((name : List ℕ) (j : ℕ) (ps : List ℕ)
          → find_file fs' name j (src ∷ ps) ≡ find_file fs' name (j + 1) ps)
      × ((p : ℕ) → p ≢ dst → fs'.folder_at p ≡ fs.folder_at p)
      × ((p : ℕ) → p ≢ src → fs'.file_at p ≡ fs.file_at p)
unfolding move_file
move_file_lem stale fs dst_path src_path dst src src_folder i to from file to_dst to_src to_from d s
      f at_dst at_from at_src free leads =
    let ran =
      move_file_found_lem fs dst src src_folder i to from file d s f at_dst at_from at_src free
        leads in
    let fs' : Fs =
      put_folder (put_file fs src (emptied file)) dst
        (record to { file_list = set to.file_list i src }) in
    let cleared : fs'.file_at src ≡ some (emptied file) = change-here fs.file_at src _ in
    (
      fs',
      rw (to_dst, to_src, to_from) ran,
      change-here fs.folder_at dst _,
      cleared,
      (λ name j ps. passed_over fs' src file name j ps cleared),
      (λ p ne. change-other fs.folder_at dst p _ ne),
      λ p ne. change-other fs.file_at src p _ ne,
    )
