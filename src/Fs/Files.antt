-- ===== src/Fs/Files.antt =====
-- kernel/fs/fs.c, `create_file` and `del_file`: a file that is created is found by its name.
use echo_os.Base.{
  ℕ, suc, ◌+◌, ◌<◌, ◌≤◌, true, false, List, [], ◌∷◌, ◌++◌, none, some, done, ltb, ◌==◌, ◌≡◌, refl,
  ap, sym, ◌∙◌, arith, set, get_or, length, lt→ltb, ==_iff, ◌≢◌, Bool-cases, inl, inr, ◌⊎◌,
}
use echo_os.Base.Int.{pos}
use echo_os.Utils.Split.Join.{Without}
use echo_os.Utils.Split.Word.{length-pair, split_pair}
use echo_os.Fs.{
  FileInfo, Folder, Fs, same_text, first_null, put_folder, put_file, sizeof_file, fs_info_malloc,
  fs_malloc, find_file, del_file,
}
use echo_os.Fs.Paths.{create_file}
use echo_os.Fs.Moving.{same_text_refl, change-here, change-other}

-- Before its first null pointer the list has files of other names only.
abbrev pub FreshFile : Fs → List ℕ → List ℕ → Type 0
FreshFile fs name [] = ⊥
FreshFile fs name (p ∷ ps) =
    (p ≡ 0)
    ⊎ ((p ≢ 0)
        × ((other : FileInfo) × (fs.file_at p ≡ some other)
            × (same_text name other.file_name ≡ false)
            × FreshFile fs name ps))

-- The index of this null pointer.
abbrev pub file_slot : (fs : Fs) (name : List ℕ) (ps : List ℕ) → FreshFile fs name ps → ℕ
file_slot fs name [] fresh = 0
file_slot fs name (p ∷ ps) (inl e) = 0
file_slot fs name (p ∷ ps) (inr (p_pos, (other, at, differs, fresh))) =
    suc (file_slot fs name ps fresh)

module _ (fs fs' : Fs) (name : List ℕ) (q : ℕ) (q_pos : q ≢ 0) (file : FileInfo)
    (there : fs'.file_at q ≡ some file) (named : file.file_name ≡ name)
    (has_data : (file.file_p == 0) ≡ false)
    (kept : (r : ℕ) (other : FileInfo)
      → fs.file_at r ≡ some other
      → fs'.file_at r ≡ some other) where
  found_in :
      (i : ℕ) (ps : List ℕ) (fresh : FreshFile fs name ps)
      → (first_null i ps ≡ some (i + file_slot fs name ps fresh))
        × (find_file fs' name i (set ps (file_slot fs name ps fresh) q)
            ≡ done (some (i + file_slot fs name ps fresh)))
        × (get_or (set ps (file_slot fs name ps fresh) q) (file_slot fs name ps fresh) 0 ≡ q)
  unfolding find_file
  found_in i [] fresh = absurd fresh
  found_in i (p ∷ ps) (inl e) =
      let null : (p == 0) ≡ true = (==_iff p 0).1 e in
      let index : i + 0 ≡ i = omega arith in
      (
        rw null (ap some (sym index)),
        rw (there, has_data, named, same_text_refl name) (ap (λ n. done (some n)) (sym index)),
        refl,
      )
  found_in i (p ∷ ps) (inr (p_pos, (other, at, differs, fresh))) =
      let (free, found, got) = found_in (i + 1) ps fresh in
      let some_p : (p == 0) ≡ false = ground arith in
      let index : i + 1 + file_slot fs name ps fresh ≡ i + suc (file_slot fs name ps fresh) =
        omega arith in
      (
        rw some_p (free ∙ ap some index),
        elim (Bool-cases (other.file_p == 0)) [
          | inl e ↦ rw (kept p other at, e) (found ∙ ap (λ n. done (some n)) index)
          | inr e ↦ rw (kept p other at, e, differs) (found ∙ ap (λ n. done (some n)) index)
        ],
        got,
      )

abbrev pub dotted : List ℕ → List ℕ → List ℕ
dotted base kind = base ++ (46 ∷ kind)

longer : (kind stale : List ℕ) → length kind ≤ length (kind ++ stale)
longer [] stale = omega arith
longer (c ∷ kind) stale = omega (arith, longer kind stale)

-- What `create_file` puts into the folder, and the new file.
abbrev pub new_file : Fs → List ℕ → List ℕ → FileInfo
new_file fs name kind = record {
  file_name = name;
  file_type = kind;
  file_p = fs.alloc_start;
  file_size = 4096;
}

abbrev pub listed : Fs → Folder → ℕ → Folder
listed fs folder k = record folder { file_list = set folder.file_list k fs.info_start }

module _ (fs : Fs) (p : ℕ) (folder : Folder) (base kind stale : List ℕ)
    (at : fs.folder_at p ≡ some folder) (unused : fs.file_at fs.info_start ≡ none) where
  abbrev with_file : ℕ → Fs
  with_file k =
      put_file
        (put_folder
          (record fs {
            info_start = fs.info_start + sizeof_file;
            alloc_start = fs.alloc_start + 4096;
          })
          p (listed fs folder k))
        fs.info_start (new_file fs (dotted base kind) (kind ++ stale))

  files_kept :
      (k r : ℕ) (other : FileInfo)
      → fs.file_at r ≡ some other
      → (with_file k).file_at r ≡ some other
  files_kept k r other h =
      let ne : r ≢ fs.info_start = λ e. cc (h, unused, ap fs.file_at e) in
      change-other fs.file_at fs.info_start r _ ne ∙ h

  -- When the folder at `p` has a free slot and, before it, only files of names other than base.kind,
  -- neither part with a dot in it, and when both areas have room, the memory at the start of the
  -- first is unused, and neither starts at 0, then `create_file` returns the slot. The file has the
  -- name, as its type the part behind the dot and what the stack holds behind it, and 4096 bytes at
  -- the old start of the data area, which moves on by as many. A search by the name finds it in the
  -- slot, and `del_file` by the name takes its data: the file keeps its name, type and size, and every
  -- folder is as `create_file` left it. Neither call changes any other file, and `create_file` no
  -- folder but the one at `p`.
  pub create_file_lem :
      (fresh : FreshFile fs (dotted base kind) folder.file_list)
      → Without 46 base
      → Without 46 kind
      → length base < 100
      → length (kind ++ stale) < 16
      → 0 < fs.info_start
      → fs.info_start + sizeof_file ≤ 0x122000000
      → 0 < fs.alloc_start
      → fs.alloc_start + 4096 ≤ 0x130000000
      → (fs' : Fs) × (fs'' : Fs) × (create_file stale fs p (dotted base kind)
          ≡ done (pos (file_slot fs (dotted base kind) folder.file_list fresh), fs'))
        × (fs'.folder_at p
            ≡ some (listed fs folder (file_slot fs (dotted base kind) folder.file_list fresh)))
        × (fs'.file_at fs.info_start ≡ some (new_file fs (dotted base kind) (kind ++ stale)))
        × (fs'.alloc_start ≡ fs.alloc_start + 4096)
        × (find_file fs'
              (dotted base kind)
              0
              (listed fs folder (file_slot fs (dotted base kind) folder.file_list fresh)).file_list
            ≡ done (some (file_slot fs (dotted base kind) folder.file_list fresh)))
        × (del_file fs' p (dotted base kind) ≡ done fs'')
        × (fs''.file_at fs.info_start
            ≡ some (record (new_file fs (dotted base kind) (kind ++ stale)) { file_p = 0 }))
        × (fs''.folder_at ≡ fs'.folder_at)
        × ((r : ℕ)
            → r ≢ fs.info_start
            → (fs'.file_at r ≡ fs.file_at r) × (fs''.file_at r ≡ fs.file_at r))
        × ((r : ℕ) → r ≢ p → fs'.folder_at r ≡ fs.folder_at r)
  unfolding create_file fs_info_malloc fs_malloc del_file
  create_file_lem fresh no_dot no_dot' short short' start room data_start data_room =
      let name = dotted base kind in
      let k = file_slot fs name folder.file_list fresh in
      let fs' = with_file k in
      let file = new_file fs name (kind ++ stale) in
      let there : fs'.file_at fs.info_start ≡ some file = change-here fs.file_at fs.info_start _ in
      let has_data : (fs.alloc_start == 0) ≡ false = ground arith in
      let (free, found, got) =
        found_in fs fs' name fs.info_start (λ e. omega (arith, e)) file there refl has_data
          (files_kept k) 0 folder.file_list fresh in
      let zero_plus : 0 + k ≡ k = omega arith in
      let free_k : first_null 0 folder.file_list ≡ some k = free ∙ ap some zero_plus in
      let found_k : find_file fs' name 0 (listed fs folder k).file_list ≡ done (some k) =
        found ∙ ap (λ n. done (some n)) zero_plus in
      let in_area : ltb 0x122000000 (fs.info_start + sizeof_file) ≡ false = ground arith in
      let in_data : ltb 0x130000000 (fs.alloc_start + 4096) ≡ false = ground arith in
      let not_null : (fs.info_start == 0) ≡ false = ground arith in
      let fits : ltb (length name) 128 ≡ true =
        lt→ltb (length name) 128 (omega (arith, length-pair base kind 46, longer kind stale)) in
      let fits' : ltb (length (kind ++ stale)) 16 ≡ true =
        lt→ltb (length (kind ++ stale)) 16 short' in
      let parts =
        split_pair base kind 46 no_dot no_dot' short (omega (arith, longer kind stale, short')) in
      let parent : fs'.folder_at p ≡ some (listed fs folder k) = change-here fs.folder_at p _ in
      (
        fs',
        put_file fs' fs.info_start (record file { file_p = 0 }),
        rw (at, free_k, parts, in_area, not_null, fits, in_data, fits') refl,
        parent,
        there,
        refl,
        found_k,
        rw (parent, found_k, got, there) refl,
        change-here fs'.file_at fs.info_start _,
        refl,
        (λ r ne.
            let first : fs'.file_at r ≡ fs.file_at r =
              change-other fs.file_at fs.info_start r _ ne in
            (first, change-other fs'.file_at fs.info_start r _ ne ∙ first)),
        λ r ne. change-other fs.folder_at p r _ ne,
      )
