-- ===== src/Fs/Folders.antt =====
-- kernel/fs/fs.c, `create_folder` and `del_folder`: a folder that is created is found by its name.
use echo_os.Base.{
  ℕ, suc, ◌+◌, ◌<◌, ◌≤◌, true, false, List, [], ◌∷◌, none, some, done, ltb, ◌==◌, ◌≡◌, refl, ap,
  sym, ◌∙◌, arith, set, length, replicate, lt→ltb, ==_iff, ==_false, ◌≢◌, Bool-cases, inl, inr, ◌⊎◌,
}
use echo_os.Fs.{
  Folder, Fs, same_text, first_null, put_folder, change, sizeof_folder, fs_info_malloc,
  create_folder, find_folder, del_folder,
}
use echo_os.Fs.Moving.{same_text_refl, change-here, change-other}

-- Before its first null pointer the list has folders of other names only.
abbrev pub Fresh : Fs → List ℕ → List ℕ → Type 0
Fresh fs name [] = ⊥
Fresh fs name (p ∷ ps) =
    (p ≡ 0)
    ⊎ ((p ≢ 0)
        × ((other : Folder) × (fs.folder_at p ≡ some other)
            × (same_text name other.folder_name ≡ false)
            × Fresh fs name ps))

-- The index of this null pointer.
abbrev pub slot_of : (fs : Fs) (name : List ℕ) (ps : List ℕ) → Fresh fs name ps → ℕ
slot_of fs name [] fresh = 0
slot_of fs name (p ∷ ps) (inl e) = 0
slot_of fs name (p ∷ ps) (inr (p_pos, (other, at, differs, fresh))) = suc (slot_of fs name ps fresh)

-- What `create_folder` does to the folder at `p` and to the new one at `q`.
abbrev pub empty_folder : List ℕ → Folder
empty_folder name = record {
  folder_name = name;
  file_list = replicate 16 0;
  folder_list = replicate 16 0;
}

module _ (fs fs' : Fs) (name : List ℕ) (q : ℕ) (q_pos : q ≢ 0)
    (there : fs'.folder_at q ≡ some (empty_folder name))
    (kept : (r : ℕ) (other : Folder)
      → fs.folder_at r ≡ some other
      → (other' : Folder) × (fs'.folder_at r ≡ some other')
        × (other'.folder_name ≡ other.folder_name)) where
  -- The first free slot, and the search with the new folder in it.
  found_in :
      (i : ℕ) (ps : List ℕ) (fresh : Fresh fs name ps)
      → (first_null i ps ≡ some (i + slot_of fs name ps fresh))
        × (find_folder fs' name i (set ps (slot_of fs name ps fresh) q)
            ≡ done (some (i + slot_of fs name ps fresh)))
        × (set (set ps (slot_of fs name ps fresh) q) (slot_of fs name ps fresh) 0 ≡ ps)
  unfolding find_folder
  found_in i [] fresh = absurd fresh
  found_in i (p ∷ ps) (inl e) =
      let null : (p == 0) ≡ true = (==_iff p 0).1 e in
      let some_q : (q == 0) ≡ false = ground arith in
      let index : i + 0 ≡ i = omega arith in
      (
        rw null (ap some (sym index)),
        rw (some_q, there, same_text_refl name) (ap (λ n. done (some n)) (sym index)),
        ap (λ r. r ∷ ps) (sym e),
      )
  found_in i (p ∷ ps) (inr (p_pos, (other, at, differs, fresh))) =
      let (free, found, back) = found_in (i + 1) ps fresh in
      let (other', at', same_name) = kept p other at in
      let some_p : (p == 0) ≡ false = ground arith in
      let index : i + 1 + slot_of fs name ps fresh ≡ i + suc (slot_of fs name ps fresh) =
        omega arith in
      (
        rw some_p (free ∙ ap some index),
        rw (some_p, at', same_name, differs) (found ∙ ap (λ n. done (some n)) index),
        ap (λ l. p ∷ l) back,
      )

some_injective : (a b : Folder) → some a ≡ some b → a ≡ b
some_injective a b e = cc

module _ (fs : Fs) (p : ℕ) (folder : Folder) (name : List ℕ) (at : fs.folder_at p ≡ some folder)
    (unused : fs.folder_at fs.info_start ≡ none) where
  abbrev pub linked : ℕ → Folder
  linked k = record folder { folder_list = set folder.folder_list k fs.info_start }

  abbrev with_new : ℕ → Fs
  with_new k =
      put_folder
        (put_folder (record fs { info_start = fs.info_start + sizeof_folder }) p (linked k))
        fs.info_start (empty_folder name)

  not_new : (r : ℕ) (other : Folder) → fs.folder_at r ≡ some other → r ≢ fs.info_start
  not_new r other h e = cc (h, unused, ap fs.folder_at e)

  parent_linked : (k : ℕ) → (with_new k).folder_at p ≡ some (linked k)
  parent_linked k =
      change-other (change fs.folder_at p (some (linked k))) fs.info_start p _ (not_new p folder at)
      ∙ change-here fs.folder_at p _

  names_kept :
      (k r : ℕ) (other : Folder)
      → fs.folder_at r ≡ some other
      → (other' : Folder) × ((with_new k).folder_at r ≡ some other')
        × (other'.folder_name ≡ other.folder_name)
  names_kept k r other h = elim (Bool-cases (r == p)) [
    | inl e ↦
        let is_p : r ≡ p = (==_iff r p).0 e in
        (
          linked k,
          ap (with_new k).folder_at is_p ∙ parent_linked k,
          ap Folder.folder_name
              (some_injective folder other (sym at ∙ (ap fs.folder_at (sym is_p) ∙ h))),
        )
    | inr ne ↦ (
      other,
      change-other (change fs.folder_at p (some (linked k))) fs.info_start r _ (not_new r other h)
          ∙ (change-other fs.folder_at p r _ (==_false r p ne) ∙ h),
      refl,
    )
  ]

  -- When the folder at `p` has a free slot and, before it, only folders of other names, when the
  -- memory at the start of the free area is unused, holds one more folder and is not at 0, and when
  -- the name has fewer than 128 characters, then `create_folder` ends. The new folder is empty and
  -- has the name; a search of its parent's list by the name finds it, in the free slot; and a
  -- `del_folder` by the name gives the parent's list back as it was.
  pub create_folder_lem :
      (fresh : Fresh fs name folder.folder_list)
      → 0 < fs.info_start
      → fs.info_start + sizeof_folder ≤ 0x122000000
      → length name < 128
      → (fs' : Fs) × (fs'' : Fs) × (create_folder fs p name ≡ done fs')
        × (fs'.folder_at fs.info_start ≡ some (empty_folder name))
        × (fs'.folder_at p ≡ some (linked (slot_of fs name folder.folder_list fresh)))
        × (find_folder fs' name 0 (linked (slot_of fs name folder.folder_list fresh)).folder_list
            ≡ done (some (slot_of fs name folder.folder_list fresh)))
        × (del_folder fs' p name ≡ done fs'')
        × (fs''.folder_at p ≡ some folder)
  unfolding create_folder fs_info_malloc del_folder
  create_folder_lem fresh start_pos room short =
      let k = slot_of fs name folder.folder_list fresh in
      let fs' = with_new k in
      let new_there : fs'.folder_at fs.info_start ≡ some (empty_folder name) =
        change-here (change fs.folder_at p (some (linked k))) fs.info_start _ in
      let (free, found, back) =
        found_in fs fs' name fs.info_start (λ e. omega (arith, e)) new_there (names_kept k) 0
          folder.folder_list fresh in
      let zero_plus : 0 + k ≡ k = omega arith in
      let free_k : first_null 0 folder.folder_list ≡ some k = free ∙ ap some zero_plus in
      let found_k : find_folder fs' name 0 (linked k).folder_list ≡ done (some k) =
        found ∙ ap (λ n. done (some n)) zero_plus in
      let in_area : ltb 0x122000000 (fs.info_start + sizeof_folder) ≡ false = ground arith in
      let not_null : (fs.info_start == 0) ≡ false = ground arith in
      let fits : ltb (length name) 128 ≡ true = lt→ltb (length name) 128 short in
      (
        fs',
        put_folder fs' p (record (linked k) { folder_list = set (linked k).folder_list k 0 }),
        rw (at, free_k, in_area, not_null, fits) refl,
        new_there,
        parent_linked k,
        found_k,
        rw (parent_linked k, found_k) refl,
        change-here fs'.folder_at p _ ∙ ap (λ l. some (record folder { folder_list = l })) back,
      )
