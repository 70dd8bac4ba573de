-- ===== src/App/Vim/Saved.antt =====
-- kernel/app/vim.c: the text that is saved is the text that was opened.
use echo_os.Base.{
  ℕ, ◌+◌, ◌<◌, true, List, [], ◌∷◌, Exec, done, fault, timeout, ◌>>=◌, length, ◌≡◌, refl, sym, ap,
  ◌∙◌, ◌==◌, Bool-cases, inl, inr, ==_iff,
}
use echo_os.Utils.Memory.{Memory, store}
use echo_os.App.Vim.{Vim, Copy, copy_text, create_copy, save_file, blank}
use echo_os.App.Vim.Grid.{is_text, spelled}
use echo_os.App.Vim.Copying.{TextAt, fits, Stepped, copy_text-Stepped, blank-Copied}

-- The characters of a text, written one behind the other.
write_text : Memory → ℕ → List ℕ → Memory
write_text m p [] = m
write_text m p (c ∷ text) = write_text (store m p c) (p + 1) text

save_file-spelled :
    (m : Memory) (p : ℕ) (cells : List ℕ) → save_file m p cells ≡ write_text m p (spelled cells)
unfolding save_file spelled write_text
save_file-spelled m p [] = refl
save_file-spelled m p (c ∷ cells) = elim (Bool-cases (is_text c)) [
  | inl is ↦ rw is (save_file-spelled (store m p c) (p + 1) cells)
  | inr isnt ↦ rw isnt (save_file-spelled m p cells)
]

-- Where the text is there already, nothing changes.
write_text-same :
    (m m' : Memory) (p : ℕ) (text : List ℕ) (q : ℕ)
    → ((r : ℕ) → m' r ≡ m r)
    → TextAt m p text
    → write_text m' p text q ≡ m q
unfolding write_text
write_text-same m m' p [] q same at = same q
write_text-same m m' p (c ∷ text) q same (here, is, later) =
    write_text-same m (store m' p c) (p + 1) text q
      (λ r. elim (Bool-cases (p == r)) [
        | inl e ↦ rw e (sym here ∙ ap m ((==_iff p r).0 e))
        | inr e ↦ rw e (same r)
      ])
      later

-- What opening a file at `p` comes to: the places spell the text, and saving it writes each character
-- where it was.
abbrev pub Opened : Memory → ℕ → List ℕ → Exec Vim → Type 0
Opened m p text (done vim) =
    (spelled vim.file_copy ≡ text) × ((q : ℕ) → save_file m p vim.file_copy q ≡ m q)
Opened m p text fault = ⊥
Opened m p text timeout = ⊥

saved_copy :
    (m : Memory) (p : ℕ) (text : List ℕ) (vim : Vim) (r : Exec Copy)
    → TextAt m p text
    → Stepped text [] r
    → Opened m p text (
        r >>= λ s. done (record vim {
          file_copy = s.cells;
          c_x = 0;
          c_y = 0;
          file_x = s.x;
          file_y = s.y;
          file_ln = s.ln;
        }))
saved_copy m p text vim (done s) at (copied, room) = (
  copied.spells,
  λ q.
      ap (λ m'. m' q) (save_file-spelled m p s.cells ∙ ap (write_text m p) copied.spells)
      ∙ write_text-same m m p text q (λ r. refl) at,
)
saved_copy m p text vim fault at e = absurd e
saved_copy m p text vim timeout at e = absurd e

-- When a text without the characters 0 and 1 lies at the address, fits in the rows and has fewer
-- characters than the fuel, `create_copy` ends within the bounds of `file_copy`. The places then
-- spell the text, and `save_file` leaves every byte of the memory as it is.
pub create_copy-Opened :
    (fuel : ℕ) (m : Memory) (p : ℕ) (vim : Vim) (text : List ℕ)
    → TextAt m p text
    → length text < fuel
    → fits 0 0 text ≡ true
    → Opened m p text (create_copy fuel m p vim)
unfolding create_copy
create_copy-Opened fuel m p vim text at enough room =
    saved_copy m p text vim (copy_text fuel m p blank) at
      (copy_text-Stepped fuel m p blank [] text at enough blank-Copied room)
