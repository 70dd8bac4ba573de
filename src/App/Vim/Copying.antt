-- ===== src/App/Vim/Copying.antt =====
-- kernel/app/vim.c: `create_copy` lays a text out in the rows of `file_copy`.
use echo_os.Base.{
  true_and, snoc_append, append_nil, length-replicate, ℕ, zero, suc, ◌+◌, ◌*◌, ◌<◌, Bool, true,
  false, ◌&&◌, List, [], ◌∷◌, ◌++◌, Exec, done, fault, timeout, ◌>>=◌, length, set, ◌≡◌, refl, sym,
  ap, ◌∙◌, arith, ltb, leb, ◌==◌, if◌then◌else◌, ltb→lt, lt→ltb, length-set,
}
use mathlib.Core.Path.{subst}
use echo_os.Utils.Memory.{Memory}
use echo_os.App.Vim.{Copy, rows, columns, put_cell, wrap_row, copy_char, copy_text, blank}
use echo_os.App.Vim.Grid.{
  is_text, spelled, EmptyFrom, spelled-set, spelled-mark, EmptyFrom-set, EmptyFrom-mark,
  EmptyFrom-replicate, spelled-replicate,
}

-- The text lies in memory at `p`, up to a NUL, without the mark of a row that goes on.
abbrev pub TextAt : Memory → ℕ → List ℕ → Type 0
TextAt m p [] = m p ≡ 0
TextAt m p (c ∷ text) = (m p ≡ c) × (is_text c ≡ true) × TextAt m (p + 1) text

-- From column `x` of row `y` on, the text stays within the rows.
abbrev pub fits : ℕ → ℕ → List ℕ → Bool
fits x y [] = true
fits x y (c ∷ text) =
    ltb y rows
    && (if c == 10
        then fits 0 (y + 1) text
        else if leb columns (x + 1)
        then ltb (y + 1) rows && fits 0 (y + 1) text
        else fits (x + 1) y text)

pub record Copied (s : Copy) (text : List ℕ) : Type 0 where
  pub full : length s.cells ≡ 80000
  pub in_row : s.x < columns
  pub empty : EmptyFrom (columns * s.y + s.x) s.cells
  pub spells : spelled s.cells ≡ text

abbrev pub Stepped : List ℕ → List ℕ → Exec Copy → Type 0
Stepped text more (done s) = Copied s text × (fits s.x s.y more ≡ true)
Stepped text more fault = ⊥
Stepped text more timeout = ⊥

not_nul : (c : ℕ) → is_text c ≡ true → (c == 0) ≡ false
not_nul c is = ground (arith, is)

put_cell-set :
    (cells : List ℕ) (y x c : ℕ)
    → ltb y rows ≡ true
    → x < columns
    → put_cell cells y x c ≡ done (set cells (columns * y + x) c)
put_cell-set cells y x c y_in x_in = rw (y_in, lt→ltb x columns x_in) refl

-- Behind the write of the character, before the step to the next row: `x` may be the width.
module _ (s : Copy) (text more : List ℕ) (c : ℕ) (is : is_text c ≡ true) (h : Copied s text) where
  abbrev place : ℕ
  place = columns * s.y + s.x

  length-written : length (set s.cells place c) ≡ 80000
  length-written = length-set s.cells place c ∙ h.full

  empty-written : (q : ℕ) → place < q → EmptyFrom q (set s.cells place c)
  empty-written q lt = EmptyFrom-set s.cells place q c lt h.empty

  spelled-written : ltb s.y rows ≡ true → spelled (set s.cells place c) ≡ text ++ (c ∷ [])
  spelled-written y_in =
      spelled-set s.cells place c is (omega (arith, ltb→lt s.y rows y_in, h.in_row, h.full)) h.empty
      ∙ ap (λ t. t ++ (c ∷ [])) h.spells

  wrap-Stepped :
      (wide : Bool)
      → leb columns (s.x + 1) ≡ wide
      → ltb s.y rows ≡ true
      → (if wide then ltb (s.y + 1) rows && fits 0 (s.y + 1) more else fits (s.x + 1) s.y more)
        ≡ true
      → Stepped
          (text ++ (c ∷ []))
          more
          (wrap_row (record s { cells = set s.cells place c; x = s.x + 1 }))
  wrap-Stepped true is_wide y_in room =
      let (y_next, room') = true_and (ltb (s.y + 1) rows) (fits 0 (s.y + 1) more) room in
      rw (is_wide, y_next)
        (
          record {
            full = length-set (set s.cells place c) (columns * (s.y + 1) + 0) 1 ∙ length-written;
            in_row = omega arith;
            empty =
                EmptyFrom-mark (set s.cells place c) (columns * (s.y + 1) + 0)
                  (columns * (s.y + 1) + 0) (omega arith)
                  (empty-written (columns * (s.y + 1) + 0) (omega (arith, h.in_row)));
            spells =
                spelled-mark (set s.cells place c) (columns * (s.y + 1) + 0)
                  (empty-written (columns * (s.y + 1) + 0) (omega (arith, h.in_row)))
                ∙ spelled-written y_in;
          },
          room',
        )
  wrap-Stepped false is_wide y_in room =
      let narrow : s.x + 1 < columns = ground (arith, is_wide) in
      rw is_wide (
        record {
          full = length-written;
          in_row = narrow;
          empty = empty-written (columns * s.y + (s.x + 1)) (omega arith);
          spells = spelled-written y_in;
        },
        room,
      )

  copy_char-cases :
      (newline : Bool)
      → (c == 10) ≡ newline
      → ltb s.y rows ≡ true
      → (if newline
          then fits 0 (s.y + 1) more
          else if leb columns (s.x + 1)
          then ltb (s.y + 1) rows && fits 0 (s.y + 1) more
          else fits (s.x + 1) s.y more)
        ≡ true
      → Stepped (text ++ (c ∷ [])) more (copy_char s c)
  unfolding copy_char
  copy_char-cases true is_newline y_in room =
      rw (put_cell-set s.cells s.y s.x c y_in h.in_row, is_newline)
        (
          record {
            full = length-written;
            in_row = omega arith;
            empty = empty-written (columns * (s.y + 1) + 0) (omega (arith, h.in_row));
            spells = spelled-written y_in;
          },
          room,
        )
  copy_char-cases false is_newline y_in room =
      rw (put_cell-set s.cells s.y s.x c y_in h.in_row, is_newline)
        (wrap-Stepped (leb columns (s.x + 1)) refl y_in room)

copy_next :
    (pre text : List ℕ) (c : ℕ) (m : Exec Copy) (rest : Copy → Exec Copy)
    → Stepped (pre ++ (c ∷ [])) text m
    → ((s' : Copy)
        → Copied s' (pre ++ (c ∷ []))
        → fits s'.x s'.y text ≡ true
        → Stepped ((pre ++ (c ∷ [])) ++ text) [] (rest s'))
    → Stepped (pre ++ (c ∷ text)) [] (m >>= rest)
copy_next pre text c (done s') rest (copied, room) next =
    subst (λ t. Stepped t [] (rest s')) (snoc_append pre c text) (next s' copied room)
copy_next pre text c fault rest e next = absurd e
copy_next pre text c timeout rest e next = absurd e

pub copy_text-Stepped :
    (fuel : ℕ) (m : Memory) (p : ℕ) (s : Copy) (pre text : List ℕ)
    → TextAt m p text
    → length text < fuel
    → Copied s pre
    → fits s.x s.y text ≡ true
    → Stepped (pre ++ text) [] (copy_text fuel m p s)
unfolding copy_text
copy_text-Stepped zero m p s pre text at enough copied room = absurd (omega (arith, enough))
copy_text-Stepped (suc fuel) m p s pre [] at enough copied room = rw at (
  record {
    full = copied.full;
    in_row = copied.in_row;
    empty = copied.empty;
    spells = copied.spells ∙ sym (append_nil pre);
  },
  refl,
)
copy_text-Stepped (suc fuel) m p s pre (c ∷ text) (here, is, later) enough copied room =
    let (y_in, room') = true_and (ltb s.y rows) _ room in
    let not_end : (m p == 0) ≡ false = rw here (not_nul c is) in
    rw (not_end, here)
      (copy_next pre text c (copy_char s c) (λ s'. copy_text fuel m (p + 1) s')
        (copy_char-cases s pre text c is copied (c == 10) refl y_in room')
        (λ s' copied' fits'.
          copy_text-Stepped fuel m (p + 1) s' (pre ++ (c ∷ [])) text later (omega (arith, enough))
            copied' fits'))

pub blank-Copied : Copied blank []
blank-Copied = record {
  full = length-replicate {A = ℕ} 80000 0;
  in_row = omega arith;
  empty = EmptyFrom-replicate 80000 0;
  spells = spelled-replicate 80000;
}
