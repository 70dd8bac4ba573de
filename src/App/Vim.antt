-- ===== src/App/Vim.antt =====
-- kernel/app/vim.c: the editor. The text of a file lies in memory up to a NUL. `file_copy`, 1000 rows of
-- 80 characters, is the list of its characters row by row; 0 stands for an empty place and 1 for the
-- start of a row that goes on with the one above. A function that prints returns the text.
pub mod Session
pub mod Grid
pub mod Copying
pub mod Saved
mod Tests
use echo_os.Base.{
  ℕ, zero, suc, ◌+◌, ◌-◌, ◌*◌, Bool, true, false, not, ◌&&◌, List, [], ◌∷◌, ◌++◌, Option, none,
  some, Exec, done, fault, timeout, ◌>>=◌, ltb, leb, ◌==◌, if◌then◌else◌, get_or, set, replicate,
  drop, take,
}
use echo_os.Base.Int.{ℤ, pos, negsuc, add_ℤ, sub_ℕ, ltb_ℤ}
use echo_os.Base.Text.{codes}
use echo_os.Utils.Memory.{Memory, store}
use echo_os.Sysio.Print.{Arg, int, printf}

-- `enable_vim`, `exit_flag` and the cursor; `file_ln` counts the newlines.
pub record Vim : Type 0 where
  pub enable_vim : Bool
  pub exit_flag : Bool
  pub file_copy : List ℕ
  pub c_x : ℕ
  pub c_y : ℕ
  pub file_x : ℕ
  pub file_y : ℕ
  pub file_ln : ℕ
  pub offset : ℤ

abbrev pub columns : ℕ
columns = 80

abbrev pub rows : ℕ
rows = 1000

-- "\ec" and "\e[0;0H"
abbrev clear_screen : List ℕ
clear_screen = 27 ∷ (codes "c" ++ (27 ∷ codes "[0;0H"))

abbrev shown : List ℕ → List ℕ
shown [] = []
shown (c ∷ cells) = if c == 1 then shown cells else c ∷ shown cells

-- The rows from `offset` up to row 24; a row before the first is outside of the array.
unfoldable pub print2screen : List ℕ → ℤ → Exec (List ℕ)
print2screen cells (pos k) =
    done (clear_screen ++ shown (take (columns * (25 - k)) (drop (columns * k) cells)))
print2screen cells (negsuc k) = fault

-- The characters that `save_file` writes, and `text_p`, which it counts up.
unfoldable pub save_file : Memory → ℕ → List ℕ → Memory
save_file m text_p [] = m
save_file m text_p (c ∷ cells) =
    if not (c == 0) && not (c == 1)
    then save_file (store m text_p c) (text_p + 1) cells
    else save_file m text_p cells

-- `file_copy[y][x] = c`
abbrev pub put_cell : List ℕ → ℕ → ℕ → ℕ → Exec (List ℕ)
put_cell cells y x c =
    if ltb y rows && ltb x columns then done (set cells (columns * y + x) c) else fault

-- One round of the `while` of `create_copy`: the cells, `file_x`, `file_y` and `file_ln`.
pub record Copy : Type 0 where
  pub cells : List ℕ
  pub x : ℕ
  pub y : ℕ
  pub ln : ℕ

-- The step to the next row, whose first place is marked.
abbrev pub wrap_row : Copy → Exec Copy
wrap_row s =
    if leb columns s.x
    then put_cell s.cells (s.y + 1) 0 1
      >>= (λ cells'. done (record s { cells = cells'; x = 0; y = s.y + 1 }))
    else done s

unfoldable pub copy_char : Copy → ℕ → Exec Copy
copy_char s c = put_cell s.cells s.y s.x c >>= λ cells'.
    if c == 10
    then done (record { cells = cells'; x = 0; y = s.y + 1; ln = s.ln + 1 })
    else wrap_row (record s { cells = cells'; x = s.x + 1 })

unfoldable pub copy_text : ℕ → Memory → ℕ → Copy → Exec Copy
copy_text zero m text_p s = timeout
copy_text (suc fuel) m text_p s =
    let rest : Copy → Exec Copy = λ s'. copy_text fuel m (text_p + 1) s' in
    if m text_p == 0 then done s else copy_char s (m text_p) >>= rest

abbrev pub blank : Copy
blank = record { cells = replicate (rows * columns) 0; x = 0; y = 0; ln = 0 }

unfoldable pub create_copy : ℕ → Memory → ℕ → Vim → Exec Vim
create_copy fuel m file_p vim = copy_text fuel m file_p blank >>= λ s. done (record vim {
  file_copy = s.cells;
  c_x = 0;
  c_y = 0;
  file_x = s.x;
  file_y = s.y;
  file_ln = s.ln;
})

-- The keys: 72 is up, 80 is down, 77 is right and 75 is left.
abbrev key_up : Vim → Vim
key_up vim =
    if ltb 3 vim.c_y
    then record vim { c_y = vim.c_y - 1 }
    else if ltb_ℤ (pos 0) vim.offset
    then record vim { offset = add_ℤ vim.offset (negsuc 0) }
    else if ltb 0 vim.c_y
    then record vim { offset = pos 0; c_y = vim.c_y - 1 }
    else vim

abbrev key_down : Vim → Vim
key_down vim =
    if ltb vim.c_y 22
    then record vim { c_y = vim.c_y + 1 }
    else if ltb_ℤ vim.offset (sub_ℕ vim.file_ln 23)
    then record vim { offset = add_ℤ vim.offset (pos 1) }
    else if leb vim.c_y 25
    then record vim { offset = sub_ℕ vim.file_ln 23; c_y = vim.c_y + 1 }
    else vim

-- `c_y + offset`; a row before the first is outside of the array.
abbrev pub row_of : Vim → Exec ℕ
row_of vim = elim (add_ℤ (pos vim.c_y) vim.offset) [ pos y ↦ done y | negsuc y ↦ fault ]

-- In the last column the mark of the next row is read.
abbrev key_right : Vim → Exec (Vim × List ℕ)
key_right vim =
    if ltb vim.c_x 79
    then done (record vim { c_x = vim.c_x + 1 }, 27 ∷ codes "[1C")
    else row_of (record vim { c_y = vim.c_y + 1 }) >>= λ y.
        if not (ltb y rows)
        then fault
        else if get_or vim.file_copy (columns * y) 0 == 1
        then done (vim, 27 ∷ (codes "[1C" ++ (27 ∷ (codes "[B" ++ (27 ∷ codes "[80D")))))
        else done (vim, 27 ∷ codes "[1C")

abbrev key_left : Vim → Vim
key_left vim = if ltb 0 vim.c_x then record vim { c_x = vim.c_x - 1 } else vim

-- The cursor behind a character that was written, after the step of a newline.
abbrev pub advance : Vim → Vim
advance vim =
    if ltb vim.c_x 80
    then record vim { c_x = vim.c_x + 1 }
    else record vim { c_x = 0; c_y = vim.c_y + 1 }

abbrev pub write_char : Vim → ℕ → Exec Vim
write_char vim c = row_of vim >>= λ y. put_cell vim.file_copy y vim.c_x c >>= λ cells.
    if c == 10
    then done (advance (record vim { file_copy = cells; c_x = 0; c_y = vim.c_y + 1 }))
    else done (advance (record vim { file_copy = cells }))

abbrev with_text : Exec Vim → List ℕ → Exec (Vim × List ℕ)
with_text m out = m >>= λ vim. done (vim, out)

abbrev pub press : Vim → ℕ → ℕ → Exec (Vim × List ℕ)
press vim c kbd_n =
    if kbd_n == 72
    then done (key_up vim, 27 ∷ codes "[1A")
    else if kbd_n == 80
    then done (key_down vim, 27 ∷ codes "[1B")
    else if kbd_n == 77
    then key_right vim
    else if kbd_n == 75
    then done (key_left vim, 27 ∷ codes "[1D")
    else with_text (write_char vim c) []

-- `printf("\033[%d;%dH", ...)`
abbrev place_cursor : Vim → Exec (List ℕ)
place_cursor vim =
    printf (27 ∷ codes "[%d;%dH")
      (int (pos (vim.c_y + 1)) ∷ (int (pos (if vim.c_y == 0 then vim.c_x + 1 else vim.c_x)) ∷ []))

-- The screen after the key.
abbrev redraw : Exec (Vim × List ℕ) → Exec (Vim × List ℕ)
redraw m = m >>= λ (vim, out). print2screen vim.file_copy vim.offset >>= λ screen.
    place_cursor vim >>= λ cursor. done (vim, out ++ (screen ++ cursor))

-- KEY_PUSH and KEY_ESC are 1. `file_p` is the text of `vim_file`.
unfoldable pub vim_input_handle : Memory → ℕ → Vim → ℕ → ℕ → ℕ → Exec (Vim × Memory × List ℕ)
vim_input_handle m file_p vim c state kbd_n =
    if not vim.enable_vim
    then done (vim, m, [])
    else if (state == 1) && (kbd_n == 1)
    then done
        (record vim { enable_vim = false; exit_flag = true }, save_file m file_p vim.file_copy, [])
    else redraw (if state == 1 then press vim c kbd_n else done (vim, [])) >>= λ (vim', out).
        done (vim', m, out)
