-- ===== src/Drivers/Ansi/Tests.antt =====
-- kernel/drivers/ansi.c and include/drivers/ansi.h: some sequences.
use echo_os.Base.{[], ◌∷◌, none, some, ◌≡◌, refl, arith, replicate}
use echo_os.Base.Text.{codes}
use echo_os.Drivers.Ansi.{
  Ansi, put_code, code_digits, set_cursor_color, save_cursor_color, restore_cursor_color,
  cursor_move_to, cursor_move_previous_line, cursor_move_up, cursor_move_down, cursor_move_forward,
  cursor_move_backward, cursor_move_next_line, cursor_move_horizontal,
  cursor_move_horizontal_absolute, scroll_up, scroll_down, set_cursor_style,
}
use echo_os.Drivers.Ansi.Read.{read_sequence, read-moves}
use echo_os.Drivers.Ansi.Stack.{stop, assign, Kept, restore-save}

-- Red on the screen.
red : set_cursor_color 1 ≡ 27 ∷ codes "[31m"
unfolding set_cursor_color put_code code_digits
red = refl

read-moves_example :
    (read_sequence (cursor_move_to 79 24) ≡ some (24 ∷ (79 ∷ []), 72))
    × (read_sequence (cursor_move_up 105) ≡ some (105 ∷ [], 65))
    × (read_sequence (cursor_move_down 105) ≡ some (105 ∷ [], 66))
    × (read_sequence (cursor_move_forward 105) ≡ some (105 ∷ [], 67))
    × (read_sequence (cursor_move_backward 105) ≡ some (105 ∷ [], 68))
    × (read_sequence (cursor_move_next_line 105) ≡ some (105 ∷ [], 69))
    × (read_sequence (cursor_move_previous_line 105) ≡ none)
    × (read_sequence (cursor_move_horizontal 105) ≡ some (105 ∷ [], 71))
    × (read_sequence (cursor_move_horizontal_absolute 105) ≡ some (105 ∷ [], 100))
    × (read_sequence (scroll_up 105) ≡ some (105 ∷ [], 83))
    × (read_sequence (scroll_down 105) ≡ some (105 ∷ [], 84))
    × (read_sequence (set_cursor_style 105) ≡ some (105 ∷ [], 109))
read-moves_example = read-moves 79 24 105 (omega arith) (omega arith) (omega arith)

-- A white screen, and red for a while.
abbrev white : Ansi
white = record {
  cur_color = 7;
  cur_style = 0;
  color_stack = replicate 16 0;
  style_stack = replicate 16 0;
  color_stack_ptr = 0;
  style_stack_ptr = 0;
}

abbrev reddened : Ansi
reddened = record (save_cursor_color white) { cur_color = 1 }

restore-save_example :
    ((restore_cursor_color reddened).0.cur_color ≡ white.cur_color)
    × Kept white (restore_cursor_color reddened).0
restore-save_example = restore-save 0 white reddened (assign 1 stop) (omega arith) refl
