-- ===== src/Drivers/Ansi.antt =====
-- include/drivers/ansi.h and kernel/drivers/ansi.c: the escape sequences of the screen, as the bytes
-- that go to the serial port, and the stacks of colors and styles. A `sint` is a byte.
pub mod Read
pub mod Stack
mod Tests
use echo_os.Base.{
  ℕ, zero, suc, ◌+◌, ◌-◌, ◌/◌, ◌%◌, Bool, List, [], ◌∷◌, ◌++◌, ltb, ◌==◌, if◌then◌else◌, get_or,
  set,
}
use echo_os.Base.Text.{codes}

abbrev pub put_head : List ℕ
put_head = 27 ∷ codes "["

abbrev digits : List ℕ
digits = codes "0123456789"

-- The `do` loop, which a byte leaves after at most three rounds, and the loop back.
unfoldable pub code_digits : ℕ → ℕ → List ℕ → List ℕ
code_digits zero code printed = printed
code_digits (suc fuel) code printed =
    let printed' = get_or digits (code % 10) 0 ∷ printed in
    let rest = code_digits fuel (code / 10) printed' in if code / 10 == 0 then printed' else rest

unfoldable pub put_code : ℕ → List ℕ
put_code code = code_digits 3 code []

-- A sequence with one number.
abbrev pub numbered : ℕ → ℕ → List ℕ
numbered n final = put_head ++ (put_code n ++ (final ∷ []))

unfoldable pub cursor_move_to : ℕ → ℕ → List ℕ
cursor_move_to x y = put_head ++ (put_code y ++ (59 ∷ (put_code x ++ codes "H")))

-- The letter that ends the sequence is missing.
unfoldable pub cursor_move_previous_line : ℕ → List ℕ
cursor_move_previous_line n = put_head ++ put_code n

unfoldable pub cursor_move_up : ℕ → List ℕ
cursor_move_up n = numbered n 65

unfoldable pub cursor_move_down : ℕ → List ℕ
cursor_move_down n = numbered n 66

unfoldable pub cursor_move_forward : ℕ → List ℕ
cursor_move_forward n = numbered n 67

unfoldable pub cursor_move_backward : ℕ → List ℕ
cursor_move_backward n = numbered n 68

unfoldable pub cursor_move_next_line : ℕ → List ℕ
cursor_move_next_line n = numbered n 69

unfoldable pub cursor_move_horizontal : ℕ → List ℕ
cursor_move_horizontal n = numbered n 71

unfoldable pub cursor_move_horizontal_absolute : ℕ → List ℕ
cursor_move_horizontal_absolute n = numbered n 100

unfoldable pub scroll_up : ℕ → List ℕ
scroll_up n = numbered n 83

unfoldable pub scroll_down : ℕ → List ℕ
scroll_down n = numbered n 84

unfoldable pub set_cursor_style : ℕ → List ℕ
set_cursor_style n = numbered n 109

abbrev cursor_reset : List ℕ
cursor_reset = put_head ++ codes "H"

abbrev clear_screen_from_cursor : List ℕ
clear_screen_from_cursor = put_head ++ codes "J"

abbrev clear_screen_to_cursor : List ℕ
clear_screen_to_cursor = put_head ++ codes "1J"

abbrev clear_screen : List ℕ
clear_screen = put_head ++ codes "2J"

abbrev clear_line_from_cursor : List ℕ
clear_line_from_cursor = put_head ++ codes "K"

abbrev clear_line_to_cursor : List ℕ
clear_line_to_cursor = put_head ++ codes "1K"

abbrev clear_line : List ℕ
clear_line = put_head ++ codes "2K"

abbrev save_cursor_position : List ℕ
save_cursor_position = put_head ++ codes "s"

abbrev restore_cursor_position : List ℕ
restore_cursor_position = put_head ++ codes "u"

abbrev reset_screen : List ℕ
reset_screen = 27 ∷ (codes "c" ++ (put_head ++ codes "H"))

abbrev hide_cursor : List ℕ
hide_cursor = put_head ++ (codes "?" ++ (put_code 25 ++ codes "l"))

abbrev show_cursor : List ℕ
show_cursor = put_head ++ (codes "?" ++ (put_code 25 ++ codes "h"))

unfoldable pub set_cursor_color : ℕ → List ℕ
set_cursor_color color = put_head ++ (codes "3" ++ (put_code color ++ codes "m"))

unfoldable pub set_cursor_background_color : ℕ → List ℕ
set_cursor_background_color color = put_head ++ (codes "4" ++ (put_code color ++ codes "m"))

-- The stacks have ANSI_STACK_SIZE places.
abbrev pub ansi_stack_size : ℕ
ansi_stack_size = 16

pub record Ansi : Type 0 where
  pub cur_color : ℕ
  pub cur_style : ℕ
  pub color_stack : List ℕ
  pub style_stack : List ℕ
  pub color_stack_ptr : ℕ
  pub style_stack_ptr : ℕ

unfoldable pub save_cursor_color : Ansi → Ansi
save_cursor_color s =
    if ltb s.color_stack_ptr ansi_stack_size
    then record s {
      color_stack = set s.color_stack s.color_stack_ptr s.cur_color;
      color_stack_ptr = s.color_stack_ptr + 1;
    }
    else s

unfoldable pub restore_cursor_color : Ansi → Ansi × List ℕ
restore_cursor_color s =
    let color = get_or s.color_stack (s.color_stack_ptr - 1) 0 in
    if ltb 0 s.color_stack_ptr
    then (
      record s { cur_color = color; color_stack_ptr = s.color_stack_ptr - 1 },
      set_cursor_color color,
    )
    else (s, [])

unfoldable pub save_cursor_style : Ansi → Ansi
save_cursor_style s =
    if ltb s.style_stack_ptr ansi_stack_size
    then record s {
      style_stack = set s.style_stack s.style_stack_ptr s.cur_style;
      style_stack_ptr = s.style_stack_ptr + 1;
    }
    else s

unfoldable pub restore_cursor_style : Ansi → Ansi × List ℕ
restore_cursor_style s =
    let style = get_or s.style_stack (s.style_stack_ptr - 1) 0 in
    if ltb 0 s.style_stack_ptr
    then (
      record s { cur_style = style; style_stack_ptr = s.style_stack_ptr - 1 },
      set_cursor_style style,
    )
    else (s, [])
