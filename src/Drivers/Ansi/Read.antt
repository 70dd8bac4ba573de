-- ===== src/Drivers/Ansi/Read.antt =====
-- include/drivers/ansi.h: what a terminal reads in the sequences.
use echo_os.Base.{
  true_and, append_nil, ℕ, ◌+◌, ◌-◌, ◌*◌, ◌<◌, Bool, true, false, ◌&&◌, List, [], ◌∷◌, ◌++◌, Option,
  none, some, leb, ◌==◌, if◌then◌else◌, ◌≡◌, refl, sym, ap, ◌∙◌, each_below, each_below-holds,
  ==_iff,
}
use echo_os.Base.Text.{codes}
use echo_os.Drivers.Ansi.{
  put_code, code_digits, numbered, cursor_move_to, cursor_move_previous_line, cursor_move_up,
  cursor_move_down, cursor_move_forward, cursor_move_backward, cursor_move_next_line,
  cursor_move_horizontal, cursor_move_horizontal_absolute, scroll_up, scroll_down, set_cursor_style,
}

abbrev pub is_digit : ℕ → Bool
is_digit c = leb 48 c && leb c 57

abbrev pub and_parameter : ℕ → Option (List ℕ × ℕ) → Option (List ℕ × ℕ)
and_parameter n none = none
and_parameter n (some (ns, final)) = some (n ∷ ns, final)

-- The parameters, the last one so far in `acc`, up to the letter that ends the sequence.
unfoldable pub read_parameters : ℕ → List ℕ → Option (List ℕ × ℕ)
read_parameters acc [] = none
read_parameters acc (c ∷ out) =
    let more = read_parameters 0 out in
    let digit = read_parameters (acc * 10 + (c - 48)) out in
    if is_digit c then digit else if c == 59 then and_parameter acc more else some (acc ∷ [], c)

-- An escape sequence: its parameters and its letter.
unfoldable pub read_sequence : List ℕ → Option (List ℕ × ℕ)
read_sequence [] = none
read_sequence (a ∷ []) = none
read_sequence (a ∷ (b ∷ out)) = if (a == 27) && (b == 91) then read_parameters 0 out else none

all_digits : List ℕ → Bool
all_digits [] = true
all_digits (c ∷ cs) = is_digit c && all_digits cs

value : ℕ → List ℕ → ℕ
value acc [] = acc
value acc (c ∷ cs) = value (acc * 10 + (c - 48)) cs

read-digits :
    (acc : ℕ) (cs out : List ℕ)
    → all_digits cs ≡ true
    → read_parameters acc (cs ++ out) ≡ read_parameters (value acc cs) out
unfolding read_parameters all_digits value
read-digits acc [] out e = refl
read-digits acc (c ∷ cs) out e =
    let (here, later) = true_and (is_digit c) (all_digits cs) e in
    rw here (read-digits (acc * 10 + (c - 48)) cs out later)

-- Every byte is written in digits that read as it.
code_table : each_below 256 (λ n. all_digits (put_code n) && (value 0 (put_code n) == n)) ≡ true
unfolding each_below all_digits value put_code code_digits
code_table = refl

read-code :
    (n : ℕ) (out : List ℕ) → n < 256 → read_parameters 0 (put_code n ++ out) ≡ read_parameters n out
read-code n out lt =
    let (digits, same) = true_and (all_digits (put_code n)) (value 0 (put_code n) == n) (
      each_below-holds 256 (λ k. all_digits (put_code k) && (value 0 (put_code k) == k)) n
        code_table lt) in
    read-digits 0 (put_code n) out digits
    ∙ ap (λ acc. read_parameters acc out) ((==_iff (value 0 (put_code n)) n).0 same)

read-numbered :
    (n final : ℕ)
    → n < 256
    → is_digit final ≡ false
    → (final == 59) ≡ false
    → read_sequence (numbered n final) ≡ some (n ∷ [], final)
unfolding read_sequence read_parameters
read-numbered n final lt no_digit no_semicolon =
    read-code n (final ∷ []) lt ∙ rw (no_digit, no_semicolon) refl

read-previous : (n : ℕ) → n < 256 → read_sequence (cursor_move_previous_line n) ≡ none
unfolding read_sequence read_parameters cursor_move_previous_line
read-previous n lt = ap (read_parameters 0) (sym (append_nil (put_code n))) ∙ read-code n [] lt

read-move_to :
    (x y : ℕ) → x < 256 → y < 256 → read_sequence (cursor_move_to x y) ≡ some (y ∷ (x ∷ []), 72)
unfolding read_sequence read_parameters cursor_move_to
read-move_to x y x_lt y_lt =
    read-code y (59 ∷ (put_code x ++ codes "H")) y_lt
    ∙ ap (and_parameter y) (read-code x (codes "H") x_lt)

-- A terminal reads the move to column `x` and row `y`, bytes, as these parameters, the row first, and
-- each of the other moves and the styles, but one, as its number and its letter. The move to a previous
-- line is read as no sequence, since its letter is missing.
pub read-moves :
    (x y n : ℕ)
    → x < 256
    → y < 256
    → n < 256
    → (read_sequence (cursor_move_to x y) ≡ some (y ∷ (x ∷ []), 72))
      × (read_sequence (cursor_move_up n) ≡ some (n ∷ [], 65))
      × (read_sequence (cursor_move_down n) ≡ some (n ∷ [], 66))
      × (read_sequence (cursor_move_forward n) ≡ some (n ∷ [], 67))
      × (read_sequence (cursor_move_backward n) ≡ some (n ∷ [], 68))
      × (read_sequence (cursor_move_next_line n) ≡ some (n ∷ [], 69))
      × (read_sequence (cursor_move_previous_line n) ≡ none)
      × (read_sequence (cursor_move_horizontal n) ≡ some (n ∷ [], 71))
      × (read_sequence (cursor_move_horizontal_absolute n) ≡ some (n ∷ [], 100))
      × (read_sequence (scroll_up n) ≡ some (n ∷ [], 83))
      × (read_sequence (scroll_down n) ≡ some (n ∷ [], 84))
      × (read_sequence (set_cursor_style n) ≡ some (n ∷ [], 109))
unfolding cursor_move_up cursor_move_down cursor_move_forward cursor_move_backward
    cursor_move_next_line cursor_move_horizontal cursor_move_horizontal_absolute scroll_up
    scroll_down set_cursor_style
read-moves x y n x_lt y_lt n_lt = (
  read-move_to x y x_lt y_lt,
  read-numbered n 65 n_lt refl refl,
  read-numbered n 66 n_lt refl refl,
  read-numbered n 67 n_lt refl refl,
  read-numbered n 68 n_lt refl refl,
  read-numbered n 69 n_lt refl refl,
  read-previous n n_lt,
  read-numbered n 71 n_lt refl refl,
  read-numbered n 100 n_lt refl refl,
  read-numbered n 83 n_lt refl refl,
  read-numbered n 84 n_lt refl refl,
  read-numbered n 109 n_lt refl refl,
)
