-- ===== src/Shell/Editor.antt =====
-- kernel/shell/shell.c: the ring buffer implements a line editor.
use echo_os.Base.{
  length-snoc, ℕ, ◌+◌, ◌%◌, ◌<◌, ◌≤◌, ◌↔◌, Bool, true, false, not, ◌&&◌, List, [], ◌∷◌, ◌++◌, Exec,
  done, fault, timeout, ◌>>=◌, ◌==◌, if◌then◌else◌, length, set, ◌≡◌, refl, sym, ◌∙◌, arith, lt→ltb,
  ==_iff, length-set,
}
use mathlib.Core.Path.{subst}
use echo_os.Shell.{Shell, shell_buf_size, push_char, pop_char, press_key, shell_buf_update}
use echo_os.Shell.Line.{drop_last, edit, Holds, Ring-snoc, Ring-drop_last, length-drop_last}

-- What a key gives: the shell is still enabled and its ring has the line.
abbrev pub Edited : List ℕ → Exec (Shell × List ℕ) → Type 0
Edited line (done (sh, echo)) = (sh.enabled ≡ true) × Holds sh line
Edited line fault = ⊥
Edited line timeout = ⊥

pub push_char-Edited :
    (sh : Shell) (line : List ℕ) (c : ℕ)
    → sh.enabled ≡ true
    → Holds sh line
    → length line + 1 < shell_buf_size
    → Edited (line ++ (c ∷ [])) (push_char sh c)
push_char-Edited sh line c on h short =
    let inside : sh.end_ptr < length sh.buf = omega (arith, h.size, h.end_at) in
    subst
      (λ b. Edited (line ++ (c ∷ [])) (
        if b
        then done (
          record sh { buf = set sh.buf sh.end_ptr c; end_ptr = (sh.end_ptr + 1) % shell_buf_size },
          c ∷ [],
        )
        else fault))
      (sym (lt→ltb sh.end_ptr (length sh.buf) inside))
      (
        on,
        record {
          size = length-set sh.buf sh.end_ptr c ∙ h.size;
          start_in = h.start_in;
          short = omega (arith, length-snoc line c, short);
          end_at = omega (arith, h.end_at, length-snoc line c, h.start_in);
          ring =
              Ring-snoc sh.buf sh.start_ptr sh.end_ptr c line h.size h.start_in h.end_at h.short
                h.ring;
        },
      )

pop_char-Edited :
    (sh : Shell) (d : ℕ) (line : List ℕ)
    → sh.enabled ≡ true
    → Holds sh (d ∷ line)
    → Edited (drop_last (d ∷ line)) (done (pop_char sh))
pop_char-Edited sh d line on h = (
  on,
  record {
    size = h.size;
    start_in = h.start_in;
    short = omega (arith, length-drop_last d line, h.short);
    end_at = omega (arith, h.end_at, length-drop_last d line, h.start_in, h.short);
    ring = Ring-drop_last sh.buf sh.start_ptr (d ∷ line) h.ring;
  },
)

-- Backspace: `same` is the test whether the ring is empty.
backspace-Edited :
    (sh : Shell) (line : List ℕ) (same : Bool)
    → (same ≡ true ↔ (sh.end_ptr ≡ sh.start_ptr))
    → sh.enabled ≡ true
    → Holds sh line
    → Edited (drop_last line) (if not same then done (pop_char sh) else done (sh, []))
backspace-Edited sh [] true iff on h = (on, h)
backspace-Edited sh [] false iff on h =
    let met : sh.end_ptr ≡ sh.start_ptr = omega (arith, h.end_at, h.start_in) in
    ground (arith, iff.1 met)
backspace-Edited sh (d ∷ line) true iff on h =
    absurd (omega (arith, iff.0 refl, h.end_at, h.start_in, h.short))
backspace-Edited sh (d ∷ line) false iff on h = pop_char-Edited sh d line on h

press_key-cases :
    (sh : Shell) (line : List ℕ) (c : ℕ) (enter back nul : Bool)
    → sh.enabled ≡ true
    → Holds sh line
    → length line + 1 < shell_buf_size
    → Edited
        (if enter
          then line
          else if not back && not nul
          then line ++ (c ∷ [])
          else if back
          then drop_last line
          else line)
        (if enter
          then done (record sh { handle_cmd_flag = true }, c ∷ [])
          else if not back && not nul
          then push_char sh c
          else if back && not (sh.end_ptr == sh.start_ptr)
          then done (pop_char sh)
          else done (sh, []))
press_key-cases sh line c true back nul on h short = (
  on,
  record {
    size = h.size;
    start_in = h.start_in;
    short = h.short;
    end_at = h.end_at;
    ring = h.ring;
  },
)
press_key-cases sh line c false false false on h short = push_char-Edited sh line c on h short
press_key-cases sh line c false false true on h short = (on, h)
press_key-cases sh line c false true nul on h short =
    backspace-Edited sh line (sh.end_ptr == sh.start_ptr) (==_iff sh.end_ptr sh.start_ptr) on h

pub shell_buf_update-Edited :
    (sh : Shell) (line : List ℕ) (c : ℕ)
    → sh.enabled ≡ true
    → Holds sh line
    → length line + 1 < shell_buf_size
    → Edited (edit line c) (shell_buf_update sh c 1)
unfolding shell_buf_update
shell_buf_update-Edited sh line c on h short =
    subst (λ b. Edited (edit line c) (if not b then done (sh, []) else press_key sh c)) (sym on)
      (press_key-cases sh line c (c == 10) (c == 8) (c == 0) on h short)

-- The calls of the handler for the keys that are pressed, in their order.
abbrev pub type_keys : Shell → List ℕ → Exec Shell
type_keys sh [] = done sh
type_keys sh (c ∷ keys) = shell_buf_update sh c 1 >>= λ (sh', echo). type_keys sh' keys

abbrev pub edit_all : List ℕ → List ℕ → List ℕ
edit_all line [] = line
edit_all line (c ∷ keys) = edit_all (edit line c) keys

drop_last-short : (line : List ℕ) → length (drop_last line) ≤ length line
drop_last-short [] = omega arith
drop_last-short (c ∷ line) = omega (arith, length-drop_last c line)

edit-short : (line : List ℕ) (c : ℕ) → length (edit line c) ≤ length line + 1
edit-short line c = ground (arith, length-snoc line c, drop_last-short line)

abbrev pub Typed : List ℕ → Exec Shell → Type 0
Typed line (done sh) = (sh.enabled ≡ true) × Holds sh line
Typed line fault = ⊥
Typed line timeout = ⊥

type_next :
    (line : List ℕ) (m : Exec (Shell × List ℕ)) (keys : List ℕ)
    → Edited line m
    → ((sh' : Shell)
        → sh'.enabled ≡ true
        → Holds sh' line
        → Typed (edit_all line keys) (type_keys sh' keys))
    → Typed (edit_all line keys) (m >>= λ (sh', echo). type_keys sh' keys)
type_next line (done (sh', echo)) keys (on, h) next = next sh' on h
type_next line fault keys e next = absurd e
type_next line timeout keys e next = absurd e

pub type_keys-Typed :
    (sh : Shell) (line keys : List ℕ)
    → sh.enabled ≡ true
    → Holds sh line
    → length line + length keys < shell_buf_size
    → Typed (edit_all line keys) (type_keys sh keys)
type_keys-Typed sh line [] on h short = (on, h)
type_keys-Typed sh line (c ∷ keys) on h short =
    type_next (edit line c) (shell_buf_update sh c 1) keys
      (shell_buf_update-Edited sh line c on h (omega (arith, short)))
      (λ sh' on' h'.
        type_keys-Typed sh' (edit line c) keys on' h' (omega (arith, short, edit-short line c)))
