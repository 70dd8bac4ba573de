-- ===== src/Shell/Take.antt =====
-- kernel/shell/shell.c: the line that `handle_cmd` takes from the ring is the line that was typed.
use echo_os.Base.{
  ℕ, zero, suc, ◌+◌, ◌%◌, ◌<◌, ◌≢◌, Bool, true, false, ◌&&◌, List, [], ◌∷◌, Exec, done, fault,
  timeout, ◌>>=◌, ltb, ◌==◌, if◌then◌else◌, length, get_or, set, ◌≡◌, sym, ◌∙◌, arith, lt→ltb,
  length-set,
}
use mathlib.Core.Path.{subst}
use echo_os.Shell.{Shell, shell_buf_size, take_line}
use echo_os.Shell.Line.{Ring, Holds, Ring-set}
use echo_os.Shell.Editor.{Typed, type_keys, edit_all, type_keys-Typed}

abbrev pub Taken : List ℕ → Exec (List ℕ × Shell) → Type 0
Taken line (done (line', sh)) = (line' ≡ line) × Holds sh []
Taken line fault = ⊥
Taken line timeout = ⊥

Taken-cons :
    (c : ℕ) (line : List ℕ) (c' : ℕ) (m : Exec (List ℕ × Shell))
    → c' ≡ c
    → Taken line m
    → Taken (c ∷ line) (m >>= (λ (line', sh'). done (c' ∷ line', sh')))
Taken-cons c line c' (done (line', sh')) here (same, h) = (cc, h)
Taken-cons c line c' fault here t = absurd t
Taken-cons c line c' timeout here t = absurd t

taken_branch :
    (met inside in_buf : Bool) (ended next : Exec (List ℕ × Shell))
    → met ≡ false
    → inside ≡ true
    → in_buf ≡ true
    → (if met then ended else if inside && in_buf then next else fault) ≡ next
taken_branch met inside in_buf ended next a b c = rw (a, b, c)

-- The state after a character has been taken from `slot`.
abbrev without_first : Shell → ℕ → Shell
without_first sh slot = record sh {
  buf = set sh.buf slot 0;
  start_ptr = (slot + 1) % shell_buf_size;
}

Holds-without_first :
    (sh : Shell) (c : ℕ) (line : List ℕ) (slot : ℕ)
    → slot ≡ sh.start_ptr
    → Holds sh (c ∷ line)
    → Holds (without_first sh slot) line
Holds-without_first sh c line slot same h = record {
  size = length-set sh.buf slot 0 ∙ h.size;
  start_in = omega arith;
  short = omega (arith, h.short);
  end_at = omega (arith, h.end_at, same, h.start_in, h.short);
  ring =
      Ring-set sh.buf ((slot + 1) % shell_buf_size) 2047 slot 0 line (omega arith)
        (omega (arith, same, h.start_in)) (omega (arith, h.short)) (omega arith)
        (subst (λ s. Ring sh.buf ((s + 1) % shell_buf_size) line) (sym same) h.ring.1);
}

pub take_line-Taken :
    (fuel : ℕ) (sh : Shell) (line : List ℕ) (i : ℕ)
    → Holds sh line
    → length line < fuel
    → i + length line < 2048
    → Taken line (take_line fuel sh i)
unfolding take_line
take_line-Taken zero sh line i h lt short = absurd (omega arith)
take_line-Taken (suc fuel) sh [] i h lt short =
    let met : sh.start_ptr ≡ sh.end_ptr = omega (arith, h.end_at, h.start_in) in ground (arith, met)
take_line-Taken (suc fuel) sh (c ∷ line) i h lt short =
    let slot : sh.start_ptr % shell_buf_size ≡ sh.start_ptr = omega (arith, h.start_in) in
    let apart : sh.start_ptr ≢ sh.end_ptr =
      λ met. omega (arith, met, h.end_at, h.start_in, h.short) in
    let slot_in : sh.start_ptr % shell_buf_size < length sh.buf =
      omega (arith, slot, h.start_in, h.size) in
    let here : get_or sh.buf (sh.start_ptr % shell_buf_size) 0 ≡ c =
      subst (λ s. get_or sh.buf s 0 ≡ c) (sym slot) h.ring.0 in
    let next : Exec (List ℕ × Shell) =
      take_line fuel (without_first sh (sh.start_ptr % shell_buf_size)) (i + 1)
      >>= (λ (line', sh'). done (get_or sh.buf (sh.start_ptr % shell_buf_size) 0 ∷ line', sh')) in
    subst (Taken (c ∷ line))
      (sym (
        taken_branch (sh.start_ptr == sh.end_ptr) (ltb i 2048)
          (ltb (sh.start_ptr % shell_buf_size) (length sh.buf))
          (if ltb i 2048 then done ([], sh) else fault) next (ground (arith, apart))
          (lt→ltb i 2048 (omega (arith, short)))
          (lt→ltb (sh.start_ptr % shell_buf_size) (length sh.buf) slot_in)))
      (Taken-cons c line (get_or sh.buf (sh.start_ptr % shell_buf_size) 0)
        (take_line fuel (without_first sh (sh.start_ptr % shell_buf_size)) (i + 1)) here
        (take_line-Taken fuel (without_first sh (sh.start_ptr % shell_buf_size)) line (i + 1)
          (Holds-without_first sh c line (sh.start_ptr % shell_buf_size) slot h) (omega (arith, lt))
          (omega (arith, short))))

take_after :
    (line : List ℕ) (m : Exec Shell)
    → Typed line m
    → Taken line (m >>= λ sh'. take_line shell_buf_size sh' 0)
take_after line (done sh') (on, h) =
    take_line-Taken shell_buf_size sh' line 0 h h.short (omega (arith, h.short))
take_after line fault t = absurd t
take_after line timeout t = absurd t

-- On a shell that is enabled and whose ring has a line, with room for every key, typing the keys and
-- taking the line ends. It gives the line as an editor without a bound leaves it, where a newline and
-- the character 0 change nothing and a backspace takes the last character away, and the ring is empty.
pub typed_line :
    (sh : Shell) (line keys : List ℕ)
    → sh.enabled ≡ true
    → Holds sh line
    → length line + length keys < shell_buf_size
    → Taken (edit_all line keys) (type_keys sh keys >>= λ sh'. take_line shell_buf_size sh' 0)
typed_line sh line keys on h short =
    take_after (edit_all line keys) (type_keys sh keys) (type_keys-Typed sh line keys on h short)
