-- ===== src/Shell/Line.antt =====
-- kernel/shell/shell.c: the ring buffer, and the line that it holds.
use echo_os.Base.{
  ℕ, zero, suc, ◌+◌, ◌%◌, ◌<◌, ◌≤◌, not, ◌&&◌, List, [], ◌∷◌, ◌++◌, ◌==◌, if◌then◌else◌, length,
  get_or, set, ◌≡◌, refl, ◌∙◌, arith, get_or-set_self, get_or-set_ne,
}
use mathlib.Core.Path.{subst}
use echo_os.Shell.{Shell, shell_buf_size}

-- The specification: a line of text without a bound, and what a key does to it.
abbrev pub drop_last : List ℕ → List ℕ
drop_last [] = []
drop_last (c ∷ []) = []
drop_last (c ∷ (d ∷ line)) = c ∷ drop_last (d ∷ line)

abbrev pub edit : List ℕ → ℕ → List ℕ
edit line c =
    if c == 10
    then line
    else if not (c == 8) && not (c == 0)
    then line ++ (c ∷ [])
    else if c == 8
    then drop_last line
    else line

-- The characters from slot `start` of the ring on are the line.
abbrev pub Ring : List ℕ → ℕ → List ℕ → Type 0
Ring buf start [] = Unit
Ring buf start (c ∷ line) = (get_or buf start 0 ≡ c) × Ring buf ((start + 1) % shell_buf_size) line

pub record Holds (sh : Shell) (line : List ℕ) : Type 0 where
  pub size : length sh.buf ≡ shell_buf_size
  pub start_in : sh.start_ptr < shell_buf_size
  pub short : length line < shell_buf_size
  pub end_at : sh.end_ptr ≡ (sh.start_ptr + length line) % shell_buf_size
  pub ring : Ring sh.buf sh.start_ptr line

-- A write behind the line, or in front of it, leaves the line.
pub Ring-set :
    (buf : List ℕ) (start d j v : ℕ) (line : List ℕ)
    → start < shell_buf_size
    → j ≡ (start + d) % shell_buf_size
    → length line ≤ d
    → d < shell_buf_size
    → Ring buf start line
    → Ring (set buf j v) start line
Ring-set buf start d j v [] s e le lt r = tt
Ring-set buf start zero j v (c ∷ line) s e le lt r = absurd (omega arith)
Ring-set buf start (suc d) j v (c ∷ line) s e le lt (here, rest) = (
  get_or-set_ne buf j start v 0 (λ same. omega (arith, same)) ∙ here,
  Ring-set buf ((start + 1) % shell_buf_size) d j v line (omega arith) (omega arith) (omega arith)
      (omega arith) rest,
)

pub Ring-snoc :
    (buf : List ℕ) (start j c : ℕ) (line : List ℕ)
    → length buf ≡ shell_buf_size
    → start < shell_buf_size
    → j ≡ (start + length line) % shell_buf_size
    → length line < shell_buf_size
    → Ring buf start line
    → Ring (set buf j c) start (line ++ (c ∷ []))
Ring-snoc buf start j c [] size s e lt r =
    let same : j ≡ start = omega arith in
    (subst (λ i. get_or (set buf j c) i 0 ≡ c) same (get_or-set_self buf j c 0 (omega arith)), tt)
Ring-snoc buf start j c (d ∷ line) size s e lt (here, rest) = (
  get_or-set_ne buf j start c 0 (λ same. omega (arith, same)) ∙ here,
  Ring-snoc buf ((start + 1) % shell_buf_size) j c line size (omega arith) (omega arith)
      (omega arith) rest,
)

pub Ring-drop_last :
    (buf : List ℕ) (start : ℕ) (line : List ℕ)
    → Ring buf start line
    → Ring buf start (drop_last line)
Ring-drop_last buf start [] r = tt
Ring-drop_last buf start (c ∷ []) r = tt
Ring-drop_last buf start (c ∷ (d ∷ line)) (here, rest) =
    (here, Ring-drop_last buf ((start + 1) % shell_buf_size) (d ∷ line) rest)

pub length-drop_last :
    (c : ℕ) (line : List ℕ) → length (drop_last (c ∷ line)) + 1 ≡ length (c ∷ line)
length-drop_last c [] = refl
length-drop_last c (d ∷ line) = omega (arith, length-drop_last d line)
