-- ===== src/Shell/Command/Words.antt =====
-- kernel/shell/shell.c: the words of a line with a command and one argument.
use echo_os.Base.{ℕ, ◌+◌, ◌<◌, false, List, [], ◌∷◌, ◌++◌, done, length, ◌==◌, ◌≡◌, refl, ap, ◌∙◌}
use echo_os.Utils.Split.Join.{Without}
use echo_os.Utils.Split.Word.{split_pair}
use echo_os.Shell.Console.{text_of}
use echo_os.Shell.Command.{split_line}
use echo_os.Utils.Split.{split}

-- Text without a blank and without a NUL.
abbrev pub Plain : List ℕ → Type 0
Plain [] = Unit
Plain (c ∷ s) = ((c == 0) ≡ false) × ((c == 32) ≡ false) × Plain s

pub text_of-Plain : (s : List ℕ) → Plain s → text_of s ≡ s
text_of-Plain [] plain = refl
text_of-Plain (c ∷ s) (no_nul, no_blank, plain) =
    rw no_nul (ap (λ t. c ∷ t) (text_of-Plain s plain))

pub Plain-Without : (s : List ℕ) → Plain s → Without 32 s
Plain-Without [] plain = tt
Plain-Without (c ∷ s) (no_nul, no_blank, plain) = (no_blank, Plain-Without s plain)

text_of-pair :
    (cmd name : List ℕ) → Plain cmd → Plain name → text_of (cmd ++ (32 ∷ name)) ≡ cmd ++ (32 ∷ name)
text_of-pair [] name plain plain' = ap (λ t. 32 ∷ t) (text_of-Plain name plain')
text_of-pair (c ∷ cmd) name (no_nul, no_blank, plain) plain' =
    rw no_nul (ap (λ t. c ∷ t) (text_of-pair cmd name plain plain'))

-- The line of a command with one argument.
pub split_line_lem :
    (cmd name : List ℕ)
    → Plain cmd
    → Plain name
    → length cmd < 100
    → length name < 100
    → split_line (cmd ++ (32 ∷ name)) ≡ done (cmd ∷ (name ∷ []))
split_line_lem cmd name plain plain' short short' =
    ap (λ t. split (length t + 1) t (32 ∷ [])) (text_of-pair cmd name plain plain')
    ∙ split_pair cmd name 32 (Plain-Without cmd plain) (Plain-Without name plain') short short'
