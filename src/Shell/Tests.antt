-- ===== src/Shell/Tests.antt =====
-- kernel/shell/shell.c: lines that are typed.
use echo_os.Base.{ℕ, List, [], ◌∷◌, ◌>>=◌, ◌≡◌, refl, arith}
use echo_os.Shell.{shell_buf_size, take_line}
use echo_os.Shell.Samples.{fresh, fresh-Holds}
use echo_os.Shell.Editor.{type_keys, edit_all}
use echo_os.Shell.Take.{Taken, typed_line}

-- "lx", backspace, "s".
abbrev keys : List ℕ
keys = 108 ∷ 120 ∷ 8 ∷ 115 ∷ []

edited : edit_all [] keys ≡ 108 ∷ 115 ∷ []
edited = refl

typed_line_example :
    Taken (edit_all [] keys) (type_keys fresh keys >>= λ sh'. take_line shell_buf_size sh' 0)
typed_line_example = typed_line fresh [] keys refl fresh-Holds (omega arith)
