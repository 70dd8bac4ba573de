-- ===== src/App/Vim/Tests.antt =====
-- kernel/app/vim.c: short texts.
use echo_os.Base.{ℕ, ◌-◌, List, [], ◌∷◌, refl, arith, get_or}
use echo_os.Utils.Memory.{Memory}
use echo_os.App.Vim.{create_copy}
use echo_os.App.Vim.Session.{opened}
use echo_os.App.Vim.Saved.{Opened, create_copy-Opened}

-- "ab", a newline and "c", at 100.
abbrev note : List ℕ
note = 97 ∷ 98 ∷ 10 ∷ 99 ∷ []

abbrev memory : Memory
memory q = get_or note (q - 100) 0

create_copy-Opened_example : Opened memory 100 note (create_copy 5 memory 100 opened)
create_copy-Opened_example =
    create_copy-Opened 5 memory 100 opened note
      (refl, refl, (refl, refl, (refl, refl, (refl, refl, refl)))) (omega arith) refl
