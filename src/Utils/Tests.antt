-- ===== src/Utils/Tests.antt =====
-- kernel/utils: runs on a small memory.
use echo_os.Base.{ℕ, List, [], ◌∷◌, done, ◌≡◌, refl, arith, inr, ◌⊎◌, take}
use echo_os.Utils.Memory.{Memory, store, memcpy}
use echo_os.Utils.Memory.Laws.{memcpy_outside}
use echo_os.Utils.Split.{split}
use echo_os.Utils.Split.Join.{Rows, split_lem}
use echo_os.Utils.Strings.{strcmp, strncmp}
use echo_os.Utils.Strings.Compare.{Holds, strcmp_lem, shared, strncmp_lem}

-- "ls" at address 16, "lsx" at address 32, and zeros.
abbrev memory : Memory
memory = store (store (store (store (store (λ q. 0) 16 108) 17 115) 32 108) 33 115) 34 120

abbrev ls : List ℕ
ls = 108 ∷ 115 ∷ []

abbrev lsx : List ℕ
lsx = 108 ∷ 115 ∷ 120 ∷ []

ls_there : Holds memory 16 ls
ls_there = (refl, λ e. omega (arith, e), (refl, λ e. omega (arith, e), refl))

lsx_there : Holds memory 32 lsx
lsx_there = (
  refl,
  λ e. omega (arith, e),
  (refl, λ e. omega (arith, e), (refl, λ e. omega (arith, e), refl)),
)

-- "ls" and "lsx" are equal to `strncmp`.
strncmp_prefix : strncmp memory 16 32 3 ≡ 0
unfolding strncmp
strncmp_prefix = refl

memcpy_outside_example : memcpy memory 64 16 3 67 ≡ memory 67
memcpy_outside_example = memcpy_outside memory 64 16 3 67 (inr (omega arith))

strcmp_lem_example :
    ((strcmp 9 memory 16 32 ≡ done 0) × (ls ≡ lsx))
    ⊎ ((strcmp 9 memory 16 32 ≡ done 1) × (¬ (ls ≡ lsx)))
strcmp_lem_example = strcmp_lem memory 16 32 ls lsx 9 ls_there lsx_there (omega arith)

strncmp_lem_example :
    ((strncmp memory 16 32 3 ≡ 0) × (take (shared 3 ls lsx) ls ≡ take (shared 3 ls lsx) lsx))
    ⊎ ((strncmp memory 16 32 3 ≡ 1) × (¬ (take (shared 3 ls lsx) ls ≡ take (shared 3 ls lsx) lsx)))
strncmp_lem_example = strncmp_lem memory 16 32 3 ls lsx ls_there lsx_there

-- "ls x" at the blank.
split_lem_example :
    Rows 32 (108 ∷ 115 ∷ 32 ∷ 120 ∷ []) (split 5 (108 ∷ 115 ∷ 32 ∷ 120 ∷ []) (32 ∷ []))
split_lem_example = split_lem 5 32 (108 ∷ 115 ∷ 32 ∷ 120 ∷ []) (omega arith) (omega arith)
