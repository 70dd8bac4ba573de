-- ===== src/Sched/Fork/Empty.antt =====
-- kernel/sched/fork.c, `find_empty_process`: the lowest free slot.
use echo_os.Base.{
  ℕ, zero, suc, ◌+◌, ◌<◌, ◌≤◌, List, [], ◌∷◌, Option, none, some, ◌≡◌, refl, arith, get_or, length,
  sym, ◌∙◌,
}
use mathlib.Core.Path.{subst}
use echo_os.Base.Int.{ℤ, pos, negsuc}
use echo_os.Sched.Task.{Task, Sched, task_at}
use echo_os.Sched.Schedule.Wake.{IsOccupied}
use echo_os.Sched.Fork.{find_from, find_empty_process}

abbrev Taken : List (Option Task) → ℕ → Type 0
Taken ts k = (t : Task) × (get_or ts k none ≡ some t)

abbrev Found : ℕ → List (Option Task) → ℤ → Type 0
Found i ts (negsuc n) = (n ≡ 10) × ((k : ℕ) → k < length ts → Taken ts k)
Found i ts (pos nr) =
    (k : ℕ) × (nr ≡ i + k)
    × (k < length ts)
    × (get_or ts k none ≡ none)
    × ((j : ℕ) → j < k → Taken ts j)

one_more :
    (t : Task) (ts : List (Option Task)) (n : ℕ)
    → ((k : ℕ) → k < n → Taken ts k)
    → (k : ℕ) → k < suc n
    → Taken (some t ∷ ts) k
one_more t ts n taken zero lt = (t, refl)
one_more t ts n taken (suc k) lt = taken k (omega arith)

Found-later :
    (i : ℕ) (t : Task) (ts : List (Option Task)) (r : ℤ)
    → Found (i + 1) ts r
    → Found i (some t ∷ ts) r
Found-later i t ts (negsuc n) (e, taken) = (e, one_more t ts (length ts) taken)
Found-later i t ts (pos nr) (k, e, lt, free, taken) =
    (suc k, omega arith, omega arith, free, one_more t ts k taken)

find_from_lem : (i : ℕ) (ts : List (Option Task)) → Found i ts (find_from i ts)
find_from_lem i [] = (refl, λ k lt. absurd (omega arith))
find_from_lem i (none ∷ ts) = (0, omega arith, omega arith, refl, λ j lt. absurd (omega arith))
find_from_lem i (some t ∷ ts) = Found-later i t ts (find_from (i + 1) ts) (find_from_lem (i + 1) ts)

abbrev pub FirstEmpty : Sched → ℤ → Type 0
FirstEmpty s (negsuc n) = (n ≡ 10) × ((j : ℕ) → j ≤ length s.rest → IsOccupied s j)
FirstEmpty s (pos nr) =
    (0 < nr) × (nr ≤ length s.rest) × (task_at s nr ≡ none) × ((j : ℕ) → j < nr → IsOccupied s j)

occupied :
    (s : Sched) (n : ℕ) → ((k : ℕ) → k < n → Taken s.rest k) → (j : ℕ) → j < suc n → IsOccupied s j
occupied s n taken zero lt = (s.idle, refl)
occupied s n taken (suc j) lt = taken j (omega arith)

first_empty : (s : Sched) (r : ℤ) → Found 1 s.rest r → FirstEmpty s r
first_empty s (negsuc n) (e, taken) = (e, λ j le. occupied s (length s.rest) taken j (omega arith))
first_empty s (pos nr) (k, e, lt, free, taken) =
    subst (λ n. FirstEmpty s (pos n)) (sym (e ∙ omega arith))
      (let at_k : FirstEmpty s (pos (suc k)) =
          (omega arith, omega arith, free, λ j l. occupied s k taken j l) in
        at_k)

-- `find_empty_process` returns the lowest slot from 1 on that holds no task, every slot below it
-- being in use; it returns -EAGAIN only when each slot of the table is in use.
pub find_empty_process_lem : (s : Sched) → FirstEmpty s (find_empty_process s)
unfolding find_empty_process
find_empty_process_lem s = first_empty s (find_from 1 s.rest) (find_from_lem 1 s.rest)
