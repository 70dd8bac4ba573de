-- ===== src/Trap/Frame/Words.antt =====
-- kernel/trap/trap.c: what the stores put into a frame, the loads give back.
use echo_os.Base.{
  ℕ, ◌+◌, ◌<◌, ◌≤◌, List, [], ◌∷◌, ◌++◌, map, ◌==◌, ◌≡◌, refl, sym, ap, ◌∙◌, ◌⊎◌, inl, inr, ◌≢◌,
  arith, Bool-cases, ==_iff, ==_false,
}
use echo_os.Trap.Frame.{Machine, Instr, put, at, step, run, sp, save, restore, reversed}

pub put-here : (f : ℕ → ℕ) (n v : ℕ) → put f n v n ≡ v
put-here f n v = rw ((==_iff n n).1 refl) refl

pub put-other : (f : ℕ → ℕ) (n v k : ℕ) → k ≢ n → put f n v k ≡ f k
put-other f n v k ne = elim (Bool-cases (k == n)) [
  | inl e ↦ absurd (ne ((==_iff k n).0 e))
  | inr e ↦ rw e refl
]

pub run-append : (s : Machine) (xs ys : List Instr) → run s (xs ++ ys) ≡ run (run s xs) ys
unfolding run
run-append s [] ys = refl
run-append s (x ∷ xs) ys = run-append (step s x) xs ys

-- The offsets of a frame go up from `low` and stay below 264.
abbrev pub Ascending : ℕ → List (ℕ × ℕ) → Type 0
Ascending low [] = Unit
Ascending low ((r, offset) ∷ ps) = (low ≤ offset) × (offset < 264) × Ascending (offset + 1) ps

-- The word of each register in a frame at `base` is the one that `regs` gives.
abbrev pub Saved : (ℕ → ℕ) → ℕ → (ℕ → ℕ) → List (ℕ × ℕ) → Type 0
Saved mem base regs [] = Unit
Saved mem base regs ((r, offset) ∷ ps) = (mem (at base offset) ≡ regs r) × Saved mem base regs ps

-- Words below the frame are left alone.
run-save-below :
    (s : Machine) (ps : List (ℕ × ℕ)) (low offset : ℕ)
    → Ascending low ps
    → offset < low
    → (run s (map save ps)).mem (at (s.reg sp) offset) ≡ s.mem (at (s.reg sp) offset)
unfolding run step
run-save-below s [] low offset up lt = refl
run-save-below s ((r, o) ∷ ps) low offset (le, small, up) lt =
    run-save-below (step s (save (r, o))) ps (o + 1) offset up (omega (arith, le, lt))
    ∙ put-other s.mem (at (s.reg sp) o) (s.reg r) (at (s.reg sp) offset)
        (λ e. omega (arith, e, le, lt, small))

pub run-save-reg : (s : Machine) (ps : List (ℕ × ℕ)) → (run s (map save ps)).reg ≡ s.reg
unfolding run step
run-save-reg s [] = refl
run-save-reg s ((r, o) ∷ ps) = run-save-reg (step s (save (r, o))) ps

pub run-save-Saved :
    (s : Machine) (ps : List (ℕ × ℕ)) (low : ℕ)
    → Ascending low ps
    → Saved (run s (map save ps)).mem (s.reg sp) s.reg ps
unfolding run step
run-save-Saved s [] low up = tt
run-save-Saved s ((r, o) ∷ ps) low (le, small, up) = (
  run-save-below (step s (save (r, o))) ps (o + 1) o up (omega arith)
      ∙ put-here s.mem (at (s.reg sp) o) (s.reg r),
  run-save-Saved (step s (save (r, o))) ps (o + 1) up,
)

-- A register that the loads name.
abbrev pub In : ℕ → List (ℕ × ℕ) → Type 0
In q [] = ⊥
In q ((r, offset) ∷ ps) = (q ≡ r) ⊎ In q ps

loaded_here :
    (s : Machine) (r o : ℕ) (regs : ℕ → ℕ)
    → s.mem (at (regs sp) o) ≡ regs r
    → s.reg sp ≡ regs sp
    → (k : ℕ) → k ≡ r
    → (step s (restore (r, o))).reg k ≡ regs k
unfolding step
loaded_here s r o regs here at_sp k e =
    ap (put s.reg r (s.mem (at (s.reg sp) o))) e
    ∙ (put-here s.reg r (s.mem (at (s.reg sp) o))
        ∙ (ap (λ b. s.mem (at b o)) at_sp ∙ (here ∙ ap regs (sym e))))

-- A load gives its register the value from the frame, and leaves the others.
loaded :
    (s : Machine) (r o : ℕ) (regs : ℕ → ℕ)
    → s.mem (at (regs sp) o) ≡ regs r
    → s.reg sp ≡ regs sp
    → (k : ℕ) → (k ≡ r) ⊎ (s.reg k ≡ regs k)
    → (step s (restore (r, o))).reg k ≡ regs k
unfolding step
loaded s r o regs here at_sp k known = elim (Bool-cases (k == r)) [
  | inl e ↦ loaded_here s r o regs here at_sp k ((==_iff k r).0 e)
  | inr e ↦
      put-other s.reg r (s.mem (at (s.reg sp) o)) k (==_false k r e)
      ∙ elim known [ inl is_r ↦ absurd (==_false k r e is_r) | inr same ↦ same ]
]

-- Loads from a frame give its registers back, as long as they find the stack pointer.
pub run-restore :
    (s : Machine) (ps : List (ℕ × ℕ)) (regs : ℕ → ℕ)
    → Saved s.mem (regs sp) regs ps
    → s.reg sp ≡ regs sp
    → (q : ℕ) → In q ps ⊎ (s.reg q ≡ regs q)
    → (run s (map restore ps)).reg q ≡ regs q
unfolding run step
run-restore s [] regs saved at_sp q (inl e) = absurd e
run-restore s [] regs saved at_sp q (inr e) = e
run-restore s ((r, o) ∷ ps) regs (here, saved) at_sp q known =
    run-restore (step s (restore (r, o))) ps regs saved
      (loaded s r o regs here at_sp sp (inr at_sp)) q
      (elim known [
        | inl (inl e) ↦ inr (loaded s r o regs here at_sp q (inl e))
        | inl (inr later) ↦ inl later
        | inr same ↦ inr (loaded s r o regs here at_sp q (inr same))
      ])

-- A frame in reverse.
Saved-snoc :
    (mem : ℕ → ℕ) (base : ℕ) (regs : ℕ → ℕ) (ps : List (ℕ × ℕ)) (r o : ℕ)
    → Saved mem base regs ps
    → mem (at base o) ≡ regs r
    → Saved mem base regs (ps ++ ((r, o) ∷ []))
Saved-snoc mem base regs [] r o saved here = (here, tt)
Saved-snoc mem base regs ((r', o') ∷ ps) r o (first, saved) here =
    (first, Saved-snoc mem base regs ps r o saved here)

pub Saved-reversed :
    (mem : ℕ → ℕ) (base : ℕ) (regs : ℕ → ℕ) (ps : List (ℕ × ℕ))
    → Saved mem base regs ps
    → Saved mem base regs (reversed ps)
Saved-reversed mem base regs [] saved = tt
Saved-reversed mem base regs ((r, o) ∷ ps) (here, saved) =
    Saved-snoc mem base regs (reversed ps) r o (Saved-reversed mem base regs ps saved) here

pub Saved-kept :
    (mem mem' : ℕ → ℕ) (base : ℕ) (regs : ℕ → ℕ) (low : ℕ) (ps : List (ℕ × ℕ))
    → Ascending low ps
    → ((offset : ℕ) → offset < 264 → mem' (at base offset) ≡ mem (at base offset))
    → Saved mem base regs ps
    → Saved mem' base regs ps
Saved-kept mem mem' base regs low [] up kept saved = tt
Saved-kept mem mem' base regs low ((r, o) ∷ ps) (le, small, up) kept (here, saved) =
    (kept o small ∙ here, Saved-kept mem mem' base regs (o + 1) ps up kept saved)
