-- ===== src/Trap/Frame/Restore.antt =====
-- kernel/trap/trap.c: an interrupt gives every register back.
use echo_os.Base.{
  or_false, true_and, ℕ, ◌+◌, ◌-◌, ◌^◌, ◌<◌, Bool, true, false, List, [], ◌∷◌, map, ◌==◌, ◌≡◌, refl,
  sym, ap, ◌∙◌, inl, inr, ◌≢◌, arith, ◌||◌, each_below, each_below-holds, ltb, ltb→lt, ◌&&◌,
  Bool-cases, ==_iff, ==_false,
}
use mathlib.Core.Path.{subst}
use echo_os.Trap.Frame.{
  Machine, addi_d, put, at, step, run, sp, frame, restore, reversed, save_all, restore_all,
  trap_entry,
}
use echo_os.Trap.Frame.Words.{
  put-other, run-append, Ascending, Saved, In, run-save-reg, run-save-Saved, run-restore,
  Saved-reversed, Saved-kept,
}

is_in : ℕ → List (ℕ × ℕ) → Bool
is_in q [] = false
is_in q ((r, offset) ∷ ps) = (q == r) || is_in q ps

is_in-In : (q : ℕ) (ps : List (ℕ × ℕ)) → is_in q ps ≡ true → In q ps
unfolding is_in
is_in-In q [] e = cc
is_in-In q ((r, o) ∷ ps) e = elim (Bool-cases (q == r)) [
  | inl is ↦ inl ((==_iff q r).0 is)
  | inr isnt ↦ inr (is_in-In q ps (or_false (q == r) (is_in q ps) isnt e))
]

every_register : (q : ℕ) → 0 < q → q < 32 → In q (reversed frame)
unfolding is_in each_below
every_register q pos lt = is_in-In q (reversed frame) (
    or_false (q == 0) (is_in q (reversed frame)) (ground arith)
      (each_below-holds 32 (λ k. (k == 0) || is_in k (reversed frame)) q refl lt))

ascends : ℕ → List (ℕ × ℕ) → Bool
ascends low [] = true
ascends low ((r, offset) ∷ ps) = (ltb low (offset + 1) && ltb offset 264) && ascends (offset + 1) ps

ascends-Ascending : (low : ℕ) (ps : List (ℕ × ℕ)) → ascends low ps ≡ true → Ascending low ps
unfolding ascends
ascends-Ascending low [] e = tt
ascends-Ascending low ((r, o) ∷ ps) e =
    let (both, later) = true_and (ltb low (o + 1) && ltb o 264) (ascends (o + 1) ps) e in
    let (le, small) = true_and (ltb low (o + 1)) (ltb o 264) both in
    (omega (arith, ltb→lt low (o + 1) le), ltb→lt o 264 small, ascends-Ascending (o + 1) ps later)

frame-Ascending : Ascending 0 frame
unfolding ascends
frame-Ascending = ascends-Ascending 0 frame refl

sp_back : (x : ℕ) → x < 2 ^ 64 → at (at x (2 ^ 64 - 256)) 256 ≡ x
sp_back x word = omega (arith, word)

-- The machine when the handler is called: the stack pointer is lower, and the frame is in memory.
save_all-reg : (s : Machine) → (save_all s).reg ≡ put s.reg sp (at (s.reg sp) (2 ^ 64 - 256))
unfolding save_all run step
save_all-reg s = run-save-reg (step s (addi_d sp sp (2 ^ 64 - 256))) frame

save_all-Saved : (s : Machine) → Saved (save_all s).mem ((save_all s).reg sp) (save_all s).reg frame
unfolding save_all run step
save_all-Saved s =
    subst (λ regs. Saved (save_all s).mem (regs sp) regs frame) (sym (save_all-reg s))
      (run-save-Saved (step s (addi_d sp sp (2 ^ 64 - 256))) frame 0 frame-Ascending)

-- The last step of the stack pointer.
raise_sp :
    (t s : Machine) (q : ℕ)
    → s.reg sp < 2 ^ 64
    → ((k : ℕ) → 0 < k → k < 32 → t.reg k ≡ put s.reg sp (at (s.reg sp) (2 ^ 64 - 256)) k)
    → 0 < q
    → q < 32
    → (run t (addi_d sp sp 256 ∷ [])).reg q ≡ s.reg q
unfolding run step
raise_sp t s q word found pos lt = elim (Bool-cases (q == sp)) [
  | inl e ↦
      let is_sp : q ≡ sp = (==_iff q sp).0 e in
      ap (put t.reg sp (at (t.reg sp) 256)) is_sp
      ∙ (ap (λ x. at x 256) (found sp (omega arith) (omega arith))
          ∙ (sp_back (s.reg sp) word ∙ ap s.reg (sym is_sp)))
  | inr e ↦
      let other : q ≢ sp = ==_false q sp e in
      put-other t.reg sp (at (t.reg sp) 256) q other
      ∙ (found q pos lt ∙ put-other s.reg sp (at (s.reg sp) (2 ^ 64 - 256)) q other)
]

s8_at_sp : (s : Machine) → s.reg sp < 2 ^ 64 → (save_all s).mem (s.reg sp) ≡ s.reg 31
s8_at_sp s word =
    ap (save_all s).mem
      (sym (ap (λ regs. at (regs sp) 256) (save_all-reg s) ∙ sp_back (s.reg sp) word))
    ∙ ((Saved-reversed (save_all s).mem ((save_all s).reg sp) (save_all s).reg frame
          (save_all-Saved s)).0
        ∙ ap (λ regs. regs 31) (save_all-reg s))

-- The loads and the last step of the stack pointer, from the frame that `s` was saved to.
restore_all-reg :
    (s' s : Machine) (q : ℕ)
    → s.reg sp < 2 ^ 64
    → Saved s'.mem ((save_all s).reg sp) (save_all s).reg (reversed frame)
    → s'.reg sp ≡ (save_all s).reg sp
    → 0 < q
    → q < 32
    → (restore_all s').reg q ≡ s.reg q
unfolding restore_all
restore_all-reg s' s q word saved sp_kept pos lt =
    let loads = map restore (reversed frame) in
    let found : (k : ℕ)
        → 0 < k
        → k < 32
        → (run s' loads).reg k ≡ put s.reg sp (at (s.reg sp) (2 ^ 64 - 256)) k =
      λ k k_pos k_lt.
        run-restore s' (reversed frame) (save_all s).reg saved sp_kept k
          (inl (every_register k k_pos k_lt))
        ∙ ap (λ regs. regs k) (save_all-reg s) in
    ap (λ m. m.reg q) (run-append s' loads (addi_d sp sp 256 ∷ []))
    ∙ raise_sp (run s' loads) s q word found pos lt

-- When the stack pointer is a word of 64 bits, and the handler gives the stack pointer back and leaves
-- the 264 bytes from it on as they are, then each of the registers 1 to 31 has its value again after
-- `trap_entry`. The frame is 256 bytes: the last word that is saved, s8, is that of the code that was
-- interrupted at its stack pointer.
pub trap_entry-restores :
    (handler : Machine → Machine) (s : Machine)
    → s.reg sp < 2 ^ 64
    → (handler (save_all s)).reg sp ≡ (save_all s).reg sp
    → ((offset : ℕ)
        → offset < 264
        → (handler (save_all s)).mem (at ((save_all s).reg sp) offset)
          ≡ (save_all s).mem (at ((save_all s).reg sp) offset))
    → ((q : ℕ) → 0 < q → q < 32 → (trap_entry handler s).reg q ≡ s.reg q)
      × ((save_all s).mem (s.reg sp) ≡ s.reg 31)
unfolding trap_entry
trap_entry-restores handler s word sp_kept mem_kept = (
  λ q pos lt.
      restore_all-reg (handler (save_all s)) s (q) word
        (Saved-reversed (handler (save_all s)).mem ((save_all s).reg sp) (save_all s).reg frame (
          Saved-kept (save_all s).mem (handler (save_all s)).mem ((save_all s).reg sp)
            (save_all s).reg 0 frame frame-Ascending mem_kept (save_all-Saved s)))
        sp_kept pos lt,
  s8_at_sp s word,
)
