-- ===== src/Drivers/Ansi/Stack.antt =====
-- kernel/drivers/ansi.c: colors that are saved and restored.
use echo_os.Base.{
  ℕ, suc, ◌+◌, ◌-◌, ◌<◌, ◌≤◌, true, length, get_or, ltb, ◌≡◌, refl, ap, ◌∙◌, arith, lt→ltb,
  get_or-set_self, get_or-set_ne, length-set,
}
use echo_os.Drivers.Ansi.{Ansi, ansi_stack_size, save_cursor_color, restore_cursor_color}

-- Code that runs with the stack as it found it: it assigns the current color, which other files may do,
-- and saves and restores it in pairs, at most `n` of them within each other.
pub data Nested : ℕ → Ansi → Ansi → Type 0 where
  stop : {n : ℕ} {s : Ansi} → Nested n s s
  assign : {n : ℕ} {s t : Ansi} (c : ℕ) → Nested n (record s { cur_color = c }) t → Nested n s t
  pair :
      {n : ℕ} {s t u : Ansi}
      → Nested n (save_cursor_color s) t
      → Nested (suc n) (restore_cursor_color t).0 u
      → Nested (suc n) s u

-- The part of the stack that is in use is the same.
pub record Kept (s t : Ansi) : Type 0 where
  pub pointer : t.color_stack_ptr ≡ s.color_stack_ptr
  pub size : length t.color_stack ≡ length s.color_stack
  pub below : (k : ℕ) → k < s.color_stack_ptr → get_or t.color_stack k 0 ≡ get_or s.color_stack k 0

record Saved (s t : Ansi) : Type 0 where
  pub pointer : t.color_stack_ptr ≡ s.color_stack_ptr + 1
  pub size : length t.color_stack ≡ length s.color_stack
  pub top : get_or t.color_stack s.color_stack_ptr 0 ≡ s.cur_color
  pub below : (k : ℕ) → k < s.color_stack_ptr → get_or t.color_stack k 0 ≡ get_or s.color_stack k 0

save-Saved :
    (s : Ansi)
    → s.color_stack_ptr < ansi_stack_size
    → length s.color_stack ≡ ansi_stack_size
    → Saved s (save_cursor_color s)
unfolding save_cursor_color
save-Saved s lt full = rw (lt→ltb s.color_stack_ptr ansi_stack_size lt) (record {
  pointer = refl;
  size = length-set s.color_stack s.color_stack_ptr s.cur_color;
  top = get_or-set_self s.color_stack s.color_stack_ptr s.cur_color 0 (omega (arith, lt, full));
  below = λ k k_lt.
      get_or-set_ne s.color_stack s.color_stack_ptr k s.cur_color 0 (λ e. omega (arith, e, k_lt));
})

-- Restoring after code that kept what was saved.
restored :
    (s t : Ansi)
    → Saved s t
    → ((restore_cursor_color t).0.cur_color ≡ s.cur_color) × Kept s (restore_cursor_color t).0
unfolding restore_cursor_color
restored s t saved =
    let above : ltb 0 t.color_stack_ptr ≡ true =
      lt→ltb 0 t.color_stack_ptr (omega (arith, saved.pointer)) in
    let slot : t.color_stack_ptr - 1 ≡ s.color_stack_ptr = omega (arith, saved.pointer) in
    rw above (
      ap (λ k. get_or t.color_stack k 0) slot ∙ saved.top,
      record { pointer = slot; size = saved.size; below = saved.below },
    )

Saved-Kept : (s t u : Ansi) → Saved s t → Kept t u → Saved s u
Saved-Kept s t u saved kept = record {
  pointer = kept.pointer ∙ saved.pointer;
  size = kept.size ∙ saved.size;
  top = kept.below s.color_stack_ptr (omega (arith, saved.pointer)) ∙ saved.top;
  below = λ k lt. kept.below k (omega (arith, saved.pointer, lt)) ∙ saved.below k lt;
}

Kept-Kept : (s t u : Ansi) → Kept s t → Kept t u → Kept s u
Kept-Kept s t u kept kept' = record {
  pointer = kept'.pointer ∙ kept.pointer;
  size = kept'.size ∙ kept.size;
  below = λ k lt. kept'.below k (omega (arith, kept.pointer, lt)) ∙ kept.below k lt;
}

Nested-Kept :
    (n : ℕ) (s t : Ansi)
    → Nested n s t
    → s.color_stack_ptr + n ≤ ansi_stack_size
    → length s.color_stack ≡ ansi_stack_size
    → Kept s t
Nested-Kept n s t stop room full = record { pointer = refl; size = refl; below = λ k lt. refl }
Nested-Kept n s t (assign c rest) room full =
    let kept = Nested-Kept n (record s { cur_color = c }) t rest room full in
    record { pointer = kept.pointer; size = kept.size; below = kept.below }
Nested-Kept (suc n) s u (pair {t = t} inner rest) room full =
    let saved = save-Saved s (omega (arith, room)) full in
    let inner_kept =
      Nested-Kept n (save_cursor_color s) t inner (omega (arith, room, saved.pointer))
        (saved.size ∙ full) in
    let (color, kept) = restored s t (Saved-Kept s (save_cursor_color s) t saved inner_kept) in
    Kept-Kept s (restore_cursor_color t).0 u kept (
      Nested-Kept (suc n) (restore_cursor_color t).0 u rest (omega (arith, room, kept.pointer))
        (kept.size ∙ full))

-- A color that is saved is the current one again after it is restored, whatever code ran between that
-- assigns colors and saves and restores them in pairs, as long as the stack of 16 places has room for
-- the pairs within each other; the stack has the entries of before.
pub restore-save :
    (n : ℕ) (s t : Ansi)
    → Nested n (save_cursor_color s) t
    → s.color_stack_ptr + suc n ≤ ansi_stack_size
    → length s.color_stack ≡ ansi_stack_size
    → ((restore_cursor_color t).0.cur_color ≡ s.cur_color) × Kept s (restore_cursor_color t).0
restore-save n s t inner room full =
    let saved = save-Saved s (omega (arith, room)) full in
    restored s t (
      Saved-Kept s (save_cursor_color s) t saved (
        Nested-Kept n (save_cursor_color s) t inner (omega (arith, room, saved.pointer))
          (saved.size ∙ full)))
