-- ===== src/Shell/Stays.antt =====
-- kernel/shell/shell.c: a shell from which `handle_cmd` takes the line stays enabled.
use echo_os.Base.{
  ℕ, zero, suc, ◌+◌, ◌%◌, Bool, true, false, ◌&&◌, List, [], ◌∷◌, Exec, done, fault, timeout, ◌>>=◌,
  ltb, ◌==◌, if◌then◌else◌, length, get_or, set, ◌≡◌, refl,
}
use mathlib.Core.Path.{subst}
use echo_os.Shell.{Shell, shell_buf_size, take_line}

abbrev Stays : Bool → Exec (List ℕ × Shell) → Type 0
Stays b (done (line, sh)) = sh.enabled ≡ b
Stays b fault = Unit
Stays b timeout = Unit

Stays-next :
    (b : Bool) (c : ℕ) (m : Exec (List ℕ × Shell))
    → Stays b m
    → Stays b (m >>= (λ (line, sh). done (c ∷ line, sh)))
Stays-next b c (done (line, sh)) s = s
Stays-next b c fault s = tt
Stays-next b c timeout s = tt

Stays-if :
    (b met inside in_buf : Bool) (ended next : Exec (List ℕ × Shell))
    → Stays b ended
    → Stays b next
    → Stays b (
        if met then (if inside then ended else fault) else if inside && in_buf then next else fault)
Stays-if b true true in_buf ended next s t = s
Stays-if b true false in_buf ended next s t = tt
Stays-if b false true true ended next s t = t
Stays-if b false true false ended next s t = tt
Stays-if b false false in_buf ended next s t = tt

take_line-Stays : (fuel : ℕ) (sh : Shell) (i : ℕ) → Stays sh.enabled (take_line fuel sh i)
unfolding take_line
take_line-Stays zero sh i = tt
take_line-Stays (suc fuel) sh i =
    let slot = sh.start_ptr % shell_buf_size in
    let sh' : Shell = record sh {
      buf = set sh.buf slot 0;
      start_ptr = (slot + 1) % shell_buf_size;
    } in
    Stays-if sh.enabled (sh.start_ptr == sh.end_ptr) (ltb i 2048) (ltb slot (length sh.buf))
      (done ([], sh))
      (take_line fuel sh' (i + 1) >>= (λ (line, sh''). done (get_or sh.buf slot 0 ∷ line, sh'')))
      refl
      (Stays-next sh.enabled (get_or sh.buf slot 0) (take_line fuel sh' (i + 1))
        (take_line-Stays fuel sh' (i + 1)))

pub take_line_enabled :
    (fuel : ℕ) (sh : Shell) (i : ℕ) (line : List ℕ) (sh' : Shell)
    → take_line fuel sh i ≡ done (line, sh')
    → sh'.enabled ≡ sh.enabled
take_line_enabled fuel sh i line sh' e = subst (Stays sh.enabled) e (take_line-Stays fuel sh i)
