-- ===== src/Sysio/Print/Format.antt =====
-- kernel/sysio/io.c, `printf`: plain text, and a number in it.
use echo_os.Base.{
  ℕ, ◌^◌, ◌<◌, true, false, List, [], ◌∷◌, ◌++◌, done, fault, timeout, Exec, ◌>>=◌, ◌==◌, ◌≡◌, refl,
  ap, ◌∙◌, All,
}
use echo_os.Base.Int.{ℤ}
use echo_os.Sysio.Print.{Arg, int, convert, printint, printf}
use echo_os.Sysio.Print.Decimal.{IsNumeral}
use echo_os.Sysio.Print.Digits.{number, absolute, signed, printint_lem}

-- No character is a '%'.
abbrev IsPlain : List ℕ → Type 0
IsPlain cs = All (λ c. (c == 37) ≡ false) cs

-- What follows is printed behind the text.
abbrev pub after : List ℕ → Exec (List ℕ) → Exec (List ℕ)
after out m = m >>= λ more. done (out ++ more)

after-after :
    (c : ℕ) (out : List ℕ) (m : Exec (List ℕ))
    → (after out m >>= λ more. done (c ∷ more)) ≡ after (c ∷ out) m
after-after c out (done more) = refl
after-after c out fault = refl
after-after c out timeout = refl

printf_step :
    (c d : ℕ) (fmt : List ℕ) (args : List Arg)
    → (c == 37) ≡ false
    → printf (c ∷ (d ∷ fmt)) args ≡ (printf (d ∷ fmt) args >>= λ more. done (c ∷ more))
unfolding printf
printf_step c d fmt args plain = rw plain refl

-- Text without a '%' in front of a directive is printed as it is, and then the rest.
printf_plain :
    (cs : List ℕ) (d : ℕ) (fmt : List ℕ) (args : List Arg)
    → IsPlain cs
    → printf (cs ++ (d ∷ fmt)) args ≡ after cs (printf (d ∷ fmt) args)
printf_plain [] d fmt args plain = after_nothing (printf (d ∷ fmt) args)
  where
    after_nothing : (m : Exec (List ℕ)) → m ≡ after [] m
    after_nothing (done more) = refl
    after_nothing fault = refl
    after_nothing timeout = refl
printf_plain (c ∷ []) d fmt args plain = printf_step c d fmt args plain.0
printf_plain (c ∷ (c' ∷ cs)) d fmt args plain =
    printf_step c c' (cs ++ (d ∷ fmt)) args plain.0
    ∙ (ap (λ m. m >>= (λ more. done (c ∷ more))) (printf_plain (c' ∷ cs) d fmt args plain.1)
        ∙ after-after c (c' ∷ cs) (printf (d ∷ fmt) args))

printf_directive :
    (fmt : List ℕ) (args : List Arg) (n : ℤ) (out : List ℕ)
    → printint n 10 true ≡ done out
    → printf (37 ∷ (100 ∷ fmt)) (int n ∷ args) ≡ after out (printf fmt args)
unfolding printf convert
printf_directive fmt args n out ran = rw ran refl

after_twice :
    (a b : List ℕ) (m : Exec (List ℕ))
    → after a (after b m) ≡ (m >>= λ more. done (a ++ (b ++ more)))
after_twice a b (done more) = refl
after_twice a b fault = refl
after_twice a b timeout = refl

-- A `%d` behind plain text prints that text, then the argument, any int but the least one, as a
-- minus where it is negative and the decimal numeral of its absolute value, at least one digit with no
-- '0' in front of others, and then what the rest of the format prints with the other arguments.
pub printf_decimal :
    (before fmt : List ℕ) (n : ℤ) (args : List Arg)
    → IsPlain before
    → absolute n < 2 ^ 31
    → (cs : List ℕ) × (number 10 0 cs ≡ absolute n)
      × IsNumeral cs
      × (printf (before ++ (37 ∷ (100 ∷ fmt))) (int n ∷ args)
          ≡ (printf fmt args >>= λ more. done (before ++ (signed n cs ++ more))))
printf_decimal before fmt n args plain small =
    let (cs, ran, reads, decimal) = printint_lem n small in
    (
      cs,
      reads,
      decimal,
      printf_plain before 37 (100 ∷ fmt) (int n ∷ args) plain
          ∙ (ap (after before) (printf_directive fmt args n (signed n cs) ran)
              ∙ after_twice before (signed n cs) (printf fmt args)),
    )
