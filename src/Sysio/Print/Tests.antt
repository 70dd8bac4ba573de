-- ===== src/Sysio/Print/Tests.antt =====
-- kernel/sysio/io.c: small texts.
use echo_os.Base.{ℕ, true, List, [], ◌∷◌, ◌++◌, done, ◌>>=◌, ◌≡◌, refl, arith}
use echo_os.Base.Int.{pos, negsuc}
use echo_os.Sysio.Print.{int, printint, printptr, printf, collect, backwards, hex_from}
use echo_os.Sysio.Print.Decimal.{IsNumeral}
use echo_os.Sysio.Print.Digits.{number, absolute, signed, printint_lem}
use echo_os.Sysio.Print.Format.{printf_decimal}

-- -42
minus_forty_two : printint (negsuc 41) 10 true ≡ done (45 ∷ 52 ∷ 50 ∷ [])
unfolding printint collect backwards
minus_forty_two = refl

-- The bits of -1 are not printed in base 16: "%x" prints "-1".
minus_one_hex : printint (negsuc 0) 16 true ≡ done (45 ∷ 49 ∷ [])
unfolding printint collect backwards
minus_one_hex = refl

pointer :
    printptr 0xff
    ≡ 48 ∷ 120 ∷ 48 ∷ 48 ∷ 48 ∷ 48 ∷ 48 ∷ 48 ∷ 48 ∷ 48 ∷ 48 ∷ 48 ∷ 48 ∷ 48 ∷ 48 ∷ 48 ∷ 102 ∷ 102
      ∷ []
unfolding printptr hex_from
pointer = refl

printint_lem_example :
    (cs : List ℕ) × (printint (negsuc 41) 10 true ≡ done (signed (negsuc 41) cs))
    × (number 10 0 cs ≡ absolute (negsuc 41))
    × IsNumeral cs
printint_lem_example = printint_lem (negsuc 41) (omega arith)

-- The format "n=%d;" with 7.
printf_decimal_example :
    (cs : List ℕ) × (number 10 0 cs ≡ absolute (pos 7))
    × IsNumeral cs
    × (printf ((110 ∷ 61 ∷ []) ++ (37 ∷ (100 ∷ (59 ∷ [])))) (int (pos 7) ∷ [])
        ≡ (printf (59 ∷ []) [] >>= λ more. done ((110 ∷ 61 ∷ []) ++ (signed (pos 7) cs ++ more))))
printf_decimal_example =
    printf_decimal (110 ∷ 61 ∷ []) (59 ∷ []) (pos 7) [] (refl, (refl, tt)) (omega arith)
