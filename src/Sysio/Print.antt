-- ===== src/Sysio/Print.antt =====
-- kernel/sysio/io.c: formatted output, as functions to the text that is sent to the serial port by
-- `putc`, whose wait for the port is left out. A character is its code, and a string is given as its
-- characters before the NUL.
pub mod Digits
pub mod Decimal
pub mod Format
mod Tests
use echo_os.Base.{
  ℕ, zero, suc, ◌+◌, ◌-◌, ◌*◌, ◌/◌, ◌%◌, ◌^◌, Bool, true, false, List, [], ◌∷◌, ◌++◌, Option, none,
  some, Exec, done, fault, ◌>>=◌, ltb, ◌==◌, if◌then◌else◌, get_or, length,
}
use echo_os.Base.Int.{ℤ, pos, negsuc}

-- "0123456789abcdef"
abbrev digits : List ℕ
digits = 48 ∷ 49 ∷ 50 ∷ 51 ∷ 52 ∷ 53 ∷ 54 ∷ 55 ∷ 56 ∷ 57 ∷ 97 ∷ 98 ∷ 99 ∷ 100 ∷ 101 ∷ 102 ∷ []

abbrev pub digit : ℕ → ℕ
digit d = get_or digits d 0

-- `x`, and whether a sign is printed. `-xx` overflows on the least int.
abbrev magnitude : ℤ → Bool → Exec (ℕ × Bool)
magnitude (pos n) sign = done (n, false)
magnitude (negsuc n) false = done (2 ^ 32 - (n + 1), false)
magnitude (negsuc n) true = if n == 2 ^ 31 - 1 then fault else done (n + 1, true)

-- The `do` loop: what it adds to `buf`, which has this much room.
unfoldable pub collect : ℕ → ℕ → ℕ → Exec (List ℕ)
collect zero x base = fault
collect (suc room) x base =
    let rest = collect room (x / base) base in
    if x / base == 0
    then done (digit (x % base) ∷ [])
    else rest >>= (λ buf. done (digit (x % base) ∷ buf))

abbrev add_sign : Bool → List ℕ → Exec (List ℕ)
add_sign false buf = done buf
add_sign true buf = if ltb (length buf) 16 then done (buf ++ (45 ∷ [])) else fault

-- `while (--i >= 0) putc(buf[i])`
unfoldable pub backwards : List ℕ → List ℕ
backwards [] = []
backwards (c ∷ buf) = backwards buf ++ (c ∷ [])

unfoldable pub printint : ℤ → ℕ → Bool → Exec (List ℕ)
printint xx base sign = magnitude xx sign >>= λ (x, negative).
    collect 16 x base >>= λ buf. add_sign negative buf >>= λ buf'. done (backwards buf')

-- The `for` of `printptr`, with this many rounds to go.
unfoldable pub hex_from : ℕ → ℕ → List ℕ
hex_from zero x = []
hex_from (suc n) x = digit (x / 2 ^ 60) ∷ hex_from n (x * 16 % 2 ^ 64)

unfoldable pub printptr : ℕ → List ℕ
printptr x = 48 ∷ (120 ∷ hex_from 16 x)

-- An argument behind the format; a null string is `none`.
pub data Arg : Type 0 where
  int : ℤ → Arg
  ulong : ℕ → Arg
  text : Option (List ℕ) → Arg

-- The `switch`, for the conversion `c`: what is printed, and the arguments that are left. Reading an
-- argument that is not there, or of another type, is a fault.
abbrev convert_int : ℕ → List Arg → Exec (List ℕ × List Arg)
convert_int base (int n ∷ args) = printint n base true >>= λ out. done (out, args)
convert_int base args = fault

abbrev convert_ptr : List Arg → Exec (List ℕ × List Arg)
convert_ptr (ulong n ∷ args) = done (printptr n, args)
convert_ptr args = fault

abbrev convert_text : List Arg → Exec (List ℕ × List Arg)
convert_text (text (some s) ∷ args) = done (s, args)
convert_text (text none ∷ args) = done (40 ∷ 110 ∷ 117 ∷ 108 ∷ 108 ∷ 41 ∷ [], args)
convert_text args = fault

-- `(char)` of an int: its lowest eight bits.
abbrev low_byte : ℤ → ℕ
low_byte (pos n) = n % 256
low_byte (negsuc n) = 255 - n % 256

abbrev convert_char : List Arg → Exec (List ℕ × List Arg)
convert_char (int n ∷ args) = done (low_byte n ∷ [], args)
convert_char args = fault

unfoldable pub convert : ℕ → List Arg → Exec (List ℕ × List Arg)
convert c args =
    if c == 100
    then convert_int 10 args
    else if c == 120
    then convert_int 16 args
    else if c == 112
    then convert_ptr args
    else if c == 115
    then convert_text args
    else if c == 99
    then convert_char args
    else if c == 37
    then done (37 ∷ [], args)
    else done (37 ∷ (c ∷ []), args)

-- A format that ends in '%' prints nothing for it.
unfoldable pub printf : List ℕ → List Arg → Exec (List ℕ)
printf [] args = done []
printf (c ∷ []) args = if c == 37 then done [] else done (c ∷ [])
printf (c ∷ (d ∷ fmt)) args =
    let plain = printf (d ∷ fmt) args in
    let after : List Arg → Exec (List ℕ) = λ args'. printf fmt args' in
    if c == 37
    then convert d args >>= (λ (out, args'). after args' >>= λ more. done (out ++ more))
    else plain >>= (λ more. done (c ∷ more))
