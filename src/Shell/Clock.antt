-- ===== src/Shell/Clock.antt =====
-- kernel/shell/shell.c: the command `clock`.
use echo_os.Base.{
  ℕ, ◌+◌, not, ◌||◌, List, [], ◌∷◌, ◌++◌, Exec, fault, ltb, ◌==◌, ◌-◌, ◌*◌, ◌^◌, bit_or,
  if◌then◌else◌, get_or,
}
use echo_os.Base.Int.{pos}
use echo_os.Base.Text.{codes}
use echo_os.Arch.Csr.{w_csr_tcfg, csr_tcfg_en, csr_tcfg_per}
use echo_os.Sysio.Print.{int, printf}
use echo_os.Shell.Console.{Console, Result, say, say_printed}

-- `clock`: `-s`, `-p` and `-f`, whose shift is undefined below 0, from 32 on, and past the largest int.
abbrev clock_start : Console → Exec Result
clock_start c =
    say (pos 1)
      (record c {
        time_n = 0;
        csrs = w_csr_tcfg c.csrs (bit_or (bit_or c.freq csr_tcfg_en) csr_tcfg_per);
      })
      (codes "\tClock start!\n")

abbrev clock_print : Console → Exec Result
clock_print c =
    say_printed (pos 1) c (printf (codes "\tPresent clock:%d\n") (int (pos c.time_n) ∷ []))

abbrev clock_speed : Console → ℕ → Exec Result
clock_speed c level =
    if ltb level 48 || (not (ltb (level - 48) 32) || not (ltb (c.freq * 2 ^ (level - 48)) (2 ^ 31)))
    then fault
    else say_printed (pos 1) (record c { freq = c.freq * 2 ^ (level - 48) })
        (printf (codes "\tSpeed level has been set to %c level!\n") (int (pos level) ∷ []))

-- `i` is the index behind the word.
unfoldable pub clock_cmd : List ℕ → ℕ → Console → Exec Result
clock_cmd line i c =
    let para = get_or line (i + 1) 0 in
    if get_or line i 0 == 45
    then (if para == 115
        then clock_start c
        else if para == 112
        then clock_print c
        else if para == 102
        then clock_speed c (get_or line (i + 3) 0)
        else say (pos 1) c [])
    else say (pos 0) c (
        codes "invalid parameter!\n"
        ++ (codes "\t-s    reset clock\n"
            ++ (codes "\t-p    print present clock\n" ++ codes "\t-f    modify the speed level\n")))
