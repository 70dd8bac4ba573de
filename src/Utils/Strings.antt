-- ===== src/Utils/Strings.antt =====
-- kernel/utils/string.c over memory. A `char *` is an address; the loops stop at a NUL byte, so
-- they run on fuel: the memory of the machine need not hold one.
pub mod Compare
pub mod Copy
use echo_os.Base.{ℕ, zero, suc, ◌+◌, ◌-◌, ◌&&◌, not, Exec, done, timeout, ◌==◌, ltb, if◌then◌else◌}
use echo_os.Utils.Memory.{Memory, store}

-- The `while` and the test after it.
unfoldable pub strcmp : ℕ → Memory → ℕ → ℕ → Exec ℕ
strcmp zero m str1 str2 = timeout
strcmp (suc fuel) m str1 str2 =
    let rest = strcmp fuel m (str1 + 1) (str2 + 1) in
    if not (m str1 == 0) && not (m str2 == 0)
    then (if m str1 == m str2 then rest else done 1)
    else (if m str1 == m str2 then done 0 else done 1)

-- The memory afterwards; the value returned is always 0.
unfoldable pub strcpy : ℕ → Memory → ℕ → ℕ → Exec Memory
strcpy zero m dst src = timeout
strcpy (suc fuel) m dst src =
    let rest = strcpy fuel (store m dst (m src)) (dst + 1) (src + 1) in
    if not (m src == 0) then rest else done (store m dst 0)

unfoldable pub strlen : ℕ → Memory → ℕ → ℕ → Exec ℕ
strlen zero m str len = timeout
strlen (suc fuel) m str len =
    let rest = strlen fuel m (str + 1) (len + 1) in if not (m str == 0) then rest else done len

unfoldable pub strncmp : Memory → ℕ → ℕ → ℕ → ℕ
strncmp m str1 str2 zero = 0
strncmp m str1 str2 (suc n) =
    if not (m str1 == 0) && not (m str2 == 0)
    then (if m str1 == m str2 then strncmp m (str1 + 1) (str2 + 1) n else 1)
    else 0

unfoldable pub strncpy : Memory → ℕ → ℕ → ℕ → Memory
strncpy m dst src zero = store m dst 0
strncpy m dst src (suc n) =
    if not (m src == 0) then strncpy (store m dst (m src)) (dst + 1) (src + 1) n else store m dst 0
