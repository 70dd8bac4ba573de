-- ===== src/Drivers/Kbd.antt =====
-- kernel/drivers/kbd.c: from the bytes of the keyboard controller to the keys that are down and the
-- character that is given to the shell and to vim. The controller is not in the model: `bytes` is what
-- it has ready, and `idle` what a read without data gives.
pub mod Tap
pub mod Press
mod Tests
use echo_os.Base.{
  ℕ, ◌+◌, ◌-◌, Bool, true, false, not, ◌&&◌, ◌||◌, List, [], ◌∷◌, ◌++◌, Option, none, some, Exec,
  done, fault, ◌>>=◌, ltb, ◌==◌, if◌then◌else◌, length, get_or, set,
}
use echo_os.Base.Int.{ℤ, pos, negsuc}
use echo_os.Drivers.KbdMap.{keymap, kbd_us, kbd_us_up}

abbrev pub key_push : ℕ
key_push = 1

abbrev pub key_release : ℕ
key_release = 0

abbrev pub key_insert : ℕ
key_insert = 110

abbrev pub key_capslock : ℕ
key_capslock = 58

-- `kbd_status` has 128 entries.
pub record Kbd : Type 0 where
  pub status : List ℕ
  pub capslock : Bool

abbrev pub set_status : Kbd → ℕ → ℕ → Exec Kbd
set_status kbd n state =
    if ltb n (length kbd.status)
    then done (record kbd { status = set kbd.status n state })
    else fault

-- `keymap[kbd_read_byte()]`
abbrev pub key_of : ℕ → ℕ
key_of byte = get_or keymap byte 0

abbrev pub is_pushed : Kbd → ℕ → Bool
is_pushed kbd n = get_or kbd.status n 0 == key_push

abbrev pub toggle_caps : Kbd → ℕ → Kbd
toggle_caps kbd n =
    if (n == key_capslock) && is_pushed kbd n
    then record kbd { capslock = not kbd.capslock }
    else kbd

-- The character of key `n`: the left and the right shift key are 42 and 54.
abbrev pub character : Kbd → ℕ → ℕ
character kbd n =
    if is_pushed kbd 42 || is_pushed kbd 54 then get_or kbd_us_up n 0 else get_or kbd_us n 0

-- The end of a round, for the key `n`: the state, the character and the key.
abbrev settle_key : ℕ → Kbd → Kbd × ℕ × ℕ
settle_key n kbd = let kbd' = toggle_caps kbd n in (kbd', character kbd' n, n)

-- A round whose first byte is that of key `n`, up to the release that the key KEY_INSERT announces.
abbrev pub released : Kbd → ℕ → Exec (Kbd × ℕ × ℕ)
released kbd n = set_status kbd n key_release >>= λ kbd'. done (settle_key n kbd')

-- The `while` of `kbd_irq`.
unfoldable pub read_keys : ℕ → Kbd → ℕ → ℕ → List ℕ → Exec (Kbd × ℕ × ℕ)
read_keys idle kbd issue_c n [] = done (kbd, issue_c, n)
read_keys idle kbd issue_c n (byte ∷ []) = set_status kbd (key_of byte) key_push >>= λ kbd'.
    if key_of byte == key_insert
    then released kbd' (key_of idle)
    else done (settle_key (key_of byte) kbd')
read_keys idle kbd issue_c n (byte ∷ (byte' ∷ bytes)) =
    let pressed = λ (s : Kbd × ℕ × ℕ). read_keys idle s.0 s.1 s.2 (byte' ∷ bytes) in
    let after = λ (s : Kbd × ℕ × ℕ). read_keys idle s.0 s.1 s.2 bytes in
    set_status kbd (key_of byte) key_push >>= λ kbd'.
    if key_of byte == key_insert
    then released kbd' (key_of byte') >>= after
    else pressed (settle_key (key_of byte) kbd')

-- The state, and the character, the state of the key and the key that the two handlers get.
unfoldable pub kbd_irq : ℕ → Kbd → List ℕ → Exec (Kbd × ℕ × ℕ × ℕ)
kbd_irq idle kbd bytes = read_keys idle kbd 0 0 bytes >>= λ (kbd', issue_c, n).
    if ltb n (length kbd'.status) then done (kbd', issue_c, get_or kbd'.status n 0, n) else fault

-- `kbd_event_register`: the table has 32 entries, and its length is not tested. 0 is the null pointer.
unfoldable pub kbd_event_register : List ℕ → ℕ → Exec (ℤ × List ℕ)
kbd_event_register table entry =
    if entry == 0
    then done (negsuc 0, table)
    else if ltb (length table) 32
    then done (pos (length table), table ++ (entry ∷ []))
    else fault

-- `kbd_event_invoke`: the calls that are made, in their order.
unfoldable pub kbd_event_invoke : List ℕ → ℕ → ℕ → List (ℕ × ℕ × ℕ)
kbd_event_invoke [] issue_c state = []
kbd_event_invoke (entry ∷ table) issue_c state =
    (entry, issue_c, state) ∷ kbd_event_invoke table issue_c state
