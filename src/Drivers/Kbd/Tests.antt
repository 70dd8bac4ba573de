-- ===== src/Drivers/Kbd/Tests.antt =====
-- kernel/drivers/kbd.c: the key A, alone and with the shift key.
use echo_os.Base.{
  ℕ, ◌≢◌, false, [], ◌∷◌, done, fault, get_or, set, length, replicate, ◌≡◌, refl, arith,
}
use echo_os.Drivers.Kbd.{Kbd, key_insert, key_release, read_keys, kbd_irq}
use echo_os.Drivers.Kbd.Tap.{kbd_irq_tap}

abbrev all_up : Kbd
all_up = record { status = replicate 128 0; capslock = false }

-- 'a', and 'A' with the left shift key down.
press_a :
    kbd_irq 0 all_up (0x1c ∷ [])
    ≡ done (record { status = set (replicate 128 0) 30 1; capslock = false }, 97, 1, 30)
unfolding kbd_irq read_keys
press_a = refl

shift_a :
    kbd_irq 0 all_up (0x12 ∷ (0x1c ∷ []))
    ≡ done (record { status = set (set (replicate 128 0) 42 1) 30 1; capslock = false }, 65, 1, 30)
unfolding kbd_irq read_keys
shift_a = refl

-- The scan code 0x92 has the key 255, which is not in the table.
no_such_key : kbd_irq 0 all_up (0x92 ∷ []) ≡ fault
unfolding kbd_irq read_keys
no_such_key = refl

kbd_irq_tap_example :
    (kbd' : Kbd) × (issue_c : ℕ) × (kbd_irq 0 all_up (0x1c ∷ (0xf0 ∷ (0x1c ∷ [])))
      ≡ done (kbd', issue_c, key_release, 30))
    × (get_or kbd'.status 30 0 ≡ key_release)
    × ((j : ℕ) → 30 ≢ j → key_insert ≢ j → get_or kbd'.status j 0 ≡ get_or all_up.status j 0)
    × (length kbd'.status ≡ 128)
kbd_irq_tap_example = kbd_irq_tap 0 0x1c all_up refl (omega arith) (λ e. omega (arith, e))
