-- ===== src/Drivers/Kbd/Press.antt =====
-- kernel/drivers/kbd.c: a key that goes down.
use echo_os.Base.{
  ℕ, ◌<◌, ◌≢◌, [], ◌∷◌, done, length, get_or, set, ◌≡◌, refl, ap, ◌∙◌, arith, lt→ltb,
  get_or-set_self, length-set,
}
use echo_os.Drivers.Kbd.{
  Kbd, key_of, key_insert, key_push, toggle_caps, read_keys, kbd_irq, character,
}
use echo_os.Drivers.Kbd.Tap.{with_status, set_status_lem, toggle_caps-status, not_same}

-- The driver's state with key `n` down.
abbrev pub pressed : Kbd → ℕ → Kbd
pressed kbd n = toggle_caps (with_status kbd n key_push) n

module _ (idle byte : ℕ) (kbd : Kbd) (table : length kbd.status ≡ 128)
    (in_table : key_of byte < 128) (not_insert : key_of byte ≢ key_insert) where
  status_lem : (pressed kbd (key_of byte)).status ≡ set kbd.status (key_of byte) key_push
  status_lem = toggle_caps-status (with_status kbd (key_of byte) key_push) (key_of byte)

  pub pressed-down : get_or (pressed kbd (key_of byte)).status (key_of byte) 0 ≡ key_push
  pressed-down =
      ap (λ st. get_or st (key_of byte) 0) status_lem
      ∙ get_or-set_self kbd.status (key_of byte) key_push 0 (omega (arith, table, in_table))

  pub kbd_irq_press :
      kbd_irq idle kbd (byte ∷ [])
      ≡ done (
        pressed kbd (key_of byte),
        character (pressed kbd (key_of byte)) (key_of byte),
        key_push,
        key_of byte,
      )
  unfolding kbd_irq read_keys
  kbd_irq_press =
      let in_status : key_of byte < length (pressed kbd (key_of byte)).status = omega (
        arith,
        ap length status_lem,
        length-set kbd.status (key_of byte) key_push,
        table,
        in_table,
      ) in
      rw
        (
          set_status_lem kbd (key_of byte) key_push (omega (arith, table, in_table)),
          not_same (key_of byte) key_insert not_insert,
          lt→ltb (key_of byte) (length (pressed kbd (key_of byte)).status) in_status,
          pressed-down,
        )
        refl
