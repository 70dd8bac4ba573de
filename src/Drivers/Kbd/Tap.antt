-- ===== src/Drivers/Kbd/Tap.antt =====
-- kernel/drivers/kbd.c: a key that is pressed and released.
use echo_os.Base.{
  ℕ, ◌<◌, ◌≢◌, false, ◌&&◌, [], ◌∷◌, done, ◌==◌, length, get_or, set, ◌≡◌, refl, ap, ◌∙◌, arith,
  lt→ltb, Bool-cases, inl, inr, get_or-set_self, get_or-set_ne, length-set,
}
use echo_os.Drivers.Kbd.{
  Kbd, key_of, key_insert, key_push, key_release, set_status, toggle_caps, read_keys, kbd_irq,
  is_pushed, key_capslock, character,
}

abbrev pub with_status : Kbd → ℕ → ℕ → Kbd
with_status kbd n state = record kbd { status = set kbd.status n state }

pub set_status_lem :
    (kbd : Kbd) (n state : ℕ)
    → n < length kbd.status
    → set_status kbd n state ≡ done (with_status kbd n state)
set_status_lem kbd n state lt = rw (lt→ltb n (length kbd.status) lt) refl

pub toggle_caps-status : (kbd : Kbd) (n : ℕ) → (toggle_caps kbd n).status ≡ kbd.status
toggle_caps-status kbd n = elim (Bool-cases ((n == key_capslock) && is_pushed kbd n)) [
  | inl yes_caps ↦ rw yes_caps refl
  | inr no_caps ↦ rw no_caps refl
]

pub not_same : (a b : ℕ) → a ≢ b → (a == b) ≡ false
not_same a b ne = ground arith

module _ (idle byte : ℕ) (kbd : Kbd) (table : length kbd.status ≡ 128)
    (in_table : key_of byte < 128) (not_insert : key_of byte ≢ key_insert) where
  abbrev down : Kbd
  down = toggle_caps (with_status kbd (key_of byte) key_push) (key_of byte)

  abbrev announced : Kbd
  announced = with_status down key_insert key_push

  abbrev up : Kbd
  up = toggle_caps (with_status announced (key_of byte) key_release) (key_of byte)

  down-status : down.status ≡ set kbd.status (key_of byte) key_push
  down-status = toggle_caps-status (with_status kbd (key_of byte) key_push) (key_of byte)

  up-status :
      up.status
      ≡ set
          (set (set kbd.status (key_of byte) key_push) key_insert key_push)
          (key_of byte)
          key_release
  up-status =
      toggle_caps-status (with_status announced (key_of byte) key_release) (key_of byte)
      ∙ ap (λ st. set (set st key_insert key_push) (key_of byte) key_release) down-status

  down-length : length down.status ≡ 128
  down-length = ap length down-status ∙ (length-set kbd.status (key_of byte) key_push ∙ table)

  announced-length : length announced.status ≡ 128
  announced-length = length-set down.status key_insert key_push ∙ down-length

  up-length : length up.status ≡ 128
  up-length =
      ap length (toggle_caps-status (with_status announced (key_of byte) key_release) (key_of byte))
      ∙ (length-set announced.status (key_of byte) key_release ∙ announced-length)

  released_key : get_or up.status (key_of byte) 0 ≡ key_release
  released_key =
      ap (λ st. get_or st (key_of byte) 0)
        (toggle_caps-status (with_status announced (key_of byte) key_release) (key_of byte))
      ∙ get_or-set_self announced.status (key_of byte) key_release 0
          (omega (arith, announced-length))

  others : (j : ℕ) → key_of byte ≢ j → key_insert ≢ j → get_or up.status j 0 ≡ get_or kbd.status j 0
  others j ne ne' =
      ap (λ st. get_or st j 0) up-status
      ∙ (get_or-set_ne (set (set kbd.status (key_of byte) key_push) key_insert key_push)
            (key_of byte) j key_release 0 ne
          ∙ (get_or-set_ne (set kbd.status (key_of byte) key_push) key_insert j key_push 0 ne'
              ∙ get_or-set_ne kbd.status (key_of byte) j key_push 0 ne))

  other_key : (key_of byte == key_insert) ≡ false
  other_key = not_same (key_of byte) key_insert not_insert

  tapped :
      read_keys idle kbd 0 0 (byte ∷ (0xf0 ∷ (byte ∷ [])))
      ≡ done (up, character up (key_of byte), key_of byte)
  unfolding read_keys
  tapped =
      rw
        (
          set_status_lem kbd (key_of byte) key_push (omega (arith, table)),
          other_key,
          set_status_lem down key_insert key_push (omega (arith, down-length)),
          set_status_lem announced (key_of byte) key_release (omega (arith, announced-length)),
        )
        refl

  -- The bytes of a key that is pressed and released, its scan code, the byte 0xf0 and the scan code
  -- again, read in one interrupt with a table of 128 keys: for a key of the table other than
  -- KEY_INSERT the handlers get the key as released, and it is up in the table. All other keys but
  -- KEY_INSERT are what they were, and the table keeps its length.
  pub kbd_irq_tap :
      (kbd' : Kbd) × (issue_c : ℕ) × (kbd_irq idle kbd (byte ∷ (0xf0 ∷ (byte ∷ [])))
        ≡ done (kbd', issue_c, key_release, key_of byte))
      × (get_or kbd'.status (key_of byte) 0 ≡ key_release)
      × ((j : ℕ)
          → key_of byte ≢ j
          → key_insert ≢ j
          → get_or kbd'.status j 0 ≡ get_or kbd.status j 0)
      × (length kbd'.status ≡ 128)
  unfolding kbd_irq
  kbd_irq_tap = (
    up,
    character up (key_of byte),
    rw (tapped, lt→ltb (key_of byte) (length up.status) (omega (arith, up-length)), released_key)
        refl,
    released_key,
    others,
    up-length,
  )
