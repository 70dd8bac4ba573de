-- ===== src/Drivers/KbdMap.antt =====
-- kernel/drivers/kbdmap.c: the tables of the keyboard, row by row, with the key numbers of
-- include/drivers/kbdmap.h and without CONFIG_KEYBOARD_ATKBD_RDI_KEYCODES.
use echo_os.Base.{ℕ, List, [], ◌∷◌, ◌++◌, replicate}

abbrev concat : List (List ℕ) → List ℕ
concat [] = []
concat (row ∷ rows) = row ++ concat rows

abbrev keymap_rows : List (List ℕ)
keymap_rows =
    (0 ∷ 67 ∷ 0 ∷ 63 ∷ 61 ∷ 59 ∷ 60 ∷ 88 ∷ [])
    ∷ (1 ∷ 68 ∷ 66 ∷ 64 ∷ 62 ∷ 15 ∷ 41 ∷ 60 ∷ [])
    ∷ (0 ∷ 56 ∷ 42 ∷ 0 ∷ 29 ∷ 16 ∷ 2 ∷ 61 ∷ [])
    ∷ (0 ∷ 56 ∷ 44 ∷ 31 ∷ 30 ∷ 17 ∷ 3 ∷ 62 ∷ [])
    ∷ (0 ∷ 46 ∷ 45 ∷ 32 ∷ 18 ∷ 5 ∷ 4 ∷ 63 ∷ [])
    ∷ (0 ∷ 57 ∷ 47 ∷ 33 ∷ 20 ∷ 19 ∷ 6 ∷ 64 ∷ [])
    ∷ (0 ∷ 49 ∷ 48 ∷ 35 ∷ 34 ∷ 21 ∷ 7 ∷ 65 ∷ [])
    ∷ (0 ∷ 100 ∷ 50 ∷ 36 ∷ 22 ∷ 8 ∷ 9 ∷ 66 ∷ [])
    ∷ (0 ∷ 51 ∷ 37 ∷ 23 ∷ 24 ∷ 11 ∷ 10 ∷ 67 ∷ [])
    ∷ (0 ∷ 52 ∷ 53 ∷ 38 ∷ 39 ∷ 25 ∷ 12 ∷ 68 ∷ [])
    ∷ (0 ∷ 0 ∷ 40 ∷ 0 ∷ 26 ∷ 13 ∷ 87 ∷ 99 ∷ [])
    ∷ (58 ∷ 54 ∷ 28 ∷ 27 ∷ 43 ∷ 43 ∷ 88 ∷ 70 ∷ [])
    ∷ (108 ∷ 86 ∷ 119 ∷ 103 ∷ 111 ∷ 107 ∷ 14 ∷ 110 ∷ [])
    ∷ (0 ∷ 79 ∷ 106 ∷ 75 ∷ 71 ∷ 109 ∷ 102 ∷ 104 ∷ [])
    ∷ (82 ∷ 83 ∷ 80 ∷ 76 ∷ 77 ∷ 72 ∷ 1 ∷ 69 ∷ [])
    ∷ (87 ∷ 78 ∷ 81 ∷ 74 ∷ 55 ∷ 73 ∷ 70 ∷ 86 ∷ [])
    ∷ (0 ∷ 0 ∷ 0 ∷ 0 ∷ 0 ∷ 0 ∷ 0 ∷ 0 ∷ [])
    ∷ (0 ∷ 0 ∷ 0 ∷ 0 ∷ 0 ∷ 0 ∷ 0 ∷ 0 ∷ [])
    ∷ (0 ∷ 100 ∷ 255 ∷ 0 ∷ 97 ∷ 0 ∷ 0 ∷ 0 ∷ [])
    ∷ (0 ∷ 0 ∷ 0 ∷ 0 ∷ 0 ∷ 58 ∷ 0 ∷ 125 ∷ [])
    ∷ (0 ∷ 0 ∷ 0 ∷ 0 ∷ 0 ∷ 0 ∷ 0 ∷ 126 ∷ [])
    ∷ (0 ∷ 0 ∷ 0 ∷ 0 ∷ 0 ∷ 0 ∷ 0 ∷ 127 ∷ [])
    ∷ (0 ∷ 0 ∷ 0 ∷ 0 ∷ 0 ∷ 0 ∷ 0 ∷ 0 ∷ [])
    ∷ (0 ∷ 0 ∷ 0 ∷ 0 ∷ 0 ∷ 0 ∷ 0 ∷ 0 ∷ [])
    ∷ (0 ∷ 0 ∷ 0 ∷ 0 ∷ 0 ∷ 0 ∷ 0 ∷ 0 ∷ [])
    ∷ (0 ∷ 0 ∷ 98 ∷ 0 ∷ 0 ∷ 0 ∷ 0 ∷ 0 ∷ [])
    ∷ (0 ∷ 0 ∷ 0 ∷ 0 ∷ 0 ∷ 0 ∷ 0 ∷ 0 ∷ [])
    ∷ (0 ∷ 0 ∷ 96 ∷ 0 ∷ 0 ∷ 0 ∷ 0 ∷ 0 ∷ [])
    ∷ (0 ∷ 0 ∷ 0 ∷ 0 ∷ 0 ∷ 0 ∷ 0 ∷ 0 ∷ [])
    ∷ (0 ∷ 107 ∷ 0 ∷ 105 ∷ 102 ∷ 0 ∷ 0 ∷ 0 ∷ [])
    ∷ (110 ∷ 111 ∷ 108 ∷ 0 ∷ 106 ∷ 103 ∷ 0 ∷ 119 ∷ [])
    ∷ (0 ∷ 0 ∷ 109 ∷ 0 ∷ 99 ∷ 104 ∷ 0 ∷ 0 ∷ [])
    ∷ (0 ∷ 0 ∷ 0 ∷ 65 ∷ 0 ∷ 0 ∷ 0 ∷ 0 ∷ [])
    ∷ (0 ∷ 0 ∷ 0 ∷ 125 ∷ 126 ∷ 0 ∷ 0 ∷ 0 ∷ [])
    ∷ (0 ∷ 100 ∷ 0 ∷ 0 ∷ 97 ∷ 0 ∷ 0 ∷ 0 ∷ [])
    ∷ []

-- The rest of the 512 entries is KEY_RESERVED.
abbrev pub keymap : List ℕ
keymap = concat keymap_rows ++ replicate 232 0

abbrev us_rows : List (List ℕ)
us_rows =
    (0 ∷ 27 ∷ 49 ∷ 50 ∷ 51 ∷ 52 ∷ 53 ∷ 54 ∷ 55 ∷ 56 ∷ [])
    ∷ (57 ∷ 48 ∷ 45 ∷ 61 ∷ 8 ∷ 9 ∷ 113 ∷ 119 ∷ 101 ∷ 114 ∷ [])
    ∷ (116 ∷ 121 ∷ 117 ∷ 105 ∷ 111 ∷ 112 ∷ 91 ∷ 93 ∷ 10 ∷ 0 ∷ [])
    ∷ (97 ∷ 115 ∷ 100 ∷ 102 ∷ 103 ∷ 104 ∷ 106 ∷ 107 ∷ 108 ∷ 59 ∷ [])
    ∷ (39 ∷ 96 ∷ 0 ∷ 92 ∷ 122 ∷ 120 ∷ 99 ∷ 118 ∷ 98 ∷ 110 ∷ [])
    ∷ (109 ∷ 44 ∷ 46 ∷ 47 ∷ 0 ∷ 42 ∷ 0 ∷ 32 ∷ 0 ∷ 0 ∷ [])
    ∷ (0 ∷ 0 ∷ 0 ∷ 0 ∷ 0 ∷ 0 ∷ 0 ∷ 0 ∷ 0 ∷ 0 ∷ [])
    ∷ (0 ∷ 0 ∷ 0 ∷ 0 ∷ 45 ∷ 0 ∷ 0 ∷ 0 ∷ 43 ∷ 0 ∷ [])
    ∷ (0 ∷ 0 ∷ 0 ∷ 0 ∷ 0 ∷ 0 ∷ 0 ∷ 0 ∷ 0 ∷ 0 ∷ [])
    ∷ []

abbrev pub kbd_us : List ℕ
kbd_us = concat us_rows ++ replicate 38 0

abbrev up_rows : List (List ℕ)
up_rows =
    (0 ∷ 27 ∷ 33 ∷ 64 ∷ 35 ∷ 36 ∷ 37 ∷ 94 ∷ 38 ∷ 42 ∷ [])
    ∷ (40 ∷ 41 ∷ 95 ∷ 43 ∷ 0 ∷ 0 ∷ 81 ∷ 87 ∷ 69 ∷ 82 ∷ [])
    ∷ (84 ∷ 89 ∷ 85 ∷ 73 ∷ 79 ∷ 80 ∷ 123 ∷ 125 ∷ 10 ∷ 0 ∷ [])
    ∷ (65 ∷ 83 ∷ 68 ∷ 70 ∷ 71 ∷ 72 ∷ 74 ∷ 75 ∷ 76 ∷ 58 ∷ [])
    ∷ (34 ∷ 126 ∷ 0 ∷ 124 ∷ 90 ∷ 88 ∷ 67 ∷ 86 ∷ 66 ∷ 78 ∷ [])
    ∷ (77 ∷ 60 ∷ 62 ∷ 63 ∷ 0 ∷ 42 ∷ 0 ∷ 32 ∷ 0 ∷ 0 ∷ [])
    ∷ (0 ∷ 0 ∷ 0 ∷ 0 ∷ 0 ∷ 0 ∷ 0 ∷ 0 ∷ 0 ∷ 0 ∷ [])
    ∷ (0 ∷ 0 ∷ 0 ∷ 0 ∷ 45 ∷ 0 ∷ 0 ∷ 0 ∷ 43 ∷ 0 ∷ [])
    ∷ (0 ∷ 0 ∷ 0 ∷ 0 ∷ 0 ∷ 0 ∷ 0 ∷ 0 ∷ 0 ∷ 0 ∷ [])
    ∷ []

abbrev pub kbd_us_up : List ℕ
kbd_us_up = concat up_rows ++ replicate 38 0
