-- ===== src/Mm/Bitmap.antt =====
-- kernel/mm/bitmap.c: a bitmap of bytes, one bit for each byte of the system heap. The map is the
-- list of its bytes. An index that C would compute as negative, or one past the map, is a fault.
pub mod Bits
pub mod Mark
pub mod Search
pub mod Scan
pub mod Bytes
pub mod Zeros
pub mod Aligned
mod Tests
use echo_os.Base.{
  ℕ, zero, suc, ◌+◌, ◌-◌, ◌*◌, ◌/◌, ◌%◌, ◌^◌, bit_and, bit_or, List, ◌&&◌, Bool, Option, none, some,
  Exec, done, fault, timeout, ◌>>=◌, ltb, ◌==◌, if◌then◌else◌, length, get_or, set, not,
}

-- `b &= ~(1 << j)` and `b |= 1 << j` on a byte.
abbrev pub put_bit : ℕ → ℕ → ℕ → ℕ
put_bit b j value = if value == 0 then bit_and b (255 - 2 ^ j) else bit_or b (2 ^ j)

unfoldable pub set_bit : List ℕ → ℕ → ℕ → Exec (List ℕ)
set_bit map index value =
    if ltb (index / 8) (length map)
    then done (set map (index / 8) (put_bit (get_or map (index / 8) 0) (index % 8) value))
    else fault

-- `(bitmap[i] & (1 << j)) == 0`
abbrev pub is_clear : List ℕ → ℕ → ℕ → Bool
is_clear map i j = bit_and (get_or map i 0) (2 ^ j) == 0

-- The `while` of `alloc_bits`: `none` is its `return -1`, else `i * 8 + j`.
unfoldable pub scan_bits : ℕ → List ℕ → ℕ → ℕ → ℕ → ℕ → ℕ → ℕ → Exec (Option ℕ)
scan_bits zero map map_size size last_i i j k = timeout
scan_bits (suc fuel) map map_size size last_i i j k =
    let i' = if j == 8 then (i + 1) % map_size else i in
    let j' = if j == 8 then 0 else j in
    let rest =
      scan_bits fuel map map_size size last_i i' (j' + 1)
        (if is_clear map i' j' then k + 1 else 0) in
    if ltb k size
    then (if (j == 8) && (i' == last_i)
        then done none
        else if ltb i' (length map)
        then rest
        else fault)
    else done (some (i * 8 + j))

-- The `for` of `alloc_bits` from round `l`, with `n` rounds to go.
unfoldable pub mark_bits : List ℕ → ℕ → ℕ → ℕ → Exec (List ℕ)
mark_bits map last l zero = done map
mark_bits map last l (suc n) =
    if ltb l last
    then set_bit map (last - l - 1) 1 >>= (λ map'. mark_bits map' last (l + 1) n)
    else fault

-- The index that is returned (`none` for -1), the map and `*last` afterwards.
unfoldable pub alloc_bits : ℕ → List ℕ → ℕ → ℕ → ℕ → Exec (Option ℕ × List ℕ × ℕ)
alloc_bits fuel map map_size size last =
    scan_bits fuel map map_size size (last / 8) (last / 8) (last % 8) 0 >>= λ found. elim found [
      | none ↦ done (none, map, last)
      | some last' ↦
          mark_bits map last' 0 size >>= (λ map'. done (some (last' - size), map', last'))
    ]

-- The `while` of `alloc_aligned_bits`: `none` is its `return -1`, else the byte index `i`.
unfoldable pub scan_bytes : ℕ → List ℕ → ℕ → ℕ → ℕ → ℕ → ℕ → Exec (Option ℕ)
scan_bytes zero map map_size size last_i i k = timeout
scan_bytes (suc fuel) map map_size size last_i i k =
    let rest =
      scan_bytes fuel map map_size size last_i ((i + 1) % map_size)
        (if get_or map i 0 == 0 then k + 1 else 0) in
    if ltb k size
    then (if ltb i (length map)
        then (if (i + 1) % map_size == last_i then done none else rest)
        else fault)
    else done (some i)

-- `bitmap[i - l - 1] = 0xFF` for `n` rounds from round `l`.
unfoldable pub mark_bytes : List ℕ → ℕ → ℕ → ℕ → Exec (List ℕ)
mark_bytes map i l zero = done map
mark_bytes map i l (suc n) =
    if ltb l i && ltb (i - l - 1) (length map)
    then mark_bytes (set map (i - l - 1) 0xFF) i (l + 1) n
    else fault

-- `size` is an int: one that is none, or to which 7 cannot be added, is a fault.
unfoldable pub alloc_aligned_bits : ℕ → List ℕ → ℕ → ℕ → ℕ → Exec (Option ℕ × List ℕ × ℕ)
alloc_aligned_bits fuel map map_size size last =
    let last_i = (last + 7) / 8 % map_size in
    let size' = (size + 7) / 8 in
    let run = scan_bytes fuel map map_size size' last_i last_i 0 >>= λ found. elim found [
      | none ↦ done (none, map, last)
      | some i ↦ mark_bytes map i 0 size' >>= (λ map'. done (some (i * 8 - size' * 8), map', i * 8))
    ] in
    if ltb (size + 7) (2 ^ 31) then run else fault

-- `set_bit(bitmap, index + i, 0)` for `n` rounds from round `i`.
unfoldable pub clear_bits : List ℕ → ℕ → ℕ → ℕ → Exec (List ℕ)
clear_bits map index i zero = done map
clear_bits map index i (suc n) =
    set_bit map (index + i) 0 >>= (λ map'. clear_bits map' index (i + 1) n)

unfoldable pub free_bits : List ℕ → ℕ → ℕ → Exec (List ℕ)
free_bits map index size = clear_bits map index 0 size

-- `bitmap[index + i] = 0` for `n` rounds from round `i`.
unfoldable pub clear_bytes : List ℕ → ℕ → ℕ → ℕ → Exec (List ℕ)
clear_bytes map index i zero = done map
clear_bytes map index i (suc n) =
    if ltb (index + i) (length map)
    then clear_bytes (set map (index + i) 0) index (i + 1) n
    else fault

unfoldable pub free_aligned_bits : List ℕ → ℕ → ℕ → Exec (List ℕ)
free_aligned_bits map index size = clear_bytes map ((index + 7) / 8) 0 ((size + 7) / 8)

-- What a client sees of a map: is bit `p` in use?
abbrev pub is_used : List ℕ → ℕ → Bool
is_used map p = not (is_clear map (p / 8) (p % 8))
