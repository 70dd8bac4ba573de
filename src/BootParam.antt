-- ===== src/BootParam.antt =====
-- kernel/boot/boot_param.c and the memory maps of kernel/mm/mm.c. The list of extension headers lies in
-- memory; a header is packed, with `length` at 8 and `next` at 14. What is printed is left out.
pub mod Headers
mod Tests
use echo_os.Base.{
  ℕ, zero, suc, ◌+◌, ◌*◌, ◌%◌, ◌^◌, Bool, Option, none, some, List, [], ◌∷◌, Exec, done, timeout,
  ◌>>=◌, ◌==◌, not, if◌then◌else◌,
}
use echo_os.Base.Int.{ℤ, pos, negsuc}
use echo_os.Utils.Memory.{Memory, memcmp}

-- A number of `n` bytes, the low byte first.
abbrev pub load : Memory → ℕ → ℕ → ℕ
load m p zero = 0
load m p (suc n) = m p + load m (p + 1) n * 256

-- The loop, from the sum so far.
unfoldable pub ext_listhdr_checksum : Memory → ℕ → ℕ → ℕ → ℕ
ext_listhdr_checksum m buffer zero sum = sum
ext_listhdr_checksum m buffer (suc n) sum =
    ext_listhdr_checksum m (buffer + 1) n ((sum + m buffer) % 256)

-- `CAC_BASE | (x & TO_PHYS_MASK)`
abbrev pub to_cac : ℕ → ℕ
to_cac x = 0x9000 * 2 ^ 48 + x % 2 ^ 48

abbrev pub next_header : Memory → ℕ → ℕ
next_header m head = let next = load m (head + 14) 8 in if next == 0 then next else to_cac next

-- The `while` of `list_find`: the result, and `loongson_mem_map`. `mem` is the address of the text
-- "MEM". `parse_mem` makes `loongson_mem_map` point to the header, and fails where the checksum is
-- not 0. `parse_vbios` and `parse_screeninfo` return 0 and change nothing, so the two branches that
-- call them are one with the way past them.
unfoldable pub find_headers : ℕ → Memory → ℕ → Option ℕ → ℕ → Exec (ℤ × Option ℕ)
find_headers zero m mem map fhead = timeout
find_headers (suc fuel) m mem map fhead =
    let next = next_header m fhead in
    let rest = find_headers fuel m mem map next in
    let after = find_headers fuel m mem (some fhead) next in
    if fhead == 0
    then done (pos 0, map)
    else if memcmp m fhead mem 3 == 0
    then (if ext_listhdr_checksum m fhead (load m (fhead + 8) 4) 0 == 0
        then after
        else done (negsuc 0, some fhead))
    else rest

unfoldable pub list_find : ℕ → Memory → ℕ → Option ℕ → ℕ → Exec (ℤ × Option ℕ)
list_find fuel m mem map head =
    if head == 0 then done (negsuc 0, map) else find_headers fuel m mem map head

-- `extlist` of the boot parameters is at 16.
unfoldable pub env_init : ℕ → Memory → ℕ → Option ℕ → ℕ → Exec (ℤ × Option ℕ)
env_init fuel m mem map efi_bp =
    let extlist = load m (efi_bp + 16) 8 in
    list_find fuel m mem map (if extlist == 0 then 0 else to_cac extlist)

-- `mem_map_list`: type, start and size of each of its 15 entries.
abbrev pub mem_map_list : List (ℕ × ℕ × ℕ)
mem_map_list =
    (1, 0x00200000, 0x0ee00000)
    ∷ (2, 0x0f000000, 0x01000000)
    ∷ (1, 0x00000000, 0x10000000)
    ∷ (1, 0x90000000, 0xf0000000)
    ∷ (1, 0x00000000, 0x10000000)
    ∷ (1, 0x90010000, 0x6e6c0000)
    ∷ (1, 0xfe6e0000, 0x00010000)
    ∷ (1, 0xfe700000, 0x00190000)
    ∷ (1, 0xfef10000, 0x01080000)
    ∷ (1, 0xfffe0000, 0x80020000)
    ∷ (1, 0x100d0000, 0x00001000)
    ∷ (1, 0xfe6f0000, 0x00010000)
    ∷ (1, 0xfe890000, 0x002c0000)
    ∷ (1, 0xfeb60000, 0x003b0000)
    ∷ (1, 0xfff90000, 0x00050000)
    ∷ []
