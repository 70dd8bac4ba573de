-- ===== src/Utils/MemMap.antt =====
-- kernel/utils/memory.c, `print_memmap`: the table of the memory as text. The start and the size of an
-- entry are unsigned words of 64 bits, of which `%d` reads the low 32 bits as an int.
use echo_os.Base.{
  ℕ, ◌-◌, ◌%◌, ◌^◌, List, [], ◌∷◌, ◌++◌, Exec, done, ◌>>=◌, ltb, if◌then◌else◌, length,
}
use echo_os.Base.Int.{ℤ, pos, negsuc}
use echo_os.Base.Text.{codes}
use echo_os.BootParam.{mem_map_list}
use echo_os.Sysio.Print.{int, printf}

-- The table of this file has the same entries as that of kernel/mm/mm.c.
abbrev pub mem_map_list_temp : List (ℕ × ℕ × ℕ)
mem_map_list_temp = mem_map_list

abbrev as_int : ℕ → ℤ
as_int x = let low = x % 2 ^ 32 in if ltb low (2 ^ 31) then pos low else negsuc (2 ^ 32 - low - 1)

unfoldable pub print_entries : List (ℕ × ℕ × ℕ) → Exec (List ℕ)
print_entries [] = done []
print_entries ((mem_type, mem_start, mem_size) ∷ entries) =
    printf (codes "\tmem_type:%d ; mem_start:%d ; mem_size:%d\n")
      (int (as_int mem_type) ∷ (int (as_int mem_start) ∷ (int (as_int mem_size) ∷ [])))
    >>= λ out. print_entries entries >>= λ more. done (out ++ more)

unfoldable pub print_memmap : Exec (List ℕ)
print_memmap =
    printf (codes "map_count : %d\n") (int (pos (length mem_map_list_temp)) ∷ []) >>= λ out.
    print_entries mem_map_list_temp >>= λ more. done (out ++ more)
