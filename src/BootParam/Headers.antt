-- ===== src/BootParam/Headers.antt =====
-- kernel/boot/boot_param.c, `list_find`: which header is taken for the memory map.
use echo_os.Base.{
  ℕ, zero, suc, ◌+◌, ◌<◌, ◌≢◌, true, false, Option, none, some, List, [], ◌∷◌, Exec, done, fault,
  timeout, ◌==◌, ◌≡◌, inl, inr, arith, length, Bool-cases, ==_iff,
}
use echo_os.Base.Int.{ℤ}
use echo_os.Utils.Memory.{Memory, memcmp}
use echo_os.Utils.Memory.Laws.{memcmp_lem}
use echo_os.BootParam.{load, ext_listhdr_checksum, next_header, find_headers, list_find}

-- The headers of a list, in their order, up to a null pointer.
abbrev Chain : Memory → ℕ → List ℕ → Type 0
Chain m p [] = p ≡ 0
Chain m p (h ∷ hs) = (p ≡ h) × (p ≢ 0) × Chain m (next_header m p) hs

-- The header that is taken for the memory map does not begin with the text at `mem`.
abbrev OtherSignature : Memory → ℕ → Option ℕ → Type 0
OtherSignature m mem none = Unit
OtherSignature m mem (some h) = (t : ℕ) × (t < 3) × (m (h + t) ≢ m (mem + t))

abbrev pub Taken : Memory → ℕ → Exec (ℤ × Option ℕ) → Type 0
Taken m mem (done (result, map)) = OtherSignature m mem map
Taken m mem fault = ⊥
Taken m mem timeout = ⊥

differs : (m : Memory) (h mem : ℕ) → (memcmp m h mem 3 == 0) ≡ true → OtherSignature m mem (some h)
differs m h mem e = elim (memcmp_lem m h mem 3) [
  | inl (one, same) ↦ absurd (omega (arith, one, (==_iff (memcmp m h mem 3) 0).0 e))
  | inr (zero_result, different) ↦ different
]

module _ (m : Memory) (mem : ℕ) where
  find_headers-Taken :
      (fuel p : ℕ) (hs : List ℕ) (map : Option ℕ)
      → Chain m p hs
      → length hs < fuel
      → OtherSignature m mem map
      → Taken m mem (find_headers fuel m mem map p)
  unfolding find_headers
  find_headers-Taken zero p hs map chain lt other = absurd (omega arith)
  find_headers-Taken (suc fuel) p [] map chain lt other =
      let null : (p == 0) ≡ true = (==_iff p 0).1 chain in rw null other
  find_headers-Taken (suc fuel) p (h ∷ hs) map (is_h, not_null, chain) lt other =
      let some_p : (p == 0) ≡ false = ground arith in
      elim (Bool-cases (memcmp m p mem 3 == 0)) [
        | inr skip ↦
            rw (some_p, skip)
              (find_headers-Taken fuel (next_header m p) hs map chain (omega arith) other)
        | inl take ↦ elim (Bool-cases (ext_listhdr_checksum m p (load m (p + 8) 4) 0 == 0)) [
          | inl good ↦
              rw (some_p, take, good)
                (find_headers-Taken fuel (next_header m p) hs (some p) chain (omega arith)
                  (differs m p mem take))
          | inr bad ↦ rw (some_p, take, bad) (differs m p mem take)
        ]
      ]

  -- On a list of headers that ends, with fuel for its length and no memory map taken before,
  -- `list_find` ends, and the header that it takes for the memory map, if any, is one that does not
  -- begin with "MEM": `memcmp` returns 0 for different texts.
  pub list_find-Taken :
      (fuel p : ℕ) (hs : List ℕ)
      → Chain m p hs
      → length hs < fuel
      → Taken m mem (list_find fuel m mem none p)
  unfolding list_find
  list_find-Taken fuel p hs chain lt = elim (Bool-cases (p == 0)) [
    | inl null ↦ rw null tt
    | inr there ↦ rw there (find_headers-Taken fuel p hs none chain lt tt)
  ]
