-- ===== src/BootParam/Tests.antt =====
-- kernel/boot/boot_param.c: one header at address 0x9000000000000100, the text "MEM" at 64.
use echo_os.Base.{ℕ, ◌+◌, none, some, [], ◌∷◌, done, ◌≡◌, refl, arith}
use echo_os.Base.Int.{pos}
use echo_os.Utils.Memory.{Memory, store, memcmp}
use echo_os.BootParam.{find_headers, list_find, to_cac, ext_listhdr_checksum}
use echo_os.BootParam.Headers.{Taken, list_find-Taken}

abbrev head : ℕ
head = to_cac 256

abbrev mem_text : Memory
mem_text = store (store (store (λ q. 0) 64 77) 65 69) 66 77

-- A header with the signature "MEM" is passed over.
abbrev with_mem : Memory
with_mem = store (store (store mem_text head 77) (head + 1) 69) (head + 2) 77

passed_over : list_find 2 with_mem 64 none head ≡ done (pos 0, none)
unfolding list_find find_headers memcmp
passed_over = refl

-- One with another signature is taken.
taken : list_find 2 mem_text 64 none head ≡ done (pos 0, some head)
unfolding list_find find_headers memcmp ext_listhdr_checksum
taken = refl

list_find-Taken_example : Taken mem_text 64 (list_find 2 mem_text 64 none head)
list_find-Taken_example =
    list_find-Taken mem_text 64 2 head (head ∷ []) (refl, (λ e. omega (arith, e)), refl)
      (omega arith)
