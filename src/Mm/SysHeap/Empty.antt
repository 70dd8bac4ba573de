-- ===== src/Mm/SysHeap/Empty.antt =====
-- kernel/mm/sys_heap.c: the heap before its first allocation, whose map is zero.
use Prim.Native.Nat.{bit_and-bitwise}
use echo_os.Base.{
  ℕ, zero, suc, ◌<◌, ◌/◌, ◌%◌, ◌^◌, false, not, List, [], ◌==◌, get_or, replicate, length-replicate,
  bit_and, ◌≡◌, refl, ap, ◌∙◌, arith,
}
use echo_os.Mm.Bitmap.{is_used}
use echo_os.Mm.Bitmap.Bits.{IsBytes}
use echo_os.Mm.SysHeap.{SysHeap}
use echo_os.Mm.SysHeap.Session.{Implements}
use echo_os.Utils.Memory.{Memory}

abbrev pub zeros : ℕ → List ℕ
zeros n = replicate n 0

replicate-IsBytes : (n : ℕ) → IsBytes (zeros n)
replicate-IsBytes zero = tt
replicate-IsBytes (suc n) = (omega arith, replicate-IsBytes n)

get_or-replicate : (n i : ℕ) → get_or (zeros n) i 0 ≡ 0
get_or-replicate zero i = refl
get_or-replicate (suc n) zero = refl
get_or-replicate (suc n) (suc i) = get_or-replicate n i

replicate-unused : (n q : ℕ) → is_used (zeros n) q ≡ false
replicate-unused n q =
    ap (λ b. not (bit_and b (2 ^ (q % 8)) == 0)) (get_or-replicate n (q / 8))
    ∙ ap (λ b. not (b == 0)) (bit_and-bitwise 0 (2 ^ (q % 8)))

abbrev pub empty_map : ℕ → Memory → SysHeap
empty_map n m = record { bitmap = zeros n; last = 0; memory = m }

-- It implements no blocks.
pub empty_map-Implements : (n : ℕ) (m : Memory) → 0 < n → Implements (empty_map n m) []
empty_map-Implements n m pos_n = record {
  valid = record {
    bytes = replicate-IsBytes n;
    nonempty = omega (arith, length-replicate {A = ℕ} n 0, pos_n);
    last_in_map = omega arith;
  };
  blocks = tt;
  exact = replicate-unused n;
}
