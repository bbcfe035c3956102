-- ===== src/Common/Memory.antt =====
-- A block of memory as a list of its bytes, and the C library's writes into it. A write never
-- changes the size of the block: what would lie behind its end is not stored, and the theorems on
-- bounds show that the program's writes have no such part.
use cnginx.Common.Lists.{length, take}
use Prim.Native.Nat.{ℕ, zero, suc, ◌+◌, ◌≤◌}
use mathlib.Core.Path.{◌≡◌, refl, ap}
use mathlib.Core.List.{List, [], ◌∷◌, ◌++◌}
use native.Mathlib.Omega.{arith}

abbrev pub Bytes : Type 0
Bytes = List ℕ

-- memcpy(mem + offset, bs, length bs)
unfoldable pub write_at : ℕ → Bytes → Bytes → Bytes
write_at zero [] mem = mem
write_at zero (b ∷ bs) [] = []
write_at zero (b ∷ bs) (m ∷ mem) = b ∷ write_at zero bs mem
write_at (suc o) bs [] = []
write_at (suc o) bs (m ∷ mem) = m ∷ write_at o bs mem

pub length-write_at : (o : ℕ) (bs mem : Bytes) → length (write_at o bs mem) ≡ length mem
unfolding write_at
length-write_at zero [] mem = refl
length-write_at zero (b ∷ bs) [] = refl
length-write_at zero (b ∷ bs) (m ∷ mem) = ap suc (length-write_at zero bs mem)
length-write_at (suc o) bs [] = refl
length-write_at (suc o) bs (m ∷ mem) = ap suc (length-write_at o bs mem)

-- The block up to the end of a write that fits.
pub take-write_at :
    (o : ℕ) (bs mem : Bytes) (n : ℕ)
    → n ≡ o + length bs
    → n ≤ length mem
    → take n (write_at o bs mem) ≡ take o mem ++ bs
unfolding write_at
take-write_at zero [] mem zero e h = refl
take-write_at zero [] mem (suc n) e h = absurd (omega arith)
take-write_at zero (b ∷ bs) mem zero e h = absurd (omega arith)
take-write_at zero (b ∷ bs) [] (suc n) e h = absurd (omega arith)
take-write_at zero (b ∷ bs) (m ∷ mem) (suc n) e h =
    ap (◌∷◌ b) (take-write_at zero bs mem n (omega arith) (omega arith))
take-write_at (suc o) bs mem zero e h = absurd (omega arith)
take-write_at (suc o) bs [] (suc n) e h = absurd (omega arith)
take-write_at (suc o) bs (m ∷ mem) (suc n) e h =
    ap (◌∷◌ m) (take-write_at o bs mem n (omega arith) (omega arith))
