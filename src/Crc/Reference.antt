-- ===== src/Crc/Reference.antt =====
-- CRC-32 by its definition, one bit at a time over the reflected polynomial, and the proof that
-- the table-driven code of nginx/misc/ngx_c_crc32.cxx computes it.
use Prim.Native.Nat.{bit_xor}
use cnginx.Common.{
  ℕ, zero, suc, ◌+◌, ◌*◌, ◌/◌, ◌%◌, ◌^◌, ◌<◌, [], ◌∷◌, ◌==◌, if◌then◌else◌, get_or, Bool, true,
  ◌&&◌, ◌≡◌, refl, sym, ap, ◌∙◌, arith, ==_iff, subst, Bool-cases, inl, inr, All,
}
use cnginx.Common.Memory.{Bytes}
use cnginx.Common.Bits.{
  bit_xor_half, bit_xor_parity, bit_xor_swap, bit_xor_comm, bit_xor_fields, bit_xor-lt,
  bit_and_0xff, field_twice,
}
use cnginx.Crc.{table_entry, table_from, init_crc32_table, crc_step, crc_loop, get_crc}

-- 0x04c11db7 with its 32 bits in the reverse order.
abbrev pub reflected_polynomial : ℕ
reflected_polynomial = 0xedb88320

-- Division of the register by the polynomial: one bit shifted out.
unfoldable pub divide_bit : ℕ → ℕ
divide_bit r = bit_xor (r / 2) (if r % 2 == 0 then 0 else reflected_polynomial)

unfoldable pub divide_bits : ℕ → ℕ → ℕ
unfolding divide_bit
divide_bits zero r = r
divide_bits (suc k) r = divide_bits k (divide_bit r)

unfoldable pub remainder_from : ℕ → Bytes → ℕ
unfolding divide_bits
remainder_from r [] = r
remainder_from r (b ∷ bs) = remainder_from (divide_bits 8 (bit_xor r b)) bs

-- The CRC-32 of ISO-HDLC: all ones at the start, inverted at the end.
unfoldable pub crc32 : Bytes → ℕ
unfolding remainder_from
crc32 bs = bit_xor (remainder_from 0xffffffff bs) 0xffffffff

-- Bits above the lowest pass through one step.
divide_bit_high : (x h : ℕ) → divide_bit (bit_xor x (2 * h)) ≡ bit_xor (divide_bit x) h
unfolding divide_bit
divide_bit_high x h =
    let parity : bit_xor x (2 * h) % 2 ≡ x % 2 = omega (arith, bit_xor_parity x (2 * h)) in
    let half : 2 * h / 2 ≡ h = omega arith in
    rw (parity, bit_xor_half x (2 * h), half) (bit_xor_swap (x / 2) h _)

-- Bits above the lowest `k` pass through `k` steps.
divide_bits_high : (k x h : ℕ) → divide_bits k (bit_xor x (h * 2 ^ k)) ≡ bit_xor (divide_bits k x) h
unfolding divide_bits
divide_bits_high zero x h = let e : h * 1 ≡ h = omega arith in rw e
divide_bits_high (suc k) x h =
    rw (sym (field_twice k h), divide_bit_high x (h * 2 ^ k)) (divide_bits_high k (divide_bit x) h)

-- Whether two functions agree on all numbers under a bound, by evaluation.
agree : (ℕ → ℕ) → (ℕ → ℕ) → ℕ → Bool
agree f g zero = true
agree f g (suc bound) = agree f g bound && (f bound == g bound)

agree-at : (f g : ℕ → ℕ) (bound i : ℕ) → i < bound → agree f g bound ≡ true → f i ≡ g i
unfolding agree
agree-at f g zero i below h = absurd (omega arith)
agree-at f g (suc bound) i below h = elim (Bool-cases (agree f g bound)) [
  | inr differs ↦ absurd (ground arith)
  | inl same ↦ elim (Bool-cases (i == bound)) [
    | inl last ↦
        let e : i ≡ bound = (==_iff i bound).0 last in
        let here : f bound ≡ g bound = ground (arith, same) in subst (λ k. f k ≡ g k) (sym e) here
    | inr early ↦ agree-at f g bound i (ground arith) same
  ]
]

table_check : agree table_entry (divide_bits 8) 256 ≡ true
unfolding agree table_entry divide_bits
table_check = refl

table_entry-divide_bits : (i : ℕ) → i < 256 → table_entry i ≡ divide_bits 8 i
table_entry-divide_bits i h = agree-at table_entry (divide_bits 8) 256 i h table_check

get_or-table_from : (n i j : ℕ) → j < n → get_or (table_from n i) j 0 ≡ table_entry (i + j)
unfolding table_from
get_or-table_from zero i j h = absurd (omega arith)
get_or-table_from (suc n) i zero h = let e : i ≡ i + 0 = omega arith in ap table_entry e
get_or-table_from (suc n) i (suc j) h =
    let e : i + 1 + j ≡ i + suc j = omega arith in
    get_or-table_from n (i + 1) j (omega arith) ∙ ap table_entry e

-- The lookup table holds, for each byte, the byte divided through eight times.
pub get_or-init_crc32_table : (i : ℕ) → i < 256 → get_or init_crc32_table i 0 ≡ divide_bits 8 i
unfolding init_crc32_table
get_or-init_crc32_table i h =
    get_or-table_from 256 0 i h
    ∙ ap table_entry {x = 0 + i} {y = i} (omega arith)
    ∙ table_entry-divide_bits i h

low_and_high : (r b : ℕ) → bit_xor (bit_xor (r % 256) b) (r / 256 * 2 ^ 8) ≡ bit_xor r b
low_and_high r b =
    bit_xor_swap (r % 256) b (r / 256 * 2 ^ 8)
    ∙ ap (λ (t : ℕ). bit_xor t b) (bit_xor_fields 8 (r % 256) (r / 256) (omega arith) ∙ omega arith)

crc_step-divide_bits :
    (r b : ℕ) → b < 256 → crc_step init_crc32_table r b ≡ divide_bits 8 (bit_xor r b)
unfolding crc_step
crc_step-divide_bits r b h =
    let index = bit_xor (r % 256) b in
    rw
      (
        bit_and_0xff r,
        get_or-init_crc32_table index (bit_xor-lt 8 (r % 256) b (omega arith) h),
        ← low_and_high r b,
        divide_bits_high 8 index (r / 256),
      )
      (bit_xor_comm (r / 256) (divide_bits 8 index))

crc_loop-remainder_from :
    (r : ℕ) (bs : Bytes)
    → All (λ b. b < 256) bs
    → crc_loop init_crc32_table r bs ≡ remainder_from r bs
unfolding crc_loop remainder_from
crc_loop-remainder_from r [] h = refl
crc_loop-remainder_from r (b ∷ bs) h =
    rw (crc_step-divide_bits r b h.0) (crc_loop-remainder_from (divide_bits 8 (bit_xor r b)) bs h.1)

-- For every buffer of bytes, the table-driven checksum is the CRC-32 of its bitwise definition.
pub get_crc-crc32 : (buffer : Bytes) → All (λ b. b < 256) buffer → get_crc buffer ≡ crc32 buffer
unfolding get_crc crc32
get_crc-crc32 buffer h =
    ap (λ (t : ℕ). bit_xor t 0xffffffff) (crc_loop-remainder_from 0xffffffff buffer h)
