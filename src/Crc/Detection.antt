-- ===== src/Crc/Detection.antt =====
-- What the checksum of nginx/misc/ngx_c_crc32.cxx detects.
use Prim.Native.Nat.{bit_xor}
use cnginx.Common.{
  ℕ, zero, suc, ◌/◌, ◌%◌, ◌^◌, ◌<◌, [], ◌∷◌, ◌++◌, ◌==◌, ◌≡◌, ◌≢◌, ap, sym, ◌∙◌, arith, All,
  All-append, Bool-cases, inl, inr,
}
use cnginx.Common.Memory.{Bytes}
use cnginx.Common.Bits.{bit_xor_cancel, bit_xor-lt, bit_xor_comm, bit_xor-zero}
use cnginx.Crc.{get_crc}
use cnginx.Crc.Reference.{
  reflected_polynomial, divide_bit, divide_bits, remainder_from, crc32, get_crc-crc32,
}

xor_injective : (a b c : ℕ) → bit_xor a c ≡ bit_xor b c → a ≡ b
xor_injective a b c e =
    sym (bit_xor_cancel a c) ∙ ap (λ (t : ℕ). bit_xor t c) e ∙ bit_xor_cancel b c

-- If a register that ends in 1 and one that ends in 0 were divided to the same value, the
-- polynomial would have no bit 31.
parities_differ :
    (r s : ℕ)
    → r < 2 ^ 32
    → s < 2 ^ 32
    → bit_xor (r / 2) reflected_polynomial ≡ bit_xor (s / 2) 0
    → ⊥
parities_differ r s hr hs e =
    let bound : bit_xor (s / 2) (r / 2) < 2 ^ 31 =
      bit_xor-lt 31 (s / 2) (r / 2) (omega arith) (omega arith) in
    let found : bit_xor (s / 2) (r / 2) ≡ reflected_polynomial =
      ap (λ (t : ℕ). bit_xor t (r / 2)) (sym (e ∙ bit_xor-zero (s / 2)))
      ∙ ap (λ (t : ℕ). bit_xor t (r / 2)) (bit_xor_comm (r / 2) reflected_polynomial)
      ∙ bit_xor_cancel reflected_polynomial (r / 2) in
    omega arith

divide_bit_injective : (r s : ℕ) → r < 2 ^ 32 → s < 2 ^ 32 → divide_bit r ≡ divide_bit s → r ≡ s
unfolding divide_bit
divide_bit_injective r s hr hs e = elim (Bool-cases (r % 2 == 0)) [
  | inl p ↦ elim (Bool-cases (s % 2 == 0)) [
    | inl q ↦ let halves : r / 2 ≡ s / 2 = xor_injective _ _ 0 (rw (p, q) at e) in ground arith
    | inr q ↦ absurd (parities_differ s r hs hr (sym (rw (p, q) at e)))
  ]
  | inr p ↦ elim (Bool-cases (s % 2 == 0)) [
    | inl q ↦ absurd (parities_differ r s hr hs (rw (p, q) at e))
    | inr q ↦
        let halves : r / 2 ≡ s / 2 = xor_injective _ _ reflected_polynomial (rw (p, q) at e) in
        ground arith
  ]
]

divide_bit-lt : (r : ℕ) → r < 2 ^ 32 → divide_bit r < 2 ^ 32
unfolding divide_bit
divide_bit-lt r h = elim (Bool-cases (r % 2 == 0)) [
  | inl p ↦ rw p (bit_xor-lt 32 (r / 2) 0 (omega arith) (omega arith))
  | inr p ↦ rw p (bit_xor-lt 32 (r / 2) reflected_polynomial (omega arith) (omega arith))
]

divide_bits-lt : (k r : ℕ) → r < 2 ^ 32 → divide_bits k r < 2 ^ 32
unfolding divide_bits
divide_bits-lt zero r h = h
divide_bits-lt (suc k) r h = divide_bits-lt k (divide_bit r) (divide_bit-lt r h)

divide_bits_injective :
    (k r s : ℕ) → r < 2 ^ 32 → s < 2 ^ 32 → divide_bits k r ≡ divide_bits k s → r ≡ s
unfolding divide_bits
divide_bits_injective zero r s hr hs e = e
divide_bits_injective (suc k) r s hr hs e =
    divide_bit_injective r s hr hs
      (divide_bits_injective k _ _ (divide_bit-lt r hr) (divide_bit-lt s hs) e)

byte_in : (r b : ℕ) → r < 2 ^ 32 → b < 256 → bit_xor r b < 2 ^ 32
byte_in r b hr hb = bit_xor-lt 32 r b hr (omega arith)

remainder_from_injective :
    (bs : Bytes) (r s : ℕ)
    → All (λ b. b < 256) bs
    → r < 2 ^ 32
    → s < 2 ^ 32
    → remainder_from r bs ≡ remainder_from s bs
    → r ≡ s
unfolding remainder_from
remainder_from_injective [] r s h hr hs e = e
remainder_from_injective (b ∷ bs) r s h hr hs e = xor_injective r s b (
    divide_bits_injective 8 _ _ (byte_in r b hr h.0) (byte_in s b hs h.0) (
      remainder_from_injective bs (divide_bits 8 (bit_xor r b)) (divide_bits 8 (bit_xor s b)) h.1
        (divide_bits-lt 8 _ (byte_in r b hr h.0)) (divide_bits-lt 8 _ (byte_in s b hs h.0)) e))

remainder_from-one_byte :
    (xs ys : Bytes) (b c r : ℕ)
    → All (λ x. x < 256) xs
    → All (λ y. y < 256) ys
    → b < 256
    → c < 256
    → r < 2 ^ 32
    → remainder_from r (xs ++ b ∷ ys) ≡ remainder_from r (xs ++ c ∷ ys)
    → b ≡ c
unfolding remainder_from
remainder_from-one_byte [] ys b c r hx hy hb hc hr e = xor_injective b c r (
    bit_xor_comm b r
    ∙ divide_bits_injective 8 _ _ (byte_in r b hr hb) (byte_in r c hr hc) (
        remainder_from_injective ys _ _ hy (divide_bits-lt 8 _ (byte_in r b hr hb))
          (divide_bits-lt 8 _ (byte_in r c hr hc)) e)
    ∙ bit_xor_comm r c)
remainder_from-one_byte (x ∷ xs) ys b c r hx hy hb hc hr e =
    remainder_from-one_byte xs ys b c (divide_bits 8 (bit_xor r x)) hx.1 hy hb hc
      (divide_bits-lt 8 _ (byte_in r x hr hx.0)) e

-- Two buffers of bytes that differ in one place, by whatever value, have different checksums.
pub get_crc_detects :
    (xs ys : Bytes) (b c : ℕ)
    → All (λ x. x < 256) xs
    → All (λ y. y < 256) ys
    → b < 256
    → c < 256
    → b ≢ c
    → get_crc (xs ++ b ∷ ys) ≢ get_crc (xs ++ c ∷ ys)
unfolding crc32
get_crc_detects xs ys b c hx hy hb hc ne e = ne (
    remainder_from-one_byte xs ys b c 0xffffffff hx hy hb hc (omega arith) (
      xor_injective _ _ 0xffffffff (
        sym (get_crc-crc32 _ (All-append _ xs (b ∷ ys) hx (hb, hy)))
        ∙ e
        ∙ get_crc-crc32 _ (All-append _ xs (c ∷ ys) hx (hc, hy)))))

remainder_from-lt :
    (bs : Bytes) (r : ℕ) → All (λ b. b < 256) bs → r < 2 ^ 32 → remainder_from r bs < 2 ^ 32
unfolding remainder_from
remainder_from-lt [] r h hr = hr
remainder_from-lt (b ∷ bs) r h hr =
    remainder_from-lt bs (divide_bits 8 (bit_xor r b)) h.1 (divide_bits-lt 8 _ (byte_in r b hr h.0))

pub get_crc-lt : (bs : Bytes) → All (λ b. b < 256) bs → get_crc bs < 2 ^ 32
unfolding crc32
get_crc-lt bs h = rw (get_crc-crc32 bs h) (
    bit_xor-lt 32 (remainder_from 0xffffffff bs) 0xffffffff
      (remainder_from-lt bs 0xffffffff h (omega arith)) (omega arith))
