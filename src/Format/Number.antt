-- ===== src/Format/Number.antt =====
-- Numbers as ngx_sprintf_num writes them (nginx/app/ngx_printf.cxx, lines 240 to 304): what is in
-- the buffer afterwards, and the digits as a numeral of the number.
use Prim.Native.Nat.{bit_and}
use native.Mathlib.Nat.{pow-suc}
use cnginx.Common.{
  get_or, true, refl, ℕ, zero, suc, ◌+◌, ◌-◌, ◌*◌, ◌/◌, ◌%◌, ◌^◌, ◌≤◌, ◌<◌, ◌≡◌, sym, ap, ◌∙◌,
  Bool-cases, inl, inr, ltb, ltb→lt, false, leb, ◌==◌, if◌then◌else◌, [], ◌∷◌, ◌++◌, append_assoc,
  append-nil, length, take, take_all, take-append, length-append, length-take, replicate, arith,
}
use cnginx.Common.Bits.{bit_and_0xf}
use cnginx.Common.Memory.{Bytes}
use cnginx.Format.{
  copy_digits, decimal_loop, number_digits, pad_loop, sprintf_num, int64_len, hex_loop, hex_digits,
  hex_digits_upper,
}

-- What is cut off stays cut off.
pub take-take-append : (n : ℕ) (xs ys : Bytes) → take n (take n xs ++ ys) ≡ take n (xs ++ ys)
take-take-append zero xs ys = refl
take-take-append (suc n) [] ys = refl
take-take-append (suc n) (x ∷ xs) ys = ap (◌∷◌ x) (take-take-append n xs ys)

pub append-take :
    (n : ℕ) (xs ys : Bytes) → length xs ≤ n → xs ++ take (n - length xs) ys ≡ take n (xs ++ ys)
append-take n [] ys h = ap (λ k. take k ys) (omega arith)
append-take zero (x ∷ xs) ys h = absurd (omega arith)
append-take (suc n) (x ∷ xs) ys h =
    let e : suc n - suc (length xs) ≡ n - length xs = omega arith in
    rw e (ap (◌∷◌ x) (append-take n xs ys (omega arith)))

pub take-full : (n : ℕ) (xs ys : Bytes) → length xs ≡ n → take n (xs ++ ys) ≡ xs
take-full n xs ys h = take-append xs ys n (omega arith) ∙ take_all n xs (omega arith)

-- The text that a number adds where there is room: the padding, then the digits.
abbrev pub number : ℕ → ℕ → ℕ → ℕ → Bytes
number n c hexadecimal width =
    let digits = number_digits n hexadecimal in replicate (width - length digits) c ++ digits

module _ (last : ℕ) where
  pub pad_loop_lem :
      (rounds c : ℕ) (text : Bytes)
      → length text ≤ last
      → pad_loop last rounds c text ≡ take last (text ++ replicate rounds c)
  unfolding pad_loop
  pad_loop_lem zero c text h = sym (ap (take last) (append-nil text) ∙ take_all last text h)
  pad_loop_lem (suc rounds) c text h = elim (Bool-cases (ltb (length text) last)) [
    | inl room ↦ rw room (
        pad_loop_lem rounds c (text ++ c ∷ [])
          (omega (arith, length-append text (c ∷ []), ltb→lt (length text) last room))
        ∙ ap (take last) (append_assoc text (c ∷ []) (replicate rounds c)))
    | inr full ↦ rw full (sym (take-full last text (c ∷ replicate rounds c) (full_length full)))
  ]
    where
      full_length : ltb (length text) last ≡ false → length text ≡ last
      full_length full = ground arith

  pub copy_digits_lem :
      (text digits : Bytes)
      → length text ≤ last
      → copy_digits last text digits ≡ take last (text ++ digits)
  copy_digits_lem text digits h = elim (Bool-cases (leb last (length text + length digits))) [
    | inl full ↦ rw full (append-take last text digits h)
    | inr room ↦ rw room (
        ap (text ++◌) (take_all (length digits) digits (omega arith))
        ∙ sym (take_all last (text ++ digits) (all_fits room)))
  ]
    where
      all_fits : leb last (length text + length digits) ≡ false → length (text ++ digits) ≤ last
      all_fits room = rw (length-append text digits) (ground arith)

  -- Into a buffer whose text stands within its size, ngx_sprintf_num writes the padding and the
  -- digits as far as the buffer goes, and nothing past its end.
  pub sprintf_num_lem :
      (text : Bytes) (n c hexadecimal width : ℕ)
      → length text ≤ last
      → sprintf_num last text n c hexadecimal width
        ≡ take last (text ++ number n c hexadecimal width)
  unfolding sprintf_num
  sprintf_num_lem text n c hexadecimal width h =
      let digits = number_digits n hexadecimal in
      let padding = replicate (width - length digits) c in
      ap (λ padded. copy_digits last padded digits) (pad_loop_lem (width - length digits) c text h)
      ∙ copy_digits_lem (take last (text ++ padding)) digits
          (omega (arith, length-take last (text ++ padding)))
      ∙ take-take-append last (text ++ padding) digits
      ∙ ap (take last) (append_assoc text padding digits)

-- The value of a character as a digit, and of a numeral in a base behind a value read so far.
abbrev pub digit_value : ℕ → ℕ
digit_value c = if ltb c 58 then c - 48 else if ltb c 97 then c - 55 else c - 87

abbrev pub value_from : ℕ → ℕ → Bytes → ℕ
value_from base n [] = n
value_from base n (c ∷ cs) = value_from base (n * base + digit_value c) cs

decimal_loop_lem :
    (fuel n : ℕ) (done : Bytes)
    → n < 10 ^ fuel
    → value_from 10 0 (decimal_loop fuel n done) ≡ value_from 10 n done
unfolding decimal_loop
decimal_loop_lem zero n done h = ap (λ k. value_from 10 k done) (omega arith)
decimal_loop_lem (suc fuel) n done h = elim (Bool-cases (n / 10 == 0)) [
  | inl over ↦ rw over (ap (λ k. value_from 10 k done) (ground arith))
  | inr more ↦ rw more (
      decimal_loop_lem fuel (n / 10) ((n % 10 + b'0') ∷ done) (omega (arith, pow-suc 10 fuel))
      ∙ ap (λ k. value_from 10 k done) (ground arith))
]

hex_char : (d : ℕ) → d < 16 → digit_value (get_or hex_digits d 0) ≡ d
hex_char d h = ground arith

hex_char_upper : (d : ℕ) → d < 16 → digit_value (get_or hex_digits_upper d 0) ≡ d
hex_char_upper d h = ground arith

module _ (table : Bytes) (value-digit : (d : ℕ) → d < 16 → digit_value (get_or table d 0) ≡ d) where
  hex_value : (n : ℕ) → digit_value (get_or table (bit_and n 0xf) 0) ≡ n % 16
  hex_value n = rw (bit_and_0xf n) (value-digit (n % 16) (omega arith))

  hex_loop_lem :
      (fuel n : ℕ) (done : Bytes)
      → n < 16 ^ fuel
      → value_from 16 0 (hex_loop table fuel n done) ≡ value_from 16 n done
  unfolding hex_loop
  hex_loop_lem zero n done h = ap (λ k. value_from 16 k done) (omega arith)
  hex_loop_lem (suc fuel) n done h = elim (Bool-cases (n / 2 ^ 4 == 0)) [
    | inl over ↦
        rw over (ap (λ k. value_from 16 k done) (omega (arith, hex_value n, last_digit over)))
    | inr more ↦ rw more (
        hex_loop_lem fuel (n / 2 ^ 4) (get_or table (bit_and n 0xf) 0 ∷ done)
          (omega (arith, pow-suc 16 fuel))
        ∙ ap (λ k. value_from 16 k done) (omega (arith, hex_value n)))
  ]
    where
      last_digit : n / 2 ^ 4 == 0 ≡ true → n % 16 ≡ n
      last_digit over = ground arith

  hex_loop-length :
      (fuel n : ℕ) (done : Bytes) → length (hex_loop table fuel n done) ≤ fuel + length done
  unfolding hex_loop
  hex_loop-length zero n done = omega arith
  hex_loop-length (suc fuel) n done = elim (Bool-cases (n / 2 ^ 4 == 0)) [
    | inl over ↦ rw over (omega arith)
    | inr more ↦
        rw more
          (omega (arith, hex_loop-length fuel (n / 2 ^ 4) (get_or table (bit_and n 0xf) 0 ∷ done)))
  ]

decimal_loop-length :
    (fuel n : ℕ) (done : Bytes) → length (decimal_loop fuel n done) ≤ fuel + length done
unfolding decimal_loop
decimal_loop-length zero n done = omega arith
decimal_loop-length (suc fuel) n done = elim (Bool-cases (n / 10 == 0)) [
  | inl over ↦ rw over (omega arith)
  | inr more ↦ rw more (omega (arith, decimal_loop-length fuel (n / 10) ((n % 10 + b'0') ∷ done)))
]

-- The digits of a 64-bit number: a numeral of that number, in base 10 or in base 16, and one that
-- fits in `temp`.
pub number_digits_lem :
    (n hexadecimal : ℕ)
    → n < 2 ^ 64
    → (value_from (if hexadecimal == 0 then 10 else 16) 0 (number_digits n hexadecimal) ≡ n)
      × (length (number_digits n hexadecimal) ≤ int64_len)
unfolding number_digits
number_digits_lem n hexadecimal h = elim (Bool-cases (hexadecimal == 0)) [
  | inl decimal ↦ rw decimal (decimal_loop_lem 20 n [] (omega arith), decimal_loop-length 20 n [])
  | inr other ↦ elim (Bool-cases (hexadecimal == 1)) [
    | inl lower ↦
        rw (other, lower)
          (
            hex_loop_lem hex_digits hex_char 20 n [] (omega arith),
            hex_loop-length hex_digits hex_char 20 n [],
          )
    | inr upper ↦
        rw (other, upper)
          (
            hex_loop_lem hex_digits_upper hex_char_upper 20 n [] (omega arith),
            hex_loop-length hex_digits_upper hex_char_upper 20 n [],
          )
  ]
]
