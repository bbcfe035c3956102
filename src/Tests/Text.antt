-- ===== src/Tests/Text.antt =====
-- Formatting at concrete inputs.
use cnginx.Common.{ℕ, true, ◌≤◌, ◌≡◌, refl, arith, List, [], ◌∷◌, length, take}
use cnginx.Common.Int.{ℤ, pos, negsuc}
use cnginx.Format.{
  Floats, Args, plain, vslprintf, sprintf_num, number_digits, copy_string, rounded, int64_len,
  is_minus, magnitude,
}
use cnginx.Format.Number.{value_from, number_digits_lem}
use cnginx.Format.Segments.{parse, render, ends_in, IsComplete}
use cnginx.Inet.{inet, sock_ntop}
use cnginx.Inet.Dotted.{address_text, sock_ntop_lem}
use cnginx.Format.Truncate.{vslprintf_lem}

-- Whole numbers in place of doubles.
abbrev pub whole_numbers : Floats
whole_numbers = record {
  Double = ℤ;
  is_negative = is_minus;
  negate = λ n. pos (magnitude n);
  truncate = magnitude;
  scaled_fraction = λ f whole scale. 0;
}

abbrev pub some_args : Args whole_numbers
some_args = record {
  int_at = λ n. negsuc 41;
  uint_at = λ n. 255;
  string_at = λ n. 97 ∷ 98 ∷ [];
  double_at = λ n. pos 3;
  overrun = λ text. text;
}

-- "a%5d%s%.2f%xd"
abbrev pub some_format : List ℕ
some_format = 97 ∷ 37 ∷ 53 ∷ 100 ∷ 37 ∷ 115 ∷ 37 ∷ 46 ∷ 50 ∷ 102 ∷ 37 ∷ 120 ∷ 100 ∷ []

pub some_format-IsComplete : IsComplete some_format
unfolding ends_in
some_format-IsComplete = refl

vslprintf_lem_example :
    vslprintf whole_numbers some_args 10 (62 ∷ []) some_format
    ≡ take 10 (62 ∷ render whole_numbers some_args 0 (parse plain some_format))
vslprintf_lem_example =
    vslprintf_lem whole_numbers some_args 10 (62 ∷ []) some_format (omega arith)
      some_format-IsComplete

number_digits_lem_example :
    (value_from 16 0 (number_digits 3054 1) ≡ 3054) × (length (number_digits 3054 1) ≤ int64_len)
number_digits_lem_example = number_digits_lem 3054 1 (omega arith)

-- The text itself: "a-   42ab3.00ff" cut at ten characters.
printed :
    vslprintf whole_numbers some_args 10 [] some_format
    ≡ 97 ∷ 45 ∷ 32 ∷ 32 ∷ 32 ∷ 52 ∷ 50 ∷ 97 ∷ 98 ∷ 51 ∷ []
unfolding vslprintf sprintf_num copy_string rounded
printed = refl

-- 192.168.0.1:80 in a buffer of 12 characters
sock_ntop_lem_example :
    let text = take 12 (address_text (inet 192 168 0 1 20480) true) in
    sock_ntop whole_numbers (pos 0) (inet 192 168 0 1 20480) true 12 ≡ (text, length text)
sock_ntop_lem_example = sock_ntop_lem whole_numbers (pos 0) (inet 192 168 0 1 20480) true 12
