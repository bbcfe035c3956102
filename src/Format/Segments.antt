-- ===== src/Format/Segments.antt =====
-- What a format of ngx_vslprintf asks for (nginx/app/ngx_printf.cxx, lines 39 to 237): the format
-- is parsed into segments, and each segment is rendered with all the room that it needs.
use cnginx.Common.{ℕ, suc, ◌≡◌, ◌==◌, ◌||◌, Bool, false, if◌then◌else◌, List, [], ◌∷◌, ◌++◌}
use cnginx.Common.Int.{ℤ}
use cnginx.Common.Memory.{Bytes}
use cnginx.Format.{
  Args, Directive, Floats, Reading, plain, first, in_width, in_flags, in_fraction, no_directive,
  is_digit, add_digit, magnitude, is_minus, rounded,
}
use cnginx.Format.Number.{number}

-- A piece of a format: text to copy, or a directive with its conversion character.
pub data Segment : Type 0 where
  literal : ℕ → Segment
  conversion : Directive → ℕ → Segment

-- What a character means where it stands: the reading goes on inside a directive, or a segment
-- ends.
pub data Meaning : Type 0 where
  keep : Reading → Meaning
  emit : Segment → Meaning

unfoldable pub meaning_of_flag : Directive → ℕ → Meaning
meaning_of_flag d c =
    if c == b'u'
    then keep (in_flags (record d { sign = false }))
    else if c == b'X'
    then keep (in_flags (record d { hex = 2; sign = false }))
    else if c == b'x'
    then keep (in_flags (record d { hex = 1; sign = false }))
    else if c == b'.'
    then keep (in_fraction d)
    else emit (conversion d c)

unfoldable pub meaning_of_width : Directive → ℕ → Meaning
unfolding meaning_of_flag
meaning_of_width d c =
    if is_digit c
    then keep (in_width (record d { width = add_digit (d.width) c }))
    else meaning_of_flag d c

unfoldable pub meaning : Reading → ℕ → Meaning
unfolding meaning_of_flag meaning_of_width
meaning plain c = if c == b'%' then keep (first no_directive) else emit (literal c)
meaning (first d) c =
    if c == b'0' then meaning_of_width (record d { zero_char = b'0' }) c else meaning_of_width d c
meaning (in_width d) c = meaning_of_width d c
meaning (in_flags d) c = meaning_of_flag d c
meaning (in_fraction d) c =
    if is_digit c
    then keep (in_fraction (record d { frac_width = add_digit (d.frac_width) c }))
    else emit (conversion d c)

-- The segments of a format; a directive that the format's end cuts off is none.
unfoldable pub parse : Reading → List ℕ → List Segment
unfolding meaning
parse plain [] = []
parse (first d) [] = []
parse (in_width d) [] = []
parse (in_flags d) [] = []
parse (in_fraction d) [] = []
parse r (c ∷ cs) = elim (meaning r c) [ keep r' ↦ parse r' cs | emit s ↦ s ∷ parse plain cs ]

-- Where the reading of a format stands behind its last character.
unfoldable pub ends_in : Reading → List ℕ → Reading
unfolding meaning
ends_in r [] = r
ends_in r (c ∷ cs) = elim (meaning r c) [ keep r' ↦ ends_in r' cs | emit s ↦ ends_in plain cs ]

-- The format does not end inside a directive.
abbrev pub IsComplete : List ℕ → Type 0
IsComplete fmt = ends_in plain fmt ≡ plain

module _ (fl : Floats) (args : Args fl) where
  unfoldable pub sign_of : Bool → Bytes
  sign_of b = if b then b'-' ∷ [] else []

  unfoldable pub signed : ℤ → Directive → Bytes
  unfolding sign_of
  signed n d = sign_of (is_minus n) ++ number (magnitude n) d.zero_char d.hex d.width

  -- A double: its sign, the whole part, and the digits behind the point where some are asked for.
  unfoldable pub decimal : ℕ → ℕ → Directive → Bytes
  decimal whole frac d =
      number whole d.zero_char 0 d.width
      ++ (if d.frac_width == 0 then [] else b'.' ∷ number frac b'0' 0 d.frac_width)

  unfoldable pub absolute : fl.Double → Directive → Bytes
  unfolding decimal
  absolute f d = let parts = rounded fl f (d.frac_width) in decimal (parts.0) (parts.1) d

  unfoldable pub double : fl.Double → Directive → Bytes
  unfolding absolute
  double f d = if fl.is_negative f then b'-' ∷ absolute (fl.negate f) d else absolute f d

  -- The whole text of a conversion, its argument at the place `arg`.
  unfoldable pub conversion_text : ℕ → Directive → ℕ → Bytes
  unfolding signed double
  conversion_text arg d c =
      if c == b'%'
      then b'%' ∷ []
      else if (c == b'd' || c == b'i') || c == b'L'
      then (if d.sign
          then signed (args.int_at arg) d
          else number (args.uint_at arg) d.zero_char d.hex d.width)
      else if c == b'p'
      then number (args.uint_at arg) b'0' 2 16
      else if c == b's'
      then args.string_at arg
      else if c == b'P'
      then signed (args.int_at arg) d
      else if c == b'f'
      then double (args.double_at arg) d
      else c ∷ []

  -- The place of the next argument.
  unfoldable pub arg_behind : ℕ → ℕ → ℕ
  arg_behind arg c =
      if c == b'%'
      then arg
      else if (c == b'd' || c == b'i') || c == b'L'
      then suc arg
      else if c == b'p'
      then suc arg
      else if c == b's'
      then suc arg
      else if c == b'P'
      then suc arg
      else if c == b'f'
      then suc arg
      else arg

  unfoldable pub segment_text : ℕ → Segment → Bytes
  unfolding conversion_text
  segment_text arg (literal c) = c ∷ []
  segment_text arg (conversion d c) = conversion_text arg d c

  unfoldable pub segment_arg : ℕ → Segment → ℕ
  unfolding arg_behind
  segment_arg arg (literal c) = arg
  segment_arg arg (conversion d c) = arg_behind arg c

  -- All the text that a format asks for.
  unfoldable pub render : ℕ → List Segment → Bytes
  unfolding segment_text segment_arg
  render arg [] = []
  render arg (s ∷ ss) = segment_text arg s ++ render (segment_arg arg s) ss
