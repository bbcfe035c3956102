-- ===== src/Format.antt =====
-- nginx/app/ngx_printf.cxx: ngx_vslprintf and ngx_sprintf_num, which write formatted text into a
-- buffer that ends at `last`. The text written so far is `text`, so `buf` is its length, and
-- `last` is the size of the buffer; nothing in the model cuts a write off, so a write past the
-- end would show in the length. `buf < last` is the test `ltb (length text) last`.
pub mod Number
pub mod Segments
pub mod Pieces
pub mod Truncate
use Prim.Native.Nat.{bit_and}
use cnginx.Common.{
  ℕ, zero, suc, ◌+◌, ◌-◌, ◌*◌, ◌/◌, ◌%◌, ◌^◌, Bool, true, false, not, ◌==◌, ◌&&◌, ◌||◌, ltb, leb,
  if◌then◌else◌, List, [], ◌∷◌, ◌++◌, length, take, get_or,
}
use cnginx.Common.Int.{ℤ, pos, negsuc}
use cnginx.Common.Memory.{Bytes}

-- static u_char hex[] and HEX[], the characters of "0123456789abcdef" in either case.
abbrev pub hex_digits : Bytes
hex_digits = 48 ∷ 49 ∷ 50 ∷ 51 ∷ 52 ∷ 53 ∷ 54 ∷ 55 ∷ 56 ∷ 57 ∷ 97 ∷ 98 ∷ 99 ∷ 100 ∷ 101 ∷ 102 ∷ []

abbrev pub hex_digits_upper : Bytes
hex_digits_upper =
    48 ∷ 49 ∷ 50 ∷ 51 ∷ 52 ∷ 53 ∷ 54 ∷ 55 ∷ 56 ∷ 57 ∷ 65 ∷ 66 ∷ 67 ∷ 68 ∷ 69 ∷ 70 ∷ []

-- `do *--p = ui64 % 10 + '0'; while (ui64 /= 10)`: the digits come in front of `done`. The loop for
-- a value that fits in 32 bits is the same on a narrower variable.
unfoldable pub decimal_loop : ℕ → ℕ → Bytes → Bytes
decimal_loop zero n done = done
decimal_loop (suc fuel) n done =
    let digits = (n % 10 + b'0') ∷ done in
    let rest = decimal_loop fuel (n / 10) digits in if n / 10 == 0 then digits else rest

-- `do *--p = hex[ui64 & 0xf]; while (ui64 >>= 4)`
unfoldable pub hex_loop : Bytes → ℕ → ℕ → Bytes → Bytes
hex_loop table zero n done = done
hex_loop table (suc fuel) n done =
    let digits = get_or table (bit_and n 0xf) 0 ∷ done in
    let rest = hex_loop table fuel (n / 2 ^ 4) digits in if n / 2 ^ 4 == 0 then digits else rest

-- NGX_INT64_LEN, the room for digits in `temp`; it serves as fuel too.
abbrev pub int64_len : ℕ
int64_len = 20

-- The digits that stand in `temp` from `p` on.
unfoldable pub number_digits : ℕ → ℕ → Bytes
unfolding decimal_loop hex_loop
number_digits n hexadecimal =
    if hexadecimal == 0
    then decimal_loop int64_len n []
    else if hexadecimal == 1
    then hex_loop hex_digits int64_len n []
    else hex_loop hex_digits_upper int64_len n []

module _ (last : ℕ) where
  -- `while (len++ < width && buf < last) *buf++ = zero`; `rounds` is width - len.
  unfoldable pub pad_loop : ℕ → ℕ → Bytes → Bytes
  pad_loop zero c text = text
  pad_loop (suc rounds) c text =
      let more = pad_loop rounds c (text ++ c ∷ []) in if ltb (length text) last then more else text

  -- `if((buf + len) >= last) len = last - buf`, and the copy.
  abbrev pub copy_digits : Bytes → Bytes → Bytes
  copy_digits text digits =
      text
      ++ take (if leb last (length text + length digits) then last - length text else length digits)
          digits

  -- ngx_sprintf_num
  unfoldable pub sprintf_num : Bytes → ℕ → ℕ → ℕ → ℕ → Bytes
  unfolding pad_loop number_digits
  sprintf_num text n c hexadecimal width =
      let digits = number_digits n hexadecimal in
      copy_digits (pad_loop (width - length digits) c text) digits

  -- `while (*p && buf < last) *buf++ = *p++`
  unfoldable pub copy_string : Bytes → Bytes → Bytes
  copy_string text [] = text
  copy_string text (c ∷ cs) =
      let more = copy_string (text ++ c ∷ []) cs in if ltb (length text) last then more else text

-- What the code does with a double: it is not given here.
pub record Floats : Type 1 where
  pub Double : Type 0
  pub is_negative : Double → Bool
  pub negate : Double → Double
  pub truncate : Double → ℕ
  pub scaled_fraction : Double → ℕ → ℕ → ℕ

-- What va_arg yields at each place of the argument list, for each kind of type that it is asked
-- for: signed and unsigned integers as converted to 64 bits, the text of a string up to its end,
-- and doubles. `overrun` is for a format that ends inside a directive: its NUL is taken for a
-- conversion character and written, and the code reads on behind it, in memory that is not part of
-- the format. What the buffer holds in the end is not given here; it may be anything.
pub record Args (fl : Floats) : Type 0 where
  pub int_at : ℕ → ℤ
  pub uint_at : ℕ → ℕ
  pub string_at : ℕ → Bytes
  pub double_at : ℕ → fl.Double
  pub overrun : Bytes → Bytes

-- The local variables of one directive.
pub record Directive : Type 0 where
  pub zero_char : ℕ
  pub width : ℕ
  pub sign : Bool
  pub hex : ℕ
  pub frac_width : ℕ

abbrev pub no_directive : Directive
no_directive = record { zero_char = b' '; width = 0; sign = true; hex = 0; frac_width = 0 }

abbrev pub is_digit : ℕ → Bool
is_digit c = leb b'0' c && leb c b'9'

-- `width = width * 10 + (*fmt++ - '0')` on 64 bits
abbrev pub add_digit : ℕ → ℕ → ℕ
add_digit n c = (n * 10 + (c - b'0')) % 2 ^ 64

abbrev pub magnitude : ℤ → ℕ
magnitude (pos n) = n
magnitude (negsuc n) = suc n

abbrev pub is_minus : ℤ → Bool
is_minus (pos n) = false
is_minus (negsuc n) = true

-- `for (n = frac_width; n; n--) scale *= 10`
unfoldable pub scale_loop : ℕ → ℕ → ℕ
scale_loop zero scale = scale
scale_loop (suc n) scale = scale_loop n (scale * 10 % 2 ^ 64)

-- Which loop of the function reads the next character of the format: the outer one, or within a
-- directive the one for the width, the one for the flags, or the one behind a point.
pub data Reading : Type 0 where
  plain : Reading
  first in_width in_flags in_fraction : Directive → Reading

-- The locals of the outer loop: the text, how many arguments va_arg has taken, where it reads.
pub record Output : Type 0 where
  pub text : Bytes
  pub arg : ℕ
  pub reading : Reading

-- The whole part and the fraction of a double without its sign; `frac == scale` carries.
unfoldable pub rounded : (fl : Floats) → fl.Double → ℕ → ℕ × ℕ
unfolding scale_loop
rounded fl f frac_width =
    let scale = scale_loop frac_width 1 in
    let whole = fl.truncate f in
    let frac = fl.scaled_fraction f whole scale in
    if frac_width == 0
    then (whole, 0)
    else if frac == scale
    then ((whole + 1) % 2 ^ 64, 0)
    else (whole, frac)

module _ (fl : Floats) (args : Args fl) (last : ℕ) where
  -- `*buf++ = c`
  abbrev pub put : Bytes → ℕ → Bytes
  put text c = text ++ c ∷ []

  -- A signed number (lines 214 to 227): the minus comes in front of the padding.
  abbrev pub put_signed : Bytes → ℤ → Directive → Bytes
  put_signed text n d =
      sprintf_num last (if is_minus n then put text b'-' else text) (magnitude n) d.zero_char d.hex
        d.width

  abbrev pub put_unsigned : Bytes → ℕ → Directive → Bytes
  put_unsigned text n d = sprintf_num last text n d.zero_char d.hex d.width

  -- `case 'd'`, 'i' and 'L'
  abbrev pub put_integer : Bytes → ℕ → Directive → Bytes
  put_integer text arg d =
      if d.sign then put_signed text (args.int_at arg) d else put_unsigned text (args.uint_at arg) d

  -- The part of `case 'f'` behind the sign, with `whole` and `frac` as rounded.
  abbrev pub put_fraction : Bytes → ℕ → ℕ → Directive → Bytes
  put_fraction text whole frac d =
      let front = sprintf_num last text whole d.zero_char 0 d.width in
      if d.frac_width == 0
      then front
      else sprintf_num last (if ltb (length front) last then put front b'.' else front) frac b'0' 0
          d.frac_width

  abbrev pub put_magnitude : Bytes → fl.Double → Directive → Bytes
  put_magnitude text f d =
      let parts = rounded fl f (d.frac_width) in put_fraction text (parts.0) (parts.1) d

  -- `case 'f'`
  abbrev pub put_double : Bytes → fl.Double → Directive → Bytes
  put_double text f d =
      if fl.is_negative f
      then put_magnitude (put text b'-') (fl.negate f) d
      else put_magnitude text f d

  -- The switch on the conversion character (lines 102 to 228), which ends the directive.
  unfoldable pub convert : Output → Directive → ℕ → Output
  convert o d c =
      if c == b'%'
      then record o { text = put (o.text) b'%'; reading = plain }
      else if (c == b'd' || c == b'i') || c == b'L'
      then record o { text = put_integer (o.text) (o.arg) d; arg = suc (o.arg); reading = plain }
      else if c == b'p'
      then record o {
        text =
            put_unsigned (o.text) (args.uint_at (o.arg))
              (record d { hex = 2; zero_char = b'0'; width = 16 });
        arg = suc (o.arg);
        reading = plain;
      }
      else if c == b's'
      then record o {
        text = copy_string last (o.text) (args.string_at (o.arg));
        arg = suc (o.arg);
        reading = plain;
      }
      else if c == b'P'
      then record o {
        text = put_signed (o.text) (args.int_at (o.arg)) d;
        arg = suc (o.arg);
        reading = plain;
      }
      else if c == b'f'
      then record o {
        text = put_double (o.text) (args.double_at (o.arg)) d;
        arg = suc (o.arg);
        reading = plain;
      }
      else record o { text = put (o.text) c; reading = plain }

  -- The loop over the flags.
  unfoldable pub read_flag : Output → Directive → ℕ → Output
  unfolding convert
  read_flag o d c =
      if c == b'u'
      then record o { reading = in_flags (record d { sign = false }) }
      else if c == b'X'
      then record o { reading = in_flags (record d { hex = 2; sign = false }) }
      else if c == b'x'
      then record o { reading = in_flags (record d { hex = 1; sign = false }) }
      else if c == b'.'
      then record o { reading = in_fraction d }
      else convert o d c

  -- `while (*fmt >= '0' && *fmt <= '9') width = ...`
  unfoldable pub read_width : Output → Directive → ℕ → Output
  unfolding read_flag
  read_width o d c =
      if is_digit c
      then record o { reading = in_width (record d { width = add_digit (d.width) c }) }
      else read_flag o d c

  -- One character of the format, by where it is read. The outer loop stops at the first one that
  -- finds no room, and the rest leave the text alone.
  unfoldable pub read_char : Reading → Output → ℕ → Output
  unfolding convert read_flag read_width
  read_char plain o c =
      if ltb (length (o.text)) last
      then if c == b'%'
        then record o { reading = first no_directive }
        else record o { text = put (o.text) c; reading = plain }
      else record o { reading = plain }
  read_char (first d) o c =
      if c == b'0' then read_width o (record d { zero_char = b'0' }) c else read_width o d c
  read_char (in_width d) o c = read_width o d c
  read_char (in_flags d) o c = read_flag o d c
  read_char (in_fraction d) o c =
      if is_digit c
      then record o { reading = in_fraction (record d { frac_width = add_digit (d.frac_width) c }) }
      else convert o d c

  unfoldable pub read_format : Output → List ℕ → Output
  unfolding read_char
  read_format o [] = o
  read_format o (c ∷ cs) = read_format (read_char (o.reading) o c) cs

  -- The format is over. Inside a directive its NUL is written, and the code reads on behind it.
  unfoldable pub at_end : Reading → Bytes → Bytes
  at_end plain text = text
  at_end (first d) text = args.overrun (put text 0)
  at_end (in_width d) text = args.overrun (put text 0)
  at_end (in_flags d) text = args.overrun (put text 0)
  at_end (in_fraction d) text = args.overrun (put text 0)

  -- ngx_vslprintf, and ngx_slprintf and ngx_snprintf around it, into a buffer of `last` characters
  -- that begins with `text`
  unfoldable pub vslprintf : Bytes → List ℕ → Bytes
  unfolding at_end read_format
  vslprintf text fmt =
      let o = read_format (record { text = text; arg = 0; reading = plain }) fmt in
      at_end (o.reading) (o.text)
