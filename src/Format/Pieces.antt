-- ===== src/Format/Pieces.antt =====
-- Each character of a format against its meaning (nginx/app/ngx_printf.cxx, lines 39 to 237): the
-- text that it adds, cut at the buffer's end.
use cnginx.Common.{
  ℕ, suc, ◌≤◌, ◌<◌, ◌≡◌, refl, sym, ap, ◌∙◌, Bool-cases, inl, inr, ltb, ltb→lt, lt→ltb, ◌==◌, ◌||◌,
  false, if◌then◌else◌, [], ◌∷◌, ◌++◌, append_assoc, append-nil, length, take, take_all,
  length-append, length-take, arith,
}
use cnginx.Common.Int.{ℤ}
use cnginx.Common.Memory.{Bytes}
use cnginx.Format.{
  Args, Directive, Floats, Output, Reading, plain, first, in_width, in_flags, in_fraction, is_digit,
  magnitude, is_minus, rounded, copy_string, sprintf_num, put, put_signed, put_fraction,
  put_magnitude, put_double, put_integer, convert, read_flag, read_width, read_char,
}
use cnginx.Format.Number.{number, sprintf_num_lem, take-full, take-take-append}
use cnginx.Format.Segments.{
  Segment, conversion, Meaning, keep, emit, meaning_of_flag, meaning_of_width, meaning, sign_of,
  signed, decimal, absolute, double, conversion_text, arg_behind, segment_text, segment_arg,
}

module _ (fl : Floats) (args : Args fl) (last : ℕ) where
  pub put_lem :
      (text : Bytes) (c : ℕ)
      → length text < last
      → put fl args last text c ≡ take last (text ++ c ∷ [])
  put_lem text c h =
      sym (take_all last (text ++ c ∷ []) (omega (arith, length-append text (c ∷ []))))

  copy_string_lem :
      (text cs : Bytes) → length text ≤ last → copy_string last text cs ≡ take last (text ++ cs)
  unfolding copy_string
  copy_string_lem text [] h = sym (ap (take last) (append-nil text) ∙ take_all last text h)
  copy_string_lem text (c ∷ cs) h = elim (Bool-cases (ltb (length text) last)) [
    | inl room ↦ rw room (
        copy_string_lem (text ++ c ∷ []) cs
          (omega (arith, length-append text (c ∷ []), ltb→lt (length text) last room))
        ∙ ap (take last) (append_assoc text (c ∷ []) cs))
    | inr full ↦ rw full (sym (take-full last text (c ∷ cs) (full_length full)))
  ]
    where
      full_length : ltb (length text) last ≡ false → length text ≡ last
      full_length full = ground arith

  -- Text is cut at the buffer's end, and there is room for a character before it is added.
  signed_lem :
      (text : Bytes) (n : ℤ) (d : Directive)
      → length text < last
      → put_signed fl args last text n d ≡ take last (text ++ signed fl args n d)
  unfolding signed sign_of
  signed_lem text n d h = elim (Bool-cases (is_minus n)) [
    | inl minus ↦ rw minus (
        sprintf_num_lem last (text ++ b'-' ∷ []) (magnitude n) (d.zero_char) (d.hex) (d.width)
          (omega (arith, length-append text (b'-' ∷ [])))
        ∙ ap (take last)
            (append_assoc text (b'-' ∷ []) (number (magnitude n) (d.zero_char) (d.hex) (d.width))))
    | inr plus ↦
        rw plus
          (sprintf_num_lem last text (magnitude n) (d.zero_char) (d.hex) (d.width) (omega arith))
  ]

  point_lem :
      (front : Bytes) (frac width : ℕ)
      → length front ≤ last
      → sprintf_num last
          (if ltb (length front) last then put fl args last front b'.' else front)
          frac
          b'0'
          0
          width
        ≡ take last (front ++ b'.' ∷ number frac b'0' 0 width)
  point_lem front frac width h = elim (Bool-cases (ltb (length front) last)) [
    | inl room ↦ rw room (
        sprintf_num_lem last (front ++ b'.' ∷ []) frac b'0' 0 width
          (omega (arith, length-append front (b'.' ∷ []), ltb→lt (length front) last room))
        ∙ ap (take last) (append_assoc front (b'.' ∷ []) (number frac b'0' 0 width)))
    | inr full ↦ rw full (
        sprintf_num_lem last front frac b'0' 0 width h
        ∙ take-full last front (number frac b'0' 0 width) (full_length full)
        ∙ sym (take-full last front (b'.' ∷ number frac b'0' 0 width) (full_length full)))
  ]
    where
      full_length : ltb (length front) last ≡ false → length front ≡ last
      full_length full = ground arith

  fraction_lem :
      (text : Bytes) (whole frac : ℕ) (d : Directive)
      → length text ≤ last
      → put_fraction fl args last text whole frac d
        ≡ take last (text ++ decimal fl args whole frac d)
  unfolding decimal
  fraction_lem text whole frac d h =
      let n = number whole (d.zero_char) 0 (d.width) in
      let point = b'.' ∷ number frac b'0' 0 (d.frac_width) in
      let front = sprintf_num_lem last text whole (d.zero_char) 0 (d.width) h in
      elim (Bool-cases (d.frac_width == 0)) [
        | inl none_asked ↦
            rw none_asked (front ∙ ap (λ t. take last (text ++ t)) (sym (append-nil n)))
        | inr asked ↦ rw asked (
            ap
              (λ t.
                sprintf_num last (if ltb (length t) last then put fl args last t b'.' else t) frac
                  b'0' 0 (d.frac_width))
              front
            ∙ point_lem (take last (text ++ n)) frac (d.frac_width)
                (omega (arith, length-take last (text ++ n)))
            ∙ take-take-append last (text ++ n) point
            ∙ ap (take last) (append_assoc text n point))
      ]

  magnitude_lem :
      (text : Bytes) (f : fl.Double) (d : Directive)
      → length text ≤ last
      → put_magnitude fl args last text f d ≡ take last (text ++ absolute fl args f d)
  unfolding absolute
  magnitude_lem text f d h =
      let parts = rounded fl f (d.frac_width) in fraction_lem text (parts.0) (parts.1) d h

  double_lem :
      (text : Bytes) (f : fl.Double) (d : Directive)
      → length text < last
      → put_double fl args last text f d ≡ take last (text ++ double fl args f d)
  unfolding double
  double_lem text f d h = elim (Bool-cases (fl.is_negative f)) [
    | inl minus ↦ rw minus (
        magnitude_lem (text ++ b'-' ∷ []) (fl.negate f) d
          (omega (arith, length-append text (b'-' ∷ [])))
        ∙ ap (take last) (append_assoc text (b'-' ∷ []) (absolute fl args (fl.negate f) d)))
    | inr plus ↦ rw plus (magnitude_lem text f d (omega arith))
  ]

  -- What a meaning makes of the output, cut at the buffer's end.
  unfoldable pub after : Output → Segment → Output
  unfolding segment_text segment_arg
  after o s = record o {
    text = take last (o.text ++ segment_text fl args (o.arg) s);
    arg = segment_arg fl args (o.arg) s;
    reading = plain;
  }

  unfoldable pub follow : Output → Meaning → Output
  unfolding after
  follow o (keep r) = record o { reading = r }
  follow o (emit s) = after o s

  -- A text within the directive's cases, as the output it makes.
  unfoldable pub with_text : Output → ℕ → Bytes → Output
  with_text o n t = record o { text = t; arg = n; reading = plain }

  integer_lem :
      (text : Bytes) (arg : ℕ) (d : Directive)
      → length text < last
      → put_integer fl args last text arg d
        ≡ take last (
            text
            ++ (if d.sign
                then signed fl args (args.int_at arg) d
                else number (args.uint_at arg) d.zero_char d.hex d.width))
  unfolding signed
  integer_lem text arg d h = elim (Bool-cases (d.sign)) [
    | inl sign ↦ rw sign (signed_lem text (args.int_at arg) d h)
    | inr no_sign ↦
        rw no_sign (
          sprintf_num_lem last text (args.uint_at arg) (d.zero_char) (d.hex) (d.width)
            (omega arith))
  ]

  convert_lem :
      (o : Output) (d : Directive) (c : ℕ)
      → length (o.text) < last
      → convert fl args last o d c ≡ follow o (emit (conversion d c))
  unfolding convert follow after segment_text segment_arg conversion_text arg_behind with_text
  convert_lem o d c h = elim (Bool-cases (c == b'%')) [
    | inl percent ↦ rw percent (ap (with_text o (o.arg)) (put_lem (o.text) b'%' h))
    | inr e₁ ↦ elim (Bool-cases ((c == b'd' || c == b'i') || c == b'L')) [
      | inl integer ↦
          rw (e₁, integer) (ap (with_text o (suc (o.arg))) (integer_lem (o.text) (o.arg) d h))
      | inr e₂ ↦ elim (Bool-cases (c == b'p')) [
        | inl pointer ↦
            rw (e₁, e₂, pointer)
              (ap (with_text o (suc (o.arg)))
                (sprintf_num_lem last (o.text) (args.uint_at (o.arg)) b'0' 2 16 (omega arith)))
        | inr e₃ ↦ elim (Bool-cases (c == b's')) [
          | inl string ↦
              rw (e₁, e₂, e₃, string)
                (ap (with_text o (suc (o.arg)))
                  (copy_string_lem (o.text) (args.string_at (o.arg)) (omega arith)))
          | inr e₄ ↦ elim (Bool-cases (c == b'P')) [
            | inl process ↦
                rw (e₁, e₂, e₃, e₄, process)
                  (ap (with_text o (suc (o.arg))) (signed_lem (o.text) (args.int_at (o.arg)) d h))
            | inr e₅ ↦ elim (Bool-cases (c == b'f')) [
              | inl double_asked ↦
                  rw (e₁, e₂, e₃, e₄, e₅, double_asked)
                    (ap (with_text o (suc (o.arg)))
                      (double_lem (o.text) (args.double_at (o.arg)) d h))
              | inr e₆ ↦
                  rw (e₁, e₂, e₃, e₄, e₅, e₆) (ap (with_text o (o.arg)) (put_lem (o.text) c h))
            ]
          ]
        ]
      ]
    ]
  ]

  read_flag_lem :
      (o : Output) (d : Directive) (c : ℕ)
      → length (o.text) < last
      → read_flag fl args last o d c ≡ follow o (meaning_of_flag d c)
  unfolding read_flag meaning_of_flag follow
  read_flag_lem o d c h = elim (Bool-cases (c == b'u')) [
    | inl unsigned ↦ rw unsigned refl
    | inr e₁ ↦ elim (Bool-cases (c == b'X')) [
      | inl upper ↦ rw (e₁, upper) refl
      | inr e₂ ↦ elim (Bool-cases (c == b'x')) [
        | inl lower ↦ rw (e₁, e₂, lower) refl
        | inr e₃ ↦ elim (Bool-cases (c == b'.')) [
          | inl point ↦ rw (e₁, e₂, e₃, point) refl
          | inr e₄ ↦ rw (e₁, e₂, e₃, e₄) (convert_lem o d c h)
        ]
      ]
    ]
  ]

  read_width_lem :
      (o : Output) (d : Directive) (c : ℕ)
      → length (o.text) < last
      → read_width fl args last o d c ≡ follow o (meaning_of_width d c)
  unfolding read_width meaning_of_width follow
  read_width_lem o d c h = elim (Bool-cases (is_digit c)) [
    | inl digit ↦ rw digit refl
    | inr other ↦ rw other (read_flag_lem o d c h)
  ]

  -- A character's effect where there is room for the text.
  pub read_char_lem :
      (r : Reading) (o : Output) (c : ℕ)
      → length (o.text) < last
      → read_char fl args last r o c ≡ follow o (meaning r c)
  unfolding read_char meaning follow after segment_text segment_arg
  read_char_lem plain o c h = elim (Bool-cases (c == b'%')) [
    | inl percent ↦ rw (lt→ltb (length (o.text)) last h, percent) refl
    | inr other ↦
        rw (lt→ltb (length (o.text)) last h, other) (ap (with_text_of o) (put_lem (o.text) c h))
  ]
    where
      with_text_of : Output → Bytes → Output
      with_text_of o t = record o { text = t; reading = plain }
  read_char_lem (first d) o c h = elim (Bool-cases (c == b'0')) [
    | inl nought ↦ rw nought (read_width_lem o (record d { zero_char = b'0' }) c h)
    | inr other ↦ rw other (read_width_lem o d c h)
  ]
  read_char_lem (in_width d) o c h = read_width_lem o d c h
  read_char_lem (in_flags d) o c h = read_flag_lem o d c h
  read_char_lem (in_fraction d) o c h = elim (Bool-cases (is_digit c)) [
    | inl digit ↦ rw digit refl
    | inr other ↦ rw other (convert_lem o d c h)
  ]
