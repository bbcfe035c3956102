-- ===== src/Format/Truncate.antt =====
-- ngx_vslprintf against the text that the format asks for (nginx/app/ngx_printf.cxx, lines 39 to
-- 237).
use cnginx.Common.{
  ℕ, ◌≤◌, ◌<◌, ◌≡◌, refl, sym, ap, ◌∙◌, Bool-cases, inl, inr, ltb, ltb→lt, false, List, [], ◌∷◌,
  ◌++◌, append_assoc, append-nil, length, take, take_all, length-take, arith,
}
use cnginx.Common.Memory.{Bytes}
use cnginx.Format.{
  Args, Floats, Output, Reading, plain, first, in_width, in_flags, in_fraction, read_char,
  read_format, at_end, vslprintf,
}
use cnginx.Format.Number.{take-full, take-take-append}
use cnginx.Format.Segments.{
  Segment, Meaning, keep, emit, meaning, parse, segment_text, segment_arg, render, ends_in,
  IsComplete,
}
use cnginx.Format.Pieces.{after, follow, read_char_lem}

module _ (fl : Floats) (args : Args fl) (last : ℕ) where
  -- The outer loop reads on at the buffer's end as well; a directive is read with room left.
  HasRoom : Reading → ℕ → Type 0
  HasRoom plain n = n ≤ last
  HasRoom (first d) n = n < last
  HasRoom (in_width d) n = n < last
  HasRoom (in_flags d) n = n < last
  HasRoom (in_fraction d) n = n < last

  lt→HasRoom : (r : Reading) (n : ℕ) → n < last → HasRoom r n
  unfolding HasRoom
  lt→HasRoom plain n h = omega arith
  lt→HasRoom (first d) n h = h
  lt→HasRoom (in_width d) n h = h
  lt→HasRoom (in_flags d) n h = h
  lt→HasRoom (in_fraction d) n h = h

  finish : Output → Bytes
  finish o = at_end fl args last (o.reading) (o.text)

  Renders : Output → List ℕ → List Segment → Type 0
  unfolding finish
  Renders o cs ss =
      finish (read_format fl args last o cs) ≡ take last (o.text ++ render fl args (o.arg) ss)

  end_lem :
      (o : Output) (r : Reading)
      → HasRoom r (length (o.text))
      → ends_in r [] ≡ plain
      → at_end fl args last r (o.text) ≡ take last (o.text ++ render fl args (o.arg) (parse r []))
  unfolding HasRoom at_end parse render ends_in
  end_lem o plain h complete = sym (ap (take last) (append-nil (o.text)) ∙ take_all last (o.text) h)
  end_lem o (first d) h complete = cc
  end_lem o (in_width d) h complete = cc
  end_lem o (in_flags d) h complete = cc
  end_lem o (in_fraction d) h complete = cc

  after_lem :
      (o : Output) (s : Segment) (ss : List Segment)
      → take last
          ((after fl args last o s).text ++ render fl args ((after fl args last o s).arg) ss)
        ≡ take last (o.text ++ render fl args (o.arg) (s ∷ ss))
  unfolding after render
  after_lem o s ss =
      let piece = segment_text fl args (o.arg) s in
      let rest = render fl args (segment_arg fl args (o.arg) s) ss in
      take-take-append last (o.text ++ piece) rest
      ∙ ap (take last) (append_assoc (o.text) piece rest)

  IsRendered : List ℕ → Type 0
  unfolding Renders HasRoom
  IsRendered cs =
      (o : Output)
      → HasRoom (o.reading) (length (o.text))
      → ends_in (o.reading) cs ≡ plain
      → Renders o cs (parse (o.reading) cs)

  follow_lem :
      (cs : List ℕ) (o : Output) (m : Meaning)
      → IsRendered cs
      → length (o.text) < last
      → elim m [ keep r ↦ ends_in r cs | emit s ↦ ends_in plain cs ] ≡ plain
      → finish (read_format fl args last (follow fl args last o m) cs)
        ≡ take last (
            o.text
            ++ render fl args
                (o.arg)
                (elim m [ keep r ↦ parse r cs | emit s ↦ s ∷ parse plain cs ]))
  unfolding IsRendered Renders follow after HasRoom
  follow_lem cs o (keep r) rendered room complete =
      rendered (record o { reading = r }) (lt→HasRoom r (length (o.text)) room) complete
  follow_lem cs o (emit s) rendered room complete =
      rendered (after fl args last o s)
        (omega (arith, length-take last (o.text ++ segment_text fl args (o.arg) s))) complete
      ∙ after_lem o s (parse plain cs)

  -- A character read with room left.
  roomy :
      (c : ℕ) (cs : List ℕ) (o : Output) (r : Reading)
      → IsRendered cs
      → length (o.text) < last
      → ends_in r (c ∷ cs) ≡ plain
      → finish (read_format fl args last (read_char fl args last r o c) cs)
        ≡ take last (
            o.text
            ++ render fl args
                (o.arg)
                (elim (meaning r c) [ keep r' ↦ parse r' cs | emit s ↦ s ∷ parse plain cs ]))
  unfolding ends_in
  roomy c cs o r rendered room complete =
      ap (λ o'. finish (read_format fl args last o' cs)) (read_char_lem fl args last r o c room)
      ∙ follow_lem cs o (meaning r c) rendered room complete

  -- At the buffer's end the rest of the format is skipped.
  skip_lem :
      (cs : List ℕ) (text : Bytes) (arg : ℕ)
      → length text ≡ last
      → finish (read_format fl args last (record { text = text; arg = arg; reading = plain }) cs)
        ≡ text
  unfolding finish at_end read_format read_char
  skip_lem [] text arg h = refl
  skip_lem (c ∷ cs) text arg h =
      let o : Output = record { text = text; arg = arg; reading = plain } in
      let full : ltb (length text) last ≡ false = ground arith in
      let skipped : read_char fl args last plain o c ≡ o = rw full refl in
      ap (λ o'. finish (read_format fl args last o' cs)) skipped ∙ skip_lem cs text arg h

  full_lem :
      (c : ℕ) (cs : List ℕ) (o : Output)
      → length (o.text) ≡ last
      → finish (read_format fl args last (record o { reading = plain }) cs)
        ≡ take last (o.text ++ render fl args (o.arg) (parse plain (c ∷ cs)))
  full_lem c cs o h =
      skip_lem cs (o.text) (o.arg) h
      ∙ sym (take-full last (o.text) (render fl args (o.arg) (parse plain (c ∷ cs))) h)

  read_char_Renders :
      (c : ℕ) (cs : List ℕ) (o : Output) (r : Reading)
      → IsRendered cs
      → HasRoom r (length (o.text))
      → ends_in r (c ∷ cs) ≡ plain
      → finish (read_format fl args last (read_char fl args last r o c) cs)
        ≡ take last (o.text ++ render fl args (o.arg) (parse r (c ∷ cs)))
  unfolding HasRoom parse read_char
  read_char_Renders c cs o plain rendered h complete =
      elim (Bool-cases (ltb (length (o.text)) last)) [
        | inl room ↦ roomy c cs o plain rendered (ltb→lt (length (o.text)) last room) complete
        | inr full ↦ rw full (full_lem c cs o (full_length full))
      ]
    where
      full_length : ltb (length (o.text)) last ≡ false → length (o.text) ≡ last
      full_length full = ground arith
  read_char_Renders c cs o (first d) rendered h complete =
      roomy c cs o (first d) rendered h complete
  read_char_Renders c cs o (in_width d) rendered h complete =
      roomy c cs o (in_width d) rendered h complete
  read_char_Renders c cs o (in_flags d) rendered h complete =
      roomy c cs o (in_flags d) rendered h complete
  read_char_Renders c cs o (in_fraction d) rendered h complete =
      roomy c cs o (in_fraction d) rendered h complete

  read_format_lem : (cs : List ℕ) → IsRendered cs
  unfolding IsRendered Renders read_format finish
  read_format_lem [] o h complete = end_lem o (o.reading) h complete
  read_format_lem (c ∷ cs) o h complete =
      read_char_Renders c cs o (o.reading) (read_format_lem cs) h complete

  -- The format does not end inside a directive. Then into a buffer of `last` characters with `text`
  -- at its front, ngx_vslprintf leaves the first `last` characters of `text` and what the format asks
  -- for, whatever the arguments are; so it never writes past the buffer's end.
  pub vslprintf_lem :
      (text : Bytes) (fmt : List ℕ)
      → length text ≤ last
      → IsComplete fmt
      → vslprintf fl args last text fmt ≡ take last (text ++ render fl args 0 (parse plain fmt))
  unfolding vslprintf finish HasRoom IsRendered
  vslprintf_lem text fmt h complete =
      read_format_lem fmt (record { text = text; arg = 0; reading = plain }) h complete
