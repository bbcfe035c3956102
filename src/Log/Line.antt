-- ===== src/Log/Line.antt =====
-- What a line of the log says (nginx/app/ngx_log.cxx, lines 36 to 184), however long its parts are.
use cnginx.Common.{
  ℕ, ◌+◌, ◌≤◌, ◌≡◌, refl, sym, ap, ◌∙◌, arith, Bool-cases, inl, inr, ◌==◌, ltb, leb, if◌then◌else◌,
  List, [], ◌∷◌, ◌++◌, append_assoc, append-nil, length, take, length-append, length-take,
  take-take, take_all, get_or, min,
}
use cnginx.Common.Memory.{Bytes}
use cnginx.Format.{Args, Floats, plain, vslprintf}
use cnginx.Format.Number.{take-take-append, number}
use cnginx.Format.Segments.{parse, render, ends_in, IsComplete}
use cnginx.Format.Truncate.{vslprintf_lem}
use cnginx.Log.Stamp.{InRange, stamp_text, time_stamp_lem}
use cnginx.Log.{
  max_error_str, Tm, err_levels, left_string, right_string, log_errno, add_errno, cut_line,
  end_line, level_args, pid_args, level_format, pid_format, heading, error_line,
}

-- Printing behind a text that has been cut to the buffer.
pub append_lem :
    (fl : Floats) (args : Args fl) (text : Bytes) (fmt : List ℕ) {front : Bytes}
    → IsComplete fmt
    → front ≡ take max_error_str text
    → vslprintf fl args max_error_str front fmt
      ≡ take max_error_str (text ++ render fl args 0 (parse plain fmt))
append_lem fl args text fmt complete e =
    ap (λ s. vslprintf fl args max_error_str s fmt) e
    ∙ vslprintf_lem fl args max_error_str (take max_error_str text) fmt
        (omega (arith, length-take max_error_str text)) complete
    ∙ take-take-append max_error_str text (render fl args 0 (parse plain fmt))

-- " [level] " and "pid: "
abbrev pub level_text : ℕ → Bytes
level_text level = b' ' ∷ b'[' ∷ (get_or err_levels level [] ++ b']' ∷ b' ' ∷ [])

abbrev pub pid_text : ℕ → Bytes
pid_text pid = number pid b' ' 0 0 ++ b':' ∷ b' ' ∷ []

-- What the line begins with: the time, the level and the process.
abbrev pub heading_text : Tm → ℕ → ℕ → Bytes
heading_text t pid level = (stamp_text t ++ level_text level) ++ pid_text pid

level_format-IsComplete : IsComplete level_format
unfolding ends_in
level_format-IsComplete = refl

pid_format-IsComplete : IsComplete pid_format
unfolding ends_in
pid_format-IsComplete = refl

module _ (fl : Floats) (behind : Args fl) (room : ℕ) where
  render-level :
      (level : ℕ)
      → render fl (level_args fl behind room level) 0 (parse plain level_format) ≡ level_text level
  unfolding render parse
  render-level level = refl

  render-pid :
      (pid : ℕ) → render fl (pid_args fl behind room pid) 0 (parse plain pid_format) ≡ pid_text pid
  unfolding render parse
  render-pid pid = refl

  heading_lem :
      (t : Tm) (pid level : ℕ)
      → InRange t
      → 40 ≤ room
      → heading fl behind room t pid level ≡ take max_error_str (heading_text t pid level)
  unfolding heading
  heading_lem t pid level v h =
      let marks = level_args fl behind room level in
      let stamped = (time_stamp_lem fl behind room t v h).0 in
      append_lem fl (pid_args fl behind room pid) (stamp_text t ++ level_text level) pid_format
        pid_format-IsComplete
        (append_lem fl marks (stamp_text t) level_format level_format-IsComplete (stamped ∙ refl)
          ∙ ap (λ l. take max_error_str (stamp_text t ++ l)) (render-level level))
      ∙ ap (λ l. take max_error_str ((stamp_text t ++ level_text level) ++ l)) (render-pid pid)

-- A line is cut to 2046 characters, whatever the text is.
cut_line_lem : (text : Bytes) → cut_line text ≡ take 2046 text
cut_line_lem text = elim (Bool-cases (leb 2047 (length text))) [
  | inl long ↦ rw long refl
  | inr short ↦ rw short (sym (take_all 2046 text (ground arith)))
]

-- The cut of the line makes the cut of the buffer idle.
cut_again :
    (text more : Bytes) → take 2046 (take max_error_str text ++ more) ≡ take 2046 (text ++ more)
cut_again text more =
    sym (take-take 2046 max_error_str (take max_error_str text ++ more) (omega arith))
    ∙ ap (take 2046) (take-take-append max_error_str text more)
    ∙ take-take 2046 max_error_str (text ++ more) (omega arith)

compared :
    (x left error right : ℕ)
    → ltb (min max_error_str x + error + (left + right)) max_error_str
      ≡ ltb (x + (left + (error + right))) max_error_str
compared x left error right = ground arith

module _ (strerror : ℕ → Bytes) (print_d : ℕ → Bytes) where
  -- The note on an error number: " (2: No such file or directory) "
  abbrev pub note : ℕ → Bytes
  note err = left_string print_d err ++ (strerror err ++ right_string)

  -- The note that ngx_log_error_core adds to a text: none for the error number 0, and none where it
  -- does not fit.
  abbrev pub note_behind : Bytes → ℕ → Bytes
  note_behind text err =
      if err == 0
      then []
      else if ltb (length text + length (note err)) max_error_str
      then note err
      else []

  length-note :
      (err : ℕ)
      → length (note err)
        ≡ length (left_string print_d err) + (length (strerror err) + length right_string)
  length-note err =
      length-append (left_string print_d err) (strerror err ++ right_string)
      ∙ ap (length (left_string print_d err) +◌) (length-append (strerror err) right_string)

  -- The note is added whole or not at all, and stays within the buffer.
  add_errno_lem :
      (text : Bytes) (err : ℕ)
      → add_errno strerror print_d err (take max_error_str text)
        ≡ take max_error_str text ++ note_behind text err
  unfolding log_errno
  add_errno_lem text err = elim (Bool-cases (err == 0)) [
    | inl nought ↦ rw nought (sym (append-nil (take max_error_str text)))
    | inr given ↦ elim (Bool-cases (ltb (length text + length (note err)) max_error_str)) [
      | inl fits ↦
          rw (given, fits, same, fits)
            (append_assoc (take max_error_str text ++ left_string print_d err) (strerror err)
                right_string
              ∙ append_assoc (take max_error_str text) (left_string print_d err)
                  (strerror err ++ right_string))
      | inr full ↦ rw (given, full, same, full) (sym (append-nil (take max_error_str text)))
    ]
  ]
    where
      same :
          ltb
            (length (take max_error_str text)
              + length (strerror err)
              + (length (left_string print_d err) + length right_string))
            max_error_str
          ≡ ltb (length text + length (note err)) max_error_str
      same = rw (length-take max_error_str text, length-note err) (compared (length text) _ _ _)

  -- A text that fills the buffer at most, with its note, as the line has it.
  pub cut_line-add_errno :
      (text : Bytes) (err : ℕ)
      → cut_line (add_errno strerror print_d err (take max_error_str text))
        ≡ take 2046 (text ++ note_behind text err)
  cut_line-add_errno text err =
      ap (λ s. cut_line s) (add_errno_lem text err)
      ∙ cut_line_lem (take max_error_str text ++ note_behind text err)
      ∙ cut_again text (note_behind text err)

  -- The caller's format does not end inside a directive. Then the line of ngx_log_error_core is the
  -- time, the level, the process id, what the caller's format asks for, and the note on the error
  -- number where there is one and it fits: cut to 2046 characters, with a newline behind them. So it
  -- stays within the buffer of 2049, whatever the arguments are. The time is within its range, as in
  -- Log.Stamp, and strcurrtime stands at least 40 characters below the address (u_char *)-1.
  pub error_line_lem :
      (fl : Floats) (behind : Args fl) (room : ℕ) (t : Tm) (pid level err : ℕ) (fmt : List ℕ)
      (args : Args fl)
      → InRange t
      → 40 ≤ room
      → IsComplete fmt
      → let text = heading_text t pid level ++ render fl args 0 (parse plain fmt) in
        error_line strerror print_d fl behind room t pid level err fmt args
        ≡ take 2046 (text ++ note_behind text err) ++ b'\n' ∷ []
  unfolding error_line
  error_line_lem fl behind room t pid level err fmt args v h complete =
      let text = heading_text t pid level ++ render fl args 0 (parse plain fmt) in
      let printed =
        append_lem fl args (heading_text t pid level) fmt complete
          (heading_lem fl behind room t pid level v h) in
      ap (λ s. end_line (add_errno strerror print_d err s)) printed
      ∙ ap (λ s. s ++ b'\n' ∷ []) (cut_line-add_errno text err)
