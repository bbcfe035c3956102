-- ===== src/Log/Stderr.antt =====
-- ngx_log_stderr of nginx/app/ngx_log.cxx, lines 36 to 75: the message goes to the standard error
-- output, and again, as a format, to ngx_log_error_core.
use cnginx.Common.{
  ℕ, ◌+◌, ◌≤◌, ◌≡◌, refl, ap, ◌∙◌, true, false, ◌==◌, List, [], ◌∷◌, ◌++◌, append-nil, take, All,
  if◌then◌else◌,
}
use cnginx.Common.Int.{pos}
use cnginx.Common.Memory.{Bytes}
use cnginx.Format.{Args, Floats, plain}
use cnginx.Format.Segments.{parse, render, meaning, segment_text, segment_arg, ends_in, IsComplete}
use cnginx.Log.{
  Tm, LogState, wrote, at_least, c_string, cut_line, program_name, stderr_fileno, log_stderr_level,
  add_errno, stderr_text, error_line, write_line, log_error_core, log_stderr,
}
use cnginx.Log.Stamp.{InRange}
use cnginx.Log.Line.{append_lem, cut_line-add_errno, note_behind, heading_text, error_line_lem}

-- A character that means itself in a format.
abbrev pub MeansItself : ℕ → Type 0
MeansItself c = (c == b'%' ≡ false) × (c == 0 ≡ false)

c_string_lem : (cs : Bytes) → All MeansItself cs → c_string cs ≡ cs
unfolding c_string
c_string_lem [] v = refl
c_string_lem (c ∷ cs) (v, vs) = rw (v.1, c_string_lem cs vs) refl

module _ (fl : Floats) (args : Args fl) where
  render_lem : (cs : Bytes) → All MeansItself cs → render fl args 0 (parse plain cs) ≡ cs
  unfolding parse render meaning segment_text segment_arg
  render_lem [] v = refl
  render_lem (c ∷ cs) (v, vs) = rw (render, parse, v.0) (ap (◌∷◌ c) (render_lem cs vs))

itself-IsComplete : (cs : Bytes) → All MeansItself cs → IsComplete cs
unfolding ends_in meaning
itself-IsComplete [] v = refl
itself-IsComplete (c ∷ cs) (v, vs) = rw (ends_in, v.0) (itself-IsComplete cs vs)

module _ (strerror : ℕ → Bytes) (print_d : ℕ → Bytes) (fl : Floats) where
  -- What ngx_log_stderr says: the program's name, what the format asks for, and the note.
  abbrev pub said : ℕ → List ℕ → Args fl → Bytes
  said err fmt args =
      let text = program_name ++ render fl args 0 (parse plain fmt) in
      take 2046 (text ++ note_behind strerror print_d text err)

  stderr_text-said :
      (err : ℕ) (fmt : List ℕ) (args : Args fl)
      → IsComplete fmt
      → cut_line (stderr_text strerror print_d fl err fmt args) ≡ said err fmt args
  unfolding stderr_text
  stderr_text-said err fmt args complete =
      ap (λ s. cut_line (add_errno strerror print_d err s))
        (append_lem fl args program_name fmt {front = program_name} complete refl)
      ∙ cut_line-add_errno strerror print_d (program_name ++ render fl args 0 (parse plain fmt)) err

  -- A text as the format of ngx_log_error_core
  repeated :
      (behind : Args fl) (room : ℕ) (t : Tm) (pid : ℕ) (m : Bytes)
      → InRange t
      → 40 ≤ room
      → All MeansItself m
      → error_line strerror print_d fl behind room t pid log_stderr_level 0 (c_string m) behind
        ≡ take 2046 (heading_text t pid log_stderr_level ++ m) ++ b'\n' ∷ []
  repeated behind room t pid m v h itself =
      ap (λ f. error_line strerror print_d fl behind room t pid log_stderr_level 0 f behind)
        (c_string_lem m itself)
      ∙ error_line_lem strerror print_d fl behind room t pid log_stderr_level 0 m behind v h
          (itself-IsComplete m itself)
      ∙ ap (λ s. take 2046 s ++ b'\n' ∷ [])
          (append-nil (heading_text t pid log_stderr_level ++ render fl behind 0 (parse plain m))
            ∙ ap (heading_text t pid log_stderr_level ++◌) (render_lem fl behind m itself))

  -- The format does not end inside a directive. Then ngx_log_stderr writes a line to the standard
  -- error output: the program's name, what the format asks for and the note, cut to 2046 characters,
  -- and a newline. Where the log file is open and
  -- takes messages of level 0, the same characters go to it, behind its heading and cut to the line
  -- again, if none of them is a '%' or a NUL, and write() to it does not fail. The time is within
  -- its range, as in Log.Stamp, and strcurrtime stands at least 40 characters below the address
  -- (u_char *)-1.
  pub log_stderr_lem :
      (behind : Args fl) (room : ℕ) (st : LogState) (t : Tm) (pid err : ℕ) (fmt : List ℕ)
      (args : Args fl)
      → InRange t
      → 40 ≤ room
      → IsComplete fmt
      → at_least st.fd (stderr_fileno + 1) ≡ true
      → at_least st.log_level log_stderr_level ≡ true
      → All MeansItself (said err fmt args)
      → log_stderr strerror print_d fl behind room st t pid wrote err fmt args
        ≡ record { fd = pos stderr_fileno; line = said err fmt args ++ b'\n' ∷ [] }
          ∷ record {
            fd = st.fd;
            line =
                take 2046 (heading_text t pid log_stderr_level ++ said err fmt args) ++ b'\n' ∷ [];
          }
          ∷ []
  unfolding log_stderr log_error_core write_line
  log_stderr_lem behind room st t pid err fmt args v h complete has_file logs itself =
      ap
        (λ (m : Bytes).
          record { fd = pos stderr_fileno; line = m ++ b'\n' ∷ [] }
          ∷ (if at_least st.fd (stderr_fileno + 1)
              then log_error_core strerror print_d fl behind room st t pid wrote log_stderr_level 0
                  (c_string m) behind
              else []))
        (stderr_text-said err fmt args complete)
      ∙ rw (has_file, logs)
          (ap
            (λ (l : Bytes).
              record { fd = pos stderr_fileno; line = said err fmt args ++ b'\n' ∷ [] }
              ∷ record { fd = st.fd; line = l }
              ∷ [])
            (repeated behind room t pid (said err fmt args) v h itself))
