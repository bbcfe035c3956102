-- ===== src/Tests/Lines.antt =====
-- Lines of the log, titles and signals at concrete inputs.
use cnginx.Common.{
  ℕ, ◌+◌, ◌≡◌, refl, arith, true, false, ltb, if◌then◌else◌, some, List, [], ◌∷◌, ◌++◌, length,
  take, replicate, ◌||◌, All,
}
use cnginx.Common.Int.{pos}
use cnginx.Common.Memory.{Bytes}
use cnginx.Format.{plain}
use cnginx.Format.Segments.{parse, render, meaning, segment_text, segment_arg, ends_in, IsComplete}
use cnginx.Log.{Tm, LogState, wrote, error_line, log_stderr}
use cnginx.Log.Stamp.{InRange}
use cnginx.Log.Line.{note_behind, heading_text, error_line_lem}
use cnginx.Log.Stderr.{MeansItself, said, log_stderr_lem}
use cnginx.Titles.{need_loop, init_setproctitle, setproctitle}
use cnginx.Titles.Environment.{laid_out, StringsAt, init_setproctitle_lem, setproctitle_lem}
use cnginx.Signals.{killed, exited, nobody, failed, master, sigchld, signal_handler}
use cnginx.Signals.Reaping.{children, last_report, is_master, signal_handler_lem}
use cnginx.Sys.{eintr}
use cnginx.Tests.Text.{whole_numbers, some_args, some_format, some_format-IsComplete}

-- Any text for an error number, and any two characters for a number.
abbrev an_error : ℕ → Bytes
an_error err = b'n' ∷ b'o' ∷ []

abbrev two_characters : ℕ → Bytes
two_characters n = 49 ∷ 50 ∷ []

abbrev a_time : Tm
a_time = record { year = 2024; mon = 2; mday = 29; hour = 23; min = 59; sec = 59 }

a_time-InRange : InRange a_time
a_time-InRange = record {
  year_from = omega arith;
  year = omega arith;
  mon = omega arith;
  mday = omega arith;
  hour = omega arith;
  min = omega arith;
  sec = omega arith;
}

error_line_lem_example :
    let text =
      heading_text a_time 77 3 ++ render whole_numbers some_args 0 (parse plain some_format) in
    error_line an_error two_characters whole_numbers some_args 100 a_time 77 3 2 some_format
      some_args
    ≡ take 2046 (text ++ note_behind an_error two_characters text 2) ++ 10 ∷ []
error_line_lem_example =
    error_line_lem an_error two_characters whole_numbers some_args 100 a_time 77 3 2 some_format
      some_args a_time-InRange (omega arith) some_format-IsComplete

abbrev a_log : LogState
a_log = record { log_level = pos 6; fd = pos 5 }

-- "hi"
abbrev greeting : List ℕ
greeting = b'h' ∷ b'i' ∷ []

greeting-MeansItself :
    All MeansItself (said an_error two_characters whole_numbers 0 greeting some_args)
unfolding parse render meaning segment_text segment_arg
greeting-MeansItself = (
  (refl, refl),
  (
    (refl, refl),
    (
      (refl, refl),
      (
        (refl, refl),
        ((refl, refl), ((refl, refl), ((refl, refl), ((refl, refl), ((refl, refl), tt))))),
      ),
    ),
  ),
)

greeting-IsComplete : IsComplete greeting
unfolding ends_in
greeting-IsComplete = refl

log_stderr_lem_example :
    log_stderr an_error two_characters whole_numbers some_args 100 a_log a_time 77 wrote 0 greeting
      some_args
    ≡ record {
      fd = pos 2;
      line = said an_error two_characters whole_numbers 0 greeting some_args ++ 10 ∷ [];
    }
      ∷ record {
        fd = pos 5;
        line =
            take 2046 (
              heading_text a_time 77 0
              ++ said an_error two_characters whole_numbers 0 greeting some_args)
            ++ 10 ∷ [];
      }
      ∷ []
log_stderr_lem_example =
    log_stderr_lem an_error two_characters whole_numbers some_args 100 a_log a_time 77 0 greeting
      some_args a_time-InRange (omega arith) greeting-IsComplete refl refl greeting-MeansItself

abbrev home : List Bytes
home = (b'A' ∷ b'=' ∷ b'1' ∷ []) ∷ (b'B' ∷ b'=' ∷ []) ∷ []

init_setproctitle_lem_example :
    let done = init_setproctitle home in
    (done.env_mem ≡ laid_out home)
    × StringsAt done.env_mem done.environ home
    × (length done.env_mem ≡ need_loop 0 home)
init_setproctitle_lem_example = init_setproctitle_lem home

abbrev command : List Bytes
command = (b'.' ∷ b'/' ∷ b'x' ∷ []) ∷ []

setproctitle_lem_example :
    setproctitle (4 + 7) (b't' ∷ []) (replicate 11 65)
    ≡ (if ltb 1 11 then (b't' ∷ []) ++ replicate 10 0 else replicate 11 65)
unfolding need_loop
setproctitle_lem_example = setproctitle_lem command home (b't' ∷ []) (replicate 11 65) refl

signal_handler_lem_example :
    signal_handler master false sigchld
      ((killed 8 9 ∷ failed eintr ∷ exited 7 1 ∷ []) ++ nobody ∷ [])
    ≡ some (record {
      reap = is_master master || false;
      reports = children (killed 8 9 ∷ failed eintr ∷ exited 7 1 ∷ []) ++ last_report true nobody;
    })
signal_handler_lem_example =
    signal_handler_lem master false (killed 8 9 ∷ failed eintr ∷ exited 7 1 ∷ []) nobody []
      (tt, (tt, (tt, tt))) (λ h. h)
