-- ===== src/Log.antt =====
-- nginx/app/ngx_log.cxx: the lines of the log. A line is built in a buffer of NGX_MAX_ERROR_STR
-- characters and one more; `text` is what stands before `p`, so `p - errstr` is its length.

pub mod Line
pub mod Stamp
pub mod Stderr
use cnginx.Common.{
  ℕ, ◌+◌, ◌-◌, Bool, true, false, not, ◌==◌, ◌&&◌, ltb, leb, if◌then◌else◌, List, [], ◌∷◌, ◌++◌,
  length, take, get_or, Option, none, some,
}
use cnginx.Common.Int.{ℤ, pos, negsuc}
use cnginx.Common.Memory.{Bytes}
use cnginx.Sys.{Errno, enospc}
use cnginx.Format.{Args, Floats, vslprintf}

-- NGX_MAX_ERROR_STR, which is `last - errstr`
abbrev pub max_error_str : ℕ
max_error_str = 2048

-- STDERR_FILENO, NGX_LOG_STDERR, NGX_LOG_NOTICE
abbrev pub stderr_fileno : ℕ
stderr_fileno = 2

abbrev pub log_stderr_level : ℕ
log_stderr_level = 0

-- err_levels: stderr, emerg, alert, crit, error, warn, notice, info, debug
abbrev pub err_levels : List Bytes
err_levels =
    (b's' ∷ b't' ∷ b'd' ∷ b'e' ∷ b'r' ∷ b'r' ∷ [])
    ∷ (b'e' ∷ b'm' ∷ b'e' ∷ b'r' ∷ b'g' ∷ [])
    ∷ (b'a' ∷ b'l' ∷ b'e' ∷ b'r' ∷ b't' ∷ [])
    ∷ (b'c' ∷ b'r' ∷ b'i' ∷ b't' ∷ [])
    ∷ (b'e' ∷ b'r' ∷ b'r' ∷ b'o' ∷ b'r' ∷ [])
    ∷ (b'w' ∷ b'a' ∷ b'r' ∷ b'n' ∷ [])
    ∷ (b'n' ∷ b'o' ∷ b't' ∷ b'i' ∷ b'c' ∷ b'e' ∷ [])
    ∷ (b'i' ∷ b'n' ∷ b'f' ∷ b'o' ∷ [])
    ∷ (b'd' ∷ b'e' ∷ b'b' ∷ b'u' ∷ b'g' ∷ [])
    ∷ []

-- "nginx: "
abbrev pub program_name : Bytes
program_name = b'n' ∷ b'g' ∷ b'i' ∷ b'n' ∷ b'x' ∷ b':' ∷ b' ' ∷ []

-- "%4d/%02d/%02d %02d:%02d:%02d"
abbrev pub time_format : List ℕ
time_format =
    b'%' ∷ b'4' ∷ b'd' ∷ b'/' ∷ b'%' ∷ b'0' ∷ b'2' ∷ b'd' ∷ b'/' ∷ b'%' ∷ b'0' ∷ b'2' ∷ b'd' ∷ b' '
    ∷ b'%' ∷ b'0' ∷ b'2' ∷ b'd' ∷ b':' ∷ b'%' ∷ b'0' ∷ b'2' ∷ b'd' ∷ b':' ∷ b'%' ∷ b'0' ∷ b'2'
    ∷ b'd' ∷ []

-- " [%s] " and "%P: "
abbrev pub level_format : List ℕ
level_format = b' ' ∷ b'[' ∷ b'%' ∷ b's' ∷ b']' ∷ b' ' ∷ []

abbrev pub pid_format : List ℕ
pid_format = b'%' ∷ b'P' ∷ b':' ∷ b' ' ∷ []

-- The fields of struct tm that are printed, after `tm_mon++` and `tm_year += 1900`.
pub record Tm : Type 0 where
  pub year : ℕ
  pub mon : ℕ
  pub mday : ℕ
  pub hour : ℕ
  pub min : ℕ
  pub sec : ℕ

-- ngx_log: the level and the descriptor of the log file, which may be -1.
pub record LogState : Type 0 where
  pub log_level : ℤ
  pub fd : ℤ

-- What write() answers: whether it fails, and how.
pub data WriteAnswer : Type 0 where
  wrote : WriteAnswer
  failed : Errno → WriteAnswer

-- A call of write(): the descriptor and the characters.
pub record Write : Type 0 where
  pub fd : ℤ
  pub line : Bytes

-- A C string: the characters up to the first NUL.
unfoldable pub c_string : Bytes → Bytes
c_string [] = []
c_string (c ∷ cs) = let rest = c_string cs in if c == 0 then [] else c ∷ rest

-- An int against a number that is not negative.
abbrev pub at_least : ℤ → ℕ → Bool
at_least (pos n) k = leb k n
at_least (negsuc n) k = false

abbrev pub is_int : ℤ → ℕ → Bool
is_int (pos n) k = n == k
is_int (negsuc n) k = false

-- `if (p >= (last - 1)) p = (last - 1) - 1`
abbrev pub cut_line : Bytes → Bytes
cut_line text =
    if leb (max_error_str - 1) (length text) then take (max_error_str - 2) text else text

-- `*p++ = '\n'` behind it
abbrev pub end_line : Bytes → Bytes
end_line text = cut_line text ++ b'\n' ∷ []

-- `behind` is what va_arg yields where nothing was passed; `room` is how far strcurrtime is from
-- the address (u_char *)-1.
module _ (fl : Floats) (behind : Args fl) (room : ℕ) where
  abbrev pub tm_args : Tm → Args fl
  tm_args t = record behind {
    int_at = λ i. pos (get_or (t.year ∷ t.mon ∷ t.mday ∷ t.hour ∷ t.min ∷ t.sec ∷ []) i 0);
  }

  -- The characters of strcurrtime that are copied.
  unfoldable pub time_stamp : Tm → Bytes
  unfolding vslprintf c_string
  time_stamp t = c_string (vslprintf fl (tm_args t) room [] time_format)

  abbrev pub level_args : ℕ → Args fl
  level_args level = record behind { string_at = λ i. get_or err_levels level [] }

  abbrev pub pid_args : ℕ → Args fl
  pid_args pid = record behind { int_at = λ i. pos pid }

  -- The text of ngx_log_error_core before the caller's.
  unfoldable pub heading : Tm → ℕ → ℕ → Bytes
  unfolding vslprintf time_stamp
  heading t pid level =
      vslprintf fl (pid_args pid) max_error_str
        (vslprintf fl (level_args level) max_error_str (time_stamp t) level_format) pid_format

-- `leftstr`, an array of 10 characters, and `rightstr`; `print_d n` is what sprintf of libc writes
-- for "%d".
abbrev pub left_string : (ℕ → Bytes) → ℕ → Bytes
left_string print_d err = b' ' ∷ b'(' ∷ (print_d err ++ b':' ∷ b' ' ∷ [])

abbrev pub right_string : Bytes
right_string = b')' ∷ b' ' ∷ []

-- `strerror` is libc's.
module _ (strerror : ℕ → Bytes) (print_d : ℕ → Bytes) where
  -- ngx_log_errno, in a buffer of `last` characters
  unfoldable pub log_errno : ℕ → Bytes → ℕ → Bytes
  log_errno last text err =
      let extra = length (left_string print_d err) + length right_string in
      if ltb (length text + length (strerror err) + extra) last
      then ((text ++ left_string print_d err) ++ strerror err) ++ right_string
      else text

  -- `if (err) p = ngx_log_errno(p, last, err)`
  abbrev pub add_errno : ℕ → Bytes → Bytes
  add_errno err text = if err == 0 then text else log_errno max_error_str text err

  -- The text of ngx_log_stderr before its line is ended.
  unfoldable pub stderr_text : (fl : Floats) → ℕ → List ℕ → Args fl → Bytes
  unfolding vslprintf log_errno
  stderr_text fl err fmt args = add_errno err (vslprintf fl args max_error_str program_name fmt)

  module _ (fl : Floats) (behind : Args fl) (room : ℕ) where
    -- The line of ngx_log_error_core
    unfoldable pub error_line : Tm → ℕ → ℕ → ℕ → List ℕ → Args fl → Bytes
    unfolding vslprintf heading log_errno
    error_line t pid level err fmt args =
        end_line
          (add_errno err (vslprintf fl args max_error_str (heading fl behind room t pid level) fmt))

    -- `while(1)`, which is left after one round
    unfoldable pub write_line : LogState → ℕ → Bytes → WriteAnswer → List Write
    write_line st level line answer =
        if not (at_least st.log_level level)
        then []
        else record { fd = st.fd; line = line } ∷ elim answer [
          | wrote ↦ []
          | failed enospc ↦ []
          | failed e ↦
              if not (is_int st.fd stderr_fileno)
              then record { fd = pos stderr_fileno; line = line } ∷ []
              else []
        ]

    -- ngx_log_error_core
    unfoldable pub log_error_core :
        LogState → Tm → ℕ → WriteAnswer → ℕ → ℕ → List ℕ → Args fl → List Write
    unfolding error_line write_line
    log_error_core st t pid answer level err fmt args =
        write_line st level (error_line t pid level err fmt args) answer

    -- ngx_log_stderr: errstr, with a NUL in place of the newline, is the format of the second call.
    unfoldable pub log_stderr : LogState → Tm → ℕ → WriteAnswer → ℕ → List ℕ → Args fl → List Write
    unfolding stderr_text log_error_core c_string
    log_stderr st t pid answer err fmt args =
        let text = stderr_text fl err fmt args in
        record { fd = pos stderr_fileno; line = end_line text }
        ∷ (if at_least st.fd (stderr_fileno + 1)
            then log_error_core st t pid answer log_stderr_level 0 (c_string (cut_line text)) behind
            else [])
