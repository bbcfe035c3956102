-- ===== src/Log/Stamp.antt =====
-- The time at the front of a line (nginx/app/ngx_log.cxx, lines 127 to 135) fits in strcurrtime,
-- and is the date and the time of day.
use cnginx.Common.{
  ℕ, suc, ◌+◌, ◌/◌, ◌%◌, ◌≤◌, ◌<◌, ◌≡◌, refl, ap, ◌∙◌, arith, true, false, Bool-cases, inl, inr,
  ◌==◌, [], ◌∷◌, ◌++◌, append-nil, length, take, take_all,
}
use cnginx.Common.Memory.{Bytes}
use cnginx.Format.{Args, Floats, plain, vslprintf, decimal_loop, number_digits}
use cnginx.Format.Number.{number}
use cnginx.Format.Segments.{parse, render, ends_in, IsComplete}
use cnginx.Format.Truncate.{vslprintf_lem}
use cnginx.Log.{Tm, tm_args, time_format, time_stamp, c_string}

-- A date of four figures, and parts of two figures.
pub record InRange (t : Tm) : Type 0 where
  pub year_from : 1000 ≤ t.year
  pub year : t.year < 10000
  pub mon : t.mon < 100
  pub mday : t.mday < 100
  pub hour : t.hour < 100
  pub min : t.min < 100
  pub sec : t.sec < 100

abbrev figure : ℕ → ℕ
figure n = n % 10 + b'0'

abbrev pub two_figures : ℕ → Bytes
two_figures n = figure (n / 10) ∷ figure n ∷ []

abbrev pub four_figures : ℕ → Bytes
four_figures n = figure (n / 1000) ∷ figure (n / 100) ∷ figure (n / 10) ∷ figure n ∷ []

abbrev dated : Bytes → Bytes → Bytes → Bytes → Bytes → Bytes → Bytes
dated year mon mday hour min sec =
    year ++ b'/' ∷ (mon ++ b'/' ∷ (mday ++ b' ' ∷ (hour ++ b':' ∷ (min ++ b':' ∷ sec))))

-- yyyy/mm/dd hh:mm:ss
abbrev pub stamp_text : Tm → Bytes
stamp_text t =
    dated (four_figures t.year) (two_figures t.mon) (two_figures t.mday) (two_figures t.hour)
      (two_figures t.min) (two_figures t.sec)

dated_congr :
    {a b c d e f a' b' c' d' e' f' : Bytes}
    → a ≡ a'
    → b ≡ b'
    → c ≡ c'
    → d ≡ d'
    → e ≡ e'
    → f ≡ f'
    → dated a b c d e f ≡ dated a' b' c' d' e' f'
dated_congr ea eb ec ed ee ef = rw (ea, eb, ec, ed, ee, ef) refl

decimal_loop-last :
    (fuel n : ℕ) (done : Bytes) → n < 10 → decimal_loop (suc fuel) n done ≡ figure n ∷ done
unfolding decimal_loop
decimal_loop-last fuel n done h = rw small refl
  where
    small : n / 10 == 0 ≡ true
    small = ground arith

decimal_loop-more :
    (fuel n : ℕ) (done : Bytes)
    → 10 ≤ n
    → decimal_loop (suc fuel) n done ≡ decimal_loop fuel (n / 10) (figure n ∷ done)
unfolding decimal_loop
decimal_loop-more fuel n done h = rw large refl
  where
    large : n / 10 == 0 ≡ false
    large = ground arith

number-two_figures : (n : ℕ) → n < 100 → number n b'0' 0 2 ≡ two_figures n
unfolding number_digits
number-two_figures n h = elim (Bool-cases (n / 10 == 0)) [
  | inl small ↦ rw (decimal_loop-last 19 n [] (ground arith)) (ground arith)
  | inr large ↦
      rw
        (
          decimal_loop-more 19 n [] (ground arith),
          decimal_loop-last 18 (n / 10) (figure n ∷ []) (omega arith),
        )
        (ground arith)
]

number-four_figures : (n : ℕ) → 1000 ≤ n → n < 10000 → number n b' ' 0 4 ≡ four_figures n
unfolding number_digits
number-four_figures n lo hi =
    rw
      (
        decimal_loop-more 19 n [] (omega arith),
        decimal_loop-more 18 (n / 10) (figure n ∷ []) (omega arith),
        decimal_loop-more 17 (n / 10 / 10) (figure (n / 10) ∷ figure n ∷ []) (omega arith),
        decimal_loop-last 16 (n / 10 / 10 / 10)
            (figure (n / 10 / 10) ∷ figure (n / 10) ∷ figure n ∷ []) (omega arith),
      )
      (ground arith)

time_text :
    (fl : Floats) (behind : Args fl) (room : ℕ) (t : Tm)
    → InRange t
    → render fl (tm_args fl behind room t) 0 (parse plain time_format) ≡ stamp_text t
unfolding parse render
time_text fl behind room t v =
    dated_congr (number-four_figures t.year v.year_from v.year) (number-two_figures t.mon v.mon)
      (number-two_figures t.mday v.mday) (number-two_figures t.hour v.hour)
      (number-two_figures t.min v.min)
      (append-nil (number t.sec b'0' 0 2) ∙ number-two_figures t.sec v.sec)

figure-not-nul : (n : ℕ) → figure n == 0 ≡ false
figure-not-nul n = ground arith

-- A stamp is a string without a NUL.
c_string-stamp_text : (t : Tm) → c_string (stamp_text t) ≡ stamp_text t
unfolding c_string
c_string-stamp_text t = simp figure-not-nul refl

time_format-IsComplete : IsComplete time_format
unfolding ends_in
time_format-IsComplete = refl

-- With a year of four figures and the other parts of at most two, as localtime_r gives them, what
-- is copied from strcurrtime is yyyy/mm/dd hh:mm:ss. Its 19 characters and the NUL behind them fit
-- in the array's 40, and no more is written.
pub time_stamp_lem :
    (fl : Floats) (behind : Args fl) (room : ℕ) (t : Tm)
    → InRange t
    → 40 ≤ room
    → let written = vslprintf fl (tm_args fl behind room t) room [] time_format in
      (time_stamp fl behind room t ≡ stamp_text t)
      × (written ≡ stamp_text t)
      × (length written + 1 ≤ 40)
unfolding time_stamp
time_stamp_lem fl behind room t v h =
    let e : vslprintf fl (tm_args fl behind room t) room [] time_format ≡ stamp_text t =
      vslprintf_lem fl (tm_args fl behind room t) room [] time_format (omega arith)
        time_format-IsComplete
      ∙ ap (take room) (time_text fl behind room t v)
      ∙ take_all room (stamp_text t) (omega arith) in
    (ap c_string e ∙ c_string-stamp_text t, e, omega (arith, ap length e))
