-- ===== src/Startup/Daemon.antt =====
-- What ngx_daemon of nginx/proc/ngx_daemon.cxx leaves to the process that goes on.
use cnginx.Common.{
  ℕ, ◌<◌, ◌≡◌, ◌≢◌, ◌⊎◌, inl, inr, refl, arith, Bool, true, false, ◌&&◌, ◌||◌, not, ltb, none, some,
  Bool-cases, Option-cases, sym, ap, subst, ◌∙◌,
}
use cnginx.Common.Int.{ℤ, pos, negsuc}
use cnginx.Log.{stderr_fileno}
use cnginx.Startup.{
  not_open, dev_null, Proc, Fork, fork_failed, in_child, in_parent, DaemonAnswers, set_file,
  redirect, detach, daemon, daemon_from, drop_null,
}

-- Each call behind fork() succeeds; close() is called for a descriptor above STDERR_FILENO.
abbrev pub all_granted : DaemonAnswers → Bool
all_granted a = elim a.opened [
  | none ↦ false
  | some fd ↦
      a.setsid_ok && a.dup_stdin_ok && a.dup_stdout_ok && (not (ltb stderr_fileno fd) || a.close_ok)
]

-- The process leads a session of its own, with no mask for new files; its input and output are
-- /dev/null; and no further descriptor has been opened or closed.
pub record Detached (s t : Proc) : Type 0 where
  pub parent : t.parent ≡ s.pid
  pub session : t.session ≡ true
  pub umask : t.umask ≡ some 0
  pub input : t.files 0 ≡ dev_null
  pub output : t.files 1 ≡ dev_null
  pub errors : s.files 2 ≢ not_open → t.files 2 ≡ s.files 2
  pub others : (q : ℕ) → 2 < q → t.files q ≡ s.files q

module _ (a : DaemonAnswers) (s : Proc)
    (fresh : (fd : ℕ) → a.opened ≡ some fd → s.files fd ≡ not_open) where
  -- What ngx_daemon comes to in each process.
  abbrev pub Outcome : Fork → ℤ → Proc → Type 0
  Outcome fork_failed r t = (r ≡ negsuc 0) × (t ≡ s)
  Outcome (in_parent child) r t = (r ≡ pos 1) × (t ≡ s)
  Outcome (in_child pid) r t =
      (t.pid ≡ pid)
      × (((all_granted a ≡ true) × (r ≡ pos 0) × Detached s t)
          ⊎ ((all_granted a ≡ false) × (r ≡ negsuc 0)))

  -- The descriptors when all calls have succeeded: /dev/null was opened as `fd`.
  abbrev redirected : ℕ → Proc → Proc
  redirected fd t = set_file 1 dev_null (set_file 0 dev_null (set_file fd dev_null t))

  abbrev leading : ℕ → Proc
  leading pid = record s { parent = s.pid; pid = pid; session = true; umask = some 0 }

  kept-Detached :
      (pid fd : ℕ)
      → a.opened ≡ some fd
      → ltb stderr_fileno fd ≡ false
      → Detached s (redirected fd (leading pid))
  kept-Detached pid fd opened low =
      let e = fresh fd opened in
      record {
        parent = refl;
        session = refl;
        umask = refl;
        input = ground arith;
        output = ground arith;
        errors = λ n. ground arith;
        others = λ q l. ground arith;
      }

  closed-Detached :
      (pid fd : ℕ)
      → a.opened ≡ some fd
      → ltb stderr_fileno fd ≡ true
      → Detached s (set_file fd not_open (redirected fd (leading pid)))
  closed-Detached pid fd opened high =
      let e = fresh fd opened in
      record {
        parent = refl;
        session = refl;
        umask = refl;
        input = ground arith;
        output = ground arith;
        errors = λ n. ground arith;
        others = λ q l. ground arith;
      }

  drop_null-Outcome :
      (pid fd : ℕ)
      → a.opened ≡ some fd
      → a.setsid_ok ≡ true
      → a.dup_stdin_ok ≡ true
      → a.dup_stdout_ok ≡ true
      → let (r, t) = drop_null a fd (redirected fd (leading pid)) in Outcome (in_child pid) r t
  drop_null-Outcome pid fd opened leads input output = elim (Bool-cases (ltb stderr_fileno fd)) [
    | inl high ↦ elim (Bool-cases a.close_ok) [
      | inl closes ↦
          rw (opened, leads, input, output, high, closes)
            (refl, inl (refl, refl, closed-Detached pid fd opened high))
      | inr fails ↦ rw (opened, leads, input, output, high, fails) (refl, inr (refl, refl))
    ]
    | inr low ↦
        rw (opened, leads, input, output, low)
          (refl, inl (refl, refl, kept-Detached pid fd opened low))
  ]

  first_copy : (fd : ℕ) (t : Proc) → (set_file fd dev_null t).files fd ≡ dev_null
  first_copy fd t = ground arith

  second_copy :
      (fd : ℕ) (t : Proc) → (set_file 0 dev_null (set_file fd dev_null t)).files fd ≡ dev_null
  second_copy fd t = ground arith

  redirect-drop_null :
      (pid fd : ℕ)
      → a.dup_stdin_ok ≡ true
      → a.dup_stdout_ok ≡ true
      → redirect a fd (set_file fd dev_null (leading pid))
        ≡ drop_null a fd (redirected fd (leading pid))
  redirect-drop_null pid fd input output =
      let u = set_file fd dev_null (leading pid) in
      rw (input, output)
        (ap (λ f. drop_null a fd (set_file 1 ((set_file 0 f u).files fd) (set_file 0 f u)))
            (first_copy fd (leading pid))
          ∙ ap (λ f. drop_null a fd (set_file 1 f (set_file 0 dev_null u)))
              (second_copy fd (leading pid)))

  detach-redirect :
      (pid fd : ℕ)
      → a.opened ≡ some fd
      → a.setsid_ok ≡ true
      → detach a (record s { parent = s.pid; pid = pid })
        ≡ redirect a fd (set_file fd dev_null (leading pid))
  detach-redirect pid fd opened leads = rw (leads, opened) refl

  redirect-Outcome :
      (pid fd : ℕ)
      → a.opened ≡ some fd
      → a.setsid_ok ≡ true
      → let (r, t) = redirect a fd (set_file fd dev_null (leading pid)) in
        Outcome (in_child pid) r t
  redirect-Outcome pid fd opened leads = elim (Bool-cases a.dup_stdin_ok) [
    | inr fails ↦ rw (opened, leads, fails) (refl, inr (refl, refl))
    | inl input ↦ elim (Bool-cases a.dup_stdout_ok) [
      | inr fails ↦ rw (opened, leads, input, fails) (refl, inr (refl, refl))
      | inl output ↦
          subst (λ (o : ℤ × Proc). Outcome (in_child pid) o.0 o.1)
            (sym (redirect-drop_null pid fd input output))
            (drop_null-Outcome pid fd opened leads input output)
    ]
  ]

  detach-Outcome :
      (pid : ℕ)
      → let (r, t) = detach a (record s { parent = s.pid; pid = pid }) in Outcome (in_child pid) r t
  detach-Outcome pid = elim (Option-cases a.opened) [
    | inl refused ↦ elim (Bool-cases a.setsid_ok) [
      | inl leads ↦ rw (refused, leads) (refl, inr (refl, refl))
      | inr fails ↦ rw (refused, fails) (refl, inr (refl, refl))
    ]
    | inr (fd, opened) ↦ elim (Bool-cases a.setsid_ok) [
      | inl leads ↦
          subst (λ (o : ℤ × Proc). Outcome (in_child pid) o.0 o.1)
            (sym (detach-redirect pid fd opened leads)) (redirect-Outcome pid fd opened leads)
      | inr fails ↦ rw (fails, opened) (refl, inr (refl, refl))
    ]
  ]

  daemon_from-Outcome : (f : Fork) → let (r, t) = daemon_from f a s in Outcome f r t
  unfolding daemon_from
  daemon_from-Outcome fork_failed = (refl, refl)
  daemon_from-Outcome (in_parent child) = (refl, refl)
  daemon_from-Outcome (in_child pid) = detach-Outcome pid

  -- open() gives a descriptor that is not open. Then ngx_daemon returns -1 and 1, with nothing changed,
  -- where fork() fails and in the parent. In the child, which has its own pid, it returns 0 exactly
  -- when every later call succeeds, and -1 otherwise; and with 0 the child leads a session, with
  -- umask 0, knows the old process as its parent, reads from and writes to /dev/null, keeps its
  -- standard error output if it was open, and all higher descriptors are as they were.
  pub daemon_lem : let (r, t) = daemon a s in Outcome a.fork r t
  unfolding daemon
  daemon_lem = daemon_from-Outcome a.fork
