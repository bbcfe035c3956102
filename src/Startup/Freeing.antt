-- ===== src/Startup/Freeing.antt =====
-- What freeresource of nginx/app/nginx.cxx frees, and what ngx_daemon of nginx/proc/ngx_daemon.cxx
-- leaves alone.
use cnginx.Common.{ℕ, ◌≡◌, ◌⊎◌, inl, inr, refl, ap, ◌∙◌, arith, Bool-cases, Option-cases, none, ltb}
use cnginx.Common.Int.{ℤ, pos, negsuc}
use cnginx.Log.{LogState, is_int, stderr_fileno}
use cnginx.Startup.{
  Proc, Fork, fork_failed, in_child, in_parent, DaemonAnswers, daemon, daemon_from, detach,
  redirect, drop_null, freeresource,
}

-- freeresource has been called: gp_envmem is NULL, and the log is closed, or is the standard error
-- output.
abbrev pub Freed : Proc → Type 0
Freed s = (s.env_mem ≡ none) × ((s.log.fd ≡ negsuc 0) ⊎ (s.log.fd ≡ pos stderr_fileno))

abbrev pub HasLog : Proc → Type 0
HasLog s = (fd : ℕ) × (s.log.fd ≡ pos fd)

pub freeresource-Freed : (s : Proc) → HasLog s → Freed (freeresource s)
unfolding freeresource
freeresource-Freed s (fd, e) = elim (Bool-cases (is_int (pos fd) stderr_fileno)) [
  | inl standard ↦ rw (freeresource, e, standard) (refl, inr (ap pos (ground arith)))
  | inr other ↦ rw (freeresource, e, other) (refl, inl refl)
]

pub logged : (s t : Proc) → t.log ≡ s.log → HasLog s → HasLog t
logged s t e (fd, l) = (fd, ap (λ (g : LogState). g.fd) e ∙ l)

-- ngx_daemon leaves these alone.
abbrev pub Same : Proc → Proc → Type 0
Same s t = (t.log ≡ s.log) × (t.process ≡ s.process) × (t.workers ≡ s.workers)

-- In the child ngx_daemon returns 0 or -1.
abbrev pub Goes : Proc → ℤ × Proc → Type 0
Goes s (r, t) = Same s t × ((r ≡ negsuc 0) ⊎ (r ≡ pos 0))

module _ (a : DaemonAnswers) (s : Proc) where
  drop_null-Goes : (fd : ℕ) (u : Proc) → Same s u → Goes s (drop_null a fd u)
  drop_null-Goes fd u h = elim (Bool-cases (ltb stderr_fileno fd)) [
    | inr low ↦ rw low (h, inr refl)
    | inl high ↦ elim (Bool-cases a.close_ok) [
      | inr fails ↦ rw (high, fails) (h, inl refl)
      | inl closes ↦ rw (high, closes) (h, inr refl)
    ]
  ]

  redirect-Goes : (fd : ℕ) (u : Proc) → Same s u → Goes s (redirect a fd u)
  redirect-Goes fd u h = elim (Bool-cases a.dup_stdin_ok) [
    | inr fails ↦ rw fails (h, inl refl)
    | inl input ↦ elim (Bool-cases a.dup_stdout_ok) [
      | inr fails ↦ rw (input, fails) (h, inl refl)
      | inl output ↦ rw (input, output) (drop_null-Goes fd _ h)
    ]
  ]

  detach-Goes : (u : Proc) → Same s u → Goes s (detach a u)
  detach-Goes u h = elim (Bool-cases a.setsid_ok) [
    | inr fails ↦ rw fails (h, inl refl)
    | inl leads ↦ elim (Option-cases a.opened) [
      | inl refused ↦ rw (leads, refused) (h, inl refl)
      | inr (fd, opened) ↦ rw (leads, opened) (redirect-Goes fd _ h)
    ]
  ]

  -- 1 is returned in the parent only.
  abbrev pub Returned : Fork → ℤ × Proc → Type 0
  Returned f o = Goes s o ⊎ (Same s o.1 × (o.0 ≡ pos 1) × ((child : ℕ) × (f ≡ in_parent child)))

  daemon_from-Returned : (f : Fork) → Returned f (daemon_from f a s)
  unfolding daemon_from
  daemon_from-Returned fork_failed = inl ((refl, refl, refl), inl refl)
  daemon_from-Returned (in_child pid) = inl (detach-Goes _ (refl, refl, refl))
  daemon_from-Returned (in_parent child) = inr ((refl, refl, refl), refl, (child, refl))

  pub daemon-Returned : Returned a.fork (daemon a s)
  unfolding daemon
  daemon-Returned = daemon_from-Returned a.fork
