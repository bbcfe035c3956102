-- ===== src/Tests/Start.antt =====
-- A server that is started, as a daemon and not.
use mathlib.Core.Bool.{false≢true}
use mathlib.Core.Option.{some-injective}
use cnginx.Common.{ℕ, ◌+◌, ◌≡◌, ◌≢◌, refl, sym, ap, ◌∙◌, subst, Bool, true, false, some, [], ◌∷◌}
use cnginx.Common.Int.{ℤ, pos}
use cnginx.Common.Memory.{Bytes}
use cnginx.Conf.{LoadResult, no_file, overflowed, items, load_file}
use cnginx.Conf.File.{load_file_lem}
use cnginx.Startup.{Proc, in_child, DaemonAnswers, daemon, not_open}
use cnginx.Startup.Daemon.{Outcome, daemon_lem}
use cnginx.Startup.Exits.{MainEnds, main_lem}
use cnginx.Startup.Main.{Answers, Fate, first_proc, main}
use cnginx.Tests.Config.{name, value, entry}

-- "Ab=7"
abbrev configuration : Bytes
configuration = 65 ∷ 98 ∷ 61 ∷ 55 ∷ 10 ∷ []

abbrev as_daemon : DaemonAnswers
as_daemon = record {
  fork = in_child 70;
  setsid_ok = true;
  opened = some 3;
  dup_stdin_ok = true;
  dup_stdout_ok = true;
  close_ok = true;
}

abbrev all_well : Answers
all_well = record {
  pid = 50;
  ppid = 1;
  environ = [];
  config = some configuration;
  log_opened = some 4;
  sigactions = true ∷ true ∷ true ∷ true ∷ true ∷ true ∷ true ∷ [];
  ports = λ i. record {
    descriptor = some (i + 5);
    option_ok = true;
    nonblock_ok = true;
    bind_ok = true;
    listen_ok = true;
  };
  daemonizing = as_daemon;
  forks = λ i. in_child 60;
  pool_created = λ n. true;
  subproc = record {
    send_mutex_ok = true;
    connection_mutex_ok = true;
    recy_mutex_ok = true;
    sem_ok = true;
    send_thread_ok = true;
    recy_thread_ok = true;
  };
  epoll_created = λ n. true;
  ctl_ok = true;
}

null_is_new : (fd : ℕ) → as_daemon.opened ≡ some fd → (first_proc all_well).files fd ≡ not_open
null_is_new fd e =
    subst (λ (q : ℕ). (first_proc all_well).files q ≡ not_open) (some-injective _ _ e) refl

daemon_lem_example :
    let (r, t) = daemon as_daemon (first_proc all_well) in
    Outcome as_daemon (first_proc all_well) null_is_new as_daemon.fork r t
daemon_lem_example = daemon_lem as_daemon (first_proc all_well) null_is_new

overflows : LoadResult → Bool
overflows no_file = false
overflows (items is) = false
overflows overflowed = true

loads : load_file (some configuration) ≢ overflowed
unfolding overflows
loads e = false≢true (
    ap overflows (
      sym (load_file_lem (record { item_name = name; item_content = value } ∷ []) (entry, tt)) ∙ e))

abbrev no_number : Bytes → ℤ
no_number s = pos 0

abbrev no_digit : ℕ → Bytes
no_digit n = []

main_lem_example :
    (fate : Fate) × (s : Proc) × (main no_number no_digit all_well ≡ some (fate, s))
    × MainEnds no_number no_digit all_well fate s
main_lem_example = main_lem no_number no_digit all_well loads
