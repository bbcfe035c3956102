-- ===== src/Startup/Exits.antt =====
-- How the processes of the server end, from main of nginx/app/nginx.cxx on.
use cnginx.Common.{
  ℕ, ◌≡◌, ◌≢◌, ◌⊎◌, inl, inr, refl, ap, ◌∙◌, subst, true, false, Bool-cases, Option, none, some,
  List, [], ◌++◌,
}
use cnginx.Common.Int.{ℤ, pos, negsuc, pos_part}
use cnginx.Common.Memory.{Bytes}
use cnginx.Conf.{ConfItem, LoadResult, no_file, overflowed, items, load_file, get_int_default}
use cnginx.Log.{is_int, stderr_fileno}
use cnginx.Ports.{Settings, ListeningSocket, initialize, log_init}
use cnginx.Signals.{master, init_signals}
use cnginx.Titles.{init_setproctitle}
use cnginx.Startup.{Proc, in_parent, daemon}
use cnginx.Startup.Main.{
  Answers, Fate, returns, exits, suspends, waits, first_settings, first_proc, with_log, leave,
  blocked_signals, master_process_cycle, behind_daemon, settled, configured, main, daemon_text,
  worker_processes_text,
}
use cnginx.Startup.Freeing.{Freed, HasLog, logged, freeresource-Freed, daemon-Returned}
use cnginx.Startup.Working.{CycleEnds, children, start-Ends}

module _ (atoi : Bytes → ℤ) (print_d : ℕ → Bytes) (a : Answers) where
  abbrev begun : Option ℕ → List ConfItem → Proc
  begun opened conf = with_log opened (log_init atoi print_d conf opened).1 (first_proc a)

  begun-HasLog :
      (opened : Option ℕ) (conf : List ConfItem)
      → let s = begun opened conf in (s.process ≡ master) × (s.workers ≡ []) × HasLog s
  unfolding log_init
  begun-HasLog none conf = (refl, refl, (stderr_fileno, refl))
  begun-HasLog (some fd) conf = (refl, refl, (fd, refl))

  module _ (conf : List ConfItem) where
    abbrev sockets : Settings × List ListeningSocket
    sockets =
        let (t, opened) = initialize atoi print_d conf a.ports first_settings in
        (t, opened.listen_socket_list)

    -- The pids of the workers that the configuration asks for.
    abbrev kids : List ℕ
    kids = children a.forks (pos_part (get_int_default atoi conf worker_processes_text (pos 1))) 0

    -- Behind Load, main returns 1 where a signal cannot be set, a port cannot be opened, or ngx_daemon
    -- fails, and 0 in the parent of the daemon that the configuration asks for.
    abbrev HasReason : ℕ → Type 0
    HasReason code =
        ((code ≡ 1)
          × (((init_signals a.sigactions).1 ≡ false)
              ⊎ ((initialize atoi print_d conf a.ports first_settings).1.succeeded ≡ false)
              ⊎ ((s : Proc) × ((daemon a.daemonizing s).0 ≡ negsuc 0))))
        ⊎ ((code ≡ 0)
            × (is_int (get_int_default atoi conf daemon_text (pos 0)) 1 ≡ true)
            × ((child : ℕ) × (a.daemonizing.fork ≡ in_parent child)))

    abbrev Ends : Fate → Proc → Type 0
    Ends (returns code) s = HasReason code × Freed s
    Ends fate s = CycleEnds atoi print_d a conf sockets.0 sockets.1 kids fate s

    cycle_ends :
        (fate : Fate) (s : Proc)
        → CycleEnds atoi print_d a conf sockets.0 sockets.1 kids fate s
        → Ends fate s
    cycle_ends (returns code) s h = elim h [ ]
    cycle_ends (exits code) s h = h
    cycle_ends suspends s h = h
    cycle_ends (waits inum sock used) s h = h

    master-Ends :
        (s : Proc)
        → s.process ≡ master
        → s.workers ≡ []
        → let (fate, u) = master_process_cycle atoi print_d a conf sockets.0 sockets.1 s in
          Ends fate u
    unfolding master_process_cycle
    master-Ends s process none_yet = cycle_ends _ _ (
        subst
          (λ k.
            let (fate, u) = master_process_cycle atoi print_d a conf sockets.0 sockets.1 s in
            CycleEnds atoi print_d a conf sockets.0 sockets.1 k fate u)
          (ap (λ (l : List ℕ). l ++ kids) none_yet)
          (start-Ends atoi print_d a conf sockets.0 sockets.1
            (pos_part (get_int_default atoi conf worker_processes_text (pos 1))) 0
            (record s { blocked = blocked_signals }) process refl))

    leave-Ends :
        (code : ℕ) (s : Proc)
        → HasReason code
        → HasLog s
        → let (fate, u) = leave code s in Ends fate u
    leave-Ends code s reason l = (reason, freeresource-Freed s l)

    behind-Ends :
        (s : Proc)
        → s.process ≡ master
        → s.workers ≡ []
        → HasLog s
        → is_int (get_int_default atoi conf daemon_text (pos 0)) 1 ≡ true
        → let (r, v) = daemon a.daemonizing s in
          let (fate, u) = behind_daemon atoi print_d a conf sockets.0 sockets.1 r v in Ends fate u
    unfolding behind_daemon
    behind-Ends s process none_yet l asked =
        let v = (daemon a.daemonizing s).1 in
        elim (daemon-Returned a.daemonizing s) [
          | inl (same, inl fails) ↦
              rw (behind_daemon, fails)
                (leave-Ends 1 v (inl (refl, inr (inr (s, fails)))) (logged s v same.0 l))
          | inl (same, inr done) ↦
              rw (behind_daemon, done)
                (master-Ends (record v { daemonized = true }) (same.1 ∙ process)
                  (same.2 ∙ none_yet))
          | inr (same, one, parent) ↦
              rw (behind_daemon, one)
                (leave-Ends 0 v (inr (refl, asked, parent)) (logged s v same.0 l))
        ]

    settled-Ends :
        (s : Proc)
        → s.process ≡ master
        → s.workers ≡ []
        → HasLog s
        → let (fate, u) = settled atoi print_d a conf sockets.0 sockets.1 s in Ends fate u
    unfolding settled
    settled-Ends s process none_yet l =
        let u = record s { env_mem = some (init_setproctitle a.environ).env_mem } in
        elim (Bool-cases (is_int (get_int_default atoi conf daemon_text (pos 0)) 1)) [
          | inl asked ↦ rw asked (behind-Ends u process none_yet l asked)
          | inr not_asked ↦ rw not_asked (master-Ends u process none_yet)
        ]

    configured-Ends : let (fate, u) = configured atoi print_d a conf in Ends fate u
    unfolding configured
    configured-Ends =
        let s = begun a.log_opened conf in
        let (process, none_yet, l) = begun-HasLog a.log_opened conf in
        elim (Bool-cases (init_signals a.sigactions).1) [
          | inr fails ↦ rw fails (leave-Ends 1 s (inl (refl, inl fails)) l)
          | inl set ↦
              elim (Bool-cases (initialize atoi print_d conf a.ports first_settings).1.succeeded) [
                | inr fails ↦ rw (set, fails) (leave-Ends 1 s (inl (refl, inr (inl fails))) l)
                | inl opened ↦ rw (set, opened) (settled-Ends s process none_yet l)
              ]
        ]

  -- What becomes of a process of the server.
  abbrev pub MainEnds : Fate → Proc → Type 0
  MainEnds (returns code) s =
      (((code ≡ 2) × (load_file a.config ≡ no_file))
        ⊎ ((conf : List ConfItem) × (load_file a.config ≡ items conf) × HasReason conf code))
      × Freed s
  MainEnds fate s =
      (conf : List ConfItem) × (load_file a.config ≡ items conf)
      × CycleEnds atoi print_d a conf (sockets conf).0 (sockets conf).1 (kids conf) fate s

  as_main :
      (conf : List ConfItem) (fate : Fate) (s : Proc)
      → load_file a.config ≡ items conf
      → Ends conf fate s
      → MainEnds fate s
  as_main conf (returns code) s e h = (inr (conf, e, h.0), h.1)
  as_main conf (exits code) s e h = (conf, e, h)
  as_main conf suspends s e h = (conf, e, h)
  as_main conf (waits inum sock used) s e h = (conf, e, h)

  as_result :
      (o : Fate × Proc)
      → main atoi print_d a ≡ some o
      → MainEnds o.0 o.1
      → (fate : Fate) × (s : Proc) × (main atoi print_d a ≡ some (fate, s)) × MainEnds fate s
  as_result (fate, s) e h = (fate, s, e, h)

  main-Ends :
      (r : LoadResult)
      → load_file a.config ≡ r
      → r ≢ overflowed
      → (fate : Fate) × (s : Proc) × (main atoi print_d a ≡ some (fate, s)) × MainEnds fate s
  unfolding main
  main-Ends no_file e n =
      let (process, none_yet, l) = begun-HasLog a.log_opened [] in
      as_result (leave 2 (begun a.log_opened [])) (rw (main, e) refl)
        (inl (refl, e), freeresource-Freed (begun a.log_opened []) l)
  main-Ends overflowed e n = absurd (n refl)
  main-Ends (items conf) e n =
      as_result (configured atoi print_d a conf) (rw (main, e) refl)
        (as_main conf _ _ e (configured-Ends conf))

  -- What main comes to in any process of the server, if Load stays within its arrays: it returns,
  -- exit() is called, or the process waits. Where main returns, gp_envmem has been freed and the log
  -- is closed or is the standard error output, and the code is 2 without a configuration file, 1
  -- where a signal cannot be set, Initialize fails or ngx_daemon fails, and 0 in the parent of the
  -- daemon that the configuration asks for. Where exit() is called, the process is a worker and the
  -- code 254 or 2. Where it waits for signals, it is the master, with the signals of
  -- ngx_master_process_cycle blocked, and the workers that it knows are those that fork() gave it, for
  -- as many as the configuration asks. Where it waits for events, it is the worker that fork() made,
  -- no signal is blocked, and its socket is in order, with no message and one object in use for each
  -- listening socket.
  pub main_lem :
      load_file a.config ≢ overflowed
      → (fate : Fate) × (s : Proc) × (main atoi print_d a ≡ some (fate, s)) × MainEnds fate s
  main_lem n = main-Ends (load_file a.config) refl n
