-- ===== src/Startup/Main.antt =====
-- The processes of the server from main on: main of nginx/app/nginx.cxx, and
-- ngx_master_process_cycle, ngx_start_worker_processes, ngx_spawn_process, ngx_worker_process_cycle
-- and ngx_worker_process_init of nginx/proc/ngx_process_cycle.cxx. The titles are in Titles; the
-- lines that are logged on the way are left out.
use cnginx.Common.{
  ℕ, zero, suc, ◌+◌, ltb, Bool, true, false, not, if◌then◌else◌, Option, none, some, List, [], ◌∷◌,
  ◌++◌, map,
}
use cnginx.Common.Int.{ℤ, pos, negsuc, pos_part}
use cnginx.Common.Memory.{Bytes}
use cnginx.Conf.{ConfItem, no_file, overflowed, items, load_file, get_int_default}
use cnginx.Events.{epoll_init}
use cnginx.Log.{LogState, is_int}
use cnginx.Ports.{Settings, ListeningSocket, PortAnswers, initialize, log_init}
use cnginx.Signals.{
  master, worker, Signo, sighup, sigint, sigterm, sigchld, sigquit, sigio, other_signal,
  init_signals,
}
use cnginx.Socket.{Socket, new_conn}
use cnginx.Titles.{init_setproctitle}
use cnginx.Startup.{
  not_open, terminal, log_file, Proc, Fork, fork_failed, in_child, in_parent, DaemonAnswers,
  set_file, daemon, freeresource, SubprocAnswers, initialize_subproc,
}

-- "Daemon"
abbrev pub daemon_text : Bytes
daemon_text = b'D' ∷ b'a' ∷ b'e' ∷ b'm' ∷ b'o' ∷ b'n' ∷ []

-- "WorkerProcesses"
abbrev pub worker_processes_text : Bytes
worker_processes_text =
    b'W' ∷ b'o' ∷ b'r' ∷ b'k' ∷ b'e' ∷ b'r' ∷ b'P' ∷ b'r' ∷ b'o' ∷ b'c' ∷ b'e' ∷ b's' ∷ b's' ∷ b'e'
    ∷ b's' ∷ []

-- "ProcMsgRecvWorkThreadCount"
abbrev pub thread_count_text : Bytes
thread_count_text =
    b'P' ∷ b'r' ∷ b'o' ∷ b'c' ∷ b'M' ∷ b's' ∷ b'g' ∷ b'R' ∷ b'e' ∷ b'c' ∷ b'v' ∷ b'W' ∷ b'o' ∷ b'r'
    ∷ b'k' ∷ b'T' ∷ b'h' ∷ b'r' ∷ b'e' ∷ b'a' ∷ b'd' ∷ b'C' ∷ b'o' ∷ b'u' ∷ b'n' ∷ b't' ∷ []

-- What the calls of one process answer, in the order in which it makes them; `forks i` is for the
-- worker number i.
pub record Answers : Type 0 where
  pub pid : ℕ
  pub ppid : ℕ
  pub environ : List Bytes
  pub config : Option Bytes
  pub log_opened : Option ℕ
  pub sigactions : List Bool
  pub ports : ℕ → PortAnswers
  pub daemonizing : DaemonAnswers
  pub forks : ℕ → Fork
  pub pool_created : ℤ → Bool
  pub subproc : SubprocAnswers
  pub epoll_created : ℤ → Bool
  pub ctl_ok : Bool

-- What becomes of a process: main returns, exit() is called, the master waits for signals for ever,
-- or the worker of a number waits for events, with its socket and the objects in use.
pub data Fate : Type 0 where
  returns exits : ℕ → Fate
  suspends : Fate
  waits : ℕ → Socket → List ℕ → Fate

-- The members that the constructor CSocekt() sets for ReadConf.
abbrev pub first_settings : Settings
first_settings = record {
  worker_connections = pos 1;
  listen_port_count = pos 1;
  recy_connection_wait_time = pos 60;
}

-- The socket when a worker begins: its pool is empty.
abbrev pub new_socket : Settings → Socket
new_socket t = record {
  conns = λ p. new_conn;
  next_address = 0;
  worker_connections = pos_part t.worker_connections;
  recy_connection_wait_time = t.recy_connection_wait_time;
  connection_list = [];
  freeconnection_list = [];
  recyconnection_list = [];
  total_connection_n = 0;
  free_connection_n = 0;
  totol_recyconnection_n = 0;
  msg_send_queue = [];
  send_msg_queue_count = 0;
  sem_event_send_queue = 0;
}

-- What ngx_master_process_cycle blocks.
abbrev pub blocked_signals : List Signo
blocked_signals =
    sigchld
    ∷ other_signal 14
    ∷ sigio
    ∷ sigint
    ∷ sighup
    ∷ other_signal 10
    ∷ other_signal 12
    ∷ other_signal 28
    ∷ sigterm
    ∷ sigquit
    ∷ []

-- main in front of Load; the standard descriptors are open.
abbrev pub first_proc : Answers → Proc
first_proc a = record {
  pid = a.pid;
  parent = a.ppid;
  process = master;
  log = record { log_level = pos 0; fd = negsuc 0 };
  env_mem = none;
  daemonized = false;
  files = λ fd. if ltb fd 3 then terminal else not_open;
  umask = none;
  session = false;
  blocked = [];
  workers = [];
}

-- The process behind ngx_log_init, by the descriptor that open() gave.
abbrev pub with_log : Option ℕ → LogState → Proc → Proc
with_log opened l s = elim opened [
  | none ↦ record s { log = l }
  | some fd ↦ set_file fd log_file (record s { log = l })
]

-- lblexit
abbrev pub leave : ℕ → Proc → Fate × Proc
leave exitcode s = (returns exitcode, freeresource s)

module _ (atoi : Bytes → ℤ) (print_d : ℕ → Bytes) (a : Answers) where
  module _ (conf : List ConfItem) (t : Settings) (listening : List ListeningSocket) where
    -- ngx_worker_process_init, and the loop behind it: exit(-2) is the status 254.
    unfoldable pub worker_begins : ℕ → Proc → Fate × Proc
    unfolding initialize_subproc epoll_init get_int_default
    worker_begins inum s =
        if not (a.pool_created (get_int_default atoi conf thread_count_text (pos 5)))
        then (exits 254, s)
        else if not (initialize_subproc a.subproc).0
        then (exits 254, s)
        else if not (a.epoll_created t.worker_connections)
        then (exits 2, s)
        else elim (epoll_init (map (λ (l : ListeningSocket). l.fd) listening) a.ctl_ok
            (new_socket t)) [ none ↦ (exits 2, s) | some (sock, used) ↦ (waits inum sock used, s) ]

    -- ngx_worker_process_cycle
    abbrev pub worker_process_cycle : ℕ → Proc → Fate × Proc
    worker_process_cycle inum s = worker_begins inum (record s { process = worker; blocked = [] })

    -- ngx_start_worker_processes from the number `i` on, with ngx_spawn_process, and sigsuspend
    -- behind it.
    unfoldable pub start_worker_processes : ℕ → ℕ → Proc → Fate × Proc
    unfolding worker_begins
    start_worker_processes zero i s = (suspends, s)
    start_worker_processes (suc rounds) i s = elim (a.forks i) [
      | fork_failed ↦ start_worker_processes rounds (i + 1) s
      | in_child pid ↦ worker_process_cycle i (record s { parent = s.pid; pid = pid })
      | in_parent pid ↦
          start_worker_processes rounds (i + 1) (record s { workers = s.workers ++ pid ∷ [] })
    ]

    -- ngx_master_process_cycle
    unfoldable pub master_process_cycle : Proc → Fate × Proc
    unfolding start_worker_processes get_int_default
    master_process_cycle s =
        start_worker_processes (pos_part (get_int_default atoi conf worker_processes_text (pos 1)))
          0 (record s { blocked = blocked_signals })

    -- main behind ngx_daemon, on the value that it returned.
    unfoldable pub behind_daemon : ℤ → Proc → Fate × Proc
    unfolding master_process_cycle
    behind_daemon (negsuc zero) s = leave 1 s
    behind_daemon (pos (suc zero)) s = (returns 0, freeresource s)
    behind_daemon _ s = master_process_cycle (record s { daemonized = true })

    -- main from ngx_init_setproctitle on
    unfoldable pub settled : Proc → Fate × Proc
    unfolding behind_daemon daemon init_setproctitle get_int_default
    settled s =
        let u = record s { env_mem = some (init_setproctitle a.environ).env_mem } in
        if is_int (get_int_default atoi conf daemon_text (pos 0)) 1
        then (let (r, v) = daemon a.daemonizing u in behind_daemon r v)
        else master_process_cycle u

  -- main behind Load, on the items of the configuration
  unfoldable pub configured : List ConfItem → Fate × Proc
  unfolding settled log_init init_signals initialize
  configured conf =
      let s = with_log a.log_opened (log_init atoi print_d conf a.log_opened).1 (first_proc a) in
      if not (init_signals a.sigactions).1
      then leave 1 s
      else let (t, opened) = initialize atoi print_d conf a.ports first_settings in
        if not opened.succeeded then leave 1 s else settled conf t opened.listen_socket_list s

  -- main; none where Load writes past the end of ItemName.
  unfoldable pub main : Option (Fate × Proc)
  unfolding configured log_init load_file
  main = elim (load_file a.config) [
    | no_file ↦
        some
          (leave 2 (with_log a.log_opened (log_init atoi print_d [] a.log_opened).1 (first_proc a)))
    | overflowed ↦ none
    | items conf ↦ some (configured conf)
  ]
