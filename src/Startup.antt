-- ===== src/Startup.antt =====
-- How the processes of the server start: main and freeresource of nginx/app/nginx.cxx, ngx_daemon of
-- nginx/proc/ngx_daemon.cxx, the master's cycle and a worker's beginning in
-- nginx/proc/ngx_process_cycle.cxx, and Initialize_subproc of nginx/net/ngx_c_socket.cxx. One process
-- is followed: where it calls fork(), it goes on as the child or as the parent.
pub mod Daemon
pub mod Main
pub mod Freeing
pub mod Exits
pub mod Working
use cnginx.Common.{
  ℕ, zero, suc, ◌+◌, Bool, true, false, not, ltb, if◌then◌else◌, Option, none, some, List, [], ◌∷◌,
  ◌++◌, map,
}
use cnginx.Common.Int.{ℤ, pos, negsuc, pos_part}
use cnginx.Common.Memory.{Bytes}
use cnginx.Conf.{ConfItem, no_file, overflowed, items, load_file, get_int_default}
use cnginx.Events.{epoll_init}
use cnginx.Log.{LogState, stderr_fileno, is_int}
use cnginx.Ports.{Settings, ListeningSocket, PortAnswers, initialize, log_init}
use cnginx.Signals.{
  Process, master, worker, Signo, sighup, sigint, sigterm, sigchld, sigquit, sigio, other_signal,
  init_signals,
}
use cnginx.Socket.{Socket, new_conn, update}
use cnginx.Titles.{init_setproctitle}

-- What a descriptor stands for.
pub data File : Type 0 where
  not_open terminal dev_null log_file : File

-- A process, as main's code sees it: ngx_pid, ngx_parent, ngx_process, ngx_log, gp_envmem and
-- g_daemonized; what the kernel keeps for it; and the workers that it has started.
pub record Proc : Type 0 where
  pub pid : ℕ
  pub parent : ℕ
  pub process : Process
  pub log : LogState
  pub env_mem : Option Bytes
  pub daemonized : Bool
  pub files : ℕ → File
  pub umask : Option ℕ
  pub session : Bool
  pub blocked : List Signo
  pub workers : List ℕ

-- fork(): -1, the child with its pid, or the parent with the child's pid.
pub data Fork : Type 0 where
  fork_failed : Fork
  in_child : ℕ → Fork
  in_parent : ℕ → Fork

-- What the kernel answers to ngx_daemon: fork(), setsid(), open() of /dev/null, the two dup2() and
-- close().
pub record DaemonAnswers : Type 0 where
  pub fork : Fork
  pub setsid_ok : Bool
  pub opened : Option ℕ
  pub dup_stdin_ok : Bool
  pub dup_stdout_ok : Bool
  pub close_ok : Bool

abbrev pub set_file : ℕ → File → Proc → Proc
set_file fd f s = record s { files = update s.files fd f }

-- ngx_daemon behind dup2 onto STDOUT_FILENO
abbrev pub drop_null : DaemonAnswers → ℕ → Proc → ℤ × Proc
drop_null a fd s =
    if ltb stderr_fileno fd
    then if not a.close_ok then (negsuc 0, s) else (pos 0, set_file fd not_open s)
    else (pos 0, s)

-- The two calls of dup2, from the descriptor `fd` of /dev/null
abbrev pub redirect : DaemonAnswers → ℕ → Proc → ℤ × Proc
redirect a fd s =
    if not a.dup_stdin_ok
    then (negsuc 0, s)
    else let t = set_file 0 (s.files fd) s in
      if not a.dup_stdout_ok then (negsuc 0, t) else drop_null a fd (set_file 1 (t.files fd) t)

-- ngx_daemon in the child
abbrev pub detach : DaemonAnswers → Proc → ℤ × Proc
detach a s =
    if not a.setsid_ok
    then (negsuc 0, s)
    else let t = record s { session = true; umask = some 0 } in
      elim a.opened [ none ↦ (negsuc 0, t) | some fd ↦ redirect a fd (set_file fd dev_null t) ]

daemon_from : Fork → DaemonAnswers → Proc → ℤ × Proc
daemon_from fork_failed a s = (negsuc 0, s)
daemon_from (in_child pid) a s = detach a (record s { parent = s.pid; pid = pid })
daemon_from (in_parent child) a s = (pos 1, s)

-- ngx_daemon: the value returned, and the process.
unfoldable pub daemon : DaemonAnswers → Proc → ℤ × Proc
unfolding daemon_from
daemon a s = daemon_from a.fork a s

-- close(ngx_log.fd), unless it is STDERR_FILENO or -1
abbrev pub close_log : ℤ → Proc → Proc
close_log (pos fd) s =
    if is_int (pos fd) stderr_fileno
    then s
    else set_file fd not_open (record s { log = record s.log { fd = negsuc 0 } })
close_log (negsuc n) s = s

-- freeresource; log.fd is never below -1.
unfoldable pub freeresource : Proc → Proc
freeresource s = close_log s.log.fd (record s { env_mem = none })

-- The two threads that Initialize_subproc creates.
pub data SocketThread : Type 0 where
  send_queue_thread recy_connection_thread : SocketThread

-- What its calls answer, in their order.
pub record SubprocAnswers : Type 0 where
  pub send_mutex_ok : Bool
  pub connection_mutex_ok : Bool
  pub recy_mutex_ok : Bool
  pub sem_ok : Bool
  pub send_thread_ok : Bool
  pub recy_thread_ok : Bool

-- CSocekt::Initialize_subproc: the value returned, and m_threadVector.
unfoldable pub initialize_subproc : SubprocAnswers → Bool × List SocketThread
initialize_subproc a =
    if not a.send_mutex_ok
    then (false, [])
    else if not a.connection_mutex_ok
    then (false, [])
    else if not a.recy_mutex_ok
    then (false, [])
    else if not a.sem_ok
    then (false, [])
    else if not a.send_thread_ok
    then (false, send_queue_thread ∷ [])
    else if not a.recy_thread_ok
    then (false, send_queue_thread ∷ recy_connection_thread ∷ [])
    else (true, send_queue_thread ∷ recy_connection_thread ∷ [])
