-- ===== src/Ports.antt =====
-- The settings of the socket and its listening ports: CSocekt::ReadConf and
-- ngx_open_listening_sockets of nginx/net/ngx_c_socket.cxx, and ngx_log_init of
-- nginx/app/ngx_log.cxx. What the kernel answers for a port is an argument.
pub mod Opening
use cnginx.Common.{
  ℕ, zero, suc, ◌+◌, Bool, true, false, ◌&&◌, ltb, if◌then◌else◌, Option, none, some, List, [], ◌∷◌,
  ◌++◌, length,
}
use cnginx.Common.Int.{ℤ, pos, pos_part}
use cnginx.Common.Memory.{Bytes}
use cnginx.Conf.{ConfItem, get_string, get_int_default}
use cnginx.Log.{LogState, stderr_fileno}

-- m_worker_connections, m_ListenPortCount and m_RecyConnectionWaitTime
pub record Settings : Type 0 where
  pub worker_connections : ℤ
  pub listen_port_count : ℤ
  pub recy_connection_wait_time : ℤ

-- "worker_connections"
abbrev worker_connections_text : Bytes
worker_connections_text =
    b'w' ∷ b'o' ∷ b'r' ∷ b'k' ∷ b'e' ∷ b'r' ∷ b'_' ∷ b'c' ∷ b'o' ∷ b'n' ∷ b'n' ∷ b'e' ∷ b'c' ∷ b't'
    ∷ b'i' ∷ b'o' ∷ b'n' ∷ b's' ∷ []

-- "ListenPortCount"
abbrev listen_port_count_text : Bytes
listen_port_count_text =
    b'L' ∷ b'i' ∷ b's' ∷ b't' ∷ b'e' ∷ b'n' ∷ b'P' ∷ b'o' ∷ b'r' ∷ b't' ∷ b'C' ∷ b'o' ∷ b'u' ∷ b'n'
    ∷ b't' ∷ []

-- "Sock_RecyConnectionWaitTime"
abbrev recy_wait_time_text : Bytes
recy_wait_time_text =
    b'S' ∷ b'o' ∷ b'c' ∷ b'k' ∷ b'_' ∷ b'R' ∷ b'e' ∷ b'c' ∷ b'y' ∷ b'C' ∷ b'o' ∷ b'n' ∷ b'n' ∷ b'e'
    ∷ b'c' ∷ b't' ∷ b'i' ∷ b'o' ∷ b'n' ∷ b'W' ∷ b'a' ∷ b'i' ∷ b't' ∷ b'T' ∷ b'i' ∷ b'm' ∷ b'e' ∷ []

-- "ListenPort"
abbrev listen_port_text : Bytes
listen_port_text = b'L' ∷ b'i' ∷ b's' ∷ b't' ∷ b'e' ∷ b'n' ∷ b'P' ∷ b'o' ∷ b'r' ∷ b't' ∷ []

-- "Log"
abbrev log_text : Bytes
log_text = b'L' ∷ b'o' ∷ b'g' ∷ []

-- "LogLevel"
abbrev log_level_text : Bytes
log_level_text = b'L' ∷ b'o' ∷ b'g' ∷ b'L' ∷ b'e' ∷ b'v' ∷ b'e' ∷ b'l' ∷ []

-- "error.log"
abbrev error_log_path : Bytes
error_log_path = b'e' ∷ b'r' ∷ b'r' ∷ b'o' ∷ b'r' ∷ b'.' ∷ b'l' ∷ b'o' ∷ b'g' ∷ []

-- ngx_listening_t
pub record ListeningSocket : Type 0 where
  pub port : ℤ
  pub fd : ℕ

-- What the kernel answers for one port: the descriptor, if socket() gives one, and whether
-- setsockopt(), ioctl(), bind() and listen() succeed.
pub record PortAnswers : Type 0 where
  pub descriptor : Option ℕ
  pub option_ok : Bool
  pub nonblock_ok : Bool
  pub bind_ok : Bool
  pub listen_ok : Bool

abbrev pub all_ok : PortAnswers → Bool
all_ok a = a.option_ok && a.nonblock_ok && a.bind_ok && a.listen_ok

-- m_ListenSocketList, the descriptor that is closed behind a failure, and the value returned.
pub record Opened : Type 0 where
  pub listen_socket_list : List ListeningSocket
  pub closed : Option ℕ
  pub succeeded : Bool

-- `atoi` is libc's, and `print_d n` is what its sprintf writes for "%d".
module _ (atoi : Bytes → ℤ) (print_d : ℕ → Bytes) (items : List ConfItem) where
  -- CSocekt::ReadConf
  unfoldable pub read_conf : Settings → Settings
  unfolding get_int_default
  read_conf s = record {
    worker_connections = get_int_default atoi items worker_connections_text s.worker_connections;
    listen_port_count = get_int_default atoi items listen_port_count_text s.listen_port_count;
    recy_connection_wait_time =
        get_int_default atoi items recy_wait_time_text s.recy_connection_wait_time;
  }

  -- iport of the port number `i`
  abbrev pub port_of : ℕ → ℤ
  port_of i = get_int_default atoi items (listen_port_text ++ print_d i) (pos 10000)

  -- What the loop of ngx_open_listening_sockets comes to, from the port `i` on, with `rounds` ports
  -- left: the sockets opened so far are `opened`.
  unfoldable pub ports_loop : (ℕ → PortAnswers) → ℕ → ℕ → List ListeningSocket → Opened
  ports_loop answers zero i opened = record {
    listen_socket_list = opened;
    closed = none;
    succeeded = ltb 0 (length opened);
  }
  ports_loop answers (suc rounds) i opened =
      let a = answers i in
      elim a.descriptor [
        | none ↦ record { listen_socket_list = opened; closed = none; succeeded = false }
        | some fd ↦
            let later =
              ports_loop answers rounds (i + 1)
                (opened ++ record { port = port_of i; fd = fd } ∷ []) in
            if all_ok a
            then later
            else record { listen_socket_list = opened; closed = some fd; succeeded = false }
      ]

  -- CSocekt::ngx_open_listening_sockets
  unfoldable pub open_listening_sockets : (ℕ → PortAnswers) → Settings → Opened
  unfolding ports_loop
  open_listening_sockets answers s = ports_loop answers (pos_part s.listen_port_count) 0 []

  -- CSocekt::Initialize on an object whose members are `s`
  unfoldable pub initialize : (ℕ → PortAnswers) → Settings → Settings × Opened
  unfolding read_conf open_listening_sockets
  initialize answers s = let t = read_conf s in (t, open_listening_sockets answers t)

  -- ngx_log_init: the file it opens, and ngx_log, by the descriptor that open() gives.
  unfoldable pub log_init : Option ℕ → Bytes × LogState
  unfolding get_string get_int_default
  log_init opened = (
    elim (get_string items log_text) [ none ↦ error_log_path | some name ↦ name ],
    record {
      log_level = get_int_default atoi items log_level_text (pos 6);
      fd = elim opened [ none ↦ pos stderr_fileno | some fd ↦ pos fd ];
    },
  )
