-- ===== src/Socket.antt =====
-- The class CSocekt of nginx/_include/ngx_c_socket.h: its connection objects, the lists that
-- hold them, and the connection pool of nginx/net/ngx_c_socket_conn.cxx. The critical sections
-- under m_connectionMutex and m_recyconnqueueMutex are single functions here.
pub mod Ownership
pub mod Sequence
pub mod Sweep
pub mod Untouched
pub mod Uses
pub mod Blank
use cnginx.Common.{
  ℕ, zero, suc, ◌+◌, ◌-◌, Bool, true, false, ◌||◌, not, ltb, ◌==◌, if◌then◌else◌, Option, none,
  some, List, [], ◌∷◌, ◌++◌, length, replicate,
}
use cnginx.Common.Int.{ℤ, pos, pos_part, neg_part}
use cnginx.Packet.{Message, data_bufsize}
use cnginx.Conn.{Conn, hd_init, in_head_info, unset, get_one_to_use, put_one_to_free, next_sequence}

-- The counters are ints that count list entries.
pub record Socket : Type 0 where
  pub conns : ℕ → Conn
  pub next_address : ℕ
  pub worker_connections : ℕ
  pub recy_connection_wait_time : ℤ
  pub connection_list : List ℕ
  pub freeconnection_list : List ℕ
  pub recyconnection_list : List ℕ
  pub total_connection_n : ℕ
  pub free_connection_n : ℕ
  pub totol_recyconnection_n : ℕ
  pub msg_send_queue : List Message
  pub send_msg_queue_count : ℕ
  pub sem_event_send_queue : ℕ

-- A store of objects, written at one address.
abbrev pub update {ℓ} : {A : Type ℓ} → (ℕ → A) → ℕ → A → ℕ → A
update f p a q = if q == p then a else f q

abbrev pub set_conn : ℕ → Conn → Socket → Socket
set_conn p c s = record s { conns = update s.conns p c }

-- Zeroed memory with the constructor ngx_connection_s() run on it.
abbrev pub new_conn : Conn
new_conn = record {
  fd = 0;
  listening = none;
  cur_sequence = 0;
  rhandler = unset;
  whandler = unset;
  events = 0;
  cur_stat = hd_init;
  data_head_info = replicate data_bufsize 0;
  precvbuf = in_head_info 0;
  irecvlen = 0;
  precv_mem = none;
  throw_send_count = pos 0;
  psend_mem = none;
  psendbuf = 0;
  isendlen = 0;
  in_recy_time = 0;
}

-- A new object at an address that none has, made ready for use.
allocate : Socket → Socket
allocate s = record s {
  conns = update s.conns s.next_address (get_one_to_use new_conn);
  next_address = suc s.next_address;
  connection_list = s.connection_list ++ s.next_address ∷ [];
}

-- The body of the loop of CSocekt::initconnection.
abbrev pub fill_one : Socket → Socket
unfolding allocate
fill_one s = record (allocate s) {
  freeconnection_list = s.freeconnection_list ++ s.next_address ∷ [];
}

-- `rounds` is what is left of m_worker_connections.
init_loop : ℕ → Socket → Socket
unfolding allocate
init_loop zero s = s
init_loop (suc rounds) s = init_loop rounds (fill_one s)

unfoldable pub initconnection : Socket → Socket
unfolding init_loop
initconnection s =
    let t = init_loop s.worker_connections s in
    record t {
      total_connection_n = length t.connection_list;
      free_connection_n = length t.connection_list;
    }

-- CSocekt::clearconnection: the list is emptied, and every object on it destroyed.
abbrev pub clearconnection : Socket → Socket
clearconnection s = record s { connection_list = [] }

get_from : List ℕ → Socket → ℕ → Socket × ℕ
unfolding allocate
get_from (p ∷ rest) s isock = (
  record s {
    conns = update s.conns p (record (get_one_to_use (s.conns p)) { fd = isock });
    freeconnection_list = rest;
    free_connection_n = s.free_connection_n - 1;
  },
  p,
)
get_from [] s isock = (
  record (allocate s) {
    conns = update s.conns s.next_address (record (get_one_to_use new_conn) { fd = isock });
    total_connection_n = s.total_connection_n + 1;
  },
  s.next_address,
)

-- CSocekt::ngx_get_connection. The address returned is never null.
unfoldable pub get_connection : Socket → ℕ → Socket × ℕ
unfolding get_from
get_connection s isock = get_from s.freeconnection_list s isock

-- CSocekt::ngx_free_connection
unfoldable pub free_connection : ℕ → Socket → Socket
free_connection p s = record s {
  conns = update s.conns p (put_one_to_free (s.conns p));
  freeconnection_list = s.freeconnection_list ++ p ∷ [];
  free_connection_n = s.free_connection_n + 1;
}

-- CSocekt::inRecyConnectQueue; `now` is time(NULL).
unfoldable pub in_recy_connect_queue : ℕ → ℕ → Socket → Socket
in_recy_connect_queue now p s = record s {
  conns = update s.conns p (record (s.conns p) {
    in_recy_time = now;
    cur_sequence = next_sequence (s.conns p).cur_sequence;
  });
  recyconnection_list = s.recyconnection_list ++ p ∷ [];
  totol_recyconnection_n = s.totol_recyconnection_n + 1;
}

-- The first entry that passes the test, and the list without it.
pub take_first : (ℕ → Bool) → List ℕ → Option (ℕ × List ℕ)
take_first test [] = none
take_first test (p ∷ ps) = elim (test p) [
  | true ↦ some (p, ps)
  | false ↦ elim (take_first test ps) [ none ↦ none | some (q, rest) ↦ some (q, p ∷ rest) ]
]

-- The test by which ServerRecyConnectionThread frees an entry, `continue` being its negation.
abbrev pub is_due : Socket → ℕ → Bool → ℕ → Bool
is_due s currtime stop p =
    let wait = s.recy_connection_wait_time in
    not (ltb (currtime + neg_part wait) ((s.conns p).in_recy_time + pos_part wait)) || stop

abbrev pub unlist : List ℕ → Socket → Socket
unlist rest s = record s {
  totol_recyconnection_n = s.totol_recyconnection_n - 1;
  recyconnection_list = rest;
}

-- The body behind the test: the entry leaves the list, and its object goes back to the pool.
unfoldable pub recycle : ℕ → List ℕ → Socket → Socket
unfolding free_connection
recycle p rest s = free_connection p (unlist rest s)

-- One pass of ServerRecyConnectionThread under m_recyconnqueueMutex: `goto lblRRTD` starts the
-- scan again after each entry that is freed. `stop` is g_stopEvent. The pass of lblRRTD2, which
-- frees all entries, is the one with `stop`.
unfoldable pub recy_pass : ℕ → ℕ → Bool → Socket → Socket
unfolding take_first recycle
recy_pass zero currtime stop s = s
recy_pass (suc fuel) currtime stop s =
    elim (take_first (is_due s currtime stop) s.recyconnection_list) [
      | none ↦ s
      | some (p, rest) ↦ recy_pass fuel currtime stop (recycle p rest s)
    ]

-- The passes need one round for each entry.
abbrev pub recy_connections : ℕ → Bool → Socket → Socket
recy_connections currtime stop s =
    if ltb 0 s.totol_recyconnection_n
    then recy_pass (length s.recyconnection_list) currtime stop s
    else s
