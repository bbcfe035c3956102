-- ===== src/Tests/Run.antt =====
-- A worker with two clients: one of them speaks, a pool thread takes the job and handles it.
use mathlib.Core.List.{Mem}
use cnginx.Common.{ℕ, ◌≡◌, refl, arith, true, none, some, List, [], ◌∷◌, length}
use cnginx.Sys.{RecvResult, got, closed, failed}
use cnginx.Conn.{Conn, get_one_to_use, ngx_read_request_handler, ngx_write_request_handler}
use cnginx.Events.{Event, Worker, epoll_init}
use cnginx.Events.Listening.{Accepts}
use cnginx.Socket.{Socket, new_conn}
use cnginx.Socket.Blank.{AllBlank}
use cnginx.Reader.{read_request_handler}
use cnginx.System.{System}
use cnginx.System.Framed.{Framed}
use cnginx.System.Isolation.{AtStart}
use cnginx.System.Starting.{begin, epoll_init-AtStart}
use cnginx.Tests.{empty_pool, login, login_packet}
use cnginx.Tests.Pool.{empty_pool-IsEmpty}
use cnginx.Tests.Worker.{clients, zeros, speaks}

abbrev quiet : Conn
quiet = record (get_one_to_use new_conn) {
  rhandler = ngx_read_request_handler;
  whandler = ngx_write_request_handler;
  events = 0x2001;
}

abbrev pair : Socket
pair = record clients { conns = λ p. quiet }

abbrev start : System
start = begin pair

abbrev request : Event
request = record speaks { revents = 1 }

abbrev one_read : Worker
one_read = record {
  sock = (read_request_handler zeros 100 0 (got login_packet) pair).sock;
  use_accept4 = true;
  queued = some login ∷ [];
}

size_of : RecvResult → ℕ
size_of (got bs) = length bs
size_of closed = 0
size_of (failed e) = 0

abbrev taken : System
taken = record { worker = record one_read { queued = [] }; in_hand = login ∷ []; sending = none }

-- A reply for the first client is on the send queue.
abbrev answering : System
answering = record start {
  worker = record start.worker {
    sock = record pair { msg_send_queue = login ∷ []; send_msg_queue_count = 1 };
  };
}

empty_pool-AllBlank : AllBlank empty_pool
empty_pool-AllBlank = record {
  conns = λ p. record { word = omega arith; size = refl; no_reading = refl; no_sending = refl };
  no_replies = refl;
}

epoll_init-AtStart_example :
    (t : Socket) × (used : List ℕ) × (epoll_init (5 ∷ []) true empty_pool ≡ some (t, used))
    × AtStart (begin t)
    × Framed (begin t).worker
    × ((q : ℕ) → Mem q used → Accepts (t.conns q))
    × (length used ≡ length {A = ℕ} (5 ∷ []))
epoll_init-AtStart_example =
    epoll_init-AtStart (5 ∷ []) empty_pool empty_pool-IsEmpty empty_pool-AllBlank
