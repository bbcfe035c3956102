-- ===== src/Tests/Worker.antt =====
-- A worker with one listening socket: a client comes, and speaks.
use mathlib.Core.List.{Mem, Nodup, Nodup-cons, not-mem-nil, mem-cons, Nodup-nil, mem-map_of_mem}
use mathlib.Core.Logic.Or
use mathlib.Core.HLevel.{⊥_prop}
use cnginx.Common.{ℕ, ◌≡◌, ◌<◌, inl, refl, arith, true, none, some, List, [], ◌∷◌, replicate}
use cnginx.Common.Memory.{Bytes}
use native.Mathlib.Bridge.{le_prop}
use mathlib.Core.List.Perm
use cnginx.Common.Int.{pos, negsuc}
use cnginx.Sys.{got, closed as peer_closed, eagain}
use cnginx.Conn.{Conn, get_one_to_use, ngx_read_request_handler, ngx_write_request_handler}
use cnginx.Send.{bytes, closed, broken, outgoing}
use cnginx.Socket.{Socket, new_conn}
use cnginx.Events.{declined, Event, Worker, handle_event, process_events}
use cnginx.Events.Wired.{Serves}
use cnginx.Events.Single.{Reported}
use cnginx.Events.Loss.{writable, handle_event-after_loss}
use cnginx.Events.Batch.{process_events-Serves}
use cnginx.Tests.{empty_pool, login, login_packet}

abbrev pub zeros : ℕ → Bytes
zeros n = replicate n 0

-- Two clients, which are watched for EPOLLIN and EPOLLOUT.
abbrev busy : Conn
busy = record (get_one_to_use new_conn) {
  rhandler = ngx_read_request_handler;
  whandler = ngx_write_request_handler;
  events = 5;
  psend_mem = some login;
  isendlen = 8;
}

abbrev pub clients : Socket
clients = record empty_pool {
  conns = λ p. busy;
  next_address = 2;
  connection_list = 0 ∷ 1 ∷ [];
  total_connection_n = 2;
}

abbrev pub two : List ℕ
two = 0 ∷ 1 ∷ []

not-mem-one : ¬ Mem {A = ℕ} 0 (1 ∷ [])
not-mem-one m = Or.elim ⊥_prop (mem-cons.0 m) (λ e. absurd (omega (arith, e))) (λ k. not-mem-nil k)

two-Nodup : Nodup two
two-Nodup = Nodup-cons.1 (not-mem-one, Nodup-cons.1 ((λ m. not-mem-nil m), Nodup-nil))

below_two : (p : ℕ) → Mem p two → p < 2
below_two p m =
    Or.elim le_prop (mem-cons.0 m) (λ e. omega arith)
      (λ k. Or.elim le_prop (mem-cons.0 k) (λ e. omega arith) (λ l. absurd (not-mem-nil l)))

pub clients-Serves : Serves clients two
clients-Serves = record {
  owned = record {
    shared = Perm.refl two;
    distinct = two-Nodup;
    fresh = below_two;
    total = refl;
    free = refl;
    recycling = refl;
  };
  wired = λ q m. inl (refl, refl);
}

abbrev worker : Worker
worker = record { sock = clients; use_accept4 = true; queued = [] }

-- The first client sends a packet and takes the eight bytes of its own; the second goes.
abbrev pub speaks : Event
speaks = record {
  conn = 0;
  revents = 5;
  received = got login_packet;
  first_answer = declined eagain;
  second_answer = declined eagain;
  sent = bytes 8;
  nonblock_ok = true;
  ctl_ok = true;
  post_ok = true;
  now = 100;
}

abbrev leaves : Event
leaves = record speaks { conn = 1; revents = 1; received = peer_closed }

abbrev batch : List Event
batch = speaks ∷ leaves ∷ []

in_order : (e : Event) → Mem e batch → Mem e.conn two × Reported clients e
in_order e m = (mem-map_of_mem (λ (f : Event). f.conn) m, λ r. refl)

process_events-Serves_example :
    (v : Worker) × (used' : List ℕ) × (process_events zeros batch worker ≡ some v)
    × Serves v.sock used'
    × ((q : ℕ) → Mem q two → ¬ Mem q two → Mem q used' × (v.sock.conns q ≡ clients.conns q))
process_events-Serves_example =
    process_events-Serves zeros worker two batch clients-Serves two-Nodup in_order

-- A packet is under way to the first client.
abbrev one_part : Worker
one_part = record worker {
  sock = record clients { conns = λ p. record busy { throw_send_count = pos 1 } };
}

handle_event-after_loss_example :
    (u : Worker) × (v : Worker) × Reported one_part.sock (writable 0 closed speaks)
    × (handle_event zeros (writable 0 closed speaks) one_part ≡ some u)
    × (outgoing (u.sock.conns 0) ≡ none)
    × Reported u.sock (writable 0 broken speaks)
    × (handle_event zeros (writable 0 broken speaks) u ≡ some v)
    × ((v.sock.conns 0).throw_send_count ≡ negsuc 0)
handle_event-after_loss_example =
    handle_event-after_loss zeros 0 one_part login speaks speaks closed broken refl refl refl refl
      tt tt
