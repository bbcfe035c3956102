-- ===== src/System.antt =====
-- A worker process as its threads work on it together: the event loop of
-- nginx/net/ngx_c_socket.cxx, the pool threads that call CLogicSocket::threadRecvProcFunc of
-- nginx/logic/ngx_c_slogic.cxx, and the two helper threads of CSocekt. A step is one event, one
-- job taken from the queue or handled, one entry of the send queue looked at, one message sent, or
-- one entry of the recycling list freed; the threads take their steps in any order.
pub mod Cases
pub mod Turning
pub mod Stamps
pub mod Origins
pub mod Serving
pub mod Isolation
pub mod Each
pub mod Framing
pub mod Framed
pub mod Safety
pub mod Overtaken
pub mod Starting
pub mod Stamping
pub mod Evolving
pub mod Handling
use cnginx.Common.{
  ℕ, zero, suc, ◌+◌, ◌-◌, ◌≤◌, ◌<◌, ◌≡◌, Bool, true, false, Option, none, some, List, [], ◌∷◌, ◌++◌,
  length,
}
use cnginx.Common.Memory.{Bytes}
use cnginx.Common.Int.{is_positive}
use cnginx.Sys.{got}
use cnginx.Packet.{Message}
use cnginx.Socket.{Socket, set_conn, take_first, is_due, recycle}
use cnginx.Socket.Uses.{InUse}
use cnginx.Send.{Sent, transmit, is_stale}
use cnginx.Logic.{thread_recv_proc}
use cnginx.Events.{Event, Worker, handle_event}
use cnginx.Events.Single.{Reported}

-- The worker, the jobs that pool threads have taken and not yet handled, and the message that the
-- thread of the send queue has decided to send.
pub record System : Type 0 where
  pub worker : Worker
  pub in_hand : List Message
  pub sending : Option Message

-- The tests in the loop of ServerSendQueueThread for the entry `m`, where `rest` is the queue
-- without it: the socket, and the message that the thread goes on to send.
unfoldable pub visit : Message → List Message → Socket → Socket × Option Message
visit m rest s =
    let shorter = record s {
      msg_send_queue = rest;
      send_msg_queue_count = s.send_msg_queue_count - 1;
    } in
    elim (is_stale m s) [
      | true ↦ (shorter, none)
      | false ↦ elim (is_positive (s.conns m.conn).throw_send_count) [
        | true ↦ (s, none)
        | false ↦ (shorter, some m)
      ]
    ]

-- What follows the tests, where `answer` is the value of sendproc. The other threads may have made
-- steps since the tests, and the connection is taken as it is now.
unfoldable pub send_on : Bool → Sent → Message → Socket → Socket
unfolding transmit
send_on ctl_ok answer m s = set_conn m.conn (transmit ctl_ok (s.conns m.conn) m answer) s

-- What epoll_wait and recv() may report: an event of an object in use, EPOLLOUT only where it is
-- watched for it, and no more bytes than were asked for.
pub record Possible (e : Event) (s : Socket) : Type 0 where
  pub in_use : InUse e.conn s
  pub reported : Reported s e
  pub bounded : (bs : Bytes) → e.received ≡ got bs → length bs ≤ (s.conns e.conn).irecvlen

abbrev pub with_sock : Socket → System → System
with_sock t s = record s { worker = record s.worker { sock = t } }

-- `new_char n` is what a fresh block of n bytes holds.
pub data Step (new_char : ℕ → Bytes) (s : System) : System → Type 0 where
  event :
      (e : Event) (w : Worker)
      → Possible e s.worker.sock
      → handle_event new_char e s.worker ≡ some w
      → Step new_char s (record s { worker = w })
  takes :
      (m : Message) (rest : List (Option Message))
      → s.worker.queued ≡ some m ∷ rest
      → Step new_char s
          (record s { worker = record s.worker { queued = rest }; in_hand = s.in_hand ++ m ∷ [] })
  handles :
      (junk : Bytes) (post_ok : Bool) (m : Message) (xs ys : List Message)
      → s.in_hand ≡ xs ++ m ∷ ys
      → Step new_char s (record (with_sock (thread_recv_proc junk post_ok m s.worker.sock).sock s) {
        in_hand = xs ++ ys;
      })
  visits :
      (m : Message) (xs ys : List Message)
      → s.sending ≡ none
      → s.worker.sock.msg_send_queue ≡ xs ++ m ∷ ys
      → Step new_char s (record (with_sock (visit m (xs ++ ys) s.worker.sock).0 s) {
        sending = (visit m (xs ++ ys) s.worker.sock).1;
      })
  sends :
      (ctl_ok : Bool) (answer : Sent) (m : Message)
      → s.sending ≡ some m
      → Step new_char s
          (record (with_sock (send_on ctl_ok answer m s.worker.sock) s) { sending = none })
  recycles :
      (currtime : ℕ) (stop : Bool) (p : ℕ) (rest : List ℕ)
      → take_first (is_due s.worker.sock currtime stop) s.worker.sock.recyconnection_list
        ≡ some (p, rest)
      → Step new_char s (with_sock (recycle p rest s.worker.sock) s)

-- The states that a worker comes to in `n` steps.
pub data Steps (new_char : ℕ → Bytes) (s : System) : System → ℕ → Type 0 where
  here : Steps new_char s s 0
  later :
      {t u : System} {n : ℕ} → Steps new_char s t n → Step new_char t u → Steps new_char s u (suc n)
