-- ===== src/System/Turning.antt =====
-- How many times a connection object can change its use in one step of a worker
-- (nginx/net/ngx_c_socket.cxx, nginx/net/ngx_c_socket_conn.cxx): accepting and closing again makes
-- two.
use cnginx.Common.{ℕ, ◌*◌, ◌≡◌, refl, sym, ap, ◌∙◌, arith, List, ◌∷◌, ◌++◌, Bool, true, false, some}
use cnginx.Common.Memory.{Bytes}
use cnginx.Packet.{Message}
use cnginx.Conn.{Conn}
use cnginx.Epoll.{epoll_oper_event}
use cnginx.Recv.{read_bytes}
use cnginx.Recv.Kept.{read_bytes-rhandler, read_bytes-whandler}
use cnginx.Recv.Refine.{read_bytes-cur_sequence}
use cnginx.Send.{transmit, write_request_handler, msg_send}
use cnginx.Send.Kept.{Apart, apart, transmit-apart, write_request_handler-apart}
use cnginx.Socket.{Socket, set_conn, get_connection}
use cnginx.Socket.Sweep.{take_first-Found}
use cnginx.Events.{
  Event, Worker, handle_in, handle_out, handle_event, register, client, establish, post,
}
use cnginx.Logic.Sends.{thread_recv_proc_cases}
use cnginx.System.{
  System, Step, Steps, event, takes, handles, visits, sends, recycles, here, later, send_on,
}
use cnginx.System.Cases.{visit_cases}
use cnginx.System.Evolving.{
  Evolves, IsWord, Evolves-trans, Evolves-mono, set_conn-Evolves, get_connection-Evolves,
  free_connection-Evolves, in_recy-Evolves, recycle-Evolves, stays-Turns,
}
use cnginx.System.Handling.{handle_in_cases, handle_out_cases, handle_event_halves, establish_cases}

-- The send queue and the semaphore have no part in it.
abbrev pub with_sends : List Message → ℕ → ℕ → Socket → Socket
with_sends queue count sem s = record s {
  msg_send_queue = queue;
  send_msg_queue_count = count;
  sem_event_send_queue = sem;
}

with_sends-Evolves :
    {n : ℕ} {s t : Socket} (queue : List Message) (count sem : ℕ)
    → Evolves n s t
    → Evolves n s (with_sends queue count sem t)
with_sends-Evolves queue count sem v = record {
  grows = v.grows;
  word = v.word;
  accepting = v.accepting;
  turns = λ p l.
      let w = v.turns p l in
      record {
        ups = w.ups;
        few = w.few;
        number = w.number;
        stays = λ e c.
            let d = w.stays e c in
            record {
              in_use = record {
                known = d.in_use.known;
                not_free = d.in_use.not_free;
                not_recycling = d.in_use.not_recycling;
              };
              wired = d.wired;
            };
      };
}

module _ (s : Socket) (word : IsWord s) where
  same-Evolves : Evolves 0 s s
  same-Evolves = record {
    grows = omega arith;
    word = word;
    turns = λ p l. stays-Turns 0 p s s (word p) refl (λ c. c);
    accepting = λ p l a. a;
  }

  -- An object is replaced by one that differs only in what belongs to sending.
  apart-Evolves : (p : ℕ) (c : Conn) → apart c ≡ apart (s.conns p) → Evolves 0 s (set_conn p c s)
  apart-Evolves p c e =
      set_conn-Evolves s word p c (ap (λ (a : Apart). a.cur_sequence) e)
        (λ k. (ap (λ (a : Apart). a.rhandler) e ∙ k.0, ap (λ (a : Apart). a.whandler) e ∙ k.1))
        (λ r. sym (ap (λ (a : Apart). a.rhandler) e) ∙ r)

  read-Evolves :
      (new_char : ℕ → Bytes) (p : ℕ) (bs : Bytes)
      → Evolves 0 s (set_conn p (read_bytes new_char p (s.conns p) bs).conn s)
  read-Evolves new_char p bs =
      set_conn-Evolves s word p _ (read_bytes-cur_sequence new_char p (s.conns p) bs)
        (λ k. (
          read_bytes-rhandler new_char p (s.conns p) bs ∙ k.0,
          read_bytes-whandler new_char p (s.conns p) bs ∙ k.1,
        ))
        (λ r. sym (read_bytes-rhandler new_char p (s.conns p) bs) ∙ r)

  establish-Evolves :
      (nonblock_ok ctl_ok use_accept4 : Bool) (p isock : ℕ)
      → Evolves 2 s (establish nonblock_ok ctl_ok use_accept4 p isock s)
  unfolding epoll_oper_event
  establish-Evolves nonblock_ok ctl_ok use_accept4 p isock =
      let (t, new) = get_connection s isock in
      let first = get_connection-Evolves s word isock in
      let c = (register ctl_ok (client (s.conns p).listening (t.conns new))).0 in
      let second : Evolves 1 s (set_conn new c t) =
        Evolves-trans first
          (set_conn-Evolves t first.word new c refl (λ k. (refl, refl)) (λ r. cc)) in
      establish_cases (λ u. Evolves 2 s u) s nonblock_ok ctl_ok use_accept4 p isock
        (Evolves-trans first (free_connection-Evolves t first.word new))
        (Evolves-trans second (free_connection-Evolves (set_conn new c t) second.word new))
        (Evolves-mono (omega arith) second)

module _ (new_char : ℕ → Bytes) where
  handle_in-Evolves :
      (e : Event) (w v : Worker)
      → IsWord w.sock
      → handle_in new_char e w ≡ some v
      → Evolves 2 w.sock v.sock
  handle_in-Evolves e w v word r =
      handle_in_cases (λ u. Evolves 2 w.sock u.sock) e new_char w v
        (Evolves-mono (omega arith) (same-Evolves w.sock word))
        (Evolves-mono (omega arith) (in_recy-Evolves w.sock word e.now e.conn))
        (λ b bs reads got_some.
          Evolves-mono (omega arith) (read-Evolves w.sock word new_char e.conn (b ∷ bs)))
        (λ use_accept4. Evolves-mono (omega arith) (same-Evolves w.sock word))
        (λ isock use_accept4.
          establish-Evolves w.sock word e.nonblock_ok e.ctl_ok use_accept4 e.conn isock)
        r

  handle_out-Evolves :
      (e : Event) (w v : Worker) → IsWord w.sock → handle_out e w ≡ some v → Evolves 0 w.sock v.sock
  handle_out-Evolves e w v word r =
      handle_out_cases (λ u. Evolves 0 w.sock u.sock) e w v (same-Evolves w.sock word)
        (apart-Evolves w.sock word e.conn _ refl) (λ writes posted. posted-Evolves posted) r
    where
      d : Conn
      d = (write_request_handler e.ctl_ok (w.sock.conns e.conn) e.sent).0

      kept : Evolves 0 w.sock (set_conn e.conn d w.sock)
      kept =
          apart-Evolves w.sock word e.conn _
            (write_request_handler-apart e.ctl_ok (w.sock.conns e.conn) e.sent)

      posted-Evolves : (posted : Bool) → Evolves 0 w.sock (post posted (set_conn e.conn d w.sock))
      posted-Evolves true = with_sends-Evolves _ _ _ kept
      posted-Evolves false = kept

  handle_event-Evolves :
      (e : Event) (w v : Worker)
      → IsWord w.sock
      → handle_event new_char e w ≡ some v
      → Evolves 2 w.sock v.sock
  handle_event-Evolves e w v word r =
      handle_event_halves (λ u. Evolves 2 w.sock u.sock) e new_char w v r
        (λ u first second.
          let a = handle_in-Evolves e w u word first in
          Evolves-trans a (handle_out-Evolves e u v a.word second))

  -- Each step makes an object change its use twice at most.
  pub Step-Evolves :
      {s t : System}
      → IsWord s.worker.sock
      → Step new_char s t
      → Evolves 2 s.worker.sock t.worker.sock
  Step-Evolves {s} word (event e w possible r) = handle_event-Evolves e s.worker w word r
  Step-Evolves {s} word (takes m rest r) =
      Evolves-mono (omega arith) (same-Evolves s.worker.sock word)
  Step-Evolves {s} word (handles junk post_ok m xs ys r) =
      thread_recv_proc_cases junk post_ok m s.worker.sock (Evolves 2 s.worker.sock) still
        (unfold msg_send in with_sends-Evolves _ _ _ still)
    where
      still : Evolves 2 s.worker.sock s.worker.sock
      still = Evolves-mono (omega arith) (same-Evolves s.worker.sock word)
  Step-Evolves {s} word (visits m xs ys idle r) =
      visit_cases (λ t hand. Evolves 2 s.worker.sock t) m (xs ++ ys) s.worker.sock
        (λ stale. with_sends-Evolves _ _ _ still) still (λ fresh. with_sends-Evolves _ _ _ still)
    where
      still : Evolves 2 s.worker.sock s.worker.sock
      still = Evolves-mono (omega arith) (same-Evolves s.worker.sock word)
  Step-Evolves {s} word (sends ctl_ok answer m r) =
      let c = s.worker.sock.conns m.conn in
      unfold send_on in
      Evolves-mono (omega arith) (
        apart-Evolves s.worker.sock word m.conn (transmit ctl_ok c m answer)
          (transmit-apart ctl_ok c m answer))
  Step-Evolves {s} word (recycles currtime stop p rest r) =
      Evolves-mono (omega arith)
        (recycle-Evolves s.worker.sock word p rest (take_first-Found _ _ r))

  pub Steps-Evolves :
      {s t : System} {n : ℕ}
      → IsWord s.worker.sock
      → Steps new_char s t n
      → Evolves (2 * n) s.worker.sock t.worker.sock
  Steps-Evolves {s} word here = same-Evolves s.worker.sock word
  Steps-Evolves word (later r st) =
      let v = Steps-Evolves word r in
      Evolves-mono (omega arith) (Evolves-trans v (Step-Evolves v.word st))
