-- ===== src/System/Stamping.antt =====
-- What a step of a worker does to the stamps of the messages (nginx/net/ngx_c_socket.cxx,
-- nginx/net/ngx_c_socket_request.cxx, nginx/logic/ngx_c_slogic.cxx): only a read makes new ones.
use cnginx.Common.{ℕ, ◌≡◌, sym, subst, [], ◌∷◌, ◌++◌, Bool, true, false, some, All, All-append}
use cnginx.Common.Memory.{Bytes}
use cnginx.Sys.{got}
use cnginx.Packet.{Message}
use cnginx.Conn.{Conn, ngx_read_request_handler}
use cnginx.Epoll.{epoll_oper_event}
use cnginx.Recv.{read_bytes}
use cnginx.Recv.Memory.{read_bytes-Carries}
use cnginx.Send.{write_request_handler, msg_send}
use cnginx.Socket.{set_conn, get_connection}
use cnginx.Socket.Sequence.{sequence_of}
use cnginx.Socket.Uses.{InUse}
use cnginx.Logic.{register_reply}
use cnginx.Logic.Sends.{thread_recv_proc_cases}
use cnginx.Events.{
  Event, Worker, handle_in, handle_out, handle_event, post, register, client, establish,
}
use cnginx.System.{System, Step, event, takes, handles, visits, sends, recycles, send_on}
use cnginx.System.Cases.{visit_cases, shorten}
use cnginx.System.Handling.{handle_in_cases, handle_out_cases, handle_event_halves, establish_cases}
use cnginx.System.Stamps.{
  Stamp, MaybeStamp, Holds, Stamped, set_conn-Holds, free-Holds, recycle-Holds, in_recy-Holds,
  get_connection-Holds, write-Buffers, transmit-Buffers, All-middle,
}

-- What recv() gives of a connection is stamped with its number at the time.
abbrev pub Reads : (ℕ → Bytes) → (ℕ → ℕ → Type 0) → System → System → Type 0
Reads new_char P s t =
    (e : Event) (bs : Bytes)
    → InUse e.conn s.worker.sock
    → (s.worker.sock.conns e.conn).rhandler ≡ ngx_read_request_handler
    → e.received ≡ got bs
    → handle_event new_char e s.worker ≡ some t.worker
    → P e.conn (sequence_of e.conn s.worker.sock)

module _ (P : ℕ → ℕ → Type 0) where
  reading-Holds :
      (new_char : ℕ → Bytes) (p : ℕ) (bs : Bytes) (w : Worker)
      → Holds P w
      → P p (sequence_of p w.sock)
      → let r = read_bytes new_char p (w.sock.conns p) bs in
        Holds P (record w { sock = set_conn p r.conn w.sock; queued = w.queued ++ r.queued })
  reading-Holds new_char p bs w v h =
      let c = w.sock.conns p in
      let r = read_bytes new_char p c bs in
      let k =
        read_bytes-Carries (Stamp P) (λ m pkg i. i) new_char p c bs (λ pkg. h)
          (v.buffers p).reading in
      let u = set_conn-Holds P p r.conn w v (record {
        reading = k.reading;
        sending = subst (MaybeStamp P) (sym k.sending) (v.buffers p).sending;
      }) in
      record {
        jobs = All-append (MaybeStamp P) w.queued r.queued v.jobs k.queued;
        replies = u.replies;
        buffers = u.buffers;
      }

  establish-Holds :
      (nonblock_ok ctl_ok use_accept4 : Bool) (p isock : ℕ) (w : Worker)
      → Holds P w
      → Holds P (record w { sock = establish nonblock_ok ctl_ok use_accept4 p isock w.sock })
  unfolding epoll_oper_event
  establish-Holds nonblock_ok ctl_ok use_accept4 p isock w v =
      let (t, new) = get_connection w.sock isock in
      let first = get_connection-Holds P isock w v in
      let c = (register ctl_ok (client (w.sock.conns p).listening (t.conns new))).0 in
      let second =
        set_conn-Holds P new c (record w { sock = t }) first
          (record {
            reading = (first.buffers new).reading;
            sending = (first.buffers new).sending;
          }) in
      establish_cases (λ u. Holds P (record w { sock = u })) w.sock nonblock_ok ctl_ok use_accept4 p
        isock (free-Holds P new (record w { sock = t }) first)
        (free-Holds P new (record w { sock = set_conn new c t }) second) second

  -- The reply carries the stamp of the request.
  reply-Holds :
      (junk : Bytes) (post_ok : Bool) (m : Message) (w : Worker)
      → Holds P w
      → Stamp P m
      → Holds P (record w { sock = msg_send (register_reply m junk) post_ok w.sock })
  unfolding msg_send register_reply
  reply-Holds junk post_ok m w v h = record {
    jobs = v.jobs;
    replies = All-append (Stamp P) w.sock.msg_send_queue _ v.replies (h, tt);
    buffers = v.buffers;
  }

  module _ (new_char : ℕ → Bytes) (e : Event) where
    handle_in-Holds :
        (w v : Worker)
        → ((bs : Bytes)
            → (w.sock.conns e.conn).rhandler ≡ ngx_read_request_handler
            → e.received ≡ got bs
            → P e.conn (sequence_of e.conn w.sock))
        → Holds P w
        → handle_in new_char e w ≡ some v
        → Holds P v
    handle_in-Holds w v h k r =
        handle_in_cases (Holds P) e new_char w v k (in_recy-Holds P e.now e.conn w k)
          (λ b bs reads got_some.
            reading-Holds new_char e.conn (b ∷ bs) w k (h (b ∷ bs) reads got_some))
          (λ use_accept4. record { jobs = k.jobs; replies = k.replies; buffers = k.buffers })
          (λ isock use_accept4.
            let u = establish-Holds e.nonblock_ok e.ctl_ok use_accept4 e.conn isock w k in
            record { jobs = u.jobs; replies = u.replies; buffers = u.buffers })
          r

    handle_out-Holds : (w v : Worker) → Holds P w → handle_out e w ≡ some v → Holds P v
    handle_out-Holds w v k r =
        handle_out_cases (Holds P) e w v k
          (set_conn-Holds P e.conn _ w k
            (record { reading = (k.buffers e.conn).reading; sending = (k.buffers e.conn).sending }))
          (λ writes posted. posts posted) r
      where
        d : Conn
        d = (write_request_handler e.ctl_ok (w.sock.conns e.conn) e.sent).0

        written : Holds P (record w { sock = set_conn e.conn d w.sock })
        written =
            set_conn-Holds P e.conn d w k
              (write-Buffers P e.ctl_ok (w.sock.conns e.conn) e.sent (k.buffers e.conn))

        posts :
            (posted : Bool) → Holds P (record w { sock = post posted (set_conn e.conn d w.sock) })
        posts true = record {
          jobs = written.jobs;
          replies = written.replies;
          buffers = written.buffers;
        }
        posts false = written

  -- What holds of all stamps, and of a connection that is read, holds of all stamps after a step.
  pub Step-Stamped :
      (new_char : ℕ → Bytes) {s t : System}
      → Reads new_char P s t
      → Stamped P s
      → Step new_char s t
      → Stamped P t
  Step-Stamped new_char {s} h v (event e w possible r) = record {
    held = handle_event_halves (Holds P) e new_char s.worker w r (λ u first second.
        handle_out-Holds new_char e u w
          (handle_in-Holds new_char e s.worker u (λ bs reads k. h e bs possible.in_use reads k r)
            v.held first)
          second);
    in_hand = v.in_hand;
    sending = v.sending;
  }
  Step-Stamped new_char {s} h v (takes m rest r) =
      let (mine, others) = subst (All (MaybeStamp P)) r v.held.jobs in
      record {
        held = record { jobs = others; replies = v.held.replies; buffers = v.held.buffers };
        in_hand = All-append (Stamp P) s.in_hand (m ∷ []) v.in_hand (mine, tt);
        sending = v.sending;
      }
  Step-Stamped new_char {s} h v (handles junk post_ok m xs ys r) =
      let (mine, others) = All-middle P xs ys m (subst (All (Stamp P)) r v.in_hand) in
      record {
        held =
            thread_recv_proc_cases junk post_ok m s.worker.sock
              (λ t. Holds P (record s.worker { sock = t })) v.held
              (reply-Holds junk post_ok m s.worker v.held mine);
        in_hand = others;
        sending = v.sending;
      }
  Step-Stamped new_char {s} h v (visits m xs ys idle r) =
      let (mine, others) = All-middle P xs ys m (subst (All (Stamp P)) r v.held.replies) in
      let shorter : Holds P (record s.worker { sock = shorten (xs ++ ys) s.worker.sock }) = record {
        jobs = v.held.jobs;
        replies = others;
        buffers = v.held.buffers;
      } in
      let (held, sending) =
        visit_cases (λ t hand. Holds P (record s.worker { sock = t }) × MaybeStamp P hand) m
          (xs ++ ys) s.worker.sock (λ stale. (shorter, tt)) (v.held, tt)
          (λ fresh. (shorter, mine)) in
      record { held = held; in_hand = v.in_hand; sending = sending }
  Step-Stamped new_char {s} h v (sends ctl_ok answer m r) = record {
    held =
        unfold send_on in
        set_conn-Holds P m.conn _ s.worker v.held (
          transmit-Buffers P ctl_ok (s.worker.sock.conns m.conn) m answer
            (subst (MaybeStamp P) r v.sending) (v.held.buffers m.conn));
    in_hand = v.in_hand;
    sending = tt;
  }
  Step-Stamped new_char {s} h v (recycles currtime stop p rest r) = record {
    held = recycle-Holds P p rest s.worker v.held;
    in_hand = v.in_hand;
    sending = v.sending;
  }
