-- ===== src/System/Framed.antt =====
-- Each step of a worker keeps its connections and queues in order
-- (nginx/net/ngx_c_socket.cxx, nginx/net/ngx_c_socket_request.cxx).
use cnginx.Common.{
  ℕ, ◌≤◌, ◌≡◌, inl, inr, refl, sym, ap, ◌∙◌, subst, arith, List, ◌∷◌, Bool, true, false, ℕ_discrete,
  All, All-append, some, Option, length,
}
use cnginx.Common.Memory.{Bytes}
use cnginx.Sys.{got}
use cnginx.Packet.{Message, data_bufsize}
use cnginx.Conn.{Conn, get_one_to_use, put_one_to_free}
use cnginx.Epoll.{epoll_oper_event}
use cnginx.Recv.{read_bytes}
use cnginx.Recv.Refine.{Ready}
use cnginx.Send.{write_request_handler}
use cnginx.Send.Kept.{Apart, write_request_handler-apart}
use cnginx.Socket.{
  Socket, set_conn, get_connection, free_connection, in_recy_connect_queue, recycle,
}
use cnginx.Socket.Sweep.{Found}
use cnginx.Socket.Untouched.{update_elim, get_connection-others}
use cnginx.Socket.Uses.{InUse, get_connection-Taken}
use cnginx.Events.{
  Event, Worker, handle_in, handle_out, handle_event, post, register, client, establish,
}
use cnginx.System.Each.{Each, set_conn-Each, in_recy-Each, recycle-Each, establish-Each}
use cnginx.System.Framing.{
  Proper, IsJob, write-Proper, read-Proper, registered-Proper, lowered-Proper,
}
use cnginx.System.Turning.{with_sends}
use cnginx.Recv.Kept.{read_bytes-rhandler}
use cnginx.System.Handling.{handle_in_cases, handle_out_cases, handle_event_halves, establish_cases}

abbrev pub HasSize : Conn → Type 0
HasSize c = length c.data_head_info ≡ data_bufsize

-- The buffers are there, the objects in use are in order, and each job is a whole packet.
pub record Framed (w : Worker) : Type 0 where
  pub sized : (p : ℕ) → HasSize (w.sock.conns p)
  pub proper : Each Proper w.sock
  pub jobs : All IsJob w.queued

pub set_conn-Framed :
    (p : ℕ) (c : Conn) (w : Worker)
    → Framed w
    → HasSize c
    → (Proper p (w.sock.conns p) → Proper p c)
    → Framed (record w { sock = set_conn p c w.sock })
set_conn-Framed p c w v size k = record {
  sized = λ q. update_elim HasSize w.sock.conns p c q (λ e. size) (λ n. v.sized q);
  proper = set_conn-Each Proper p c w.sock v.proper (λ i. k (v.proper p i));
  jobs = v.jobs;
}

in_recy-Framed :
    (now p : ℕ) (w : Worker)
    → Framed w
    → Framed (record w { sock = in_recy_connect_queue now p w.sock })
unfolding in_recy_connect_queue
in_recy-Framed now p w v = record {
  sized = λ q. update_elim HasSize w.sock.conns p _ q (λ e. v.sized p) (λ n. v.sized q);
  proper = in_recy-Each Proper now p w.sock v.proper;
  jobs = v.jobs;
}

pub recycle-Framed :
    {test : ℕ → Bool} (p : ℕ) (rest : List ℕ) (w : Worker)
    → Found test w.sock.recyconnection_list p rest
    → Framed w
    → Framed (record w { sock = recycle p rest w.sock })
unfolding recycle free_connection put_one_to_free
recycle-Framed p rest w f v = record {
  sized = λ q. update_elim HasSize w.sock.conns p _ q (λ e. v.sized p) (λ n. v.sized q);
  proper = recycle-Each Proper p rest w.sock f v.proper;
  jobs = v.jobs;
}

module _ (s : Socket) (sized : (p : ℕ) → HasSize (s.conns p)) (isock : ℕ) where
  origin-HasSize : HasSize (get_connection-Taken s isock).origin
  origin-HasSize =
      let (t, new) = get_connection s isock in
      elim (get_connection-Taken s isock).old_or_new [
        | inl e ↦ subst HasSize (sym e) refl
        | inr (e, m) ↦ subst HasSize (sym e) (sized new)
      ]

  get_connection-HasSize : (q : ℕ) → HasSize ((get_connection s isock).0.conns q)
  unfolding get_one_to_use
  get_connection-HasSize q =
      let (t, new) = get_connection s isock in
      let g = get_connection-Taken s isock in
      elim (ℕ_discrete q new) [
        | yes e ↦
            subst (λ i. HasSize (t.conns i)) (sym e) (subst HasSize (sym g.made) origin-HasSize)
        | no n ↦ subst HasSize (sym (get_connection-others s isock q n)) (sized q)
      ]

  registered :
      (port : Option ℕ) (ctl_ok : Bool)
      → let (t, new) = get_connection s isock in
        Proper new (register ctl_ok (client port (t.conns new))).0
  registered port ctl_ok =
      let (t, new) = get_connection s isock in
      let g = get_connection-Taken s isock in
      subst (λ d. Proper new (register ctl_ok (client port d)).0) (sym g.made)
        (registered-Proper new isock port ctl_ok g.origin origin-HasSize)

abbrev AllSized : Socket → Type 0
AllSized s = (q : ℕ) → HasSize (s.conns q)

freed-AllSized : (p : ℕ) (s : Socket) → AllSized s → AllSized (free_connection p s)
unfolding free_connection put_one_to_free
freed-AllSized p s h q = update_elim HasSize s.conns p _ q (λ e. h p) (λ n. h q)

establish-Framed :
    (nonblock_ok ctl_ok use_accept4 : Bool) (p isock : ℕ) (w : Worker)
    → Framed w
    → Framed (record w { sock = establish nonblock_ok ctl_ok use_accept4 p isock w.sock })
unfolding epoll_oper_event
establish-Framed nonblock_ok ctl_ok use_accept4 p isock w v =
    let (t, new) = get_connection w.sock isock in
    let port = (w.sock.conns p).listening in
    let c = (register ctl_ok (client port (t.conns new))).0 in
    let taken : AllSized t = get_connection-HasSize w.sock v.sized isock in
    let stored : AllSized (set_conn new c t) =
      λ q. update_elim HasSize t.conns new c q (λ e. taken new) (λ n. taken q) in
    record {
      sized =
          establish_cases AllSized w.sock nonblock_ok ctl_ok use_accept4 p isock
            (freed-AllSized new t taken) (freed-AllSized new (set_conn new c t) stored) stored;
      proper =
          establish-Each Proper nonblock_ok ctl_ok use_accept4 p isock w.sock v.proper
            (registered w.sock v.sized isock port ctl_ok);
      jobs = v.jobs;
    }

-- The send queue and the semaphore have no part in it.
pub with_sends-Framed :
    (queue : List Message) (count sem : ℕ) (w : Worker)
    → Framed w
    → Framed (record w { sock = with_sends queue count sem w.sock })
with_sends-Framed queue count sem w v = record {
  sized = v.sized;
  proper = λ q i.
      v.proper q
        (record { known = i.known; not_free = i.not_free; not_recycling = i.not_recycling });
  jobs = v.jobs;
}

Ready-HasSize : (p : ℕ) (c : Conn) (pending : Bytes) → Ready p c pending → HasSize c
Ready-HasSize p c pending (inl v) = v.size
Ready-HasSize p c pending (inr (m, v)) = v.size

module _ (new_char : ℕ → Bytes) (length-new_char : (n : ℕ) → length (new_char n) ≡ n)
    (e : Event) where
  handle_in-Framed :
      (w v : Worker)
      → InUse e.conn w.sock
      → ((bs : Bytes) → e.received ≡ got bs → length bs ≤ (w.sock.conns e.conn).irecvlen)
      → Framed w
      → handle_in new_char e w ≡ some v
      → Framed v
  handle_in-Framed w v i bounded k r =
      handle_in_cases Framed e new_char w v k (in_recy-Framed e.now e.conn w k)
        (λ b bs reads got_some.
          let p = e.conn in
          let c = w.sock.conns p in
          let r = read_bytes new_char p c (b ∷ bs) in
          let (proper, jobs) =
            read-Proper new_char length-new_char p c (b ∷ bs) (k.proper p i) reads (omega arith)
              (bounded (b ∷ bs) got_some) in
          let (pending, ready) = proper.reads (read_bytes-rhandler new_char p c (b ∷ bs) ∙ reads) in
          let u =
            set_conn-Framed p r.conn w k (Ready-HasSize p r.conn pending ready) (λ h. proper) in
          record {
            sized = u.sized;
            proper = u.proper;
            jobs = All-append IsJob w.queued r.queued k.jobs jobs;
          })
        (λ use_accept4. record { sized = k.sized; proper = k.proper; jobs = k.jobs })
        (λ isock use_accept4.
          let u = establish-Framed e.nonblock_ok e.ctl_ok use_accept4 e.conn isock w k in
          record { sized = u.sized; proper = u.proper; jobs = u.jobs })
        r

  handle_out-Framed : (w v : Worker) → Framed w → handle_out e w ≡ some v → Framed v
  handle_out-Framed w v k r =
      handle_out_cases Framed e w v k
        (set_conn-Framed e.conn _ w k (k.sized e.conn)
          (lowered-Proper e.conn (w.sock.conns e.conn) _))
        (λ writes posted. posts posted) r
    where
      c : Conn
      c = w.sock.conns e.conn

      d : Conn
      d = (write_request_handler e.ctl_ok (w.sock.conns e.conn) e.sent).0

      written : Framed (record w { sock = set_conn e.conn d w.sock })
      written =
          set_conn-Framed e.conn d w k
            (ap (λ (a : Apart). length a.data_head_info)
                (write_request_handler-apart e.ctl_ok c e.sent)
              ∙ k.sized e.conn)
            (write-Proper e.conn e.ctl_ok c e.sent)

      posts : (posted : Bool) → Framed (record w { sock = post posted (set_conn e.conn d w.sock) })
      posts true = with_sends-Framed _ _ _ _ written
      posts false = written

  pub handle_event-Framed :
      (w v : Worker)
      → InUse e.conn w.sock
      → ((bs : Bytes) → e.received ≡ got bs → length bs ≤ (w.sock.conns e.conn).irecvlen)
      → Framed w
      → handle_event new_char e w ≡ some v
      → Framed v
  handle_event-Framed w v i bounded k r =
      handle_event_halves Framed e new_char w v r
        (λ u first second. handle_out-Framed u v (handle_in-Framed w u i bounded k first) second)
