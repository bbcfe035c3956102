-- ===== src/Events/Single.antt =====
-- One event, as the loop of ngx_epoll_process_events in nginx/net/ngx_c_socket.cxx handles it: what
-- it does to the pool and to the objects in use.
use mathlib.Core.List.{Mem}
use mathlib.Core.Bool.{false≢true}
use cnginx.Common.{
  ℕ, Bool, true, false, ◌≡◌, inl, inr, refl, sym, ap, ◌∙◌, arith, List, [], ◌∷◌, ◌++◌, Option-cases,
  some, Option, Bool-cases, ◌&&◌,
}
use cnginx.Common.Memory.{Bytes}
use cnginx.Sys.{RecvResult, got, closed, failed, eagain, eintr}
use cnginx.Conn.{Conn, ngx_event_accept}
use cnginx.Epoll.{epollin, epollout, epoll_oper_event}
use cnginx.Send.{Sent, write_request_handler}
use cnginx.Recv.{read_bytes}
use cnginx.Recv.Kept.{read_bytes-rhandler, read_bytes-whandler}
use cnginx.Socket.{Socket, set_conn, in_recy_connect_queue}
use cnginx.Socket.Untouched.{update_elim, conns-Owned}
use cnginx.Reader.{recvproc, read_request_handler}
use cnginx.Events.{
  has_bits, Event, Worker, call_rhandler, call_whandler, handle_in, handle_out, handle_event, post,
  establish, accept_loop, lower_count,
}
use cnginx.Events.Wired.{
  IsClient, Serves, Keeps, same-Keeps, set_conn-Keeps, retire-Keeps, establish-Keeps,
}

then-Keeps :
    {p : ℕ} {s t u : Socket} {xs ys zs : List ℕ}
    → Keeps p s t xs ys
    → Keeps p t u ys zs
    → Keeps p s u xs zs
then-Keeps v w = record {
  serves = w.serves;
  others = λ q m n. let (k, e) = v.others q m n in let (l, f) = w.others q k n in (l, f ∙ e);
}

write_request_handler-IsClient :
    (ctl_ok : Bool) (c : Conn) (sent : Sent)
    → IsClient c
    → IsClient (write_request_handler ctl_ok c sent).0
unfolding write_request_handler epoll_oper_event
write_request_handler-IsClient ctl_ok c sent v = ground arith

module _ (new_char : ℕ → Bytes) (p : ℕ) (s : Socket) (used : List ℕ) (v : Serves s used) where
  stored : (c : Conn) → IsClient c → IsClient ((set_conn p c s).conns p)
  stored c k = update_elim IsClient s.conns p c p (λ e. k) (λ n. absurd (n refl))

  retired :
      (now : ℕ)
      → Mem p used
      → IsClient (s.conns p)
      → let t = in_recy_connect_queue now p s in
        (used' : List ℕ) × Keeps p s t used used' × IsClient (t.conns p)
  unfolding in_recy_connect_queue
  retired now m c = (
    _,
    retire-Keeps s used v now p m,
    update_elim IsClient s.conns p _ p (λ e. c) (λ n. absurd (n refl)),
  )

  -- The connection is retired, or read.
  read-Keeps :
      (now : ℕ) (result : RecvResult)
      → Mem p used
      → IsClient (s.conns p)
      → let t = (read_request_handler new_char now p result s).sock in
        (used' : List ℕ) × Keeps p s t used used' × IsClient (t.conns p)
  unfolding read_request_handler recvproc
  read-Keeps now (got []) m c = retired now m c
  read-Keeps now (got (b ∷ bs)) m c =
      (used, set_conn-Keeps s used v p d (λ k. inl kept), stored d kept)
    where
      d : Conn
      d = (read_bytes new_char p (s.conns p) (b ∷ bs)).conn

      kept : IsClient d
      kept = (
        read_bytes-rhandler new_char p (s.conns p) (b ∷ bs) ∙ c.0,
        read_bytes-whandler new_char p (s.conns p) (b ∷ bs) ∙ c.1,
      )
  read-Keeps now closed m c = retired now m c
  read-Keeps now (failed eagain) m c = (used, same-Keeps s used v p, c)
  read-Keeps now (failed eintr) m c = (used, same-Keeps s used v p, c)
  read-Keeps now (failed _) m c = retired now m c

  -- The semaphore is no part of the pool.
  post-Keeps :
      (posted : Bool) (c : Conn) → IsClient c → Keeps p s (post posted (set_conn p c s)) used used
  post-Keeps true c k = record {
    serves = record { owned = conns-Owned s used v.owned _ _; wired = u.serves.wired };
    others = u.others;
  }
    where
      u : Keeps p s (set_conn p c s) used used
      u = set_conn-Keeps s used v p c (λ m. inl k)
  post-Keeps false c k = set_conn-Keeps s used v p c (λ m. inl k)

-- The kernel reports EPOLLOUT only where the object is watched for it.
abbrev pub Reported : Socket → Event → Type 0
Reported s e = has_bits e.revents epollout ≡ true → has_bits (s.conns e.conn).events epollout ≡ true

-- What one event comes to: a worker that serves its connections, the others' objects as they were.
pub record Handled (p : ℕ) (w : Worker) (used : List ℕ) (result : Option Worker) : Type 0 where
  pub after : Worker
  pub in_use : List ℕ
  pub runs : result ≡ some after
  pub keeps : Keeps p w.sock after.sock used in_use

module _ (new_char : ℕ → Bytes) (e : Event) (used : List ℕ) where
  idle :
      (w : Worker) {result : Option Worker}
      → Serves w.sock used
      → result ≡ some w
      → Handled e.conn w used result
  idle w v r = record {
    after = w;
    in_use = used;
    runs = r;
    keeps = same-Keeps w.sock used v e.conn;
  }

  -- The half for EPOLLIN leaves a client its handlers.
  handle_in-client :
      (w : Worker)
      → Serves w.sock used
      → Mem e.conn used
      → IsClient (w.sock.conns e.conn)
      → (h : Handled e.conn w used (handle_in new_char e w)) × IsClient (h.after.sock.conns e.conn)
  unfolding handle_in call_rhandler idle
  handle_in-client w v m c = elim (Bool-cases (has_bits e.revents epollin)) [
    | inl b ↦
        let h = read_request_handler new_char e.now e.conn e.received w.sock in
        let (in_use, keeps, client) =
          read-Keeps new_char e.conn w.sock used v e.now e.received m c in
        (
          record {
            after = record w { sock = h.sock; queued = w.queued ++ h.queued };
            in_use = in_use;
            runs = rw (b, c.0) refl;
            keeps = keeps;
          },
          client,
        )
    | inr b ↦ (idle w v (rw b refl), c)
  ]

  handle_in-listener :
      (w : Worker)
      → Serves w.sock used
      → (w.sock.conns e.conn).rhandler ≡ ngx_event_accept
      → Handled e.conn w used (handle_in new_char e w)
  unfolding handle_in call_rhandler
  handle_in-listener w v c = elim (Bool-cases (has_bits e.revents epollin)) [
    | inl b ↦ elim (Option-cases taken) [
      | inl none_taken ↦ record {
        after = record w { use_accept4 = use_accept4 };
        in_use = used;
        runs = rw (b, c, call_rhandler, none_taken) refl;
        keeps = same-Keeps w.sock used v e.conn;
      }
      | inr (isock, one_taken) ↦
          let (in_use, keeps) =
            establish-Keeps w.sock used v e.nonblock_ok e.ctl_ok use_accept4 e.conn isock in
          record {
            after = record w {
              sock = establish e.nonblock_ok e.ctl_ok use_accept4 e.conn isock w.sock;
              use_accept4 = use_accept4;
            };
            in_use = in_use;
            runs = rw (b, c, call_rhandler, one_taken) refl;
            keeps = keeps;
          }
    ]
    | inr b ↦ idle w v (rw b refl)
  ]
    where
      taken : Option ℕ
      taken = (accept_loop w.use_accept4 e.first_answer e.second_answer).0

      use_accept4 : Bool
      use_accept4 = (accept_loop w.use_accept4 e.first_answer e.second_answer).1

  handle_out-client :
      (w : Worker)
      → Serves w.sock used
      → IsClient (w.sock.conns e.conn)
      → Handled e.conn w used (handle_out e w)
  unfolding handle_out call_whandler
  handle_out-client w v c = elim (Bool-cases (has_bits e.revents epollout)) [
    | inl b ↦ elim (Bool-cases (has_bits e.revents 0x2018)) [
      | inl gone ↦ record {
        after = lower_count e.conn w;
        in_use = used;
        runs = rw (b, gone) refl;
        keeps = set_conn-Keeps w.sock used v e.conn _ (λ m. inl c);
      }
      | inr alive ↦
          let (d, posts) = write_request_handler e.ctl_ok (w.sock.conns e.conn) e.sent in
          record {
            after = record w { sock = post (posts && e.post_ok) (set_conn e.conn d w.sock) };
            in_use = used;
            runs = rw (b, alive) (ap (λ k. call_whandler k e w) c.1);
            keeps =
                post-Keeps new_char e.conn w.sock used v (posts && e.post_ok) d
                  (write_request_handler-IsClient e.ctl_ok (w.sock.conns e.conn) e.sent c);
          }
    ]
    | inr b ↦ idle w v (rw b refl)
  ]

module _ (new_char : ℕ → Bytes) where
  joined :
      (e : Event) {used in_use : List ℕ} (w : Worker) {v : Worker}
      → handle_in new_char e w ≡ some v
      → Keeps e.conn w.sock v.sock used in_use
      → Handled e.conn v in_use (handle_out e v)
      → Handled e.conn w used (handle_event new_char e w)
  unfolding handle_event
  joined e w runs keeps o = record {
    after = o.after;
    in_use = o.in_use;
    runs = rw (handle_event, runs) o.runs;
    keeps = then-Keeps keeps o.keeps;
  }

  -- The whole body of the loop.
  pub handle_event-Handled :
      (e : Event) (used : List ℕ) (w : Worker)
      → Serves w.sock used
      → Mem e.conn used
      → Reported w.sock e
      → Handled e.conn w used (handle_event new_char e w)
  unfolding handle_event handle_out
  handle_event-Handled e used w v m r = elim (v.wired e.conn m) [
    | inl client ↦
        let (h, k) = handle_in-client new_char e used w v m client in
        let o = handle_out-client new_char e h.in_use h.after h.keeps.serves k in
        joined e w h.runs h.keeps o
    | inr (accepts, unwatched) ↦
        let h = handle_in-listener new_char e used w v accepts in
        let quiet : has_bits e.revents epollout ≡ false =
          elim (Bool-cases (has_bits e.revents epollout)) [
            | inl b ↦ absurd (false≢true (sym unwatched ∙ r b))
            | inr b ↦ b
          ] in
        joined e w h.runs h.keeps (idle new_char e h.in_use h.after h.keeps.serves (rw quiet refl))
  ]
