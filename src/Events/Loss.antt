-- ===== src/Events/Loss.antt =====
-- A peer that goes while a packet is under way to it: ngx_write_request_handler of
-- nginx/net/ngx_c_socket_request.cxx, as the loop of ngx_epoll_process_events calls it.
use cnginx.Common.{ℕ, ◌≡◌, refl, ap, arith, true, none, some, ◌∙◌}
use cnginx.Common.Int.{pos, negsuc}
use cnginx.Common.Memory.{Bytes}
use cnginx.Packet.{Message}
use cnginx.Conn.{Conn, Handler, ngx_write_request_handler}
use cnginx.Epoll.{epollout}
use cnginx.Send.{Sent, bytes, closed, full, broken, finish, outgoing}
use cnginx.Socket.{set_conn}
use cnginx.Events.{Event, Worker, has_bits, post, call_whandler, handle_event}
use cnginx.Events.Single.{Reported}

-- What sendproc returns where the peer has gone: 0 or -2.
abbrev pub IsLost : Sent → Type 0
IsLost closed = Unit {0}
IsLost broken = Unit {0}
IsLost (bytes n) = ⊥
IsLost full = ⊥

-- epoll_wait reports EPOLLOUT alone for the object at `p`, and sendproc returns `a`.
abbrev pub writable : ℕ → Sent → Event → Event
writable p a e = record e { conn = p; revents = epollout; sent = a }

module _ (new_char : ℕ → Bytes) (e : Event) (p : ℕ) where
  -- The handler ends as it does behind a packet that has gone out whole, but for EPOLLOUT.
  given_up : Worker → Worker
  given_up w = record w { sock = post e.post_ok (set_conn p (finish (w.sock.conns p)) w.sock) }

  call_whandler-given_up :
      (a : Sent) (w : Worker)
      → IsLost a
      → call_whandler ngx_write_request_handler (writable p a e) w ≡ some (given_up w)
  unfolding call_whandler given_up
  call_whandler-given_up closed w h = refl
  call_whandler-given_up broken w h = refl
  call_whandler-given_up (bytes n) w h = absurd h
  call_whandler-given_up full w h = absurd h

  handle_event-given_up :
      (a : Sent) (w : Worker)
      → (w.sock.conns p).whandler ≡ ngx_write_request_handler
      → IsLost a
      → handle_event new_char (writable p a e) w ≡ some (given_up w)
  unfolding handle_event
  handle_event-given_up a w set h =
      ap (λ (k : Handler). call_whandler k (writable p a e) w) set ∙ call_whandler-given_up a w h

  given_up-conn : (w : Worker) → (given_up w).sock.conns p ≡ finish (w.sock.conns p)
  unfolding given_up
  given_up-conn w = ground arith

-- A packet is under way to a client, whose write handler is set; EPOLLOUT is watched for it,
-- iThrowsendCount is 1, and the peer has gone, so that sendproc returns 0 or -2 from here on. Then
-- the next event, EPOLLOUT alone, which the kernel may report, frees the packet; but EPOLLOUT is
-- still watched, so the kernel may report it again. That event finds nothing to send, calls the
-- handler all the same, and brings the count below 0.
pub handle_event-after_loss :
    (new_char : ℕ → Bytes) (p : ℕ) (w : Worker) (m : Message) (first second : Event) (a b : Sent)
    → (w.sock.conns p).psend_mem ≡ some m
    → has_bits (w.sock.conns p).events epollout ≡ true
    → (w.sock.conns p).throw_send_count ≡ pos 1
    → (w.sock.conns p).whandler ≡ ngx_write_request_handler
    → IsLost a
    → IsLost b
    → (u : Worker) × (v : Worker) × Reported w.sock (writable p a first)
      × (handle_event new_char (writable p a first) w ≡ some u)
      × (outgoing (u.sock.conns p) ≡ none)
      × Reported u.sock (writable p b second)
      × (handle_event new_char (writable p b second) u ≡ some v)
      × ((v.sock.conns p).throw_send_count ≡ negsuc 0)
handle_event-after_loss new_char p w m first second a b under_way watched one set lost lost' =
    let u = given_up new_char first p w in
    let v = given_up new_char second p u in
    let c = given_up-conn new_char first p w in
    let d = given_up-conn new_char second p u in
    (
      u,
      v,
      λ r. watched,
      handle_event-given_up new_char first p a w set lost,
      rw c refl,
      λ r. ap (λ (k : Conn). has_bits k.events epollout) c ∙ watched,
      handle_event-given_up new_char second p b u (ap (λ (k : Conn). k.whandler) c ∙ set) lost',
      ground
          (arith, ap (λ (k : Conn). k.throw_send_count) c, ap (λ (k : Conn). k.throw_send_count) d),
    )
