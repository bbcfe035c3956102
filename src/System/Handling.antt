-- ===== src/System/Handling.antt =====
-- The cases in which the body of ngx_epoll_process_events' loop (nginx/net/ngx_c_socket.cxx) ends.
use cnginx.Common.{
  ℕ, ◌≡◌, inl, inr, refl, sym, List, [], ◌∷◌, ◌++◌, Bool, true, false, Bool-cases, some, Option,
  subst, append-nil, Option-cases,
}
use mathlib.Core.Option.{some-injective, none-ne-some}
use cnginx.Common.Memory.{Bytes}
use cnginx.Sys.{RecvResult, got, closed, failed, eagain, eintr}
use cnginx.Packet.{Message}
use cnginx.Conn.{
  Handler, unset, ngx_event_accept, ngx_read_request_handler, ngx_write_request_handler,
}
use cnginx.Epoll.{epollin, epollout, epoll_oper_event}
use cnginx.Recv.{read_bytes}
use cnginx.Socket.{Socket, set_conn, get_connection, free_connection, in_recy_connect_queue}
use cnginx.Send.{write_request_handler}
use cnginx.Reader.{recvproc, read_request_handler}
use cnginx.Events.{
  has_bits, Event, Worker, call_rhandler, call_whandler, handle_in, handle_out, handle_event, post,
  establish, accept_loop, lower_count, client, register,
}

abbrev pub with_socket : Socket → Worker → Worker
with_socket s w = record w { sock = s }

module _ {ℓ} (Q : Worker → Type ℓ) (e : Event) where
  abbrev written : Bool → Worker → Worker
  written posted w =
      with_socket
        (post posted
          (set_conn e.conn (write_request_handler e.ctl_ok (w.sock.conns e.conn) e.sent).0 w.sock))
        w

  call_whandler_cases :
      (h : Handler) (w v : Worker)
      → (h ≡ ngx_write_request_handler → (posted : Bool) → Q (written posted w))
      → call_whandler h e w ≡ some v
      → Q v
  unfolding call_whandler
  call_whandler_cases ngx_write_request_handler w v writes r =
      subst Q (some-injective _ _ r) (writes refl _)
  call_whandler_cases unset w v writes r = absurd (none-ne-some _ r)
  call_whandler_cases ngx_event_accept w v writes r = absurd (none-ne-some _ r)
  call_whandler_cases ngx_read_request_handler w v writes r = absurd (none-ne-some _ r)

  -- The half for EPOLLOUT does nothing, lowers a count, or calls the write handler.
  pub handle_out_cases :
      (w v : Worker)
      → Q w
      → Q (lower_count e.conn w)
      → ((w.sock.conns e.conn).whandler ≡ ngx_write_request_handler
          → (posted : Bool) → Q (written posted w))
      → handle_out e w ≡ some v
      → Q v
  unfolding handle_out
  handle_out_cases w v same lower writes r = elim (Bool-cases (has_bits e.revents epollout)) [
    | inl b ↦ elim (Bool-cases (has_bits e.revents 0x2018)) [
      | inl gone ↦ subst Q (some-injective _ _ (rw (handle_out, b, gone) at r)) lower
      | inr alive ↦ call_whandler_cases _ w v writes (rw (handle_out, b, alive) at r)
    ]
    | inr b ↦ subst Q (some-injective _ _ (rw (handle_out, b) at r)) same
  ]

  abbrev retired : Worker → Worker
  retired w = with_socket (in_recy_connect_queue e.now e.conn w.sock) w

  abbrev accepting : ℕ → Bool → Worker → Worker
  accepting isock use_accept4 w = record w {
    sock = establish e.nonblock_ok e.ctl_ok use_accept4 e.conn isock w.sock;
    use_accept4 = use_accept4;
  }

  module _ (new_char : ℕ → Bytes) where
    abbrev reading : Bytes → Worker → Worker
    reading bs w =
        let r = read_bytes new_char e.conn (w.sock.conns e.conn) bs in
        record w { sock = set_conn e.conn r.conn w.sock; queued = w.queued ++ r.queued }

    none_queued : (w : Worker) → Q w → Q (record w { queued = w.queued ++ [] })
    none_queued w h =
        subst (λ (q : List (Option Message)). Q (record w { queued = q }))
          (sym (append-nil w.queued)) h

    read_cases :
        (result : RecvResult) (w : Worker)
        → Q w
        → Q (retired w)
        → ((b : ℕ) (bs : Bytes) → result ≡ got (b ∷ bs) → Q (reading (b ∷ bs) w))
        → let h = read_request_handler new_char e.now e.conn result w.sock in
          Q (record w { sock = h.sock; queued = w.queued ++ h.queued })
    unfolding read_request_handler recvproc
    read_cases (got []) w same lost reads = none_queued (retired w) lost
    read_cases (got (b ∷ bs)) w same lost reads = reads b bs refl
    read_cases closed w same lost reads = none_queued (retired w) lost
    read_cases (failed eagain) w same lost reads = none_queued w same
    read_cases (failed eintr) w same lost reads = none_queued w same
    read_cases (failed _) w same lost reads = none_queued (retired w) lost

    call_rhandler_cases :
        (h : Handler) (w v : Worker)
        → Q w
        → Q (retired w)
        → ((b : ℕ) (bs : Bytes)
            → h ≡ ngx_read_request_handler
            → e.received ≡ got (b ∷ bs)
            → Q (reading (b ∷ bs) w))
        → ((use_accept4 : Bool) → Q (record w { use_accept4 = use_accept4 }))
        → ((isock : ℕ) (use_accept4 : Bool) → Q (accepting isock use_accept4 w))
        → call_rhandler new_char h e w ≡ some v
        → Q v
    unfolding call_rhandler
    call_rhandler_cases unset w v same lost reads idle accepts r = absurd (none-ne-some _ r)
    call_rhandler_cases ngx_write_request_handler w v same lost reads idle accepts r =
        absurd (none-ne-some _ r)
    call_rhandler_cases ngx_read_request_handler w v same lost reads idle accepts r =
        subst Q (some-injective _ _ r)
          (read_cases e.received w same lost (λ b bs k. reads b bs refl k))
    call_rhandler_cases ngx_event_accept w v same lost reads idle accepts r =
        elim (Option-cases (accept_loop w.use_accept4 e.first_answer e.second_answer).0) [
          | inl none_taken ↦
              subst Q (some-injective _ _ (rw (call_rhandler, none_taken) at r)) (idle _)
          | inr (isock, one_taken) ↦
              subst Q (some-injective _ _ (rw (call_rhandler, one_taken) at r)) (accepts isock _)
        ]

    -- The half for EPOLLIN does nothing, retires the connection, reads, or accepts.
    pub handle_in_cases :
        (w v : Worker)
        → Q w
        → Q (retired w)
        → ((b : ℕ) (bs : Bytes)
            → (w.sock.conns e.conn).rhandler ≡ ngx_read_request_handler
            → e.received ≡ got (b ∷ bs)
            → Q (reading (b ∷ bs) w))
        → ((use_accept4 : Bool) → Q (record w { use_accept4 = use_accept4 }))
        → ((isock : ℕ) (use_accept4 : Bool) → Q (accepting isock use_accept4 w))
        → handle_in new_char e w ≡ some v
        → Q v
    unfolding handle_in
    handle_in_cases w v same lost reads idle accepts r =
        elim (Bool-cases (has_bits e.revents epollin)) [
          | inl b ↦ call_rhandler_cases _ w v same lost reads idle accepts (rw (handle_in, b) at r)
          | inr b ↦ subst Q (some-injective _ _ (rw (handle_in, b) at r)) same
        ]

    -- The two halves, one after the other.
    pub handle_event_halves :
        (w v : Worker)
        → handle_event new_char e w ≡ some v
        → ((u : Worker) → handle_in new_char e w ≡ some u → handle_out e u ≡ some v → Q v)
        → Q v
    unfolding handle_event
    handle_event_halves w v r k = elim (Option-cases (handle_in new_char e w)) [
      | inl stops ↦ absurd (none-ne-some _ (rw (handle_event, stops) at r))
      | inr (u, runs) ↦ k u runs (rw (handle_event, runs) at r)
    ]

module _ {ℓ} (P : Socket → Type ℓ) (s : Socket) where
  -- ngx_event_accept, from ngx_get_connection on, gives the object back at once, gives it back after
  -- epoll_ctl has failed, or leaves it registered.
  pub establish_cases :
      (nonblock_ok ctl_ok use_accept4 : Bool) (p isock : ℕ)
      → let (t, new) = get_connection s isock in
        let c = (register ctl_ok (client (s.conns p).listening (t.conns new))).0 in
        P (free_connection new t)
        → P (free_connection new (set_conn new c t))
        → P (set_conn new c t)
        → P (establish nonblock_ok ctl_ok use_accept4 p isock s)
  unfolding establish epoll_oper_event
  establish_cases false ctl_ok false p isock gives fails stays = gives
  establish_cases false true true p isock gives fails stays = stays
  establish_cases false false true p isock gives fails stays = fails
  establish_cases true true false p isock gives fails stays = stays
  establish_cases true true true p isock gives fails stays = stays
  establish_cases true false false p isock gives fails stays = fails
  establish_cases true false true p isock gives fails stays = fails
