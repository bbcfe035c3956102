-- ===== src/Events.antt =====
-- The event loop of a worker: ngx_epoll_process_events and ngx_epoll_init of
-- nginx/net/ngx_c_socket.cxx, ngx_event_accept of nginx/net/ngx_c_socket_accept.cxx, and
-- ngx_process_events_and_timers of nginx/proc/ngx_event.cxx. What the
-- kernel answers while an event is handled comes with the event.
pub mod Wired
pub mod Single
pub mod Batch
pub mod Listening
pub mod Loss
use Prim.Native.Nat.{bit_and, bit_or}
use cnginx.Common.{
  ℕ, ◌+◌, Bool, true, false, not, ◌==◌, ◌&&◌, if◌then◌else◌, Option, none, some, List, [], ◌∷◌,
  ◌++◌,
}
use cnginx.Common.Memory.{Bytes}
use cnginx.Common.Int.{ℤ, pos, negsuc, pred}
use cnginx.Sys.{Errno, eagain, eintr, enosys, RecvResult}
use cnginx.Packet.{Message}
use cnginx.Conn.{
  Conn, Handler, unset, ngx_event_accept, ngx_read_request_handler, ngx_write_request_handler,
}
use cnginx.Epoll.{epollin, epollout, epollerr, epollhup, epollrdhup, ctl_add, epoll_oper_event}
use cnginx.Socket.{Socket, set_conn, get_connection, free_connection, initconnection}
use cnginx.Send.{Sent, write_request_handler}
use cnginx.Reader.{read_request_handler}

-- One answer of accept4() or accept(): a descriptor, or -1.
pub data AcceptAnswer : Type 0 where
  accepted : ℕ → AcceptAnswer
  declined : Errno → AcceptAnswer

-- What the loop of ngx_event_accept comes to: the descriptor, if there is one, and the static
-- use_accept4 afterwards. The kernel is asked a second time only where accept4 is not there, and
-- accept() ends the loop.
abbrev pub accept_again : AcceptAnswer → Option ℕ × Bool
accept_again (accepted s) = (some s, false)
accept_again (declined _) = (none, false)

unfoldable pub accept_loop : Bool → AcceptAnswer → AcceptAnswer → Option ℕ × Bool
accept_loop use_accept4 (accepted s) second = (some s, use_accept4)
accept_loop true (declined enosys) second = accept_again second
accept_loop use_accept4 (declined _) second = (none, use_accept4)

-- EPOLLIN|EPOLLRDHUP
abbrev pub watched : ℕ
watched = 0x2001

-- ngx_close_connection; close() of the descriptor changes nothing in the model.
abbrev pub close_connection : ℕ → Socket → Socket
close_connection p s = free_connection p s

-- The object of a new connection, as ngx_event_accept and ngx_epoll_init register it.
abbrev pub register : Bool → Conn → Conn × ℤ
register ctl_ok c = epoll_oper_event ctl_add watched 0 ctl_ok c

-- The assignments to the object that ngx_get_connection gave.
abbrev pub client : Option ℕ → Conn → Conn
client port c = record c {
  listening = port;
  rhandler = ngx_read_request_handler;
  whandler = ngx_write_request_handler;
}

-- ngx_event_accept from ngx_get_connection on, for the listening object `oldc` and the descriptor
-- `s`; `nonblock_ok` is whether setnonblocking succeeds.
unfoldable pub establish : Bool → Bool → Bool → ℕ → ℕ → Socket → Socket
unfolding get_connection free_connection epoll_oper_event
establish nonblock_ok ctl_ok use_accept4 oldc s sock =
    let (t, p) = get_connection sock s in
    if not use_accept4 && not nonblock_ok
    then close_connection p t
    else let (c, result) = register ctl_ok (client (sock.conns oldc).listening (t.conns p)) in
      elim result [ pos n ↦ set_conn p c t | negsuc n ↦ close_connection p (set_conn p c t) ]

-- An event that epoll_wait returned, with what the kernel answers to the calls of its handlers.
pub record Event : Type 0 where
  pub conn : ℕ
  pub revents : ℕ
  pub received : RecvResult
  pub first_answer : AcceptAnswer
  pub second_answer : AcceptAnswer
  pub sent : Sent
  pub nonblock_ok : Bool
  pub ctl_ok : Bool
  pub post_ok : Bool
  pub now : ℕ

-- The socket, the static use_accept4, and what has been put on the thread pool's queue.
pub record Worker : Type 0 where
  pub sock : Socket
  pub use_accept4 : Bool
  pub queued : List (Option Message)

-- sem_post at the end of the write handler
abbrev pub post : Bool → Socket → Socket
post posted s = if posted then record s { sem_event_send_queue = s.sem_event_send_queue + 1 } else s

-- The call of whandler
unfoldable pub call_whandler : Handler → Event → Worker → Option Worker
unfolding write_request_handler
call_whandler ngx_write_request_handler e w =
    let (c, posts) = write_request_handler e.ctl_ok (w.sock.conns e.conn) e.sent in
    some (record w { sock = post (posts && e.post_ok) (set_conn e.conn c w.sock) })
call_whandler unset e w = none
call_whandler ngx_event_accept e w = none
call_whandler ngx_read_request_handler e w = none

abbrev pub has_bits : ℕ → ℕ → Bool
has_bits events bits = not (bit_and events bits == 0)

-- --p_Conn->iThrowsendCount
abbrev pub lower_count : ℕ → Worker → Worker
lower_count p w =
    let c = w.sock.conns p in
    record w { sock = set_conn p (record c { throw_send_count = pred c.throw_send_count }) w.sock }

-- `if(revents & EPOLLOUT)`; the mask is EPOLLERR | EPOLLHUP | EPOLLRDHUP.
unfoldable pub handle_out : Event → Worker → Option Worker
unfolding call_whandler
handle_out e w =
    if not (has_bits e.revents epollout)
    then some w
    else if has_bits e.revents 0x2018
    then some (lower_count e.conn w)
    else call_whandler (w.sock.conns e.conn).whandler e w

-- `new_char n` is what a fresh block of n bytes holds.
module _ (new_char : ℕ → Bytes) where
  -- The call of rhandler: none if the pointer is not set.
  unfoldable pub call_rhandler : Handler → Event → Worker → Option Worker
  unfolding accept_loop establish read_request_handler
  call_rhandler unset e w = none
  call_rhandler ngx_event_accept e w =
      let (taken, use_accept4) = accept_loop w.use_accept4 e.first_answer e.second_answer in
      elim taken [
        | none ↦ some (record w { use_accept4 = use_accept4 })
        | some s ↦ some (record w {
          sock = establish e.nonblock_ok e.ctl_ok use_accept4 e.conn s w.sock;
          use_accept4 = use_accept4;
        })
      ]
  call_rhandler ngx_read_request_handler e w =
      let h = read_request_handler new_char e.now e.conn e.received w.sock in
      some (record w { sock = h.sock; queued = w.queued ++ h.queued })
  call_rhandler ngx_write_request_handler e w = none

  -- `if(revents & EPOLLIN)`
  unfoldable pub handle_in : Event → Worker → Option Worker
  unfolding call_rhandler
  handle_in e w =
      if has_bits e.revents epollin
      then call_rhandler (w.sock.conns e.conn).rhandler e w
      else some w

  -- The body of the loop over the events.
  unfoldable pub handle_event : Event → Worker → Option Worker
  unfolding handle_in handle_out
  handle_event e w = elim (handle_in e w) [ none ↦ none | some v ↦ handle_out e v ]

  -- The loop of ngx_epoll_process_events: none if it calls a handler that is not set, or that is
  -- not meant for the event.
  unfoldable pub process_events : List Event → Worker → Option Worker
  unfolding handle_event
  process_events [] w = some w
  process_events (e ∷ es) w = elim (handle_event e w) [ none ↦ none | some v ↦ process_events es v ]

-- ngx_epoll_process_events, on what epoll_wait returns: the value returned, and the worker.
pub data Waited : Type 0 where
  failed : Errno → Waited
  timed_out : Waited
  ready : List Event → Waited

unfoldable pub epoll_process_events : (ℕ → Bytes) → Bool → Waited → Worker → Option (Bool × Worker)
unfolding process_events
epoll_process_events new_char has_timer (failed eintr) w = some (true, w)
epoll_process_events new_char has_timer (failed _) w = some (false, w)
epoll_process_events new_char has_timer timed_out w = some (has_timer, w)
epoll_process_events new_char has_timer (ready events) w = elim (process_events new_char events w) [
  | none ↦ none
  | some v ↦ some (true, v)
]

-- ngx_process_events_and_timers: epoll_wait waits without a limit.
abbrev process_events_and_timers : (ℕ → Bytes) → Waited → Worker → Option (Bool × Worker)
process_events_and_timers new_char answer w = epoll_process_events new_char false answer w

-- The loop of ngx_epoll_init over m_ListenSocketList, given by their descriptors: the addresses of
-- the listening objects, the last one first. The worker exits where epoll_ctl fails, which is none.
unfoldable pub listen_loop : List ℕ → ℕ → List ℕ → Bool → Socket → Option (Socket × List ℕ)
unfolding get_connection epoll_oper_event
listen_loop [] k used ctl_ok s = some (s, used)
listen_loop (fd ∷ fds) k used ctl_ok s =
    let (t, p) = get_connection s fd in
    let ready = record (t.conns p) { listening = some k; rhandler = ngx_event_accept } in
    let (c, result) = register ctl_ok ready in
    elim result [
      | pos n ↦ listen_loop fds (k + 1) (p ∷ used) ctl_ok (set_conn p c t)
      | negsuc n ↦ none
    ]

-- ngx_epoll_init behind epoll_create
unfoldable pub epoll_init : List ℕ → Bool → Socket → Option (Socket × List ℕ)
unfolding initconnection listen_loop
epoll_init fds ctl_ok s = listen_loop fds 0 [] ctl_ok (initconnection s)
