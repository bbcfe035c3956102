-- ===== src/System/Starting.antt =====
-- The state in which a worker starts, behind ngx_epoll_init of nginx/net/ngx_c_socket.cxx.
use mathlib.Core.Option.{some-injective}
use mathlib.Core.List.{Mem}
use cnginx.Common.{ℕ, ◌+◌, ◌≡◌, refl, ap, subst, arith, List, [], ◌∷◌, length, some, none, true}
use cnginx.Conn.{ngx_event_accept}
use cnginx.Epoll.{epoll_oper_event}
use cnginx.Events.{epoll_init, listen_loop, register}
use cnginx.Events.Listening.{Accepts, epoll_init-Serves}
use cnginx.Socket.{Socket, set_conn, get_connection, initconnection}
use cnginx.Socket.Blank.{
  AllBlank, set_conn-AllBlank, initconnection-AllBlank, get_connection-AllBlank,
}
use cnginx.Socket.Ownership.{IsEmpty}
use cnginx.Socket.Uses.{InUse-Mem}
use cnginx.System.{System}
use cnginx.System.Framed.{Framed}
use cnginx.System.Isolation.{AtStart}

listen_loop-AllBlank :
    (fds : List ℕ) (k : ℕ) (used : List ℕ) (s : Socket)
    → AllBlank s
    → {t : Socket} {used' : List ℕ} → listen_loop fds k used true s ≡ some (t, used')
    → AllBlank t
unfolding listen_loop epoll_oper_event
listen_loop-AllBlank [] k used s v r =
    subst AllBlank (ap (λ (x : Socket × List ℕ). x.0) (some-injective _ _ r)) v
listen_loop-AllBlank (fd ∷ fds) k used s v r =
    let (t, p) = get_connection s fd in
    let ready = record (t.conns p) { listening = some k; rhandler = ngx_event_accept } in
    let c = (register true ready).0 in
    let u = get_connection-AllBlank s fd v in
    let b = u.conns p in
    listen_loop-AllBlank fds (k + 1) (p ∷ used) (set_conn p c t)
      (set_conn-AllBlank p c t u (record {
        word = b.word;
        size = b.size;
        no_reading = b.no_reading;
        no_sending = b.no_sending;
      }))
      r

-- A worker that begins to wait for events.
abbrev pub begin : Socket → System
begin t = record {
  worker = record { sock = t; use_accept4 = true; queued = [] };
  in_hand = [];
  sending = none;
}

-- The pool is empty, no object holds a message, and epoll_ctl always succeeds. Then ngx_epoll_init
-- returns, and the worker begins in order: it serves its connections, holds no message, and what it
-- has in use is one object for each listening socket, which accepts and is watched for
-- EPOLLIN|EPOLLRDHUP.
pub epoll_init-AtStart :
    (fds : List ℕ) (s : Socket)
    → IsEmpty s
    → AllBlank s
    → (t : Socket) × (used : List ℕ) × (epoll_init fds true s ≡ some (t, used))
      × AtStart (begin t)
      × Framed (begin t).worker
      × ((q : ℕ) → Mem q used → Accepts (t.conns q))
      × (length used ≡ length fds)
unfolding epoll_init
epoll_init-AtStart fds s e b =
    let (t, used, runs, serves, accepts, n) = epoll_init-Serves fds s e in
    let blank =
      listen_loop-AllBlank fds 0 [] (initconnection s) (initconnection-AllBlank s b) runs in
    (
      t,
      used,
      runs,
      record {
        used = used;
        serves = serves;
        words = λ p. (blank.conns p).word;
        no_jobs = refl;
        none_in_hand = refl;
        none_to_send = refl;
        no_replies = blank.no_replies;
        no_blocks = λ p. ((blank.conns p).no_reading, (blank.conns p).no_sending);
      },
      record {
        sized = λ p. (blank.conns p).size;
        proper = λ q i. record {
          reads = λ r. absurd (ground (arith, (accepts q (InUse-Mem q t used serves.owned i)).0));
        };
        jobs = tt;
      },
      accepts,
      n,
    )
