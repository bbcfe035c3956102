-- ===== src/Events/Listening.antt =====
-- The start of a worker's event loop, ngx_epoll_init of nginx/net/ngx_c_socket.cxx.
use mathlib.Core.List.{Mem, mem_of_ne_of_mem, not-mem-nil}
use cnginx.Common.{ℕ, ◌+◌, true, ◌≡◌, inr, refl, sym, arith, List, [], ◌∷◌, some, subst, length}
use cnginx.Conn.{Conn, ngx_event_accept}
use cnginx.Epoll.{epoll_oper_event}
use cnginx.Socket.{Socket, set_conn, get_connection, initconnection}
use cnginx.Socket.Ownership.{IsEmpty, initconnection-Owned}
use cnginx.Socket.Untouched.{update_elim, get_connection-others}
use cnginx.Events.{watched, register, listen_loop, epoll_init}
use cnginx.Events.Wired.{Serves, take-Keeps}

-- An object of a listening socket, as ngx_epoll_init leaves it.
abbrev pub Accepts : Conn → Type 0
Accepts c = (c.rhandler ≡ ngx_event_accept) × (c.events ≡ watched)

-- What the loop of ngx_epoll_init keeps.
record Listening (s : Socket) (used : List ℕ) : Type 0 where
  serves : Serves s used
  accepts : (q : ℕ) → Mem q used → Accepts (s.conns q)

listen_loop-Listening :
    (fds : List ℕ) (k : ℕ) (used : List ℕ) (s : Socket)
    → Listening s used
    → (t : Socket) × (used' : List ℕ) × (listen_loop fds k used true s ≡ some (t, used'))
      × Listening t used'
      × (length used' ≡ length fds + length used)
unfolding listen_loop epoll_oper_event
listen_loop-Listening [] k used s v = (s, used, refl, v, omega arith)
listen_loop-Listening (fd ∷ fds) k used s v =
    let (t, p) = get_connection s fd in
    let ready = record (t.conns p) { listening = some k; rhandler = ngx_event_accept } in
    let c = (register true ready).0 in
    let next : Listening (set_conn p c t) (p ∷ used) = record {
      serves = (take-Keeps s used v.serves fd p c (inr (refl, refl))).serves;
      accepts = λ q m.
          update_elim Accepts t.conns p c q (λ e. (refl, refl))
            (λ n.
              subst Accepts (sym (get_connection-others s fd q n))
                (v.accepts q (mem_of_ne_of_mem n m)));
    } in
    let (u, used', runs, w, n) =
      listen_loop-Listening fds (k + 1) (p ∷ used) (set_conn p c t) next in
    (u, used', runs, w, omega (arith, n))

-- A worker that starts on an empty pool, with epoll_ctl always succeeding, serves from then on, and
-- what it has in use is one object for each listening socket: it accepts, and is watched for
-- EPOLLIN|EPOLLRDHUP.
pub epoll_init-Serves :
    (fds : List ℕ) (s : Socket)
    → IsEmpty s
    → (t : Socket) × (used : List ℕ) × (epoll_init fds true s ≡ some (t, used))
      × Serves t used
      × ((q : ℕ) → Mem q used → Accepts (t.conns q))
      × (length used ≡ length fds)
unfolding epoll_init
epoll_init-Serves fds s e =
    let start : Listening (initconnection s) [] = record {
      serves = record { owned = initconnection-Owned s e; wired = λ q m. absurd (not-mem-nil m) };
      accepts = λ q m. absurd (not-mem-nil m);
    } in
    let (t, used, runs, v, n) = listen_loop-Listening fds 0 [] (initconnection s) start in
    (t, used, runs, v.serves, v.accepts, omega (arith, n))
