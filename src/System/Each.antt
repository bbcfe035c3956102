-- ===== src/System/Each.antt =====
-- Properties of the connection objects in use, one by one, and which operations keep them
-- (nginx/net/ngx_c_socket_conn.cxx, nginx/net/ngx_c_socket_accept.cxx).
use cnginx.Common.{ℕ, ◌≢◌, sym, subst, List, Bool}
use cnginx.Conn.{Conn}
use cnginx.Socket.{
  Socket, set_conn, get_connection, free_connection, in_recy_connect_queue, recycle,
}
use cnginx.Socket.Sweep.{Found}
use cnginx.Socket.Untouched.{update_elim, get_connection-others}
use cnginx.Socket.Uses.{InUse, get_connection-back, free-back, in_recy-back, recycle-back}
use cnginx.Events.{establish, register, client}
use cnginx.System.Handling.{establish_cases}

set_conn-back : (q p : ℕ) (c : Conn) (s : Socket) → InUse q (set_conn p c s) → InUse q s
set_conn-back q p c s i = record {
  known = i.known;
  not_free = i.not_free;
  not_recycling = i.not_recycling;
}

module _ (P : ℕ → Conn → Type 0) where
  abbrev pub Each : Socket → Type 0
  Each s = (q : ℕ) → InUse q s → P q (s.conns q)

  pub set_conn-Each :
      (p : ℕ) (c : Conn) (s : Socket) → Each s → (InUse p s → P p c) → Each (set_conn p c s)
  set_conn-Each p c s v h q i =
      let j = set_conn-back q p c s i in
      update_elim (P q) s.conns p c q
        (λ e. subst (λ r. P r c) (sym e) (h (subst (λ r. InUse r s) e j))) (λ n. v q j)

  pub in_recy-Each : (now p : ℕ) (s : Socket) → Each s → Each (in_recy_connect_queue now p s)
  unfolding in_recy_connect_queue
  in_recy-Each now p s v q i =
      let (j, n) = in_recy-back q s now p i in
      update_elim (P q) s.conns p _ q (λ e. absurd (n e)) (λ k. v q j)

  -- The object that is freed need not have had the property.
  pub free-Each :
      (p : ℕ) (s : Socket)
      → ((q : ℕ) → q ≢ p → InUse q s → P q (s.conns q))
      → Each (free_connection p s)
  unfolding free_connection
  free-Each p s v q i =
      let (j, n) = free-back q s p i in
      update_elim (P q) s.conns p _ q (λ e. absurd (n e)) (λ k. v q n j)

  pub recycle-Each :
      {test : ℕ → Bool} (p : ℕ) (rest : List ℕ) (s : Socket)
      → Found test s.recyconnection_list p rest
      → Each s
      → Each (recycle p rest s)
  unfolding recycle free_connection
  recycle-Each p rest s f v q i =
      let (j, n) = recycle-back q s p rest f i in
      update_elim (P q) s.conns p _ q (λ e. absurd (n e)) (λ k. v q j)

  taken-Each :
      (isock : ℕ) (s : Socket)
      → Each s
      → let (t, new) = get_connection s isock in (q : ℕ) → q ≢ new → InUse q t → P q (t.conns q)
  taken-Each isock s v q n i =
      subst (P q) (sym (get_connection-others s isock q n))
        (v q (get_connection-back q s isock n i))

  -- What ngx_event_accept registers is an object just made ready.
  pub establish-Each :
      (nonblock_ok ctl_ok use_accept4 : Bool) (p isock : ℕ) (s : Socket)
      → Each s
      → (let (t, new) = get_connection s isock in
          P new (register ctl_ok (client (s.conns p).listening (t.conns new))).0)
      → Each (establish nonblock_ok ctl_ok use_accept4 p isock s)
  establish-Each nonblock_ok ctl_ok use_accept4 p isock s v h =
      let (t, new) = get_connection s isock in
      let c = (register ctl_ok (client (s.conns p).listening (t.conns new))).0 in
      let others = taken-Each isock s v in
      let stored : Each (set_conn new c t) = λ q i.
        update_elim (P q) t.conns new c q (λ e. subst (λ r. P r c) (sym e) h)
          (λ n. others q n (set_conn-back q new c t i)) in
      establish_cases Each s nonblock_ok ctl_ok use_accept4 p isock (free-Each new t others)
        (free-Each new (set_conn new c t) (λ q n i. stored q i)) stored
