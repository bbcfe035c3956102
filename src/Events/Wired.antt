-- ===== src/Events/Wired.antt =====
-- The handlers that the worker's connection objects carry (nginx/net/ngx_c_socket_accept.cxx,
-- nginx/net/ngx_c_socket.cxx): how the pool's operations and the handlers themselves change them.
use mathlib.Core.List.{
  Mem, erase, perm_cons_erase, mem-erase_of_ne, mem_of_mem-erase, mem-cons_of_mem, mem_of_ne_of_mem,
}
use cnginx.Common.{
  ℕ, Bool, true, false, ◌≡◌, ◌≢◌, ◌⊎◌, inl, refl, sym, arith, List, ◌∷◌, ℕ_discrete, subst,
}
use cnginx.Conn.{Conn, ngx_event_accept, ngx_read_request_handler, ngx_write_request_handler}
use cnginx.Epoll.{epollout}
use cnginx.Epoll.{epoll_oper_event}
use cnginx.Socket.{Socket, update, set_conn, get_connection, free_connection, in_recy_connect_queue}
use cnginx.Socket.Ownership.{
  Owned, Owned-perm, get_connection-Owned, free_connection-Owned, in_recy-Owned,
}
use cnginx.Socket.Untouched.{
  update_elim, conns-Owned, get_connection-not-mem, get_connection-others,
}
use cnginx.Events.{has_bits, register, client, establish}

-- A client's object has both handlers; a listening one accepts, and is not watched for EPOLLOUT.
abbrev pub IsClient : Conn → Type 0
IsClient c = (c.rhandler ≡ ngx_read_request_handler) × (c.whandler ≡ ngx_write_request_handler)

abbrev pub IsListener : Conn → Type 0
IsListener c = (c.rhandler ≡ ngx_event_accept) × (has_bits c.events epollout ≡ false)

abbrev pub IsWired : Conn → Type 0
IsWired c = IsClient c ⊎ IsListener c

-- The objects in use are those of `used`, and each of them has its handlers.
pub record Serves (s : Socket) (used : List ℕ) : Type 0 where
  pub owned : Owned s used
  pub wired : (q : ℕ) → Mem q used → IsWired (s.conns q)

-- Nothing has happened to an object in use other than `p`.
pub record Keeps (p : ℕ) (s t : Socket) (used used' : List ℕ) : Type 0 where
  pub serves : Serves t used'
  pub others : (q : ℕ) → Mem q used → q ≢ p → Mem q used' × (t.conns q ≡ s.conns q)

module _ (s : Socket) (used : List ℕ) (v : Serves s used) where
  pub same-Keeps : (p : ℕ) → Keeps p s s used used
  same-Keeps p = record { serves = v; others = λ q m n. (m, refl) }

  -- The object at `p` is replaced.
  pub set_conn-Keeps :
      (p : ℕ) (c : Conn) → (Mem p used → IsWired c) → Keeps p s (set_conn p c s) used used
  set_conn-Keeps p c h = record {
    serves = record {
      owned = conns-Owned s used v.owned _ _;
      wired = λ q m.
          update_elim IsWired s.conns p c q (λ e. h (subst (λ i. Mem i used) e m))
            (λ n. v.wired q m);
    };
    others = λ q m n. (m, ground arith);
  }

  pub retire-Keeps :
      (now p : ℕ)
      → Mem p used
      → Keeps p s (in_recy_connect_queue now p s) used (erase ℕ_discrete used p)
  unfolding in_recy_connect_queue
  retire-Keeps now p m = record {
    serves = record {
      owned = in_recy-Owned s _ now p (Owned-perm s used (perm_cons_erase ℕ_discrete m) v.owned);
      wired = λ q k.
          update_elim IsWired s.conns p _ q (λ e. v.wired p m)
            (λ n. v.wired q (mem_of_mem-erase ℕ_discrete p k));
    };
    others = λ q k n. ((mem-erase_of_ne ℕ_discrete n).1 k, ground arith);
  }

  not_new : (isock q : ℕ) → Mem q used → q ≢ (get_connection s isock).1
  not_new isock q m e = get_connection-not-mem s used v.owned isock (subst (λ i. Mem i used) e m)

  -- The object that the pool gives is none of those in use, whatever is written to it.
  taken :
      (isock q : ℕ) (c : Conn)
      → Mem q used
      → let (t, new) = get_connection s isock in (set_conn new c t).conns q ≡ s.conns q
  taken isock q c m =
      let (t, new) = get_connection s isock in
      let n = not_new isock q m in
      update_elim (λ d. d ≡ s.conns q) t.conns new c q (λ e. absurd (n e))
        (λ k. get_connection-others s isock q k)

  -- A new object is given its handlers.
  pub take-Keeps :
      (isock p : ℕ) (c : Conn)
      → IsWired c
      → let (t, new) = get_connection s isock in Keeps p s (set_conn new c t) used (new ∷ used)
  take-Keeps isock p c h =
      let (t, new) = get_connection s isock in
      record {
        serves = record {
          owned = conns-Owned t (new ∷ used) (get_connection-Owned s used isock v.owned) _ _;
          wired = λ q m.
              update_elim IsWired t.conns new c q (λ e. h)
                (λ n.
                  subst IsWired (sym (get_connection-others s isock q n))
                    (v.wired q (mem_of_ne_of_mem n m)));
        };
        others = λ q m n. (mem-cons_of_mem _ m, taken isock q c m);
      }

  -- A new object goes back to the pool, whatever has been written to it.
  pub give_back-Keeps :
      (isock p : ℕ) (f : ℕ → Conn)
      → ((q : ℕ) → Mem q used → f q ≡ s.conns q)
      → let (t, new) = get_connection s isock in
        Keeps p s (free_connection new (record t { conns = f })) used used
  unfolding free_connection
  give_back-Keeps isock p f h =
      let (t, new) = get_connection s isock in
      let put = record t { conns = f } in
      let same : (q : ℕ) → Mem q used → (free_connection new put).conns q ≡ s.conns q = λ q m.
        update_elim (λ d. d ≡ s.conns q) f new _ q (λ e. absurd (not_new isock q m e))
          (λ n. h q m) in
      record {
        serves = record {
          owned =
              free_connection-Owned put used new
                (conns-Owned t (new ∷ used) (get_connection-Owned s used isock v.owned) _ _);
          wired = λ q m. subst IsWired (sym (same q m)) (v.wired q m);
        };
        others = λ q m n. (m, same q m);
      }

  -- The object that ngx_event_accept registers
  registered : Bool → ℕ → ℕ → Conn
  registered ctl_ok p isock =
      let (t, new) = get_connection s isock in
      (register ctl_ok (client (s.conns p).listening (t.conns new))).0

  kept_if :
      (ctl_ok : Bool) (p isock : ℕ)
      → (used' : List ℕ) × Keeps p s (establish true ctl_ok true p isock s) used used'
  unfolding establish epoll_oper_event registered
  kept_if true p isock = (_, take-Keeps isock p (registered true p isock) (inl (refl, refl)))
  kept_if false p isock =
      let (t, new) = get_connection s isock in
      let c = registered false p isock in
      (_, give_back-Keeps isock p (update t.conns new c) (λ q m. taken isock q c m))

  -- ngx_event_accept, from ngx_get_connection on, ends with one more client or with none.
  pub establish-Keeps :
      (nonblock_ok ctl_ok use_accept4 : Bool) (p isock : ℕ)
      → (used' : List ℕ) × Keeps p s (establish nonblock_ok ctl_ok use_accept4 p isock s) used used'
  unfolding establish epoll_oper_event
  establish-Keeps false ctl_ok false p isock = (
    _,
    give_back-Keeps isock p t.conns (λ q m. get_connection-others s isock q (not_new isock q m)),
  )
    where
      t : Socket
      t = (get_connection s isock).0
  establish-Keeps true ctl_ok false p isock = kept_if ctl_ok p isock
  establish-Keeps nonblock_ok ctl_ok true p isock = kept_if ctl_ok p isock
