-- ===== src/Socket/Untouched.antt =====
-- What the pool operations of nginx/net/ngx_c_socket_conn.cxx leave alone: the objects that the
-- caller did not ask for, and those in use.
use mathlib.Core.List.{Mem, Nodup-cons, mem-append_right}
use mathlib.Core.List.Perm
use cnginx.Common.{ℕ, ◌≡◌, ◌≢◌, subst, ℕ_discrete, arith, List, [], ◌∷◌}
use cnginx.Conn.{Conn}
use cnginx.Socket.{Socket, update, get_connection, get_from}
use cnginx.Socket.Ownership.{Owned, get_connection-Owned, front_third}

-- What holds of the new object, and of every other one at its own address, holds in the store that
-- is written.
pub update_elim :
    (P : Conn → Type 0) (conns : ℕ → Conn) (p : ℕ) (c : Conn) (q : ℕ)
    → ((q ≡ p) → P c)
    → (q ≢ p → P (conns q))
    → P (update conns p c q)
update_elim P conns p c q here there = elim (ℕ_discrete q p) [
  | yes e ↦ subst P {x = c} {y = update conns p c q} (ground arith) (here e)
  | no n ↦ subst P {x = conns q} {y = update conns p c q} (ground arith) (there n)
]

module _ (s : Socket) (used : List ℕ) (v : Owned s used) where
  -- Writing to the objects or to a semaphore does not change which objects are in use.
  pub conns-Owned :
      (conns' : ℕ → Conn) (sem : ℕ)
      → Owned (record s { conns = conns'; sem_event_send_queue = sem }) used
  conns-Owned conns' sem = record {
    shared = v.shared;
    distinct = v.distinct;
    fresh = v.fresh;
    total = v.total;
    free = v.free;
    recycling = v.recycling;
  }

  -- The object that the pool gives is not in use.
  pub get_connection-not-mem : (isock : ℕ) → ¬ Mem (get_connection s isock).1 used
  get_connection-not-mem isock m =
      let w = get_connection-Owned s used isock v in
      let t = (get_connection s isock).0 in
      let ps =
        Perm.trans (Perm.symm (front_third _ t.freeconnection_list t.recyconnection_list used))
          w.shared in
      (Nodup-cons.0 (Perm.nodup (Perm.symm ps) w.distinct)).0
        (mem-append_right _ (mem-append_right _ m))

get_from-others :
    (free : List ℕ) (s : Socket) (isock q : ℕ)
    → q ≢ (get_from free s isock).1
    → (get_from free s isock).0.conns q ≡ s.conns q
unfolding get_from
get_from-others [] s isock q n = ground arith
get_from-others (p ∷ rest) s isock q n = ground arith

pub get_connection-others :
    (s : Socket) (isock q : ℕ)
    → q ≢ (get_connection s isock).1
    → (get_connection s isock).0.conns q ≡ s.conns q
unfolding get_connection
get_connection-others s isock q n = get_from-others s.freeconnection_list s isock q n
