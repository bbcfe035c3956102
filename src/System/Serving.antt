-- ===== src/System/Serving.antt =====
-- A worker keeps serving its connections, whatever order its threads' steps come in: no step takes
-- an object in use its handlers away, or arms EPOLLOUT for a listening socket
-- (nginx/net/ngx_c_socket.cxx).
use mathlib.Core.Option.{some-injective}
use cnginx.Common.{
  ℕ, suc, ◌^◌, ◌≤◌, ◌<◌, ◌≡◌, inl, inr, sym, ap, ◌∙◌, arith, subst, List, ◌++◌, Bool,
}
use cnginx.Common.Memory.{Bytes}
use cnginx.Packet.{Message}
use cnginx.Conn.{Conn, put_one_to_free}
use cnginx.Send.{transmit, msg_send}
use cnginx.Send.Kept.{Apart, apart, transmit-apart}
use cnginx.Socket.{Socket, recycle, free_connection}
use cnginx.Socket.Ownership.{recycle-Owned}
use cnginx.Socket.Sweep.{Found, take_first-Found}
use cnginx.Socket.Untouched.{update_elim}
use cnginx.Socket.Uses.{InUse-Mem}
use cnginx.Logic.Sends.{thread_recv_proc_cases}
use cnginx.Events.{Worker}
use cnginx.Events.Wired.{Serves, IsClient, IsWired, set_conn-Keeps}
use cnginx.Events.Single.{handle_event-Handled}
use cnginx.System.{
  System, Step, Steps, here, later, event, takes, handles, visits, sends, recycles, send_on,
}
use cnginx.System.Cases.{visit_cases}
use cnginx.System.Turning.{with_sends, Step-Evolves}
use cnginx.System.Stamps.{MaybeStamp}
use cnginx.System.Origins.{Sound, Origin, Origin-not_Accepting, next-Stamped}

with_sends-Serves :
    {s : Socket} {used : List ℕ} (queue : List Message) (count sem : ℕ)
    → Serves s used
    → Serves (with_sends queue count sem s) used
with_sends-Serves queue count sem v = record {
  owned = record {
    shared = v.owned.shared;
    distinct = v.owned.distinct;
    fresh = v.owned.fresh;
    total = v.owned.total;
    free = v.owned.free;
    recycling = v.owned.recycling;
  };
  wired = v.wired;
}

recycle-Serves :
    (s : Socket) (used : List ℕ) {test : ℕ → Bool} (p : ℕ) (rest : List ℕ)
    → Found test s.recyconnection_list p rest
    → Serves s used
    → Serves (recycle p rest s) used
unfolding recycle free_connection put_one_to_free
recycle-Serves s used p rest f v = record {
  owned = recycle-Owned s used p rest f v.owned;
  wired = λ q m.
      update_elim IsWired s.conns p _ q (λ e. subst (λ i. IsWired (s.conns i)) e (v.wired q m))
        (λ n. v.wired q m);
}

-- The use of an object that serves is told by its members for receiving.
apart-IsClient : (c d : Conn) → apart d ≡ apart c → IsClient c → IsClient d
apart-IsClient c d e k =
    (ap (λ (a : Apart). a.rhandler) e ∙ k.0, ap (λ (a : Apart). a.whandler) e ∙ k.1)

module _ (new_char : ℕ → Bytes) (start : System) where
  -- A step leaves the objects in use to those that they serve.
  abbrev Serving : System → Type 0
  Serving t = (used : List ℕ) × Serves t.worker.sock used

  Step-Serving :
      {n : ℕ} {s t : System} → n < 2 ^ 63 → Sound new_char start n s → Step new_char s t → Serving t
  Step-Serving {s} few v (event e w possible r) =
      let h =
        handle_event-Handled new_char e v.used s.worker v.serves
          (InUse-Mem e.conn s.worker.sock v.used v.serves.owned possible.in_use)
          possible.reported in
      (
        h.in_use,
        subst (λ (u : Worker). Serves u.sock h.in_use) (some-injective _ _ (sym h.runs ∙ r))
            h.keeps.serves,
      )
  Step-Serving few v (takes m rest r) = (v.used, v.serves)
  Step-Serving {s} few v (handles junk post_ok m xs ys r) = (
    v.used,
    thread_recv_proc_cases junk post_ok m s.worker.sock (λ t. Serves t v.used) v.serves
        (unfold msg_send in with_sends-Serves _ _ _ v.serves),
  )
  Step-Serving {s} few v (visits m xs ys idle r) = (
    v.used,
    visit_cases (λ t hand. Serves t v.used) m (xs ++ ys) s.worker.sock
        (λ stale. with_sends-Serves _ _ _ v.serves) v.serves
        (λ fresh. with_sends-Serves _ _ _ v.serves),
  )
  Step-Serving {n} {s} few v (sends ctl_ok answer m r) = (
    v.used,
    unfold send_on in
        (set_conn-Keeps s.worker.sock v.used v.serves m.conn _ (λ k. inl (
          apart-IsClient c (transmit ctl_ok c m answer) (transmit-apart ctl_ok c m answer)
            (elim (v.serves.wired m.conn k) [
              | inl client ↦ client
              | inr listener ↦
                  absurd
                    (Origin-not_Accepting new_char start m.conn m.cur_sequence origin listener.0)
            ])))).serves,
  )
    where
      c : Conn
      c = s.worker.sock.conns m.conn

      origin : Origin new_char start n s m.conn m.cur_sequence
      origin = subst (MaybeStamp (Origin new_char start n s)) r v.stamped.sending
  Step-Serving {s} few v (recycles currtime stop p rest r) =
      (v.used, recycle-Serves s.worker.sock v.used p rest (take_first-Found _ _ r) v.serves)

  Step-Sound :
      {n : ℕ} {s t : System}
      → n < 2 ^ 63
      → Steps new_char start s n
      → Sound new_char start n s
      → Step new_char s t
      → Sound new_char start (suc n) t
  Step-Sound few run v st =
      let (used, serves) = Step-Serving few v st in
      record {
        used = used;
        serves = serves;
        words = (Step-Evolves new_char v.words st).word;
        stamped = next-Stamped new_char start run v st;
      }

  -- Nothing is held yet.
  pub Steps-Sound :
      {n : ℕ} {t : System}
      → n ≤ 2 ^ 63
      → Sound new_char start 0 start
      → Steps new_char start t n
      → Sound new_char start n t
  Steps-Sound few v here = v
  Steps-Sound few v (later r st) = Step-Sound (omega arith) r (Steps-Sound (omega arith) v r) st
