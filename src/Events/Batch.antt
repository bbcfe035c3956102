-- ===== src/Events/Batch.antt =====
-- A batch of events, as ngx_epoll_process_events of nginx/net/ngx_c_socket.cxx handles it: no
-- event meets an object without the handler that is called, whatever the events before it did.
use mathlib.Core.List.{
  Mem, Nodup, Nodup-cons, mem-cons, mem-map_of_mem, mem-cons_self, mem-cons_of_mem,
}
use cnginx.Common.{ℕ, true, ◌≡◌, ◌≢◌, inl, refl, sym, ◌∙◌, List, [], ◌∷◌, map, some, subst}
use cnginx.Common.Memory.{Bytes}
use cnginx.Conn.{Conn}
use cnginx.Epoll.{epollout}
use cnginx.Events.{has_bits, Event, Worker, handle_event, process_events}
use cnginx.Events.Wired.{Serves}
use cnginx.Events.Single.{Reported, handle_event-Handled}

module _ (new_char : ℕ → Bytes) where
  runs_on :
      (e : Event) (es : List Event) (w : Worker) {v u : Worker}
      → handle_event new_char e w ≡ some v
      → process_events new_char es v ≡ some u
      → process_events new_char (e ∷ es) w ≡ some u
  unfolding process_events
  runs_on e es w first rest = rw (process_events, first) rest

  -- In a worker that serves its connections a batch of events is handled to its end, no event
  -- calling a handler that is not set, and the worker then serves its connections: if each event is
  -- of an object in use, no two are of the same object, and EPOLLOUT is reported only where the
  -- object is watched for it. The objects in use that have no event stay in use, as they were.
  pub process_events-Serves :
      (w : Worker) (used : List ℕ) (es : List Event)
      → Serves w.sock used
      → Nodup (map (λ (e : Event). e.conn) es)
      → ((e : Event) → Mem e es → Mem e.conn used × Reported w.sock e)
      → (v : Worker) × (used' : List ℕ) × (process_events new_char es w ≡ some v)
        × Serves v.sock used'
        × ((q : ℕ)
            → Mem q used
            → ¬ Mem q (map (λ (e : Event). e.conn) es)
            → Mem q used' × (v.sock.conns q ≡ w.sock.conns q))
  unfolding process_events
  process_events-Serves w used [] v d h = (w, used, refl, v, λ q m n. (m, refl))
  process_events-Serves w used (e ∷ es) v d h =
      let (m, r) = h e mem-cons_self in
      let first = handle_event-Handled new_char e used w v m r in
      let later : (f : Event) → Mem f es → Mem f.conn first.in_use × Reported first.after.sock f =
        λ f k.
          let (l, reported) = h f (mem-cons_of_mem e k) in
          let other : f.conn ≢ e.conn = λ i. (Nodup-cons.0 d).0 (
            subst (λ j. Mem j (map (λ (g : Event). g.conn) es)) i
              (mem-map_of_mem (λ (g : Event). g.conn) k)) in
          let (l', same) = first.keeps.others f.conn l other in
          (
            l',
            subst
                (λ (c : Conn).
                  has_bits f.revents epollout ≡ true → has_bits c.events epollout ≡ true)
                (sym same) reported,
          ) in
      let (u, used', runs, serves, others) =
        process_events-Serves first.after first.in_use es first.keeps.serves (Nodup-cons.0 d).1
          later in
      (
        u,
        used',
        runs_on e es w first.runs runs,
        serves,
        λ q k n.
            let (l, same) = first.keeps.others q k (λ i. n (mem-cons.1 ∣ inl i ∣₁)) in
            let (l', same') = others q l (λ i. n (mem-cons_of_mem _ i)) in (l', same' ∙ same),
      )
