-- ===== src/System/Framing.antt =====
-- What a worker's connections and queues hold in each state (nginx/net/ngx_c_socket_request.cxx): a
-- connection in use is ready to go on reading; each job is a whole packet.
use cnginx.Common.{
  ℕ, ◌≤◌, ◌<◌, ◌≡◌, ◌⊎◌, inl, inr, refl, sym, ap, ◌∙◌, subst, arith, List, [], ◌∷◌, Bool, All,
  Option, length, map, take,
}
use cnginx.Common.Memory.{Bytes}
use cnginx.Common.Int.{ℤ}
use cnginx.Packet.{Message, data_bufsize}
use cnginx.Conn.{
  hd_init, hd_recving, bd_init, bd_recving, Conn, ngx_read_request_handler, get_one_to_use,
}
use cnginx.Epoll.{epoll_oper_event}
use cnginx.Recv.{read_bytes}
use cnginx.Recv.Frame.{IsPacket, feed, feed-IsPacket}
use cnginx.Recv.Refine.{Ready, entry, read_bytes-feed}
use cnginx.Recv.Memory.{Maybe}
use cnginx.Send.{Sent, transmit, write_request_handler}
use cnginx.Send.Kept.{Apart, apart, transmit-apart, write_request_handler-apart}
use cnginx.Events.{register, client}

-- The connection at `p` is in the midst of a header or a packet.
abbrev pub IsReading : ℕ → Conn → Type 0
IsReading p c = (pending : Bytes) × Ready p c pending

pub record Proper (p : ℕ) (c : Conn) : Type 0 where
  pub reads : c.rhandler ≡ ngx_read_request_handler → IsReading p c

-- A job is a whole packet.
abbrev pub IsJob : Option Message → Type 0
IsJob = Maybe (λ m. IsPacket m.pkg)

-- `Ready` is told by the members that sending leaves alone.
apart-Ready :
    (p : ℕ) (c d : Conn) (pending : Bytes)
    → apart d ≡ apart c
    → Ready p c pending
    → Ready p d pending
apart-Ready p c d pending e (inl v) = inl (record {
  short = v.short;
  cursor = ap (λ (a : Apart). a.precvbuf) e ∙ v.cursor;
  missing = omega (arith, v.missing, ap (λ (a : Apart). a.irecvlen) e);
  stat =
      subst
        (λ (a : Apart). ((a.cur_stat ≡ hd_init) × (length pending ≡ 0)) ⊎ (a.cur_stat ≡ hd_recving))
        (sym e) v.stat;
  size = ap (λ (a : Apart). length a.data_head_info) e ∙ v.size;
  kept = ap (λ (a : Apart). take (length pending) a.data_head_info) e ∙ v.kept;
  no_memory = ap (λ (a : Apart). a.precv_mem) e ∙ v.no_memory;
})
apart-Ready p c d pending e (inr (m, v)) = inr (
  m,
  record {
    memory = ap (λ (a : Apart). a.precv_mem) e ∙ v.memory;
    owner = v.owner;
    sequence = v.sequence ∙ sym (ap (λ (a : Apart). a.cur_sequence) e);
    cursor = ap (λ (a : Apart). a.precvbuf) e ∙ v.cursor;
    missing = omega (arith, v.missing, ap (λ (a : Apart). a.irecvlen) e);
    stat = subst (λ (a : Apart). (a.cur_stat ≡ bd_init) ⊎ (a.cur_stat ≡ bd_recving)) (sym e) v.stat;
    size = ap (λ (a : Apart). length a.data_head_info) e ∙ v.size;
    begun = v.begun;
    more = v.more;
    fits = v.fits;
    names = v.names;
    kept = v.kept;
  },
)

apart-IsReading :
    (p : ℕ) (c d : Conn)
    → apart d ≡ apart c
    → (c.rhandler ≡ ngx_read_request_handler → IsReading p c)
    → d.rhandler ≡ ngx_read_request_handler
    → IsReading p d
apart-IsReading p c d e h r =
    let (pending, v) = h (sym (ap (λ (a : Apart). a.rhandler) e) ∙ r) in
    (pending, apart-Ready p c d pending e v)

pub write-Proper :
    (p : ℕ) (ctl_ok : Bool) (c : Conn) (a : Sent)
    → Proper p c
    → Proper p (write_request_handler ctl_ok c a).0
write-Proper p ctl_ok c a v = record {
  reads = apart-IsReading p c _ (write_request_handler-apart ctl_ok c a) v.reads;
}

pub transmit-Proper :
    (p : ℕ) (ctl_ok : Bool) (c : Conn) (m : Message) (a : Sent)
    → Proper p c
    → Proper p (transmit ctl_ok c m a)
transmit-Proper p ctl_ok c m a v = record {
  reads = apart-IsReading p c _ (transmit-apart ctl_ok c m a) v.reads;
}

entries-IsJob : (p n : ℕ) (qs : List Bytes) → All IsPacket qs → All IsJob (map (entry p n) qs)
entries-IsJob p n [] h = tt
entries-IsJob p n (q ∷ qs) h = (h.0, entries-IsJob p n qs h.1)

module _ (new_char : ℕ → Bytes) (length-new_char : (n : ℕ) → length (new_char n) ≡ n) where
  pub read-Proper :
      (p : ℕ) (c : Conn) (bs : Bytes)
      → Proper p c
      → c.rhandler ≡ ngx_read_request_handler
      → 0 < length bs
      → length bs ≤ c.irecvlen
      → let r = read_bytes new_char p c bs in Proper p r.conn × All IsJob r.queued
  read-Proper p c bs v reads lo hi =
      let r = read_bytes new_char p c bs in
      let (pending, ready) = v.reads reads in
      let (next, queued, same) =
        read_bytes-feed new_char p length-new_char c pending bs ready lo hi in
      (
        record { reads = λ r. ((feed pending bs).0, next) },
        subst (All IsJob) (sym queued)
            (entries-IsJob p c.cur_sequence (feed pending bs).1 (feed-IsPacket bs pending)),
      )

-- An object made ready for a client, and registered.
pub registered-Proper :
    (p isock : ℕ) (port : Option ℕ) (ctl_ok : Bool) (c : Conn)
    → length c.data_head_info ≡ data_bufsize
    → Proper p (register ctl_ok (client port (record (get_one_to_use c) { fd = isock }))).0
unfolding get_one_to_use epoll_oper_event
registered-Proper p isock port ctl_ok c size = record { reads = λ r. ([], inl (ground arith)) }

-- A count that goes down.
pub lowered-Proper :
    (p : ℕ) (c : Conn) (count : ℤ) → Proper p c → Proper p (record c { throw_send_count = count })
lowered-Proper p c count v = record {
  reads = apart-IsReading p c (record c { throw_send_count = count }) refl v.reads;
}
