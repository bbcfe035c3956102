-- ===== src/Send/Stream.antt =====
-- What a connection's peer receives from the queue thread and the write handler together
-- (nginx/net/ngx_c_socket.cxx, nginx/net/ngx_c_socket_request.cxx): the packets one behind the
-- other.
use mathlib.Core.List.{flatten}
use cnginx.Common.{
  ℕ, ◌+◌, ◌≤◌, ◌<◌, Bool, true, false, ◌≡◌, ◌⊎◌, inl, inr, refl, sym, ap, ◌∙◌, arith, none, some,
  List, [], ◌∷◌, ◌++◌, append-nil, append_assoc, length, take, drop, Bool-cases, ◌==◌,
  take-append-drop, take-add, take-take, subst,
}
use cnginx.Common.Int.{pos, is_positive}
use cnginx.Common.Memory.{Bytes}
use cnginx.Packet.{Message, pkg_len}
use cnginx.Conn.{Conn}
use cnginx.Send.{Sent, bytes, closed, full, broken, outgoing, load, transmit, write_request_handler}

-- The bytes that go out with an answer: the first ones of what send() was given.
abbrev pub goes_out : Conn → Sent → Bytes
goes_out c (bytes n) = elim (outgoing c) [ none ↦ [] | some bs ↦ take n bs ]
goes_out c _ = []

-- A connection as its peer sees it: the object, and all bytes that have gone out.
pub record Line : Type 0 where
  pub conn : Conn
  pub wire : Bytes

-- The queue thread takes up a message, or epoll reports that the socket is writable.
pub data Event : Type 0 where
  takes_up : Bool → Message → Sent → Event
  writable : Bool → Sent → Event

unfoldable pub step : Line → Event → Line
step l (takes_up ctl_ok m a) = record {
  conn = transmit ctl_ok l.conn m a;
  wire = l.wire ++ goes_out (load l.conn m) a;
}
step l (writable ctl_ok a) = record {
  conn = (write_request_handler ctl_ok l.conn a).0;
  wire = l.wire ++ goes_out l.conn a;
}

pub run : Line → List Event → Line
unfolding step
run l [] = l
run l (e ∷ es) = run (step l e) es

-- A live peer: send() takes some of the bytes that it is given, or none for now.
abbrev pub IsLive : ℕ → Sent → Type 0
IsLive given (bytes n) = (0 < n) × (n ≤ given)
IsLive given full = Unit {0}
IsLive given _ = ⊥

-- The queue thread passes over a connection whose count is positive, and the write handler is
-- called for such a connection only. The message holds the packet that its header announces.
abbrev pub IsLegal : Line → Event → Type 0
IsLegal l (takes_up ctl_ok m a) =
    (is_positive l.conn.throw_send_count ≡ false)
    × (0 < pkg_len m.pkg)
    × (pkg_len m.pkg ≤ length m.pkg)
    × IsLive (pkg_len m.pkg) a
IsLegal l (writable ctl_ok a) =
    (is_positive l.conn.throw_send_count ≡ true) × IsLive l.conn.isendlen a

abbrev pub AreLegal : Line → List Event → Type 0
AreLegal l [] = Unit {0}
AreLegal l (e ∷ es) = IsLegal l e × AreLegal (step l e) es

abbrev pub packet : Message → Bytes
packet m = take (pkg_len m.pkg) m.pkg

-- The packets that the queue thread has taken up, in order.
abbrev pub taken_up : List Event → List Bytes
taken_up [] = []
taken_up (takes_up ctl_ok m a ∷ es) = packet m ∷ taken_up es
taken_up (writable ctl_ok a ∷ es) = taken_up es

-- No packet is under way.
record Idle (l : Line) (sent : Bytes) : Type 0 where
  count : l.conn.throw_send_count ≡ pos 0
  no_memory : l.conn.psend_mem ≡ none
  wire : l.wire ≡ sent

-- The packet of `m` is under way behind the bytes `sent`.
record Busy (l : Line) (sent : Bytes) (m : Message) : Type 0 where
  count : l.conn.throw_send_count ≡ pos 1
  memory : l.conn.psend_mem ≡ some m
  missing : l.conn.isendlen + l.conn.psendbuf ≡ pkg_len m.pkg
  more : 0 < l.conn.isendlen
  fits : pkg_len m.pkg ≤ length m.pkg
  wire : l.wire ≡ sent ++ take l.conn.psendbuf m.pkg

take_further :
    (k n given : ℕ) (xs : Bytes)
    → n ≤ given
    → take (k + n) xs ≡ take k xs ++ take n (take given (drop k xs))
take_further k n given xs h =
    take-add k n xs ∙ ap (◌++◌ (take k xs)) (sym (take-take n given (drop k xs) h))

-- What a step does when the queue thread takes up a message.
takes_up-Follows :
    (l : Line) (sent : Bytes) (ctl_ok : Bool) (m : Message) (a : Sent)
    → Idle l sent
    → IsLegal l (takes_up ctl_ok m a)
    → Idle (step l (takes_up ctl_ok m a)) (sent ++ packet m)
      ⊎ Busy (step l (takes_up ctl_ok m a)) sent m
unfolding step transmit
takes_up-Follows l sent ctl_ok m (bytes n) v h = elim (Bool-cases (n == pkg_len m.pkg)) [
  | inl e ↦ inl (ground (arith, take-take n (pkg_len m.pkg) m.pkg))
  | inr e ↦ inr (ground (arith, take-take n (pkg_len m.pkg) m.pkg))
]
takes_up-Follows l sent ctl_ok m full v h = inr (ground (arith, append-nil sent))
takes_up-Follows l sent ctl_ok m closed v h = absurd h.3
takes_up-Follows l sent ctl_ok m broken v h = absurd h.3

writable-Follows :
    (l : Line) (sent : Bytes) (ctl_ok : Bool) (m : Message) (a : Sent)
    → Busy l sent m
    → IsLegal l (writable ctl_ok a)
    → Idle (step l (writable ctl_ok a)) (sent ++ packet m)
      ⊎ Busy (step l (writable ctl_ok a)) sent m
unfolding step write_request_handler
writable-Follows l sent ctl_ok m (bytes n) v h =
    let k = l.conn.psendbuf in
    let given = l.conn.isendlen in
    let grown : (sent ++ take k m.pkg) ++ take n (take given (drop k m.pkg))
        ≡ sent ++ take (k + n) m.pkg =
      append_assoc sent (take k m.pkg) _
      ∙ ap (◌++◌ sent) (sym (take_further k n given m.pkg h.1.1)) in
    elim (Bool-cases (n == l.conn.isendlen)) [
      | inl e ↦
          inl (ground (arith, ap (λ (t : ℕ). sent ++ take t m.pkg) {x = k + n} {y = pkg_len m.pkg}))
      | inr e ↦ inr (ground arith)
    ]
writable-Follows l sent ctl_ok m full v h = inr (ground (arith, append-nil l.wire))
writable-Follows l sent ctl_ok m closed v h = absurd h.1
writable-Follows l sent ctl_ok m broken v h = absurd h.1

-- After any legal events, the peer has received whole packets and a part of one more.
abbrev Reached : Line → List Bytes → Type 0
Reached l packets =
    Idle l (flatten packets)
    ⊎ ((m : Message) × (before : List Bytes) × (packets ≡ before ++ packet m ∷ [])
        × Busy l (flatten before) m)

flatten-concat : (ps : List Bytes) (p : Bytes) → flatten (ps ++ p ∷ []) ≡ flatten ps ++ p
unfolding flatten
flatten-concat [] p = append-nil p
flatten-concat (q ∷ ps) p = rw (flatten-concat ps p, append_assoc)

step-Reached :
    (l : Line) (e : Event) (packets : List Bytes)
    → Reached l packets
    → IsLegal l e
    → Reached (step l e) (packets ++ taken_up (e ∷ []))
step-Reached l (takes_up ctl_ok m a) packets (inl v) h =
    elim (takes_up-Follows l (flatten packets) ctl_ok m a v h) [
      | inl w ↦ inl (rw (flatten-concat packets (packet m)) w)
      | inr w ↦ inr (m, packets, refl, w)
    ]
step-Reached l (takes_up ctl_ok m a) packets (inr (k, before, e, v)) h = absurd (ground arith)
step-Reached l (writable ctl_ok a) packets (inl v) h = absurd (ground arith)
step-Reached l (writable ctl_ok a) packets (inr (m, before, e, v)) h =
    rw append-nil (elim (writable-Follows l (flatten before) ctl_ok m a v h) [
      | inl w ↦ inl (rw (e, flatten-concat before (packet m)) w)
      | inr w ↦ inr (m, before, e, w)
    ])

taken_up-cons : (e : Event) (es : List Event) → taken_up (e ∷ es) ≡ taken_up (e ∷ []) ++ taken_up es
taken_up-cons (takes_up ctl_ok m a) es = refl
taken_up-cons (writable ctl_ok a) es = refl

run-Reached :
    (es : List Event) (l : Line) (packets : List Bytes)
    → Reached l packets
    → AreLegal l es
    → Reached (run l es) (packets ++ taken_up es)
unfolding run
run-Reached [] l packets v h = rw append-nil v
run-Reached (e ∷ es) l packets v h =
    subst (Reached (run (step l e) es))
      (append_assoc packets (taken_up (e ∷ [])) (taken_up es)
        ∙ ap (◌++◌ packets) (sym (taken_up-cons e es)))
      (run-Reached es (step l e) (packets ++ taken_up (e ∷ [])) (step-Reached l e packets v h.0)
        h.1)

part_whole :
    (k : ℕ) (sent : Bytes) (m : Message) {wire : Bytes}
    → k ≤ pkg_len m.pkg
    → wire ≡ sent ++ take k m.pkg
    → wire ++ drop k (packet m) ≡ sent ++ packet m
part_whole k sent m h e =
    ap (λ (w : Bytes). w ++ drop k (packet m)) (e ∙ ap (◌++◌ sent) (sym (take-take k _ m.pkg h)))
    ∙ append_assoc sent (take k (packet m)) (drop k (packet m))
    ∙ ap (◌++◌ sent) (take-append-drop k (packet m))

pub record IsFresh (l : Line) : Type 0 where
  pub count : l.conn.throw_send_count ≡ pos 0
  pub no_memory : l.conn.psend_mem ≡ none
  pub nothing_sent : l.wire ≡ []

-- A connection has nothing under way and has sent nothing; the queue thread takes up messages
-- only while iThrowsendCount is not positive, each with the packet that its header announces,
-- and the write handler is called only while it is. To a live peer, what has gone out is always
-- a first part of the packets taken up, one behind the other in the order of the queue, and it
-- is all of them whenever iThrowsendCount is not positive: packets are neither mixed, nor cut,
-- nor sent twice, however send() splits them.
pub run-wire :
    (es : List Event) (l : Line)
    → IsFresh l
    → AreLegal l es
    → ((rest : Bytes) × ((run l es).wire ++ rest ≡ flatten (taken_up es)))
      × (is_positive (run l es).conn.throw_send_count ≡ false
          → (run l es).wire ≡ flatten (taken_up es))
run-wire es l f h = both (run-Reached es l [] start h)
  where
    start : Reached l []
    start = inl (
        unfold flatten in
        record { count = f.count; no_memory = f.no_memory; wire = f.nothing_sent })

    both :
        Reached (run l es) (taken_up es)
        → ((rest : Bytes) × ((run l es).wire ++ rest ≡ flatten (taken_up es)))
          × (is_positive (run l es).conn.throw_send_count ≡ false
              → (run l es).wire ≡ flatten (taken_up es))
    both (inl v) = (([], append-nil _ ∙ v.wire), λ e. v.wire)
    both (inr (m, before, e, v)) = (
      (
        drop (run l es).conn.psendbuf (packet m),
        part_whole (run l es).conn.psendbuf (flatten before) m (omega (arith, v.missing)) v.wire
            ∙ sym (flatten-concat before (packet m))
            ∙ ap flatten (sym e),
      ),
      λ e. absurd (ground arith),
    )
