-- ===== src/System/Origins.antt =====
-- Where the messages that a worker holds come from: each was read from its connection at some
-- point of the run (nginx/net/ngx_c_socket_request.cxx), and iCurrsequence tells whether the
-- connection is still in the use of that time.
use cnginx.Common.{
  ℕ, suc, ◌+◌, ◌<◌, ◌≡◌, inl, inr, refl, ap, arith, List, [], ◌∷◌, some, none, Option, All,
}
use cnginx.Common.Memory.{Bytes}
use cnginx.Packet.{Message}
use cnginx.Socket.Sequence.{sequence_of}
use cnginx.Socket.Uses.{InUse-Mem}
use cnginx.Sys.{got}
use cnginx.Events.{Event, handle_event}
use cnginx.Events.Wired.{Serves}
use cnginx.System.{System, Step, Steps, here, later}
use cnginx.System.Evolving.{Client, IsWord, IsAccepting}
use cnginx.System.Turning.{Steps-Evolves}
use cnginx.System.Stamps.{Stamp, MaybeStamp, Stamped}
use cnginx.System.Stamping.{Reads, Step-Stamped}

module _ {P Q : ℕ → ℕ → Type 0} (f : (p q : ℕ) → P p q → Q p q) where
  Maybe-map : (m : Option Message) → MaybeStamp P m → MaybeStamp Q m
  Maybe-map none h = tt
  Maybe-map (some m) h = f m.conn m.cur_sequence h

  jobs-map : (ms : List (Option Message)) → All (MaybeStamp P) ms → All (MaybeStamp Q) ms
  jobs-map [] h = tt
  jobs-map (m ∷ ms) h = (Maybe-map m h.0, jobs-map ms h.1)

  stamps-map : (ms : List Message) → All (Stamp P) ms → All (Stamp Q) ms
  stamps-map [] h = tt
  stamps-map (m ∷ ms) h = (f m.conn m.cur_sequence h.0, stamps-map ms h.1)

  pub Stamped-map : (s : System) → Stamped P s → Stamped Q s
  Stamped-map s v = record {
    held = record {
      jobs = jobs-map s.worker.queued v.held.jobs;
      replies = stamps-map s.worker.sock.msg_send_queue v.held.replies;
      buffers = λ p. record {
        reading = Maybe-map (s.worker.sock.conns p).precv_mem (v.held.buffers p).reading;
        sending = Maybe-map (s.worker.sock.conns p).psend_mem (v.held.buffers p).sending;
      };
    };
    in_hand = stamps-map s.in_hand v.in_hand;
    sending = Maybe-map s.sending v.sending;
  }

module _ (new_char : ℕ → Bytes) (start : System) where
  -- In a run of `n` steps to the state `t`, the connection at `p` was a client's, with the number
  -- `q`, when it was read.
  pub record Origin (n : ℕ) (t : System) (p q : ℕ) : Type 0 where
    pub at_read : System
    pub before : ℕ
    pub since : ℕ
    pub from_start : Steps new_char start at_read before
    pub to_here : Steps new_char at_read t since
    pub whole : before + since ≡ n
    pub known : p < at_read.worker.sock.next_address
    pub words : IsWord at_read.worker.sock
    pub event : Event
    pub bs : Bytes
    pub at : event.conn ≡ p
    pub received : event.received ≡ got bs
    pub after : System
    pub handled : handle_event new_char event at_read.worker ≡ some after.worker
    pub rest : ℕ
    pub since_read : since ≡ suc rest
    pub goes_on : Steps new_char after t rest
    pub client : Client p at_read.worker.sock
    pub stamp : sequence_of p at_read.worker.sock ≡ q

  Origin-suc :
      {n : ℕ} {t u : System} → Step new_char t u → (p q : ℕ) → Origin n t p q → Origin (suc n) u p q
  Origin-suc st p q o = record {
    at_read = o.at_read;
    before = o.before;
    since = suc o.since;
    from_start = o.from_start;
    to_here = later o.to_here st;
    whole = omega (arith, o.whole);
    known = o.known;
    words = o.words;
    event = o.event;
    bs = o.bs;
    at = o.at;
    received = o.received;
    after = o.after;
    handled = o.handled;
    rest = suc o.rest;
    since_read = ap suc o.since_read;
    goes_on = later o.goes_on st;
    client = o.client;
    stamp = o.stamp;
  }

  -- A state in which the objects in use have their handlers, and each message was read before.
  pub record Sound (n : ℕ) (t : System) : Type 0 where
    pub used : List ℕ
    pub serves : Serves t.worker.sock used
    pub words : IsWord t.worker.sock
    pub stamped : Stamped (Origin n t) t

  readers :
      {n : ℕ} {t u : System}
      → Steps new_char start t n
      → Sound n t
      → Step new_char t u
      → Reads new_char (Origin (suc n) u) t u
  readers {n} {t} {u} run v st e bs i reads got_some handled = record {
    at_read = t;
    before = n;
    since = 1;
    from_start = run;
    to_here = later here st;
    whole = omega arith;
    known = v.serves.owned.fresh e.conn i.known;
    words = v.words;
    event = e;
    bs = bs;
    at = refl;
    received = got_some;
    after = u;
    handled = handled;
    rest = 0;
    since_read = refl;
    goes_on = here;
    client = record {
      in_use = i;
      wired =
          elim (v.serves.wired e.conn (InUse-Mem e.conn t.worker.sock v.used v.serves.owned i)) [
            | inl c ↦ c
            | inr l ↦ absurd (ground arith)
          ];
    };
    stamp = refl;
  }

  pub next-Stamped :
      {n : ℕ} {t u : System}
      → Steps new_char start t n
      → Sound n t
      → Step new_char t u
      → Stamped (Origin (suc n) u) u
  next-Stamped {n} {t} {u} run v st =
      Step-Stamped (Origin (suc n) u) new_char (readers run v st)
        (Stamped-map (Origin-suc st) t v.stamped) st

  -- An object whose bytes were read is no listening one.
  pub Origin-not_Accepting :
      {n : ℕ} {t : System} (p q : ℕ) → Origin n t p q → ¬ IsAccepting p t.worker.sock
  Origin-not_Accepting p q o a =
      let was = (Steps-Evolves new_char o.words o.to_here).accepting p o.known a in
      let reads = o.client.wired.0 in cc
