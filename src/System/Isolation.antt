-- ===== src/System/Isolation.antt =====
-- A packet, and the reply to it, stay with the client that sent it: what the numbers of
-- nginx/net/ngx_c_socket_conn.cxx do for a worker as a whole, whatever its threads do in between.
use cnginx.Common.{ℕ, suc, some, ◌+◌, ◌^◌, ◌<◌, ◌≡◌, sym, subst, List, [], none, All}
use cnginx.Common.Memory.{Bytes}
use cnginx.Socket.Sequence.{sequence_of}
use cnginx.Sys.{got}
use cnginx.Events.{Event, handle_event}
use cnginx.Events.Wired.{Serves}
use cnginx.System.{System, Steps}
use cnginx.System.Evolving.{Client, IsWord}
use cnginx.System.Stamps.{Stamp, MaybeStamp}
use cnginx.System.Origins.{Sound}

-- A worker that serves, and holds no message.
pub record AtStart (s : System) : Type 0 where
  pub used : List ℕ
  pub serves : Serves s.worker.sock used
  pub words : IsWord s.worker.sock
  pub no_jobs : s.worker.queued ≡ []
  pub none_in_hand : s.in_hand ≡ []
  pub none_to_send : s.sending ≡ none
  pub no_replies : s.worker.sock.msg_send_queue ≡ []
  pub no_blocks :
      (p : ℕ)
      → ((s.worker.sock.conns p).precv_mem ≡ none) × ((s.worker.sock.conns p).psend_mem ≡ none)

module _ (new_char : ℕ → Bytes) (start : System) where
  pub AtStart-Sound : AtStart start → Sound new_char start 0 start
  AtStart-Sound v = record {
    used = v.used;
    serves = v.serves;
    words = v.words;
    stamped = record {
      held = record {
        jobs = subst (All (MaybeStamp _)) (sym v.no_jobs) tt;
        replies = subst (All (Stamp _)) (sym v.no_replies) tt;
        buffers = λ p. record {
          reading = subst (MaybeStamp _) (sym (v.no_blocks p).0) tt;
          sending = subst (MaybeStamp _) (sym (v.no_blocks p).1) tt;
        };
      };
      in_hand = subst (All (Stamp _)) (sym v.none_in_hand) tt;
      sending = subst (MaybeStamp _) (sym v.none_to_send) tt;
    };
  }

  -- In the run of `n` steps that ends in `t`, the worker read bytes of the connection at `p` in the
  -- state `at_read`. From then on the connection has been the same client's, with the number `q`, in
  -- every state up to `t`.
  pub record SameUse (n : ℕ) (t : System) (p q : ℕ) : Type 0 where
    pub at_read : System
    pub before : ℕ
    pub from_start : Steps new_char start at_read before
    pub event : Event
    pub bs : Bytes
    pub at : event.conn ≡ p
    pub received : event.received ≡ got bs
    pub after : System
    pub handled : handle_event new_char event at_read.worker ≡ some after.worker
    pub rest : ℕ
    pub goes_on : Steps new_char after t rest
    pub whole : before + suc rest ≡ n
    pub between :
        {u : System} {k l : ℕ}
        → Steps new_char at_read u k
        → Steps new_char u t l
        → k + l < 2 ^ 63
        → Client p u.worker.sock × (sequence_of p u.worker.sock ≡ q)
