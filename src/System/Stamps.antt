-- ===== src/System/Stamps.antt =====
-- The messages that a worker holds, wherever they are, and the stamps that they carry: pConn and
-- iCurrsequence of STRUC_MSG_HEADER, nginx/_include/ngx_c_socket.h.
use cnginx.Common.{
  ℕ, sym, subst, List, [], ◌∷◌, ◌++◌, Bool, Option, All, Bool-cases, inl, inr, ◌==◌, ℕ_discrete,
}
use cnginx.Epoll.{epoll_oper_event}
use cnginx.Send.{Sent, bytes, closed, full, broken, transmit, write_request_handler}
use cnginx.Packet.{Message, pkg_len}
use cnginx.Conn.{Conn, put_one_to_free, get_one_to_use}
use cnginx.Recv.Memory.{Maybe}
use cnginx.Socket.{
  set_conn, free_connection, recycle, unlist, in_recy_connect_queue, get_connection,
}
use cnginx.Socket.Uses.{get_connection-Taken}
use cnginx.Events.{Worker}
use cnginx.Socket.Untouched.{update_elim, get_connection-others}
use cnginx.System.{System}

module _ (P : ℕ → ℕ → Type 0) where
  abbrev pub Stamp : Message → Type 0
  Stamp m = P m.conn m.cur_sequence

  abbrev pub MaybeStamp : Option Message → Type 0
  MaybeStamp = Maybe Stamp

  -- The two blocks that belong to a connection.
  pub record Buffers (c : Conn) : Type 0 where
    pub reading : MaybeStamp c.precv_mem
    pub sending : MaybeStamp c.psend_mem

  -- Each message in the worker's queues and blocks has a stamp that satisfies `P`.
  pub record Holds (w : Worker) : Type 0 where
    pub jobs : All MaybeStamp w.queued
    pub replies : All Stamp w.sock.msg_send_queue
    pub buffers : (p : ℕ) → Buffers (w.sock.conns p)

  -- So does each job in the hands of a pool thread, and the message that is to be sent.
  pub record Stamped (s : System) : Type 0 where
    pub held : Holds s.worker
    pub in_hand : All Stamp s.in_hand
    pub sending : MaybeStamp s.sending

  pub set_conn-Holds :
      (p : ℕ) (c : Conn) (w : Worker)
      → Holds w
      → Buffers c
      → Holds (record w { sock = set_conn p c w.sock })
  set_conn-Holds p c w v b = record {
    jobs = v.jobs;
    replies = v.replies;
    buffers = λ q. update_elim Buffers w.sock.conns p c q (λ e. b) (λ n. v.buffers q);
  }

  pub free-Holds :
      (p : ℕ) (w : Worker) → Holds w → Holds (record w { sock = free_connection p w.sock })
  unfolding free_connection put_one_to_free
  free-Holds p w v = record {
    jobs = v.jobs;
    replies = v.replies;
    buffers = λ q.
        update_elim Buffers w.sock.conns p _ q (λ e. record { reading = tt; sending = tt })
          (λ n. v.buffers q);
  }

  pub recycle-Holds :
      (p : ℕ) (rest : List ℕ) (w : Worker)
      → Holds w
      → Holds (record w { sock = recycle p rest w.sock })
  unfolding recycle
  recycle-Holds p rest w v =
      let u =
        free-Holds p (record w { sock = unlist rest w.sock })
          (record { jobs = v.jobs; replies = v.replies; buffers = v.buffers }) in
      record { jobs = u.jobs; replies = u.replies; buffers = u.buffers }

  pub in_recy-Holds :
      (now p : ℕ) (w : Worker)
      → Holds w
      → Holds (record w { sock = in_recy_connect_queue now p w.sock })
  unfolding in_recy_connect_queue
  in_recy-Holds now p w v = record {
    jobs = v.jobs;
    replies = v.replies;
    buffers = λ q.
        update_elim Buffers w.sock.conns p _ q
          (λ e. record { reading = (v.buffers p).reading; sending = (v.buffers p).sending })
          (λ n. v.buffers q);
  }

  pub get_connection-Holds :
      (isock : ℕ) (w : Worker)
      → Holds w
      → Holds (record w { sock = (get_connection w.sock isock).0 })
  unfolding get_one_to_use
  get_connection-Holds isock w v =
      let (t, new) = get_connection w.sock isock in
      let g = get_connection-Taken w.sock isock in
      record {
        jobs = v.jobs;
        replies = subst (All Stamp) (sym g.same_queue) v.replies;
        buffers = λ q. elim (ℕ_discrete q new) [
          | yes e ↦
              subst (λ i. Buffers (t.conns i)) (sym e)
                (subst Buffers (sym g.made) (record { reading = tt; sending = tt }))
          | no n ↦ subst Buffers (sym (get_connection-others w.sock isock q n)) (v.buffers q)
        ];
      }

  -- What remains under way was so before.
  pub write-Buffers :
      (ctl_ok : Bool) (c : Conn) (a : Sent)
      → Buffers c
      → Buffers (write_request_handler ctl_ok c a).0
  unfolding write_request_handler epoll_oper_event
  write-Buffers ctl_ok c (bytes n) v = elim (Bool-cases (n == c.isendlen)) [
    | inl whole ↦ rw whole (record { reading = v.reading; sending = tt })
    | inr part ↦ rw part (record { reading = v.reading; sending = v.sending })
  ]
  write-Buffers ctl_ok c closed v = record { reading = v.reading; sending = tt }
  write-Buffers ctl_ok c full v = v
  write-Buffers ctl_ok c broken v = record { reading = v.reading; sending = tt }

  pub transmit-Buffers :
      (ctl_ok : Bool) (c : Conn) (m : Message) (a : Sent)
      → Stamp m
      → Buffers c
      → Buffers (transmit ctl_ok c m a)
  unfolding transmit epoll_oper_event
  transmit-Buffers ctl_ok c m (bytes n) h v = elim (Bool-cases (n == pkg_len m.pkg)) [
    | inl whole ↦ rw whole (record { reading = v.reading; sending = tt })
    | inr part ↦ rw part (record { reading = v.reading; sending = h })
  ]
  transmit-Buffers ctl_ok c m closed h v = record { reading = v.reading; sending = tt }
  transmit-Buffers ctl_ok c m full h v = record { reading = v.reading; sending = h }
  transmit-Buffers ctl_ok c m broken h v = record { reading = v.reading; sending = tt }

  pub All-middle :
      (xs ys : List Message) (m : Message)
      → All (Stamp) (xs ++ m ∷ ys)
      → Stamp m × All (Stamp) (xs ++ ys)
  All-middle [] ys m h = h
  All-middle (x ∷ xs) ys m h = let (a, b) = All-middle xs ys m h.1 in (a, (h.0, b))
