-- ===== src/Reader/Stale.antt =====
-- Which packets threadRecvProcFunc may still handle after a read
-- (nginx/net/ngx_c_socket_request.cxx, nginx/logic/ngx_c_slogic.cxx).
use cnginx.Common.{
  ℕ, ◌^◌, ◌<◌, ◌≤◌, ◌≡◌, ◌==◌, refl, sym, ap, ◌∙◌, arith, Bool, true, false, Option, none, some,
  List, [], ◌∷◌, length, map, All, subst, inl, inr, not,
}
use cnginx.Common.Memory.{Bytes}
use cnginx.Sys.{RecvResult, got, closed, failed, eagain, eintr}
use cnginx.Packet.{Message}
use cnginx.Conn.{Conn}
use cnginx.Recv.{read_bytes}
use cnginx.Recv.Frame.{feed}
use cnginx.Recv.Refine.{Ready, entry, read_bytes-feed}
use cnginx.Socket.{Socket, set_conn, update, in_recy_connect_queue}
use cnginx.Socket.Sequence.{sequence_of}
use cnginx.Send.{is_stale}
use cnginx.Logic.{thread_recv_proc}
use cnginx.Logic.Accept.{thread_recv_proc-IsAccepted}
use cnginx.Reader.{recvproc, read_request_handler, Handled}

-- The answers of recv() after which the connection is over.
abbrev pub IsLost : RecvResult → Type 0
IsLost (got []) = Unit {0}
IsLost (got (b ∷ bs)) = ⊥
IsLost closed = Unit {0}
IsLost (failed eagain) = ⊥
IsLost (failed eintr) = ⊥
IsLost (failed e) = Unit {0}

module _ (new_char : ℕ → Bytes) (now p : ℕ) (s : Socket) where
  lost-retired :
      (result : RecvResult)
      → IsLost result
      → read_request_handler new_char now p result s
        ≡ record { sock = in_recy_connect_queue now p s; queued = [] }
  unfolding read_request_handler recvproc
  lost-retired (got []) h = refl
  lost-retired (got (b ∷ bs)) h = elim h [ ]
  lost-retired closed h = refl
  lost-retired (failed eagain) h = elim h [ ]
  lost-retired (failed eintr) h = elim h [ ]
  lost-retired (failed _) h = refl

  -- A packet of the use that ends is stale then.
  ended :
      (m : Message)
      → m.conn ≡ p
      → m.cur_sequence ≡ sequence_of p s
      → sequence_of p s < 2 ^ 64
      → is_stale m (in_recy_connect_queue now p s) ≡ true
  unfolding in_recy_connect_queue
  ended m e q bound = ground arith

  -- When recv says that a connection is over, the packets that came in this use of it are not
  -- handled any more: the handler's socket refuses each of them, whatever it holds, and stays as it
  -- is.
  pub lost_packets_refused :
      (junk : Bytes) (post_ok : Bool) (result : RecvResult) (m : Message)
      → IsLost result
      → m.conn ≡ p
      → m.cur_sequence ≡ sequence_of p s
      → sequence_of p s < 2 ^ 64
      → let t = (read_request_handler new_char now p result s).sock in
        let r = thread_recv_proc junk post_ok m t in (r.result ≡ none) × (r.sock ≡ t)
  lost_packets_refused junk post_ok result m lost e q bound =
      let t = in_recy_connect_queue now p s in
      let refused : (thread_recv_proc junk post_ok m t).result ≡ none
          × (thread_recv_proc junk post_ok m t).sock ≡ t =
        elim (thread_recv_proc-IsAccepted junk post_ok m t) [
          | inl (accepted, _) ↦ absurd (ground (arith, ended m e q bound))
          | inr (_, none_called, same) ↦ (none_called, same)
        ] in
      subst
        (λ (h : Handled).
          ((thread_recv_proc junk post_ok m h.sock).result ≡ none)
          × ((thread_recv_proc junk post_ok m h.sock).sock ≡ h.sock))
        (sym (lost-retired result lost)) refused

  -- The packet is of the use in which the connection at `p` is.
  abbrev pub IsCurrent : Socket → Option Message → Type 0
  IsCurrent t none = ⊥
  IsCurrent t (some m) = (m.conn ≡ p) × (is_stale m t ≡ false)

  at_home : (c : Conn) → update s.conns p c p ≡ c
  at_home c = ground arith

  entries-IsCurrent :
      (c : Conn) (qs : List Bytes)
      → c.cur_sequence ≡ sequence_of p s
      → All (IsCurrent (set_conn p c s)) (map (entry p (sequence_of p s)) qs)
  entries-IsCurrent c [] e = tt
  entries-IsCurrent c (q ∷ qs) e = (
    (refl, ap (λ (d : Conn). not (d.cur_sequence == sequence_of p s)) (at_home c) ∙ ground arith),
    entries-IsCurrent c qs e,
  )

  -- A read of a connection that is ready queues packets of its present use only, leaves it
  -- ready for what comes next, and gives the packets that the stream holds.
  pub read_request_handler_lem :
      (length-new_char : (n : ℕ) → length (new_char n) ≡ n) (pending bs : Bytes)
      → Ready p (s.conns p) pending
      → 0 < length bs
      → length bs ≤ (s.conns p).irecvlen
      → let h = read_request_handler new_char now p (got bs) s in
        Ready p (h.sock.conns p) (feed pending bs).0
        × All (IsCurrent h.sock) h.queued
        × (h.queued ≡ map (entry p (sequence_of p s)) (feed pending bs).1)
  unfolding read_request_handler recvproc
  read_request_handler_lem length-new_char pending [] ready lo hi = absurd (omega arith)
  read_request_handler_lem length-new_char pending (b ∷ bs) ready lo hi =
      let (r, queued, same) =
        read_bytes-feed new_char p length-new_char (s.conns p) pending (b ∷ bs) ready lo hi in
      let d = (read_bytes new_char p (s.conns p) (b ∷ bs)).conn in
      (
        subst (λ (c : Conn). Ready p c (feed pending (b ∷ bs)).0) (sym (at_home d)) r,
        subst (All (IsCurrent (set_conn p d s))) (sym queued)
            (entries-IsCurrent d (feed pending (b ∷ bs)).1 same),
        queued,
      )
