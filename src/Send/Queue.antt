-- ===== src/Send/Queue.antt =====
-- The pass of ServerSendQueueThread (nginx/net/ngx_c_socket.cxx) over the whole queue, and the loop of
-- sendproc.
use mathlib.Core.Bool.{false≢true}
use cnginx.Common.{
  ℕ, zero, suc, ◌+◌, ◌-◌, Bool, true, false, ◌≡◌, inl, inr, refl, sym, ap, ◌∙◌, arith, some, List,
  [], ◌∷◌, ◌++◌, length, length-append, All, All-append, Bool-cases, ◌==◌, ltb,
}
use cnginx.Common.Int.{is_positive}
use cnginx.Packet.{Message}
use cnginx.Sys.{eagain, eintr}
use cnginx.Socket.{Socket, set_conn}
use cnginx.Send.{
  SendAnswer, took, refused, Sent, bytes, closed, full, broken, sendproc, transmit, is_stale,
  queue_loop, send_round,
}

-- An answer other than EINTR ends the loop of sendproc.
abbrev pub IsInterrupted : SendAnswer → Type 0
IsInterrupted a = a ≡ refused eintr

-- What an answer that ends the loop stands for.
abbrev pub meaning : SendAnswer → Sent
meaning (took zero) = closed
meaning (took (suc n)) = bytes (suc n)
meaning (refused eagain) = full
meaning (refused _) = broken

-- sendproc asks again as long as send() is interrupted, and returns by the first other answer,
-- whatever would follow it.
pub sendproc_retries :
    (before : List SendAnswer) (a : SendAnswer) (after : List SendAnswer)
    → All IsInterrupted before
    → ¬ IsInterrupted a
    → sendproc (before ++ a ∷ after) ≡ some (meaning a)
unfolding sendproc
sendproc_retries [] (took zero) after h ne = refl
sendproc_retries [] (took (suc n)) after h ne = ground arith
sendproc_retries [] (refused eagain) after h ne = refl
sendproc_retries [] (refused eintr) after h ne = absurd (ne refl)
sendproc_retries [] (refused _) after h ne = refl
sendproc_retries (b ∷ before) a after h ne = rw h.0 (sendproc_retries before a after h.1 ne)

abbrev pub drop_entry : Socket → Socket
drop_entry s = record s { send_msg_queue_count = s.send_msg_queue_count - 1 }

module _ (ctl_ok : Bool) (answer : ℕ → Sent) where
  abbrev pub sent_entry : ℕ → Message → Socket → Socket
  sent_entry left m s =
      set_conn m.conn (transmit ctl_ok (s.conns m.conn) m (answer left)) (drop_entry s)

  -- The three things that can happen to an entry.
  pub queue_loop_cases {ℓ} :
      (P : Socket → Type ℓ) (m : Message) (ms kept : List Message) (s : Socket)
      → (is_stale m s ≡ true → P (queue_loop ctl_ok answer ms kept (drop_entry s)))
      → (is_stale m s ≡ false
          → is_positive (s.conns m.conn).throw_send_count ≡ true
          → P (queue_loop ctl_ok answer ms (kept ++ m ∷ []) s))
      → (is_stale m s ≡ false
          → is_positive (s.conns m.conn).throw_send_count ≡ false
          → P (queue_loop ctl_ok answer ms kept (sent_entry (length ms) m s)))
      → P (queue_loop ctl_ok answer (m ∷ ms) kept s)
  unfolding queue_loop
  queue_loop_cases P m ms kept s stale busy idle = elim (Bool-cases (is_stale m s)) [
    | inl e ↦ rw (e, queue_loop) (stale e)
    | inr e ↦ elim (Bool-cases (is_positive (s.conns m.conn).throw_send_count)) [
      | inl b ↦ rw (e, b, queue_loop) (busy e b)
      | inr b ↦ rw (e, b, queue_loop) (idle e b)
    ]
  ]

  -- The entry's connection is in the same use as when the entry was made, and waits for EPOLLOUT.
  abbrev pub IsWaiting : Socket → Message → Type 0
  IsWaiting s m = (is_stale m s ≡ false) × (is_positive (s.conns m.conn).throw_send_count ≡ true)

  transmit-IsWaiting :
      (s : Socket) (m : Message) (left : ℕ) (ks : List Message)
      → is_positive (s.conns m.conn).throw_send_count ≡ false
      → All (IsWaiting s) ks
      → All (IsWaiting (sent_entry left m s)) ks
  transmit-IsWaiting s m left [] b h = tt
  transmit-IsWaiting s m left (k ∷ ks) b h = (
    elim (Bool-cases (k.conn == m.conn)) [
      | inl same ↦
          let e : k.conn ≡ m.conn = ground arith in
          absurd (
            false≢true
              (sym b ∙ ap (λ (p : ℕ). is_positive (s.conns p).throw_send_count) (sym e) ∙ h.0.1))
      | inr other ↦ rw other h.0
    ],
    transmit-IsWaiting s m left ks b h.1,
  )

  abbrev Passed : Socket → Type 0
  Passed t = (t.send_msg_queue_count ≡ length t.msg_send_queue) × All (IsWaiting t) t.msg_send_queue

  queue_loop-Passed :
      (ms kept : List Message) (s : Socket)
      → s.send_msg_queue_count ≡ length ms + length kept
      → All (IsWaiting s) kept
      → Passed (queue_loop ctl_ok answer ms kept s)
  queue_loop-Passed [] kept s e h = unfold queue_loop in (omega arith, h)
  queue_loop-Passed (m ∷ ms) kept s e h =
      queue_loop_cases Passed m ms kept s
        (λ stale. queue_loop-Passed ms kept (drop_entry s) (omega arith) h)
        (λ fresh busy.
          queue_loop-Passed ms (kept ++ m ∷ []) s (omega (arith, length-append kept (m ∷ [])))
            (All-append (IsWaiting s) kept (m ∷ []) h ((fresh, busy), tt)))
        (λ fresh idle.
          queue_loop-Passed ms kept (sent_entry (length ms) m s) (omega arith)
            (transmit-IsWaiting s m (length ms) kept idle h))

  none_waits : (s : Socket) (ms : List Message) → length ms ≡ 0 → All (IsWaiting s) ms
  none_waits s [] e = tt
  none_waits s (m ∷ ms) e = absurd (omega arith)

  -- When the count is right before a round of the queue thread, it is right after it, and the only
  -- entries left are those whose connection is still in the same use and is busy sending.
  pub send_round-IsWaiting :
      (s : Socket)
      → s.send_msg_queue_count ≡ length s.msg_send_queue
      → let t = send_round ctl_ok answer s in
        (t.send_msg_queue_count ≡ length t.msg_send_queue) × All (IsWaiting t) t.msg_send_queue
  unfolding send_round
  send_round-IsWaiting s e = elim (Bool-cases (ltb 0 s.send_msg_queue_count)) [
    | inl some_left ↦ rw some_left (queue_loop-Passed s.msg_send_queue [] s (omega arith) tt)
    | inr none_left ↦ rw none_left (e, none_waits s s.msg_send_queue (ground arith))
  ]
