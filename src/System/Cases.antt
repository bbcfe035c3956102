-- ===== src/System/Cases.antt =====
-- What the steps of a worker come to: the cases in which ServerSendQueueThread
-- (nginx/net/ngx_c_socket.cxx) looks at an entry, and threadRecvProcFunc
-- (nginx/logic/ngx_c_slogic.cxx) handles a job.
use cnginx.Common.{◌-◌, ◌≡◌, inl, inr, List, Option, none, some, true, false, Bool-cases}
use cnginx.Common.Int.{is_positive}
use cnginx.Packet.{Message}
use cnginx.Socket.{Socket}
use cnginx.Send.{is_stale}
use cnginx.System.{visit}

-- The entry leaves the send queue.
abbrev pub shorten : List Message → Socket → Socket
shorten rest s = record s {
  msg_send_queue = rest;
  send_msg_queue_count = s.send_msg_queue_count - 1;
}

module _ {ℓ} (P : Socket → Option Message → Type ℓ) where
  pub visit_cases :
      (m : Message) (rest : List Message) (s : Socket)
      → (is_stale m s ≡ true → P (shorten rest s) none)
      → P s none
      → (is_stale m s ≡ false → P (shorten rest s) (some m))
      → P (visit m rest s).0 (visit m rest s).1
  unfolding visit
  visit_cases m rest s stale busy idle = elim (Bool-cases (is_stale m s)) [
    | inl e ↦ rw (e, visit) (stale e)
    | inr e ↦ elim (Bool-cases (is_positive (s.conns m.conn).throw_send_count)) [
      | inl b ↦ rw (e, b, visit) busy
      | inr b ↦ rw (e, b, visit) (idle e)
    ]
  ]
