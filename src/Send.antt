-- ===== src/Send.antt =====
-- Sending: CSocekt::sendproc and ngx_write_request_handler of
-- nginx/net/ngx_c_socket_request.cxx, and msgSend and the queue pass of ServerSendQueueThread in
-- nginx/net/ngx_c_socket.cxx. What the kernel answers to send() is an argument.
pub mod Stream
pub mod Queue
pub mod Kept
use cnginx.Common.{
  ℕ, ◌+◌, ◌-◌, Bool, true, false, not, ◌==◌, ltb, if◌then◌else◌, Option, none, some, List, [], ◌∷◌,
  ◌++◌, length, take, drop,
}
use cnginx.Common.Int.{ℤ, pos, succ, pred, is_positive}
use cnginx.Common.Memory.{Bytes}
use cnginx.Sys.{Errno, eagain, eintr}
use cnginx.Packet.{Message, pkg_len}
use cnginx.Conn.{Conn}
use cnginx.Epoll.{epollout, ctl_mod, epoll_oper_event}
use cnginx.Socket.{Socket, set_conn}

-- One answer of send(): the number of bytes taken, or -1.
pub data SendAnswer : Type 0 where
  took : ℕ → SendAnswer
  refused : Errno → SendAnswer

-- What sendproc returns: n > 0, 0, -1 and -2.
pub data Sent : Type 0 where
  bytes : ℕ → Sent
  closed : Sent
  full : Sent
  broken : Sent

-- CSocekt::sendproc, on the answers that send() gives one after the other: the loop goes on only
-- after EINTR. `none` means that the answers ran out in the loop.
unfoldable pub sendproc : List SendAnswer → Option Sent
sendproc [] = none
sendproc (took n ∷ answers) = if ltb 0 n then some (bytes n) else some closed
sendproc (refused eagain ∷ answers) = some full
sendproc (refused eintr ∷ answers) = sendproc answers
sendproc (refused _ ∷ answers) = some broken

-- The bytes of the packet of *psendMemPointer from psendbuf on, as many as isendlen says: what
-- send() is called with. `none` if the block has been freed.
abbrev pub outgoing : Conn → Option Bytes
outgoing c = elim c.psend_mem [
  | none ↦ none
  | some m ↦ some (take c.isendlen (drop c.psendbuf m.pkg))
]

-- CSocekt::msgSend; `post_ok` is whether sem_post succeeds.
unfoldable pub msg_send : Message → Bool → Socket → Socket
msg_send m post_ok s = record s {
  msg_send_queue = s.msg_send_queue ++ m ∷ [];
  send_msg_queue_count = s.send_msg_queue_count + 1;
  sem_event_send_queue = if post_ok then s.sem_event_send_queue + 1 else s.sem_event_send_queue;
}

-- The packet is taken up: psendMemPointer, psendbuf and isendlen are set.
abbrev pub load : Conn → Message → Conn
load c m = record c { psend_mem = some m; psendbuf = 0; isendlen = pkg_len m.pkg }

-- FreeMemory(psendMemPointer), and what follows it in the queue thread.
abbrev pub release : Conn → Conn
release c = record c { psend_mem = none; throw_send_count = pos 0 }

-- One more send is left to EPOLLOUT events.
abbrev pub wait_writable : Bool → Conn → Conn
wait_writable ctl_ok c =
    (epoll_oper_event ctl_mod epollout 0 ctl_ok
      (record c { throw_send_count = succ c.throw_send_count })).0

-- The part of ServerSendQueueThread behind `p_Conn->psendMemPointer = pMsgBuf`, on the value that
-- sendproc returned.
unfoldable pub transmit : Bool → Conn → Message → Sent → Conn
unfolding epoll_oper_event
transmit ctl_ok c m (bytes n) =
    let d = load c m in
    if n == d.isendlen
    then release d
    else wait_writable ctl_ok (record d { psendbuf = d.psendbuf + n; isendlen = d.isendlen - n })
transmit ctl_ok c m closed = release (load c m)
transmit ctl_ok c m full = wait_writable ctl_ok (load c m)
transmit ctl_ok c m broken = release (load c m)

-- The end of ngx_write_request_handler, with sem_post outside the connection.
abbrev pub finish : Conn → Conn
finish c = record c { psend_mem = none; throw_send_count = pred c.throw_send_count }

-- ngx_write_request_handler on the value that sendproc returned: the connection, and whether the
-- handler came to sem_post.
unfoldable pub write_request_handler : Bool → Conn → Sent → Conn × Bool
unfolding epoll_oper_event
write_request_handler ctl_ok c (bytes n) =
    if not (n == c.isendlen)
    then (record c { psendbuf = c.psendbuf + n; isendlen = c.isendlen - n }, false)
    else (finish (epoll_oper_event ctl_mod epollout 1 ctl_ok c).0, true)
write_request_handler ctl_ok c full = (c, false)
write_request_handler ctl_ok c closed = (finish c, true)
write_request_handler ctl_ok c broken = (finish c, true)

-- p_Conn->iCurrsequence != pMsgHeader->iCurrsequence
abbrev pub is_stale : Message → Socket → Bool
is_stale m s = not ((s.conns m.conn).cur_sequence == m.cur_sequence)

-- The loop over m_MsgSendQueue under m_sendMessageQueueMutex. `kept` is the part of the queue
-- before `pos`; `answer` gives the value of sendproc, by the number of entries behind `pos`.
module _ (ctl_ok : Bool) (answer : ℕ → Sent) where
  unfoldable pub queue_loop : List Message → List Message → Socket → Socket
  unfolding transmit
  queue_loop [] kept s = record s { msg_send_queue = kept }
  queue_loop (m ∷ ms) kept s =
      let c = s.conns m.conn in
      let shorter = record s { send_msg_queue_count = s.send_msg_queue_count - 1 } in
      elim (is_stale m s) [
        | true ↦ queue_loop ms kept shorter
        | false ↦ elim (is_positive c.throw_send_count) [
          | true ↦ queue_loop ms (kept ++ m ∷ []) s
          | false ↦
              queue_loop ms kept
                (set_conn m.conn (transmit ctl_ok c m (answer (length ms))) shorter)
        ]
      ]

  -- One round of the thread: the pass is made when the count is above 0.
  unfoldable pub send_round : Socket → Socket
  unfolding queue_loop
  send_round s = if ltb 0 s.send_msg_queue_count then queue_loop s.msg_send_queue [] s else s
