-- ===== src/SocketThreads.antt =====
-- The two helper threads of CSocekt and their end: the loops of ServerSendQueueThread and
-- Shutdown_subproc of nginx/net/ngx_c_socket.cxx, and of ServerRecyConnectionThread of
-- nginx/net/ngx_c_socket_conn.cxx.
pub mod Ending
use cnginx.Common.{ℕ, ◌+◌, ◌-◌, Bool, true, false, ltb, if◌then◌else◌, List, [], ◌∷◌, length}
use cnginx.Socket.{Socket, clearconnection, recy_pass, recy_connections}
use cnginx.Send.{Sent, send_round}

-- What a thread sees in one round of its loop: the time, g_stopEvent during the scan, and
-- g_stopEvent behind it.
pub record Round : Type 0 where
  pub currtime : ℕ
  pub stop_in_scan : Bool
  pub stop_behind : Bool

-- The part of ServerRecyConnectionThread at `if(g_stopEvent == 1)`.
abbrev pub free_all : ℕ → Socket → Socket
free_all currtime s =
    if ltb 0 s.totol_recyconnection_n
    then recy_pass (length s.recyconnection_list) currtime true s
    else s

-- ServerRecyConnectionThread through some rounds, and whether it has ended. What other threads do
-- between the rounds is not followed here; pool_history allows for it.
unfoldable pub recy_thread : List Round → Socket → Socket × Bool
unfolding recy_pass
recy_thread [] s = (s, false)
recy_thread (r ∷ rs) s =
    let t = recy_connections r.currtime r.stop_in_scan s in
    let more = recy_thread rs t in if r.stop_behind then (free_all r.currtime t, true) else more

-- One round of ServerSendQueueThread behind the test of its while: the thread waits until the
-- semaphore is posted, and passes through the queue unless g_stopEvent is set by then.
module _ (ctl_ok : Bool) (answer : ℕ → Sent) where
  unfoldable pub queue_round : Bool → Socket → Socket
  unfolding send_round
  queue_round stop s =
      let t = record s { sem_event_send_queue = s.sem_event_send_queue - 1 } in
      if stop then t else send_round ctl_ok answer t

-- CSocekt::clearMsgSendQueue: each message is freed.
abbrev pub clear_msg_send_queue : Socket → Socket
clear_msg_send_queue s = record s { msg_send_queue = [] }

-- CSocekt::Shutdown_subproc: the semaphore is posted, and behind the threads' end all is freed.
unfoldable pub shutdown_subproc : Bool → Socket → Socket
shutdown_subproc post_ok s = clearconnection (
    clear_msg_send_queue
      (if post_ok then record s { sem_event_send_queue = s.sem_event_send_queue + 1 } else s))
