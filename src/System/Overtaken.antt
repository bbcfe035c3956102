-- ===== src/System/Overtaken.antt =====
-- What the loop over m_MsgSendQueue does not exclude (nginx/net/ngx_c_socket.cxx, lines 520 to 557):
-- the event loop retires connections without m_sendMessageQueueMutex, so it may come between the test
-- of a message's number and the send.
use cnginx.Common.{ℕ, true, List, [], ◌++◌}
use cnginx.Common.Memory.{Bytes}
use cnginx.Sys.{closed, enosys}
use cnginx.Send.{full}
use cnginx.Socket.{Socket, in_recy_connect_queue}
use cnginx.Events.{Event, Worker, declined}
use cnginx.System.{System}

-- recv() says that the peer has closed the connection.
abbrev leaves : ℕ → Event
leaves p = record {
  conn = p;
  revents = 1;
  received = closed;
  first_answer = declined enosys;
  second_answer = declined enosys;
  sent = full;
  nonblock_ok = true;
  ctl_ok = true;
  post_ok = true;
  now = 0;
}

module _ (new_char : ℕ → Bytes) where
  -- The connection goes to the recycling list.
  gone : ℕ → Worker → Worker
  gone p w = record w { sock = in_recy_connect_queue 0 p w.sock; queued = w.queued ++ [] }
