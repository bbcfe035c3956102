-- ===== src/Reader.antt =====
-- CSocekt::ngx_read_request_handler with CSocekt::recvproc (nginx/net/ngx_c_socket_request.cxx,
-- lines 27 to 147), on the whole socket: a connection is read, or goes to the recycling list.
pub mod Stale
use cnginx.Common.{ℕ, Option, none, some, List, [], ◌∷◌}
use cnginx.Common.Memory.{Bytes}
use cnginx.Sys.{RecvResult, got, closed, failed, eagain, eintr}
use cnginx.Packet.{Message}
use cnginx.Recv.{Received, read_bytes}
use cnginx.Socket.{Socket, set_conn, in_recy_connect_queue}

-- CSocekt::recvproc on what recv() gives: the bytes read, or none when it returns -1. A failure
-- other than EAGAIN and EINTR is the end of the connection, as is a read of no bytes. `now` is
-- time(NULL); closing the descriptor changes nothing in the model.
unfoldable pub recvproc : ℕ → ℕ → RecvResult → Socket → Socket × Option Bytes
unfolding in_recy_connect_queue
recvproc now p (got []) s = (in_recy_connect_queue now p s, none)
recvproc now p (got (b ∷ bs)) s = (s, some (b ∷ bs))
recvproc now p closed s = (in_recy_connect_queue now p s, none)
recvproc now p (failed eagain) s = (s, none)
recvproc now p (failed eintr) s = (s, none)
recvproc now p (failed e) s = (in_recy_connect_queue now p s, none)

-- The handler's result: the socket, and what is put on the thread pool's queue.
pub record Handled : Type 0 where
  pub sock : Socket
  pub queued : List (Option Message)

-- The part behind `if(reco <= 0) return`.
abbrev pub handle_read : (ℕ → Bytes) → ℕ → Socket → Option Bytes → Handled
handle_read new_char p s none = record { sock = s; queued = [] }
handle_read new_char p s (some bs) =
    let r = read_bytes new_char p (s.conns p) bs in
    record { sock = set_conn p r.conn s; queued = r.queued }

-- CSocekt::ngx_read_request_handler for the connection at the address `p`
unfoldable pub read_request_handler : (ℕ → Bytes) → ℕ → ℕ → RecvResult → Socket → Handled
unfolding recvproc
read_request_handler new_char now p result s =
    let (t, reco) = recvproc now p result s in handle_read new_char p t reco
