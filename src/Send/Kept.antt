-- ===== src/Send/Kept.antt =====
-- What sending leaves alone in a connection: the handlers, the number of the use, and all that
-- belongs to receiving (nginx/net/ngx_c_socket_request.cxx, nginx/net/ngx_c_socket.cxx).
use cnginx.Common.{◌≡◌, refl, arith, Bool, ℕ, Option}
use cnginx.Common.Memory.{Bytes}
use cnginx.Packet.{Message}
use cnginx.Conn.{Conn, Handler, Stat, Cursor}
use cnginx.Epoll.{epoll_oper_event}
use cnginx.Send.{Sent, bytes, closed, full, broken, transmit, write_request_handler}

-- The members of a connection that have no part in sending.
pub record Apart : Type 0 where
  pub cur_sequence : ℕ
  pub rhandler : Handler
  pub whandler : Handler
  pub cur_stat : Stat
  pub data_head_info : Bytes
  pub precvbuf : Cursor
  pub irecvlen : ℕ
  pub precv_mem : Option Message

abbrev pub apart : Conn → Apart
apart c = record {
  cur_sequence = c.cur_sequence;
  rhandler = c.rhandler;
  whandler = c.whandler;
  cur_stat = c.cur_stat;
  data_head_info = c.data_head_info;
  precvbuf = c.precvbuf;
  irecvlen = c.irecvlen;
  precv_mem = c.precv_mem;
}

pub transmit-apart :
    (ctl_ok : Bool) (c : Conn) (m : Message) (a : Sent) → apart (transmit ctl_ok c m a) ≡ apart c
unfolding transmit epoll_oper_event
transmit-apart ctl_ok c m (bytes n) = ground arith
transmit-apart ctl_ok c m closed = refl
transmit-apart ctl_ok c m full = refl
transmit-apart ctl_ok c m broken = refl

pub write_request_handler-apart :
    (ctl_ok : Bool) (c : Conn) (a : Sent) → apart (write_request_handler ctl_ok c a).0 ≡ apart c
unfolding write_request_handler epoll_oper_event
write_request_handler-apart ctl_ok c (bytes n) = ground arith
write_request_handler-apart ctl_ok c closed = refl
write_request_handler-apart ctl_ok c full = refl
write_request_handler-apart ctl_ok c broken = refl
