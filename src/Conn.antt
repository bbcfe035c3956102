-- ===== src/Conn.antt =====
-- The connection object of nginx/_include/ngx_c_socket.h (ngx_connection_s), and the two methods of
-- nginx/net/ngx_c_socket_conn.cxx that make it ready for use and give back its buffers.
use cnginx.Common.{ℕ, ◌+◌, ◌%◌, ◌^◌, Option, none}
use cnginx.Common.Int.{ℤ, pos}
use cnginx.Common.Memory.{Bytes}
use cnginx.Packet.{Message, header_size}

-- curStat: _PKG_HD_INIT, _PKG_HD_RECVING, _PKG_BD_INIT, _PKG_BD_RECVING
pub data Stat : Type 0 where
  hd_init hd_recving bd_init bd_recving : Stat

-- Where precvbuf points: into dataHeadInfo, or into the packet part of *precvMemPointer.
pub data Cursor : Type 0 where
  in_head_info : ℕ → Cursor
  in_pkg : ℕ → Cursor

-- The values of rhandler and whandler.
pub data Handler : Type 0 where
  unset ngx_event_accept ngx_read_request_handler ngx_write_request_handler : Handler

-- Addresses are numbers. A null pointer is `none`; `psendbuf` is the offset of the unsent part in
-- the packet of *psendMemPointer.
pub record Conn : Type 0 where
  pub fd : ℕ
  pub listening : Option ℕ
  pub cur_sequence : ℕ
  pub rhandler : Handler
  pub whandler : Handler
  pub events : ℕ
  pub cur_stat : Stat
  pub data_head_info : Bytes
  pub precvbuf : Cursor
  pub irecvlen : ℕ
  pub precv_mem : Option Message
  pub throw_send_count : ℤ
  pub psend_mem : Option Message
  pub psendbuf : ℕ
  pub isendlen : ℕ
  pub in_recy_time : ℕ

-- ++ on a uint64_t
abbrev pub next_sequence : ℕ → ℕ
next_sequence n = (n + 1) % 2 ^ 64

-- ngx_connection_s::GetOneToUse
unfoldable pub get_one_to_use : Conn → Conn
get_one_to_use c = record c {
  cur_sequence = next_sequence c.cur_sequence;
  cur_stat = hd_init;
  precvbuf = in_head_info 0;
  irecvlen = header_size;
  precv_mem = none;
  throw_send_count = pos 0;
  psend_mem = none;
  events = 0;
}

-- ngx_connection_s::PutOneToFree; FreeMemory of the two buffers leaves nothing behind.
unfoldable pub put_one_to_free : Conn → Conn
put_one_to_free c = record c {
  cur_sequence = next_sequence c.cur_sequence;
  precv_mem = none;
  psend_mem = none;
  throw_send_count = pos 0;
}
