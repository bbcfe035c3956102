-- ===== src/Recv.antt =====
-- nginx/net/ngx_c_socket_request.cxx: how a connection's bytes become packets. A read gives at most
-- `irecvlen` bytes, which `recv` stores where `precvbuf` points; the state in `curStat` says
-- whether a header or a body is being read. The functions return the connection and the pointers
-- that were put on the thread pool's queue.
pub mod Frame
pub mod Refine
pub mod Packets
pub mod Kept
pub mod Memory
use cnginx.Common.{
  ℕ, ◌+◌, ◌-◌, Bool, ◌==◌, ltb, if◌then◌else◌, Option, none, some, List, [], ◌∷◌, ◌++◌, length,
  take,
}
use mathlib.Core.Option
use cnginx.Common.Memory.{Bytes, write_at}
use cnginx.Packet.{Message, header_size, pkg_max_length, pkg_len}
use cnginx.Conn.{Conn, Stat, hd_init, hd_recving, bd_init, bd_recving, Cursor, in_head_info, in_pkg}

pub record Received : Type 0 where
  pub conn : Conn
  pub queued : List (Option Message)

-- What recv() does to the memory that `precvbuf` points to.
store_at : Cursor → Conn → Bytes → Conn
store_at (in_head_info o) c bs = record c { data_head_info = write_at o bs c.data_head_info }
store_at (in_pkg o) c bs = record c {
  precv_mem = Option.map (λ (m : Message). record m { pkg = write_at o bs m.pkg }) c.precv_mem;
}

abbrev advance : Cursor → ℕ → Cursor
advance (in_head_info o) n = in_head_info (o + n)
advance (in_pkg o) n = in_pkg (o + n)

-- ngx_wait_request_handler_proc_plast
unfoldable pub proc_plast : Conn → Received
proc_plast c = record {
  conn = record c {
    precv_mem = none;
    cur_stat = hd_init;
    precvbuf = in_head_info 0;
    irecvlen = header_size;
  };
  queued = c.precv_mem ∷ [];
}

abbrev restart : Conn → Conn
restart c = record c { cur_stat = hd_init; precvbuf = in_head_info 0; irecvlen = header_size }

-- `self` is the connection's address; `new_char n` is what a fresh block of n bytes holds.
module _ (new_char : ℕ → Bytes) (self : ℕ) where
  -- AllocMemory(m_iLenMsgHeader + e_pkgLen, false), with the message header filled in and the
  -- packet header copied behind it.
  abbrev pub new_message : Conn → ℕ → Message
  new_message c e_pkg_len = record {
    conn = self;
    cur_sequence = c.cur_sequence;
    pkg = write_at 0 (take header_size c.data_head_info) (new_char e_pkg_len);
  }

  -- ngx_wait_request_handler_proc_p1
  unfoldable pub proc_p1 : Conn → Received
  unfolding proc_plast
  proc_p1 c =
      let e_pkg_len = pkg_len c.data_head_info in
      if ltb e_pkg_len header_size
      then record { conn = restart c; queued = [] }
      else if ltb (pkg_max_length - 1000) e_pkg_len
      then record { conn = restart c; queued = [] }
      else let allocated = record c { precv_mem = some (new_message c e_pkg_len) } in
        if e_pkg_len == header_size then proc_plast allocated else record {
          conn = record allocated {
            cur_stat = bd_init;
            precvbuf = in_pkg header_size;
            irecvlen = e_pkg_len - header_size;
          };
          queued = [];
        }

  -- `pConn->precvbuf += reco; pConn->irecvlen -= reco`, in the state `s`.
  abbrev go_on : Stat → Conn → ℕ → Received
  go_on s c reco = record {
    conn = record c {
      cur_stat = s;
      precvbuf = advance c.precvbuf reco;
      irecvlen = c.irecvlen - reco;
    };
    queued = [];
  }

  -- The four branches on curStat.
  by_stat : Stat → Conn → ℕ → Received
  unfolding proc_p1 proc_plast
  by_stat hd_init c reco = if reco == header_size then proc_p1 c else go_on hd_recving c reco
  by_stat hd_recving c reco = if c.irecvlen == reco then proc_p1 c else go_on hd_recving c reco
  by_stat bd_init c reco = if reco == c.irecvlen then proc_plast c else go_on bd_recving c reco
  by_stat bd_recving c reco = if c.irecvlen == reco then proc_plast c else go_on bd_recving c reco

  -- ngx_read_request_handler from the point where recvproc has read the bytes `bs`.
  unfoldable pub read_bytes : Conn → Bytes → Received
  unfolding by_stat store_at
  read_bytes c bs = by_stat c.cur_stat (store_at c.precvbuf c bs) (length bs)

  -- The handler called for one read after the other.
  unfoldable pub read_all : Conn → List Bytes → Received
  unfolding read_bytes
  read_all c [] = record { conn = c; queued = [] }
  read_all c (bs ∷ rest) =
      let first = read_bytes c bs in
      let later = read_all first.conn rest in
      record { conn = later.conn; queued = first.queued ++ later.queued }
