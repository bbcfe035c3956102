-- ===== src/Recv/Kept.antt =====
-- What ngx_read_request_handler (nginx/net/ngx_c_socket_request.cxx) leaves alone in a connection.
use cnginx.Common.{ℕ, ◌≡◌, arith}
use cnginx.Common.Memory.{Bytes}
use cnginx.Conn.{Conn}
use cnginx.Recv.{read_bytes, by_stat, proc_p1, proc_plast, store_at}

module _ (new_char : ℕ → Bytes) (self : ℕ) (c : Conn) (bs : Bytes) where
  pub read_bytes-rhandler : (read_bytes new_char self c bs).conn.rhandler ≡ c.rhandler
  unfolding read_bytes by_stat store_at proc_p1 proc_plast
  read_bytes-rhandler = ground arith

  pub read_bytes-whandler : (read_bytes new_char self c bs).conn.whandler ≡ c.whandler
  unfolding read_bytes by_stat store_at proc_p1 proc_plast
  read_bytes-whandler = ground arith
