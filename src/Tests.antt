-- ===== src/Tests.antt =====
-- Runs of the theorems at small inputs, on the objects below.
mod Traffic
mod Pool
mod Text
mod Reading
mod Config
mod Threads
mod Worker
mod Lines
mod Run
mod Start
use cnginx.Common.{ℕ, List, [], ◌∷◌, Option, none, replicate}
use cnginx.Common.Int.{pos}
use cnginx.Common.Memory.{Bytes}
use cnginx.Packet.{Message}
use cnginx.Conn.{Conn, get_one_to_use}
use cnginx.Socket.{Socket, new_conn, initconnection}

-- A login without a body, with the checksum 0.
abbrev pub login_packet : Bytes
login_packet = 0 ∷ 8 ∷ 0 ∷ 6 ∷ 0 ∷ 0 ∷ 0 ∷ 0 ∷ []

abbrev pub login : Message
login = record { conn = 0; cur_sequence = 1; pkg = login_packet }

-- A registration with a body of the right size, and its checksum.
abbrev pub registration : Message
registration = record {
  conn = 0;
  cur_sequence = 1;
  pkg = 0 ∷ 108 ∷ 0 ∷ 5 ∷ 149 ∷ 151 ∷ 188 ∷ 141 ∷ replicate 100 65;
}

-- The socket before initconnection, with room for two connections.
abbrev pub empty_pool : Socket
empty_pool = record {
  conns = λ p. new_conn;
  next_address = 0;
  worker_connections = 2;
  recy_connection_wait_time = pos 60;
  connection_list = [];
  freeconnection_list = [];
  recyconnection_list = [];
  total_connection_n = 0;
  free_connection_n = 0;
  totol_recyconnection_n = 0;
  msg_send_queue = [];
  send_msg_queue_count = 0;
  sem_event_send_queue = 0;
}

-- The same with every connection in its first use.
abbrev pub in_use : Socket
in_use = record empty_pool { conns = λ p. record new_conn { cur_sequence = 1 } }
