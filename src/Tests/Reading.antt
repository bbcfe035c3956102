-- ===== src/Tests/Reading.antt =====
-- Reads of a connection at concrete inputs.
use cnginx.Common.{ℕ, ◌≡◌, refl, inl, arith, true, none, [], map, replicate, length-replicate, All}
use cnginx.Common.Memory.{Bytes}
use cnginx.Sys.{got, closed}
use cnginx.Conn.{get_one_to_use}
use cnginx.Recv.Frame.{feed}
use cnginx.Recv.Refine.{Ready, entry}
use cnginx.Recv.Packets.{get_one_to_use-InHeader}
use cnginx.Socket.{Socket, new_conn}
use cnginx.Socket.Sequence.{sequence_of}
use cnginx.Logic.{thread_recv_proc}
use cnginx.Reader.{read_request_handler}
use cnginx.Reader.Stale.{IsCurrent, lost_packets_refused, read_request_handler_lem}
use cnginx.Tests.{login, login_packet, in_use}

abbrev fresh : ℕ → Bytes
fresh n = replicate n 0

lost_packets_refused_example :
    let t = (read_request_handler fresh 100 0 closed in_use).sock in
    let r = thread_recv_proc [] true login t in (r.result ≡ none) × (r.sock ≡ t)
lost_packets_refused_example =
    lost_packets_refused fresh 100 0 in_use [] true closed login tt refl refl (omega arith)

abbrev waiting_socket : Socket
waiting_socket = record in_use { conns = λ p. get_one_to_use new_conn }

read_request_handler_lem_example :
    let h = read_request_handler fresh 100 0 (got login_packet) waiting_socket in
    Ready 0 (h.sock.conns 0) (feed [] login_packet).0
    × All (IsCurrent fresh 100 0 waiting_socket h.sock) h.queued
    × (h.queued ≡ map (entry 0 (sequence_of 0 waiting_socket)) (feed [] login_packet).1)
read_request_handler_lem_example =
    read_request_handler_lem fresh 100 0 waiting_socket (λ n. length-replicate n 0) [] login_packet
      (inl (get_one_to_use-InHeader new_conn refl)) (omega arith)
      (unfold get_one_to_use in omega arith)
