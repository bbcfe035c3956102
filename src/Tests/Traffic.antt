-- ===== src/Tests/Traffic.antt =====
-- Receiving, dispatching, sending and the checksum at concrete inputs.
use mathlib.Core.List.{flatten}
use cnginx.Common.{
  ℕ, zero, suc, ◌<◌, ◌≡◌, ◌≢◌, ◌⊎◌, refl, inl, inr, arith, Bool, true, false, some, none, List, [],
  ◌∷◌, ◌++◌, map, length, replicate, length-replicate, All,
}
use cnginx.Common.Int.{is_positive}
use cnginx.Common.Memory.{Bytes, write_at}
use cnginx.Crc.{get_crc}
use cnginx.Crc.Reference.{crc32, get_crc-crc32}
use cnginx.Crc.Detection.{get_crc_detects}
use cnginx.Sys.{eintr}
use cnginx.Packet.{pkg_len, msg_code}
use cnginx.Conn.{Conn, get_one_to_use}
use cnginx.Recv.{read_all, read_bytes, proc_p1, proc_plast}
use cnginx.Recv.Frame.{IsPacket, feed}
use cnginx.Recv.Refine.{InHeader, Follows, Reads, entry, read_all-feed}
use cnginx.Recv.Packets.{Fits, get_one_to_use-InHeader, read_all-packets, read_all-Fits}
use cnginx.Send.{took, refused, bytes, full, sendproc, send_round, write_request_handler, transmit}
use cnginx.Epoll.{epoll_oper_event}
use cnginx.Send.Stream.{Line, run, takes_up, writable, Event, step, taken_up, AreLegal, run-wire}
use cnginx.Send.Queue.{IsWaiting, sendproc_retries, send_round-IsWaiting}
use cnginx.Logic.{register_reply, register_send_len, thread_recv_proc, cmd_register}
use cnginx.Logic.Accept.{HasChecksum, IsAccepted, thread_recv_proc-IsAccepted}
use cnginx.Logic.Reply.{register_reply_lem, register_queues}
use cnginx.Socket.{Socket, new_conn}
use cnginx.Tests.{login_packet, login, registration, in_use}

get_crc-crc32_example : get_crc (49 ∷ 50 ∷ 51 ∷ []) ≡ crc32 (49 ∷ 50 ∷ 51 ∷ [])
get_crc-crc32_example =
    get_crc-crc32 (49 ∷ 50 ∷ 51 ∷ []) (omega arith, (omega arith, (omega arith, tt)))

get_crc_detects_example : get_crc (1 ∷ 3 ∷ 2 ∷ []) ≢ get_crc (1 ∷ 4 ∷ 2 ∷ [])
get_crc_detects_example =
    get_crc_detects (1 ∷ []) (2 ∷ []) 3 4 (omega arith, tt) (omega arith, tt) (omega arith)
      (omega arith) (omega arith)

abbrev zeros : ℕ → Bytes
zeros n = replicate n 0

-- A connection taken from the pool.
abbrev ready_conn : Conn
ready_conn = get_one_to_use new_conn

-- Two packets, of which the reads cut the headers and the second body.
abbrev packets : List Bytes
packets = login_packet ∷ (0 ∷ 10 ∷ 0 ∷ 6 ∷ 0 ∷ 0 ∷ 0 ∷ 0 ∷ 1 ∷ 2 ∷ []) ∷ []

abbrev reads : List Bytes
reads =
    (0 ∷ 8 ∷ 0 ∷ [])
    ∷ (6 ∷ 0 ∷ 0 ∷ 0 ∷ 0 ∷ [])
    ∷ (0 ∷ 10 ∷ 0 ∷ 6 ∷ 0 ∷ 0 ∷ 0 ∷ 0 ∷ [])
    ∷ (1 ∷ [])
    ∷ (2 ∷ [])
    ∷ []

zeros-length : (n : ℕ) → length (zeros n) ≡ n
zeros-length n = length-replicate n 0

ready : InHeader ready_conn []
ready = get_one_to_use-InHeader new_conn refl

reads-Reads : Reads zeros 7 ready_conn reads
unfolding read_bytes get_one_to_use proc_p1 proc_plast pkg_len write_at
reads-Reads = ground arith

packets-IsPacket : All IsPacket packets
unfolding pkg_len
packets-IsPacket = ground arith

read_all-packets_example :
    (read_all zeros 7 ready_conn reads).queued ≡ map (entry 7 ready_conn.cur_sequence) packets
    × InHeader (read_all zeros 7 ready_conn reads).conn []
read_all-packets_example =
    read_all-packets zeros zeros-length 7 ready_conn ready packets reads packets-IsPacket
      reads-Reads (unfold flatten in refl)

read_all-Fits_example :
    (0 < (read_all zeros 7 ready_conn reads).conn.irecvlen)
    × Fits
        (read_all zeros 7 ready_conn reads).conn
        (read_all zeros 7 ready_conn reads).conn.precvbuf
        (read_all zeros 7 ready_conn reads).conn.precv_mem
        (read_all zeros 7 ready_conn reads).conn.irecvlen
read_all-Fits_example = read_all-Fits zeros zeros-length 7 ready_conn ready reads reads-Reads

read_all-feed_example :
    Follows zeros 7 ready_conn.cur_sequence
      (read_all zeros 7 ready_conn reads)
      (feed [] (flatten reads))
read_all-feed_example =
    read_all-feed zeros 7 zeros-length reads ready_conn [] (inl ready) reads-Reads

-- A message of eight bytes goes out in two parts, with a full buffer between them.
abbrev idle_line : Line
idle_line = record { conn = new_conn; wire = [] }

abbrev events : List Event
events = takes_up true login (bytes 3) ∷ writable true full ∷ writable true (bytes 5) ∷ []

events-AreLegal : AreLegal idle_line events
unfolding step pkg_len transmit write_request_handler epoll_oper_event
events-AreLegal = ground arith

run-wire_example :
    ((rest : Bytes) × ((run idle_line events).wire ++ rest ≡ flatten (taken_up events)))
    × (is_positive (run idle_line events).conn.throw_send_count ≡ false
        → (run idle_line events).wire ≡ flatten (taken_up events))
run-wire_example =
    run-wire events idle_line (record { count = refl; no_memory = refl; nothing_sent = refl })
      events-AreLegal

thread_recv_proc-IsAccepted_example :
    (IsAccepted login in_use
      × ((r : Bool) × ((thread_recv_proc [] true login in_use).result ≡ some r)))
    ⊎ ((¬ IsAccepted login in_use)
        × ((thread_recv_proc [] true login in_use).result ≡ none)
        × ((thread_recv_proc [] true login in_use).sock ≡ in_use))
thread_recv_proc-IsAccepted_example = thread_recv_proc-IsAccepted [] true login in_use

sendproc_retries_example : sendproc (refused eintr ∷ took 5 ∷ []) ≡ some (bytes 5)
sendproc_retries_example =
    sendproc_retries (refused eintr ∷ []) (took 5) [] (refl, tt) (λ e. absurd (ground arith))

abbrev one_queued : Socket
one_queued = record in_use { msg_send_queue = login ∷ []; send_msg_queue_count = 1 }

send_round-IsWaiting_example :
    let t = send_round true (λ n. full) one_queued in
    (t.send_msg_queue_count ≡ length t.msg_send_queue)
    × All (IsWaiting true (λ n. full) t) t.msg_send_queue
send_round-IsWaiting_example = send_round-IsWaiting true (λ n. full) one_queued refl

zeros-bytes : (n : ℕ) → All (λ b. b < 256) (zeros n)
zeros-bytes zero = tt
zeros-bytes (suc n) = (omega arith, zeros-bytes n)

register_reply_lem_example :
    let r = register_reply registration (zeros register_send_len) in
    (r.conn ≡ 0)
    × (r.cur_sequence ≡ 1)
    × (length r.pkg ≡ pkg_len r.pkg)
    × (msg_code r.pkg ≡ cmd_register)
    × HasChecksum r.pkg
register_reply_lem_example =
    register_reply_lem registration (zeros register_send_len) (zeros-length register_send_len)
      (zeros-bytes register_send_len)

registration-HasChecksum : HasChecksum registration.pkg
unfolding get_crc pkg_len
registration-HasChecksum = inr (omega arith, refl)

registration-IsAccepted : IsAccepted registration in_use
unfolding msg_code
registration-IsAccepted = (registration-HasChecksum, refl, inl refl)

register_queues_example :
    let p = thread_recv_proc (zeros register_send_len) true registration in_use in
    ((pkg_len registration.pkg ≡ 108)
      × (p.result ≡ some true)
      × (p.sock.msg_send_queue ≡ register_reply registration (zeros register_send_len) ∷ [])
      × (p.sock.send_msg_queue_count ≡ 1))
    ⊎ ((pkg_len registration.pkg ≢ 108) × (p.result ≡ some false) × (p.sock ≡ in_use))
register_queues_example =
    register_queues (zeros register_send_len) true registration in_use registration-IsAccepted
      (unfold msg_code in refl)
