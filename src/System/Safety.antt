-- ===== src/System/Safety.antt =====
-- What no interleaving of a worker's threads can break (nginx/net/ngx_c_socket.cxx,
-- nginx/misc/ngx_c_threadpool.cxx).
use cnginx.Common.{ℕ, ◌<◌, ◌≡◌, List, All, some, length}
use cnginx.Common.Memory.{Bytes}
use cnginx.Packet.{Message}
use cnginx.Recv.Frame.{IsPacket}
use cnginx.Recv.Packets.{Fits}
use cnginx.Conn.{ngx_read_request_handler}
use cnginx.Socket.Uses.{InUse}
use cnginx.Events.{Event, Worker, handle_event}
use cnginx.System.{System, Possible}
use cnginx.System.Framing.{IsJob, IsReading}
use cnginx.System.Framed.{Framed}

-- In a thread's hands there are whole packets only.
abbrev pub AreWhole : List Message → Type 0
AreWhole ms = All (λ m. IsPacket m.pkg) ms

record Orderly (s : System) : Type 0 where
  framed : Framed s.worker
  whole : AreWhole s.in_hand

module _ (new_char : ℕ → Bytes) (length-new_char : (n : ℕ) → length (new_char n) ≡ n) where
  -- What can be relied on in a state: the loop of the event thread calls a handler that is set,
  -- whatever possible event comes; a pool thread finds a message on the queue, and a whole packet in
  -- it; and a connection in use is in the midst of a header or a packet, with room for what it asks
  -- recv() for.
  pub record Safe (t : System) : Type 0 where
    pub handled :
        (e : Event)
        → Possible e t.worker.sock
        → (w : Worker) × (handle_event new_char e t.worker ≡ some w)
    pub jobs : All IsJob t.worker.queued
    pub in_hand : AreWhole t.in_hand
    pub reads :
        (p : ℕ)
        → InUse p t.worker.sock
        → (t.worker.sock.conns p).rhandler ≡ ngx_read_request_handler
        → let c = t.worker.sock.conns p in
          IsReading p c × (0 < c.irecvlen) × Fits c c.precvbuf c.precv_mem c.irecvlen
