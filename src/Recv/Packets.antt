-- ===== src/Recv/Packets.antt =====
-- What the framing of Recv/Refine means for whole packets and for the buffers of a connection.
use mathlib.Core.List.{flatten}
use cnginx.Common.{
  ℕ, ◌+◌, ◌≤◌, ◌<◌, ◌≡◌, inl, inr, arith, Option, none, some, List, [], map, length, All, ◌∙◌, ap,
  subst,
}
use cnginx.Common.Memory.{Bytes}
use cnginx.Packet.{Message, data_bufsize}
use cnginx.Conn.{Conn, Cursor, in_head_info, in_pkg, get_one_to_use}
use cnginx.Recv.{read_all}
use cnginx.Recv.Frame.{IsPacket, Framed, feed, feed-flatten}
use cnginx.Recv.Refine.{InHeader, Ready, entry, Reads, read_all-feed}

-- `n` bytes written at the cursor stay inside the block that it points into.
abbrev pub Fits : Conn → Cursor → Option Message → ℕ → Type 0
Fits c (in_head_info o) m n = o + n ≤ length c.data_head_info
Fits c (in_pkg o) none n = ⊥
Fits c (in_pkg o) (some m) n = o + n ≤ length m.pkg

pub Ready-Fits :
    (self : ℕ) (c : Conn) (p : Bytes)
    → Ready self c p
    → (0 < c.irecvlen) × Fits c c.precvbuf c.precv_mem c.irecvlen
Ready-Fits self c p (inl v) = ground arith
Ready-Fits self c p (inr (m, v)) = ground arith

-- A connection is ready for the first header when it has been taken from the pool.
pub get_one_to_use-InHeader :
    (c : Conn) → length c.data_head_info ≡ data_bufsize → InHeader (get_one_to_use c) []
unfolding get_one_to_use
get_one_to_use-InHeader c h = ground arith

module _ (new_char : ℕ → Bytes) (length-new_char : (n : ℕ) → length (new_char n) ≡ n) (self : ℕ)
    (c : Conn) (ready : InHeader c []) where
  at_header : {p : Bytes} {d : Conn} → p ≡ [] → Ready self d p → InHeader d []
  at_header e (inl v) = subst (InHeader _) e v
  at_header e (inr (m, v)) = absurd (ground arith)

  -- A connection waits for a header, and its peer sends packets, each of 8 to 29000 bytes as its
  -- header says; recv splits them into reads, each of at least one byte and at most as many as
  -- it is asked for. Then each packet is queued once, whole and in order, with the connection's
  -- address and sequence number in front, and the connection waits for the next header.
  pub read_all-packets :
      (packets reads : List Bytes)
      → All IsPacket packets
      → Reads new_char self c reads
      → flatten reads ≡ flatten packets
      → let r = read_all new_char self c reads in
        (r.queued ≡ map (entry self c.cur_sequence) packets) × InHeader r.conn []
  read_all-packets packets reads h split e =
      let (final, queued, same) =
        read_all-feed new_char self length-new_char reads c [] (inl ready) split in
      let framed = ap (feed []) e ∙ feed-flatten packets h in
      (
        queued ∙ ap (λ (f : Framed). map (entry self c.cur_sequence) f.1) framed,
        at_header (ap (λ (f : Framed). f.0) framed) final,
      )

  -- A connection waits for a header. After any reads, each of at least one byte and at most as many
  -- as were asked for, recv is asked for at least one byte, and has room for all that it is asked
  -- for.
  pub read_all-Fits :
      (reads : List Bytes)
      → Reads new_char self c reads
      → let d = (read_all new_char self c reads).conn in
        (0 < d.irecvlen) × Fits d d.precvbuf d.precv_mem d.irecvlen
  read_all-Fits reads split =
      Ready-Fits self _ _
        (read_all-feed new_char self length-new_char reads c [] (inl ready) split).0
