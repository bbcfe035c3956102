-- ===== src/Recv/Refine.antt =====
-- The read handler of nginx/net/ngx_c_socket_request.cxx against the meaning of the stream in
-- Recv/Frame, for any way in which `recv` splits the stream.
use mathlib.Core.List.{flatten}
use cnginx.Common.{
  ℕ, ◌+◌, ◌≤◌, ◌<◌, ◌≡◌, ◌⊎◌, inl, inr, refl, sym, ap, ap₂, ◌∙◌, arith, Option, none, some, List,
  [], ◌∷◌, ◌++◌, map, map-append, length, length-append, take, Bool-cases, ◌||◌, ltb, ◌==◌,
  take-append-drop, drop, take_all,
}
use cnginx.Common.Memory.{Bytes, write_at, length-write_at, take-write_at}
use cnginx.Packet.{Message, header_size, data_bufsize, pkg_len}
use cnginx.Conn.{Conn, hd_init, hd_recving, bd_init, bd_recving, in_head_info, in_pkg}
use cnginx.Recv.{Received, proc_p1, read_bytes, read_all, new_message}
use cnginx.Recv.Frame.{longest, settle, feed, feed_short, feed_full, feed-append, pkg_len-append}

-- The connection has read `p` of a header.
pub record InHeader (c : Conn) (p : Bytes) : Type 0 where
  pub short : length p < header_size
  pub cursor : c.precvbuf ≡ in_head_info (length p)
  pub missing : c.irecvlen + length p ≡ header_size
  pub stat : ((c.cur_stat ≡ hd_init) × (length p ≡ 0)) ⊎ (c.cur_stat ≡ hd_recving)
  pub size : length c.data_head_info ≡ data_bufsize
  pub kept : take (length p) c.data_head_info ≡ p
  pub no_memory : c.precv_mem ≡ none

-- The connection has read `p` of a packet into the block `m`.
pub record InBody (self : ℕ) (c : Conn) (p : Bytes) (m : Message) : Type 0 where
  pub memory : c.precv_mem ≡ some m
  pub owner : m.conn ≡ self
  pub sequence : m.cur_sequence ≡ c.cur_sequence
  pub cursor : c.precvbuf ≡ in_pkg (length p)
  pub missing : c.irecvlen + length p ≡ length m.pkg
  pub stat : (c.cur_stat ≡ bd_init) ⊎ (c.cur_stat ≡ bd_recving)
  pub size : length c.data_head_info ≡ data_bufsize
  pub begun : header_size ≤ length p
  pub more : length p < length m.pkg
  pub fits : length m.pkg ≤ longest
  pub names : pkg_len p ≡ length m.pkg
  pub kept : take (length p) m.pkg ≡ p

-- The connection at address `self` has read `pending` since the last decision.
abbrev pub Ready : ℕ → Conn → Bytes → Type 0
Ready self c pending = InHeader c pending ⊎ ((m : Message) × InBody self c pending m)

-- The queue's entry for a packet that was read while the connection had this sequence number.
abbrev pub entry : ℕ → ℕ → Bytes → Option Message
entry self sequence q = some (record { conn = self; cur_sequence = sequence; pkg = q })

module _ (new_char : ℕ → Bytes) (self : ℕ) where
  header_more :
      (c : Conn) (p bs : Bytes)
      → InHeader c p
      → 0 < length bs
      → length bs < c.irecvlen
      → InHeader (read_bytes new_char self c bs).conn (p ++ bs)
  unfolding read_bytes
  header_more c p bs v lo hi = ground (
    arith,
    length-append p bs,
    length-write_at (length p) bs c.data_head_info,
    take-write_at (length p) bs c.data_head_info (length (p ++ bs)),
  )

  pub read_bytes-cur_sequence :
      (c : Conn) (bs : Bytes) → (read_bytes new_char self c bs).conn.cur_sequence ≡ c.cur_sequence
  unfolding read_bytes
  read_bytes-cur_sequence c bs = ground arith

  header_more-queued :
      (c : Conn) (p bs : Bytes)
      → InHeader c p
      → length bs < c.irecvlen
      → (read_bytes new_char self c bs).queued ≡ []
  unfolding read_bytes
  header_more-queued c p bs v hi = ground arith

  body_more :
      (c : Conn) (p bs : Bytes) (m : Message)
      → InBody self c p m
      → 0 < length bs
      → length bs < c.irecvlen
      → let r = read_bytes new_char self c bs in
        InBody self r.conn (p ++ bs) (record m { pkg = write_at (length p) bs m.pkg })
        × (r.queued ≡ [])
  unfolding read_bytes
  body_more c p bs m v lo hi = ground (
    arith,
    length-append p bs,
    length-write_at (length p) bs m.pkg,
    take-write_at (length p) bs m.pkg (length (p ++ bs)),
    pkg_len-append p bs,
  )

  -- The last bytes of a body: the block goes to the queue, and the connection starts afresh.
  body_last :
      (c : Conn) (p bs : Bytes) (m : Message)
      → InBody self c p m
      → length bs ≡ c.irecvlen
      → let r = read_bytes new_char self c bs in
        InHeader r.conn [] × (r.queued ≡ some (record m { pkg = p ++ bs }) ∷ [])
  unfolding read_bytes
  body_last c p bs m v e = ground (
    arith,
    length-append p bs,
    length-write_at (length p) bs m.pkg,
    take-write_at (length p) bs m.pkg (length (p ++ bs)),
    take_all (length (p ++ bs)) (write_at (length p) bs m.pkg),
  )

  -- The last bytes of a header: ngx_wait_request_handler_proc_p1 is called with the whole header.
  header_last :
      (c : Conn) (p bs : Bytes)
      → InHeader c p
      → length bs ≡ c.irecvlen
      → read_bytes new_char self c bs
        ≡ proc_p1 new_char self
            (record c { data_head_info = write_at (length p) bs c.data_head_info })
  unfolding read_bytes
  header_last c p bs v e = ground arith

  -- The connection and the queue are where the decision `f` on the stream leads.
  abbrev pub Follows : ℕ → Received → Bytes × List Bytes → Type 0
  Follows sequence r f =
      Ready self r.conn f.0
      × (r.queued ≡ map (entry self sequence) f.1)
      × (r.conn.cur_sequence ≡ sequence)

  -- Each read gives at least one byte, and at most as many as were asked for.
  abbrev pub Reads : Conn → List Bytes → Type 0
  Reads c [] = Unit {0}
  Reads c (bs ∷ rest) =
      (0 < length bs) × (length bs ≤ c.irecvlen) × Reads (read_bytes new_char self c bs).conn rest

  module _ (length-new_char : (n : ℕ) → length (new_char n) ≡ n) where
    module _ (c : Conn) (q : Bytes) (whole : length q ≡ header_size)
        (kept : take header_size c.data_head_info ≡ q)
        (size : length c.data_head_info ≡ data_bufsize) (no_memory : c.precv_mem ≡ none) where
      pkg_len-header : pkg_len c.data_head_info ≡ pkg_len q
      pkg_len-header =
          ap pkg_len (sym (take-append-drop header_size c.data_head_info))
          ∙ rw kept (pkg_len-append q (drop header_size c.data_head_info) (omega arith))

      block : Bytes
      block = write_at 0 q (new_char (pkg_len q))

      length-block : length block ≡ pkg_len q
      unfolding block
      length-block = length-write_at 0 q (new_char (pkg_len q)) ∙ length-new_char (pkg_len q)

      take-block : header_size ≤ pkg_len q → take header_size block ≡ q
      unfolding block
      take-block h =
          take-write_at 0 q (new_char (pkg_len q)) header_size (omega arith)
            (omega (arith, length-new_char (pkg_len q)))

      pkg-block : (new_message new_char self c (pkg_len c.data_head_info)).pkg ≡ block
      unfolding block
      pkg-block = rw (kept, pkg_len-header)

      proc_p1-settle : Follows c.cur_sequence (proc_p1 new_char self c) (settle q)
      unfolding proc_p1
      proc_p1-settle = elim (Bool-cases (ltb (pkg_len q) header_size || ltb longest (pkg_len q))) [
        | inl refused ↦ rw refused (
          inl (ground (arith, pkg_len-header)),
          ground (arith, pkg_len-header),
          ground (arith, pkg_len-header),
        )
        | inr taken ↦ elim (Bool-cases (length q == pkg_len q)) [
          | inl done ↦
              rw (taken, done)
                (
                  inl (ground (arith, pkg_len-header)),
                  ground (
                    arith,
                    pkg_len-header,
                    pkg-block,
                    length-block,
                    take-block,
                    take_all header_size block,
                  ),
                  ground (arith, pkg_len-header),
                )
          | inr more ↦
              rw (taken, more)
                (
                  inr (
                    new_message new_char self c (pkg_len c.data_head_info),
                    ground (arith, pkg_len-header, pkg-block, length-block, take-block),
                  ),
                  ground (arith, pkg_len-header),
                  ground (arith, pkg_len-header),
                )
        ]
      ]

    InHeader-feed :
        (c : Conn) (p bs : Bytes)
        → InHeader c p
        → 0 < length bs
        → length bs ≤ c.irecvlen
        → Follows c.cur_sequence (read_bytes new_char self c bs) (feed p bs)
    InHeader-feed c p bs v lo hi = elim (Bool-cases (length bs == c.irecvlen)) [
      | inl e ↦
          rw (header_last c p bs v (ground arith), feed_full bs p (inl v.short) (ground arith))
            (proc_p1-settle (record c { data_head_info = write_at (length p) bs c.data_head_info })
              (p ++ bs) (ground (arith, length-append p bs))
              (ground (arith, take-write_at (length p) bs c.data_head_info header_size))
              (ground (arith, length-write_at (length p) bs c.data_head_info)) v.no_memory)
      | inr e ↦ rw (feed_short bs p (inl v.short) (ground arith)).0 (
        inl (header_more c p bs v lo (ground arith)),
        header_more-queued c p bs v (ground arith),
        read_bytes-cur_sequence c bs,
      )
    ]

    body_whole :
        (p bs : Bytes) {c : Conn} (m : Message)
        → InBody self c p m
        → length (p ++ bs) ≡ length m.pkg
        → settle (p ++ bs) ≡ ([], (p ++ bs) ∷ [])
    body_whole p bs m v e = ground (arith, pkg_len-append p bs, length-append p bs)

    InBody-feed :
        (c : Conn) (p bs : Bytes) (m : Message)
        → InBody self c p m
        → 0 < length bs
        → length bs ≤ c.irecvlen
        → Follows c.cur_sequence (read_bytes new_char self c bs) (feed p bs)
    InBody-feed c p bs m v lo hi = elim (Bool-cases (length bs == c.irecvlen)) [
      | inl e ↦
          let (ready, queued) = body_last c p bs m v (ground arith) in
          rw
            (
              feed_full bs p (inr (ground arith)) (ground arith),
              body_whole p bs m v (ground (arith, length-append p bs)),
            )
            (inl ready, queued ∙ ground arith, read_bytes-cur_sequence c bs)
      | inr e ↦
          let (ready, queued) = body_more c p bs m v lo (ground arith) in
          rw (feed_short bs p (inr (ground arith)) (ground arith)).0
            (inr (_, ready), queued, read_bytes-cur_sequence c bs)
    ]

    -- One read, of any size that the handler can be given, does to the connection and the queue
    -- what its bytes mean.
    pub read_bytes-feed :
        (c : Conn) (p bs : Bytes)
        → Ready self c p
        → 0 < length bs
        → length bs ≤ c.irecvlen
        → Follows c.cur_sequence (read_bytes new_char self c bs) (feed p bs)
    read_bytes-feed c p bs (inl v) lo hi = InHeader-feed c p bs v lo hi
    read_bytes-feed c p bs (inr (m, v)) lo hi = InBody-feed c p bs m v lo hi

    -- A connection has read `p` of a header or a packet. However recv splits the bytes that follow
    -- into reads, each of at least one byte and at most as many as it is asked for, the handler
    -- queues the packets of the stream as `feed` cuts it byte by byte, and the connection holds the
    -- rest.
    pub read_all-feed :
        (reads : List Bytes) (c : Conn) (p : Bytes)
        → Ready self c p
        → Reads c reads
        → Follows c.cur_sequence (read_all new_char self c reads) (feed p (flatten reads))
    unfolding read_all flatten
    read_all-feed [] c p v h = unfold feed in (v, refl, refl)
    read_all-feed (bs ∷ rest) c p v h =
        let (ready, queued, same) = read_bytes-feed c p bs v h.0 h.1 in
        let (ready', queued', same') =
          read_all-feed rest (read_bytes new_char self c bs).conn (feed p bs).0 ready h.2 in
        rw (feed-append bs (flatten rest) p) (
          ready',
          ap₂ ◌++◌ queued (
                queued'
                ∙ ap (λ (n : ℕ). map (entry self n) (feed (feed p bs).0 (flatten rest)).1) same)
              ∙ sym (map-append _ _ _),
          same' ∙ same,
        )
