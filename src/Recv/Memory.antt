-- ===== src/Recv/Memory.antt =====
-- The blocks that the read handler (nginx/net/ngx_c_socket_request.cxx) holds and queues: the one
-- it had, or a new one.
use cnginx.Common.{
  ℕ, ◌-◌, ◌≡◌, refl, some, none, Option, All, Bool-cases, inl, inr, ltb, ◌==◌, length,
}
use mathlib.Core.Option
use cnginx.Common.Memory.{Bytes, write_at}
use cnginx.Packet.{Message, header_size, pkg_max_length, pkg_len}
use cnginx.Conn.{Conn, Stat, hd_init, hd_recving, bd_init, bd_recving, Cursor, in_head_info, in_pkg}
use cnginx.Recv.{Received, read_bytes, by_stat, proc_p1, proc_plast, store_at}

module _ (P : Message → Type 0) where
  abbrev pub Maybe : Option Message → Type 0
  Maybe none = Unit {0}
  Maybe (some m) = P m

  -- What is read keeps the property, and what is sent is left alone.
  pub record Carries (c : Conn) (r : Received) : Type 0 where
    pub reading : Maybe r.conn.precv_mem
    pub queued : All Maybe r.queued
    pub sending : r.conn.psend_mem ≡ c.psend_mem

  module _ (keeps : (m : Message) (pkg : Bytes) → P m → P (record m { pkg = pkg })) where
    store_at-Maybe :
        (at : Cursor) (c : Conn) (bs : Bytes)
        → Maybe c.precv_mem
        → Maybe (store_at at c bs).precv_mem
    unfolding store_at
    store_at-Maybe (in_head_info o) c bs h = h
    store_at-Maybe (in_pkg o) c bs h = in_block c.precv_mem h
      where
        in_block :
            (b : Option Message)
            → Maybe b
            → Maybe (Option.map (λ (m : Message). record m { pkg = write_at o bs m.pkg }) b)
        in_block none h = tt
        in_block (some m) h = keeps m _ h

    module _ (new_char : ℕ → Bytes) (self : ℕ) where
      plast-Carries : (c : Conn) → Maybe c.precv_mem → Carries c (proc_plast c)
      unfolding proc_plast
      plast-Carries c h = record { reading = tt; queued = (h, tt); sending = refl }

      module _ (c : Conn)
          (fresh : (pkg : Bytes)
            → P (record { conn = self; cur_sequence = c.cur_sequence; pkg = pkg }))
          (h : Maybe c.precv_mem) where
        p1-Carries : Carries c (proc_p1 new_char self c)
        unfolding proc_p1 proc_plast
        p1-Carries = elim (Bool-cases (ltb (pkg_len c.data_head_info) header_size)) [
          | inl short ↦ rw short (record { reading = h; queued = tt; sending = refl })
          | inr enough ↦
              elim (Bool-cases (ltb (pkg_max_length - 1000) (pkg_len c.data_head_info))) [
                | inl long ↦ rw (enough, long) (record { reading = h; queued = tt; sending = refl })
                | inr fits ↦ elim (Bool-cases (pkg_len c.data_head_info == header_size)) [
                  | inl alone ↦
                      rw (enough, fits, alone)
                        (record { reading = tt; queued = (fresh _, tt); sending = refl })
                  | inr body ↦
                      rw (enough, fits, body)
                        (record { reading = fresh _; queued = tt; sending = refl })
                ]
              ]
        ]

        by_stat-Carries : (s : Stat) (n : ℕ) → Carries c (by_stat new_char self s c n)
        unfolding by_stat
        by_stat-Carries hd_init n = elim (Bool-cases (n == header_size)) [
          | inl whole ↦ rw whole p1-Carries
          | inr part ↦ rw part (record { reading = h; queued = tt; sending = refl })
        ]
        by_stat-Carries hd_recving n = elim (Bool-cases (c.irecvlen == n)) [
          | inl whole ↦ rw whole p1-Carries
          | inr part ↦ rw part (record { reading = h; queued = tt; sending = refl })
        ]
        by_stat-Carries bd_init n = elim (Bool-cases (n == c.irecvlen)) [
          | inl whole ↦ rw whole (plast-Carries c h)
          | inr part ↦ rw part (record { reading = h; queued = tt; sending = refl })
        ]
        by_stat-Carries bd_recving n = elim (Bool-cases (c.irecvlen == n)) [
          | inl whole ↦ rw whole (plast-Carries c h)
          | inr part ↦ rw part (record { reading = h; queued = tt; sending = refl })
        ]

      stored-Carries :
          (at : Cursor) (c : Conn) (bs : Bytes) (st : Stat) (n : ℕ)
          → ((pkg : Bytes) → P (record { conn = self; cur_sequence = c.cur_sequence; pkg = pkg }))
          → Maybe c.precv_mem
          → Carries c (by_stat new_char self st (store_at at c bs) n)
      unfolding store_at
      stored-Carries (in_head_info o) c bs st n fresh h =
          let v = by_stat-Carries (store_at (in_head_info o) c bs) fresh h st n in
          record { reading = v.reading; queued = v.queued; sending = v.sending }
      stored-Carries (in_pkg o) c bs st n fresh h =
          let v =
            by_stat-Carries (store_at (in_pkg o) c bs) fresh (store_at-Maybe (in_pkg o) c bs h) st
              n in
          record { reading = v.reading; queued = v.queued; sending = v.sending }

      -- A property of the block under way that also holds of a new one, whatever their packets are,
      -- holds of what is queued, and of the block that is then under way.
      pub read_bytes-Carries :
          (c : Conn) (bs : Bytes)
          → ((pkg : Bytes) → P (record { conn = self; cur_sequence = c.cur_sequence; pkg = pkg }))
          → Maybe c.precv_mem
          → Carries c (read_bytes new_char self c bs)
      unfolding read_bytes
      read_bytes-Carries c bs fresh h =
          stored-Carries c.precvbuf c bs c.cur_stat (length bs) fresh h
