-- ===== src/Logic/Reply.antt =====
-- The reply that CLogicSocket::_HandleRegister (nginx/logic/ngx_c_slogic.cxx) puts on the send
-- queue.
use cnginx.Common.{
  ℕ, ◌+◌, ◌-◌, ◌^◌, ◌<◌, Bool, true, false, ◌==◌, some, [], ◌∷◌, ◌++◌, length, ◌≡◌, ◌≢◌, ◌⊎◌, inl,
  inr, refl, sym, ap, ◌∙◌, arith, All, take_all, Bool-cases,
}
use cnginx.Common.Memory.{Bytes}
use cnginx.Crc.{get_crc}
use cnginx.Crc.Detection.{get_crc-lt}
use cnginx.Packet.{Message, header_size, load32, ntohl, store32, pkg_len, msg_code}
use cnginx.Socket.{Socket}
use cnginx.Send.{msg_send}
use cnginx.Logic.{
  cmd_register, register_send_len, register_reply, struct_register_size, handle_register_packet,
  thread_recv_proc,
}
use cnginx.Logic.Accept.{HasChecksum, IsAccepted, body_of}

-- A 32-bit word that is stored in network order is read back from it.
ntohl-store32 :
    (x : ℕ) (rest : Bytes) → x < 2 ^ 32 → ntohl (load32 0 (store32 (ntohl x) ++ rest)) ≡ x
ntohl-store32 x rest h = omega arith

module _ (m : Message) (junk : Bytes) (filled : length junk ≡ register_send_len) where
  reply-pkg_len : pkg_len (register_reply m junk).pkg ≡ header_size + register_send_len
  unfolding register_reply pkg_len
  reply-pkg_len = refl

  reply-body_of : body_of (register_reply m junk).pkg ≡ junk
  reply-body_of =
      rw reply-pkg_len (unfold register_reply in take_all register_send_len junk (omega arith))

  reply-checksum :
      All (λ b. b < 256) junk → ntohl (load32 4 (register_reply m junk).pkg) ≡ get_crc junk
  unfolding register_reply
  reply-checksum h =
      rw (take_all register_send_len junk (omega arith))
        (ntohl-store32 (get_crc junk) junk (get_crc-lt junk h))

  -- The fresh block holds 65000 bytes. Then the reply goes to the use of the connection from
  -- which the request came, its header says how long it is and that it answers a registration,
  -- and its checksum passes the server's own test.
  pub register_reply_lem :
      All (λ b. b < 256) junk
      → let r = register_reply m junk in
        (r.conn ≡ m.conn)
        × (r.cur_sequence ≡ m.cur_sequence)
        × (length r.pkg ≡ pkg_len r.pkg)
        × (msg_code r.pkg ≡ cmd_register)
        × HasChecksum r.pkg
  register_reply_lem h = (
    unfold register_reply in refl,
    unfold register_reply in refl,
    rw reply-pkg_len (unfold register_reply in omega arith),
    unfold register_reply msg_code in refl,
    inr (omega (arith, reply-pkg_len), ap get_crc reply-body_of ∙ sym (reply-checksum h)),
  )

module _ (junk : Bytes) (post_ok : Bool) (m : Message) (s : Socket) where
  -- An accepted registration with a body of the right size adds one reply at the end of the send
  -- queue, and counts it; one with a body of another size, or with none, changes nothing.
  pub register_queues :
      IsAccepted m s
      → msg_code m.pkg ≡ cmd_register
      → let p = thread_recv_proc junk post_ok m s in
        ((pkg_len m.pkg ≡ header_size + struct_register_size)
          × (p.result ≡ some true)
          × (p.sock.msg_send_queue ≡ s.msg_send_queue ++ register_reply m junk ∷ [])
          × (p.sock.send_msg_queue_count ≡ s.send_msg_queue_count + 1))
        ⊎ ((pkg_len m.pkg ≢ header_size + struct_register_size)
            × (p.result ≡ some false)
            × (p.sock ≡ s))
  unfolding thread_recv_proc handle_register_packet msg_send
  register_queues a e = elim (Bool-cases (struct_register_size == pkg_len m.pkg - header_size)) [
    | inl fits ↦ inl (ground arith)
    | inr other ↦ inr (ground arith)
  ]
