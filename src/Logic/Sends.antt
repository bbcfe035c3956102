-- ===== src/Logic/Sends.antt =====
-- What CLogicSocket::threadRecvProcFunc (nginx/logic/ngx_c_slogic.cxx) may do to the socket: nothing,
-- or put one reply on the send queue.
use cnginx.Common.{
  ℕ, ◌-◌, Bool, ◌==◌, Option, none, some, ◌≡◌, ◌⊎◌, inl, inr, refl, sym, subst, Bool-cases, leb,
  Option-cases,
}
use cnginx.Common.Memory.{Bytes}
use cnginx.Crc.{get_crc}
use cnginx.Packet.{Message, header_size, load32, ntohl, pkg_len, msg_code}
use cnginx.Socket.{Socket}
use cnginx.Send.{is_stale, msg_send}
use cnginx.Logic.{
  handle_register, handle_login, status_handler, nth_handler, auth_total_commands,
  struct_register_size, handle_register_packet, register_reply, dispatch, thread_recv_proc,
  LogicHandler, call_handler,
}
use cnginx.Logic.Accept.{body_of}

module _ (junk : Bytes) (post_ok : Bool) (m : Message) (s : Socket) where
  abbrev Sends : Socket → Type 0
  Sends t = (t ≡ s) ⊎ (t ≡ msg_send (register_reply m junk) post_ok s)

  handle_register_packet-Sends :
      (body : Option Bytes) (body_len : ℕ)
      → Sends (handle_register_packet junk post_ok m body body_len s).0
  unfolding handle_register_packet
  handle_register_packet-Sends none body_len = inl refl
  handle_register_packet-Sends (some body) body_len =
      elim (Bool-cases (struct_register_size == body_len)) [
        | inl fits ↦ inr (rw fits refl)
        | inr other ↦ inl (rw other refl)
      ]

  call_handler-Sends :
      (h : LogicHandler) (body : Option Bytes) (body_len : ℕ)
      → Sends (call_handler junk post_ok h m body body_len s).0
  unfolding call_handler
  call_handler-Sends handle_register body body_len = handle_register_packet-Sends body body_len
  call_handler-Sends handle_login body body_len = inl refl

  dispatch-Sends : (body : Option Bytes) → Sends (dispatch junk post_ok m body s).sock
  unfolding dispatch
  dispatch-Sends body = elim (Bool-cases (is_stale m s)) [
    | inl stale ↦ inl (rw stale refl)
    | inr fresh ↦ elim (Bool-cases (leb auth_total_commands (msg_code m.pkg))) [
      | inl beyond ↦ inl (rw (fresh, beyond) refl)
      | inr within ↦ elim (Option-cases (nth_handler status_handler (msg_code m.pkg))) [
        | inl no_handler ↦ inl (rw (fresh, within, no_handler) refl)
        | inr (h, found) ↦
            rw (fresh, within, found) (call_handler-Sends h body (pkg_len m.pkg - header_size))
      ]
    ]
  ]

  pub thread_recv_proc-Sends : Sends (thread_recv_proc junk post_ok m s).sock
  unfolding thread_recv_proc
  thread_recv_proc-Sends = elim (Bool-cases (header_size == pkg_len m.pkg)) [
    | inl alone ↦ elim (Bool-cases (load32 4 m.pkg == 0)) [
      | inl zero_sum ↦ rw (alone, zero_sum) (dispatch-Sends none)
      | inr other ↦ inl (rw (alone, other) refl)
    ]
    | inr with_body ↦ elim (Bool-cases (get_crc (body_of m.pkg) == ntohl (load32 4 m.pkg))) [
      | inl match ↦ rw (with_body, match) (dispatch-Sends (some (body_of m.pkg)))
      | inr differs ↦ inl (rw (with_body, differs) refl)
    ]
  ]

  -- What holds of the socket, and of it with the reply at the end of its send queue, holds after
  -- the call.
  pub thread_recv_proc_cases {ℓ} :
      (P : Socket → Type ℓ)
      → P s
      → P (msg_send (register_reply m junk) post_ok s)
      → P (thread_recv_proc junk post_ok m s).sock
  thread_recv_proc_cases P same sent = elim thread_recv_proc-Sends [
    | inl e ↦ subst P (sym e) same
    | inr e ↦ subst P (sym e) sent
  ]
