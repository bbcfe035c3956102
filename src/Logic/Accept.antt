-- ===== src/Logic/Accept.antt =====
-- Which packets CLogicSocket::threadRecvProcFunc (nginx/logic/ngx_c_slogic.cxx) hands to a
-- handler, and what the reply to a registration is.
use mathlib.Core.Bool.{false≢true}
use cnginx.Common.{
  ℕ, zero, suc, ◌-◌, Bool, true, false, ◌==◌, Option, none, some, take, drop, ◌≡◌, ◌≢◌, ◌⊎◌, inl,
  inr, refl, sym, ◌∙◌, arith, Bool-cases,
}
use cnginx.Common.Memory.{Bytes}
use cnginx.Crc.{get_crc}
use cnginx.Packet.{Message, header_size, load32, ntohl, pkg_len, msg_code}
use cnginx.Socket.{Socket}
use cnginx.Send.{is_stale}
use cnginx.Logic.{
  handle_register, handle_login, status_handler, nth_handler, cmd_register, cmd_login,
  handle_register_packet, dispatch, thread_recv_proc, Processed,
}

abbrev pub body_of : Bytes → Bytes
body_of pkg = take (pkg_len pkg - header_size) (drop header_size pkg)

-- The checksum that the code asks of a packet: 0 without a body, else the CRC-32 of the body, sent
-- in network order.
abbrev pub HasChecksum : Bytes → Type 0
HasChecksum pkg =
    ((header_size ≡ pkg_len pkg) × (load32 4 pkg ≡ 0))
    ⊎ ((header_size ≢ pkg_len pkg) × (get_crc (body_of pkg) ≡ ntohl (load32 4 pkg)))

-- A packet with the right checksum, of the current use of its connection, with a known code.
abbrev pub IsAccepted : Message → Socket → Type 0
IsAccepted m s =
    HasChecksum m.pkg
    × (is_stale m s ≡ false)
    × ((msg_code m.pkg ≡ cmd_register) ⊎ (msg_code m.pkg ≡ cmd_login))

-- The table holds a handler for the two commands only.
handler_cases :
    (code : ℕ)
    → ((code ≡ cmd_register) × (nth_handler status_handler code ≡ some handle_register))
      ⊎ ((code ≡ cmd_login) × (nth_handler status_handler code ≡ some handle_login))
      ⊎ ((code ≢ cmd_register) × (code ≢ cmd_login) × (nth_handler status_handler code ≡ none))
handler_cases zero = inr (inr (omega arith, omega arith, refl))
handler_cases (suc zero) = inr (inr (omega arith, omega arith, refl))
handler_cases (suc (suc zero)) = inr (inr (omega arith, omega arith, refl))
handler_cases (suc (suc (suc zero))) = inr (inr (omega arith, omega arith, refl))
handler_cases (suc (suc (suc (suc zero)))) = inr (inr (omega arith, omega arith, refl))
handler_cases (suc (suc (suc (suc (suc zero))))) = inl (refl, refl)
handler_cases (suc (suc (suc (suc (suc (suc zero)))))) = inr (inl (refl, refl))
handler_cases (suc (suc (suc (suc (suc (suc (suc n))))))) =
    inr (inr (omega arith, omega arith, refl))

no_zero :
    (m : Message)
    → (header_size == pkg_len m.pkg) ≡ true
    → (load32 4 m.pkg == 0) ≡ false
    → ¬ HasChecksum m.pkg
no_zero m e n (inl (k, z)) = ground arith
no_zero m e n (inr (k, z)) = ground arith

no_match :
    (m : Message)
    → (header_size == pkg_len m.pkg) ≡ false
    → (get_crc (body_of m.pkg) == ntohl (load32 4 m.pkg)) ≡ false
    → ¬ HasChecksum m.pkg
no_match m e n (inl (k, z)) = ground arith
no_match m e n (inr (k, z)) = ground arith

module _ (junk : Bytes) (post_ok : Bool) where
  -- The packet goes to a handler, or nothing at all is changed.
  abbrev Outcome : Type 0 → Socket → Processed → Type 0
  Outcome accepted s p =
      (accepted × ((r : Bool) × (p.result ≡ some r)))
      ⊎ ((¬ accepted) × (p.result ≡ none) × (p.sock ≡ s))

  abbrev IsKnown : Message → Socket → Type 0
  IsKnown m s =
      (is_stale m s ≡ false) × ((msg_code m.pkg ≡ cmd_register) ⊎ (msg_code m.pkg ≡ cmd_login))

  unknown :
      (m : Message) (s : Socket)
      → msg_code m.pkg ≢ cmd_register
      → msg_code m.pkg ≢ cmd_login
      → ¬ IsKnown m s
  unknown m s n5 n6 (fresh, inl e) = n5 e
  unknown m s n5 n6 (fresh, inr e) = n6 e

  dispatch-Outcome :
      (m : Message) (body : Option Bytes) (s : Socket)
      → Outcome (IsKnown m s) s (dispatch junk post_ok m body s)
  unfolding dispatch
  dispatch-Outcome m body s = elim (Bool-cases (is_stale m s)) [
    | inl stale ↦ inr ((λ k. false≢true (sym k.0 ∙ stale)), ground arith, ground arith)
    | inr fresh ↦ elim (handler_cases (msg_code m.pkg)) [
      | inl (e, h) ↦ inl (
        (fresh, inl e),
        (
          (handle_register_packet junk post_ok m body (pkg_len m.pkg - header_size) s).1,
          ground arith,
        ),
      )
      | inr (inl (e, h)) ↦ inl ((fresh, inr e), (true, ground arith))
      | inr (inr (n5, n6, h)) ↦ inr (unknown m s n5 n6, ground arith, ground arith)
    ]
  ]

  refuse :
      (m : Message) (s : Socket) (p : Processed)
      → ¬ HasChecksum m.pkg
      → p.result ≡ none
      → p.sock ≡ s
      → Outcome (IsAccepted m s) s p
  refuse m s p wrong e k = inr ((λ (a : IsAccepted m s). wrong a.0), e, k)

  checked :
      (m : Message) (s : Socket) (p : Processed)
      → HasChecksum m.pkg
      → Outcome (IsKnown m s) s p
      → Outcome (IsAccepted m s) s p
  checked m s p right (inl (k, r)) = inl ((right, k.0, k.1), r)
  checked m s p right (inr (n, e, k)) = inr ((λ (a : IsAccepted m s). n (a.1, a.2)), e, k)

  -- A packet is handed to a handler exactly when its checksum is right, its connection is still in
  -- the use in which the packet came, and its code is one of the two commands; any other packet
  -- changes nothing.
  pub thread_recv_proc-IsAccepted :
      (m : Message) (s : Socket)
      → let p = thread_recv_proc junk post_ok m s in
        (IsAccepted m s × ((r : Bool) × (p.result ≡ some r)))
        ⊎ ((¬ IsAccepted m s) × (p.result ≡ none) × (p.sock ≡ s))
  unfolding thread_recv_proc
  thread_recv_proc-IsAccepted m s = elim (Bool-cases (header_size == pkg_len m.pkg)) [
    | inl alone ↦ elim (Bool-cases (load32 4 m.pkg == 0)) [
      | inl zero_sum ↦
          rw (alone, zero_sum)
            (checked m s _ (inl (ground arith, ground arith)) (dispatch-Outcome m none s))
      | inr other ↦ rw (alone, other) (refuse m s _ (no_zero m alone other) (refl) (refl))
    ]
    | inr with_body ↦ elim (Bool-cases (get_crc (body_of m.pkg) == ntohl (load32 4 m.pkg))) [
      | inl match ↦
          rw (with_body, match)
            (checked m s _ (inr (ground arith, ground arith))
              (dispatch-Outcome m (some (body_of m.pkg)) s))
      | inr differs ↦
          rw (with_body, differs) (refuse m s _ (no_match m with_body differs) (refl) (refl))
    ]
  ]
