-- ===== src/Logic.antt =====
-- nginx/logic/ngx_c_slogic.cxx: the class CLogicSocket, which checks a received packet and hands
-- it to the handler of its message code.
pub mod Accept
pub mod Reply
pub mod Sends
use cnginx.Common.{
  ℕ, zero, suc, ◌+◌, ◌-◌, ◌*◌, ◌/◌, ◌%◌, Bool, true, false, not, ◌==◌, ltb, leb, if◌then◌else◌,
  Option, none, some, List, [], ◌∷◌, ◌++◌, length, take, drop,
}
use cnginx.Common.Memory.{Bytes, write_at}
use cnginx.Crc.{get_crc}
use cnginx.Packet.{Message, header_size, load32, ntohs, ntohl, store16, store32, pkg_len, msg_code}
use cnginx.Socket.{Socket}
use cnginx.Send.{is_stale, msg_send}

-- sizeof(STRUCT_REGISTER): an int and the two char arrays, packed.
abbrev pub struct_register_size : ℕ
struct_register_size = 4 + 56 + 40

-- _CMD_REGISTER and _CMD_LOGIN
abbrev pub cmd_register : ℕ
cmd_register = 5

abbrev pub cmd_login : ℕ
cmd_login = 6

-- The entries of statusHandler[]; a null pointer is `none`.
pub data LogicHandler : Type 0 where
  handle_register handle_login : LogicHandler

abbrev pub status_handler : List (Option LogicHandler)
status_handler = none ∷ none ∷ none ∷ none ∷ none ∷ some handle_register ∷ some handle_login ∷ []

-- AUTH_TOTAL_COMMANDS
abbrev pub auth_total_commands : ℕ
auth_total_commands = length status_handler

-- statusHandler[imsgCode], behind the test that the code is in range.
abbrev pub nth_handler : List (Option LogicHandler) → ℕ → Option LogicHandler
nth_handler [] i = none
nth_handler (h ∷ hs) zero = h
nth_handler (h ∷ hs) (suc i) = nth_handler hs i

-- The reply of _HandleRegister before it is sent: `junk` is what the body of the fresh block holds.
-- The local `iSendLen` is set to 65000.
abbrev pub register_send_len : ℕ
register_send_len = 65000

unfoldable pub register_reply : Message → Bytes → Message
unfolding get_crc
register_reply m junk = record {
  conn = m.conn;
  cur_sequence = m.cur_sequence;
  pkg =
      store16 (ntohs (header_size + register_send_len))
      ++ store16 (ntohs cmd_register)
      ++ store32 (ntohl (get_crc (take register_send_len junk)))
      ++ junk;
}

-- The result of a call: the socket, and the value returned by the handler, if one was called.
pub record Processed : Type 0 where
  pub sock : Socket
  pub result : Option Bool

-- A header that names fewer than 8 bytes, for which the lengths below would wrap around, does not
-- come through the reader. `body_len` is the argument iBodyLength, and the body pointer is null when
-- there is none. `junk` is what a fresh block holds, and `post_ok` whether sem_post succeeds.
module _ (junk : Bytes) (post_ok : Bool) where
  -- CLogicSocket::_HandleRegister
  unfoldable pub handle_register_packet : Message → Option Bytes → ℕ → Socket → Socket × Bool
  handle_register_packet m none body_len s = (s, false)
  handle_register_packet m (some body) body_len s =
      if not (struct_register_size == body_len)
      then (s, false)
      else (msg_send (register_reply m junk) post_ok s, true)

  -- CLogicSocket::_HandleLogIn only writes to the log.
  call_handler : LogicHandler → Message → Option Bytes → ℕ → Socket → Socket × Bool
  unfolding handle_register_packet
  call_handler handle_register m body body_len s = handle_register_packet m body body_len s
  call_handler handle_login m body body_len s = (s, true)

  abbrev ignored : Socket → Processed
  ignored s = record { sock = s; result = none }

  -- threadRecvProcFunc behind the checksum test.
  dispatch : Message → Option Bytes → Socket → Processed
  unfolding call_handler
  dispatch m body s =
      if is_stale m s
      then ignored s
      else if leb auth_total_commands (msg_code m.pkg)
      then ignored s
      else elim (nth_handler status_handler (msg_code m.pkg)) [
        | none ↦ ignored s
        | some h ↦
            let (t, r) = call_handler h m body (pkg_len m.pkg - header_size) s in
            record { sock = t; result = some r }
      ]

  -- CLogicSocket::threadRecvProcFunc
  unfoldable pub thread_recv_proc : Message → Socket → Processed
  unfolding dispatch
  thread_recv_proc m s =
      if header_size == pkg_len m.pkg
      then if not (load32 4 m.pkg == 0) then ignored s else dispatch m none s
      else let body = take (pkg_len m.pkg - header_size) (drop header_size m.pkg) in
        if not (get_crc body == ntohl (load32 4 m.pkg)) then ignored s else dispatch m (some body) s
