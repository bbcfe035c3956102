-- ===== src/Socket/Blank.antt =====
-- Objects that hold no message, before a worker has read anything: what initconnection and
-- ngx_get_connection of nginx/net/ngx_c_socket_conn.cxx make.
use cnginx.Common.{
  ℕ, zero, suc, ◌^◌, ◌<◌, ◌≡◌, inl, inr, refl, sym, subst, arith, length, ℕ_discrete, none, List,
  [],
}
use cnginx.Packet.{Message, data_bufsize}
use cnginx.Conn.{Conn, get_one_to_use}
use cnginx.Socket.{Socket, initconnection, init_loop, fill_one, allocate, get_connection, set_conn}
use cnginx.Socket.Untouched.{update_elim, get_connection-others}
use cnginx.Socket.Uses.{get_connection-Taken}

pub record IsBlank (c : Conn) : Type 0 where
  pub word : c.cur_sequence < 2 ^ 64
  pub size : length c.data_head_info ≡ data_bufsize
  pub no_reading : c.precv_mem ≡ none
  pub no_sending : c.psend_mem ≡ none

-- No object, and no queue, holds a message.
pub record AllBlank (s : Socket) : Type 0 where
  pub conns : (p : ℕ) → IsBlank (s.conns p)
  pub no_replies : s.msg_send_queue ≡ []

made-IsBlank :
    (c : Conn) (isock : ℕ)
    → length c.data_head_info ≡ data_bufsize
    → IsBlank (record (get_one_to_use c) { fd = isock })
unfolding get_one_to_use
made-IsBlank c isock size = record {
  word = omega arith;
  size = size;
  no_reading = refl;
  no_sending = refl;
}

pub set_conn-AllBlank :
    (p : ℕ) (c : Conn) (s : Socket) → AllBlank s → IsBlank c → AllBlank (set_conn p c s)
set_conn-AllBlank p c s v b = record {
  conns = λ q. update_elim IsBlank s.conns p c q (λ e. b) (λ n. v.conns q);
  no_replies = v.no_replies;
}

fill_one-AllBlank : (s : Socket) → AllBlank s → AllBlank (fill_one s)
unfolding allocate get_one_to_use
fill_one-AllBlank s v = record {
  conns = λ q.
      update_elim IsBlank s.conns s.next_address _ q
        (λ e. record { word = omega arith; size = refl; no_reading = refl; no_sending = refl })
        (λ n. v.conns q);
  no_replies = v.no_replies;
}

init_loop-AllBlank : (rounds : ℕ) (s : Socket) → AllBlank s → AllBlank (init_loop rounds s)
unfolding init_loop
init_loop-AllBlank zero s v = v
init_loop-AllBlank (suc rounds) s v = init_loop-AllBlank rounds (fill_one s) (fill_one-AllBlank s v)

pub initconnection-AllBlank : (s : Socket) → AllBlank s → AllBlank (initconnection s)
unfolding initconnection
initconnection-AllBlank s v =
    let u = init_loop-AllBlank s.worker_connections s v in
    record { conns = u.conns; no_replies = u.no_replies }

pub get_connection-AllBlank :
    (s : Socket) (isock : ℕ) → AllBlank s → AllBlank (get_connection s isock).0
get_connection-AllBlank s isock v =
    let (t, new) = get_connection s isock in
    let g = get_connection-Taken s isock in
    let size : length g.origin.data_head_info ≡ data_bufsize = elim g.old_or_new [
      | inl e ↦ subst (λ (c : Conn). length c.data_head_info ≡ data_bufsize) (sym e) refl
      | inr (e, m) ↦
          subst (λ (c : Conn). length c.data_head_info ≡ data_bufsize) (sym e) (v.conns new).size
    ] in
    record {
      conns = λ q. elim (ℕ_discrete q new) [
        | yes e ↦
            subst (λ i. IsBlank (t.conns i)) (sym e)
              (subst IsBlank (sym g.made) (made-IsBlank g.origin isock size))
        | no n ↦ subst IsBlank (sym (get_connection-others s isock q n)) (v.conns q)
      ];
      no_replies = subst (λ (q : List Message). q ≡ []) (sym g.same_queue) v.no_replies;
    }
