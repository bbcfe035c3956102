-- ===== src/Epoll.antt =====
-- CSocekt::ngx_epoll_oper_event of nginx/net/ngx_c_socket.cxx: the interest set of a connection.
-- The kernel is told the new set by epoll_ctl, whose success is an argument.
use Prim.Native.Nat.{bit_and, bit_or}
use cnginx.Common.{ℕ, ◌-◌, Bool, ◌==◌, if◌then◌else◌}
use cnginx.Common.Int.{ℤ, pos, negsuc}
use cnginx.Conn.{Conn}

abbrev pub epollin : ℕ
epollin = 0x001

abbrev pub epollout : ℕ
epollout = 0x004

abbrev pub epollerr : ℕ
epollerr = 0x008

abbrev pub epollhup : ℕ
epollhup = 0x010

abbrev pub epollrdhup : ℕ
epollrdhup = 0x2000

pub data EventType : Type 0 where
  ctl_add ctl_mod ctl_other : EventType

-- ev.events &= ~flag on 32 bits
abbrev pub clear_bits : ℕ → ℕ → ℕ
clear_bits events flag = bit_and events (0xffffffff - flag)

-- `bcaction` is 0 to add a flag, 1 to take it away, and anything else to put the flag alone.
abbrev pub modified : ℕ → ℕ → ℕ → ℕ
modified bcaction events flag =
    if bcaction == 0
    then bit_or events flag
    else if bcaction == 1
    then clear_bits events flag
    else flag

-- The connection afterwards, and the returned value: 1, or -1 if epoll_ctl fails. The set in the
-- object changes in both cases.
unfoldable pub epoll_oper_event : EventType → ℕ → ℕ → Bool → Conn → Conn × ℤ
epoll_oper_event ctl_add flag bcaction ctl_ok c =
    (record c { events = flag }, if ctl_ok then pos 1 else negsuc 0)
epoll_oper_event ctl_mod flag bcaction ctl_ok c =
    (record c { events = modified bcaction c.events flag }, if ctl_ok then pos 1 else negsuc 0)
epoll_oper_event ctl_other flag bcaction ctl_ok c = (c, pos 1)
