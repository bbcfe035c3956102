-- ===== src/Inet.antt =====
-- nginx/net/ngx_c_socket_inet.cxx: the text of a peer's address.
pub mod Dotted
use cnginx.Common.{
  ℕ, zero, suc, Bool, true, false, not, ◌==◌, if◌then◌else◌, List, [], ◌∷◌, ◌++◌, length,
}
use cnginx.Common.Int.{ℤ, pos}
use cnginx.Common.Memory.{Bytes}
use cnginx.Format.{Floats, Args, vslprintf}
use cnginx.Packet.{ntohs}

-- What `sa` points to: the four bytes of sin_addr and sin_port as it is stored, or an address of a
-- family other than AF_INET.
pub data SockAddr : Type 0 where
  inet : ℕ → ℕ → ℕ → ℕ → ℕ → SockAddr
  other_family : SockAddr

-- "%ud.%ud.%ud.%ud"
abbrev pub address_format : List ℕ
address_format =
    b'%' ∷ b'u' ∷ b'd' ∷ b'.' ∷ b'%' ∷ b'u' ∷ b'd' ∷ b'.' ∷ b'%' ∷ b'u' ∷ b'd' ∷ b'.' ∷ b'%' ∷ b'u'
    ∷ b'd' ∷ []

-- "%ud.%ud.%ud.%ud:%d"
abbrev pub port_format : List ℕ
port_format = address_format ++ b':' ∷ b'%' ∷ b'd' ∷ []

abbrev nth : List ℕ → ℕ → ℕ
nth [] i = 0
nth (n ∷ ns) zero = n
nth (n ∷ ns) (suc i) = nth ns i

-- The arguments behind the format; no double is among them.
abbrev pub address_args : (fl : Floats) → fl.Double → List ℕ → Args fl
address_args fl none_of_them ns = record {
  int_at = λ i. pos (nth ns i);
  uint_at = λ i. nth ns i;
  string_at = λ i. [];
  double_at = λ i. none_of_them;
  overrun = λ text. text;
}

-- CSocekt::ngx_sock_ntop: the text, and the length returned; `with_port` is whether `port` is not 0.
module _ (fl : Floats) (none_of_them : fl.Double) where
  unfoldable pub sock_ntop : SockAddr → Bool → ℕ → Bytes × ℕ
  unfolding vslprintf
  sock_ntop (inet p0 p1 p2 p3 sin_port) with_port len =
      let args = address_args fl none_of_them (p0 ∷ p1 ∷ p2 ∷ p3 ∷ ntohs sin_port ∷ []) in
      let text = vslprintf fl args len [] (if with_port then port_format else address_format) in
      (text, length text)
  sock_ntop other_family with_port len = ([], 0)
