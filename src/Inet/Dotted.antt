-- ===== src/Inet/Dotted.antt =====
-- What ngx_sock_ntop of nginx/net/ngx_c_socket_inet.cxx writes.
use cnginx.Common.{
  ℕ, ◌≡◌, refl, ap, ◌∙◌, ◌-◌, arith, Bool, true, false, [], ◌∷◌, ◌++◌, length, take, take_all,
  append-nil,
}
use cnginx.Common.Memory.{Bytes}
use cnginx.Format.{Floats, Args, number_digits, plain}
use cnginx.Format.Number.{number}
use cnginx.Format.Segments.{
  parse, render, meaning, conversion_text, signed, sign_of, ends_in, IsComplete,
}
use cnginx.Format.Truncate.{vslprintf_lem}
use cnginx.Packet.{ntohs}
use cnginx.Inet.{SockAddr, inet, other_family, address_format, port_format, address_args, sock_ntop}

-- A number in decimal.
abbrev pub decimal_text : ℕ → Bytes
decimal_text n = number_digits n 0

-- Four numbers with points between them, and what stands behind.
abbrev pub dotted : ℕ → ℕ → ℕ → ℕ → Bytes → Bytes
dotted p0 p1 p2 p3 behind =
    decimal_text p0
    ++ (b'.'
        ∷ (decimal_text p1 ++ (b'.' ∷ (decimal_text p2 ++ (b'.' ∷ (decimal_text p3 ++ behind))))))

-- The port stands behind a colon where it is asked for.
abbrev pub address_text : SockAddr → Bool → Bytes
address_text (inet p0 p1 p2 p3 sin_port) true =
    dotted p0 p1 p2 p3 (b':' ∷ decimal_text (ntohs sin_port))
address_text (inet p0 p1 p2 p3 sin_port) false = dotted p0 p1 p2 p3 []
address_text other_family with_port = []

unpadded : (n : ℕ) → number n 32 0 0 ≡ decimal_text n
unpadded n =
    let none_missing : 0 - length (decimal_text n) ≡ 0 = omega arith in rw none_missing refl

module _ (fl : Floats) (none_of_them : fl.Double) (p0 p1 p2 p3 port : ℕ) where
  abbrev args : Args fl
  args = address_args fl none_of_them (p0 ∷ p1 ∷ p2 ∷ p3 ∷ port ∷ [])

  address-render : render fl args 0 (parse plain address_format) ≡ dotted p0 p1 p2 p3 []
  unfolding render parse conversion_text meaning
  address-render = rw (unpadded p0, unpadded p1, unpadded p2, unpadded p3) refl

  port-render :
      render fl args 0 (parse plain port_format) ≡ dotted p0 p1 p2 p3 (b':' ∷ decimal_text port)
  unfolding render parse conversion_text meaning signed sign_of
  port-render =
      rw
        (
          unpadded p0,
          unpadded p1,
          unpadded p2,
          unpadded p3,
          unpadded port,
          append-nil (decimal_text port),
        )
        refl

address_format-IsComplete : IsComplete address_format
unfolding ends_in
address_format-IsComplete = refl

port_format-IsComplete : IsComplete port_format
unfolding ends_in
port_format-IsComplete = refl

-- For any address, ngx_sock_ntop writes the four bytes in decimal with points between them, and the
-- port behind a colon where it is asked for, as far as the buffer goes, and returns the length of
-- that; for another family it writes nothing and returns 0.
pub sock_ntop_lem :
    (fl : Floats) (none_of_them : fl.Double) (sa : SockAddr) (with_port : Bool) (len : ℕ)
    → let text = take len (address_text sa with_port) in
      sock_ntop fl none_of_them sa with_port len ≡ (text, length text)
unfolding sock_ntop
sock_ntop_lem fl d (inet p0 p1 p2 p3 sin_port) true len =
    ap (λ (t : Bytes). (t, length t))
      (vslprintf_lem fl (args fl d p0 p1 p2 p3 (ntohs sin_port)) len [] port_format (omega arith)
          port_format-IsComplete
        ∙ ap (take len) (port-render fl d p0 p1 p2 p3 (ntohs sin_port)))
sock_ntop_lem fl d (inet p0 p1 p2 p3 sin_port) false len =
    ap (λ (t : Bytes). (t, length t))
      (vslprintf_lem fl (args fl d p0 p1 p2 p3 (ntohs sin_port)) len [] address_format (omega arith)
          address_format-IsComplete
        ∙ ap (take len) (address-render fl d p0 p1 p2 p3 (ntohs sin_port)))
sock_ntop_lem fl d other_family with_port len =
    let nothing : take {A = ℕ} len [] ≡ [] = take_all len [] (omega arith) in rw nothing refl
