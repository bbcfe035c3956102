-- ===== src/Ports/Opening.antt =====
-- When the ports are open (nginx/net/ngx_c_socket.cxx, lines 173 to 251).
use mathlib.Core.Bool.{false≢true}
use cnginx.Common.{
  ℕ, zero, suc, ◌+◌, ◌<◌, ◌≡◌, refl, sym, ap, ◌∙◌, subst, arith, true, Bool-cases, Option-cases,
  inl, inr, some, List, [], ◌∷◌, ◌++◌, append_assoc, append-nil, length, ltb→lt,
}
use cnginx.Common.Int.{ℤ, pos_part}
use cnginx.Common.Memory.{Bytes}
use cnginx.Conf.{ConfItem}
use cnginx.Ports.{
  Settings, ListeningSocket, PortAnswers, all_ok, Opened, port_of, ports_loop,
  open_listening_sockets, initialize, read_conf,
}

-- All calls for the port succeed, and its socket is `fd`.
abbrev pub Works : PortAnswers → ℕ → Type 0
Works a fd = (a.descriptor ≡ some fd) × (all_ok a ≡ true)

module _ (atoi : Bytes → ℤ) (print_d : ℕ → Bytes) (items : List ConfItem)
    (answers : ℕ → PortAnswers) where
  -- The list of the ports from `i` on, each as the configuration has it, on a socket that works.
  pub data AllOpen : ℕ → ℕ → List ListeningSocket → Type 0 where
    no_port : (i : ℕ) → AllOpen zero i []
    one_more :
        {n i fd : ℕ} {ls : List ListeningSocket}
        → Works (answers i) fd
        → AllOpen n (i + 1) ls
        → AllOpen (suc n) i (record { port = port_of atoi print_d items i; fd = fd } ∷ ls)

  loop-Works :
      (n i : ℕ) (before : List ListeningSocket) (fd : ℕ)
      → Works (answers i) fd
      → ports_loop atoi print_d items answers (suc n) i before
        ≡ ports_loop atoi print_d items answers n
            (i + 1)
            (before ++ record { port = port_of atoi print_d items i; fd = fd } ∷ [])
  unfolding ports_loop
  loop-Works n i before fd (given, works) = rw (ports_loop, given, works) refl

  ports_loop_lem :
      (n i : ℕ) (before : List ListeningSocket)
      → let r = ports_loop atoi print_d items answers n i before in
        r.succeeded ≡ true
        → (ls : List ListeningSocket) × (r.listen_socket_list ≡ before ++ ls)
          × AllOpen n i ls
          × (0 < length (before ++ ls))
  unfolding ports_loop
  ports_loop_lem zero i before e = (
    [],
    sym (append-nil before),
    no_port i,
    omega (arith, ltb→lt 0 (length before) e, ap length (append-nil before)),
  )
  ports_loop_lem (suc n) i before e = elim (Option-cases (answers i).descriptor) [
    | inl none_given ↦ absurd (false≢true (rw (ports_loop, none_given) at e))
    | inr (fd, given) ↦ elim (Bool-cases (all_ok (answers i))) [
      | inl works ↦
          let here : ListeningSocket = record { port = port_of atoi print_d items i; fd = fd } in
          let next = before ++ here ∷ [] in
          let same = loop-Works n i before fd (given, works) in
          let (ls, listed, rest, some_port) = ports_loop_lem n (i + 1) next (rw same at e) in
          (
            here ∷ ls,
            ap (λ (r : Opened). r.listen_socket_list) same
                ∙ listed
                ∙ append_assoc before (here ∷ []) ls,
            one_more (given, works) rest,
            omega (arith, some_port, ap length (append_assoc before (here ∷ []) ls)),
          )
      | inr fails ↦ absurd (false≢true (rw (ports_loop, given, fails) at e))
    ]
  ]

  -- CSocekt::Initialize succeeds only when there is a port to open and every call for every port
  -- succeeds. m_ListenSocketList then holds one socket for each of the m_ListenPortCount ports of
  -- the configuration, in their order, each with the port that ListenPort and its number name.
  pub initialize_lem :
      (s : Settings)
      → let (t, r) = initialize atoi print_d items answers s in
        r.succeeded ≡ true
        → AllOpen (pos_part t.listen_port_count) 0 r.listen_socket_list
          × (0 < length r.listen_socket_list)
  unfolding initialize open_listening_sockets
  initialize_lem s e =
      let t = read_conf atoi print_d items s in
      let (ls, listed, all_open, some_port) =
        ports_loop_lem (pos_part t.listen_port_count) 0 [] e in
      (
        subst (AllOpen (pos_part t.listen_port_count) 0) (sym listed) all_open,
        omega (arith, some_port, ap length listed),
      )
