-- ===== src/Socket/Sequence.antt =====
-- iCurrsequence, the number by which nginx/net/ngx_c_socket_conn.cxx makes the packets of an
-- earlier use of a connection object stale.
use cnginx.Common.{
  ℕ, suc, ◌+◌, ◌-◌, ◌%◌, ◌^◌, ◌≤◌, ◌<◌, ◌≡◌, ◌≢◌, ◌⊎◌, inl, inr, refl, arith, List, [], ◌∷◌,
}
use cnginx.Conn.{next_sequence, get_one_to_use, put_one_to_free}
use cnginx.Socket.{
  Socket, get_connection, get_from, free_connection, in_recy_connect_queue, recycle, allocate,
}

abbrev pub sequence_of : ℕ → Socket → ℕ
sequence_of p s = (s.conns p).cur_sequence

-- What the pool may do to its objects, `n` times.
pub data History (s : Socket) : Socket → ℕ → Type 0 where
  here : History s s 0
  takes :
      {t : Socket} {n : ℕ} (isock : ℕ)
      → History s t n
      → History s (get_connection t isock).0 (suc n)
  frees : {t : Socket} {n : ℕ} (p : ℕ) → History s t n → History s (free_connection p t) (suc n)
  retires :
      {t : Socket} {n : ℕ} (now p : ℕ)
      → History s t n
      → History s (in_recy_connect_queue now p t) (suc n)
  recycles :
      {t : Socket} {n : ℕ} (p : ℕ) (rest : List ℕ)
      → History s t n
      → History s (recycle p rest t) (suc n)

-- The number of an object that exists stays or goes up by one, and the object stays known.
abbrev Bumped : ℕ → Socket → Socket → Type 0
Bumped p s t =
    (t.next_address ≡ s.next_address ⊎ t.next_address ≡ suc s.next_address)
    × (sequence_of p t ≡ sequence_of p s ⊎ sequence_of p t ≡ next_sequence (sequence_of p s))

get_from-Bumped :
    (p : ℕ) (free : List ℕ) (s : Socket) (isock : ℕ)
    → p < s.next_address
    → Bumped p s (get_from free s isock).0
unfolding get_from allocate get_one_to_use
get_from-Bumped p (q ∷ rest) s isock h = (inl refl, ground arith)
get_from-Bumped p [] s isock h = (inr refl, inl (ground arith))

get_connection-Bumped :
    (p : ℕ) (s : Socket) (isock : ℕ) → p < s.next_address → Bumped p s (get_connection s isock).0
unfolding get_connection
get_connection-Bumped p s isock h = get_from-Bumped p s.freeconnection_list s isock h

free-Bumped : (p q : ℕ) (s : Socket) → Bumped p s (free_connection q s)
unfolding free_connection put_one_to_free
free-Bumped p q s = (inl refl, ground arith)

in_recy-Bumped : (p now q : ℕ) (s : Socket) → Bumped p s (in_recy_connect_queue now q s)
unfolding in_recy_connect_queue
in_recy-Bumped p now q s = (inl refl, ground arith)

recycle-Bumped : (p q : ℕ) (rest : List ℕ) (s : Socket) → Bumped p s (recycle q rest s)
unfolding recycle free_connection put_one_to_free
recycle-Bumped p q rest s = (inl refl, ground arith)

-- After `n` steps the number has gone up by at most `n`, modulo 2 ^ 64.
abbrev After : ℕ → Socket → Socket → ℕ → Type 0
After p s t n =
    (p < t.next_address) × ((k : ℕ) × (k ≤ n) × (sequence_of p t ≡ (sequence_of p s + k) % 2 ^ 64))

After-suc : (p : ℕ) (s t u : Socket) (n : ℕ) → After p s t n → Bumped p t u → After p s u (suc n)
After-suc p s t u n (l, (k, b, e)) (m, inl stays) = (omega arith, (k, omega arith, omega arith))
After-suc p s t u n (l, (k, b, e)) (m, inr goes) = (omega arith, (suc k, omega arith, omega arith))

History-After :
    (p : ℕ) {s t : Socket} {n : ℕ}
    → p < s.next_address
    → sequence_of p s < 2 ^ 64
    → History s t n
    → After p s t n
History-After p l b here = (l, (0, omega arith, omega arith))
History-After p {s = s} l b (takes {t = t} {n = n} isock r) =
    let a = History-After p l b r in
    After-suc p s t (get_connection t isock).0 n a (get_connection-Bumped p t isock a.0)
History-After p {s = s} l b (frees {t = t} {n = n} q r) =
    After-suc p s t (free_connection q t) n (History-After p l b r) (free-Bumped p q t)
History-After p {s = s} l b (retires {t = t} {n = n} now q r) =
    After-suc p s t (in_recy_connect_queue now q t) n (History-After p l b r)
      (in_recy-Bumped p now q t)
History-After p {s = s} l b (recycles {t = t} {n = n} q rest r) =
    After-suc p s t (recycle q rest t) n (History-After p l b r) (recycle-Bumped p q rest t)

in_recy-next :
    (now p : ℕ) (s : Socket)
    → (sequence_of p (in_recy_connect_queue now p s) ≡ next_sequence (sequence_of p s))
      × ((in_recy_connect_queue now p s).next_address ≡ s.next_address)
unfolding in_recy_connect_queue
in_recy-next now p s = ground arith

-- A sequence number that was read before a connection was put on the recycling list does not
-- come back while the pool makes fewer than 2 ^ 64 - 1 further steps, whatever they are: a packet
-- stamped with it stays stale although its object is used again.
pub retired_stays_stale :
    (p now : ℕ) (s t : Socket) (n : ℕ)
    → p < s.next_address
    → sequence_of p s < 2 ^ 64
    → History (in_recy_connect_queue now p s) t n
    → n < 2 ^ 64 - 1
    → sequence_of p t ≢ sequence_of p s
retired_stays_stale p now s t n l b r h e =
    let first = in_recy-next now p s in
    let (known, (k, few, at_last)) = History-After p (omega arith) (omega arith) r in omega arith
