-- ===== src/System/Evolving.antt =====
-- How one step changes the use that a connection object is in: iCurrsequence of
-- nginx/_include/ngx_c_socket.h, and whether the object is a client's.
use cnginx.Common.{
  ℕ, ◌+◌, ◌%◌, ◌^◌, ◌≤◌, ◌<◌, ◌≡◌, ◌≢◌, refl, sym, ap, ◌∙◌, arith, subst, List, Bool, ℕ_discrete,
}
use cnginx.Conn.{Conn, next_sequence, put_one_to_free, ngx_event_accept}
use cnginx.Socket.{
  Socket, set_conn, update, get_connection, free_connection, in_recy_connect_queue, recycle,
}
use cnginx.Socket.Sweep.{Found}
use cnginx.Socket.Uses.{
  InUse, get_connection-Taken, free_connection-InUse, in_recy-InUse, recycle-InUse,
}
use cnginx.Socket.Sequence.{sequence_of}
use cnginx.Socket.Untouched.{update_elim, get_connection-others}
use cnginx.Events.Wired.{IsClient}

-- The object is in use for a client.
pub record Client (p : ℕ) (s : Socket) : Type 0 where
  pub in_use : InUse p s
  pub wired : IsClient (s.conns p)

-- The number of the object at `p` goes up by at most `n`, and a client whose number stays is a
-- client still.
pub record Turns (n p : ℕ) (s t : Socket) : Type 0 where
  pub ups : ℕ
  pub few : ups ≤ n
  pub number : sequence_of p t ≡ (sequence_of p s + ups) % 2 ^ 64
  pub stays : ups ≡ 0 → Client p s → Client p t

abbrev pub IsWord : Socket → Type 0
IsWord s = (p : ℕ) → sequence_of p s < 2 ^ 64

-- The object has the handler of a listening socket.
abbrev pub IsAccepting : ℕ → Socket → Type 0
IsAccepting p s = (s.conns p).rhandler ≡ ngx_event_accept

-- No object becomes a listening one.
pub record Evolves (n : ℕ) (s t : Socket) : Type 0 where
  pub grows : s.next_address ≤ t.next_address
  pub word : IsWord t
  pub turns : (p : ℕ) → p < s.next_address → Turns n p s t
  pub accepting : (p : ℕ) → p < s.next_address → IsAccepting p t → IsAccepting p s

pub Turns-trans : {m n p : ℕ} {s t u : Socket} → Turns m p s t → Turns n p t u → Turns (m + n) p s u
Turns-trans v w = record {
  ups = v.ups + w.ups;
  few = omega (arith, v.few, w.few);
  number = omega (arith, v.number, w.number);
  stays = λ e c. w.stays (omega arith) (v.stays (omega arith) c);
}

pub Evolves-trans : {m n : ℕ} {s t u : Socket} → Evolves m s t → Evolves n t u → Evolves (m + n) s u
Evolves-trans v w = record {
  grows = omega (arith, v.grows, w.grows);
  word = w.word;
  turns = λ p l. Turns-trans (v.turns p l) (w.turns p (omega (arith, v.grows)));
  accepting = λ p l a. v.accepting p l (w.accepting p (omega (arith, v.grows)) a);
}

pub Evolves-mono : {m n : ℕ} {s t : Socket} → m ≤ n → Evolves m s t → Evolves n s t
Evolves-mono h v = record {
  grows = v.grows;
  word = v.word;
  turns = λ p l.
      let w = v.turns p l in
      record { ups = w.ups; few = omega (arith, w.few); number = w.number; stays = w.stays };
  accepting = v.accepting;
}

-- The object's number stays.
pub stays-Turns :
    (n p : ℕ) (s t : Socket)
    → sequence_of p s < 2 ^ 64
    → sequence_of p t ≡ sequence_of p s
    → (Client p s → Client p t)
    → Turns n p s t
stays-Turns n p s t b e k = record {
  ups = 0;
  few = omega arith;
  number = omega arith;
  stays = λ z. k;
}

-- The object's number goes up by one.
goes-Turns :
    (p : ℕ) (s t : Socket) → sequence_of p t ≡ next_sequence (sequence_of p s) → Turns 1 p s t
goes-Turns p s t e = record {
  ups = 1;
  few = omega arith;
  number = omega arith;
  stays = λ z. absurd (omega arith);
}

pub conns-InUse :
    (s : Socket) (conns' : ℕ → Conn) (q : ℕ) → InUse q s → InUse q (record s { conns = conns' })
conns-InUse s conns' q i = record {
  known = i.known;
  not_free = i.not_free;
  not_recycling = i.not_recycling;
}

-- An operation on the object at `p` that gives it the next number.
bumps-Turns :
    (p q : ℕ) (s t : Socket)
    → IsWord s
    → (q ≡ p → sequence_of q t ≡ next_sequence (sequence_of q s))
    → (q ≢ p → t.conns q ≡ s.conns q)
    → (q ≢ p → InUse q s → InUse q t)
    → Turns 1 q s t
bumps-Turns p q s t word next same keeps = elim (ℕ_discrete q p) [
  | yes e ↦ goes-Turns q s t (next e)
  | no n ↦
      stays-Turns 1 q s t (word q) (ap (λ (c : Conn). c.cur_sequence) (same n))
        (λ c. record { in_use = keeps n c.in_use; wired = subst IsClient (sym (same n)) c.wired })
]

module _ (s : Socket) (word : IsWord s) where
  -- An object is replaced by one with the same number and handlers.
  pub set_conn-Evolves :
      (p : ℕ) (c : Conn)
      → c.cur_sequence ≡ sequence_of p s
      → (IsClient (s.conns p) → IsClient c)
      → (c.rhandler ≡ ngx_event_accept → IsAccepting p s)
      → Evolves 0 s (set_conn p c s)
  set_conn-Evolves p c e k a = record {
    grows = omega arith;
    word = λ q.
        update_elim (λ d. d.cur_sequence < 2 ^ 64) s.conns p c q (λ i. omega (arith, word p))
          (λ n. word q);
    turns = λ q l.
        stays-Turns 0 q s (set_conn p c s) (word q)
          (update_elim (λ d. d.cur_sequence ≡ sequence_of q s) s.conns p c q
            (λ i. subst (λ j. c.cur_sequence ≡ sequence_of j s) (sym i) e) (λ n. refl))
          (λ v. record {
            in_use = conns-InUse s (update s.conns p c) q v.in_use;
            wired =
                update_elim IsClient s.conns p c q
                  (λ i. k (subst (λ j. IsClient (s.conns j)) i v.wired)) (λ n. v.wired);
          });
    accepting = λ q l.
        update_elim (λ d. d.rhandler ≡ ngx_event_accept → IsAccepting q s) s.conns p c q
          (λ i r. subst (λ j. IsAccepting j s) (sym i) (a r)) (λ n r. r);
  }

  pub get_connection-Evolves : (isock : ℕ) → Evolves 1 s (get_connection s isock).0
  get_connection-Evolves isock =
      let (t, new) = get_connection s isock in
      let g = get_connection-Taken s isock in
      record {
        grows = g.grows;
        word = λ q. elim (ℕ_discrete q new) [
          | yes e ↦ subst (λ i. sequence_of i t < 2 ^ 64) (sym e) g.word
          | no n ↦
              subst (λ (d : Conn). d.cur_sequence < 2 ^ 64)
                (sym (get_connection-others s isock q n)) (word q)
        ];
        turns = λ q l.
            bumps-Turns new q s t word
              (λ e.
                subst (λ i. sequence_of i t ≡ next_sequence (sequence_of i s)) (sym e)
                  (g.number (subst (λ i. i < s.next_address) e l)))
              (get_connection-others s isock q) (λ n. g.keeps q);
        accepting = λ q l. elim (ℕ_discrete q new) [
          | yes e ↦
              subst (λ i. IsAccepting i t → IsAccepting i s) (sym e)
                (λ r. sym (g.same_rhandler (subst (λ i. i < s.next_address) e l)) ∙ r)
          | no n ↦
              subst (λ (d : Conn). d.rhandler ≡ ngx_event_accept → IsAccepting q s)
                (sym (get_connection-others s isock q n)) (λ r. r)
        ];
      }

  pub free_connection-Evolves : (p : ℕ) → Evolves 1 s (free_connection p s)
  unfolding free_connection put_one_to_free
  free_connection-Evolves p = record {
    grows = omega arith;
    word = λ q.
        update_elim (λ d. d.cur_sequence < 2 ^ 64) s.conns p _ q (λ i. omega arith) (λ n. word q);
    turns = λ q l.
        bumps-Turns p q s _ word (λ i. ground arith) (λ n. ground arith)
          (λ n. free_connection-InUse p q s n);
    accepting = λ q l.
        update_elim (λ d. d.rhandler ≡ ngx_event_accept → IsAccepting q s) s.conns p _ q
          (λ i r. subst (λ j. IsAccepting j s) (sym i) r) (λ n r. r);
  }

  pub in_recy-Evolves : (now p : ℕ) → Evolves 1 s (in_recy_connect_queue now p s)
  unfolding in_recy_connect_queue
  in_recy-Evolves now p = record {
    grows = omega arith;
    word = λ q.
        update_elim (λ d. d.cur_sequence < 2 ^ 64) s.conns p _ q (λ i. omega arith) (λ n. word q);
    turns = λ q l.
        bumps-Turns p q s _ word (λ i. ground arith) (λ n. ground arith)
          (λ n. in_recy-InUse now p q s n);
    accepting = λ q l.
        update_elim (λ d. d.rhandler ≡ ngx_event_accept → IsAccepting q s) s.conns p _ q
          (λ i r. subst (λ j. IsAccepting j s) (sym i) r) (λ n r. r);
  }

  pub recycle-Evolves :
      {test : ℕ → Bool} (p : ℕ) (rest : List ℕ)
      → Found test s.recyconnection_list p rest
      → Evolves 1 s (recycle p rest s)
  unfolding recycle free_connection put_one_to_free
  recycle-Evolves p rest f = record {
    grows = omega arith;
    word = λ q.
        update_elim (λ d. d.cur_sequence < 2 ^ 64) s.conns p _ q (λ i. omega arith) (λ n. word q);
    turns = λ q l.
        bumps-Turns p q s _ word (λ i. ground arith) (λ n. ground arith)
          (λ n. recycle-InUse p q rest s f n);
    accepting = λ q l.
        update_elim (λ d. d.rhandler ≡ ngx_event_accept → IsAccepting q s) s.conns p _ q
          (λ i r. subst (λ j. IsAccepting j s) (sym i) r) (λ n r. r);
  }
