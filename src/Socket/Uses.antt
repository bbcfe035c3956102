-- ===== src/Socket/Uses.antt =====
-- Which objects of the pool of nginx/net/ngx_c_socket_conn.cxx are in use, and how the pool's
-- operations change that.
use mathlib.Core.List.{
  Mem, Mem-prop, mem-append_left, mem-append, mem-cons_of_mem, mem-cons, not-mem-nil, mem-cons_self,
  mem-append_right, mem_of_ne_of_mem,
}
use mathlib.Core.HLevel.{⊥_prop}
use mathlib.Core.Logic.Or
use mathlib.Core.List.Perm
use cnginx.Common.{
  ℕ, ◌^◌, ◌≤◌, ◌<◌, ◌≡◌, ◌≢◌, ◌⊎◌, inl, inr, refl, sym, arith, subst, List, [], ◌∷◌, ◌++◌, Bool,
}
use cnginx.Conn.{Conn, next_sequence, get_one_to_use}
use cnginx.Socket.{
  Socket, new_conn, get_connection, get_from, allocate, free_connection, in_recy_connect_queue,
  recycle, unlist,
}
use cnginx.Socket.Sequence.{sequence_of}
use cnginx.Socket.Sweep.{Found}
use cnginx.Socket.Ownership.{Owned}

-- The object is neither free nor waiting to be recycled: its descriptor is open.
pub record InUse (p : ℕ) (s : Socket) : Type 0 where
  pub known : Mem p s.connection_list
  pub not_free : ¬ Mem p s.freeconnection_list
  pub not_recycling : ¬ Mem p s.recyconnection_list

pub InUse-Mem : (p : ℕ) (s : Socket) (used : List ℕ) → Owned s used → InUse p s → Mem p used
InUse-Mem p s used v i =
    Or.elim Mem-prop (mem-append.0 (Perm.subset (Perm.symm v.shared) p i.known))
      (λ m. absurd (i.not_free m))
      (λ m. Or.elim Mem-prop (mem-append.0 m) (λ k. absurd (i.not_recycling k)) (λ k. k))

not-mem-concat : (p q : ℕ) (ps : List ℕ) → ¬ Mem q ps → q ≢ p → ¬ Mem q (ps ++ p ∷ [])
not-mem-concat p q ps h n m =
    Or.elim ⊥_prop (mem-append.0 m) h (λ k. Or.elim ⊥_prop (mem-cons.0 k) n (λ l. not-mem-nil l))

-- What ngx_get_connection does to the objects.
pub record Taken (isock : ℕ) (s t : Socket) (new : ℕ) : Type 0 where
  pub origin : Conn
  pub old_or_new : (origin ≡ new_conn) ⊎ ((origin ≡ s.conns new) × Mem new s.freeconnection_list)
  pub made : t.conns new ≡ record (get_one_to_use origin) { fd = isock }
  pub same_queue : t.msg_send_queue ≡ s.msg_send_queue
  pub grows : s.next_address ≤ t.next_address
  pub keeps : (q : ℕ) → InUse q s → InUse q t
  pub word : sequence_of new t < 2 ^ 64
  pub number : new < s.next_address → sequence_of new t ≡ next_sequence (sequence_of new s)
  pub same_rhandler : new < s.next_address → (t.conns new).rhandler ≡ (s.conns new).rhandler

get_from-Taken :
    (free : List ℕ) (s : Socket) (isock : ℕ)
    → s.freeconnection_list ≡ free
    → let (t, new) = get_from free s isock in Taken isock s t new
unfolding get_from allocate get_one_to_use
get_from-Taken [] s isock e = record {
  origin = new_conn;
  old_or_new = inl refl;
  made = ground arith;
  same_queue = refl;
  grows = omega arith;
  keeps = λ q i. record {
    known = mem-append_left _ i.known;
    not_free = i.not_free;
    not_recycling = i.not_recycling;
  };
  word = ground arith;
  number = λ l. absurd (omega arith);
  same_rhandler = λ l. absurd (omega arith);
}
get_from-Taken (p ∷ rest) s isock e = record {
  origin = s.conns p;
  old_or_new = inr (refl, subst (Mem p) (sym e) mem-cons_self);
  made = ground arith;
  same_queue = refl;
  grows = omega arith;
  keeps = λ q i. record {
    known = i.known;
    not_free = λ m. i.not_free (subst (Mem q) (sym e) (mem-cons_of_mem p m));
    not_recycling = i.not_recycling;
  };
  word = ground arith;
  number = λ l. ground arith;
  same_rhandler = λ l. ground arith;
}

pub get_connection-Taken :
    (s : Socket) (isock : ℕ) → let (t, new) = get_connection s isock in Taken isock s t new
unfolding get_connection
get_connection-Taken s isock = get_from-Taken s.freeconnection_list s isock refl

pub free_connection-InUse :
    (p q : ℕ) (s : Socket) → q ≢ p → InUse q s → InUse q (free_connection p s)
unfolding free_connection
free_connection-InUse p q s n i = record {
  known = i.known;
  not_free = not-mem-concat p q s.freeconnection_list i.not_free n;
  not_recycling = i.not_recycling;
}

pub in_recy-InUse :
    (now p q : ℕ) (s : Socket) → q ≢ p → InUse q s → InUse q (in_recy_connect_queue now p s)
unfolding in_recy_connect_queue
in_recy-InUse now p q s n i = record {
  known = i.known;
  not_free = i.not_free;
  not_recycling = not-mem-concat p q s.recyconnection_list i.not_recycling n;
}

pub recycle-InUse :
    {test : ℕ → Bool} (p q : ℕ) (rest : List ℕ) (s : Socket)
    → Found test s.recyconnection_list p rest
    → q ≢ p
    → InUse q s
    → InUse q (recycle p rest s)
unfolding recycle
recycle-InUse p q rest s f n i = free_connection-InUse p q (unlist rest s) n (record {
  known = i.known;
  not_free = i.not_free;
  not_recycling = λ m.
      i.not_recycling
        (subst (Mem q) (sym f.splits) (shorter f.before f.after (subst (Mem q) f.leaves m)));
})
  where
    shorter : (xs ys : List ℕ) → Mem q (xs ++ ys) → Mem q (xs ++ p ∷ ys)
    shorter xs ys m =
        Or.elim (Mem-prop {a = q} {l = xs ++ p ∷ ys}) ((mem-append {a = q} {s = xs} {t = ys}).0 m)
          (mem-append_left (p ∷ ys)) (λ k. mem-append_right xs (mem-cons_of_mem p k))

-- What is in use after an operation was in use before, but for the object that is asked for.
module _ (q : ℕ) (s : Socket) where
  pub in_recy-back : (now p : ℕ) → InUse q (in_recy_connect_queue now p s) → InUse q s × (q ≢ p)
  unfolding in_recy_connect_queue
  in_recy-back now p i = (
    record {
      known = i.known;
      not_free = i.not_free;
      not_recycling = λ m. i.not_recycling (mem-append_left (p ∷ []) m);
    },
    λ e.
        i.not_recycling
          (mem-append_right s.recyconnection_list (subst (λ r. Mem q (r ∷ [])) e mem-cons_self)),
  )

  pub free-back : (p : ℕ) → InUse q (free_connection p s) → InUse q s × (q ≢ p)
  unfolding free_connection
  free-back p i = (
    record {
      known = i.known;
      not_free = λ m. i.not_free (mem-append_left (p ∷ []) m);
      not_recycling = i.not_recycling;
    },
    λ e.
        i.not_free
          (mem-append_right s.freeconnection_list (subst (λ r. Mem q (r ∷ [])) e mem-cons_self)),
  )

pub recycle-back :
    {test : ℕ → Bool} (q : ℕ) (s : Socket) (p : ℕ) (rest : List ℕ)
    → Found test s.recyconnection_list p rest
    → InUse q (recycle p rest s)
    → InUse q s × (q ≢ p)
unfolding recycle
recycle-back q s p rest f i =
    let (u, n) = free-back q (unlist rest s) p i in
    (
      record {
        known = u.known;
        not_free = u.not_free;
        not_recycling = λ m.
            u.not_recycling (
              subst (Mem q) (sym f.leaves) (without n f.before f.after (subst (Mem q) f.splits m)));
      },
      n,
    )
  where
    without : q ≢ p → (xs ys : List ℕ) → Mem q (xs ++ p ∷ ys) → Mem q (xs ++ ys)
    without n xs ys m =
        Or.elim (Mem-prop {a = q} {l = xs ++ ys}) ((mem-append {a = q} {s = xs} {t = p ∷ ys}).0 m)
          (mem-append_left ys) (λ k. mem-append_right xs (mem_of_ne_of_mem n k))

get_from-back :
    (free : List ℕ) (q : ℕ) (s : Socket) (isock : ℕ)
    → s.freeconnection_list ≡ free
    → q ≢ (get_from free s isock).1
    → InUse q (get_from free s isock).0
    → InUse q s
unfolding get_from allocate
get_from-back [] q s isock e n i = record {
  known =
      Or.elim Mem-prop (mem-append.0 i.known) (λ m. m)
        (λ k. absurd (not-mem-nil (mem_of_ne_of_mem n k)));
  not_free = i.not_free;
  not_recycling = i.not_recycling;
}
get_from-back (p ∷ rest) q s isock e n i = record {
  known = i.known;
  not_free = λ m. i.not_free (mem_of_ne_of_mem n (subst (Mem q) e m));
  not_recycling = i.not_recycling;
}

pub get_connection-back :
    (q : ℕ) (s : Socket) (isock : ℕ)
    → q ≢ (get_connection s isock).1
    → InUse q (get_connection s isock).0
    → InUse q s
unfolding get_connection
get_connection-back q s isock n i = get_from-back s.freeconnection_list q s isock refl n i
