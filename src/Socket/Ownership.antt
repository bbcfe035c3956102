-- ===== src/Socket/Ownership.antt =====
-- The pool of nginx/net/ngx_c_socket_conn.cxx: no connection object is lost, and none is at once
-- free, waiting to be recycled, and in use.
use mathlib.Core.List.{
  Mem, Perm, Nodup, perm_middle, perm_append_singleton, Nodup-cons, mem-cons, not-mem-nil,
  Nodup-nil,
}
use mathlib.Core.List.Perm
use mathlib.Core.Logic.Or
use native.Mathlib.Bridge.{le_prop}
use cnginx.Common.{
  ℕ, zero, suc, ◌<◌, Bool, List, [], ◌∷◌, ◌++◌, ◌≡◌, refl, sym, ap, ◌∙◌, arith, length,
  length-append, append_assoc, append-nil,
}
use cnginx.Socket.{
  Socket, initconnection, init_loop, fill_one, allocate, get_connection, get_from, free_connection,
  in_recy_connect_queue, recycle, recy_pass, unlist,
}
use cnginx.Socket.Sweep.{Found, Found-select, recy_pass_cases}

-- `used` lists the objects that a listening socket or a client holds.
pub record Owned (s : Socket) (used : List ℕ) : Type 0 where
  pub shared : Perm (s.freeconnection_list ++ (s.recyconnection_list ++ used)) s.connection_list
  pub distinct : Nodup s.connection_list
  pub fresh : (p : ℕ) → Mem p s.connection_list → p < s.next_address
  pub total : s.total_connection_n ≡ length s.connection_list
  pub free : s.free_connection_n ≡ length s.freeconnection_list
  pub recycling : s.totol_recyconnection_n ≡ length s.recyconnection_list

-- One entry moved to the front from the third of three lists.
pub front_third : (p : ℕ) (xs ys zs : List ℕ) → Perm (xs ++ (ys ++ p ∷ zs)) (p ∷ (xs ++ (ys ++ zs)))
front_third p xs ys zs =
    Perm.trans (Perm.append_left xs (perm_middle ys zs)) (perm_middle xs (ys ++ zs))

front_second :
    (p : ℕ) (xs ys zs : List ℕ) → Perm (xs ++ ((ys ++ p ∷ []) ++ zs)) (p ∷ (xs ++ (ys ++ zs)))
front_second p xs ys zs = rw append_assoc (front_third p xs ys zs)

front_first : (p : ℕ) (xs ys : List ℕ) → Perm ((xs ++ p ∷ []) ++ ys) (p ∷ (xs ++ ys))
front_first p xs ys = rw append_assoc (perm_middle xs ys)

-- The objects have distinct addresses, all of them below the next one.
record Listed (ps : List ℕ) (next : ℕ) : Type 0 where
  distinct : Nodup ps
  fresh : (p : ℕ) → Mem p ps → p < next

Listed-concat : (ps : List ℕ) (n : ℕ) → Listed ps n → Listed (ps ++ n ∷ []) (suc n)
Listed-concat ps n v = record {
  distinct =
      Perm.nodup (Perm.symm last_first)
        (Nodup-cons.1 ((λ m. absurd (omega (arith, v.fresh n m))), v.distinct));
  fresh = λ p m.
      Or.elim le_prop (mem-cons.0 (Perm.subset last_first p m)) (λ e. omega arith)
        (λ k. omega (arith, v.fresh p k));
}
  where
    last_first : Perm (ps ++ n ∷ []) (n ∷ ps)
    last_first = perm_append_singleton n ps

module _ (s : Socket) (used : List ℕ) where
  pub Owned-perm : {used' : List ℕ} → Perm used used' → Owned s used → Owned s used'
  Owned-perm e v = record {
    shared = Perm.trans (Perm.append_left _ (Perm.append_left _ (Perm.symm e))) v.shared;
    distinct = v.distinct;
    fresh = v.fresh;
    total = v.total;
    free = v.free;
    recycling = v.recycling;
  }

  listed : Owned s used → Listed (s.connection_list ++ s.next_address ∷ []) (suc s.next_address)
  listed v = Listed-concat _ _ (record { distinct = v.distinct; fresh = v.fresh })

  get_from-Owned :
      (free : List ℕ) (isock : ℕ)
      → s.freeconnection_list ≡ free
      → Owned s used
      → let (t, p) = get_from free s isock in Owned t (p ∷ used)
  unfolding get_from allocate
  get_from-Owned (p ∷ rest) isock e v = record {
    shared = Perm.trans (front_third p rest s.recyconnection_list used) (rw e at v.shared);
    distinct = v.distinct;
    fresh = v.fresh;
    total = v.total;
    free = omega (arith, v.free ∙ ap length e);
    recycling = v.recycling;
  }
  get_from-Owned [] isock e v = record {
    shared = rw e (
        Perm.trans (front_third s.next_address [] s.recyconnection_list used) (
          Perm.trans (Perm.cons s.next_address (rw e at v.shared))
            (Perm.symm (perm_append_singleton s.next_address s.connection_list))));
    distinct = (listed v).distinct;
    fresh = (listed v).fresh;
    total = omega (arith, v.total, length-append s.connection_list (s.next_address ∷ []));
    free = v.free;
    recycling = v.recycling;
  }

  pub get_connection-Owned :
      (isock : ℕ) → Owned s used → let (t, p) = get_connection s isock in Owned t (p ∷ used)
  unfolding get_connection
  get_connection-Owned isock v = get_from-Owned s.freeconnection_list isock refl v

  pub free_connection-Owned : (p : ℕ) → Owned s (p ∷ used) → Owned (free_connection p s) used
  unfolding free_connection
  free_connection-Owned p v = record {
    shared = Perm.trans (front_first p s.freeconnection_list (s.recyconnection_list ++ used)) (
        Perm.trans (Perm.symm (front_third p s.freeconnection_list s.recyconnection_list used))
          v.shared);
    distinct = v.distinct;
    fresh = v.fresh;
    total = v.total;
    free = omega (arith, v.free, length-append s.freeconnection_list (p ∷ []));
    recycling = v.recycling;
  }

  pub in_recy-Owned : (now p : ℕ) → Owned s (p ∷ used) → Owned (in_recy_connect_queue now p s) used
  unfolding in_recy_connect_queue
  in_recy-Owned now p v = record {
    shared = Perm.trans (front_second p s.freeconnection_list s.recyconnection_list used) (
        Perm.trans (Perm.symm (front_third p s.freeconnection_list s.recyconnection_list used))
          v.shared);
    distinct = v.distinct;
    fresh = v.fresh;
    total = v.total;
    free = v.free;
    recycling = omega (arith, v.recycling, length-append s.recyconnection_list (p ∷ []));
  }

-- One entry goes from the recycling list to the free list.
pub recycle-Owned :
    (s : Socket) (used : List ℕ) {test : ℕ → Bool} (p : ℕ) (rest : List ℕ)
    → Found test s.recyconnection_list p rest
    → Owned s used
    → Owned (recycle p rest s) used
unfolding recycle
recycle-Owned s used p rest f v = free_connection-Owned (unlist rest s) used p (record {
  shared =
      rw (f.leaves, append_assoc)
        (Perm.trans (Perm.append_left s.freeconnection_list (moved f.before f.after))
          (rw (f.splits, append_assoc) at v.shared));
  distinct = v.distinct;
  fresh = v.fresh;
  total = v.total;
  free = v.free;
  recycling = omega (arith, v.recycling, (Found-select _ f).2);
})
  where
    moved : (xs ys : List ℕ) → Perm (xs ++ (ys ++ p ∷ used)) (xs ++ (p ∷ ys ++ used))
    moved xs ys = Perm.append_left xs (perm_middle ys used)

pub recy_pass-Owned :
    (fuel currtime : ℕ) (stop : Bool) (s : Socket) (used : List ℕ)
    → Owned s used
    → Owned (recy_pass fuel currtime stop s) used
recy_pass-Owned zero currtime stop s used v = unfold recy_pass in v
recy_pass-Owned (suc fuel) currtime stop s used v =
    recy_pass_cases (λ t. Owned t used) fuel currtime stop s (λ e. v)
      (λ p rest f.
        recy_pass-Owned fuel currtime stop (recycle p rest s) used
          (recycle-Owned s used p rest f v))

-- A step of the pool, with the objects in use before and after it. Any entry of `used` may be
-- given back, at any time, so the order of `used` does not matter.
pub data Step : Socket → List ℕ → Socket → List ℕ → Type 0 where
  takes :
      (s : Socket) (used : List ℕ) (isock : ℕ)
      → Step s used (get_connection s isock).0 ((get_connection s isock).1 ∷ used)
  frees :
      (s : Socket) (used rest : List ℕ) (p : ℕ)
      → Perm used (p ∷ rest)
      → Step s used (free_connection p s) rest
  retires :
      (s : Socket) (used rest : List ℕ) (now p : ℕ)
      → Perm used (p ∷ rest)
      → Step s used (in_recy_connect_queue now p s) rest
  recycles :
      (s : Socket) (used : List ℕ) (fuel now : ℕ) (stop : Bool)
      → Step s used (recy_pass fuel now stop s) used

pub data Reach (s : Socket) (used : List ℕ) : Socket → List ℕ → Type 0 where
  here : Reach s used s used
  next : {t u : Socket} {xs ys : List ℕ} → Reach s used t xs → Step t xs u ys → Reach s used u ys

Step-Owned : {s t : Socket} {xs ys : List ℕ} → Step s xs t ys → Owned s xs → Owned t ys
Step-Owned (takes s used isock) v = get_connection-Owned s used isock v
Step-Owned (frees s used rest p e) v = free_connection-Owned s rest p (Owned-perm s used e v)
Step-Owned (retires s used rest now p e) v = in_recy-Owned s rest now p (Owned-perm s used e v)
Step-Owned (recycles s used fuel now stop) v = recy_pass-Owned fuel now stop s used v

Reach-Owned :
    {s : Socket} {xs : List ℕ} {t : Socket} {ys : List ℕ}
    → Owned s xs
    → Reach s xs t ys
    → Owned t ys
Reach-Owned v here = v
Reach-Owned v (next r st) = Step-Owned st (Reach-Owned v r)

-- The pool before initconnection.
pub record IsEmpty (s : Socket) : Type 0 where
  pub no_conns : s.connection_list ≡ []
  pub no_free : s.freeconnection_list ≡ []
  pub no_recycling : s.recyconnection_list ≡ []
  pub count : s.totol_recyconnection_n ≡ 0

-- What the loop of initconnection keeps.
record Filling (s : Socket) : Type 0 where
  same : s.freeconnection_list ≡ s.connection_list
  listed : Listed s.connection_list s.next_address
  no_recycling : s.recyconnection_list ≡ []
  count : s.totol_recyconnection_n ≡ 0

init_loop-Filling : (rounds : ℕ) (s : Socket) → Filling s → Filling (init_loop rounds s)
unfolding init_loop
init_loop-Filling zero s v = v
init_loop-Filling (suc rounds) s v = init_loop-Filling rounds (fill_one s) (record {
  same = ap (λ (l : List ℕ). l ++ s.next_address ∷ []) v.same;
  listed = Listed-concat _ _ v.listed;
  no_recycling = v.no_recycling;
  count = v.count;
})

pub initconnection-Owned : (s : Socket) → IsEmpty s → Owned (initconnection s) []
unfolding initconnection
initconnection-Owned s e = record {
  shared = rw (v.no_recycling, append-nil, v.same) (Perm.refl _);
  distinct = v.listed.distinct;
  fresh = v.listed.fresh;
  total = refl;
  free = ap length (sym v.same);
  recycling = v.count ∙ ap length (sym v.no_recycling);
}
  where
    v : Filling (init_loop s.worker_connections s)
    v = init_loop-Filling s.worker_connections s (record {
      same = e.no_free ∙ sym e.no_conns;
      listed = record {
        distinct = rw e.no_conns Nodup-nil;
        fresh = λ p m. absurd (not-mem-nil (rw e.no_conns at m));
      };
      no_recycling = e.no_recycling;
      count = e.count;
    })

-- After initconnection on an empty pool and any history of steps, every connection object is in
-- exactly one place: the free list, the recycling list, or use; and the three counters agree with
-- the lists.
pub pool_history :
    {s t : Socket} {used : List ℕ}
    → IsEmpty s
    → Reach (initconnection s) [] t used
    → Owned t used × Nodup (t.freeconnection_list ++ (t.recyconnection_list ++ used))
pool_history e r =
    let v = Reach-Owned (initconnection-Owned _ e) r in
    (v, Perm.nodup (Perm.symm v.shared) v.distinct)
