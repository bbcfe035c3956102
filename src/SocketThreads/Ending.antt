-- ===== src/SocketThreads/Ending.antt =====
-- The end of ServerRecyConnectionThread (nginx/net/ngx_c_socket_conn.cxx, lines 171 to 248).
use mathlib.Core.Bool.{false≢true}
use cnginx.Common.{
  ℕ, ◌≡◌, refl, ◌∙◌, arith, Bool, true, false, ◌||◌, Bool-cases, inl, inr, ltb, List, [], ◌∷◌,
  length,
}
use cnginx.Socket.{Socket, is_due, recy_connections}
use cnginx.Socket.Ownership.{Owned, recy_pass-Owned}
use cnginx.Socket.Sweep.{select, fails, recy_pass-select}
use cnginx.SocketThreads.{Round, free_all, recy_thread}

-- The thread has seen g_stopEvent behind one of its scans.
abbrev pub told_to_stop : List Round → Bool
told_to_stop [] = false
told_to_stop (r ∷ rs) = r.stop_behind || told_to_stop rs

or_true : (b : Bool) → b || true ≡ true
or_true true = refl
or_true false = refl

-- With g_stopEvent every entry is due.
all_due :
    (s : Socket) (currtime : ℕ) (ps : List ℕ) → select (fails (is_due s currtime true)) ps ≡ []
all_due s currtime [] = refl
all_due s currtime (p ∷ ps) = ground (arith, all_due s currtime ps)

recy_connections-Owned :
    (s : Socket) (used : List ℕ) (currtime : ℕ) (stop : Bool)
    → Owned s used
    → Owned (recy_connections currtime stop s) used
recy_connections-Owned s used currtime stop v = elim (Bool-cases (ltb 0 s.totol_recyconnection_n)) [
  | inl some_left ↦
      rw some_left (recy_pass-Owned (length s.recyconnection_list) currtime stop s used v)
  | inr none_left ↦ rw none_left v
]

free_all-Owned :
    (s : Socket) (used : List ℕ) (currtime : ℕ)
    → Owned s used
    → Owned (free_all currtime s) used × ((free_all currtime s).recyconnection_list ≡ [])
free_all-Owned s used currtime v = elim (Bool-cases (ltb 0 s.totol_recyconnection_n)) [
  | inl some_left ↦ rw some_left (
    recy_pass-Owned (length s.recyconnection_list) currtime true s used v,
    (recy_pass-select (length s.recyconnection_list) currtime true s (omega arith)).0
        ∙ all_due s currtime s.recyconnection_list,
  )
  | inr none_left ↦ rw none_left (v, no_entries s.recyconnection_list (ground (arith, v.recycling)))
]
  where
    no_entries : (ps : List ℕ) → length ps ≡ 0 → ps ≡ []
    no_entries [] h = refl
    no_entries (p ∷ ps) h = absurd (omega arith)

-- ServerRecyConnectionThread ends in the first round behind whose scan g_stopEvent is set, and only
-- then. In all its rounds it keeps the pool whole, with the same objects in use, and when it has
-- ended no connection waits to be recycled, whether its time had come or not.
pub recy_thread_lem :
    (rs : List Round) (s : Socket) (used : List ℕ)
    → Owned s used
    → let (t, done) = recy_thread rs s in
      Owned t used × (done ≡ told_to_stop rs) × (done ≡ true → t.recyconnection_list ≡ [])
unfolding recy_thread
recy_thread_lem [] s used v = (v, refl, λ e. absurd (false≢true e))
recy_thread_lem (r ∷ rs) s used v =
    let t = recy_connections r.currtime r.stop_in_scan s in
    let w = recy_connections-Owned s used r.currtime r.stop_in_scan v in
    elim (Bool-cases r.stop_behind) [
      | inl stops ↦
          let (o, none_left) = free_all-Owned t used r.currtime w in
          rw stops (o, refl, λ e. none_left)
      | inr goes_on ↦ rw goes_on (recy_thread_lem rs t used w)
    ]
