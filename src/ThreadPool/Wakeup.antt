-- ===== src/ThreadPool/Wakeup.antt =====
-- The mutex and the condition variable of a pool (nginx/misc/ngx_c_threadpool.cxx): who owns the
-- mutex, and what a thread's place says of the pool.
use mathlib.Core.Option.{some-injective}
use cnginx.Common.{ℕ, ◌≡◌, ◌≢◌, refl, sym, ◌∙◌, arith, Bool, true, false, [], some}
use cnginx.ThreadPool.{
  Pc, absent, locking, testing, sleepy, waiting, woken, starting, running, finished, Pool, new_pool,
  lock, act, push, call, stop, broadcast, create_thread,
}
use cnginx.ThreadPool.Steps.{
  Step, moves, wakes, creates, returns, pushes, signals, signals_nobody, stops, broadcasts, joins,
  Reach, here, later, Tested, sleeps, ends, takes, testing-Tested, lock_lem,
}

-- The thread owns the mutex.
abbrev pub is_inside : Pc → Bool
is_inside testing = true
is_inside sleepy = true
is_inside _ = false

-- What a thread's place says of the pool.
abbrev pub GuardedAt : Pool → ℕ → Type 0
GuardedAt s i =
    (is_inside (s.pc i) ≡ true → s.owner ≡ some i)
    × (s.pc i ≡ sleepy → s.msg_recv_queue ≡ [])
    × (s.pc i ≡ finished → s.shutdown ≡ true)
    × (s.ifrunning i ≡ true → s.pc i ≢ absent)

abbrev pub Guarded : Pool → Type 0
Guarded s = (i : ℕ) → GuardedAt s i

module _ (s t : Pool) (j : ℕ) (v : Guarded s) where
  lock-Guarded : (p : Pc) → s.pc j ≡ p → p ≢ absent → lock j s ≡ some t → Guarded t
  lock-Guarded p h ne e i = let (nobody, r) = lock_lem j s t e in ground (arith, v i)

  Tested-Guarded : s.pc j ≡ testing → Tested j s t → Guarded t
  Tested-Guarded h (sleeps none_queued up r) i = ground (arith, v i, v j)
  Tested-Guarded h (ends is_down r) i = ground (arith, v i, v j)
  Tested-Guarded h (takes job rest queued up r) i = ground (arith, v i, v j)

  act-Guarded : (p : Pc) → s.pc j ≡ p → act p j s ≡ some t → Guarded t
  unfolding act
  act-Guarded absent h e i = absurd (ground arith)
  act-Guarded locking h e i = lock-Guarded locking h (ground arith) e i
  act-Guarded testing h e i = Tested-Guarded h (testing-Tested j s t e) i
  act-Guarded sleepy h e i = ground (arith, v i, v j)
  act-Guarded waiting h e i = absurd (ground arith)
  act-Guarded woken h e i = lock-Guarded woken h (ground arith) e i
  act-Guarded (starting job) h e i = ground (arith, v i)
  act-Guarded (running job) h e i = ground (arith, v i)
  act-Guarded finished h e i = absurd (ground arith)

Step-Guarded : (n : ℕ) (s t : Pool) → Step n s t → Guarded s → Guarded t
unfolding create_thread push call stop broadcast
Step-Guarded n s t (moves j lt e) v i = act-Guarded s t j v (s.pc j) refl e i
Step-Guarded n s t (wakes j lt h e) v i = ground (arith, v i)
Step-Guarded n s t (creates k created h lt e) v i = ground (arith, v i)
Step-Guarded n s t (returns h ran e) v i = ground (arith, v i)
Step-Guarded n s t (pushes job h free e) v i = ground (arith, v i)
Step-Guarded n s t (signals now j h lt w e) v i = ground (arith, v i)
Step-Guarded n s t (signals_nobody now h nobody e) v i = ground (arith, v i)
Step-Guarded n s t (stops h e) v i = ground (arith, v i)
Step-Guarded n s t (broadcasts h e) v i = ground (arith, v i)
Step-Guarded n s t (joins h ended e) v i = ground (arith, v i)

pub Reach-Guarded : (n : ℕ) (s : Pool) → Reach n new_pool s → Guarded s
Reach-Guarded n s here i = ground arith
Reach-Guarded n s (later {t} r st) i = Step-Guarded n t s st (Reach-Guarded n t r) i

-- In every interleaving, two threads never own the mutex together: two that are at the test of the
-- queue, or between it and the wait, are the same thread.
pub mutual_exclusion :
    (n : ℕ) (s : Pool) (i j : ℕ)
    → Reach n new_pool s
    → is_inside (s.pc i) ≡ true
    → is_inside (s.pc j) ≡ true
    → i ≡ j
mutual_exclusion n s i j r in_i in_j =
    some-injective i j (sym ((Reach-Guarded n s r i).0 in_i) ∙ (Reach-Guarded n s r j).0 in_j)
