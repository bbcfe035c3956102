-- ===== src/ThreadPool/Stop.antt =====
-- What CThreadPool::StopAll can miss (nginx/misc/ngx_c_threadpool.cxx, lines 139 to 176).
use cnginx.Common.{ℕ, ◌<◌, ◌≡◌, ◌⊎◌, refl, ap, arith, inl, inr, true, false, some, none}
use cnginx.Socket.{update}
use cnginx.ThreadPool.{
  idle, joining, Pc, absent, locking, testing, sleepy, waiting, woken, starting, running, finished,
  Pool, new_pool, goto, act, push, call, stop, broadcast, create_thread,
}
use cnginx.ThreadPool.Steps.{
  Step, moves, wakes, creates, returns, pushes, signals, signals_nobody, stops, broadcasts, joins,
  Reach, later, Tested, sleeps, ends, takes, testing-Tested, lock_lem,
}
use native.Mathlib.Decide.{ℕ_discrete}

-- StopAll is at pthread_join, and thread `i` waits.
abbrev pub Forgotten : Pool → ℕ → Type 0
Forgotten s i = (s.caller ≡ joining) × (s.shutdown ≡ true) × (s.pc i ≡ waiting)

Tested-Forgotten :
    (s t : Pool) (j i : ℕ) → s.pc j ≡ testing → Tested j s t → Forgotten s i → Forgotten t i
Tested-Forgotten s t j i h (sleeps none_queued up r) f = ground arith
Tested-Forgotten s t j i h (ends is_down r) f = ground arith
Tested-Forgotten s t j i h (takes job rest queued up r) f = ground arith

act-Forgotten :
    (s t : Pool) (j i : ℕ) (p : Pc)
    → s.pc j ≡ p
    → act p j s ≡ some t
    → Forgotten s i
    → Forgotten t i
unfolding act
act-Forgotten s t j i absent h e f = absurd (ground arith)
act-Forgotten s t j i locking h e f = let (nobody, r) = lock_lem j s t e in ground arith
act-Forgotten s t j i testing h e f = Tested-Forgotten s t j i h (testing-Tested j s t e) f
act-Forgotten s t j i sleepy h e f = ground arith
act-Forgotten s t j i waiting h e f = absurd (ground arith)
act-Forgotten s t j i woken h e f = let (nobody, r) = lock_lem j s t e in ground arith
act-Forgotten s t j i (starting job) h e f = ground arith
act-Forgotten s t j i (running job) h e f = ground arith
act-Forgotten s t j i finished h e f = absurd (ground arith)

-- Only a wake-up by nobody ends that.
pub Forgotten-stays :
    (n i : ℕ) (s t : Pool)
    → i < n
    → Forgotten s i
    → Step n s t
    → Forgotten t i ⊎ (t ≡ goto i woken s)
unfolding call create_thread push stop broadcast
Forgotten-stays n i s t l f (moves j lt e) = inl (act-Forgotten s t j i (s.pc j) refl e f)
Forgotten-stays n i s t l f (wakes j lt h e) = elim (ℕ_discrete j i) [
  | yes same ↦ inr (ground arith)
  | no other ↦ inl (ground arith)
]
Forgotten-stays n i s t l f (creates k created h lt e) = absurd (ground arith)
Forgotten-stays n i s t l f (returns h r e) = absurd (ground arith)
Forgotten-stays n i s t l f (pushes job h free e) = absurd (ground arith)
Forgotten-stays n i s t l f (signals now j h lt w e) = absurd (ground arith)
Forgotten-stays n i s t l f (signals_nobody now h nobody e) = absurd (ground arith)
Forgotten-stays n i s t l f (stops h e) = absurd (ground arith)
Forgotten-stays n i s t l f (broadcasts h e) = absurd (ground arith)
Forgotten-stays n i s t l f (joins h ended e) = absurd (ground (arith, ended i l))

-- StopAll sets its flag without the mutex. So whenever it is called while a thread stands between
-- its test of the flag and the wait, the pool may come to a state in which StopAll waits for that
-- thread to end, the thread waits to be woken, and every step but a wake-up by nobody leaves both so.
pub stop_can_miss :
    (n i : ℕ) (s : Pool)
    → Reach n new_pool s
    → i < n
    → s.pc i ≡ sleepy
    → s.caller ≡ idle
    → s.shutdown ≡ false
    → (t : Pool) × Reach n new_pool t
      × Forgotten t i
      × ((u : Pool) → Step n t u → Forgotten u i ⊎ (u ≡ goto i woken t))
unfolding stop broadcast act
stop_can_miss n i s r lt at_wait free up =
    let a = stop s in
    let b = broadcast a in
    let still : b.pc i ≡ sleepy = ground arith in
    let c = record b { owner = none; pc = update b.pc i waiting } in
    (
      c,
      later (later (later r (stops free refl)) (broadcasts (ground arith) refl))
          (moves i lt (ap (λ (p : Pc). act p i b) still)),
      ground arith,
      λ u st. Forgotten-stays n i c u lt (ground arith) st,
    )
