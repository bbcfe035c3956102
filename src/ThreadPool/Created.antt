-- ===== src/ThreadPool/Created.antt =====
-- The threads that Create has not come to yet (nginx/misc/ngx_c_threadpool.cxx).
use cnginx.Common.{ℕ, ◌≤◌, ◌≡◌, refl, arith, some}
use cnginx.ThreadPool.{
  creating, Pc, absent, locking, testing, sleepy, waiting, woken, starting, running, finished, Pool,
  act, push, call, stop, broadcast, create_thread,
}
use cnginx.ThreadPool.Steps.{
  Step, moves, wakes, creates, returns, pushes, signals, signals_nobody, stops, broadcasts, joins,
  Tested, sleeps, ends, takes, testing-Tested, lock_lem,
}

-- While Create is at thread k, the threads from there on do not exist.
abbrev pub NotYet : Pool → Type 0
NotYet s = (k i : ℕ) → s.caller ≡ creating k → k ≤ i → s.pc i ≡ absent

Tested-NotYet : (s t : Pool) (j : ℕ) → s.pc j ≡ testing → Tested j s t → NotYet s → NotYet t
Tested-NotYet s t j h (sleeps empty up r) f k i at_k le = ground (arith, f k i, f k j)
Tested-NotYet s t j h (ends down r) f k i at_k le = ground (arith, f k i, f k j)
Tested-NotYet s t j h (takes job rest q up r) f k i at_k le = ground (arith, f k i, f k j)

act-NotYet : (s t : Pool) (j : ℕ) (p : Pc) → s.pc j ≡ p → act p j s ≡ some t → NotYet s → NotYet t
unfolding act
act-NotYet s t j absent h e f k i at_k le = absurd (ground arith)
act-NotYet s t j locking h e f k i at_k le = ground (arith, f k i, f k j, lock_lem j s t e)
act-NotYet s t j testing h e f k i at_k le =
    Tested-NotYet s t j h (testing-Tested j s t e) f k i at_k le
act-NotYet s t j sleepy h e f k i at_k le = ground (arith, f k i, f k j)
act-NotYet s t j waiting h e f k i at_k le = absurd (ground arith)
act-NotYet s t j woken h e f k i at_k le = ground (arith, f k i, f k j, lock_lem j s t e)
act-NotYet s t j (starting job) h e f k i at_k le = ground (arith, f k i, f k j)
act-NotYet s t j (running job) h e f k i at_k le = ground (arith, f k i, f k j)
act-NotYet s t j finished h e f k i at_k le = absurd (ground arith)

pub Step-NotYet : (n : ℕ) (s t : Pool) → Step n s t → NotYet s → NotYet t
unfolding create_thread push call stop broadcast
Step-NotYet n s t (moves i lt e) f k j at_k le = act-NotYet s t i (s.pc i) refl e f k j at_k le
Step-NotYet n s t (wakes i lt h e) f k j at_k le = ground (arith, f k i, f k j)
Step-NotYet n s t (creates k created h lt e) f m j at_k le = ground (arith, f k j)
Step-NotYet n s t (returns h ran e) f k j at_k le = ground arith
Step-NotYet n s t (pushes job h free e) f k j at_k le = ground (arith, f k j)
Step-NotYet n s t (signals now i h lt w e) f k j at_k le = ground (arith, f k j)
Step-NotYet n s t (signals_nobody now h nobody e) f k j at_k le = ground (arith, f k j)
Step-NotYet n s t (stops h e) f k j at_k le = ground (arith, f k j)
Step-NotYet n s t (broadcasts h e) f k j at_k le = ground (arith, f k j)
Step-NotYet n s t (joins h ended e) f k j at_k le = ground arith
