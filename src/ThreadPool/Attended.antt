-- ===== src/ThreadPool/Attended.antt =====
-- Wake-ups of a pool (nginx/misc/ngx_c_threadpool.cxx): no queued job is left alone.
use mathlib.Core.Bool.{false≢true}
use cnginx.Common.{
  ℕ, ◌<◌, ◌≡◌, ◌≢◌, ◌⊎◌, refl, sym, ap, subst, ◌∙◌, arith, Bool, inl, inr, true, false, [], some,
}
use cnginx.ThreadPool.{
  Caller, creating, calling, gave_up, Pc, absent, locking, testing, sleepy, waiting, woken,
  starting, running, finished, Pool, new_pool, act, push, call, stop, broadcast, create_thread,
}
use cnginx.ThreadPool.Steps.{
  Step, moves, wakes, creates, returns, pushes, signals, signals_nobody, stops, broadcasts, joins,
  Reach, here, later, Tested, sleeps, ends, takes, testing-Tested, lock_lem,
}
use cnginx.ThreadPool.Wakeup.{Guarded, Reach-Guarded}

-- The thread will test the queue without being woken.
abbrev pub is_active : Pc → Bool
is_active locking = true
is_active testing = true
is_active woken = true
is_active (starting j) = true
is_active (running j) = true
is_active _ = false

-- Create has returned true.
abbrev IsOpen : Caller → Type 0
IsOpen (creating k) = ⊥
IsOpen gave_up = ⊥
IsOpen _ = Unit {0}

-- Once Create has returned, every thread has been created and has tested the queue.
abbrev AllRan : ℕ → Pool → Type 0
AllRan n s = IsOpen s.caller → (i : ℕ) → i < n → s.ifrunning i ≡ true

-- A thread's step leaves the caller, and takes no flag back.
Keeps : Pool → Pool → ℕ → Type 0
Keeps s t i = (t.caller ≡ s.caller) × (s.ifrunning i ≡ true → t.ifrunning i ≡ true)

Tested-Keeps : (s t : Pool) (j i : ℕ) → Tested j s t → Keeps s t i
unfolding Keeps
Tested-Keeps s t j i (sleeps none_queued up r) = ground arith
Tested-Keeps s t j i (ends is_down r) = ground arith
Tested-Keeps s t j i (takes job rest queued up r) = ground arith

act-Keeps : (s t : Pool) (j i : ℕ) (p : Pc) → act p j s ≡ some t → Keeps s t i
unfolding act Keeps
act-Keeps s t j i absent e = absurd (ground arith)
act-Keeps s t j i locking e = let (nobody, r) = lock_lem j s t e in ground arith
act-Keeps s t j i testing e = Tested-Keeps s t j i (testing-Tested j s t e)
act-Keeps s t j i sleepy e = ground arith
act-Keeps s t j i waiting e = absurd (ground arith)
act-Keeps s t j i woken e = let (nobody, r) = lock_lem j s t e in ground arith
act-Keeps s t j i (starting job) e = ground arith
act-Keeps s t j i (running job) e = ground arith
act-Keeps s t j i finished e = absurd (ground arith)

keep-AllRan : (n : ℕ) (s t : Pool) → ((i : ℕ) → Keeps s t i) → AllRan n s → AllRan n t
unfolding Keeps
keep-AllRan n s t k v o i lt = (k i).1 (v (subst IsOpen (k i).0 o) i lt)

Step-AllRan : (n : ℕ) (s t : Pool) → Step n s t → AllRan n s → AllRan n t
unfolding create_thread push call stop broadcast
Step-AllRan n s t (moves j lt e) v o i l =
    keep-AllRan n s t (λ k. act-Keeps s t j k (s.pc j) e) v o i l
Step-AllRan n s t (wakes j lt h e) v o i l =
    ground (arith, v (subst IsOpen (ap (λ (u : Pool). u.caller) e) o) i l)
Step-AllRan n s t (creates k true h lt e) v o i l =
    absurd (subst IsOpen (ap (λ (u : Pool). u.caller) e) o)
Step-AllRan n s t (creates k false h lt e) v o i l =
    absurd (subst IsOpen (ap (λ (u : Pool). u.caller) e) o)
Step-AllRan n s t (returns h ran e) v o i l = ground (arith, ran i l)
Step-AllRan n s t (pushes job h free e) v o i l = ground (arith, v (subst IsOpen (sym h) tt) i l)
Step-AllRan n s t (signals now j h lt w e) v o i l = ground (arith, v (subst IsOpen (sym h) tt) i l)
Step-AllRan n s t (signals_nobody now h nobody e) v o i l =
    ground (arith, v (subst IsOpen (sym h) tt) i l)
Step-AllRan n s t (stops h e) v o i l = ground (arith, v (subst IsOpen (sym h) tt) i l)
Step-AllRan n s t (broadcasts h e) v o i l = ground (arith, v (subst IsOpen (sym h) tt) i l)
Step-AllRan n s t (joins h ended e) v o i l = ground (arith, v (subst IsOpen (sym h) tt) i l)

pub Reach-AllRan : (n : ℕ) (s : Pool) → Reach n new_pool s → AllRan n s
Reach-AllRan n s here o i lt = absurd o
Reach-AllRan n s (later {t} r st) o i lt = Step-AllRan n t s st (Reach-AllRan n t r) o i lt

-- A queued job is attended to: Call is about to signal, or a thread is on its way to the queue.
abbrev pub Attended : ℕ → Pool → Type 0
Attended n s =
    s.msg_recv_queue ≢ []
    → s.shutdown ≡ false
    → (s.caller ≡ calling) ⊎ ((i : ℕ) × (i < n) × (is_active (s.pc i) ≡ true))

-- A step of thread `j` keeps thread `i` on its way, as long as there is a job.
Stays : Pool → Pool → ℕ → Type 0
Stays s t i =
    t.msg_recv_queue ≢ []
    → t.shutdown ≡ false
    → (s.msg_recv_queue ≢ [])
      × (s.shutdown ≡ false)
      × (t.caller ≡ s.caller)
      × (is_active (s.pc i) ≡ true → is_active (t.pc i) ≡ true)

Tested-Stays : (s t : Pool) (j i : ℕ) → s.pc j ≡ testing → Tested j s t → Stays s t i
unfolding Stays
Tested-Stays s t j i h (sleeps none_queued up r) = ground arith
Tested-Stays s t j i h (ends is_down r) = ground arith
Tested-Stays s t j i h (takes job rest queued up r) = ground arith

act-Stays : (s t : Pool) (j i : ℕ) (p : Pc) → s.pc j ≡ p → act p j s ≡ some t → Stays s t i
unfolding act Stays
act-Stays s t j i absent h e = absurd (ground arith)
act-Stays s t j i locking h e = let (nobody, r) = lock_lem j s t e in ground arith
act-Stays s t j i testing h e = Tested-Stays s t j i h (testing-Tested j s t e)
act-Stays s t j i sleepy h e = ground arith
act-Stays s t j i waiting h e = absurd (ground arith)
act-Stays s t j i woken h e = let (nobody, r) = lock_lem j s t e in ground arith
act-Stays s t j i (starting job) h e = ground arith
act-Stays s t j i (running job) h e = ground arith
act-Stays s t j i finished h e = absurd (ground arith)

-- A thread that exists, does not wait, is not on its way to the wait, and has not ended.
place_cases :
    (p : Pc) → p ≢ absent → p ≢ sleepy → p ≢ finished → ¬ (p ≡ waiting) → is_active p ≡ true
place_cases absent a b c d = absurd (a refl)
place_cases sleepy a b c d = absurd (b refl)
place_cases finished a b c d = absurd (c refl)
place_cases waiting a b c d = absurd (d refl)
place_cases locking a b c d = refl
place_cases testing a b c d = refl
place_cases woken a b c d = refl
place_cases (starting j) a b c d = refl
place_cases (running j) a b c d = refl

module _ (n : ℕ) (some_thread : 0 < n) (s t : Pool) (g : Guarded s) (ran : AllRan n s) where
  -- With no thread in the wait, the first one is on its way.
  first_active :
      s.caller ≡ calling
      → s.msg_recv_queue ≢ []
      → s.shutdown ≡ false
      → ¬ (s.pc 0 ≡ waiting)
      → is_active (s.pc 0) ≡ true
  first_active h q up nobody =
      let present = (g 0).3 (ran (subst IsOpen (sym h) tt) 0 some_thread) in
      place_cases (s.pc 0) present (λ e. q ((g 0).1 e)) (λ e. false≢true (sym up ∙ (g 0).2 e))
        nobody

  moves-Attended : (j : ℕ) → ((i : ℕ) → Stays s t i) → Attended n s → Attended n t
  unfolding Stays
  moves-Attended j k a q up = elim (a (k 0 q up).0 (k 0 q up).1) [
    | inl c ↦ inl ((k 0 q up).2 ∙ c)
    | inr (i, lt, h) ↦ inr (i, lt, (k i q up).3 h)
  ]

  Step-Attended : Step n s t → Attended n s → Attended n t
  unfolding create_thread push call stop broadcast
  Step-Attended (moves j lt e) a q up =
      moves-Attended j (λ i. act-Stays s t j i (s.pc j) refl e) a q up
  Step-Attended (wakes j lt h e) a q up = elim (a (ground arith) (ground arith)) [
    | inl c ↦ inl (ground arith)
    | inr (i, l, k) ↦ inr (i, l, ground arith)
  ]
  Step-Attended (creates k true h lt e) a q up = elim (a (ground arith) (ground arith)) [
    | inl c ↦ absurd (ground arith)
    | inr (i, l, m) ↦ inr (i, l, ground arith)
  ]
  Step-Attended (creates k false h lt e) a q up = elim (a (ground arith) (ground arith)) [
    | inl c ↦ absurd (ground arith)
    | inr (i, l, m) ↦ inr (i, l, ground arith)
  ]
  Step-Attended (returns h r e) a q up = elim (a (ground arith) (ground arith)) [
    | inl c ↦ absurd (ground arith)
    | inr (i, l, k) ↦ inr (i, l, ground arith)
  ]
  Step-Attended (pushes job h free e) a q up = inl (ground arith)
  Step-Attended (signals now j h lt w e) a q up = inr (j, lt, ground arith)
  Step-Attended (signals_nobody now h nobody e) a q up = inr (
    0,
    some_thread,
    ground (arith, first_active h (ground arith) (ground arith) (nobody 0 some_thread)),
  )
  Step-Attended (stops h e) a q up = absurd (ground arith)
  Step-Attended (broadcasts h e) a q up = elim (a (ground arith) (ground arith)) [
    | inl c ↦ absurd (ground arith)
    | inr (i, l, k) ↦ inr (i, l, ground arith)
  ]
  Step-Attended (joins h ended e) a q up = elim (a (ground arith) (ground arith)) [
    | inl c ↦ absurd (ground arith)
    | inr (i, l, k) ↦ inr (i, l, ground arith)
  ]

-- A pool with at least one thread, in any interleaving: as long as a job is queued and StopAll has
-- not been called, Call is about to signal, or some thread is on its way to the queue. No job waits
-- while all threads sleep.
pub Reach-Attended : (n : ℕ) (s : Pool) → 0 < n → Reach n new_pool s → Attended n s
Reach-Attended n s some_thread here q up = absurd (q refl)
Reach-Attended n s some_thread (later {t} r st) q up =
    Step-Attended n some_thread t s (Reach-Guarded n t r) (Reach-AllRan n t r) st
      (Reach-Attended n t some_thread r) q up
