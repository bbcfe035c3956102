-- ===== src/ThreadPool/Steps.antt =====
-- All interleavings of the threads of a pool (nginx/misc/ngx_c_threadpool.cxx) with the thread that
-- calls its methods.
use native.Mathlib.Decide.{dec_lt}
use cnginx.Common.{
  ℕ, zero, suc, ◌+◌, ◌-◌, ◌≤◌, ◌<◌, ◌≡◌, refl, arith, Bool, true, false, Bool-cases, List-cases,
  Option-cases, inl, inr, List, [], ◌∷◌, ◌++◌, some, none,
}
use cnginx.Socket.{update}
use cnginx.ThreadPool.{
  Pc, testing, sleepy, starting, lock, waiting, woken, finished, Pool, goto, act, push, call, stop,
  broadcast, create_thread, creating, idle, calling, stopping, joining, stopped, wake,
}

-- A step of a pool for which Create was asked for `n` threads: a thread goes on, or is woken by nobody;
-- Create creates a thread, or returns when all threads have come to their wait; a job is pushed;
-- Call wakes one of the threads that wait, or there is none; StopAll sets the flag, wakes all
-- threads, and returns when all have ended.
pub data Step (n : ℕ) (s t : Pool) : Type 0 where
  moves : (i : ℕ) → i < n → act (s.pc i) i s ≡ some t → Step n s t
  wakes : (i : ℕ) → i < n → s.pc i ≡ waiting → t ≡ goto i woken s → Step n s t
  creates :
      (k : ℕ) (created : Bool)
      → s.caller ≡ creating k
      → k < n
      → t ≡ create_thread k created s
      → Step n s t
  returns :
      s.caller ≡ creating n
      → ((i : ℕ) → i < n → s.ifrunning i ≡ true)
      → t ≡ record s { caller = idle }
      → Step n s t
  pushes : (job : ℕ) → s.caller ≡ idle → s.owner ≡ none → t ≡ push job s → Step n s t
  signals :
      (now i : ℕ)
      → s.caller ≡ calling
      → i < n
      → s.pc i ≡ waiting
      → t ≡ call n now (some i) s
      → Step n s t
  signals_nobody :
      (now : ℕ)
      → s.caller ≡ calling
      → ((i : ℕ) → i < n → ¬ (s.pc i ≡ waiting))
      → t ≡ call n now none s
      → Step n s t
  stops : s.caller ≡ idle → t ≡ stop s → Step n s t
  broadcasts : s.caller ≡ stopping → t ≡ broadcast s → Step n s t
  joins :
      s.caller ≡ joining
      → ((i : ℕ) → i < n → s.pc i ≡ finished)
      → t ≡ record s { caller = stopped }
      → Step n s t

pub data Reach (n : ℕ) (s : Pool) : Pool → Type 0 where
  here : Reach n s s
  later : {t u : Pool} → Reach n s t → Step n t u → Reach n s u

-- A sum over the threads.
abbrev pub total : (Pc → ℕ) → ℕ → (ℕ → Pc) → ℕ
total f zero pc = 0
total f (suc n) pc = f (pc n) + total f n pc

pub total-update_high :
    (f : Pc → ℕ) (n i : ℕ) (pc : ℕ → Pc) (p : Pc) → n ≤ i → total f n (update pc i p) ≡ total f n pc
total-update_high f zero i pc p h = refl
total-update_high f (suc n) i pc p h = ground (arith, total-update_high f n i pc p (omega arith))

pub total-update :
    (f : Pc → ℕ) (n i : ℕ) (pc : ℕ → Pc) (p : Pc)
    → i < n
    → total f n (update pc i p) + f (pc i) ≡ total f n pc + f p
total-update f zero i pc p h = absurd (omega arith)
total-update f (suc n) i pc p h = elim (dec_lt i n) [
  | yes lower ↦ ground (arith, total-update f n i pc p lower)
  | no last ↦
      let e : i ≡ n = omega arith in ground (arith, total-update_high f n i pc p (omega arith))
]

pub total-wake :
    (f : Pc → ℕ) (n : ℕ) (pc : ℕ → Pc)
    → f waiting ≡ f woken
    → total f n (λ i. wake (pc i)) ≡ total f n pc
total-wake f zero pc h = refl
total-wake f (suc n) pc h = ground (arith, total-wake f n pc h)

-- The three ways on from the test of the queue.
pub data Tested (i : ℕ) (s t : Pool) : Type 0 where
  sleeps :
      s.msg_recv_queue ≡ []
      → s.shutdown ≡ false
      → t ≡ record s { ifrunning = update s.ifrunning i true; pc = update s.pc i sleepy }
      → Tested i s t
  ends :
      s.shutdown ≡ true → t ≡ record s { owner = none; pc = update s.pc i finished } → Tested i s t
  takes :
      (job : ℕ) (rest : List ℕ)
      → s.msg_recv_queue ≡ job ∷ rest
      → s.shutdown ≡ false
      → t ≡ record s {
        msg_recv_queue = rest;
        recv_msg_queue_count = s.recv_msg_queue_count - 1;
        taken = s.taken ++ job ∷ [];
        owner = none;
        pc = update s.pc i (starting job);
      }
      → Tested i s t

pub testing-Tested : (i : ℕ) (s t : Pool) → act testing i s ≡ some t → Tested i s t
unfolding act
testing-Tested i s t e = elim (List-cases s.msg_recv_queue) [
  | inl empty ↦ elim (Bool-cases s.shutdown) [
    | inl down ↦ ends down (ground arith)
    | inr up ↦ sleeps empty up (ground arith)
  ]
  | inr (job, rest, queued) ↦ elim (Bool-cases s.shutdown) [
    | inl down ↦ ends down (ground arith)
    | inr up ↦ takes job rest queued up (ground arith)
  ]
]

-- Taking the mutex.
pub lock_lem :
    (i : ℕ) (s t : Pool)
    → lock i s ≡ some t
    → s.owner ≡ none × (t ≡ record s { owner = some i; pc = update s.pc i testing })
lock_lem i s t e = elim (Option-cases s.owner) [
  | inl nobody ↦ ground arith
  | inr (j, taken) ↦ absurd (ground arith)
]
