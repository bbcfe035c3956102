-- ===== src/ThreadPool/Jobs.antt =====
-- What becomes of the jobs of a pool (nginx/misc/ngx_c_threadpool.cxx): none is lost, none is handled
-- twice, and the counters count them.
use mathlib.Core.Option.{some-injective}
use cnginx.Common.{
  ℕ, zero, suc, ◌+◌, ◌<◌, ◌≡◌, refl, sym, ap, subst, ◌∙◌, arith, Bool, true, false, ◌==◌,
  if◌then◌else◌, Option, List, [], ◌∷◌, ◌++◌, some, none, length, length-append, append_assoc,
}
use cnginx.Socket.{update}
use cnginx.ThreadPool.{
  Caller, creating, idle, stopping, joining, stopped, gave_up, Pc, absent, locking, testing, sleepy,
  waiting, woken, starting, running, finished, Pool, new_pool, lock, act, push, call, stop,
  broadcast, create_thread, wake,
}
use cnginx.ThreadPool.Created.{NotYet, Step-NotYet}
use cnginx.ThreadPool.Steps.{
  Step, moves, wakes, creates, returns, pushes, signals, signals_nobody, stops, broadcasts, joins,
  Reach, here, later, Tested, sleeps, ends, takes, testing-Tested, lock_lem, total, total-update,
  total-wake,
}

-- How often a job stands in a list.
abbrev pub occurrences : ℕ → List ℕ → ℕ
occurrences job [] = 0
occurrences job (j ∷ js) = (if j == job then 1 else 0) + occurrences job js

occurrences-append :
    (job : ℕ) (xs ys : List ℕ)
    → occurrences job (xs ++ ys) ≡ occurrences job xs + occurrences job ys
occurrences-append job [] ys = omega arith
occurrences-append job (x ∷ xs) ys = omega (arith, occurrences-append job xs ys)

-- The threads in threadRecvProcFunc, and those that hold a job.
abbrev pub is_running : Pc → ℕ
is_running (running j) = 1
is_running _ = 0

abbrev pub holds : ℕ → Pc → ℕ
holds job (starting j) = if j == job then 1 else 0
holds job (running j) = if j == job then 1 else 0
holds job _ = 0

-- The jobs pushed are those taken and then those queued; each job taken has been handled or is with
-- a thread; and the two counters are right.
pub record Accounted (n : ℕ) (s : Pool) : Type 0 where
  pub in_order : s.pushed ≡ s.taken ++ s.msg_recv_queue
  pub count : s.recv_msg_queue_count ≡ length s.msg_recv_queue
  pub busy : s.running_thread_num ≡ total is_running n s.pc
  pub kept :
      (job : ℕ) → occurrences job s.taken ≡ occurrences job s.handled + total (holds job) n s.pc

-- Places at which a thread has no job.
abbrev IsFree : Pc → Type 0
IsFree p = (is_running p ≡ 0) × ((job : ℕ) → holds job p ≡ 0)

-- Changes that concern no job, and leave the sums alone.
quiet-Accounted :
    (n : ℕ) (s : Pool) (pc : ℕ → Pc) (owner : Option ℕ) (ifrunning : ℕ → Bool) (time : ℕ)
    (caller : Caller) (shutdown : Bool)
    → Accounted n s
    → total is_running n pc ≡ total is_running n s.pc
    → ((job : ℕ) → total (holds job) n pc ≡ total (holds job) n s.pc)
    → Accounted n (record s {
      pc = pc;
      owner = owner;
      ifrunning = ifrunning;
      last_emg_time = time;
      caller = caller;
      shutdown = shutdown;
    })
quiet-Accounted n s pc owner ifrunning time caller shutdown v r h = record {
  in_order = v.in_order;
  count = v.count;
  busy = omega (arith, v.busy, r);
  kept = λ job. omega (arith, v.kept job, h job);
}

-- The same when one thread goes from one place without a job to another.
free-Accounted :
    (n : ℕ) (s : Pool) (i : ℕ) (p p' : Pc) (owner : Option ℕ) (ifrunning : ℕ → Bool) (time : ℕ)
    (caller : Caller) (shutdown : Bool)
    → Accounted n s
    → i < n
    → s.pc i ≡ p
    → IsFree p
    → IsFree p'
    → Accounted n (record s {
      pc = update s.pc i p';
      owner = owner;
      ifrunning = ifrunning;
      last_emg_time = time;
      caller = caller;
      shutdown = shutdown;
    })
free-Accounted n s i p p' owner ifrunning time caller shutdown v lt e before after =
    let from = subst IsFree (sym e) before in
    quiet-Accounted n s (update s.pc i p') owner ifrunning time caller shutdown v
      (omega (arith, from.0, after.0, total-update is_running n i s.pc p' lt))
      (λ job. omega (arith, from.1 job, after.1 job, total-update (holds job) n i s.pc p' lt))

none_held : (job : ℕ) → ◌≡◌ {A = ℕ} 0 0
none_held job = refl

module _ (n : ℕ) (s t : Pool) (i : ℕ) (lt : i < n) (v : Accounted n s) where
  lock-Accounted : (p : Pc) → s.pc i ≡ p → IsFree p → lock i s ≡ some t → Accounted n t
  lock-Accounted p h free e =
      let (nobody, r) = lock_lem i s t e in
      subst (Accounted n) (sym r) (
        free-Accounted n s i p testing (some i) s.ifrunning s.last_emg_time s.caller s.shutdown v lt
          h free (refl, none_held))

  Tested-Accounted : s.pc i ≡ testing → Tested i s t → Accounted n t
  Tested-Accounted h (sleeps empty up r) = subst (Accounted n) (sym r) (
      free-Accounted n s i testing sleepy s.owner (update s.ifrunning i true) s.last_emg_time
        s.caller s.shutdown v lt h (refl, none_held) (refl, none_held))
  Tested-Accounted h (ends down r) = subst (Accounted n) (sym r) (
      free-Accounted n s i testing finished none s.ifrunning s.last_emg_time s.caller s.shutdown v
        lt h (refl, none_held) (refl, none_held))
  Tested-Accounted h (takes job rest queued up r) = subst (Accounted n) (sym r) (record {
    in_order = v.in_order ∙ ap (s.taken ++◌) queued ∙ sym (append_assoc s.taken (job ∷ []) rest);
    count = ground (arith, v.count);
    busy = ground (arith, v.busy, total-update is_running n i s.pc (starting job) lt);
    kept = λ k. ground (
      arith,
      v.kept k,
      total-update (holds k) n i s.pc (starting job) lt,
      occurrences-append k s.taken (job ∷ []),
    );
  })

  act-Accounted : (p : Pc) → s.pc i ≡ p → act p i s ≡ some t → Accounted n t
  unfolding act
  act-Accounted absent h e = absurd (ground arith)
  act-Accounted locking h e = lock-Accounted locking h (refl, none_held) e
  act-Accounted testing h e = Tested-Accounted h (testing-Tested i s t e)
  act-Accounted sleepy h e = subst (Accounted n) (some-injective _ _ e) (
      free-Accounted n s i sleepy waiting none s.ifrunning s.last_emg_time s.caller s.shutdown v lt
        h (refl, none_held) (refl, none_held))
  act-Accounted waiting h e = absurd (ground arith)
  act-Accounted woken h e = lock-Accounted woken h (refl, none_held) e
  act-Accounted (starting j) h e = record {
    in_order = ground (arith, v.in_order);
    count = ground (arith, v.count);
    busy = ground (arith, v.busy, total-update is_running n i s.pc (running j) lt);
    kept = λ job. ground (arith, v.kept job, total-update (holds job) n i s.pc (running j) lt);
  }
  act-Accounted (running j) h e = record {
    in_order = ground (arith, v.in_order);
    count = ground (arith, v.count);
    busy = ground (arith, v.busy, total-update is_running n i s.pc locking lt);
    kept = λ job. ground (
      arith,
      v.kept job,
      total-update (holds job) n i s.pc locking lt,
      occurrences-append job s.handled (j ∷ []),
    );
  }
  act-Accounted finished h e = absurd (ground arith)

module _ (n : ℕ) (s : Pool) (v : Accounted n s) where
  -- The methods that the caller runs.
  call-Accounted :
      (now : ℕ) (chosen : Option ℕ)
      → ((i : ℕ) → chosen ≡ some i → (i < n) × (s.pc i ≡ waiting))
      → Accounted n (call n now chosen s)
  unfolding call
  call-Accounted now none h =
      quiet-Accounted n s s.pc s.owner s.ifrunning _ idle s.shutdown v refl (λ job. refl)
  call-Accounted now (some i) h =
      free-Accounted n s i waiting woken s.owner s.ifrunning _ idle s.shutdown v (h i refl).0
        (h i refl).1 (refl, none_held) (refl, none_held)

  push-Accounted : (job : ℕ) → Accounted n (push job s)
  unfolding push
  push-Accounted job = record {
    in_order =
        ap (λ (l : List ℕ). l ++ job ∷ []) v.in_order
        ∙ append_assoc s.taken s.msg_recv_queue (job ∷ []);
    count = omega (arith, v.count, length-append s.msg_recv_queue (job ∷ []));
    busy = v.busy;
    kept = v.kept;
  }

  broadcast-Accounted : Accounted n (broadcast s)
  unfolding broadcast
  broadcast-Accounted =
      quiet-Accounted n s (λ i. wake (s.pc i)) s.owner s.ifrunning s.last_emg_time joining
        s.shutdown v (total-wake is_running n s.pc refl) (λ job. total-wake (holds job) n s.pc refl)

  create-Accounted :
      (k : ℕ) (created : Bool) → k < n → s.pc k ≡ absent → Accounted n (create_thread k created s)
  unfolding create_thread
  create-Accounted k true lt h =
      free-Accounted n s k absent locking s.owner s.ifrunning s.last_emg_time (creating (suc k))
        s.shutdown v lt h (refl, none_held) (refl, none_held)
  create-Accounted k false lt h =
      quiet-Accounted n s s.pc s.owner s.ifrunning s.last_emg_time gave_up s.shutdown v refl
        (λ job. refl)

  stop-Accounted : Accounted n (stop s)
  unfolding stop
  stop-Accounted = by_case s.shutdown v (
      quiet-Accounted n s s.pc s.owner s.ifrunning s.last_emg_time stopping true v refl
        (λ job. refl))
    where
      by_case :
          {x y : Pool} (b : Bool) → Accounted n x → Accounted n y → Accounted n (if b then x else y)
      by_case true vx vy = vx
      by_case false vx vy = vy

Step-Accounted : (n : ℕ) (s t : Pool) → Step n s t → NotYet s → Accounted n s → Accounted n t
Step-Accounted n s t (moves i lt e) f v = act-Accounted n s t i lt v (s.pc i) refl e
Step-Accounted n s t (wakes i lt h e) f v = subst (Accounted n) (sym e) (
    free-Accounted n s i waiting woken s.owner s.ifrunning s.last_emg_time s.caller s.shutdown v lt
      h (refl, none_held) (refl, none_held))
Step-Accounted n s t (creates k created h lt e) f v =
    subst (Accounted n) (sym e) (create-Accounted n s v k created lt (f k k h (omega arith)))
Step-Accounted n s t (returns h ran e) f v = subst (Accounted n) (sym e) (
    quiet-Accounted n s s.pc s.owner s.ifrunning s.last_emg_time idle s.shutdown v refl
      (λ job. refl))
Step-Accounted n s t (pushes job h free e) f v =
    subst (Accounted n) (sym e) (push-Accounted n s v job)
Step-Accounted n s t (signals now i h lt w e) f v =
    subst (Accounted n) (sym e) (call-Accounted n s v now (some i) (λ j q. ground arith))
Step-Accounted n s t (signals_nobody now h nobody e) f v =
    subst (Accounted n) (sym e) (call-Accounted n s v now none (λ j q. absurd (ground arith)))
Step-Accounted n s t (stops h e) f v = subst (Accounted n) (sym e) (stop-Accounted n s v)
Step-Accounted n s t (broadcasts h e) f v = subst (Accounted n) (sym e) (broadcast-Accounted n s v)
Step-Accounted n s t (joins h ended e) f v = subst (Accounted n) (sym e) (
    quiet-Accounted n s s.pc s.owner s.ifrunning s.last_emg_time stopped s.shutdown v refl
      (λ job. refl))

new_pool-Accounted : (n : ℕ) → Accounted n new_pool
new_pool-Accounted n = record {
  in_order = refl;
  count = refl;
  busy = sym (sum is_running refl n);
  kept = λ job. omega (arith, sum (holds job) refl n);
}
  where
    sum : (f : Pc → ℕ) → f absent ≡ 0 → (m : ℕ) → total f m (λ i. absent) ≡ 0
    sum f h zero = refl
    sum f h (suc m) = ground (arith, sum f h m)

-- In every interleaving of the threads of a new pool with calls of its methods: the jobs pushed are
-- those that threads have taken, in that order, and then those in the queue; each job was taken as
-- often as it was handled or is with a thread; and the two counters are right.
pub Reach-Accounted : (n : ℕ) (s : Pool) → Reach n new_pool s → Accounted n s
Reach-Accounted n s r = (both n s r).1
  where
    both : (n : ℕ) (s : Pool) → Reach n new_pool s → NotYet s × Accounted n s
    both n s here = ((λ k i h le. refl), new_pool-Accounted n)
    both n s (later {t} r st) =
        let (f, v) = both n t r in (Step-NotYet n t s st f, Step-Accounted n t s st f v)
