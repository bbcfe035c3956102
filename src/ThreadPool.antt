-- ===== src/ThreadPool.antt =====
-- nginx/misc/ngx_c_threadpool.cxx: the class CThreadPool, one step of one thread at a time. The
-- mutex m_pthreadMutex has an owner; what a thread does while it owns it is one step, except that
-- the test of the queue and the call of pthread_cond_wait are two, since StopAll may come between
-- them. A job is the address of a message.
pub mod Steps
pub mod Created
pub mod Jobs
pub mod Wakeup
pub mod Attended
pub mod Stop
use cnginx.Common.{
  ℕ, zero, suc, ◌+◌, ◌-◌, Bool, true, false, not, ◌==◌, ltb, if◌then◌else◌, Option, none, some,
  List, [], ◌∷◌, ◌++◌,
}
use cnginx.Socket.{update}

-- Where a thread of the pool stands in ThreadFunc.
pub data Pc : Type 0 where
  absent : Pc  -- not created
  locking : Pc  -- before pthread_mutex_lock
  testing : Pc  -- at the inner while, owning the mutex
  sleepy : Pc  -- behind the test, before pthread_cond_wait
  waiting : Pc  -- in pthread_cond_wait, without the mutex
  woken : Pc  -- still in pthread_cond_wait, which has to take the mutex again
  starting : ℕ → Pc  -- has taken a job and left the mutex
  running : ℕ → Pc  -- in threadRecvProcFunc
  finished : Pc  -- has returned

-- Where the thread stands that calls the pool: in Create before thread number k, or in its wait for
-- the threads; between calls; in Call behind a push; in StopAll before the broadcast, or at
-- pthread_join, or behind StopAll; or behind a return of false from Create.
pub data Caller : Type 0 where
  creating : ℕ → Caller
  idle : Caller
  calling : Caller
  stopping : Caller
  joining : Caller
  stopped : Caller
  gave_up : Caller

-- The pool's members, the threads, and three histories that the code does not keep: the jobs that
-- were pushed, taken by a thread, and handled.
pub record Pool : Type 0 where
  pub msg_recv_queue : List ℕ
  pub recv_msg_queue_count : ℕ
  pub running_thread_num : ℕ
  pub last_emg_time : ℕ
  pub shutdown : Bool
  pub owner : Option ℕ
  pub pc : ℕ → Pc
  pub ifrunning : ℕ → Bool
  pub caller : Caller
  pub pushed : List ℕ
  pub taken : List ℕ
  pub handled : List ℕ

-- A pool before Create
abbrev pub new_pool : Pool
new_pool = record {
  msg_recv_queue = [];
  recv_msg_queue_count = 0;
  running_thread_num = 0;
  last_emg_time = 0;
  shutdown = false;
  owner = none;
  pc = λ i. absent;
  ifrunning = λ i. false;
  caller = creating 0;
  pushed = [];
  taken = [];
  handled = [];
}

abbrev pub goto : ℕ → Pc → Pool → Pool
goto i p s = record s { pc = update s.pc i p }

-- pthread_mutex_lock, which can go on when nobody owns the mutex
abbrev pub lock : ℕ → Pool → Option Pool
lock i s = elim s.owner [
  | none ↦ some (record s { owner = some i; pc = update s.pc i testing })
  | some j ↦ none
]

-- Behind the inner while: the thread ends, or takes the first job; it leaves the mutex.
abbrev pub leave_loop : ℕ → Pool → Option Pool
leave_loop i s =
    if s.shutdown
    then some (record s { owner = none; pc = update s.pc i finished })
    else elim s.msg_recv_queue [
      | [] ↦ none
      | job ∷ rest ↦ some (record s {
        msg_recv_queue = rest;
        recv_msg_queue_count = s.recv_msg_queue_count - 1;
        taken = s.taken ++ job ∷ [];
        owner = none;
        pc = update s.pc i (starting job);
      })
    ]

-- The test of the inner while, and the first statement in it.
abbrev pub test_queue : ℕ → Pool → Option Pool
test_queue i s = elim s.msg_recv_queue [
  | [] ↦
      if s.shutdown
      then leave_loop i s
      else some (record s { ifrunning = update s.ifrunning i true; pc = update s.pc i sleepy })
  | job ∷ rest ↦ leave_loop i s
]

-- The next step of thread `i` from where it stands: none if it cannot go on by itself.
unfoldable pub act : Pc → ℕ → Pool → Option Pool
act absent i s = none
act locking i s = lock i s
act testing i s = test_queue i s
act sleepy i s = some (record s { owner = none; pc = update s.pc i waiting })
act waiting i s = none
act woken i s = lock i s
act (starting job) i s =
    some
      (record s { running_thread_num = s.running_thread_num + 1; pc = update s.pc i (running job) })
act (running job) i s = some (record s {
  running_thread_num = s.running_thread_num - 1;
  handled = s.handled ++ job ∷ [];
  pc = update s.pc i locking;
})
act finished i s = none

-- CThreadPool::inMsgRecvQueueAndSignal up to Call, on a mutex that is free.
unfoldable pub push : ℕ → Pool → Pool
push job s = record s {
  msg_recv_queue = s.msg_recv_queue ++ job ∷ [];
  recv_msg_queue_count = s.recv_msg_queue_count + 1;
  pushed = s.pushed ++ job ∷ [];
  caller = calling;
}

-- CThreadPool::Call: the thread that pthread_cond_signal wakes, if one waits, and the time of the
-- last warning that no thread is free.
unfoldable pub call : ℕ → ℕ → Option ℕ → Pool → Pool
call thread_num currtime chosen s = record s {
  pc = elim chosen [ none ↦ s.pc | some i ↦ update s.pc i woken ];
  last_emg_time =
      if thread_num == s.running_thread_num
      then if ltb 10 (currtime - s.last_emg_time) then currtime else s.last_emg_time
      else s.last_emg_time;
  caller = idle;
}

-- pthread_cond_broadcast on one thread
abbrev pub wake : Pc → Pc
wake waiting = woken
wake p = p

-- CThreadPool::StopAll: the flag is set, and then all threads that wait are woken.
unfoldable pub stop : Pool → Pool
stop s = if s.shutdown then s else record s { shutdown = true; caller = stopping }

unfoldable pub broadcast : Pool → Pool
broadcast s = record s { pc = λ i. wake (s.pc i); caller = joining }

-- The loop of CThreadPool::Create: thread number k is created, or pthread_create fails.
unfoldable pub create_thread : ℕ → Bool → Pool → Pool
create_thread k created s =
    if created
    then record s { pc = update s.pc k locking; caller = creating (suc k) }
    else record s { caller = gave_up }
