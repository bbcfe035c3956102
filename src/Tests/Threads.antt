-- ===== src/Tests/Threads.antt =====
-- A pool of one thread: it comes to its wait, a job is pushed, and the thread takes it.
use cnginx.Common.{ℕ, ◌<◌, ◌≡◌, ◌⊎◌, refl, arith, true, some, none, [], ◌∷◌}
use cnginx.Socket.{update}
use cnginx.ThreadPool.{
  Pool, new_pool, goto, act, push, call, create_thread, creating, idle, calling, locking, testing,
  sleepy, waiting, woken, starting,
}
use cnginx.ThreadPool.Steps.{Step, moves, creates, returns, pushes, signals, Reach, here, later}
use cnginx.ThreadPool.Jobs.{Accounted, Reach-Accounted}
use cnginx.ThreadPool.Attended.{Attended, Reach-Attended}
use cnginx.ThreadPool.Stop.{Forgotten, stop_can_miss}

abbrev created : Pool
created = record new_pool { pc = update new_pool.pc 0 locking; caller = creating 1 }

abbrev at_test : Pool
at_test = record created { owner = some 0; pc = update created.pc 0 testing }

abbrev before_wait : Pool
before_wait = record at_test {
  ifrunning = update at_test.ifrunning 0 true;
  pc = update at_test.pc 0 sleepy;
}

-- Create has returned, and the thread owns the mutex still.
abbrev returned : Pool
returned = record before_wait { caller = idle }

abbrev in_wait : Pool
in_wait = record returned { owner = none; pc = update returned.pc 0 waiting }

abbrev with_job : Pool
with_job = record in_wait {
  msg_recv_queue = 7 ∷ [];
  recv_msg_queue_count = 1;
  pushed = 7 ∷ [];
  caller = calling;
}

abbrev signalled : Pool
signalled = record with_job { pc = update with_job.pc 0 woken; caller = idle }

abbrev at_test_again : Pool
at_test_again = record signalled { owner = some 0; pc = update signalled.pc 0 testing }

abbrev with_thread : Pool
with_thread = record at_test_again {
  msg_recv_queue = [];
  recv_msg_queue_count = 0;
  taken = 7 ∷ [];
  owner = none;
  pc = update at_test_again.pc 0 (starting 7);
}

all_run : (i : ℕ) → i < 1 → before_wait.ifrunning i ≡ true
all_run i h = ground arith

to_return : Reach 1 new_pool returned
unfolding act create_thread
to_return =
    later
      (later
        (later (later here (creates 0 true refl (omega arith) refl)) (moves 0 (omega arith) refl))
        (moves 0 (omega arith) refl))
      (returns refl all_run refl)

to_signal : Reach 1 new_pool signalled
unfolding act push call
to_signal =
    later (later (later to_return (moves 0 (omega arith) refl)) (pushes 7 refl refl refl))
      (signals 0 0 refl (omega arith) refl refl)

to_job : Reach 1 new_pool with_thread
unfolding act
to_job = later (later to_signal (moves 0 (omega arith) refl)) (moves 0 (omega arith) refl)

Reach-Accounted_example : Accounted 1 with_thread
Reach-Accounted_example = Reach-Accounted 1 with_thread to_job

Reach-Attended_example : Attended 1 signalled
Reach-Attended_example = Reach-Attended 1 signalled (omega arith) to_signal

stop_can_miss_example :
    (t : Pool) × Reach 1 new_pool t
    × Forgotten t 0
    × ((u : Pool) → Step 1 t u → Forgotten u 0 ⊎ (u ≡ goto 0 woken t))
stop_can_miss_example = stop_can_miss 1 0 returned to_return (omega arith) refl refl refl
