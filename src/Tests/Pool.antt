-- ===== src/Tests/Pool.antt =====
-- The connection pool at concrete inputs.
use mathlib.Core.List.{Nodup}
use mathlib.Core.List.Perm
use cnginx.Common.{ℕ, ◌≡◌, ◌≢◌, refl, arith, true, false, List, [], ◌∷◌, ◌++◌}
use cnginx.Socket.{
  Socket, initconnection, get_connection, in_recy_connect_queue, recy_pass, is_due, recycle,
  new_conn,
}
use cnginx.Socket.Sweep.{select, fails, recy_pass-select}
use cnginx.Socket.Ownership.{Owned, IsEmpty, Step, Reach, here, next, pool_history}
use cnginx.Socket.Sequence.{sequence_of, History, retired_stays_stale}
use cnginx.SocketThreads.{Round, recy_thread}
use cnginx.SocketThreads.Ending.{told_to_stop, recy_thread_lem}
use cnginx.Tests.{empty_pool, in_use}

-- A client comes, and goes.
abbrev filled : Socket
filled = initconnection empty_pool

abbrev taken : Socket
taken = (get_connection filled 9).0

abbrev visitor : ℕ
visitor = (get_connection filled 9).1

abbrev retired : Socket
retired = in_recy_connect_queue 100 visitor taken

pub empty_pool-IsEmpty : IsEmpty empty_pool
empty_pool-IsEmpty = record { no_conns = refl; no_free = refl; no_recycling = refl; count = refl }

visit : Reach filled [] retired []
visit =
    next (next here (Step.takes filled [] 9))
      (Step.retires taken (visitor ∷ []) [] 100 visitor (Perm.refl _))

pool_history_example :
    Owned retired [] × Nodup (retired.freeconnection_list ++ (retired.recyconnection_list ++ []))
pool_history_example = pool_history empty_pool-IsEmpty visit

-- Two entries of the recycling list, of which one has waited long enough.
abbrev waiting : Socket
waiting = record in_use {
  conns = λ p. record new_conn { in_recy_time = p };
  recyconnection_list = 50 ∷ 10 ∷ [];
  totol_recyconnection_n = 2;
}

recy_pass-select_example :
    let t = recy_pass 2 80 false waiting in
    let due = is_due waiting 80 false in
    (t.recyconnection_list ≡ select (fails due) (50 ∷ 10 ∷ []))
    × (t.freeconnection_list ≡ [] ++ select due (50 ∷ 10 ∷ []))
recy_pass-select_example = recy_pass-select 2 80 false waiting (omega arith)

-- The object is retired, recycled and taken again.
abbrev again : Socket
again =
    (get_connection
      (recycle 0 [] (in_recy_connect_queue 100 0 (record in_use { next_address = 2 }))) 9).0

retired_stays_stale_example :
    sequence_of 0 again ≢ sequence_of 0 (record in_use { next_address = 2 })
retired_stays_stale_example =
    retired_stays_stale 0 100 (record in_use { next_address = 2 }) again 2 (omega arith)
      (omega arith) (History.takes 9 (History.recycles 0 [] History.here)) (omega arith)

-- The recycling thread sees the visitor go, and is told to stop.
abbrev last_rounds : List Round
last_rounds =
    record { currtime = 110; stop_in_scan = false; stop_behind = false }
    ∷ record { currtime = 111; stop_in_scan = false; stop_behind = true }
    ∷ []

recy_thread_lem_example :
    let (t, done) = recy_thread last_rounds retired in
    Owned t [] × (done ≡ told_to_stop last_rounds) × (done ≡ true → t.recyconnection_list ≡ [])
recy_thread_lem_example =
    recy_thread_lem last_rounds retired [] (pool_history empty_pool-IsEmpty visit).0
