-- ===== src/Startup/Working.antt =====
-- What becomes of the processes that the master starts (nginx/proc/ngx_process_cycle.cxx).
use mathlib.Core.Option.{some-injective, none-ne-some}
use cnginx.Epoll.{epoll_oper_event}
use cnginx.Common.{
  ℕ, zero, suc, ◌+◌, ◌≡◌, ◌⊎◌, inl, inr, refl, sym, ◌∙◌, arith, subst, Bool, true, false,
  Bool-cases, Option-cases, some, List, [], ◌∷◌, ◌++◌, length, map, append_assoc, append-nil,
}
use cnginx.Common.Int.{ℤ, pos}
use cnginx.Common.Memory.{Bytes}
use cnginx.Conf.{ConfItem, get_int_default}
use cnginx.Events.{epoll_init, listen_loop}
use cnginx.Ports.{Settings, ListeningSocket}
use cnginx.Signals.{master, worker}
use cnginx.Socket.{Socket}
use cnginx.Socket.Blank.{AllBlank}
use cnginx.Socket.Ownership.{IsEmpty}
use cnginx.System.Framed.{Framed}
use cnginx.System.Isolation.{AtStart}
use cnginx.System.Starting.{begin, epoll_init-AtStart}
use cnginx.Startup.{Proc, Fork, fork_failed, in_child, in_parent, initialize_subproc}
use cnginx.Startup.Main.{
  Answers, Fate, returns, exits, suspends, waits, new_socket, worker_begins, start_worker_processes,
  blocked_signals, thread_count_text,
}

new_socket-IsEmpty : (t : Settings) → IsEmpty (new_socket t)
new_socket-IsEmpty t = record { no_conns = refl; no_free = refl; no_recycling = refl; count = refl }

new_socket-AllBlank : (t : Settings) → AllBlank (new_socket t)
new_socket-AllBlank t = record {
  conns = λ p. record { word = omega arith; size = refl; no_reading = refl; no_sending = refl };
  no_replies = refl;
}

-- The worker is ready for its clients, on all the listening sockets.
pub record Ready (fds : List ℕ) (sock : Socket) (used : List ℕ) : Type 0 where
  pub at_start : AtStart (begin sock)
  pub framed : Framed (begin sock).worker
  pub all_ports : length used ≡ length fds

granted-Ready :
    (fds : List ℕ) (t : Settings) {sock : Socket} {used : List ℕ}
    → epoll_init fds true (new_socket t) ≡ some (sock, used)
    → Ready fds sock used
granted-Ready fds t r =
    let (u, xs, runs, start, framed, accepts, n) =
      epoll_init-AtStart fds (new_socket t) (new_socket-IsEmpty t) (new_socket-AllBlank t) in
    subst (λ (o : Socket × List ℕ). Ready fds o.0 o.1) (some-injective _ _ (sym runs ∙ r))
      (record { at_start = start; framed = framed; all_ports = n })

epoll_init-Ready :
    (fds : List ℕ) (ctl_ok : Bool) (t : Settings) {sock : Socket} {used : List ℕ}
    → epoll_init fds ctl_ok (new_socket t) ≡ some (sock, used)
    → Ready fds sock used
unfolding epoll_init listen_loop epoll_oper_event
epoll_init-Ready fds true t r = granted-Ready fds t r
epoll_init-Ready [] false t r = granted-Ready [] t r
epoll_init-Ready (fd ∷ fds) false t r = absurd (none-ne-some _ r)

fork_cases :
    (f : Fork)
    → (f ≡ fork_failed) ⊎ ((pid : ℕ) × (f ≡ in_child pid)) ⊎ ((pid : ℕ) × (f ≡ in_parent pid))
fork_cases fork_failed = inl refl
fork_cases (in_child pid) = inr (inl (pid, refl))
fork_cases (in_parent pid) = inr (inr (pid, refl))

-- The pids that the master gets for the workers from the number `i` on.
abbrev pub children : (ℕ → Fork) → ℕ → ℕ → List ℕ
children forks zero i = []
children forks (suc rounds) i = elim (forks i) [
  | fork_failed ↦ children forks rounds (i + 1)
  | in_child pid ↦ []
  | in_parent pid ↦ pid ∷ children forks rounds (i + 1)
]

abbrev pub fds_of : List ListeningSocket → List ℕ
fds_of listening = map (λ (l : ListeningSocket). l.fd) listening

module _ (atoi : Bytes → ℤ) (print_d : ℕ → Bytes) (a : Answers) (conf : List ConfItem)
    (t : Settings) (listening : List ListeningSocket) where
  -- A worker waits for events when it is ready, or it has called exit().
  abbrev pub WorkerEnds : ℕ → Fate → Proc → Type 0
  WorkerEnds i (returns code) s = ⊥
  WorkerEnds i (exits code) s = (s.process ≡ worker) × ((code ≡ 254) ⊎ (code ≡ 2))
  WorkerEnds i suspends s = ⊥
  WorkerEnds i (waits inum sock used) s =
      (s.process ≡ worker)
      × (s.blocked ≡ [])
      × (a.forks inum ≡ in_child s.pid)
      × Ready (fds_of listening) sock used

  worker_begins-Ends :
      (i : ℕ) (s : Proc)
      → s.process ≡ worker
      → s.blocked ≡ []
      → a.forks i ≡ in_child s.pid
      → let (fate, u) = worker_begins atoi print_d a conf t listening i s in WorkerEnds i fate u
  unfolding worker_begins
  worker_begins-Ends i s process blocked forked =
      elim (Bool-cases (a.pool_created (get_int_default atoi conf thread_count_text (pos 5)))) [
        | inr no_pool ↦ rw no_pool (process, inl refl)
        | inl pool ↦ elim (Bool-cases (initialize_subproc a.subproc).0) [
          | inr no_threads ↦ rw (pool, no_threads) (process, inl refl)
          | inl threads ↦ elim (Bool-cases (a.epoll_created t.worker_connections)) [
            | inr no_epoll ↦ rw (pool, threads, no_epoll) (process, inr refl)
            | inl epoll ↦
                elim (Option-cases (epoll_init (fds_of listening) a.ctl_ok (new_socket t))) [
                  | inl refused ↦ rw (pool, threads, epoll, refused) (process, inr refl)
                  | inr ((sock, used), r) ↦
                      rw (pool, threads, epoll, r)
                        (process, blocked, forked, epoll_init-Ready (fds_of listening) a.ctl_ok t r)
                ]
          ]
        ]
      ]

  -- The master waits for signals, all others blocked, and its workers are `kids`; or the process is
  -- one of the workers.
  abbrev pub CycleEnds : List ℕ → Fate → Proc → Type 0
  CycleEnds kids (returns code) s = ⊥
  CycleEnds kids (exits code) s = (s.process ≡ worker) × ((code ≡ 254) ⊎ (code ≡ 2))
  CycleEnds kids suspends s =
      (s.process ≡ master) × (s.blocked ≡ blocked_signals) × (s.workers ≡ kids)
  CycleEnds kids (waits inum sock used) s =
      (s.process ≡ worker)
      × (s.blocked ≡ [])
      × (a.forks inum ≡ in_child s.pid)
      × Ready (fds_of listening) sock used

  as_cycle :
      (kids : List ℕ) (i : ℕ) (fate : Fate) (s : Proc) → WorkerEnds i fate s → CycleEnds kids fate s
  as_cycle kids i (returns code) s h = h
  as_cycle kids i (exits code) s h = h
  as_cycle kids i suspends s h = elim h [ ]
  as_cycle kids i (waits inum sock used) s h = h

  -- What the loop adds to the workers known so far.
  pub start-Ends :
      (rounds i : ℕ) (s : Proc)
      → s.process ≡ master
      → s.blocked ≡ blocked_signals
      → let (fate, u) = start_worker_processes atoi print_d a conf t listening rounds i s in
        CycleEnds (s.workers ++ children a.forks rounds i) fate u
  unfolding start_worker_processes
  start-Ends zero i s process blocked = (process, blocked, sym (append-nil s.workers))
  start-Ends (suc rounds) i s process blocked = elim (fork_cases (a.forks i)) [
    | inl failed ↦
        rw (start_worker_processes, children, failed) (start-Ends rounds (i + 1) s process blocked)
    | inr (inl (pid, forked)) ↦
        rw (start_worker_processes, forked)
          (as_cycle _ i _ _ (
            worker_begins-Ends i
              (record s { parent = s.pid; pid = pid; process = worker; blocked = [] }) refl refl
              forked))
    | inr (inr (pid, forked)) ↦
        let grown = record s { workers = s.workers ++ pid ∷ [] } in
        rw (start_worker_processes, children, forked)
          (subst
            (λ kids.
              let (fate, u) =
                start_worker_processes atoi print_d a conf t listening rounds (i + 1) grown in
              CycleEnds kids fate u)
            (append_assoc s.workers (pid ∷ []) (children a.forks rounds (i + 1)))
            (start-Ends rounds (i + 1) grown process blocked))
  ]
