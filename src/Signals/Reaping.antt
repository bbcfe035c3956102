-- ===== src/Signals/Reaping.antt =====
-- The children that ngx_process_get_status of nginx/signal/ngx_signal.cxx collects.
use cnginx.Common.{Bool, true, false, ◌≡◌, refl, ◌||◌, some, List, [], ◌∷◌, ◌++◌, All}
use cnginx.Sys.{eintr, echild}
use cnginx.Signals.{
  Waitpid, killed, exited, nobody, failed, Report, exited_on_signal, exited_with_code,
  waitpid_failed, get_status, Process, master, worker, signal_handler, sigchld,
}

-- The answers after which the loop goes on: a child, or an interrupted call.
abbrev pub GoesOn : Waitpid → Type 0
GoesOn (killed pid signal) = Unit {0}
GoesOn (exited pid code) = Unit {0}
GoesOn nobody = ⊥
GoesOn (failed eintr) = Unit {0}
GoesOn (failed e) = ⊥

-- What the log says of the children among the answers, in their order.
abbrev pub children : List Waitpid → List Report
children [] = []
children (killed pid signal ∷ answers) = exited_on_signal pid signal ∷ children answers
children (exited pid code ∷ answers) = exited_with_code pid code ∷ children answers
children (_ ∷ answers) = children answers

abbrev pub has_child : List Waitpid → Bool
has_child [] = false
has_child (killed pid signal ∷ answers) = true
has_child (exited pid code ∷ answers) = true
has_child (_ ∷ answers) = has_child answers

-- What is written of the last answer: an error is, but for ECHILD behind a child.
abbrev pub last_report : Bool → Waitpid → List Report
last_report one nobody = []
last_report true (failed echild) = []
last_report one (failed e) = waitpid_failed e ∷ []
last_report one (killed pid signal) = []
last_report one (exited pid code) = []

-- The answers with which the loop ends.
abbrev pub Ends : Waitpid → Type 0
Ends w = ¬ GoesOn w

abbrev pub is_master : Process → Bool
is_master master = true
is_master worker = false

ends_lem :
    (one : Bool) (last : Waitpid) (rest : List Waitpid)
    → Ends last
    → get_status one (last ∷ rest) ≡ some (last_report one last)
unfolding get_status
ends_lem one (killed pid signal) rest h = absurd (h tt)
ends_lem one (exited pid code) rest h = absurd (h tt)
ends_lem one nobody rest h = refl
ends_lem one (failed eintr) rest h = absurd (h tt)
ends_lem true (failed echild) rest h = refl
ends_lem false (failed echild) rest h = refl
ends_lem true (failed e) rest h = refl
ends_lem false (failed e) rest h = refl

or_true : (b : Bool) → b || true ≡ true
or_true true = refl
or_true false = refl

get_status_from :
    (one : Bool) (before : List Waitpid) (last : Waitpid) (rest : List Waitpid)
    → All GoesOn before
    → Ends last
    → get_status one (before ++ last ∷ rest)
      ≡ some (children before ++ last_report (one || has_child before) last)
unfolding get_status
get_status_from true [] last rest v h = ends_lem true last rest h
get_status_from false [] last rest v h = ends_lem false last rest h
get_status_from one (killed pid signal ∷ before) last rest (v, vs) h =
    rw (get_status_from true before last rest vs h, or_true one) refl
get_status_from one (exited pid code ∷ before) last rest (v, vs) h =
    rw (get_status_from true before last rest vs h, or_true one) refl
get_status_from one (nobody ∷ before) last rest (v, vs) h = elim v [ ]
get_status_from one (failed eintr ∷ before) last rest (v, vs) h =
    get_status_from one before last rest vs h
get_status_from one (failed e ∷ before) last rest (v, vs) h = elim v [ ]

-- On SIGCHLD the handler collects every child that waitpid gives before it has no more to give,
-- interrupted calls aside: one report for each, in the order they come, and one on the error that
-- ends the loop, unless it is ECHILD behind a child. The master's flag ngx_reap is set, a worker's
-- stays as it was.
pub signal_handler_lem :
    (process : Process) (reap : Bool) (before : List Waitpid) (last : Waitpid) (rest : List Waitpid)
    → All GoesOn before
    → Ends last
    → signal_handler process reap sigchld (before ++ last ∷ rest)
      ≡ some (record {
        reap = is_master process || reap;
        reports = children before ++ last_report (has_child before) last;
      })
unfolding signal_handler
signal_handler_lem master reap before last rest v h =
    rw (signal_handler, get_status_from false before last rest v h) refl
signal_handler_lem worker reap before last rest v h =
    rw (signal_handler, get_status_from false before last rest v h) refl
