-- ===== src/Signals.antt =====
-- nginx/signal/ngx_signal.cxx: the table of signals, the registration of the handlers, the handler,
-- and how it collects the children that have ended. What sigaction() and waitpid() answer comes as
-- a list, one answer for each call.
pub mod Reaping
use cnginx.Common.{ℕ, Bool, true, false, Option, none, some, List, [], ◌∷◌, ◌++◌, if◌then◌else◌}
use cnginx.Sys.{Errno, eintr, echild}

pub data Signo : Type 0 where
  sighup sigint sigterm sigchld sigquit sigio sigsys : Signo
  other_signal : ℕ → Signo

-- An entry of signals[], with whether its handler is ngx_signal_handler; the mark at the table's
-- end is the end of the list.
pub record Signal : Type 0 where
  pub signo : Signo
  pub handled : Bool

abbrev pub signals : List Signal
signals =
    record { signo = sighup; handled = true }
    ∷ record { signo = sigint; handled = true }
    ∷ record { signo = sigterm; handled = true }
    ∷ record { signo = sigchld; handled = true }
    ∷ record { signo = sigquit; handled = true }
    ∷ record { signo = sigio; handled = true }
    ∷ record { signo = sigsys; handled = false }
    ∷ []

-- What the process does on a signal after sigaction: ngx_signal_handler, or SIG_IGN.
pub data Action : Type 0 where
  handler ignore : Signo → Action

-- The loop of ngx_init_signals: what has been set, and whether the value returned is 0. A call of
-- sigaction for which the list has no answer fails.
unfoldable pub sigaction_loop : List Signal → List Bool → List Action × Bool
sigaction_loop [] answers = ([], true)
sigaction_loop (s ∷ ss) [] = ([], false)
sigaction_loop (s ∷ ss) (false ∷ answers) = ([], false)
sigaction_loop (s ∷ ss) (true ∷ answers) =
    let (set, ok) = sigaction_loop ss answers in
    ((if s.handled then handler s.signo else ignore s.signo) ∷ set, ok)

unfoldable pub init_signals : List Bool → List Action × Bool
unfolding sigaction_loop
init_signals answers = sigaction_loop signals answers

-- One answer of waitpid(-1, &status, WNOHANG): a child that a signal ended, a child that exited, 0,
-- or -1.
pub data Waitpid : Type 0 where
  killed : ℕ → ℕ → Waitpid
  exited : ℕ → ℕ → Waitpid
  nobody : Waitpid
  failed : Errno → Waitpid

-- The lines that are written to the log: with the child's pid and the signal or the code, or with
-- the error of waitpid.
pub data Report : Type 0 where
  exited_on_signal : ℕ → ℕ → Report
  exited_with_code : ℕ → ℕ → Report
  waitpid_failed : Errno → Report

-- The loop of ngx_process_get_status with its variable `one`. `none` means that the answers ran out
-- in the loop.
unfoldable pub get_status : Bool → List Waitpid → Option (List Report)
get_status one [] = none
get_status one (nobody ∷ answers) = some []
get_status one (failed eintr ∷ answers) = get_status one answers
get_status true (failed echild ∷ answers) = some []
get_status false (failed echild ∷ answers) = some (waitpid_failed echild ∷ [])
get_status one (failed e ∷ answers) = some (waitpid_failed e ∷ [])
get_status one (killed pid signal ∷ answers) = elim (get_status true answers) [
  | none ↦ none
  | some reports ↦ some (exited_on_signal pid signal ∷ reports)
]
get_status one (exited pid code ∷ answers) = elim (get_status true answers) [
  | none ↦ none
  | some reports ↦ some (exited_with_code pid code ∷ reports)
]

-- ngx_process
pub data Process : Type 0 where
  master worker : Process

-- What the handler does: the flag ngx_reap, and the reports behind the line on the signal itself.
pub record Handled : Type 0 where
  pub reap : Bool
  pub reports : List Report

-- ngx_signal_handler
unfoldable pub signal_handler : Process → Bool → Signo → List Waitpid → Option Handled
unfolding get_status
signal_handler master reap sigchld answers = elim (get_status false answers) [
  | none ↦ none
  | some reports ↦ some (record { reap = true; reports = reports })
]
signal_handler worker reap sigchld answers = elim (get_status false answers) [
  | none ↦ none
  | some reports ↦ some (record { reap = reap; reports = reports })
]
signal_handler process reap _ answers = some (record { reap = reap; reports = [] })
