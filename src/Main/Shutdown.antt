-- ===== src/Main/Shutdown.antt =====
-- lib/main.js: gracefulShutdown, lastDitchShutdown and shutdownWithExitCode. That the server has
-- thrown is only logged.
use shiny_server.Prelude.{
  ℕ, ◌≡◌, refl, ap, Bool, true, false, ◌&&◌, not, List, [], ◌∷◌, ◌++◌, ◌==◌, if◌then◌else◌,
}

-- `server.destroy`, `schedulerRegistry.shutdown`, and the timer that calls `process.exit`.
pub data Effect : Type 0 where
  stop_server end_workers exit_later : Effect

pub record State : Type 0 where
  pub exit_code : ℕ
  pub needs_cleanup : Bool
  pub shutting_down : Bool

unfoldable pub started : State
started = record { exit_code = 0; needs_cleanup = true; shutting_down = false }

unfoldable pub graceful_at : Bool → State → State × List Effect
graceful_at false s = (s, [])
graceful_at true s = (
  record s { shutting_down = true; needs_cleanup = false },
  stop_server ∷ end_workers ∷ exit_later ∷ [],
)

unfoldable pub graceful_shutdown : State → State × List Effect
unfolding graceful_at
graceful_shutdown s = graceful_at s.needs_cleanup s

unfoldable pub last_ditch_at : Bool → State → State × List Effect
last_ditch_at false s = (s, [])
last_ditch_at true s = (record s { shutting_down = true }, end_workers ∷ [])

-- `lastDitchShutdown`, which the exit of the process calls with the code it exits with.
unfoldable pub last_ditch_shutdown : ℕ → State → State × List Effect
unfolding last_ditch_at
last_ditch_shutdown code s =
    let coded = record s {
      exit_code = if s.exit_code == 0 && not (code == 0) then code else s.exit_code;
    } in
    last_ditch_at coded.needs_cleanup coded

-- The function that `shutdownWithExitCode` answers.
unfoldable pub shutdown_with_exit_code : ℕ → State → State × List Effect
unfolding graceful_shutdown
shutdown_with_exit_code code s = graceful_shutdown (record s { exit_code = code })

-- Signals and uncaught exceptions, by the codes they exit with, and then the exit of the process
-- with a code.
unfoldable pub run : List ℕ → ℕ → State → State × List Effect
unfolding shutdown_with_exit_code last_ditch_shutdown
run [] code s = last_ditch_shutdown code s
run (signal ∷ signals) code s =
    let first = shutdown_with_exit_code signal s in
    let rest = run signals code first.0 in (rest.0, first.1 ++ rest.1)

abbrev pub cleanup : List ℕ → List Effect
cleanup [] = end_workers ∷ []
cleanup (signal ∷ signals) = stop_server ∷ end_workers ∷ exit_later ∷ []

abbrev pub last_of : ℕ → List ℕ → ℕ
last_of code [] = code
last_of code (signal ∷ signals) = last_of signal signals

-- The exit code that the signals leave, for the timer to exit with.
unfoldable pub signal_all : List ℕ → State → State
unfolding shutdown_with_exit_code
signal_all [] s = s
signal_all (signal ∷ signals) s = signal_all signals (shutdown_with_exit_code signal s).0

run-clean :
    (signals : List ℕ) (code c : ℕ) (down : Bool)
    → (run signals code (record { exit_code = c; needs_cleanup = false; shutting_down = down })).1
      ≡ []
unfolding run shutdown_with_exit_code graceful_shutdown graceful_at last_ditch_shutdown
    last_ditch_at
run-clean [] code c down = refl
run-clean (signal ∷ signals) code c down = run-clean signals code signal down

signal_all-clean :
    (signals : List ℕ) (c : ℕ) (down : Bool)
    → (signal_all signals
        (record { exit_code = c; needs_cleanup = false; shutting_down = down })).exit_code
      ≡ last_of c signals
unfolding signal_all shutdown_with_exit_code graceful_shutdown graceful_at
signal_all-clean [] c down = refl
signal_all-clean (signal ∷ signals) c down = signal_all-clean signals signal down

signal_all-last : (signals : List ℕ) → (signal_all signals started).exit_code ≡ last_of 0 signals
unfolding signal_all started shutdown_with_exit_code graceful_shutdown graceful_at
signal_all-last [] = refl
signal_all-last (signal ∷ signals) = signal_all-clean signals signal true

-- Whatever signals come before the program exits, and with whatever code it exits, the workers are
-- ended once: after the server where a signal has come, and alone where none has. The code that the
-- timer exits with is that of the last signal.
pub run-cleanup :
    (signals : List ℕ) (code : ℕ)
    → ((run signals code started).1 ≡ cleanup signals)
      × ((signal_all signals started).exit_code ≡ last_of 0 signals)
unfolding run started shutdown_with_exit_code graceful_shutdown graceful_at last_ditch_shutdown
    last_ditch_at
run-cleanup [] code = (refl, signal_all-last [])
run-cleanup (signal ∷ signals) code = (
  ap (λ fx. stop_server ∷ end_workers ∷ exit_later ∷ fx) (run-clean signals code signal true),
  signal_all-last (signal ∷ signals),
)
