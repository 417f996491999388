-- ===== src/Worker/Process.antt =====
-- lib/worker/app-worker.ts: the class AppWorker, from the start of its process to its exit.
use shiny_server.Prelude.{
  ℕ, zero, suc, ◌≡◌, refl, ap, sym, ◌∙◌, subst, Bool, true, false, List, [], ◌∷◌, ◌++◌, Option,
  none, some, if◌then◌else◌,
}

pub data Signal : Type 0 where
  sigint sigterm : Signal

-- A call of `process.kill`.
pub data Effect : Type 0 where
  send : Signal → ℕ → Effect

-- An AppWorker: whether its process has exited, the number that the worker reports, the number of
-- the child process, and the timers that are set, by the number that each is to signal.
pub record Process : Type 0 where
  pub exited : Bool
  pub pid : Option ℕ
  pub child : Option ℕ
  pub timers : List ℕ

-- `this.pid || this.$proc.pid`, where neither is 0 if it is there.
unfoldable pub target : Option ℕ → Option ℕ → Option ℕ
target none child = child
target (some zero) child = child
target (some (suc n)) child = some (suc n)

unfoldable pub signal_for : Bool → Signal
signal_for true = sigterm
signal_for false = sigint

-- The signal is sent; a timer is set unless it is forced or the call throws.
unfoldable pub send_to : Bool → Bool → Option ℕ → Process → Process × List Effect
unfolding signal_for
send_to force throws none p = (p, [])
send_to force throws (some zero) p = (p, [])
send_to force true (some (suc n)) p = (p, send (signal_for force) (suc n) ∷ [])
send_to true false (some (suc n)) p = (p, send sigterm (suc n) ∷ [])
send_to false false (some (suc n)) p =
    (record p { timers = suc n ∷ p.timers }, send sigint (suc n) ∷ [])

-- `kill`
unfoldable pub kill : Bool → Bool → Process → Process × List Effect
unfolding send_to target
kill force throws p = if p.exited then (p, []) else send_to force throws (target p.pid p.child) p

-- The timer at an index: its number, and the timers that are left.
unfoldable pub take_timer : ℕ → List ℕ → Option (ℕ × List ℕ)
take_timer i [] = none
take_timer zero (n ∷ ns) = some (n, ns)
take_timer (suc i) (n ∷ ns) = elim (take_timer i ns) [
  | none ↦ none
  | some (k, rest) ↦ some (k, n ∷ rest)
]

unfoldable pub fired : Option (ℕ × List ℕ) → Process → Process × List Effect
fired none p = (p, [])
fired (some (n, ns)) p = (record p { timers = ns }, send sigterm n ∷ [])

-- What happens to a worker: a call of `kill`, the line with its number, a timer, and its exit, upon
-- which the promise clears the timers.
pub data Event : Type 0 where
  killed : Bool → Bool → Event
  reported : ℕ → Event
  timer : ℕ → Event
  exit : Event

unfoldable pub step : Event → Process → Process × List Effect
unfolding kill fired take_timer
step (killed force throws) p = kill force throws p
step (reported n) p = (record p { pid = some n }, [])
step (timer i) p = fired (take_timer i p.timers) p
step exit p = (record p { exited = true; timers = [] }, [])

unfoldable pub run : List Event → Process → Process × List Effect
unfolding step
run [] p = (p, [])
run (e ∷ es) p = let (q, fx) = step e p in let (r, more) = run es q in (r, fx ++ more)

-- A process that has exited, with no timer set.
pub record IsOver (p : Process) : Type 0 where
  over : p.exited ≡ true
  cleared : p.timers ≡ []

step-IsOver : (e : Event) (p : Process) → IsOver p → IsOver (step e p).0 × ((step e p).1 ≡ [])
unfolding step
step-IsOver (killed force throws) p h =
    subst (λ r. IsOver r.0 × (r.1 ≡ []))
      (sym (ap (λ b. if b then (p, []) else send_to force throws (target p.pid p.child) p) h.over))
      (h, refl)
step-IsOver (reported n) p h = (record { over = h.over; cleared = h.cleared }, refl)
step-IsOver (timer i) p h =
    subst (λ r. IsOver r.0 × (r.1 ≡ [])) (sym (ap (λ ts. fired (take_timer i ts) p) h.cleared))
      (h, refl)
step-IsOver exit p h = (record { over = refl; cleared = refl }, refl)

run-IsOver : (es : List Event) (p : Process) → IsOver p → (run es p).1 ≡ []
unfolding run
run-IsOver [] p h = refl
run-IsOver (e ∷ es) p h =
    let (kept, silent) = step-IsOver e p h in
    ap (λ fx. fx ++ (run es (step e p).0).1) silent ∙ run-IsOver es (step e p).0 kept

-- Once the process has exited no signal is sent, whatever calls of `kill`, reports and timers come
-- later: what is sent before the exit is all that is sent.
pub run-silent : (es fs : List Event) (p : Process) → (run (es ++ (exit ∷ fs)) p).1 ≡ (run es p).1
unfolding run
run-silent [] fs p = run-IsOver fs (step exit p).0 (record { over = refl; cleared = refl })
run-silent (e ∷ es) fs p = ap (λ fx. (step e p).1 ++ fx) (run-silent es fs (step e p).0)
