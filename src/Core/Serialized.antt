-- ===== src/Core/Serialized.antt =====
-- lib/core/qutil.js: serialized, which lets a function that returns a promise run once at a time. A
-- call is a number, and which calls the function throws on is a parameter; on the others it returns
-- a promise, and it does not call the wrapped function before it returns. A callback of a promise
-- that is settled runs by itself, at any time after that and in any order; between two of them
-- there may be calls from elsewhere.
pub mod Once
use shiny_server.Prelude.{
  ℕ, zero, suc, ◌+◌, ◌≡◌, refl, sym, ap, ◌∙◌, subst, Bool, true, false, List, [], ◌∷◌, ◌++◌, Option,
  none, some, length, length-append, arith, ◌==◌, if◌then◌else◌, Bool-cases, inl, inr,
}

-- `currentPromise`: null, the promise of a call that is pending, or one that is settled and whose
-- callback that sets `currentPromise` to null has not run.
pub data Current : Type 0 where
  idle : Current
  running over : ℕ → Current

-- The calls that wait for the pending promise, those whose callback is to be run, and, of the calls
-- of the function, those that have begun a run, those on which it threw, and how many runs are settled.
pub record State : Type 0 where
  pub current : Current
  pub waiting : List ℕ
  pub queued : List ℕ
  pub started : List ℕ
  pub thrown : List ℕ
  pub ended : ℕ

unfoldable pub fresh : State
fresh = record { current = idle; waiting = []; queued = []; started = []; thrown = []; ended = 0 }

-- The call of the function: where it throws, `currentPromise` stays null.
unfoldable pub begin : Bool → ℕ → State → State
begin true c s = record s { thrown = s.thrown ++ (c ∷ []) }
begin false c s = record s { current = running c; started = s.started ++ (c ∷ []) }

unfoldable pub call_at : (ℕ → Bool) → Current → ℕ → State → State
unfolding begin
call_at throws idle c s = begin (throws c) c s
call_at throws (running d) c s = record s { waiting = s.waiting ++ (c ∷ []) }
call_at throws (over d) c s = record s { queued = s.queued ++ (c ∷ []) }

-- `wrapped`
unfoldable pub call : (ℕ → Bool) → ℕ → State → State
unfolding call_at
call throws c s = call_at throws s.current c s

-- The pending promise is settled.
unfoldable pub settle_at : Current → State → State
settle_at (running c) s = record s {
  current = over c;
  waiting = [];
  queued = s.queued ++ s.waiting;
  ended = suc s.ended;
}
settle_at idle s = s
settle_at (over c) s = s

unfoldable pub settle : State → State
unfolding settle_at
settle s = settle_at s.current s

-- The callback that sets `currentPromise` to null, which runs once for each promise.
unfoldable pub reset_at : Current → State → State
reset_at (over c) s = record s { current = idle }
reset_at idle s = s
reset_at (running c) s = s

unfoldable pub reset : State → State
unfolding reset_at
reset s = reset_at s.current s

unfoldable pub keep_first : ℕ → Option (ℕ × List ℕ) → Option (ℕ × List ℕ)
keep_first c none = none
keep_first c (some (d, ds)) = some (d, c ∷ ds)

-- The element at an index, and the others.
unfoldable pub take_at : ℕ → List ℕ → Option (ℕ × List ℕ)
unfolding keep_first
take_at i [] = none
take_at zero (c ∷ cs) = some (c, cs)
take_at (suc i) (c ∷ cs) = keep_first c (take_at i cs)

unfoldable pub retry_at : (ℕ → Bool) → Option (ℕ × List ℕ) → State → State
unfolding call
retry_at throws none s = s
retry_at throws (some (c, cs)) s = call throws c (record s { queued = cs })

-- The callback of a call that has waited: `wrapped` is called again.
unfoldable pub retry : (ℕ → Bool) → ℕ → State → State
unfolding retry_at take_at
retry throws i s = retry_at throws (take_at i s.queued) s

pub data Event : Type 0 where
  called retried : ℕ → Event
  settled cleared : Event

unfoldable pub step : (ℕ → Bool) → Event → State → State
unfolding call retry settle reset
step throws (called c) s = call throws c s
step throws (retried i) s = retry throws i s
step throws settled s = settle s
step throws cleared s = reset s

unfoldable pub run : (ℕ → Bool) → List Event → State → State
unfolding step
run throws [] s = s
run throws (e ∷ es) s = run throws es (step throws e s)
