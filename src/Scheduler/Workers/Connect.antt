-- ===== src/Scheduler/Workers/Connect.antt =====
-- `connectEndpoint_p`: the sequence of attempts.
use shiny_server.Prelude.{
  ℕ, zero, suc, ◌+◌, ◌*◌, ◌≤◌, ◌<◌, ◌≡◌, inl, inr, Bool, true, false, List, [], ◌∷◌, arith, ltb,
  if◌then◌else◌, All, Option, none, some, Bool-cases,
}

pub record Attempts : Type 0 where
  pub intervals : List ℕ
  pub last_interval : ℕ
  pub elapsed : ℕ

pub data Outcome : Type 0 where
  too_long aborted settled : Outcome
  retry : Attempts → Outcome

unfoldable pub start : Attempts
start = record {
  intervals = 50 ∷ 50 ∷ 100 ∷ 100 ∷ 100 ∷ 100 ∷ 100 ∷ 200 ∷ 200 ∷ 300 ∷ 300 ∷ 300 ∷ [];
  last_interval = 0;
  elapsed = 0;
}

-- `intervals.shift() || maxInterval`: an interval of 0 counts as none.
next_interval : List ℕ → ℕ
next_interval [] = 500
next_interval (zero ∷ is) = 500
next_interval (suc n ∷ is) = suc n

shifted : List ℕ → List ℕ
shifted [] = []
shifted (i ∷ is) = is

-- One call of `attemptToConnect`: whether the promise is pending, and `shouldContinue`.
unfoldable pub attempt_to_connect : ℕ → Bool → Bool → Attempts → Outcome
unfolding next_interval shifted
attempt_to_connect timeout is_pending continues a =
    let elapsed = a.elapsed + a.last_interval in
    if ltb timeout elapsed
    then too_long
    else if is_pending
    then if continues
      then retry (record {
        intervals = shifted a.intervals;
        last_interval = next_interval a.intervals;
        elapsed = elapsed;
      })
      else aborted
    else settled

-- The calls that follow, while nobody answers; `none` means that the rounds ran out.
unfoldable pub attempts : ℕ → ℕ → Attempts → Option Outcome
unfolding attempt_to_connect
attempts timeout zero a = none
attempts timeout (suc rounds) a = elim (attempt_to_connect timeout true true a) [
  | retry b ↦ attempts timeout rounds b
  | too_long ↦ some too_long
  | aborted ↦ some aborted
  | settled ↦ some settled
]

abbrev IsLong : Attempts → Type 0
IsLong a = All (λ i. 50 ≤ i) a.intervals

next_interval-le : (is : List ℕ) → All (λ i. 50 ≤ i) is → 50 ≤ next_interval is
unfolding next_interval
next_interval-le [] h = omega arith
next_interval-le (zero ∷ is) h = omega arith
next_interval-le (suc n ∷ is) h = h.0

shifted-All : (is : List ℕ) → All (λ i. 50 ≤ i) is → All (λ i. 50 ≤ i) (shifted is)
unfolding shifted
shifted-All [] h = tt
shifted-All (i ∷ is) h = h.1

attempts_end :
    (timeout rounds : ℕ) (a : Attempts)
    → IsLong a
    → 50 ≤ a.last_interval
    → a.elapsed ≤ timeout
    → timeout < a.elapsed + 50 * rounds
    → attempts timeout rounds a ≡ some too_long
unfolding attempts
attempts_end timeout zero a l i b h = absurd (omega arith)
attempts_end timeout (suc rounds) a l i b h =
    elim (Bool-cases (ltb timeout (a.elapsed + a.last_interval))) [
      | inl late ↦ rw (attempts, late)
      | inr early ↦
          rw (attempts, early)
            (attempts_end timeout rounds _ (shifted-All a.intervals l)
              (next_interval-le a.intervals l) (ground arith) (ground arith))
    ]

-- While the worker neither answers nor exits, `connectEndpoint_p` gives up with "took too long":
-- after the first attempt it makes at most one for each 50 ms of the timeout, and one more.
pub attempts-too_long :
    (timeout rounds : ℕ)
    → timeout < 50 * rounds
    → attempts timeout (suc rounds) start ≡ some too_long
unfolding attempts start
attempts-too_long timeout rounds h =
    let first : ltb timeout 0 ≡ false = ground arith in
    rw (first, attempts)
      (attempts_end timeout rounds _ (omega arith) (omega arith) (omega arith) (omega arith))
