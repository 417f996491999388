-- ===== src/Core/Tests.antt =====
-- lib/core/fsutil.js and lib/core/qutil.js: the theorems at concrete inputs.
use shiny_server.Prelude.{ℕ, ◌≤◌, ◌<◌, ◌≡◌, ◌⊎◌, ◌↔◌, List, [], ◌∷◌, some, length, ◌==◌}
use shiny_server.Core.Tail.{IsEnd, identity, safe_tail, safe_tail-IsEnd}
use shiny_server.Core.Serialized.{Event, called, retried, settled, cleared, fresh, run}
use shiny_server.Core.Serialized.Once.{calls, AtMostOne, run-AtMostOne}

-- A line, the second byte of a letter, and the line that is cut by four bytes.
abbrev log : List ℕ
log = 97 ∷ 10 ∷ 195 ∷ 164 ∷ 98 ∷ 10 ∷ 99 ∷ []

safe_tail-IsEnd_example :
    IsEnd (safe_tail identity 4 (some log)) log
    × (length (safe_tail identity 4 (some log)) ≤ 4)
    × ((4 < length log) ⊎ ((safe_tail identity 4 (some log) ≡ log) ↔ (97 < 128)))
safe_tail-IsEnd_example = safe_tail-IsEnd 4 97 (10 ∷ 195 ∷ 164 ∷ 98 ∷ 10 ∷ 99 ∷ [])

-- Two calls come while the first runs. When it is settled a third comes before theirs, and one of
-- them throws.
abbrev history : List Event
history =
    called 1
    ∷ called 2
    ∷ called 3
    ∷ settled
    ∷ cleared
    ∷ called 4
    ∷ retried 0
    ∷ settled
    ∷ cleared
    ∷ retried 0
    ∷ retried 0
    ∷ []

run-AtMostOne_example : AtMostOne (calls history) (run (λ c. c == 3) history fresh)
run-AtMostOne_example = run-AtMostOne (λ c. c == 3) history
