-- ===== src/Router/Sequence.antt =====
-- lib/core/qutil.js, `forEachPromise_p`, and lib/router/router.js, `getFirstAppSpec_p` and
-- `CompositeRouter`: the first acceptable result, in order.
pub mod First
use shiny_server.Prelude.{
  Bool, true, false, List, [], ◌∷◌, Option, none, some, String, if◌then◌else◌,
}

-- What the iterator's call comes to: a promise that is resolved, rejected or never settled, or an
-- exception.
pub data Call {ℓ} (V : Type ℓ) : Type ℓ where
  resolves : V → Call V
  rejects : String → Call V
  hangs : Call V
  throws : String → Call V

-- The promise that `forEachPromise_p` returns.
pub data Settled {ℓ} (V : Type ℓ) : Type ℓ where
  resolved : V → Settled V
  rejected : String → Settled V
  pending : Settled V

module _ {ℓ κ} {A : Type ℓ} {V : Type κ} (iterator : A → Call V) (accept : V → Bool)
    (default_value : V) where
  -- `tryNext`, from the call of the iterator; `next` is the next `tryNext`.
  unfoldable pub try_next : Call V → Settled V → Settled V
  try_next (resolves v) next = if accept v then resolved v else next
  try_next (rejects err) next = rejected err
  try_next hangs next = pending
  try_next (throws err) next = rejected err

  unfoldable pub for_each_promise : List A → Settled V
  unfolding try_next
  for_each_promise [] = resolved default_value
  for_each_promise (x ∷ xs) = try_next (iterator x) (for_each_promise xs)

-- What a router answers: a falsy value, `true` for a request that is answered, or an AppSpec.
pub data Answer {ℓ} (AppSpec : Type ℓ) : Type ℓ where
  declined : Answer AppSpec
  responded : Answer AppSpec
  launch : AppSpec → Answer AppSpec

unfoldable pub accepts {ℓ} : {AppSpec : Type ℓ} → Answer AppSpec → Bool
accepts declined = false
accepts responded = true
accepts (launch spec) = true

-- A router, as its `getAppSpec_p`.
abbrev pub Router {ℓ κ} : Type ℓ → Type κ → Type (ℓ ⊔ κ)
Router Request AppSpec = Request → Call (Answer AppSpec)

module _ {ℓ κ} {Request : Type ℓ} {AppSpec : Type κ} where
  unfoldable pub get_first_app_spec :
      List (Router Request AppSpec) → Request → Settled (Answer AppSpec)
  unfolding for_each_promise accepts
  get_first_app_spec routers req = for_each_promise (λ r. r req) accepts declined routers

  -- `_.compact` on the routers that are given.
  unfoldable pub compact : List (Option (Router Request AppSpec)) → List (Router Request AppSpec)
  compact [] = []
  compact (none ∷ rs) = compact rs
  compact (some r ∷ rs) = r ∷ compact rs

  unfoldable pub composite_router :
      List (Option (Router Request AppSpec)) → Request → Settled (Answer AppSpec)
  unfolding get_first_app_spec compact
  composite_router routers req = get_first_app_spec (compact routers) req
