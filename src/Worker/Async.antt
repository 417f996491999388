-- ===== src/Worker/Async.antt =====
-- Functions that answer a promise, one step after the other.
use shiny_server.Prelude.{◌≡◌, refl, Bool, true, false, String}
use shiny_server.Router.Sequence.{Settled, resolved, rejected, pending}

module _ {ℓ κ} {V : Type ℓ} {W : Type κ} where
  infixl 5 ◌>>=◌
  abbrev pub ◌>>=◌ : Settled V → (V → Settled W) → Settled W
  resolved v >>= next = next v
  rejected err >>= next = rejected err
  pending >>= next = pending

  -- What resolves behind a step has that step resolved.
  pub >>=-eq-resolved :
      (step : Settled V) (next : V → Settled W) {w : W}
      → (step >>= next) ≡ resolved w
      → (v : V) × (step ≡ resolved v) × (next v ≡ resolved w)
  >>=-eq-resolved (resolved v) next e = (v, refl, e)
  >>=-eq-resolved (rejected err) next e = cc e
  >>=-eq-resolved pending next e = cc e

-- `throw` on a condition.
abbrev pub reject_if : Bool → String → Settled (Unit {0})
reject_if false message = resolved tt
reject_if true message = rejected message

module _ {ℓ} {W : Type ℓ} where
  infixl 5 ◌>>◌
  abbrev pub ◌>>◌ : Settled (Unit {0}) → Settled W → Settled W
  step >> next = step >>= λ _. next

  pub >>-eq-resolved :
      (condition : Bool) (message : String) (next : Settled W) {w : W}
      → (reject_if condition message >> next) ≡ resolved w
      → (condition ≡ false) × (next ≡ resolved w)
  >>-eq-resolved false message next e = (refl, e)
  >>-eq-resolved true message next e = cc e

pub resolved_eq {ℓ} : {V : Type ℓ} {a b : V} → resolved a ≡ resolved b → a ≡ b
resolved_eq e = cc e
