-- ===== src/Prelude/Options.antt =====
-- Chains of fallible steps: nothing stands for an exception.

use mathlib.Core.Path.{◌≡◌}
use mathlib.Core.Bool.{Bool, true, false}
use mathlib.Core.Option.{Option, none, some}

module _ {ℓ κ} {V : Type ℓ} {W : Type κ} where
  infixl 5 ◌>>=◌
  abbrev pub ◌>>=◌ : Option V → (V → Option W) → Option W
  none >>= next = none
  some v >>= next = next v

-- An assertion.
abbrev pub guard : Bool → Option (Unit {0})
guard false = none
guard true = some tt

module _ {ℓ} {W : Type ℓ} where
  infixl 5 ◌>>◌
  abbrev pub ◌>>◌ : Option (Unit {0}) → Option W → Option W
  step >> next = step >>= λ _. next

abbrev pub is_some {ℓ} : {A : Type ℓ} → Option A → Bool
is_some none = false
is_some (some a) = true

pub some_is {ℓ} : {A : Type ℓ} (a b : A) → some a ≡ some b → a ≡ b
some_is a b e = cc e
