-- ===== src/Config/Schema/Results.antt =====
-- The errors that lib/config/schema.js, lib/router/config-router.js and
-- lib/router/config-router-util.js throw, and results that may be such an error.
use shiny_server.Prelude.{◌≡◌, refl, Bool, true, false, Text}

-- The kinds of Error; `no_parameter` and those beside it are what the language throws where a parameter,
-- an array or a text is taken for granted.
pub data Error : Type 0 where
  unknown_directive : Text → Error
  missing_at names_not_unique required_after_others optional_after_vararg two_varargs : Error
  invalid_specification default_of_required : Error
  unknown_type : Text → Error
  bad_value : Text → Error
  misplaced too_few_arguments too_many_arguments too_many_times : Error
  exclusive : Text → Error
  not_octal invalid_url invalid_frame_options : Error
  unknown_protocol : Text → Error
  no_parameter no_array no_list no_text : Error
  no_listen invalid_port invalid_address no_zones : Error
  conflict : Text → Error
  no_hosting inherited_app_dir no_users no_log_dir enabled_argument no_group unexpected_node : Error
  not_run_as not_root port_denied failed_assertion deprecated : Error

-- The value of a function that may throw.
pub data Checked {ℓ} (V : Type ℓ) : Type ℓ where
  throws : Error → Checked V
  passes : V → Checked V

pub passes_is {ℓ} : {A : Type ℓ} (a b : A) → passes a ≡ passes b → a ≡ b
passes_is a b e = cc e

module _ {ℓ κ} {V : Type ℓ} {W : Type κ} where
  infixl 5 ◌>>=◌
  abbrev pub ◌>>=◌ : Checked V → (V → Checked W) → Checked W
  throws fault >>= next = throws fault
  passes v >>= next = next v

  -- What passes behind a step has passed that step.
  pub >>=-eq-passes :
      (step : Checked V) (next : V → Checked W) {w : W}
      → (step >>= next) ≡ passes w
      → (v : V) × (step ≡ passes v) × (next v ≡ passes w)
  >>=-eq-passes (throws fault) next e = cc e
  >>=-eq-passes (passes v) next e = (v, refl, e)

-- `throw` on a condition.
abbrev pub fail_if : Bool → Error → Checked (Unit {0})
fail_if false fault = passes tt
fail_if true fault = throws fault

module _ {ℓ} {W : Type ℓ} where
  infixl 5 ◌>>◌
  abbrev pub ◌>>◌ : Checked (Unit {0}) → Checked W → Checked W
  step >> next = step >>= λ _. next

  pub >>-eq-passes :
      (condition : Bool) (fault : Error) (next : Checked W) {w : W}
      → (fail_if condition fault >> next) ≡ passes w
      → (condition ≡ false) × (next ≡ passes w)
  >>-eq-passes false fault next e = (refl, e)
  >>-eq-passes true fault next e = cc e
