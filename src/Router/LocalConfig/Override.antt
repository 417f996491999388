-- ===== src/Router/LocalConfig/Override.antt =====
-- What an application's own configuration changes.
use shiny_server.Prelude.{
  ◌≡◌, refl, ap, ◌∙◌, true, false, Option, ◌⊎◌, inl, inr, [], ◌∷◌, none, some, if◌then◌else◌, Text,
  codes, text_eq, text_eq_iff, walked_eq, ◌>>=◌, is_some, arith,
}
use shiny_server.Prelude.Sets.{contains}
use shiny_server.Config.Schema.Results as Results
use shiny_server.Router.AppSettings.{Settings, Scope, Application, number, parse_application}
use shiny_server.Router.AppSettings.Given.{parse_application-HasMode}
use shiny_server.Router.Sequence.{launch, resolved}
use shiny_server.Router.LocalConfig.{
  Js, value, object, Fields, no_field, field, get, put, put_in, or_undefined, get_in, has_in,
  ensure, merge, merge_one, AppSpec, pick, with_settings, allowed, add_local_config, leaves,
  settings_of, merged_or_fail, over, with_config,
}

module _ {F : Type 0} where
  pub get-put :
      (j k : Text) (v : Js F) (fs : Fields F)
      → get k (put j v fs) ≡ (if text_eq j k then some v else get k fs)
  unfolding get put
  get-put j k v no_field = refl
  get-put j k v (field i w fs) =
      ground (arith, get-put j k v fs, text_eq_iff i j, text_eq_iff i k, text_eq_iff j k)

  -- The fields with those of a flat object over them, in turn.
  pub put_all : Settings F → Fields F → Fields F
  unfolding put
  put_all [] fs = fs
  put_all ((k, v) ∷ s) fs = put_all s (put k (value v) fs)

  merge-leaves :
      (s : Settings F) (fs : Fields F) → merge (leaves s) (object fs) ≡ some (object (put_all s fs))
  unfolding leaves put_all merge put_in
  merge-leaves [] fs = refl
  merge-leaves ((k, v) ∷ s) fs = merge-leaves s (put k (value v) fs)

  ensure-there :
      (k : Text) (gs : Fields F) (v : Js F)
      → get k gs ≡ some v
      → ensure k (object gs) ≡ some (object gs)
  unfolding ensure has_in
  ensure-there k gs v there =
      ap (λ o. if is_some o then some (object gs) else put_in k (object no_field) (object gs)) there

  get_in-there :
      (k : Text) (gs : Fields F) (v : Js F) → get k gs ≡ some v → get_in k (object gs) ≡ v
  unfolding get_in or_undefined
  get_in-there k gs v there = ap or_undefined there

  merge_one_step :
      (k : Text) (fs : Fields F) (t : Js F)
      → merge_one k (object fs) t
        ≡ (ensure k t >>= λ u. merge fs (get_in k u) >>= λ g. put_in k g u)
  unfolding merge_one
  merge_one_step k fs t = refl

  merge_step :
      (k : Text) (v : Js F) (fs : Fields F) (t : Js F)
      → merge (field k v fs) t ≡ (merge_one k v t >>= merge fs)
  unfolding merge
  merge_step k v fs t = refl

  put_object :
      (k : Text) (v : Js F) (gs : Fields F) → put_in k v (object gs) ≡ some (object (put k v gs))
  unfolding put_in
  put_object k v gs = refl

  -- An object below a key is merged into the one that the target has there.
  merge_one-object :
      (k : Text) (fs ds es gs : Fields F)
      → get k gs ≡ some (object ds)
      → merge fs (object ds) ≡ some (object es)
      → merge_one k (object fs) (object gs) ≡ some (object (put k (object es) gs))
  merge_one-object k fs ds es gs there merged =
      merge_one_step k fs (object gs)
      ∙ ap (λ o. o >>= λ u. merge fs (get_in k u) >>= λ g. put_in k g u)
          (ensure-there k gs (object ds) there)
      ∙ ap (λ v. merge fs v >>= λ g. put_in k g (object gs)) (get_in-there k gs (object ds) there)
      ∙ ap (λ o. o >>= λ g. put_in k g (object gs)) merged
      ∙ put_object k (object es) gs

-- The settings of an application that `parseApplication` has given all its parts.
pub record HasParts {F : Type 0} (gs : Fields F) : Type 0 where
  pub defaults : Fields F
  pub scheduler : Fields F
  pub simple : Fields F
  pub defaults_there : get (codes "appDefaults") gs ≡ some (object defaults)
  pub scheduler_there : get (codes "scheduler") gs ≡ some (object scheduler)
  pub simple_there : get (codes "simple") scheduler ≡ some (object simple)

module _ {F : Type 0} where
  -- The settings with those of the application's own configuration in their place.
  pub overridden : (gs : Fields F) → HasParts gs → Application F → Fields F
  overridden gs h a =
      put (codes "scheduler")
        (object (put (codes "simple") (object (put_all a.simple h.simple)) h.scheduler))
        (put (codes "appDefaults") (object (put_all a.app_defaults h.defaults)) gs)

  pick_all : (a : Application F) → pick allowed (settings_of a) ≡ settings_of a
  unfolding pick settings_of contains
  pick_all a = unfold text_eq in refl

  scheduler_kept :
      (gs : Fields F) (h : HasParts gs) (v : Js F)
      → get (codes "scheduler") (put (codes "appDefaults") v gs) ≡ some (object h.scheduler)
  scheduler_kept gs h v =
      get-put (codes "appDefaults") (codes "scheduler") v gs
      ∙ ap (λ b. if b then some v else get (codes "scheduler") gs) different
      ∙ h.scheduler_there
    where
      different : text_eq (codes "appDefaults") (codes "scheduler") ≡ false
      different = unfold text_eq in refl

  merge_last :
      (k : Text) (v t u : Js F) → merge_one k v t ≡ some u → merge (field k v no_field) t ≡ some u
  merge_last k v t u e =
      merge_step k v no_field t ∙ ap (λ o. o >>= merge no_field) e ∙ unfold merge in refl

  merge-settings :
      (gs : Fields F) (h : HasParts gs) (a : Application F)
      → merge (settings_of a) (object gs) ≡ some (object (overridden gs h a))
  unfolding settings_of overridden
  merge-settings gs h a =
      let scheduler = field (codes "simple") (object (leaves a.simple)) no_field in
      let gs' = put (codes "appDefaults") (object (put_all a.app_defaults h.defaults)) gs in
      let merged = put (codes "simple") (object (put_all a.simple h.simple)) h.scheduler in
      merge_step (codes "appDefaults") (object (leaves a.app_defaults))
        (field (codes "scheduler") (object scheduler) no_field) (object gs)
      ∙ ap (λ o. o >>= merge (field (codes "scheduler") (object scheduler) no_field))
          (merge_one-object (codes "appDefaults") (leaves a.app_defaults) h.defaults
            (put_all a.app_defaults h.defaults) gs h.defaults_there
            (merge-leaves a.app_defaults h.defaults))
      ∙ merge_last (codes "scheduler") (object scheduler) (object gs')
          (object (put (codes "scheduler") (object merged) gs'))
          (merge_one-object (codes "scheduler") scheduler h.scheduler merged gs'
            (scheduler_kept gs h (object (put_all a.app_defaults h.defaults)))
            (merge_last (codes "simple") (object (leaves a.simple)) (object h.scheduler)
              (object merged)
              (merge_one-object (codes "simple") (leaves a.simple) h.simple
                (put_all a.simple h.simple) h.scheduler h.simple_there
                (merge-leaves a.simple h.simple))))

  pick_step :
      (spec : AppSpec F) (a : Application F)
      → add_local_config spec (settings_of a) ≡ (
          merge (pick allowed (settings_of a)) (object spec.settings) >>= λ t.
          some (with_settings spec t))
  unfolding add_local_config settings_of
  pick_step spec a = refl

  stored :
      (spec : AppSpec F) (fs : Fields F)
      → (some (object fs) >>= λ t. some (with_settings spec t))
        ≡ some (record spec { settings = fs })
  unfolding with_settings
  stored spec fs = refl

  add_local_config-merged :
      (spec : AppSpec F) (h : HasParts spec.settings) (a : Application F)
      → add_local_config spec (settings_of a)
        ≡ some (record spec { settings = overridden spec.settings h a })
  add_local_config-merged spec h a =
      pick_step spec a
      ∙ ap (λ fs. merge fs (object spec.settings) >>= λ t. some (with_settings spec t)) (pick_all a)
      ∙ ap (λ o. o >>= λ t. some (with_settings spec t)) (merge-settings spec.settings h a)
      ∙ stored spec (overridden spec.settings h a)

  overridden-other :
      (gs : Fields F) (h : HasParts gs) (a : Application F) (k : Text)
      → text_eq (codes "appDefaults") k ≡ false
      → text_eq (codes "scheduler") k ≡ false
      → get k (overridden gs h a) ≡ get k gs
  unfolding overridden
  overridden-other gs h a k nd ns = ground (
    arith,
    get-put (codes "scheduler") k
        (object (put (codes "simple") (object (put_all a.simple h.simple)) h.scheduler))
        (put (codes "appDefaults") (object (put_all a.app_defaults h.defaults)) gs),
    get-put (codes "appDefaults") k (object (put_all a.app_defaults h.defaults)) gs,
    nd,
    ns,
  )

  limit_put :
      (s : Settings F) (fs : Fields F)
      → s ≡ ((codes "maxRequests", number 100) ∷ [])
      → get (codes "maxRequests") (put_all s fs) ≡ some (value (number 100))
  unfolding put_all
  limit_put s fs e =
      ap (λ t. get (codes "maxRequests") (put_all t fs)) e
      ∙ get-put (codes "maxRequests") (codes "maxRequests") (value (number 100)) fs
      ∙ ap (λ b. if b then some (value (number 100)) else get (codes "maxRequests") fs)
          ((text_eq_iff (codes "maxRequests") (codes "maxRequests")).1 refl)

launched :
    {F : Type 0} (to_upper_case : Text → Text) (spec : AppSpec F) (h : HasParts spec.settings)
    (scope : Scope F) (a : Application F)
    → parse_application to_upper_case scope false ≡ Results.passes a
    → with_config to_upper_case spec (resolved (some scope))
      ≡ resolved (launch (record spec { settings = overridden spec.settings h a }))
unfolding with_config over merged_or_fail
launched to_upper_case spec h scope a e =
    ap (over to_upper_case spec) e ∙ ap merged_or_fail (add_local_config-merged spec h a)

is_some_or_none : {A : Type 0} (o : Option A) → (is_some o ≡ true) ⊎ (o ≡ none)
is_some_or_none none = inr refl
is_some_or_none (some x) = inl refl

-- Where an application's own configuration is accepted, and the application has its default
-- settings and those of a scheduler, the application is launched with the same directory, users,
-- prefix and directory of logs. Of its settings, only the defaults and those of the scheduler
-- change, to the ones of the configuration where it sets them; and either the configuration has
-- the directive simple_scheduler, or it sets the scheduler's limit to 100 requests, whatever the
-- limit was.
pub with_config-overridden :
    {F : Type 0} (to_upper_case : Text → Text) (spec : AppSpec F) (h : HasParts spec.settings)
    (scope : Scope F) (a : Application F) (k : Text)
    → parse_application to_upper_case scope false ≡ Results.passes a
    → text_eq (codes "appDefaults") k ≡ false
    → text_eq (codes "scheduler") k ≡ false
    → (with_config to_upper_case spec (resolved (some scope))
        ≡ resolved (launch (record spec { settings = overridden spec.settings h a })))
      × (get k (overridden spec.settings h a) ≡ get k spec.settings)
      × ((is_some (scope (codes "simple_scheduler")) ≡ true)
          ⊎ (get (codes "maxRequests") (put_all a.simple h.simple) ≡ some (value (number 100))))
with_config-overridden to_upper_case spec h scope a k e nd ns = (
  launched to_upper_case spec h scope a e,
  overridden-other spec.settings h a k nd ns,
  elim (is_some_or_none (scope (codes "simple_scheduler"))) [
    | inl there ↦ inl there
    | inr n ↦ inr (
        limit_put a.simple h.simple ((parse_application-HasMode to_upper_case scope false a e).1 n))
  ],
)
