-- ===== src/Router/LocalConfig.antt =====
-- lib/config/app-config.js and lib/router/local-config-router.js: the settings of an application
-- with those of its own configuration file over them. The file system and the reading of a file
-- are a parameter: what they come to for an application. None of the settings is null.
pub mod Override
mod Tests
use shiny_server.Prelude.{
  Bool, true, false, ◌||◌, List, [], ◌∷◌, ◌++◌, Option, none, some, if◌then◌else◌, Text, codes,
  text_eq, walked_eq, ◌>>=◌, ◌>>◌, is_some, String,
}
use shiny_server.Prelude.Dict.{lookup, insert, remove}
use shiny_server.Prelude.Sets.{contains}
use shiny_server.Config.Schema.Results as Results
use shiny_server.Config.Schema.Results.{Checked}
use shiny_server.Config.Schema.Apply.{Arg}
use shiny_server.Router.AppSettings.{Settings, Scope, Application, parse_application}
use shiny_server.Router.Sequence.{
  Answer, declined, responded, launch, Settled, resolved, rejected, pending,
}

-- A setting: an object, or a value that is none, with nothing for undefined.
mutual
  pub data Js (F : Type 0) : Type 0 where
    value : Option (Arg F) → Js F
    object : Fields F → Js F

  pub data Fields (F : Type 0) : Type 0 where
    no_field : Fields F
    field : Text → Js F → Fields F → Fields F

module _ {F : Type 0} where
  unfoldable pub get : Text → Fields F → Option (Js F)
  unfolding text_eq
  get k no_field = none
  get k (field j v fs) = let rest = get k fs in if text_eq j k then some v else rest

  unfoldable pub put : Text → Js F → Fields F → Fields F
  unfolding text_eq
  put k v no_field = field k v no_field
  put k v (field j w fs) =
      let rest = put k v fs in if text_eq j k then field j v fs else field j w rest

  -- `target[el] = v`: nothing where it throws, and no effect on a value that is no object.
  unfoldable pub put_in : Text → Js F → Js F → Option (Js F)
  unfolding put
  put_in k v (object fs) = some (object (put k v fs))
  put_in k v (value (some a)) = some (value (some a))
  put_in k v (value none) = none

  unfoldable pub or_undefined : Option (Js F) → Js F
  or_undefined none = value none
  or_undefined (some v) = v

  -- `target[el]`
  unfoldable pub get_in : Text → Js F → Js F
  unfolding get or_undefined
  get_in k (object fs) = or_undefined (get k fs)
  get_in k (value a) = value none

  -- `_.has(target, el)`
  unfoldable pub has_in : Text → Js F → Bool
  unfolding get
  has_in k (object fs) = is_some (get k fs)
  has_in k (value a) = false

  -- The placeholder for an object that the target does not have.
  unfoldable pub ensure : Text → Js F → Option (Js F)
  unfolding has_in put_in
  ensure k t = if has_in k t then some t else put_in k (object no_field) t

unfoldable mutual
  unfolding ensure put_in get_in

  -- `merge`, from an object; nothing where it throws.
  pub merge : {F : Type 0} → Fields F → Js F → Option (Js F)
  merge no_field t = some t
  merge (field el v fs) t = do u ← merge_one el v t; merge fs u

  pub merge_one : {F : Type 0} → Text → Js F → Js F → Option (Js F)
  merge_one el (value a) t = put_in el (value a) t
  merge_one el (object fs) t = do
    u ← ensure el t
    merged ← merge fs (get_in el u)
    put_in el merged u

-- An AppSpec.
pub record AppSpec (F : Type 0) : Type 0 where
  pub app_dir : Text
  pub run_as : List Text
  pub prefix : Text
  pub log_dir : Text
  pub settings : Fields F

abbrev pub allowed : List Text
allowed = codes "appDefaults" ∷ codes "scheduler" ∷ codes "frame_options" ∷ []

module _ {F : Type 0} where
  -- `_.pick`
  unfoldable pub pick : List Text → Fields F → Fields F
  unfolding contains
  pick ks no_field = no_field
  pick ks (field k v fs) = let rest = pick ks fs in if contains k ks then field k v rest else rest

  unfoldable pub with_settings : AppSpec F → Js F → AppSpec F
  with_settings spec (object fs) = record spec { settings = fs }
  with_settings spec (value a) = spec

  -- `addLocalConfig`; nothing where it throws.
  unfoldable pub add_local_config : AppSpec F → Fields F → Option (AppSpec F)
  unfolding merge pick with_settings
  add_local_config base no_field = some base
  add_local_config base (field k v fs) = do
    settings ← merge (pick allowed (field k v fs)) (object base.settings)
    some (with_settings base settings)

  unfoldable pub leaves : Settings F → Fields F
  leaves [] = no_field
  leaves ((k, v) ∷ s) = field k (value v) (leaves s)

  -- What `parseApplication` makes of an empty object.
  unfoldable pub settings_of : Application F → Fields F
  unfolding leaves
  settings_of a = field (codes "appDefaults") (object (leaves a.app_defaults)) (
      field (codes "scheduler")
        (object (field (codes "simple") (object (leaves a.simple)) no_field)) no_field)

module _ {F : Type 0} where
  unfoldable pub merged_or_fail : Option (AppSpec F) → Settled (Answer (AppSpec F))
  merged_or_fail none = rejected "Invalid local app configuration file"
  merged_or_fail (some spec) = resolved (launch spec)

-- The cache of the configurations, by the keys of applications: a scope, or nothing where there is
-- no file.
abbrev pub Cache : Type 0 → Type 0
Cache F = List (Text × Settled (Option (Scope F)))

module _ {F : Type 0} (get_key : AppSpec F → Text) (read : Text → Settled (Option (Scope F))) where
  unfoldable pub cached_or :
      Text
      → Text
      → Option (Settled (Option (Scope F)))
      → Cache F
      → Settled (Option (Scope F)) × Cache F
  unfolding insert
  cached_or key dir (some r) cache = (r, cache)
  cached_or key dir none cache = (read dir, insert key (read dir) cache)

  -- `readConfig_p`: what is read is kept under the key, its failure included.
  unfoldable pub read_config : AppSpec F → Cache F → Settled (Option (Scope F)) × Cache F
  unfolding cached_or lookup
  read_config spec cache = cached_or (get_key spec) spec.app_dir (lookup (get_key spec) cache) cache

-- The listener of `vacantSched`.
unfoldable pub on_vacant : {F : Type 0} → Text → Cache F → Cache F
unfolding remove
on_vacant key cache = remove key cache

module _ {F : Type 0} (to_upper_case : Text → Text) where
  unfoldable pub over : AppSpec F → Checked (Application F) → Settled (Answer (AppSpec F))
  unfolding add_local_config settings_of merged_or_fail
  over spec (Results.throws e) = rejected "Invalid local app configuration file"
  over spec (Results.passes a) = merged_or_fail (add_local_config spec (settings_of a))

  -- What is done with the configuration of an application.
  unfoldable pub with_config : AppSpec F → Settled (Option (Scope F)) → Settled (Answer (AppSpec F))
  unfolding over parse_application
  with_config spec (resolved none) = resolved (launch spec)
  with_config spec (resolved (some scope)) = over spec (parse_application to_upper_case scope false)
  with_config spec (rejected e) = rejected "Invalid local app configuration file"
  with_config spec pending = pending

  -- `getAppSpec_p` of the LocalConfigRouter, from what the inner router comes to.
  unfoldable pub local_app_spec :
      (AppSpec F → Text)
      → (Text → Settled (Option (Scope F)))
      → Bool
      → Settled (Answer (AppSpec F))
      → Cache F
      → Settled (Answer (AppSpec F)) × Cache F
  unfolding with_config read_config
  local_app_spec get_key read true (resolved (launch spec)) cache =
      let (config, kept) = read_config get_key read spec cache in (with_config spec config, kept)
  local_app_spec get_key read allow answer cache = (answer, cache)
