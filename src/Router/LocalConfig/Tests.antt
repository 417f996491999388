-- ===== src/Router/LocalConfig/Tests.antt =====
-- The theorems on the settings of applications at concrete inputs.
use shiny_server.Prelude.{
  ◌≡◌, refl, true, false, [], ◌∷◌, none, some, is_some, ◌⊎◌, Text, codes, text_eq, walked_eq,
}
use shiny_server.Config.Schema.Results.{passes}
use shiny_server.Router.AppSettings.{Scope, Application, number, text, parse_application}
use shiny_server.Router.Sequence.{launch, resolved}
use shiny_server.Router.LocalConfig.{
  value, object, Fields, no_field, field, get, AppSpec, with_config,
}
use shiny_server.Router.LocalConfig.Override.{HasParts, overridden, put_all, with_config-overridden}

-- `toUpperCase` is not called here.
abbrev no_upper : Text → Text
no_upper t = t

-- A configuration that says nothing.
abbrev empty_scope : Scope Text
empty_scope directive = none

abbrev empty_application : Application Text
empty_application = record {
  app_defaults = (codes "logFileMode", text (codes "640")) ∷ [];
  simple = (codes "maxRequests", number 100) ∷ [];
}

empty_accepted : parse_application no_upper empty_scope false ≡ passes empty_application
unfolding parse_application
empty_accepted = refl

abbrev limits : Fields Text
limits = field (codes "maxRequests") (value (number 5)) no_field

abbrev modes : Fields Text
modes = field (codes "logFileMode") (value (text (codes "600"))) no_field

abbrev launched_app : AppSpec Text
launched_app = record {
  app_dir = codes "/srv/app";
  run_as = codes "shiny" ∷ [];
  prefix = codes "/app/";
  log_dir = codes "/var/log";
  settings = field (codes "appDefaults") (object modes) (
      field (codes "scheduler") (object (field (codes "simple") (object limits) no_field))
        no_field);
}

launched_app_parts : HasParts launched_app.settings
unfolding get
launched_app_parts = record {
  defaults = modes;
  scheduler = field (codes "simple") (object limits) no_field;
  simple = limits;
  defaults_there = refl;
  scheduler_there = refl;
  simple_there = refl;
}

with_config-overridden_example :
    (with_config no_upper launched_app (resolved (some empty_scope))
      ≡ resolved (
          launch (record launched_app {
            settings = overridden launched_app.settings launched_app_parts empty_application;
          })))
    × (get (codes "restart") (overridden launched_app.settings launched_app_parts empty_application)
        ≡ get (codes "restart") launched_app.settings)
    × ((is_some (empty_scope (codes "simple_scheduler")) ≡ true)
        ⊎ (get (codes "maxRequests") (put_all empty_application.simple launched_app_parts.simple)
            ≡ some (value (number 100))))
unfolding text_eq
with_config-overridden_example =
    with_config-overridden no_upper launched_app launched_app_parts empty_scope empty_application
      (codes "restart") empty_accepted refl refl
