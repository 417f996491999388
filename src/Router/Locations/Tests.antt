-- ===== src/Router/Locations/Tests.antt =====
-- The theorem on a location with one application at a concrete input.
use shiny_server.Prelude.{true, [], ◌∷◌, Text, codes}
use shiny_server.Router.AppDir.{Listing, listed}
use shiny_server.Router.LocalConfig.{no_field}
use shiny_server.Router.Locations.{Request, single_app_router, single_app}
use shiny_server.Router.Locations.Redirects.{Answers, single_app_router-Answers}

abbrev without_slash : Request
without_slash = record {
  url = codes "/app?x=1";
  pathname = codes "/app";
  search = codes "?x=1";
  is_http = true;
}

abbrev an_app : Text → Listing
an_app dir = listed (codes "app.R" ∷ [])

single_app_router-Answers_example :
    Answers
      (single_app_router {F = Text} an_app
        (codes "/srv/app")
        (codes "shiny" ∷ [])
        (codes "/app/")
        (codes "/var/log")
        no_field)
      (single_app
        (codes "/srv/app")
        (codes "shiny" ∷ [])
        (codes "/app/")
        (codes "/var/log")
        no_field)
      without_slash
      (single_app_router an_app
        (codes "/srv/app")
        (codes "shiny" ∷ [])
        (codes "/app/")
        (codes "/var/log")
        no_field
        without_slash)
single_app_router-Answers_example =
    single_app_router-Answers an_app (codes "/srv/app") (codes "shiny" ∷ []) (codes "/app/")
      (codes "/var/log") no_field without_slash
