-- ===== src/Router/Tests.antt =====
-- The theorems on the routers at concrete inputs, with a small file system.
use shiny_server.Prelude.{
  ◌<◌, ◌≡◌, refl, true, false, List, [], ◌∷◌, ◌++◌, Option, none, if◌then◌else◌, codes, Text,
  text_eq, arith,
}
use shiny_server.Router.Paths.{Candidate}
use shiny_server.Router.Sequence.{resolves, resolved, for_each_promise}
use shiny_server.Router.Sequence.First.{IsFirst, for_each_promise-IsFirst}
use shiny_server.Router.AppDir.{listed, FileSystem, Found, find_shiny_dir, shiny}
use shiny_server.Router.AppDir.Nearest.{IsNearest, find_shiny_dir-IsNearest}
use shiny_server.Router.Directory.{DirectoryRouter, create, AppSpec, launch, get_app_spec}
use shiny_server.Router.Directory.Launch.{IsServed, get_app_spec-IsServed}
use shiny_server.Router.RunAs.{home_user, replace_home}
use shiny_server.Router.RunAs.HomeUser.{occurrences, replace_home-hangs}

abbrev url : Text
url = codes "/apps//./one/"

abbrev url_dirs : List Candidate
url_dirs =
    record { path = []; raw_path = [] }
    ∷ record { path = codes "apps"; raw_path = codes "/apps" }
    ∷ record { path = codes "apps/one"; raw_path = codes "/apps//./one" }
    ∷ []

for_each_promise-IsFirst_example :
    IsFirst
      (λ b. resolves b)
      (λ b. b)
      false
      (false ∷ true ∷ [])
      (for_each_promise (λ b. resolves b) (λ b. b) false (false ∷ true ∷ []))
for_each_promise-IsFirst_example =
    for_each_promise-IsFirst (λ b. resolves b) (λ b. b) false (false ∷ true ∷ [])

abbrev joined : Text → Text → Text
joined a b = a ++ (b'/' ∷ b)

-- `/srv/apps/one` holds an app, `/srv` and `/srv/apps` hold none.
abbrev a_file_system : FileSystem
a_file_system = record {
  exists = λ t. true;
  readdir =
      λ t. if text_eq t (codes "/srv/apps/one") then listed (codes "App.R" ∷ []) else listed [];
}

find_shiny_dir-IsNearest_example :
    (o : Option Found) × (find_shiny_dir a_file_system joined (codes "/srv") url_dirs ≡ resolved o)
    × IsNearest a_file_system joined (codes "/srv") url_dirs o
find_shiny_dir-IsNearest_example =
    find_shiny_dir-IsNearest a_file_system joined (codes "/srv") url_dirs

abbrev a_router : DirectoryRouter
a_router = create (codes "/srv") (codes "shiny" ∷ []) (codes "/users/") none

abbrev a_spec : AppSpec
a_spec = record {
  app_dir = codes "/srv/apps/one";
  run_as = codes "shiny" ∷ [];
  prefix = codes "/users/apps/one";
  mode = shiny;
}

launched :
    get_app_spec a_file_system joined (λ t. t) a_router (codes "/users/apps/one/page") []
    ≡ resolved (launch a_spec)
unfolding get_app_spec text_eq create
launched = refl

get_app_spec-IsServed_example :
    IsServed a_file_system joined (λ t. t) a_router (codes "/users/apps/one/page") [] a_spec
get_app_spec-IsServed_example =
    get_app_spec-IsServed a_file_system joined (λ t. t) a_router (codes "/users/apps/one/page") []
      a_spec launched

home_occurs : 0 < occurrences (home_user ∷ [])
unfolding text_eq
home_occurs = omega arith

replace_home-hangs_example : replace_home 1000 home_user (home_user ∷ []) ≡ none
replace_home-hangs_example = replace_home-hangs 1000 (home_user ∷ []) home_occurs
