-- ===== src/Router/UserDirs/Tests.antt =====
-- lib/router/user-dirs-router.js: the theorems at concrete inputs.
use shiny_server.Prelude.{
  ℕ, ◌≡◌, ◌≢◌, refl, true, false, List, [], ◌∷◌, ◌++◌, Option, none, some, Text, codes, text_eq,
  if◌then◌else◌,
}
use shiny_server.Router.AppDir.{FileSystem, listed}
use shiny_server.Router.RunAs.{home_user}
use shiny_server.Router.UserDirs.{UserDirsRouter, create_users, user_of, get_app_spec}
use shiny_server.Router.UserDirs.Named.{enough}
use shiny_server.Router.UserDirs.Served.{Answers, get_app_spec-Answers}

abbrev joined : Text → Text → Text
joined a b = a ++ (b'/' ∷ b)

-- An app of ann's.
abbrev homes : FileSystem
homes = record {
  exists = λ t. true;
  readdir = λ t.
      if text_eq t (codes "/home/ann/ShinyApps/one")
      then listed (codes "App.R" ∷ [])
      else listed [];
}

abbrev home_of : Text → Option Text
home_of name = if text_eq name (codes "ann") then some (codes "/home/ann") else none

abbrev groups_of : Text → List ℕ
groups_of name = 100 ∷ 7 ∷ []

abbrev people : UserDirsRouter
people = create_users (codes "/people/") (7 ∷ []) (some (home_user ∷ []))

abbrev page : Text
page = codes "/people/ann/one/page"

names_ann : user_of people.prefix page ≡ some (codes "ann")
unfolding user_of create_users
names_ann = refl

ann_is_other : (text_eq (codes "ann") home_user ≡ false) × (text_eq home_user home_user ≡ true)
unfolding text_eq
ann_is_other = (refl, refl)

not_home : user_of people.prefix page ≢ some home_user
not_home = λ e. cc (names_ann, e, ann_is_other.0, ann_is_other.1)

get_app_spec-Answers_example :
    Answers homes joined
      (λ t. t)
      home_of
      groups_of
      people
      page
      []
      (get_app_spec homes joined (λ t. t) home_of groups_of (enough people.run_as) people page [])
get_app_spec-Answers_example =
    get_app_spec-Answers homes joined (λ t. t) home_of groups_of people page [] not_home
