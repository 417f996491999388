-- ===== src/Router/UserDirs.antt =====
-- lib/router/user-dirs-router.js: UserDirsRouter, for a request of HTTP. The accounts and the groups of
-- the system are parameters, and so are those of the DirectoryRouter that it asks. A user to run as
-- that is a string stands as a list of one.
mod Named
mod Served
mod Tests
use shiny_server.Prelude.{
  ℕ, Bool, true, false, ◌||◌, List, [], ◌∷◌, ◌++◌, Option, none, some, ◌==◌, if◌then◌else◌, Text,
  codes, nat_eq, ◌>>=◌,
}
use shiny_server.Prelude.Sets.{contains}
use shiny_server.Router.Sequence.{Settled, resolved}
use shiny_server.Router.AppDir.{FileSystem}
use shiny_server.Router.Directory.{
  DirectoryRouter, Reply, declined, strip_slash, after_prefix, create, get_app_spec as route_dirs,
}
use shiny_server.Router.RunAs.{replace_home}
use shiny_server.Router.ConfigRouter.Hosting.{starts_with}

pub record UserDirsRouter : Type 0 where
  pub prefix : Text
  pub groups : List ℕ
  pub run_as : Option (List Text)

unfoldable pub create_users : Text → List ℕ → Option (List Text) → UserDirsRouter
unfolding strip_slash
create_users prefix groups run_as = record {
  prefix = strip_slash prefix;
  groups = groups;
  run_as = run_as;
}

-- `[^/]+`, as far as it goes.
unfoldable pub segment : Text → Text
segment [] = []
segment (c ∷ cs) = let rest = segment cs in if c == b'/' then [] else c ∷ rest

unfoldable pub some_segment : Text → Option Text
some_segment [] = none
some_segment (c ∷ cs) = some (c ∷ cs)

unfoldable pub first_segment : Text → Option Text
unfolding segment some_segment
first_segment [] = none
first_segment (c ∷ cs) = some_segment (segment cs)

-- `m[1]` of `$rePath.exec`
unfoldable pub user_of : Text → Text → Option Text
unfolding after_prefix first_segment
user_of prefix pathname = do suffix ← after_prefix prefix pathname; first_segment suffix

-- The users to run as, after as many rounds of the loop over `:HOME_USER:`.
unfoldable pub users_for : ℕ → Text → Option (List Text) → Option (List Text)
unfolding replace_home
users_for rounds username none = some (username ∷ [])
users_for rounds username (some users) = replace_home rounds username users

-- `_.intersection(ids, groups).length`
unfoldable pub shares : List ℕ → List ℕ → Bool
unfolding contains
shares [] groups = false
shares (id ∷ ids) groups = contains id groups || shares ids groups

unfoldable pub is_member : List ℕ → List ℕ → Bool
unfolding shares
is_member ids [] = true
is_member ids (g ∷ gs) = shares ids (g ∷ gs)

-- `/^(\/)?log(\/)?/`
unfoldable pub is_log : Text → Bool
unfolding starts_with
is_log suffix = starts_with (codes "/log") suffix || starts_with (codes "log") suffix

-- The DirectoryRouter for a user.
unfoldable pub router_for :
    (Text → Text → Text) → UserDirsRouter → Text → List Text → Text → DirectoryRouter
unfolding create is_log
router_for join r username users home =
    create (join home (codes "ShinyApps")) users (r.prefix ++ (b'/' ∷ username)) (some is_log)

module _ (fs : FileSystem) (join : Text → Text → Text) (unescape : Text → Text)
    (home_of : Text → Option Text) (groups_of : Text → List ℕ) where
  unfoldable pub serve_home :
      UserDirsRouter → Text → Text → Text → List Text → Option Text → Settled Reply
  unfolding router_for is_member route_dirs
  serve_home r pathname search username users none = resolved declined
  serve_home r pathname search username users (some home) =
      let found =
        route_dirs fs join unescape (router_for join r username users home) pathname search in
      if is_member (groups_of username) r.groups then found else resolved declined

  unfoldable pub serve_user :
      ℕ → UserDirsRouter → Text → Text → Option Text → Option (Settled Reply)
  unfolding users_for serve_home
  serve_user rounds r pathname search none = some (resolved declined)
  serve_user rounds r pathname search (some username) = do
    users ← users_for rounds username r.run_as
    some (serve_home r pathname search username users (home_of username))

  -- `getAppSpec_p`; nothing while the loop over `:HOME_USER:` runs.
  unfoldable pub get_app_spec : ℕ → UserDirsRouter → Text → Text → Option (Settled Reply)
  unfolding serve_user user_of
  get_app_spec rounds r pathname search =
      serve_user rounds r pathname search (user_of r.prefix pathname)
