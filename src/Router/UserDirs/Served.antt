-- ===== src/Router/UserDirs/Served.antt =====
-- What holds of the apps that a UserDirsRouter launches.
use shiny_server.Prelude.{
  ℕ, ◌≡◌, ◌≢◌, refl, sym, ap, ◌∙◌, true, false, ◌||◌, List, [], ◌∷◌, ◌++◌, Option, none, some, ◌⊎◌,
  inl, inr, if◌then◌else◌, Text, nat_eq, arith, Bool-cases, text_eq, text_eq_iff, is_some, ◌>>=◌,
}
use shiny_server.Prelude.Sets.{contains}
use shiny_server.Router.Sequence.{Settled, resolved, rejected, pending}
use shiny_server.Router.AppDir.{FileSystem}
use shiny_server.Router.Directory.{
  DirectoryRouter, AppSpec, Reply, launch, declined, forbidden, redirect, serve_index, static,
  after_prefix, has_hidden, is_excluded, route_suffix, get_app_spec as route_dirs,
}
use shiny_server.Router.Directory.Launch.{IsServed, get_app_spec-IsServed}
use shiny_server.Router.Locations.Redirects.{after_prefix_parts}
use shiny_server.Router.RunAs.{home_user}
use shiny_server.Router.UserDirs.{
  UserDirsRouter, first_segment, user_of, users_for, is_member, is_log, router_for, serve_home,
  serve_user, get_app_spec,
}
use shiny_server.Router.UserDirs.Named.{
  IsSegment, first_segment-IsSegment, RunsAs, users_for-RunsAs, member_lem, enough, users_for-ends,
}

then-is_some :
    {A B : Type 0}
    → (o : Option A) → (f : A → B) → is_some o ≡ true
    → is_some (o >>= (λ a. some (f a))) ≡ true
then-is_some none f h = cc
then-is_some (some a) f h = refl

module _ (fs : FileSystem) (join : Text → Text → Text) (unescape : Text → Text)
    (home_of : Text → Option Text) (groups_of : Text → List ℕ) (r : UserDirsRouter)
    (pathname search : Text) where
  allowed_at :
      (d : DirectoryRouter) (o : Option Text) (spec : AppSpec)
      → route_suffix fs join unescape d pathname search o ≡ resolved (launch spec)
      → (behind : Text) × (o ≡ some behind) × (is_excluded d.excluded behind ≡ false)
  unfolding route_suffix
  allowed_at d none spec e = cc
  allowed_at d (some suffix) spec e =
      elim (Bool-cases (has_hidden (unescape pathname) || is_excluded d.excluded suffix)) [
        | inl bad ↦ absurd (ground arith)
        | inr good ↦ (suffix, refl, ground arith)
      ]

  allowed_by :
      (d : DirectoryRouter) (spec : AppSpec)
      → route_dirs fs join unescape d pathname search ≡ resolved (launch spec)
      → (behind : Text) × (after_prefix d.prefix pathname ≡ some behind)
        × (is_excluded d.excluded behind ≡ false)
  unfolding route_dirs
  allowed_by d spec e = allowed_at d (after_prefix d.prefix pathname) spec e

  not_log_of :
      (username : Text) (users : List Text) (home behind : Text)
      → is_excluded (router_for join r username users home).excluded behind ≡ false
      → is_log behind ≡ false
  unfolding router_for is_excluded
  not_log_of username users home behind e = e

  -- The path below the prefix, and the user that it names.
  pub record IsNamed (username below : Text) : Type 0 where
    pub path_eq : pathname ≡ r.prefix ++ (b'/' ∷ below)
    pub named : IsSegment username below
    pub not_empty : username ≢ []

  user_of-IsNamed :
      (o : Option Text) (username : Text)
      → after_prefix r.prefix pathname ≡ o
      → (o >>= first_segment) ≡ some username
      → (below : Text) × IsNamed username below
  user_of-IsNamed none username p e = cc
  user_of-IsNamed (some suffix) username p e =
      let (c, t, split, named, not_empty) = first_segment-IsSegment suffix username e in
      let (path_eq, ends) = after_prefix_parts r.prefix pathname suffix p in
      elim ends [
        | inl none_left ↦ absurd (cc (none_left, split))
        | inr (rest, slash) ↦ (
          t,
          record {
            path_eq = path_eq ∙ ap (λ u. r.prefix ++ u) (cc (slash, split));
            named = named;
            not_empty = not_empty;
          },
        )
      ]

  -- An app of a user: the URL's path goes below the prefix with the name of the user, who has an
  -- account and is in one of the groups, if there are any; the app lies in a directory of the home
  -- that is not the log's; and it runs as the user, or as the users given.
  pub record IsOfUser (spec : AppSpec) : Type 0 where
    pub username : Text
    pub home : Text
    pub users : List Text
    pub below : Text
    pub behind : Text
    pub named : IsNamed username below
    pub account : home_of username ≡ some home
    pub member :
        (r.groups ≡ [])
        ⊎ ((g : ℕ) × (contains g (groups_of username) ≡ true) × (contains g r.groups ≡ true))
    pub runs_as : RunsAs r.run_as username users
    pub served :
        IsServed fs join unescape (router_for join r username users home) pathname search spec
    pub behind_eq :
        after_prefix (router_for join r username users home).prefix pathname ≡ some behind
    pub not_log : is_log behind ≡ false

  serve_home-IsOfUser :
      (username below : Text) (users : List Text) (o : Option Text) (spec : AppSpec)
      → IsNamed username below
      → RunsAs r.run_as username users
      → home_of username ≡ o
      → serve_home fs join unescape home_of groups_of r pathname search username users o
        ≡ resolved (launch spec)
      → IsOfUser spec
  unfolding serve_home
  serve_home-IsOfUser username below users none spec n u h e = cc
  serve_home-IsOfUser username below users (some home) spec n u h e =
      elim (Bool-cases (is_member (groups_of username) r.groups)) [
        | inr other ↦ absurd (ground (arith, e, other))
        | inl one ↦
            let d = router_for join r username users home in
            let found : route_dirs fs join unescape d pathname search ≡ resolved (launch spec) =
              sym (
                ap
                  (λ b.
                    if b then route_dirs fs join unescape d pathname search else resolved declined)
                  one)
              ∙ e in
            let (behind, behind_eq, allowed) = allowed_by d spec found in
            record {
              username = username;
              home = home;
              users = users;
              below = below;
              behind = behind;
              named = n;
              account = h;
              member = member_lem (groups_of username) r.groups one;
              runs_as = u;
              served = get_app_spec-IsServed fs join unescape d pathname search spec found;
              behind_eq = behind_eq;
              not_log = not_log_of username users home behind allowed;
            }
      ]

  with_users-IsOfUser :
      (username below : Text) (o : Option (List Text)) (spec : AppSpec)
      → IsNamed username below
      → ((users : List Text) → o ≡ some users → RunsAs r.run_as username users)
      → (o >>= (λ users. some (
          serve_home fs join unescape home_of groups_of r pathname search username users
            (home_of username))))
        ≡ some (resolved (launch spec))
      → IsOfUser spec
  with_users-IsOfUser username below none spec n u e = cc
  with_users-IsOfUser username below (some users) spec n u e =
      serve_home-IsOfUser username below users (home_of username) spec n (u users refl) refl (cc e)

  serve_user-IsOfUser :
      (rounds : ℕ) (o : Option Text) (spec : AppSpec)
      → ((username : Text) → o ≡ some username → (below : Text) × IsNamed username below)
      → serve_user fs join unescape home_of groups_of rounds r pathname search o
        ≡ some (resolved (launch spec))
      → IsOfUser spec
  unfolding serve_user
  serve_user-IsOfUser rounds none spec n e = cc
  serve_user-IsOfUser rounds (some username) spec n e =
      let (below, named) = n username refl in
      with_users-IsOfUser username below (users_for rounds username r.run_as) spec named
        (λ users. users_for-RunsAs rounds username r.run_as users) e

  get_app_spec-IsOfUser :
      (rounds : ℕ) (spec : AppSpec)
      → get_app_spec fs join unescape home_of groups_of rounds r pathname search
        ≡ some (resolved (launch spec))
      → IsOfUser spec
  unfolding get_app_spec user_of
  get_app_spec-IsOfUser rounds spec e =
      serve_user-IsOfUser rounds (user_of r.prefix pathname) spec
        (λ username. user_of-IsNamed (after_prefix r.prefix pathname) username refl) e

  -- An answer: an app that is launched is the user's.
  abbrev pub Answers : Option (Settled Reply) → Type 0
  Answers none = ⊥
  Answers (some (resolved (launch spec))) = IsOfUser spec
  Answers (some (resolved _)) = Unit {0}
  Answers (some (rejected err)) = Unit {0}
  Answers (some pending) = Unit {0}

  Answers_lem :
      (o : Option (Settled Reply))
      → is_some o ≡ true
      → ((spec : AppSpec) → o ≡ some (resolved (launch spec)) → IsOfUser spec)
      → Answers o
  Answers_lem none h k = cc
  Answers_lem (some (resolved declined)) h k = tt
  Answers_lem (some (resolved forbidden)) h k = tt
  Answers_lem (some (resolved (redirect l))) h k = tt
  Answers_lem (some (resolved (serve_index f))) h k = tt
  Answers_lem (some (resolved (static f))) h k = tt
  Answers_lem (some (resolved (launch spec))) h k = k spec refl
  Answers_lem (some (rejected err)) h k = tt
  Answers_lem (some pending) h k = tt

  serve_user-ends :
      (o : Option Text)
      → o ≢ some home_user
      → is_some
          (serve_user fs join unescape home_of groups_of (enough r.run_as) r pathname search o)
        ≡ true
  unfolding serve_user
  serve_user-ends none h = refl
  serve_user-ends (some username) h = elim (Bool-cases (text_eq username home_user)) [
    | inl same ↦ absurd (h (ap some ((text_eq_iff username home_user).0 same)))
    | inr other ↦
        then-is_some (users_for (enough r.run_as) username r.run_as)
          (λ users.
            serve_home fs join unescape home_of groups_of r pathname search username users
              (home_of username))
          (users_for-ends username r.run_as other)
  ]

  -- Where the URL's path does not name the user `:HOME_USER:`, a UserDirsRouter answers after a round
  -- more than there are users given. An app that it launches is one of the user that the path names
  -- below the prefix: the user has an account and, if groups are asked for, is in one of them; the
  -- app is found by a DirectoryRouter in ShinyApps of the user's home, not below a path that begins
  -- as the log's; and it runs as the user or, where users are given, as those with `:HOME_USER:`
  -- replaced.
  pub get_app_spec-Answers :
      user_of r.prefix pathname ≢ some home_user
      → Answers
          (get_app_spec fs join unescape home_of groups_of (enough r.run_as) r pathname search)
  unfolding get_app_spec
  get_app_spec-Answers h =
      Answers_lem
        (get_app_spec fs join unescape home_of groups_of (enough r.run_as) r pathname search)
        (serve_user-ends (user_of r.prefix pathname) h) (get_app_spec-IsOfUser (enough r.run_as))
