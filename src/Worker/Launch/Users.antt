-- ===== src/Worker/Launch/Users.antt =====
-- As whom the process of an application is spawned.
use shiny_server.Prelude.{
  not-eq-false, ℕ, Bool, List, [], ◌∷◌, ◌++◌, sym, if◌then◌else◌, ◌≡◌, ◌≢◌, refl, ap, subst, true,
  false, not, ◌&&◌, Option, none, some, ◌⊎◌, inl, inr, Text, codes, text_eq, text_eq_iff, ◌==◌,
  arith, Bool-cases, is_some,
}
use shiny_server.Config.Schema.Types.{is_nonempty}
use shiny_server.Router.LocalConfig.{object, Fields, get_in}
use shiny_server.Router.Sequence.{Settled, resolved}
use shiny_server.Worker.Async.{>>=-eq-resolved, >>-eq-resolved, resolved_eq}
use shiny_server.Worker.Python.{Files}
use shiny_server.Worker.Spawn.{
  Machine, Endpoint, App, SpawnSpec, text_of, words, wrap_with_user_switch,
}
use shiny_server.Worker.Launch.{
  one, Passwd, LogStream, log_file_of, switches_user, is_object, is_directory, spec_for, switched,
  user_text, create_app_worker, launch_at, launch_worker,
}

module _ (m : Machine) (fs : Files) (escape : Text → Text) {F : Type 0}
    (stringify : Fields F → Text) where
  -- The options of su before its other arguments.
  abbrev options : Bool → List Text
  options true = codes "-s" ∷ codes "/bin/bash" ∷ codes "--login" ∷ []
  options false = codes "-" ∷ []

  -- The process is su, with the user as its first operand, and with the command line of the inner
  -- process, in the inner directory, as what su's shell is to run; all else is the inner process's.
  pub record Switches (user : Text) (inner spec : SpawnSpec) : Type 0 where
    pub command : spec.command ≡ codes "su"
    pub args :
        spec.args
        ≡ options m.is_linux
          ++ (codes "-m"
              ∷ codes "--"
              ∷ user
              ∷ codes "-c"
              ∷ (codes "cd "
                  ++ (escape inner.cwd
                      ++ (codes " && " ++ words escape (inner.command ∷ inner.args))))
              ∷ [])
    pub cwd : spec.cwd ≡ inner.cwd
    pub env : spec.env ≡ inner.env
    pub stdin_input : spec.stdin_input ≡ inner.stdin_input

  args_split :
      (linux : Bool) (xs : List Text)
      → (if linux then codes "-s" ∷ codes "/bin/bash" ∷ codes "--login" ∷ xs else codes "-" ∷ xs)
        ≡ options linux ++ xs
  args_split true xs = refl
  args_split false xs = refl

  wrap_with_user_switch-Switches :
      (user : Text) (inner : SpawnSpec)
      → Switches user inner (wrap_with_user_switch m escape inner user)
  unfolding wrap_with_user_switch
  wrap_with_user_switch-Switches user inner = record {
    command = refl;
    args = args_split m.is_linux _;
    cwd = refl;
    env = refl;
    stdin_input = refl;
  }

  -- The process runs with the server's own number, which is not 0, for the server's own user; or it
  -- is `su` to the user, where that is not the server's.
  abbrev pub RunsAs : ℕ → Option Text → Text → SpawnSpec → SpawnSpec → Type 0
  RunsAs uid name user inner spec =
      ((uid ≢ 0) × (name ≡ some user) × (spec ≡ inner))
      ⊎ ((name ≢ some user) × Switches user inner spec)

  switched-RunsAs :
      (uid : ℕ) (name : Option Text) (user : Text) (inner : SpawnSpec)
      → (not (switches_user name (one user)) && uid == 0) ≡ false
      → RunsAs uid name user inner
          (switched m fs escape stringify (switches_user name (one user)) (one user) inner)
  unfolding switches_user switched user_text
  switched-RunsAs uid none user inner e =
      inr (λ eq. cc eq, wrap_with_user_switch-Switches user inner)
  switched-RunsAs uid (some name) user inner e = elim (Bool-cases (text_eq name user)) [
    | inl same ↦ inl (
      λ zero_uid. absurd (ground (arith, e, same, zero_uid)),
      ap some ((text_eq_iff name user).0 same),
      ap (λ b. switched m fs escape stringify (not b) (one user) inner) same,
    )
    | inr other ↦ inr (
      λ eq. absurd (ground (arith, other, eq, text_eq_iff name user)),
      subst (λ b. Switches user inner (switched m fs escape stringify (not b) (one user) inner))
          (sym other) (wrap_with_user_switch-Switches user inner),
    )
  ]

  -- The process that is spawned for an application, from the spec for its mode.
  pub record Spawned (uid : ℕ) (name : Option Text) (user : Text) (app : App F)
      (endpoint : Endpoint) (worker_id : Text) (spec : SpawnSpec) : Type 0 where
    pub home : Text
    pub log : LogStream
    pub inner : SpawnSpec
    pub made :
        spec_for m fs escape stringify
          (text_of (get_in (codes "mode") (object app.settings)))
          app
          endpoint
          worker_id
          (log_file_of log)
          home
        ≡ resolved inner
    pub there : is_directory (fs.stat app.app_dir) ≡ true
    pub runs : RunsAs uid name user inner spec

  create_app_worker-Spawned :
      (uid : ℕ) (name : Option Text) (user : Text) (app : App F) (endpoint : Endpoint)
      (log : LogStream) (worker_id home : Text) (bookmarks : Settled (Unit {0})) (spec : SpawnSpec)
      → create_app_worker m fs escape stringify uid name
          (one user)
          app
          endpoint
          log
          worker_id
          home
          bookmarks
        ≡ resolved spec
      → Spawned uid name user app endpoint worker_id spec
  unfolding create_app_worker
  create_app_worker-Spawned uid name user app endpoint log worker_id home bookmarks spec e =
      let switch = switches_user name (one user) in
      let (_, e1) = >>-eq-resolved (is_object (one user)) "runAs should be a string or null" _ e in
      let (safe, e2) =
        >>-eq-resolved (not switch && uid == 0) "Aborting attempt to launch worker process as root"
          _ e1 in
      let (inner, made, e3) =
        >>=-eq-resolved
          (spec_for m fs escape stringify (text_of (get_in (codes "mode") (object app.settings)))
            app endpoint worker_id (log_file_of log) home)
          _ e2 in
      let (there, e4) =
        >>-eq-resolved (not (is_directory (fs.stat app.app_dir))) "not a directory" _ e3 in
      let (_, _, e5) = >>=-eq-resolved bookmarks _ e4 in
      record {
        home = home;
        log = log;
        inner = inner;
        made = made;
        there = not-eq-false (is_directory (fs.stat app.app_dir)) there;
        runs =
            subst (RunsAs uid name user inner) (resolved_eq e5)
              (switched-RunsAs uid name user inner safe);
      }

  launch_at-Spawned :
      (uid : ℕ) (name : Option Text) (user : Text) (app : App F) (home : Option Text)
      (endpoint : Endpoint) (log : Settled LogStream) (worker_id : Text)
      (bookmarks : Settled (Unit {0})) (spec : SpawnSpec)
      → launch_at m fs escape stringify uid name
          (one user)
          app
          home
          endpoint
          log
          worker_id
          bookmarks
        ≡ resolved spec
      → Spawned uid name user app endpoint worker_id spec
  unfolding launch_at
  launch_at-Spawned uid name user app none endpoint log worker_id bookmarks spec e = cc e
  launch_at-Spawned uid name user app (some home) endpoint log worker_id bookmarks spec e =
      let (_, e1) =
        >>-eq-resolved (not (is_nonempty home)) "User does not have a home directory" _ e in
      let (_, e2) =
        >>-eq-resolved (not (is_nonempty app.app_dir)) "No app directory specified" _ e1 in
      let (_, e3) =
        >>-eq-resolved (not (is_some (fs.stat app.app_dir))) "App dir does not exist" _ e2 in
      let (opened, _, e4) = >>=-eq-resolved log _ e3 in
      create_app_worker-Spawned uid name user app endpoint opened worker_id home bookmarks spec e4

  -- A process that launchWorker_p spawns for a user is that for the application's mode, in a
  -- directory that is there. It runs as the server does, whose user is then that user and is not
  -- numbered 0; or it is `su` to that user, whose name is then not that of the server's user.
  pub launch_worker-Spawned :
      (uid : ℕ) (name : Option Text) (user : Text) (app : App F) (pw : Option Passwd)
      (endpoint : Endpoint) (log : Settled LogStream) (worker_id : Text)
      (bookmarks : Settled (Unit {0})) (spec : SpawnSpec)
      → launch_worker m fs escape stringify uid name
          (one user)
          app
          pw
          endpoint
          log
          worker_id
          bookmarks
        ≡ resolved spec
      → Spawned uid name user app endpoint worker_id spec
  unfolding launch_worker
  launch_worker-Spawned uid name user app none endpoint log worker_id bookmarks spec e = cc e
  launch_worker-Spawned uid name user app (some pw) endpoint log worker_id bookmarks spec e =
      launch_at-Spawned uid name user app pw.home endpoint log worker_id bookmarks spec e
