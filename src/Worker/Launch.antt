-- ===== src/Worker/Launch.antt =====
-- lib/worker/app-worker.ts: launchWorker_p with the log file that it opens, and createAppWorker up to
-- the process that it spawns. What the calls of the system come to is a parameter.
pub mod Users
use shiny_server.Prelude.{
  ℕ, Bool, true, false, not, ◌&&◌, ◌||◌, List, [], ◌∷◌, ◌++◌, Option, none, some, if◌then◌else◌,
  Text, codes, text_eq, ◌==◌, is_some,
}
use shiny_server.Config.Schema.Types.{is_nonempty}
use shiny_server.Router.LocalConfig.{Js, value, object, Fields, get_in}
use shiny_server.Router.AppSettings.{text_in}
use shiny_server.Router.Sequence.{Settled, resolved, rejected, pending}
use shiny_server.Worker.Async.{◌>>=◌, ◌>>◌, reject_if}
use shiny_server.Worker.Python.{Files, Kind, directory}
use shiny_server.Worker.Spawn.{
  Machine, Endpoint, App, SpawnSpec, text_of, app_default, create_shiny_spawn_spec,
  create_py_shiny_spawn_spec, wrap_with_user_switch,
}

-- `appSpec.runAs`.
pub data RunAs : Type 0 where
  null undefined : RunAs
  one : Text → RunAs
  many : List Text → RunAs

-- The result of getpwnam.
pub record Passwd : Type 0 where
  pub uid : ℕ
  pub gid : ℕ
  pub home : Option Text

-- Where the standard error of a worker goes: a stream, or a file that the worker opens by itself.
pub data LogStream : Type 0 where
  stream : LogStream
  by_worker : Text → LogStream

unfoldable pub log_file_of : LogStream → Text
log_file_of stream = []
log_file_of (by_worker path) = path

-- `getProcessUser() !== runAs`, with nothing for a process without a name.
unfoldable pub differs : Option Text → RunAs → Bool
unfolding text_eq
differs name null = true
differs none undefined = false
differs (some name) undefined = true
differs none (one user) = true
differs (some name) (one user) = not (text_eq name user)
differs name (many users) = true

unfoldable pub switches_user : Option Text → RunAs → Bool
unfolding differs
switches_user name null = false
switches_user name undefined = differs name undefined
switches_user name (one user) = differs name (one user)
switches_user name (many users) = differs name (many users)

-- `typeof runAs === "object"`, which null is too.
unfoldable pub is_object : RunAs → Bool
is_object null = true
is_object undefined = false
is_object (one user) = false
is_object (many users) = true

unfoldable pub user_text : RunAs → Text
user_text (one user) = user
user_text null = codes "null"
user_text undefined = codes "undefined"
user_text (many users) = []

unfoldable pub is_directory : Option Kind → Bool
is_directory (some directory) = true
is_directory _ = false

module _ (m : Machine) (fs : Files) (escape : Text → Text) {F : Type 0}
    (stringify : Fields F → Text) where
  -- The switch on the mode.
  unfoldable pub spec_for : Option Text → App F → Endpoint → Text → Text → Text → Settled SpawnSpec
  unfolding text_eq create_shiny_spawn_spec create_py_shiny_spawn_spec
  spec_for none app endpoint worker_id log_file home = rejected "unknown mode"
  spec_for (some mode) app endpoint worker_id log_file home =
      if text_eq mode (codes "shiny") || text_eq mode (codes "rmd")
      then resolved (create_shiny_spawn_spec m stringify app endpoint worker_id log_file home)
      else if text_eq mode (codes "shiny-python")
      then create_py_shiny_spawn_spec m stringify fs app endpoint worker_id log_file home
      else rejected "unknown mode"

  unfoldable pub switched : Bool → RunAs → SpawnSpec → SpawnSpec
  unfolding wrap_with_user_switch user_text
  switched true run_as spec = wrap_with_user_switch m escape spec (user_text run_as)
  switched false run_as spec = spec

  -- `createAppWorker`, up to the process that it spawns, for a process with a number and a name;
  -- `bookmarks` is what createBookmarkStateDirectory comes to.
  unfoldable pub create_app_worker :
      ℕ
      → Option Text
      → RunAs
      → App F
      → Endpoint
      → LogStream
      → Text
      → Text
      → Settled (Unit {0})
      → Settled SpawnSpec
  unfolding switches_user is_object log_file_of spec_for switched is_directory text_of get_in
  create_app_worker uid name run_as app endpoint log worker_id home bookmarks = do
    let switch = switches_user name run_as
    reject_if (is_object run_as) "runAs should be a string or null"
    reject_if (not switch && uid == 0) "Aborting attempt to launch worker process as root"
    inner ←
        spec_for (text_of (get_in (codes "mode") (object app.settings))) app endpoint worker_id
          (log_file_of log) home
    reject_if (not (is_directory (fs.stat app.app_dir))) "not a directory"
    bookmarks
    resolved (switched switch run_as inner)

  -- The guards of launchWorker_p on the home of the user and the directory of the application;
  -- `log` is what createLogFile or createLogFileAsUser comes to.
  unfoldable pub launch_at :
      ℕ
      → Option Text
      → RunAs
      → App F
      → Option Text
      → Endpoint
      → Settled LogStream
      → Text
      → Settled (Unit {0})
      → Settled SpawnSpec
  unfolding create_app_worker is_nonempty
  launch_at uid name run_as app none endpoint log worker_id bookmarks =
      rejected "User does not have a home directory"
  launch_at uid name run_as app (some home) endpoint log worker_id bookmarks = do
    reject_if (not (is_nonempty home)) "User does not have a home directory"
    reject_if (not (is_nonempty app.app_dir)) "No app directory specified"
    reject_if (not (is_some (fs.stat app.app_dir))) "App dir does not exist"
    opened ← log
    create_app_worker uid name run_as app endpoint opened worker_id home bookmarks

  -- `launchWorker_p`
  unfoldable pub launch_worker :
      ℕ
      → Option Text
      → RunAs
      → App F
      → Option Passwd
      → Endpoint
      → Settled LogStream
      → Text
      → Settled (Unit {0})
      → Settled SpawnSpec
  unfolding launch_at
  launch_worker uid name run_as app none endpoint log worker_id bookmarks =
      rejected "User does not exist"
  launch_worker uid name run_as app (some pw) endpoint log worker_id bookmarks =
      launch_at uid name run_as app pw.home endpoint log worker_id bookmarks

-- A change of the system that the opening of a log file attempts; a failure to change the owner or
-- the mode of the file is logged only.
pub data Change : Type 0 where
  make_dir : Text → Change
  own_dir : Text → ℕ → ℕ → Change
  open_file : Text → Text → Change
  own_file : Text → ℕ → ℕ → Change
  set_mode : Text → Text → Change
  create_as : ℕ → ℕ → Text → Text → Change

-- Whether each call succeeds.
pub record Calls : Type 0 where
  pub mkdir : Bool
  pub chown_dir : Bool
  pub opens : Bool
  pub script_code : ℕ

-- `createLogFile`: only a file that cannot be opened is an error.
unfoldable pub create_log_file :
    Calls → Text → Passwd → Text → Text → List Change × Settled LogStream
create_log_file c log_dir pw path mode =
    let made =
      if c.mkdir
      then make_dir log_dir ∷ (if c.chown_dir then own_dir log_dir pw.uid pw.gid ∷ [] else [])
      else [] in
    if c.opens
    then (
      made ++ (open_file path mode ∷ own_file path pw.uid pw.gid ∷ set_mode path mode ∷ []),
      resolved stream,
    )
    else (made, rejected "open")

-- `createLogFileAsUser`
unfoldable pub create_log_file_as_user :
    Calls → Passwd → Text → Text → List Change × Settled LogStream
create_log_file_as_user c pw path mode = (
  create_as pw.uid pw.gid path mode ∷ [],
  if c.script_code == 0 then resolved (by_worker path) else rejected "Failed to create log file",
)
