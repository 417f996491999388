-- ===== src/Worker/Spawn.antt =====
-- lib/worker/app-worker.ts: the process that is spawned for an application and what it is told on
-- its standard input. `JSON.stringify`, the package bash and what the server knows of itself and its
-- machine are parameters.
pub mod Venv
use shiny_server.Prelude.{
  Bool, true, false, List, [], ◌∷◌, ◌++◌, Option, none, some, if◌then◌else◌, Text, codes, map,
  walked_eq,
}
use shiny_server.Prelude.Dict.{lookup, insert}
use shiny_server.Config.Schema.Rules.{string}
use shiny_server.Config.Schema.Apply.{one}
use shiny_server.Router.AppSettings.{text_in}
use shiny_server.Router.LocalConfig.{
  Js, value, object, Fields, no_field, field, get_in, or_undefined,
}
use shiny_server.Router.Sequence.{Settled, resolved, rejected}
use shiny_server.Worker.Async.{◌>>=◌}
use shiny_server.Worker.Python.{Files, PythonEnv, resolve_python}

pub record Machine : Type 0 where
  pub r_program : Text
  pub shiny_script : Text
  pub python_script : Text
  pub pandoc : Text
  pub version : Text
  pub lang : Option Text
  pub path : Option Text
  pub is_linux : Bool

pub record Endpoint : Type 0 where
  pub port : Text
  pub shared_secret : Text

-- What the worker reads of an AppSpec: its directory and its settings.
pub record App (F : Type 0) : Type 0 where
  pub app_dir : Text
  pub settings : Fields F

pub record SpawnSpec : Type 0 where
  pub command : Text
  pub args : List Text
  pub cwd : Text
  pub env : List (Text × Text)
  pub stdin_input : Text

abbrev pub text_value : {F : Type 0} → Text → Js F
text_value t = value (some (one (string t)))

-- `x ?? otherwise`, where a setting is never null.
unfoldable pub or_else : {F : Type 0} → Js F → Js F → Js F
or_else (value none) otherwise = otherwise
or_else (value (some a)) otherwise = value (some a)
or_else (object fs) otherwise = object fs

-- A text that a setting holds.
unfoldable pub text_of : {F : Type 0} → Js F → Option Text
unfolding text_in
text_of (value a) = text_in a
text_of (object fs) = none

-- `settings.appDefaults`, which every location sets.
unfoldable pub app_default : {F : Type 0} → Text → Fields F → Js F
unfolding get_in
app_default name settings = get_in name (get_in (codes "appDefaults") (object settings))

-- `map.compact` on an environment.
unfoldable pub compact : List (Text × Option Text) → List (Text × Text)
compact [] = []
compact ((k, none) ∷ vars) = compact vars
compact ((k, some v) ∷ vars) = (k, v) ∷ compact vars

-- `Object.assign`
unfoldable pub assign :
    List (Text × Option Text) → List (Text × Option Text) → List (Text × Option Text)
unfolding insert
assign vars [] = vars
assign vars ((k, v) ∷ more) = assign (insert k v vars) more

unfoldable pub text_or : Text → Option Text → Text
text_or otherwise none = otherwise
text_or otherwise (some t) = t

-- `env["PATH"] = path_prepend + ":" + env["PATH"]`
unfoldable pub prepend_path : Option Text → List (Text × Text) → List (Text × Text)
unfolding lookup insert text_or
prepend_path none env = env
prepend_path (some []) env = env
prepend_path (some (c ∷ cs)) env =
    insert (codes "PATH")
      ((c ∷ cs) ++ (b':' ∷ text_or (codes "undefined") (lookup (codes "PATH") env))) env

-- `bash.escape` of each, with a space between.
unfoldable pub words : (Text → Text) → List Text → Text
words escape [] = []
words escape (a ∷ []) = escape a
words escape (a ∷ b ∷ args) = escape a ++ (b' ' ∷ words escape (b ∷ args))

module _ (m : Machine) {F : Type 0} (stringify : Fields F → Text) where
  -- `createShinyInput`
  unfoldable pub create_shiny_input : App F → Endpoint → Text → Text → Fields F
  unfolding app_default get_in or_else
  create_shiny_input app endpoint worker_id log_file =
      let settings = object app.settings in
      field (codes "appDir") (text_value app.app_dir) (
        field (codes "port") (text_value endpoint.port) (
          field (codes "gaTrackingId")
            (or_else (get_in (codes "gaTrackingId") settings) (text_value []))
            (field (codes "sharedSecret") (text_value endpoint.shared_secret) (
              field (codes "shinyServerVersion") (text_value m.version) (
                field (codes "workerId") (text_value worker_id) (
                  field (codes "mode") (get_in (codes "mode") settings) (
                    field (codes "pandocPath") (text_value m.pandoc) (
                      field (codes "logFilePath") (text_value log_file) (
                        field (codes "disableProtocols")
                          (app_default (codes "disableProtocols") app.settings)
                          (field (codes "reconnect") (app_default (codes "reconnect") app.settings)
                            (field (codes "sanitizeErrors")
                              (app_default (codes "sanitizeErrors") app.settings)
                              (field (codes "bookmarkStateDir")
                                (app_default (codes "bookmarkStateDir") app.settings)
                                no_field))))))))))))

  unfoldable pub input_line : App F → Endpoint → Text → Text → Text
  unfolding create_shiny_input
  input_line app endpoint worker_id log_file =
      stringify (create_shiny_input app endpoint worker_id log_file) ++ (b'\n' ∷ [])

  abbrev pub base_env : Text → List (Text × Option Text)
  base_env home = (codes "HOME", some home) ∷ (codes "LANG", m.lang) ∷ (codes "PATH", m.path) ∷ []

  -- `createShinySpawnSpec`
  unfoldable pub create_shiny_spawn_spec : App F → Endpoint → Text → Text → Text → SpawnSpec
  unfolding input_line compact
  create_shiny_spawn_spec app endpoint worker_id log_file home = record {
    command = m.r_program;
    args = codes "--no-save" ∷ codes "--slave" ∷ codes "-f" ∷ m.shiny_script ∷ [];
    cwd = app.app_dir;
    env = compact (base_env home);
    stdin_input = input_line app endpoint worker_id log_file;
  }

  -- The spec for a Python that is found.
  unfoldable pub python_spec : App F → Text → Text → PythonEnv → SpawnSpec
  unfolding compact assign prepend_path insert text_or
  python_spec app input home python = record {
    command = text_or (text_or (codes "undefined") python.exec) python.command;
    args = m.python_script ∷ [];
    cwd = app.app_dir;
    env =
        insert (codes "PYTHONUNBUFFERED") (codes "1")
          (prepend_path python.path_prepend (compact (assign (base_env home) python.env)));
    stdin_input = input;
  }

  -- `createPyShinySpawnSpec`
  unfoldable pub create_py_shiny_spawn_spec :
      Files → App F → Endpoint → Text → Text → Text → Settled SpawnSpec
  unfolding input_line resolve_python python_spec text_or text_of app_default
  create_py_shiny_spawn_spec fs app endpoint worker_id log_file home = do
    let python = text_or (codes "python3") (text_of (app_default (codes "python") app.settings))
    found ← resolve_python fs app.app_dir python
    resolved (python_spec app (input_line app endpoint worker_id log_file) home found)

-- `wrapWithUserSwitch`
unfoldable pub wrap_with_user_switch : Machine → (Text → Text) → SpawnSpec → Text → SpawnSpec
unfolding words
wrap_with_user_switch m escape spec user =
    let args =
      codes "-m"
      ∷ codes "--"
      ∷ user
      ∷ codes "-c"
      ∷ (codes "cd "
          ++ (escape spec.cwd ++ (codes " && " ++ words escape (spec.command ∷ spec.args))))
      ∷ [] in
    record spec {
      command = codes "su";
      args =
          if m.is_linux
          then codes "-s" ∷ codes "/bin/bash" ∷ codes "--login" ∷ args
          else codes "-" ∷ args;
    }
