-- ===== src/Worker/Python.antt =====
-- lib/core/python.ts: the Python that runs an application. The functions of `path` and the file
-- system are parameters.
use shiny_server.Prelude.{
  Bool, true, false, not, List, [], ◌∷◌, Option, none, some, if◌then◌else◌, Text, codes,
}
use shiny_server.Router.Sequence.{Settled, resolved, rejected}
use shiny_server.Worker.Async.{◌>>◌, reject_if}

-- What `stat` says of a path that is there.
pub data Kind : Type 0 where
  directory regular special : Kind

pub record Files : Type 0 where
  pub is_absolute : Text → Bool
  pub has_separator : Text → Bool
  pub join : Text → Text → Text
  pub resolve : Text → Text → Text
  pub stat : Text → Option Kind
  pub is_executable : Text → Bool

-- A variable that is set, or null.
pub record PythonEnv : Type 0 where
  pub exec : Option Text
  pub command : Option Text
  pub path_prepend : Option Text
  pub env : List (Text × Option Text)

unfoldable pub is_there : Option Kind → Bool
is_there none = false
is_there (some k) = true

module _ (fs : Files) where
  -- A virtual environment.
  unfoldable pub from_directory : Text → Settled PythonEnv
  unfolding is_there
  from_directory path = do
    let bin = fs.join (fs.join path (codes "bin")) (codes "python")
    reject_if (not (is_there (fs.stat bin))) "no bin/python"
    resolved (record {
      exec = some bin;
      command = none;
      path_prepend = some (fs.join path (codes "bin"));
      env = (codes "virtual_env", some path) ∷ (codes "pythonhome", none) ∷ [];
    })

  unfoldable pub from_file : Text → Settled PythonEnv
  from_file path = do
    reject_if (not (fs.is_executable path)) "not executable"
    resolved (record { exec = some path; command = none; path_prepend = none; env = [] })

  unfoldable pub from_stat : Text → Option Kind → Settled PythonEnv
  unfolding from_directory from_file
  from_stat path none = rejected "ENOENT"
  from_stat path (some directory) = from_directory path
  from_stat path (some regular) = from_file path
  from_stat path (some special) = rejected "not a file, directory, or symbolic link"

  unfoldable pub from_command : Text → PythonEnv
  from_command path = record { exec = none; command = some path; path_prepend = none; env = [] }

  -- `resolvePython_p`, but for a relative path with a separator.
  unfoldable pub resolve_or : (Text → Settled PythonEnv) → Text → Settled PythonEnv
  unfolding from_stat from_command
  resolve_or relative path =
      if fs.is_absolute path
      then from_stat path (fs.stat path)
      else if not (fs.has_separator path)
      then resolved (from_command path)
      else relative path

  unfoldable pub resolve_alone : Text → Settled PythonEnv
  unfolding resolve_or
  resolve_alone path = resolve_or (λ p. rejected "invalid python path") path

  -- `resolvePython_p`, with a directory to start from; the second call has none.
  unfoldable pub resolve_python : Text → Text → Settled PythonEnv
  unfolding resolve_or resolve_alone
  resolve_python base path =
      resolve_or
        (λ p.
          if fs.is_absolute base
          then resolve_alone (fs.resolve base p)
          else rejected "invalid python path")
        path
