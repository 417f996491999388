-- ===== src/Worker/Tests.antt =====
-- The theorems on workers at concrete inputs.
use shiny_server.Prelude.{◌≡◌, refl, true, false, [], ◌∷◌, ◌++◌, none, some, Text, codes, walked_eq}
use shiny_server.Prelude.Dict.{lookup}
use shiny_server.Router.LocalConfig.{Fields, no_field, field}
use shiny_server.Router.Sequence.{resolved}
use shiny_server.Worker.Python.{Files, directory, PythonEnv, from_directory}
use shiny_server.Worker.Spawn.{Machine, Endpoint, App, SpawnSpec, text_value, python_spec}
use shiny_server.Worker.Spawn.Venv.{python_spec-from_directory}
use shiny_server.Worker.Launch.{one, Passwd, stream, launch_worker}
use shiny_server.Worker.Launch.Users.{Spawned, launch_worker-Spawned}
use shiny_server.Worker.Bookmarks.{System, create_bookmark_state_directory}
use shiny_server.Worker.Bookmarks.Laws.{Outcomes, create_bookmark_state_directory-Outcomes}
use shiny_server.Worker.Process.{Process, killed, timer, exit, run, run-silent}

abbrev machine : Machine
machine = record {
  r_program = codes "R";
  shiny_script = codes "/opt/adapter.R";
  python_script = codes "/opt/adapter.py";
  pandoc = codes "/opt/pandoc";
  version = codes "1.5";
  lang = none;
  path = some (codes "/bin");
  is_linux = true;
}

abbrev slashed : Text → Text → Text
slashed a b = a ++ (b'/' ∷ b)

abbrev files : Files
files = record {
  is_absolute = λ p. true;
  has_separator = λ p. true;
  join = slashed;
  resolve = slashed;
  stat = λ p. some directory;
  is_executable = λ p. true;
}

abbrev quoted : Text → Text
quoted t = (b'\'' ∷ t) ++ codes "'"

abbrev no_json : Fields Text → Text
no_json fs = codes "{}"

abbrev app : App Text
app = record {
  app_dir = codes "/srv/app";
  settings = field (codes "mode") (text_value (codes "shiny")) no_field;
}

abbrev endpoint : Endpoint
endpoint = record { port = codes "7000"; shared_secret = codes "s3cret" }

abbrev alice : Passwd
alice = record { uid = 1000; gid = 1000; home = some (codes "/home/alice") }

abbrev launched : SpawnSpec
launched = record {
  command = codes "su";
  args =
      codes "-s"
      ∷ codes "/bin/bash"
      ∷ codes "--login"
      ∷ codes "-m"
      ∷ codes "--"
      ∷ codes "alice"
      ∷ codes "-c"
      ∷ codes "cd '/srv/app' && 'R' '--no-save' '--slave' '-f' '/opt/adapter.R'"
      ∷ [];
  cwd = codes "/srv/app";
  env = (codes "HOME", codes "/home/alice") ∷ (codes "PATH", codes "/bin") ∷ [];
  stdin_input = codes "{}" ++ (b'\n' ∷ []);
}

launched_as_alice :
    launch_worker machine files quoted no_json 0
      (some (codes "root"))
      (one (codes "alice"))
      app
      (some alice)
      endpoint
      (resolved stream)
      (codes "w1")
      (resolved tt)
    ≡ resolved launched
unfolding launch_worker
launched_as_alice = refl

launch_worker-Spawned_example :
    Spawned machine files quoted no_json 0
      (some (codes "root"))
      (codes "alice")
      app
      endpoint
      (codes "w1")
      launched
launch_worker-Spawned_example =
    launch_worker-Spawned machine files quoted no_json 0 (some (codes "root")) (codes "alice") app
      (some alice) endpoint (resolved stream) (codes "w1") (resolved tt) launched launched_as_alice

abbrev venv : PythonEnv
venv = record {
  exec = some (codes "/venv/bin/python");
  command = none;
  path_prepend = some (codes "/venv/bin");
  env = (codes "virtual_env", some (codes "/venv")) ∷ (codes "pythonhome", none) ∷ [];
}

venv_found : from_directory files (codes "/venv") ≡ resolved venv
unfolding from_directory
venv_found = refl

python_spec-from_directory_example :
    let env = (python_spec machine no_json app (codes "{}") (codes "/home/alice") venv).env in
    (lookup (codes "VIRTUAL_ENV") env ≡ none)
    × (lookup (codes "virtual_env") env ≡ some (codes "/venv"))
python_spec-from_directory_example =
    python_spec-from_directory machine files no_json app (codes "{}") (codes "/home/alice")
      (codes "/venv") venv venv_found

abbrev system : System
system = record {
  self = 0;
  can_make = λ dir. true;
  uid_of = λ user. some 1000;
  can_own = λ dir uid. true;
}

create_bookmark_state_directory-Outcomes_example :
    Outcomes system
      (codes "/var/b")
      (codes "/var/b/alice")
      (codes "alice")
      []
      (create_bookmark_state_directory system slashed (codes "/var/b") (codes "alice") [])
create_bookmark_state_directory-Outcomes_example =
    create_bookmark_state_directory-Outcomes system slashed b'/' (codes "var/b") (codes "alice") []

abbrev worker : Process
worker = record { exited = false; pid = some 42; child = some 41; timers = [] }

run-silent_example :
    (run (killed false false ∷ exit ∷ timer 0 ∷ killed true false ∷ []) worker).1
    ≡ (run (killed false false ∷ []) worker).1
run-silent_example = run-silent (killed false false ∷ []) (timer 0 ∷ killed true false ∷ []) worker
