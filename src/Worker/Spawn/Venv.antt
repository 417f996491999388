-- ===== src/Worker/Spawn/Venv.antt =====
-- The environment of a Python application in a virtual environment.
use shiny_server.Prelude.{
  ◌≡◌, refl, subst, not, List, [], ◌∷◌, Option, none, some, Text, codes, text_eq, walked_eq,
}
use shiny_server.Prelude.Dict.{lookup, insert}
use shiny_server.Router.LocalConfig.{Fields}
use shiny_server.Router.Sequence.{resolved}
use shiny_server.Worker.Async.{>>-eq-resolved, resolved_eq}
use shiny_server.Worker.Python.{Files, PythonEnv, is_there, from_directory}
use shiny_server.Worker.Spawn.{Machine, App, compact, assign, prepend_path, python_spec}

abbrev venv_vars : Text → List (Text × Option Text)
venv_vars path = (codes "virtual_env", some path) ∷ (codes "pythonhome", none) ∷ []

-- The variable of the environment's own name, and the one that the code sets in its place.
venv_lookup :
    (home path : Text) (lang search prefix : Option Text)
    → let env = insert (codes "PYTHONUNBUFFERED") (codes "1") (
        prepend_path prefix (
          compact (
            assign
              ((codes "HOME", some home) ∷ (codes "LANG", lang) ∷ (codes "PATH", search) ∷ [])
              (venv_vars path)))) in
      (lookup (codes "VIRTUAL_ENV") env ≡ none) × (lookup (codes "virtual_env") env ≡ some path)
unfolding insert lookup prepend_path compact assign text_eq
venv_lookup home path none none none = (refl, refl)
venv_lookup home path none none (some []) = (refl, refl)
venv_lookup home path none none (some (c ∷ cs)) = (refl, refl)
venv_lookup home path none (some p) none = (refl, refl)
venv_lookup home path none (some p) (some []) = (refl, refl)
venv_lookup home path none (some p) (some (c ∷ cs)) = (refl, refl)
venv_lookup home path (some l) none none = (refl, refl)
venv_lookup home path (some l) none (some []) = (refl, refl)
venv_lookup home path (some l) none (some (c ∷ cs)) = (refl, refl)
venv_lookup home path (some l) (some p) none = (refl, refl)
venv_lookup home path (some l) (some p) (some []) = (refl, refl)
venv_lookup home path (some l) (some p) (some (c ∷ cs)) = (refl, refl)

module _ (m : Machine) (fs : Files) {F : Type 0} (stringify : Fields F → Text) where
  -- A Python application that is to run in a virtual environment is spawned without the variable
  -- VIRTUAL_ENV: the path of the environment is in a variable named in small letters.
  pub python_spec-from_directory :
      (app : App F) (input home path : Text) (python : PythonEnv)
      → from_directory fs path ≡ resolved python
      → let env = (python_spec m stringify app input home python).env in
        (lookup (codes "VIRTUAL_ENV") env ≡ none) × (lookup (codes "virtual_env") env ≡ some path)
  unfolding from_directory python_spec
  python_spec-from_directory app input home path python e =
      let (_, e1) =
        >>-eq-resolved
          (not (is_there (fs.stat (fs.join (fs.join path (codes "bin")) (codes "python")))))
          "no bin/python" _ e in
      subst
        (λ (p : PythonEnv).
          (lookup (codes "VIRTUAL_ENV") (python_spec m stringify app input home p).env ≡ none)
          × (lookup (codes "virtual_env") (python_spec m stringify app input home p).env
              ≡ some path))
        (resolved_eq e1) (venv_lookup home path m.lang m.path (some (fs.join path (codes "bin"))))
