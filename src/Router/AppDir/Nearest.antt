-- ===== src/Router/AppDir/Nearest.antt =====
-- Which directory `$findShinyDir_p` chooses.
use shiny_server.Prelude.{
  ◌≡◌, refl, ap, true, false, List, [], ◌∷◌, ◌++◌, Option, none, some, Text, All, Bool-cases, inl,
  inr, ◌∙◌,
}
use shiny_server.Router.Paths.{Candidate}
use shiny_server.Router.Sequence.{resolved, try_next, for_each_promise}
use shiny_server.Router.AppDir.{
  FileSystem, is_app_dir, TestDir, Found, missing, app, AppType, shiny, rmd, shiny_python,
  index_html, examine, is_decisive, on_fail, test_subpath, find_shiny_dir,
}

module _ (fs : FileSystem) (join : Text → Text → Text) (root : Text) where
  abbrev test_of : Candidate → TestDir
  test_of d = is_app_dir fs (join root d.path)

  -- A directory that exists and holds no app.
  pub record IsPlain (d : Candidate) : Type 0 where
    pub exists : (test_of d).exists ≡ true
    pub not_app : (test_of d).is_app ≡ false
    pub not_rmd : (test_of d).is_rmd ≡ false
    pub not_py : (test_of d).is_py_app ≡ false

  -- A directory that holds an app of the type; `server.R` and `app.R` come before the documents,
  -- and these before `app.py`.
  pub data HasApp (d : Candidate) : AppType → Option Text → Type 0 where
    as_shiny : (test_of d).is_app ≡ true → HasApp d shiny none
    as_rmd :
        (test_of d).is_app ≡ false
        → (test_of d).is_rmd ≡ true
        → HasApp d rmd (index_html (test_of d).index_type (test_of d).index_path)
    as_py :
        (test_of d).is_app ≡ false
        → (test_of d).is_rmd ≡ false
        → (test_of d).is_py_app ≡ true
        → HasApp d shiny_python none

  -- The answer for a list of directories, from the root down.
  pub data IsNearest (ds : List Candidate) : Option Found → Type 0 where
    nothing : All IsPlain ds → IsNearest ds none
    breaks :
        (before : List Candidate) (d : Candidate) (after : List Candidate)
        → ds ≡ before ++ (d ∷ after)
        → All IsPlain before
        → (test_of d).exists ≡ false
        → IsNearest ds (some missing)
    serves :
        (before : List Candidate) (d : Candidate) (after : List Candidate) (t : AppType)
        (i : Option Text)
        → ds ≡ before ++ (d ∷ after)
        → All IsPlain before
        → (test_of d).exists ≡ true
        → HasApp d t i
        → IsNearest ds (some (app d t i))

  deeper :
      (d : Candidate) (ds : List Candidate) (o : Option Found)
      → IsPlain d
      → IsNearest ds o
      → IsNearest (d ∷ ds) o
  deeper d ds _ p (nothing ps) = nothing (p, ps)
  deeper d ds _ p (breaks before x after e ps k) =
      breaks (d ∷ before) x after (ap (λ t. d ∷ t) e) (p, ps) k
  deeper d ds _ p (serves before x after t i e ps k h) =
      serves (d ∷ before) x after t i (ap (λ t. d ∷ t) e) (p, ps) k h

  -- The loop from one directory on.
  loop-IsNearest :
      (d : Candidate) (ds : List Candidate) (o : Option Found)
      → IsNearest ds o
      → (found : Option Found) × (try_next
            (test_subpath fs join root)
            is_decisive
            none
            (test_subpath fs join root d)
            (resolved o)
          ≡ resolved found)
        × IsNearest (d ∷ ds) found
  unfolding try_next test_subpath is_decisive examine
  loop-IsNearest d ds o k = elim (Bool-cases (test_of d).exists) [
    | inr gone ↦ rw gone (some missing, refl, breaks [] d ds refl tt gone)
    | inl there ↦ elim (Bool-cases (test_of d).is_app) [
      | inl r ↦
          rw (there, r)
            (some (app d shiny none), refl, serves [] d ds shiny none refl tt there (as_shiny r))
      | inr not_r ↦ elim (Bool-cases (test_of d).is_rmd) [
        | inl md ↦
            rw (there, not_r, md)
              (some (app d rmd _), refl, serves [] d ds rmd _ refl tt there (as_rmd not_r md))
        | inr not_md ↦ elim (Bool-cases (test_of d).is_py_app) [
          | inl py ↦
              rw (there, not_r, not_md, py)
                (
                  some (app d shiny_python none),
                  refl,
                  serves [] d ds shiny_python none refl tt there (as_py not_r not_md py),
                )
          | inr not_py ↦
              rw (there, not_r, not_md, not_py)
                (
                  o,
                  refl,
                  deeper d ds o
                      (record {
                        exists = there;
                        not_app = not_r;
                        not_rmd = not_md;
                        not_py = not_py;
                      })
                      k,
                )
        ]
      ]
    ]
  ]

  loop_resolves :
      (ds : List Candidate)
      → (o : Option Found) × (for_each_promise (test_subpath fs join root) is_decisive none ds
          ≡ resolved o)
        × IsNearest ds o
  unfolding for_each_promise
  loop_resolves [] = (none, refl, nothing tt)
  loop_resolves (d ∷ ds) =
      let (o, e, k) = loop_resolves ds in
      let (found, f, n) = loop-IsNearest d ds o k in
      (
        found,
        ap
              (λ s.
                try_next (test_subpath fs join root) is_decisive none (test_subpath fs join root d)
                  s)
              e
            ∙ f,
        n,
      )

  -- `$findShinyDir_p` resolves for every list of directories. It chooses the first directory that
  -- holds an app, provided that all in front of it exist and hold none, and its type by the files
  -- found; a directory that does not exist ends the search, and without an app there is none.
  pub find_shiny_dir-IsNearest :
      (ds : List Candidate)
      → (o : Option Found) × (find_shiny_dir fs join root ds ≡ resolved o) × IsNearest ds o
  unfolding find_shiny_dir on_fail
  find_shiny_dir-IsNearest [] = (none, refl, nothing tt)
  find_shiny_dir-IsNearest (d ∷ ds) = let (o, e, k) = loop_resolves (d ∷ ds) in (o, ap on_fail e, k)
