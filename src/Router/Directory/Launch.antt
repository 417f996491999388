-- ===== src/Router/Directory/Launch.antt =====
-- What holds of the apps that a DirectoryRouter launches.
use shiny_server.Prelude.{
  ◌≡◌, refl, sym, ap, ◌∙◌, subst, false, ◌||◌, List, [], ◌∷◌, ◌++◌, Option, none, some, ◌==◌, Text,
  text_eq, text_eq_refl, ==_iff, arith, All, append_assoc, append-nil, Bool-cases, inl, inr,
}
use shiny_server.Router.Paths.{Candidate, extract_unescaped_dirs}
use shiny_server.Router.Paths.Safety.{Inside, Fits, IsBreak, extract_unescaped_dirs-Fits}
use shiny_server.Router.Sequence.{resolved}
use shiny_server.Router.AppDir.{FileSystem, AppType, Found}
use shiny_server.Router.AppDir.Nearest.{
  IsNearest, nothing, breaks, serves, HasApp, find_shiny_dir-IsNearest,
}
use shiny_server.Router.Directory.{
  after_prefix, has_hidden, DirectoryRouter, AppSpec, launch, is_excluded, serve_app, on_found,
  search_dirs, route_suffix, get_app_spec,
}

pub after_prefix_split : (p t s : Text) → after_prefix p t ≡ some s → t ≡ p ++ s
unfolding after_prefix
after_prefix_split [] [] s e = ground arith
after_prefix_split [] (c ∷ cs) s e = ground arith
after_prefix_split (p ∷ ps) [] s e = cc
after_prefix_split (p ∷ ps) (c ∷ cs) s e = elim (Bool-cases (p == c)) [
  | inl same ↦ cc ((==_iff p c).0 same, after_prefix_split ps cs s (ground arith))
  | inr other ↦ absurd (ground arith)
]

All-member :
    (P : Candidate → Type 0) (before : List Candidate) (d : Candidate) (after : List Candidate)
    → All P (before ++ (d ∷ after))
    → P d
All-member P [] d after h = h.0
All-member P (x ∷ xs) d after h = All-member P xs d after h.1

module _ (fs : FileSystem) (join : Text → Text → Text) (unescape : Text → Text)
    (r : DirectoryRouter) (pathname search : Text) where
  serve_app-launch :
      (suffix : Text) (d : Candidate) (type : AppType) (file : Option Text) (spec : AppSpec)
      → serve_app fs join unescape r pathname search suffix d type file ≡ launch spec
      → (text_eq d.raw_path suffix ≡ false)
        × (spec.app_dir ≡ join r.root d.path)
        × (spec.prefix ≡ r.prefix ++ d.raw_path)
        × (spec.run_as ≡ r.run_as)
        × (spec.mode ≡ type)
  unfolding serve_app
  serve_app-launch suffix d type (some file) spec e = ground arith
  serve_app-launch suffix d type none spec e = ground arith

  -- The URL's path is the app's prefix, a slash and the rest; the app's directory lies below the
  -- root and holds an app.
  pub record IsServed (spec : AppSpec) : Type 0 where
    pub dir : Candidate
    pub file : Option Text
    pub rest : Text
    pub inside : Inside dir.path
    pub app_dir_eq : spec.app_dir ≡ join r.root dir.path
    pub path_eq : pathname ≡ spec.prefix ++ (b'/' ∷ rest)
    pub no_hidden : has_hidden (unescape pathname) ≡ false
    pub has_app : HasApp fs join r.root dir spec.mode file
    pub run_as_eq : spec.run_as ≡ r.run_as

  behind_break :
      (suffix raw : Text)
      → text_eq raw suffix ≡ false
      → IsBreak suffix raw
      → (rest : Text) × (suffix ≡ raw ++ (b'/' ∷ rest))
  behind_break suffix raw differs (t, e, inl ends) =
      let same : suffix ≡ raw = e ∙ ap (λ u. raw ++ u) ends ∙ append-nil raw in
      absurd (cc (differs, text_eq_refl raw, same))
  behind_break suffix raw differs (t, e, inr (u, slash)) = (u, e ∙ ap (λ v. raw ++ v) slash)

  found-IsServed :
      (suffix : Text) (ds : List Candidate) (o : Option Found) (spec : AppSpec)
      → pathname ≡ r.prefix ++ suffix
      → has_hidden (unescape pathname) ≡ false
      → All (Fits suffix) ds
      → IsNearest fs join r.root ds o
      → on_found fs join unescape r pathname search suffix (resolved o) ≡ resolved (launch spec)
      → IsServed spec
  unfolding on_found
  found-IsServed suffix ds _ spec p h f (nothing ps) e = cc
  found-IsServed suffix ds _ spec p h f (breaks before d after s ps gone) e = cc
  found-IsServed suffix ds _ spec p h f (serves before d after t i s ps there app') e =
      let launched : serve_app fs join unescape r pathname search suffix d t i ≡ launch spec = cc in
      let (differs, dir_eq, prefix_eq, run_eq, mode_eq) =
        serve_app-launch suffix d t i spec launched in
      let fits = All-member (Fits suffix) before d after (subst (All (Fits suffix)) s f) in
      let (rest, behind) = behind_break suffix d.raw_path differs fits.1 in
      record {
        dir = d;
        file = i;
        rest = rest;
        inside = fits.0;
        app_dir_eq = dir_eq;
        path_eq =
            p
            ∙ ap (λ u. r.prefix ++ u) behind
            ∙ sym (append_assoc r.prefix d.raw_path _)
            ∙ ap (λ u. u ++ (b'/' ∷ rest)) (sym prefix_eq);
        no_hidden = h;
        has_app = subst (λ m. HasApp fs join r.root d m i) (sym mode_eq) app';
        run_as_eq = run_eq;
      }

  search_dirs-IsServed :
      (suffix : Text) (o : Option (List Candidate)) (spec : AppSpec)
      → pathname ≡ r.prefix ++ suffix
      → has_hidden (unescape pathname) ≡ false
      → ((ds : List Candidate) → o ≡ some ds → All (Fits suffix) ds)
      → search_dirs fs join unescape r pathname search suffix o ≡ resolved (launch spec)
      → IsServed spec
  unfolding search_dirs
  search_dirs-IsServed suffix none spec p h f e = cc
  search_dirs-IsServed suffix (some []) spec p h f e = cc
  search_dirs-IsServed suffix (some (d ∷ ds)) spec p h f e =
      let (o, found, k) = find_shiny_dir-IsNearest fs join r.root (d ∷ ds) in
      found-IsServed suffix (d ∷ ds) o spec p h (f (d ∷ ds) refl) k
        (ap (λ s. on_found fs join unescape r pathname search suffix s) (sym found) ∙ e)

  route_suffix-IsServed :
      (o : Option Text) (spec : AppSpec)
      → ((suffix : Text) → o ≡ some suffix → pathname ≡ r.prefix ++ suffix)
      → route_suffix fs join unescape r pathname search o ≡ resolved (launch spec)
      → IsServed spec
  unfolding route_suffix
  route_suffix-IsServed none spec p e = cc
  route_suffix-IsServed (some suffix) spec p e =
      elim (Bool-cases (has_hidden (unescape pathname) || is_excluded r.excluded suffix)) [
        | inl bad ↦ absurd (ground arith)
        | inr good ↦
            search_dirs-IsServed suffix (extract_unescaped_dirs unescape suffix) spec
              (p suffix refl) (ground arith) (λ ds. extract_unescaped_dirs-Fits unescape suffix ds)
              (ground arith)
      ]

  -- An app that a DirectoryRouter launches has a prefix that is the URL's path up to a slash, a
  -- directory that is the root joined with a path of proper names, which holds an app of the
  -- AppSpec's mode, and the router's users; and the unescaped URL's path has no hidden element.
  pub get_app_spec-IsServed :
      (spec : AppSpec)
      → get_app_spec fs join unescape r pathname search ≡ resolved (launch spec)
      → IsServed spec
  unfolding get_app_spec
  get_app_spec-IsServed spec e =
      route_suffix-IsServed (after_prefix r.prefix pathname) spec
        (λ suffix. after_prefix_split r.prefix pathname suffix) e
