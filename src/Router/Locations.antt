-- ===== src/Router/Locations.antt =====
-- lib/router/router.js: the routers that a location is made of, for a request whose URL is parsed.
-- The listing of a directory and the time of a file are parameters; the patterns made from a
-- prefix match it literally.
pub mod Redirects
mod Tests
use shiny_server.Prelude.{
  ℕ, Bool, true, false, not, ◌||◌, ◌&&◌, List, [], ◌∷◌, ◌++◌, Option, none, some, if◌then◌else◌,
  Text, codes, text_eq, ℤ,
}
use shiny_server.Config.Schema.Rules.{integer, string}
use shiny_server.Config.Schema.Apply.{one}
use shiny_server.Router.AppDir.{
  find, is_found, is_app_file, is_rmd_file, is_index_rmd, is_index_htm, index_of, index_html,
  IndexType, html_index, Listing, listed, not_dir, fails,
}
use shiny_server.Router.Directory.{strip_slash, after_prefix}
use shiny_server.Router.LocalConfig.{Js, value, Fields, put, AppSpec}

-- A request: `url`, its parts, and whether it is one of HTTP, which has a response.
pub record Request : Type 0 where
  pub url : Text
  pub pathname : Text
  pub search : Text
  pub is_http : Bool

-- What becomes of the request.
pub data Reply (F : Type 0) : Type 0 where
  declined : Reply F
  redirect : ℕ → Text → Reply F
  serve_index : Text → Reply F
  launch : AppSpec F → Reply F
  failed : Reply F

abbrev pub Router : Type 0 → Type 0
Router F = Request → Reply F

module _ {F : Type 0} where
  unfoldable pub if_matches : Option Text → Reply F → Reply F
  if_matches none reply = declined
  if_matches (some suffix) reply = reply

  -- PrefixFilterRouter
  unfoldable pub prefix_filter_router : Router F → Text → Router F
  unfolding if_matches after_prefix strip_slash
  prefix_filter_router router prefix req =
      if_matches (after_prefix (strip_slash prefix) req.pathname) (router req)

  -- `safeStat_p`, with nothing for an error or a file that is not there.
  unfoldable pub restarted : Option ℤ → AppSpec F → AppSpec F
  unfolding put
  restarted none spec = spec
  restarted (some time) spec = record spec {
    settings = put (codes "restart") (value (some (one (integer (some time))))) spec.settings;
  }

  -- RestartRouter
  unfoldable pub restart_router : (Text → Option ℤ) → (Text → Text → Text) → Reply F → Reply F
  unfolding restarted
  restart_router mtime join (launch spec) =
      launch (restarted (mtime (join spec.app_dir (codes "restart.txt"))) spec)
  restart_router mtime join reply = reply

  unfoldable pub set_mode : Text → AppSpec F → AppSpec F
  unfolding put
  set_mode mode spec = record spec {
    settings = put (codes "mode") (value (some (one (string mode)))) spec.settings;
  }

-- A SingleAppRouter: `$prefix` ends with a slash.
pub record SingleApp (F : Type 0) : Type 0 where
  pub app_dir : Text
  pub run_as : List Text
  pub prefix : Text
  pub log_dir : Text
  pub settings : Fields F

module _ {F : Type 0} where
  unfoldable pub single_app : Text → List Text → Text → Text → Fields F → SingleApp F
  unfolding strip_slash
  single_app app_dir run_as prefix log_dir settings = record {
    app_dir = app_dir;
    run_as = run_as;
    prefix = strip_slash prefix ++ codes "/";
    log_dir = log_dir;
    settings = settings;
  }

  unfoldable pub spec_of : SingleApp F → AppSpec F
  spec_of r = record {
    app_dir = r.app_dir;
    run_as = r.run_as;
    prefix = r.prefix;
    log_dir = r.log_dir;
    settings = r.settings;
  }

  -- An index.html that stands in for a missing index.Rmd, for the location itself.
  unfoldable pub rmd_reply : SingleApp F → Request → Option Text → Reply F
  unfolding set_mode spec_of text_eq
  rmd_reply r req (some file) =
      if text_eq r.prefix req.url
      then serve_index file
      else launch (set_mode (codes "rmd") (spec_of r))
  rmd_reply r req none = launch (set_mode (codes "rmd") (spec_of r))

  unfoldable pub on_files : SingleApp F → Request → List Text → Reply F
  unfolding is_found find is_app_file is_rmd_file is_index_rmd is_index_htm index_of index_html
      rmd_reply set_mode spec_of
  on_files r req files =
      if is_found (find is_app_file files)
      then launch (set_mode (codes "shiny") (spec_of r))
      else if is_found (find is_rmd_file files)
      then (let (type, path) = index_of (find is_index_rmd files) (find is_index_htm files) in
          rmd_reply r req (index_html type path))
      else launch (spec_of r)

  unfoldable pub on_listing : SingleApp F → Request → Listing → Reply F
  unfolding on_files
  on_listing r req (listed files) = on_files r req files
  on_listing r req not_dir = failed
  on_listing r req fails = failed

  -- What the pattern leaves of the path: nothing of it for the location without its slash.
  unfoldable pub on_suffix : SingleApp F → Request → Listing → Option Text → Reply F
  unfolding on_listing
  on_suffix r req listing none = declined
  on_suffix r req listing (some []) =
      if req.is_http then redirect 301 (req.pathname ++ (b'/' ∷ req.search)) else declined
  on_suffix r req listing (some (c ∷ cs)) = on_listing r req listing

  -- `getAppSpec_p` of the SingleAppRouter with a prefix as it is configured.
  unfoldable pub single_app_router :
      (Text → Listing) → Text → List Text → Text → Text → Fields F → Router F
  unfolding on_suffix single_app after_prefix strip_slash
  single_app_router readdir app_dir run_as prefix log_dir settings req =
      on_suffix (single_app app_dir run_as prefix log_dir settings) req (readdir app_dir)
        (after_prefix (strip_slash prefix) req.pathname)

unfoldable pub is_exact : Option Text → Bool
unfolding text_eq
is_exact none = false
is_exact (some suffix) = text_eq suffix [] || text_eq suffix (codes "/")

module _ {F : Type 0} where
  -- RedirectRouter
  unfoldable pub redirect_router : Text → Text → ℕ → Bool → Router F
  unfolding after_prefix strip_slash is_exact is_found
  redirect_router prefix url status_code exact req =
      let m = after_prefix (strip_slash prefix) req.pathname in
      if not req.is_http
      then declined
      else if not (if exact then is_exact m else is_found m)
      then declined
      else redirect status_code url
