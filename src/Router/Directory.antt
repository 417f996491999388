-- ===== src/Router/Directory.antt =====
-- lib/router/directory-router.js, `DirectoryRouter` and its `getAppSpec_p`, for a request of HTTP,
-- whose URL is parsed. The file system, `path.join`, `unescape` and the excluded pattern are
-- parameters, and so is what serves a file.
pub mod Launch
use shiny_server.Prelude.{
  ℕ, Bool, true, false, ◌&&◌, ◌||◌, List, [], ◌∷◌, ◌++◌, Option, none, some, ◌==◌, if◌then◌else◌,
  Text, codes, text_eq,
}
use shiny_server.Prelude.Chars.{is_line_end}
use shiny_server.Router.Paths.{Candidate, extract_unescaped_dirs}
use shiny_server.Router.Sequence.{Settled, resolved, rejected, pending}
use shiny_server.Router.AppDir.{FileSystem, AppType, Found, missing, no_app, app, find_shiny_dir}

-- `prefix.replace(/\/$/m, '')`
unfoldable pub strip_slash : Text → Text
unfolding is_line_end
strip_slash [] = []
strip_slash (c ∷ []) = if c == b'/' then [] else c ∷ []
strip_slash (c ∷ d ∷ cs) =
    let rest = strip_slash (d ∷ cs) in if c == b'/' && is_line_end d then d ∷ cs else c ∷ rest

-- The suffix behind the prefix, if the pattern `$rePath` matches.
unfoldable pub after_prefix : Text → Text → Option Text
after_prefix [] [] = some []
after_prefix [] (c ∷ cs) = if c == b'/' then some (c ∷ cs) else none
after_prefix (p ∷ ps) [] = none
after_prefix (p ∷ ps) (c ∷ cs) = let rest = after_prefix ps cs in if p == c then rest else none

-- `/\/\./.test`
unfoldable pub has_hidden : Text → Bool
has_hidden [] = false
has_hidden (c ∷ []) = false
has_hidden (c ∷ d ∷ cs) = (c == b'/' && d == b'.') || has_hidden (d ∷ cs)

-- `substring`
unfoldable pub drop : Text → Text → Text
drop [] t = t
drop (r ∷ rs) [] = []
drop (r ∷ rs) (c ∷ cs) = drop rs cs

pub record DirectoryRouter : Type 0 where
  pub root : Text
  pub run_as : List Text
  pub prefix : Text
  pub excluded : Option (Text → Bool)

unfoldable pub create : Text → List Text → Text → Option (Text → Bool) → DirectoryRouter
unfolding strip_slash
create root run_as prefix excluded = record {
  root = root;
  run_as = run_as;
  prefix = strip_slash prefix;
  excluded = excluded;
}

pub record AppSpec : Type 0 where
  pub app_dir : Text
  pub run_as : List Text
  pub prefix : Text
  pub mode : AppType

-- What becomes of the request: another router's, the page 403, a redirect, a file, the static
-- server's, or an app's.
pub data Reply : Type 0 where
  declined : Reply
  forbidden : Reply
  redirect : Text → Reply
  serve_index : Text → Reply
  static : Text → Reply
  launch : AppSpec → Reply

unfoldable pub is_excluded : Option (Text → Bool) → Text → Bool
is_excluded none suffix = false
is_excluded (some p) suffix = p suffix

module _ (fs : FileSystem) (join : Text → Text → Text) (unescape : Text → Text) where
  -- A directory is found: `suffix` is the URL's path behind the prefix.
  unfoldable pub serve_app :
      DirectoryRouter → Text → Text → Text → Candidate → AppType → Option Text → Reply
  serve_app r pathname search suffix d type (some file) =
      if text_eq d.raw_path suffix
      then redirect (pathname ++ (b'/' ∷ search))
      else if text_eq (drop d.raw_path suffix) (codes "/")
      then serve_index (join (join r.root d.path) file)
      else launch (record {
        app_dir = join r.root d.path;
        run_as = r.run_as;
        prefix = r.prefix ++ d.raw_path;
        mode = type;
      })
  serve_app r pathname search suffix d type none =
      if text_eq d.raw_path suffix
      then redirect (pathname ++ (b'/' ∷ search))
      else launch (record {
        app_dir = join r.root d.path;
        run_as = r.run_as;
        prefix = r.prefix ++ d.raw_path;
        mode = type;
      })

  -- `.fail` and `.then` of the search
  unfoldable pub on_found :
      DirectoryRouter → Text → Text → Text → Settled (Option Found) → Settled Reply
  unfolding serve_app
  on_found r pathname search suffix (resolved (some (app d type file))) =
      resolved (serve_app r pathname search suffix d type file)
  on_found r pathname search suffix (resolved (some missing)) = resolved (static suffix)
  on_found r pathname search suffix (resolved (some no_app)) = resolved (static suffix)
  on_found r pathname search suffix (resolved none) = resolved (static suffix)
  on_found r pathname search suffix (rejected err) = resolved (static suffix)
  on_found r pathname search suffix pending = pending

  unfoldable pub search_dirs :
      DirectoryRouter → Text → Text → Text → Option (List Candidate) → Settled Reply
  unfolding on_found find_shiny_dir
  search_dirs r pathname search suffix none = resolved declined
  search_dirs r pathname search suffix (some []) = resolved declined
  search_dirs r pathname search suffix (some (d ∷ ds)) =
      on_found r pathname search suffix (find_shiny_dir fs join r.root (d ∷ ds))

  unfoldable pub route_suffix : DirectoryRouter → Text → Text → Option Text → Settled Reply
  unfolding search_dirs has_hidden is_excluded extract_unescaped_dirs
  route_suffix r pathname search none = resolved declined
  route_suffix r pathname search (some suffix) =
      let found = search_dirs r pathname search suffix (extract_unescaped_dirs unescape suffix) in
      if has_hidden (unescape pathname) || is_excluded r.excluded suffix
      then resolved forbidden
      else found

  unfoldable pub get_app_spec : DirectoryRouter → Text → Text → Settled Reply
  unfolding route_suffix after_prefix
  get_app_spec r pathname search = route_suffix r pathname search (after_prefix r.prefix pathname)
