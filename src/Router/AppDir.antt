-- ===== src/Router/AppDir.antt =====
-- lib/router/directory-router.js, `$findShinyDir_p`: the directory of a URL's path that holds an
-- app. The file system and `path.join` are parameters.
pub mod Nearest
use shiny_server.Prelude.{
  ℕ, ◌+◌, Bool, true, false, not, ◌&&◌, ◌||◌, List, [], ◌∷◌, Option, none, some, ◌==◌, leb,
  if◌then◌else◌, Text, codes, text_eq, map,
}
use shiny_server.Router.Paths.{Candidate}
use shiny_server.Router.Sequence.{
  Call, resolves, Settled, resolved, rejected, pending, for_each_promise,
}

-- The letters that the flag `i` of a pattern does not tell apart.
unfoldable pub lower : ℕ → ℕ
lower c = if leb b'A' c && leb c b'Z' then c + 32 else c

unfoldable pub ends_with : Text → Text → Bool
unfolding text_eq
ends_with suffix [] = text_eq [] suffix
ends_with suffix (c ∷ cs) = text_eq (c ∷ cs) suffix || ends_with suffix cs

unfoldable pub find : (Text → Bool) → List Text → Option Text
find p [] = none
find p (t ∷ ts) = if p t then some t else find p ts

unfoldable pub is_found : Option Text → Bool
is_found none = false
is_found (some t) = true

-- `/^server\.r$/i` and `/^app\.r$/i`
unfoldable pub is_app_file : Text → Bool
unfolding lower text_eq
is_app_file entry =
    text_eq (map lower entry) (codes "server.r") || text_eq (map lower entry) (codes "app.r")

-- `/\.[rq]md$/i`
unfoldable pub is_rmd_file : Text → Bool
unfolding lower ends_with
is_rmd_file entry =
    ends_with (codes ".rmd") (map lower entry) || ends_with (codes ".qmd") (map lower entry)

-- `/^app\.py$/`
unfoldable pub is_py_app_file : Text → Bool
unfolding text_eq
is_py_app_file entry = text_eq entry (codes "app.py")

-- `/^index\.[rq]md$/i`
unfoldable pub is_index_rmd : Text → Bool
unfolding lower text_eq
is_index_rmd entry =
    text_eq (map lower entry) (codes "index.rmd") || text_eq (map lower entry) (codes "index.qmd")

-- `/index\.htm(l)?$/i`
unfoldable pub is_index_htm : Text → Bool
unfolding lower ends_with
is_index_htm entry =
    ends_with (codes "index.htm") (map lower entry)
    || ends_with (codes "index.html") (map lower entry)

-- What `fs.readdir` calls back with.
pub data Listing : Type 0 where
  listed : List Text → Listing
  not_dir : Listing
  fails : Listing

pub data IndexType : Type 0 where
  rmd_index html_index no_index : IndexType

pub record TestDir : Type 0 where
  pub exists : Bool
  pub is_app : Bool
  pub is_rmd : Bool
  pub is_py_app : Bool
  pub index_type : IndexType
  pub index_path : Option Text

unfoldable pub index_of : Option Text → Option Text → IndexType × Option Text
index_of (some r) htm = (rmd_index, some r)
index_of none (some h) = (html_index, some h)
index_of none none = (no_index, none)

unfoldable pub test_entries : List Text → TestDir
unfolding is_found index_of find is_app_file is_rmd_file is_py_app_file is_index_rmd is_index_htm
test_entries entries = record {
  exists = true;
  is_app = is_found (find is_app_file entries);
  is_rmd = is_found (find is_rmd_file entries);
  is_py_app = is_found (find is_py_app_file entries);
  index_type = (index_of (find is_index_rmd entries) (find is_index_htm entries)).0;
  index_path = (index_of (find is_index_rmd entries) (find is_index_htm entries)).1;
}

-- A directory without an app, or none.
unfoldable pub bare : Bool → TestDir
bare exists = record {
  exists = exists;
  is_app = false;
  is_rmd = false;
  is_py_app = false;
  index_type = no_index;
  index_path = none;
}

unfoldable pub test_listing : Listing → TestDir
unfolding test_entries bare
test_listing (listed entries) = test_entries entries
test_listing not_dir = bare false
test_listing fails = bare true

pub record FileSystem : Type 0 where
  pub exists : Text → Bool
  pub readdir : Text → Listing

unfoldable pub is_app_dir : FileSystem → Text → TestDir
unfolding test_listing bare
is_app_dir fs dir_path =
    if fs.exists dir_path then test_listing (fs.readdir dir_path) else bare false

pub data AppType : Type 0 where
  shiny rmd shiny_python : AppType

-- The `res` of a result: `false`, `null`, or a candidate with its type and its `indexHtml`.
pub data Found : Type 0 where
  missing : Found
  no_app : Found
  app : Candidate → AppType → Option Text → Found

unfoldable pub index_html : IndexType → Option Text → Option Text
index_html html_index path = path
index_html rmd_index path = none
index_html no_index path = none

unfoldable pub examine : Candidate → TestDir → Found
unfolding index_html
examine subpath d =
    if not d.exists
    then missing
    else if d.is_app
    then app subpath shiny none
    else if d.is_rmd
    then app subpath rmd (index_html d.index_type d.index_path)
    else if d.is_py_app
    then app subpath shiny_python none
    else no_app

unfoldable pub is_decisive : Option Found → Bool
is_decisive (some no_app) = false
is_decisive (some missing) = true
is_decisive (some (app d t i)) = true
is_decisive none = true

-- `.fail`: an error counts as no app.
unfoldable pub on_fail : Settled (Option Found) → Settled (Option Found)
on_fail (rejected err) = resolved (some no_app)
on_fail (resolved v) = resolved v
on_fail pending = pending

module _ (fs : FileSystem) (join : Text → Text → Text) (root : Text) where
  unfoldable pub test_subpath : Candidate → Call (Option Found)
  unfolding examine is_app_dir
  test_subpath subpath = resolves (some (examine subpath (is_app_dir fs (join root subpath.path))))

  unfoldable pub find_shiny_dir : List Candidate → Settled (Option Found)
  unfolding test_subpath is_decisive on_fail for_each_promise
  find_shiny_dir [] = resolved none
  find_shiny_dir (d ∷ ds) = on_fail (for_each_promise test_subpath is_decisive none (d ∷ ds))
