-- ===== src/Router/ConfigRouter/Paths.antt =====
-- lib/router/config-router.js: the URL path of a location, which nests in those of its ancestors.
use shiny_server.Prelude.{
  List, [], ◌∷◌, ◌++◌, Option, none, some, ◌==◌, if◌then◌else◌, Text, codes, walked_eq,
}
use shiny_server.Prelude.Dict.{lookup}
use shiny_server.Config.Node.{Node, has_name}
use shiny_server.Config.Node.Within.{Place}
use shiny_server.Config.Schema.Results.{no_text, Checked, passes, throws, ◌>>=◌}
use shiny_server.Config.Schema.Apply.{Values}
use shiny_server.Router.AppSettings.{text_in}

-- `.replace(/\/$/, '')`
unfoldable pub strip_end : Text → Text
strip_end [] = []
strip_end (c ∷ []) = if c == b'/' then [] else c ∷ []
strip_end (c ∷ d ∷ cs) = c ∷ strip_end (d ∷ cs)

-- `.replace(/^\//, '')`
unfoldable pub strip_front : Text → Text
strip_front [] = []
strip_front (c ∷ cs) = if c == b'/' then cs else c ∷ cs

unfoldable pub join_url_parts : Text → Text → Text
unfolding strip_end strip_front
join_url_parts a b = strip_end a ++ (b'/' ∷ strip_front b)

-- A path with a slash in front.
unfoldable pub rooted : Text → Text
rooted [] = b'/' ∷ []
rooted (c ∷ cs) = if c == b'/' then c ∷ cs else b'/' ∷ c ∷ cs

unfoldable pub text_or_fail : Option Text → Checked Text
text_or_fail none = throws no_text
text_or_fail (some t) = passes t

-- `values` gives what a node's `values` hold.
module _ {F : Type 0} (values : Node → Values F) where
  -- `locNode.values.path`, which the rule of a location requires.
  unfoldable pub path_of : Node → Checked Text
  unfolding text_or_fail text_in lookup
  path_of n = text_or_fail (text_in (lookup (codes "path") (values n)))

  -- The loop, from the path so far and the ancestors.
  unfoldable pub derive_from : Text → List Node → Checked Text
  unfolding path_of has_name join_url_parts
  derive_from path [] = passes path
  derive_from path (q ∷ qs) =
      let outer = (do above ← path_of q; derive_from (join_url_parts above path) qs) in
      if has_name (codes "location") q then outer else passes path

  unfoldable pub derive_location_path : Place → Checked Text
  unfolding path_of derive_from rooted
  derive_location_path at = do
    path ← path_of at.node
    full ← derive_from path at.above
    passes (rooted full)
