-- ===== src/Config/Node.antt =====
-- lib/config/config.js: the tree of nodes that the parser's directives become, and the lookups in
-- it. A node stands with the list of its ancestors, the nearest first, in place of its `parent`.
pub mod Search
pub mod Within
use shiny_server.Prelude.{
  ℕ, ◌+◌, Bool, true, false, ◌&&◌, not, List, [], ◌∷◌, ◌++◌, Option, none, some, if◌then◌else◌,
  Text, text_eq, map,
}
use shiny_server.Config.Lexer.{Position, Token}
use shiny_server.Config.Parser.{Directive, Directives, directive, nil, more}

-- A ConfigNode: its name, its arguments, its position, its depth and its children. The root has
-- neither a name nor a position.
mutual
  pub data Node : Type 0 where
    node : Option Text → List Text → Option Position → ℕ → Nodes → Node

  pub data Nodes : Type 0 where
    no_node : Nodes
    and : Node → Nodes → Nodes

abbrev pub content : Token → Text
content t = t.content

-- `directiveToConfig`, for a node with a parent of the depth.
unfoldable mutual
  pub directive_to_config : ℕ → Directive → Node
  directive_to_config depth (directive name args ds) =
      node (some name.content) (map content args) (some name.position) (depth + 1)
        (directives_to_config (depth + 1) ds)

  pub directives_to_config : ℕ → Directives → Nodes
  directives_to_config depth nil = no_node
  directives_to_config depth (more d ds) =
      and (directive_to_config depth d) (directives_to_config depth ds)

-- The root.
unfoldable pub root_node : Directives → Node
unfolding directives_to_config
root_node ds = node none [] none 0 (directives_to_config 0 ds)

unfoldable pub children : Node → Nodes
children (node name args at depth ns) = ns

unfoldable pub args_of : Node → List Text
args_of (node name args at depth ns) = args

unfoldable pub has_name : Text → Node → Bool
unfolding text_eq
has_name t (node none args at depth ns) = false
has_name t (node (some name) args at depth ns) = text_eq name t

-- The criteria of a lookup; a pattern is given by what it says of a node's name.
pub data Criteria : Type 0 where
  every : Criteria
  nothing : Criteria
  by_name : Text → Criteria
  by_function : (Node → Bool) → Criteria
  by_pattern : (Option Text → Bool) → Criteria

unfoldable pub name_of : Node → Option Text
name_of (node name args at depth ns) = name

-- `$makePredicate`
unfoldable pub make_predicate : Criteria → Node → Bool
unfolding has_name name_of
make_predicate every n = true
make_predicate nothing n = false
make_predicate (by_name t) n = has_name t n
make_predicate (by_function f) n = f n
make_predicate (by_pattern test) n = test (name_of n)

-- `_.find`
unfoldable pub find : (Node → Bool) → Nodes → Option Node
find p no_node = none
find p (and n ns) = let rest = find p ns in if p n then some n else rest

unfoldable pub or_else : Option Node → Option Node → Option Node
or_else (some n) rest = some n
or_else none rest = rest

-- `getOne`, on a predicate: the node and its ancestors.
unfoldable pub get_one_by : (Node → Bool) → Bool → Node → List Node → Option Node
unfolding find children or_else
get_one_by p inherit n [] = find p (children n)
get_one_by p inherit n (q ∷ qs) =
    let above = get_one_by p true q qs in
    or_else (find p (children n)) (if inherit then above else none)

unfoldable pub get_one : Criteria → Bool → Node → List Node → Option Node
unfolding get_one_by make_predicate
get_one c inherit n qs = get_one_by (make_predicate c) inherit n qs

unfoldable pub first_arg : Text → List Text → Text
first_arg default_value [] = default_value
first_arg default_value (a ∷ args) = a

unfoldable pub arg_or : Text → Option Node → Text
unfolding first_arg args_of
arg_or default_value none = default_value
arg_or default_value (some n) = first_arg default_value (args_of n)

unfoldable pub get_value : Criteria → Text → Bool → Node → List Node → Text
unfolding get_one arg_or
get_value c default_value inherit n qs = arg_or default_value (get_one c inherit n qs)

-- `getAll`
unfoldable pub filter : (Node → Bool) → Nodes → List Node
filter p no_node = []
filter p (and n ns) = let rest = filter p ns in if p n then n ∷ rest else rest

unfoldable pub get_all : Criteria → Node → List Node
unfolding filter children make_predicate
get_all c n = filter (make_predicate c) (children n)

abbrev pub if_found : Bool → Node → List Node
if_found true n = n ∷ []
if_found false n = []

-- `search`, on a predicate.
unfoldable mutual
  pub search_by : (Node → Bool) → Bool → Bool → Node → List Node
  search_by p include_self post_order (node name args at depth ns) =
      if_found (include_self && not post_order && p (node name args at depth ns))
        (node name args at depth ns)
      ++ (search_children p post_order ns
          ++ if_found (include_self && post_order && p (node name args at depth ns))
              (node name args at depth ns))

  pub search_children : (Node → Bool) → Bool → Nodes → List Node
  search_children p post_order no_node = []
  search_children p post_order (and n ns) =
      search_by p true post_order n ++ search_children p post_order ns

unfoldable pub search : Criteria → Bool → Bool → Node → List Node
unfolding search_by make_predicate
search c include_self post_order n = search_by (make_predicate c) include_self post_order n
