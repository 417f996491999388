-- ===== src/Config/Node/Within.antt =====
-- lib/config/config.js: `search`, with each node that it finds standing by its ancestors, as the
-- code meets it through `parent`; and the lookups from such a node.
use shiny_server.Prelude.{
  ◌≡◌, refl, ap, ◌∙◌, Bool, true, false, not, ◌&&◌, Option, none, some, if◌then◌else◌, arith, List,
  [], ◌∷◌, ◌++◌, map,
}
use shiny_server.Config.Node.{
  Node, Nodes, node, no_node, and, Criteria, make_predicate, get_one_by, get_one, find, children,
  if_found, search_by, search_children, search,
}

-- A node with its ancestors, the nearest first.
pub record Place : Type 0 where
  pub node : Node
  pub above : List Node

abbrev pub place_if : Bool → Node → List Node → List Place
place_if true n qs = record { node = n; above = qs } ∷ []
place_if false n qs = []

unfoldable mutual
  pub search_places : (Node → Bool) → Bool → Bool → Node → List Node → List Place
  search_places p include_self post_order (node name args at depth ns) qs =
      place_if (include_self && not post_order && p (node name args at depth ns))
        (node name args at depth ns) qs
      ++ (search_below p post_order ns (node name args at depth ns ∷ qs)
          ++ place_if (include_self && post_order && p (node name args at depth ns))
              (node name args at depth ns) qs)

  pub search_below : (Node → Bool) → Bool → Nodes → List Node → List Place
  search_below p post_order no_node qs = []
  search_below p post_order (and n ns) qs =
      search_places p true post_order n qs ++ search_below p post_order ns qs

-- `place.getOne`
unfoldable pub find_from : Criteria → Bool → Place → Option Node
unfolding get_one
find_from c inherit at = get_one c inherit at.node at.above

unfoldable pub place_in : List Node → Option Node → Option Place → Option Place
place_in qs none otherwise = otherwise
place_in qs (some n) otherwise = some (record { node = n; above = qs })

-- `getOne` on a predicate, with where the node is found.
unfoldable pub find_place_by : (Node → Bool) → Bool → Node → List Node → Option Place
unfolding find children place_in
find_place_by p inherit n [] = place_in (n ∷ []) (find p (children n)) none
find_place_by p inherit n (q ∷ qs) =
    let above = find_place_by p true q qs in
    place_in (n ∷ q ∷ qs) (find p (children n)) (if inherit then above else none)

unfoldable pub find_place : Criteria → Bool → Place → Option Place
unfolding find_place_by make_predicate
find_place c inherit at = find_place_by (make_predicate c) inherit at.node at.above

abbrev pub node_of_place : Option Place → Option Node
node_of_place none = none
node_of_place (some at) = some at.node

find_place_by-get_one_by :
    (p : Node → Bool) (inherit : Bool) (n : Node) (qs : List Node)
    → node_of_place (find_place_by p inherit n qs) ≡ get_one_by p inherit n qs
unfolding find_place_by get_one_by
find_place_by-get_one_by p inherit n [] = ground arith
find_place_by-get_one_by p inherit n (q ∷ qs) = ground (arith, find_place_by-get_one_by p true q qs)

-- The place that is found is that of the node that `getOne` finds.
pub find_place-get_one :
    (c : Criteria) (inherit : Bool) (at : Place)
    → node_of_place (find_place c inherit at) ≡ get_one c inherit at.node at.above
unfolding find_place get_one
find_place-get_one c inherit at =
    find_place_by-get_one_by (make_predicate c) inherit at.node at.above

-- `place.search`
unfoldable pub search_from : Criteria → Bool → Bool → Place → List Place
unfolding search_places make_predicate
search_from c include_self post_order at =
    search_places (make_predicate c) include_self post_order at.node at.above

map-append {ℓ κ} :
    {A : Type ℓ} {B : Type κ} (f : A → B) (xs ys : List A) → map f (xs ++ ys) ≡ map f xs ++ map f ys
map-append f [] ys = refl
map-append f (x ∷ xs) ys = ap (λ t. f x ∷ t) (map-append f xs ys)

place_if-nodes :
    (b : Bool) (n : Node) (qs : List Node) → map (λ at. at.node) (place_if b n qs) ≡ if_found b n
place_if-nodes true n qs = refl
place_if-nodes false n qs = refl

mutual
  unfolding search_by search_places

  nodes_of_places :
      (p : Node → Bool) (include_self post_order : Bool) (n : Node) (qs : List Node)
      → map (λ at. at.node) (search_places p include_self post_order n qs)
        ≡ search_by p include_self post_order n
  nodes_of_places p include_self post_order (node name args at depth ns) qs =
      let self = node name args at depth ns in
      map-append (λ p. p.node) (place_if (include_self && not post_order && p self) self qs) _
      ∙ cc (
        map-append (λ p. p.node) (search_below p post_order ns (self ∷ qs))
            (place_if (include_self && post_order && p self) self qs),
        place_if-nodes (include_self && not post_order && p self) self qs,
        place_if-nodes (include_self && post_order && p self) self qs,
        nodes_below p post_order ns (self ∷ qs),
      )

  nodes_below :
      (p : Node → Bool) (post_order : Bool) (ns : Nodes) (qs : List Node)
      → map (λ at. at.node) (search_below p post_order ns qs) ≡ search_children p post_order ns
  nodes_below p post_order no_node qs = refl
  nodes_below p post_order (and n ns) qs = cc (
    map-append (λ p. p.node) (search_places p true post_order n qs)
        (search_below p post_order ns qs),
    nodes_of_places p true post_order n qs,
    nodes_below p post_order ns qs,
  )

-- The places are those of the nodes that `search` finds, in its order.
pub search_from-search :
    (c : Criteria) (include_self post_order : Bool) (at : Place)
    → map (λ found. found.node) (search_from c include_self post_order at)
      ≡ search c include_self post_order at.node
unfolding search search_from
search_from-search c include_self post_order at =
    nodes_of_places (make_predicate c) include_self post_order at.node at.above
