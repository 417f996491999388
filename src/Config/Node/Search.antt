-- ===== src/Config/Node/Search.antt =====
-- What the lookups in the tree of nodes find.
use shiny_server.Prelude.{
  ◌≡◌, refl, ap, sym, ◌∙◌, Bool, true, false, List, [], ◌∷◌, ◌++◌, Option, none, some, All,
  append_assoc, append-nil,
}
use shiny_server.Config.Node.{
  Node, Nodes, node, no_node, and, children, Criteria, make_predicate, find, or_else, get_one_by,
  get_one, if_found, search_by, search_children, search,
}

-- All nodes below a list of nodes, parents first.
mutual
  pub preorder : Node → List Node
  preorder (node name args at depth ns) = node name args at depth ns ∷ preorder_all ns

  pub preorder_all : Nodes → List Node
  preorder_all no_node = []
  preorder_all (and n ns) = preorder n ++ preorder_all ns

-- The same, parents last.
mutual
  pub postorder : Node → List Node
  postorder (node name args at depth ns) = postorder_all ns ++ (node name args at depth ns ∷ [])

  pub postorder_all : Nodes → List Node
  postorder_all no_node = []
  postorder_all (and n ns) = postorder n ++ postorder_all ns

abbrev pub select : (Node → Bool) → List Node → List Node
select p [] = []
select p (n ∷ ns) = if_found (p n) n ++ select p ns

select-append :
    (p : Node → Bool) (xs ys : List Node) → select p (xs ++ ys) ≡ select p xs ++ select p ys
select-append p [] ys = refl
select-append p (x ∷ xs) ys =
    ap (λ t. if_found (p x) x ++ t) (select-append p xs ys)
    ∙ sym (append_assoc (if_found (p x) x) (select p xs) (select p ys))

mutual
  unfolding search_by preorder

  search_by-preorder :
      (p : Node → Bool) (n : Node) → search_by p true false n ≡ select p (preorder n)
  search_by-preorder p (node name args at depth ns) =
      ap (λ t. if_found (p (node name args at depth ns)) (node name args at depth ns) ++ t)
        (append-nil (search_children p false ns) ∙ search_children-preorder p ns)

  search_children-preorder :
      (p : Node → Bool) (ns : Nodes) → search_children p false ns ≡ select p (preorder_all ns)
  search_children-preorder p no_node = refl
  search_children-preorder p (and n ns) =
      ap (λ t. t ++ search_children p false ns) (search_by-preorder p n)
      ∙ ap (λ t. select p (preorder n) ++ t) (search_children-preorder p ns)
      ∙ sym (select-append p (preorder n) (preorder_all ns))

mutual
  unfolding search_by postorder

  search_by-postorder :
      (p : Node → Bool) (n : Node) → search_by p true true n ≡ select p (postorder n)
  search_by-postorder p (node name args at depth ns) =
      ap (λ t. t ++ if_found (p (node name args at depth ns)) (node name args at depth ns))
        (search_children-postorder p ns)
      ∙ ap (λ t. select p (postorder_all ns) ++ t)
          (sym
            (append-nil (if_found (p (node name args at depth ns)) (node name args at depth ns))))
      ∙ sym (select-append p (postorder_all ns) (node name args at depth ns ∷ []))

  search_children-postorder :
      (p : Node → Bool) (ns : Nodes) → search_children p true ns ≡ select p (postorder_all ns)
  search_children-postorder p no_node = refl
  search_children-postorder p (and n ns) =
      ap (λ t. t ++ search_children p true ns) (search_by-postorder p n)
      ∙ ap (λ t. select p (postorder n) ++ t) (search_children-postorder p ns)
      ∙ sym (select-append p (postorder n) (postorder_all ns))

-- `search` finds exactly the nodes of the tree that match, with the node itself, each in its place:
-- a parent in front of its children, or in post-order behind them.
pub search-select :
    (c : Criteria) (n : Node)
    → (search c true false n ≡ select (make_predicate c) (preorder n))
      × (search c true true n ≡ select (make_predicate c) (postorder n))
unfolding search
search-select c n =
    (search_by-preorder (make_predicate c) n, search_by-postorder (make_predicate c) n)

-- What the nearest node of a chain with a matching child gives.
pub data IsInherited (p : Node → Bool) (chain : List Node) : Option Node → Type 0 where
  nowhere : All (λ q. find p (children q) ≡ none) chain → IsInherited p chain none
  at_node :
      (before : List Node) (q : Node) (after : List Node) (n : Node)
      → chain ≡ before ++ (q ∷ after)
      → All (λ r. find p (children r) ≡ none) before
      → find p (children q) ≡ some n
      → IsInherited p chain (some n)

above-IsInherited :
    (p : Node → Bool) (n : Node) (qs : List Node) (found : Option Node) (o : Option Node)
    → find p (children n) ≡ found
    → IsInherited p qs o
    → IsInherited p (n ∷ qs) (or_else found o)
unfolding or_else
above-IsInherited p n qs (some m) o e k = at_node [] n qs m refl tt e
above-IsInherited p n qs none _ e (nowhere h) = nowhere (e, h)
above-IsInherited p n qs none _ e (at_node before q after m s h f) =
    at_node (n ∷ before) q after m (ap (λ t. n ∷ t) s) (e, h) f

alone-IsInherited :
    (p : Node → Bool) (n : Node) (o : Option Node)
    → find p (children n) ≡ o
    → IsInherited p (n ∷ []) o
alone-IsInherited p n none e = nowhere (e, tt)
alone-IsInherited p n (some m) e = at_node [] n [] m refl tt e

get_one_by-IsInherited :
    (p : Node → Bool) (n : Node) (qs : List Node) → IsInherited p (n ∷ qs) (get_one_by p true n qs)
unfolding get_one_by
get_one_by-IsInherited p n [] = alone-IsInherited p n _ refl
get_one_by-IsInherited p n (q ∷ qs) =
    above-IsInherited p n (q ∷ qs) _ _ refl (get_one_by-IsInherited p q qs)

-- `getOne` with inheritance gives the first matching child of the nearest node, from the node
-- itself up to the root, that has a matching child, and null when no node has one.
pub get_one-IsInherited :
    (c : Criteria) (n : Node) (qs : List Node)
    → IsInherited (make_predicate c) (n ∷ qs) (get_one c true n qs)
unfolding get_one
get_one-IsInherited c n qs = get_one_by-IsInherited (make_predicate c) n qs
