-- ===== src/Config/Schema/Conforms/Whole.antt =====
-- The configurations that `applySchema` accepts conform to the rules of the schema.
use shiny_server.Prelude.{
  some_is, ℕ, ◌+◌, ◌≤◌, ◌<◌, ◌≡◌, sym, ap, ◌∙◌, subst, true, List, [], ◌∷◌, ◌++◌, Option, none,
  some, inl, inr, if◌then◌else◌, length, length-append, Text, text_eq, text_eq_iff, arith,
  Bool-cases, walked_eq,
}
use shiny_server.Prelude.Dict.{lookup, insert, lookup-insert}
use shiny_server.Config.Lexer.{Position}
use shiny_server.Config.Node.{Node, Nodes, node, no_node, and, has_name, children}
use shiny_server.Config.Schema.Results.{passes_is, passes, >>=-eq-passes}
use shiny_server.Config.Schema.Rules.{Rule, create_rule}
use shiny_server.Config.Schema.Apply.{
  Values, count_name, count_nodes, validate_max_count, apply_to, rule_for, rules_of, apply_below,
  apply_node, apply_schema,
}
use shiny_server.Config.Schema.Created.{IsRule}
use shiny_server.Config.Schema.Created.Made.{create_rule-IsRule}
use shiny_server.Config.Schema.Conforms.{
  named, Rules, WithinLimits, ConformBelow, ConformNode, count_name-snoc, max_count-le, AllRules,
  rule_for-found, apply_to-Accepted,
}

-- The number of nodes of a name stays within the limit from one child to the next.
Limits : {F : Type 0} → Rules F → List Node → Nodes → Type 0
Limits {F} rules before ns =
    (name : Text) (r : Rule F) (m : ℕ)
    → lookup name rules ≡ some r
    → r.max_count ≡ some m
    → count_name name before ≤ m
    → count_name name before + named name ns ≤ m

next_limit :
    {F : Type 0} (rules : Rules F) (before : List Node) (n : Node) (ns : Nodes)
    → ((name : Text) (r : Rule F) (m : ℕ)
        → lookup name rules ≡ some r
        → r.max_count ≡ some m
        → has_name name n ≡ true
        → count_name name before + 1 ≤ m)
    → Limits rules (before ++ (n ∷ [])) ns
    → Limits rules before (and n ns)
unfolding Limits named
next_limit rules before n ns counted rest name r m there limit small =
    elim (Bool-cases (has_name name n)) [
      | inl same ↦
          let c = counted name r m there limit same in
          let snoc : count_name name (before ++ (n ∷ [])) ≡ count_name name before + 1 =
            ground (arith, count_name-snoc name before n, same) in
          ground (arith, rest name r m there limit (omega (arith, c, snoc)), snoc, same)
      | inr other ↦
          let snoc : count_name name (before ++ (n ∷ [])) ≡ count_name name before =
            ground (arith, count_name-snoc name before n, other) in
          ground (arith, rest name r m there limit (omega (arith, small, snoc)), snoc, other)
    ]

Limits-nil : {F : Type 0} (rules : Rules F) (before : List Node) → Limits rules before no_node
unfolding Limits named
Limits-nil rules before name r m there limit small = omega (arith, small)

Limits-all :
    {F : Type 0} (rules : Rules F) (ns : Nodes) → Limits rules [] ns → WithinLimits rules ns
unfolding Limits WithinLimits count_name
Limits-all rules ns h name r m there limit = omega (arith, h name r m there limit (omega arith))

node_counted :
    {F : Type 0} (rules : Rules F) (found r : Rule F) (other name name' : Text) (before : List Node)
    (siblings : Nodes) (m : ℕ)
    → other ≡ name
    → lookup name rules ≡ some found
    → validate_max_count found.max_count other before siblings ≡ passes tt
    → length before < count_nodes siblings
    → lookup name' rules ≡ some r
    → r.max_count ≡ some m
    → text_eq name name' ≡ true
    → count_name name' before + 1 ≤ m
node_counted rules found r other name name' before siblings m same there checked inside there' limit
      e =
    let names : name ≡ name' = (text_eq_iff name name').0 e in
    let rule : found ≡ r = some_is found r (sym there ∙ ap (λ n. lookup n rules) names ∙ there') in
    subst (λ t. count_name t before + 1 ≤ m) (same ∙ names)
      (max_count-le found.max_count m other before siblings (ap (λ x. x.max_count) rule ∙ limit)
        inside checked)

nameless :
    {F : Type 0} (parse_float : Text → F) (rules : Rules F) (parent : Option Text)
    (before : List Node) (siblings : Nodes) (args : List Text) (at : Option Position) (depth : ℕ)
    (ns : Nodes) (vs : List (Values F))
    → apply_node parse_float rules parent before siblings (node none args at depth ns) ≡ passes vs
    → ⊥
unfolding apply_node rule_for
nameless parse_float rules parent before siblings args at depth ns vs h = cc h

mutual
  unfolding apply_below count_nodes ConformBelow has_name

  below-Conforms :
      {F : Type 0} (parse_float : Text → F) (rules : Rules F) (parent : Option Text)
      (before : List Node) (siblings ns : Nodes) (vs : List (Values F))
      → AllRules rules
      → length before + count_nodes ns ≡ count_nodes siblings
      → apply_below parse_float rules parent before siblings ns ≡ passes vs
      → ConformBelow parse_float rules parent siblings ns vs × Limits rules before ns
  below-Conforms parse_float rules parent before siblings no_node vs made whole h =
      (sym (passes_is _ vs h), Limits-nil rules before)
  below-Conforms parse_float rules parent before siblings (and n ns) vs made whole h =
      let (us, first, k) =
        >>=-eq-passes (apply_node parse_float rules parent before siblings n) _ h in
      let (ws, later, all) =
        >>=-eq-passes (apply_below parse_float rules parent (before ++ (n ∷ [])) siblings ns) _ k in
      let (conform, counted) =
        node-Conforms parse_float rules parent before siblings n us made (omega (arith, whole))
          first in
      let (others, limits) =
        below-Conforms parse_float rules parent (before ++ (n ∷ [])) siblings ns ws made
          (omega (arith, whole, length-append before (n ∷ []))) later in
      (
        (us, ws, sym (passes_is _ vs all), conform, others),
        next_limit rules before n ns counted limits,
      )

  node-Conforms :
      {F : Type 0} (parse_float : Text → F) (rules : Rules F) (parent : Option Text)
      (before : List Node) (siblings : Nodes) (n : Node) (vs : List (Values F))
      → AllRules rules
      → length before < count_nodes siblings
      → apply_node parse_float rules parent before siblings n ≡ passes vs
      → ConformNode parse_float rules parent siblings n vs
        × ((name : Text) (r : Rule F) (m : ℕ)
            → lookup name rules ≡ some r
            → r.max_count ≡ some m
            → has_name name n ≡ true
            → count_name name before + 1 ≤ m)
  node-Conforms parse_float rules parent before siblings (node none args at depth ns) vs made inside
        h =
      absurd (nameless parse_float rules parent before siblings args at depth ns vs h)
  node-Conforms parse_float rules parent before siblings (node (some name) args at depth ns) vs made
        inside h =
      let (found, e, k) = >>=-eq-passes (rule_for parse_float (some name) rules) _ h in
      let (us, f, l) =
        >>=-eq-passes (apply_to parse_float found.1 found.0 args parent before siblings) _ k in
      let (ws, g, stored) =
        >>=-eq-passes (apply_below parse_float rules (some name) [] ns ns) _ l in
      let (same, there) = rule_for-found parse_float name rules found e in
      let a =
        apply_to-Accepted parse_float found.1 found.0 args parent before siblings us
          (made name found.1 there) f in
      let (below, limits) =
        below-Conforms parse_float rules (some name) [] ns ns ws made (omega arith) g in
      (
        (
          us,
          ws,
          sym (passes_is _ vs stored),
          (found.1, there, a.obeys),
          Limits-all rules ns limits,
          below,
        ),
        λ name' r m there' limit e.
            node_counted rules found.1 r found.0 name name' before siblings m same there a.counted
              inside there' limit e,
      )

add_rule :
    {F : Type 0} (name : Text) (r : Rule F) (rules : Rules F)
    → AllRules rules
    → IsRule r
    → AllRules (insert name r rules)
add_rule name r rules good made other q e = elim (Bool-cases (text_eq name other)) [
  | inl same ↦
      subst IsRule
        (some_is r q (
          sym (
            lookup-insert name other r rules
            ∙ ap (λ t. if t then some r else lookup other rules) same)
          ∙ e))
        made
  | inr different ↦ good other q (
      sym (
        lookup-insert name other r rules
        ∙ ap (λ t. if t then some r else lookup other rules) different)
      ∙ e)
]

rules_made :
    {F : Type 0} (parse_float : Text → F) (root : Node) (ns : Nodes) (rules made : Rules F)
    → AllRules rules
    → rules_of parse_float root ns rules ≡ passes made
    → AllRules made
unfolding rules_of
rules_made parse_float root no_node rules made good h = subst AllRules (passes_is rules made h) good
rules_made parse_float root (and (node none args at depth below) ns) rules made good h =
    rules_made parse_float root ns rules made good h
rules_made parse_float root (and (node (some name) args at depth below) ns) rules made good h =
    let (r, e, k) =
      >>=-eq-passes (create_rule parse_float root (node (some name) args at depth below)) _ h in
    rules_made parse_float root ns (insert name r rules) made
      (add_rule name r rules good
        (create_rule-IsRule parse_float root (node (some name) args at depth below) r e))
      k

no_rules : {F : Type 0} → AllRules {F = F} []
unfolding lookup
no_rules name r e = cc e

-- A configuration that is accepted has a table of rules by which, in every scope, no directive
-- stands more often than its rule allows, and every node is a known directive in a scope where its
-- rule places it, beside no directive that the rule precludes, with as many arguments as it allows.
-- What is stored are, node by node, the values that the rule reads the arguments as, which have the
-- types of its parameters.
pub apply_schema-Conforms :
    {F : Type 0} (parse_float : Text → F) (config schema : Node) (vs : List (Values F))
    → apply_schema parse_float config schema ≡ passes vs
    → (rules : Rules F) × (rules_of parse_float schema (children schema) [] ≡ passes rules)
      × WithinLimits rules (children config)
      × ConformBelow parse_float rules none (children config) (children config) vs
unfolding apply_schema
apply_schema-Conforms parse_float config schema vs h =
    let (rules, e, k) = >>=-eq-passes (rules_of parse_float schema (children schema) []) _ h in
    let (conform, limits) =
      below-Conforms parse_float rules none [] (children config) (children config) vs
        (rules_made parse_float schema (children schema) [] rules no_rules e) (omega arith) k in
    (rules, e, Limits-all rules (children config) limits, conform)
