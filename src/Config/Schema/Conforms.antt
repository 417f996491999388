-- ===== src/Config/Schema/Conforms.antt =====
-- What a configuration that `applySchema` accepts is known to be.
pub mod Whole
use shiny_server.Prelude.{
  ℕ, ◌+◌, ◌≤◌, ◌<◌, ◌≡◌, refl, sym, ap, ◌∙◌, subst, true, false, not, ltb, ◌⊎◌, List, [], ◌∷◌, ◌++◌,
  Option, none, some, inl, inr, if◌then◌else◌, length, length-append, Text, text_eq, text_eq_iff,
  All, arith, Bool-cases, Option-cases, is_some, walked_eq,
}
use shiny_server.Prelude.Dict.{lookup, insert, lookup-insert}
use shiny_server.Config.Lexer.{Position}
use shiny_server.Config.Node.{Node, Nodes, node, no_node, and, find, has_name, children}
use shiny_server.Config.Schema.Results.{
  passes_is, Error, too_few_arguments, too_many_arguments, misplaced, exclusive, Checked, passes,
  throws, >>=-eq-passes, >>-eq-passes,
}
use shiny_server.Config.Schema.Rules.{Rule, create_rule}
use shiny_server.Config.Schema.Apply.{
  Values, exceeds, too_many, is_at, validate_args, count_name, count_nodes, validate_max_count,
  validate_precludes, apply_to, found_rule, rule_for, rules_of, apply_below, apply_node,
  apply_schema,
}
use shiny_server.Config.Schema.Created.{IsRule}
use shiny_server.Config.Schema.Created.Made.{create_rule-IsRule}
use shiny_server.Config.Schema.Typed.{
  IsTyped, Validates, accepted, refused, validate_args-Validates,
}

-- How many nodes have the name.
pub named : Text → Nodes → ℕ
unfolding has_name
named t no_node = 0
named t (and n ns) = (if has_name t n then 1 else 0) + named t ns

abbrev pub Rules : Type 0 → Type 0
Rules F = List (Text × Rule F)

module _ {F : Type 0} where
  -- No directive stands in a scope more often than its rule allows.
  pub WithinLimits : Rules F → Nodes → Type 0
  WithinLimits rules ns =
      (name : Text) (r : Rule F) (m : ℕ)
      → lookup name rules ≡ some r
      → r.max_count ≡ some m
      → named name ns ≤ m

  -- A rule does not forbid a number of arguments.
  abbrev pub Allows : Rule F → ℕ → Type 0
  Allows r n =
      (r.min_params ≤ n) × ((r.max_params ≡ none) ⊎ ((m : ℕ) × (r.max_params ≡ some m) × (n ≤ m)))

  -- What the rule says of a node with the arguments below a parent with the children, for which
  -- values are stored: these are what the arguments are read as.
  pub record Obeys (parse_float : Text → F) (r : Rule F) (parent : Option Text) (siblings : Nodes)
      (args : List Text) (values : Values F) : Type 0 where
    pub allowed : Allows r (length args)
    pub read : validate_args parse_float r args ≡ passes values
    pub typed : IsTyped r values
    pub placed : is_at r.at parent ≡ true
    pub compatible : All (λ t. find (has_name t) siblings ≡ none) r.precludes

mutual
  -- The nodes of a list conform, and the values are theirs in order.
  pub ConformBelow :
      {F : Type 0} → (Text → F) → Rules F → Option Text → Nodes → Nodes → List (Values F) → Type 0
  ConformBelow parse_float rules parent siblings no_node vs = vs ≡ []
  ConformBelow {F} parse_float rules parent siblings (and n ns) vs =
      (first : List (Values F)) × (rest : List (Values F)) × (vs ≡ first ++ rest)
      × ConformNode parse_float rules parent siblings n first
      × ConformBelow parse_float rules parent siblings ns rest

  -- A node conforms, and the values are its own and then those of the nodes below it.
  pub ConformNode :
      {F : Type 0} → (Text → F) → Rules F → Option Text → Nodes → Node → List (Values F) → Type 0
  ConformNode parse_float rules parent siblings (node none args at depth ns) vs = ⊥
  ConformNode {F} parse_float rules parent siblings (node (some name) args at depth ns) vs =
      (values : Values F) × (below : List (Values F)) × (vs ≡ values ∷ below)
      × ((r : Rule F) × (lookup name rules ≡ some r)
          × Obeys parse_float r parent siblings args values)
      × WithinLimits rules ns
      × ConformBelow parse_float rules (some name) ns ns below

passes_is_not {ℓ} : {A : Type ℓ} {x : Error} {a : A} → throws x ≡ passes a → ⊥
passes_is_not e = cc e

count_name-snoc :
    (t : Text) (ns : List Node) (n : Node)
    → count_name t (ns ++ (n ∷ [])) ≡ count_name t ns + (if has_name t n then 1 else 0)
unfolding count_name
count_name-snoc t [] n = omega arith
count_name-snoc t (x ∷ ns) n = omega (arith, count_name-snoc t ns n)

count_name-le : (t : Text) (ns : List Node) → count_name t ns ≤ length ns
unfolding count_name
count_name-le t [] = omega arith
count_name-le t (x ∷ ns) = ground (arith, count_name-le t ns)

-- The check of one node's place among its siblings bounds their number up to it.
max_count-le :
    (limit : Option ℕ) (m : ℕ) (name : Text) (before : List Node) (siblings : Nodes)
    → limit ≡ some m
    → length before < count_nodes siblings
    → validate_max_count limit name before siblings ≡ passes tt
    → count_name name before + 1 ≤ m
unfolding validate_max_count
max_count-le none m name before siblings e inside h = cc e
max_count-le (some k) m name before siblings e inside h =
    ground (arith, e, h, inside, count_name-le name before)

precludes-All :
    (ts : List Text) (siblings : Nodes)
    → validate_precludes ts siblings ≡ passes tt
    → All (λ t. find (has_name t) siblings ≡ none) ts
unfolding validate_precludes
precludes-All [] siblings h = tt
precludes-All (t ∷ ts) siblings h =
    let (absent, rest) =
      >>-eq-passes (is_some (find (has_name t) siblings)) (exclusive t)
        (validate_precludes ts siblings) h in
    (not_some (find (has_name t) siblings) absent, precludes-All ts siblings rest)
  where
    not_some : (o : Option Node) → is_some o ≡ false → o ≡ none
    not_some none e = refl
    not_some (some n) e = cc e

-- Every rule of the table was made as `IsRule` says.
abbrev pub AllRules : {F : Type 0} → Rules F → Type 0
AllRules {F} rules = (name : Text) (r : Rule F) → lookup name rules ≡ some r → IsRule r

module _ {F : Type 0} (parse_float : Text → F) where
  rule_for-found :
      (name : Text) (rules : Rules F) (found : Text × Rule F)
      → rule_for parse_float (some name) rules ≡ passes found
      → (found.0 ≡ name) × (lookup name rules ≡ some found.1)
  unfolding rule_for
  rule_for-found name rules found h = elim (Option-cases (lookup name rules)) [
    | inl missing ↦ absurd (passes_is_not (sym (ap (found_rule parse_float name) missing) ∙ h))
    | inr (r, there) ↦
        let e = passes_is (name, r) found (sym (ap (found_rule parse_float name) there) ∙ h) in
        (ap (λ q. q.0) (sym e), there ∙ ap (λ q. some q.1) e)
  ]

  -- What is known of a node that its rule accepts.
  record Accepted (r : Rule F) (name : Text) (args : List Text) (parent : Option Text)
      (before : List Node) (siblings : Nodes) (values : Values F) : Type 0 where
    obeys : Obeys parse_float r parent siblings args values
    counted : validate_max_count r.max_count name before siblings ≡ passes tt

  IsTyped-of :
      (r : Rule F) (v : Checked (Values F)) (vs : Values F)
      → Validates r v
      → v ≡ passes vs
      → IsTyped r vs
  IsTyped-of r _ vs (accepted us h) e = subst (IsTyped r) (passes_is us vs e) h
  IsTyped-of r _ vs (refused x h) e = cc e

  not_too_many :
      (r : Rule F) (args : List Text) (m : Option ℕ)
      → r.max_params ≡ m
      → exceeds (length args) m ≡ false
      → (r.max_params ≡ none) ⊎ ((k : ℕ) × (r.max_params ≡ some k) × (length args ≤ k))
  unfolding exceeds
  not_too_many r args none e h = inl e
  not_too_many r args (some k) e h = inr (k, e, ground (arith, h))

  validate_args-Allows :
      (r : Rule F) (args : List Text) (vs : Values F)
      → validate_args parse_float r args ≡ passes vs
      → Allows r (length args)
  unfolding validate_args too_many
  validate_args-Allows r args vs h =
      let (enough, a) = >>-eq-passes (ltb (length args) r.min_params) too_few_arguments _ h in
      let (few, _) = >>-eq-passes (too_many args r) too_many_arguments _ a in
      (ground (arith, enough), not_too_many r args r.max_params refl few)

  apply_to-Accepted :
      (r : Rule F) (name : Text) (args : List Text) (parent : Option Text) (before : List Node)
      (siblings : Nodes) (vs : Values F)
      → IsRule r
      → apply_to parse_float r name args parent before siblings ≡ passes vs
      → Accepted r name args parent before siblings vs
  unfolding apply_to
  apply_to-Accepted r name args parent before siblings vs rule h =
      let (placed, a) = >>-eq-passes (not (is_at r.at parent)) misplaced _ h in
      let (us, typed, b) = >>=-eq-passes (validate_args parse_float r args) _ a in
      let (_, counted, c) =
        >>=-eq-passes (validate_max_count r.max_count name before siblings) _ b in
      let (_, free, stored) = >>=-eq-passes (validate_precludes r.precludes siblings) _ c in
      let same = passes_is us vs stored in
      record {
        obeys = record {
          allowed = validate_args-Allows r args us typed;
          read = typed ∙ ap passes same;
          typed =
              subst (IsTyped r) same
                (IsTyped-of r _ us (validate_args-Validates parse_float r rule args) typed);
          placed = ground (arith, placed);
          compatible = precludes-All r.precludes siblings free;
        };
        counted = counted;
      }
