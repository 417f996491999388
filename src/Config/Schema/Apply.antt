-- ===== src/Config/Schema/Apply.antt =====
-- lib/config/schema.js: applyTo and its four checks, and applySchema. What the code stores in
-- `node.values` is the result.
use shiny_server.Prelude.{
  ℕ, suc, ◌+◌, Bool, true, false, not, ◌||◌, List, [], ◌∷◌, ◌++◌, Option, none, some, ltb,
  if◌then◌else◌, Text, text_eq, length, is_some, walked_eq,
}
use shiny_server.Prelude.Dict.{lookup, insert}
use shiny_server.Config.Node.{Node, Nodes, node, no_node, and, find, has_name, children}
use shiny_server.Config.Schema.Results.{
  unknown_directive, misplaced, too_few_arguments, too_many_arguments, too_many_times, exclusive,
  no_parameter, no_array, Checked, passes, throws, ◌>>=◌, ◌>>◌, fail_if,
}
use shiny_server.Config.Schema.Rules.{Value, Param, Rule, convert, create_rule}

-- What `typedArgs` holds for a parameter.
pub data Arg (F : Type 0) : Type 0 where
  one : Value F → Arg F
  several : List (Value F) → Arg F

abbrev pub Values : Type 0 → Type 0
Values F = List (Text × Arg F)

abbrev pub Left : Type 0 → Type 0
Left F = Values F × List (Param F)

-- A parent is named, or none for the root.
unfoldable pub same_parent : Option Text → Option Text → Bool
unfolding text_eq
same_parent none none = true
same_parent (some a) (some b) = text_eq a b
same_parent none (some b) = false
same_parent (some a) none = false

-- `_.contains(this.$at, node.parent.name)`
unfoldable pub is_at : List (Option Text) → Option Text → Bool
unfolding same_parent
is_at [] parent = false
is_at (a ∷ at) parent = same_parent a parent || is_at at parent

unfoldable pub exceeds : ℕ → Option ℕ → Bool
exceeds n none = false
exceeds n (some limit) = ltb limit n

module _ {F : Type 0} where
  -- `typedArgs[param.name].push`
  unfoldable pub push_value : Option (Arg F) → Value F → Checked (Arg F)
  push_value none v = passes (several (v ∷ []))
  push_value (some (several vs)) v = passes (several (vs ++ (v ∷ [])))
  push_value (some (one w)) v = throws no_array

  unfoldable pub apply_default : Param F → Values F → Values F
  unfolding insert
  apply_default p vs =
      if p.optional
      then elim p.default_value [ some d ↦ insert p.name (one d) vs | none ↦ vs ]
      else vs

  unfoldable pub apply_defaults : List (Param F) → Values F → Values F
  unfolding apply_default
  apply_defaults [] vs = vs
  apply_defaults (p ∷ ps) vs = apply_defaults ps (apply_default p vs)

  unfoldable pub too_many : List Text → Rule F → Bool
  unfolding exceeds
  too_many args r = exceeds (length args) r.max_params

module _ {F : Type 0} (parse_float : Text → F) where
  -- The loop over the arguments, with the parameters that are left.
  unfoldable pub bind_args : List (Param F) → List Text → Values F → Checked (Left F)
  unfolding convert insert lookup push_value
  bind_args ps [] vs = passes (vs, ps)
  bind_args [] (a ∷ args) vs = throws no_parameter
  bind_args (p ∷ ps) (a ∷ args) vs = elim p.vararg [
    | false ↦ do v ← convert parse_float p.type a; bind_args ps args (insert p.name (one v) vs)
    | true ↦ do
      v ← convert parse_float p.type a
      vs' ← push_value (lookup p.name vs) v
      bind_args (p ∷ ps) args (insert p.name vs' vs)
  ]

  -- `$validateAndTransformArgs`
  unfoldable pub validate_args : Rule F → List Text → Checked (Values F)
  unfolding bind_args apply_defaults too_many
  validate_args r args = do
    fail_if (ltb (length args) r.min_params) too_few_arguments
    fail_if (too_many args r) too_many_arguments
    bound ← bind_args r.params args []
    passes (apply_defaults bound.1 bound.0)

-- How many nodes of the list have the name.
unfoldable pub count_name : Text → List Node → ℕ
unfolding has_name
count_name t [] = 0
count_name t (n ∷ ns) = (if has_name t n then 1 else 0) + count_name t ns

unfoldable pub count_nodes : Nodes → ℕ
count_nodes no_node = 0
count_nodes (and n ns) = suc (count_nodes ns)

-- `$validateMaxCount`, for a node of the name with the earlier children of its parent.
unfoldable pub validate_max_count : Option ℕ → Text → List Node → Nodes → Checked (Unit {0})
unfolding count_name count_nodes
validate_max_count none name before siblings = passes tt
validate_max_count (some limit) name before siblings =
    if ltb (count_nodes siblings) limit
    then passes tt
    else fail_if (ltb limit (count_name name before + 1)) too_many_times

-- `$validatePrecludes`
unfoldable pub validate_precludes : List Text → Nodes → Checked (Unit {0})
unfolding find has_name
validate_precludes [] siblings = passes tt
validate_precludes (t ∷ ts) siblings =
    fail_if (is_some (find (has_name t) siblings)) (exclusive t) >> validate_precludes ts siblings

module _ {F : Type 0} (parse_float : Text → F) where
  -- `applyTo`, on the name and the arguments of a node, the name of its parent, the earlier
  -- children of the parent and all of them.
  unfoldable pub apply_to :
      Rule F → Text → List Text → Option Text → List Node → Nodes → Checked (Values F)
  unfolding is_at validate_args validate_max_count validate_precludes
  apply_to r name args parent before siblings = do
    fail_if (not (is_at r.at parent)) misplaced
    vs ← validate_args parse_float r args
    validate_max_count r.max_count name before siblings
    validate_precludes r.precludes siblings
    passes vs

  unfoldable pub found_rule : Text → Option (Rule F) → Checked (Text × Rule F)
  found_rule name none = throws (unknown_directive name)
  found_rule name (some r) = passes (name, r)

  unfoldable pub rule_for : Option Text → List (Text × Rule F) → Checked (Text × Rule F)
  unfolding found_rule lookup
  rule_for none rules = throws (unknown_directive [])
  rule_for (some name) rules = found_rule name (lookup name rules)

  unfoldable pub rules_of : Node → Nodes → List (Text × Rule F) → Checked (List (Text × Rule F))
  unfolding create_rule insert
  rules_of root no_node rules = passes rules
  rules_of root (and (node none args at depth ns) rest) rules = rules_of root rest rules
  rules_of root (and (node (some name) args at depth ns) rest) rules = do
    r ← create_rule parse_float root (node (some name) args at depth ns)
    rules_of root rest (insert name r rules)

-- The loop over `configRoot.search(true, false)`: each child of a parent in turn, with all that is
-- below it, before the next. The values of a node come in front of those of its children.
unfoldable mutual
  unfolding rule_for apply_to

  pub apply_below :
      {F : Type 0}
      → (Text → F)
      → List (Text × Rule F)
      → Option Text
      → List Node
      → Nodes
      → Nodes
      → Checked (List (Values F))
  apply_below parse_float rules parent before siblings no_node = passes []
  apply_below parse_float rules parent before siblings (and n ns) = do
    vs ← apply_node parse_float rules parent before siblings n
    rest ← apply_below parse_float rules parent (before ++ (n ∷ [])) siblings ns
    passes (vs ++ rest)

  pub apply_node :
      {F : Type 0}
      → (Text → F)
      → List (Text × Rule F)
      → Option Text
      → List Node
      → Nodes
      → Node
      → Checked (List (Values F))
  apply_node parse_float rules parent before siblings (node name args at depth ns) = do
    found ← rule_for parse_float name rules
    vs ← apply_to parse_float found.1 found.0 args parent before siblings
    below ← apply_below parse_float rules name [] ns ns
    passes (vs ∷ below)

module _ {F : Type 0} (parse_float : Text → F) where
  -- `applySchema`
  unfoldable pub apply_schema : Node → Node → Checked (List (Values F))
  unfolding rules_of apply_below children
  apply_schema config schema = do
    rules ← rules_of parse_float schema (children schema) []
    apply_below parse_float rules none [] (children config) (children config)
