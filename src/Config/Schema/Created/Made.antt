-- ===== src/Config/Schema/Created/Made.antt =====
-- What `createRule` makes of a node of the schema.
use shiny_server.Prelude.{
  ◌≡◌, refl, ap, ◌∙◌, subst, Bool, false, not, List, [], ◌∷◌, Option, none, some, Text, All,
  walked_eq, codes,
}
use shiny_server.Config.Node.{Node, by_name, get_one, get_all, args_of}
use shiny_server.Config.Schema.Results.{
  passes_is, missing_at, names_not_unique, default_of_required, unknown_type, Checked, passes,
  ◌>>=◌, >>=-eq-passes, >>-eq-passes,
}
use shiny_server.Config.Schema.Rules.{
  TypeName, type_named, Value, convert, Param, default_of, create_param, create_params, Rule,
  has_same_names, check_order, is_optional, or_throw, create_rule, param_name, ends_dots,
}
use shiny_server.Config.Schema.Binding.{
  HasType, DefaultTyped, Converts, converted, not_converted, convert-Converts,
}
use shiny_server.Config.Schema.Created.{IsRule, names_unique, after_others}

nothing_is :
    {F : Type 0} (o : Option (Value F)) (d : Value F) → passes none ≡ passes o → o ≡ some d → ⊥
nothing_is o d h e = cc (h, e)

same_value :
    {F : Type 0} (o : Option (Value F)) (v d : Value F)
    → passes (some v) ≡ passes o
    → o ≡ some d
    → v ≡ d
same_value o v d h e = cc (h, e)

is_converted :
    {F : Type 0} (t : TypeName) (s : Text) (r : Checked (Value F)) (v : Value F)
    → Converts t s r
    → r ≡ passes v
    → HasType t v
is_converted t s _ v (converted w h) e = subst (HasType t) (passes_is w v e) h
is_converted t s _ v not_converted e = cc e

convert-HasType :
    {F : Type 0} (parse_float : Text → F) (t : TypeName) (s : Text) (v : Value F)
    → convert parse_float t s ≡ passes v
    → HasType t v
convert-HasType parse_float t s v h = is_converted t s _ v (convert-Converts parse_float t s) h

module _ {F : Type 0} (parse_float : Text → F) where
  default_typed :
      (optional : Bool) (t : TypeName) (ds : List Text) (o : Option (Value F))
      → default_of parse_float optional t ds ≡ passes o
      → (d : Value F) → o ≡ some d
      → HasType t d
  unfolding default_of
  default_typed optional t [] o h d e = absurd (nothing_is o d h e)
  default_typed optional t (s ∷ ds) o h d e =
      let (_, k) =
        >>-eq-passes (not optional) default_of_required
          (convert parse_float t s >>= λ v. passes (some v)) h in
      let (v, c, f) = >>=-eq-passes (convert parse_float t s) (λ v. passes (some v)) k in
      convert-HasType parse_float t s d (c ∙ ap passes (same_value o v d f e))

  param_typed :
      (args : List Text) (p : Param F) → create_param parse_float args ≡ passes p → DefaultTyped p
  unfolding create_param
  param_typed [] p h = cc h
  param_typed (type ∷ []) p h = cc h
  param_typed (type ∷ name ∷ []) p h = cc h
  param_typed (type ∷ name ∷ desc ∷ ds) p h =
      let (t, a, k) = >>=-eq-passes (or_throw (unknown_type type) (type_named type)) _ h in
      let (d, b, f) = >>=-eq-passes (default_of parse_float (is_optional name) t ds) _ k in
      subst DefaultTyped
        (passes_is
          (record {
            type = t;
            name = param_name name;
            optional = is_optional name;
            vararg = ends_dots name;
            default_value = d;
          })
          p f)
        (default_typed (is_optional name) t ds d b)

  params_typed :
      (ns : List Node) (ps : List (Param F))
      → create_params parse_float ns ≡ passes ps
      → All DefaultTyped ps
  unfolding create_params
  params_typed [] ps h = subst (All DefaultTyped) (passes_is [] ps h) tt
  params_typed (n ∷ ns) ps h =
      let (p, a, k) = >>=-eq-passes (create_param parse_float (args_of n)) _ h in
      let (qs, b, f) = >>=-eq-passes (create_params parse_float ns) _ k in
      subst (All DefaultTyped) (passes_is (p ∷ qs) ps f)
        (param_typed (args_of n) p a, params_typed ns qs b)

  -- A rule that is made from a node of a schema is as `IsRule` says.
  pub create_rule-IsRule :
      (root n : Node) (r : Rule F) → create_rule parse_float root n ≡ passes r → IsRule r
  unfolding create_rule
  create_rule-IsRule root n r h =
      let (at, _, k) =
        >>=-eq-passes (or_throw missing_at (get_one (by_name (codes "at")) false n (root ∷ []))) _
          h in
      let (ps, made, f) =
        >>=-eq-passes (create_params parse_float (get_all (by_name (codes "param")) n)) _ k in
      let (distinct, g) = >>-eq-passes (has_same_names ps) names_not_unique _ f in
      let (_, order, e) = >>=-eq-passes (check_order 0 ps) _ g in
      subst IsRule (passes_is _ r e) (record {
        min_params_min_of = refl;
        max_params_max_of = refl;
        unique = names_unique ps distinct;
        ordered = (after_others 0 ps order).0;
        defaults = params_typed (get_all (by_name (codes "param")) n) ps made;
      })
