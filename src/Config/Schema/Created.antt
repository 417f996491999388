-- ===== src/Config/Schema/Created.antt =====
-- What holds of the rules that are made from a schema.
pub mod Made
use shiny_server.Prelude.{
  length-map, ℕ, suc, ◌+◌, ◌≤◌, ◌<◌, ◌≡◌, refl, sym, ap, ◌∙◌, subst, Bool, true, false, not, ◌||◌,
  List, [], ◌∷◌, ◌++◌, Option, none, some, inl, inr, if◌then◌else◌, ltb, ◌==◌, length,
  length-append, append_assoc, append-nil, Text, All, arith, Bool-cases, walked_eq, map, codes,
}
use shiny_server.Prelude.Classes.{Eq}
use shiny_server.Prelude.Sets.{contains, NoDup, uniq, uniq_onto, uniq-NoDup}
use shiny_server.Config.Node.{Node, by_name, get_one, get_all, args_of}
use shiny_server.Config.Schema.Results.{
  missing_at, names_not_unique, required_after_others, optional_after_vararg, two_varargs,
  default_of_required, unknown_type, Checked, passes, ◌>>=◌, ◌>>◌, fail_if, >>=-eq-passes,
  >>-eq-passes,
}
use shiny_server.Config.Schema.Rules.{
  TypeName, type_named, Value, convert, Param, required, default_of, create_param, create_params,
  Rule, min_of, max_of, name_of_param, has_same_names, check_order, is_optional, or_throw,
  create_rule, param_name, ends_dots,
}
use shiny_server.Config.Schema.Binding.{
  HasType, DefaultTyped, Ordered, Converts, converted, not_converted, convert-Converts,
}

module _ {κ} {K : Type κ} ⦃e : Eq K⦄ where
  length-uniq_onto : (acc ks : List K) → length (uniq_onto acc ks) ≤ length acc + length ks
  unfolding uniq_onto
  length-uniq_onto acc [] = omega arith
  length-uniq_onto acc (k ∷ ks) = elim (Bool-cases (contains k acc)) [
    | inl there ↦ rw there (omega (arith, length-uniq_onto acc ks))
    | inr new ↦
        rw new (omega (arith, length-uniq_onto (acc ++ (k ∷ [])) ks, length-append acc (k ∷ [])))
  ]

  nothing_dropped :
      (k : K) (acc ks : List K) (b : Bool)
      → length (uniq_onto (if b then acc else acc ++ (k ∷ [])) ks) ≡ length acc + suc (length ks)
      → b ≡ false
  nothing_dropped k acc ks true h = absurd (omega (arith, h, length-uniq_onto acc ks))
  nothing_dropped k acc ks false h = refl

  uniq_onto_all :
      (acc ks : List K)
      → length (uniq_onto acc ks) ≡ length acc + length ks
      → uniq_onto acc ks ≡ acc ++ ks
  unfolding uniq_onto
  uniq_onto_all acc [] h = sym (append-nil acc)
  uniq_onto_all acc (k ∷ ks) h =
      let new = nothing_dropped k acc ks (contains k acc) h in
      let count : length (uniq_onto (acc ++ (k ∷ [])) ks) ≡ length acc + suc (length ks) =
        subst
          (λ b.
            length (uniq_onto (if b then acc else acc ++ (k ∷ [])) ks)
            ≡ length acc + suc (length ks))
          new h in
      rw new (
        uniq_onto_all (acc ++ (k ∷ [])) ks (omega (arith, count, length-append acc (k ∷ [])))
        ∙ append_assoc acc (k ∷ []) ks)

  -- A list that `uniq` leaves as long as it is has no duplicates.
  pub NoDup-length : (ks : List K) → length (uniq ks) ≡ length ks → NoDup ks
  unfolding uniq
  NoDup-length ks h = subst NoDup (uniq_onto_all [] ks (omega (arith, h))) (uniq-NoDup ks)

-- What a rule is made with: the bounds of its parameters, which have different names and stand in
-- their order, and defaults of the right types.
pub record IsRule {F : Type 0} (r : Rule F) : Type 0 where
  pub min_params_min_of : r.min_params ≡ min_of r.params
  pub max_params_max_of : r.max_params ≡ max_of r.params
  pub unique : NoDup (map name_of_param r.params)
  pub ordered : Ordered r.params
  pub defaults : All DefaultTyped r.params

same_length : (n m : ℕ) → not (n == m) ≡ false → n ≡ m
same_length n m h = ground (arith, h)

module _ {F : Type 0} where
  names_unique : (ps : List (Param F)) → has_same_names ps ≡ false → NoDup (map name_of_param ps)
  unfolding has_same_names
  names_unique ps h = NoDup-length (map name_of_param ps) (
      same_length (length (uniq (map name_of_param ps))) (length ps) h
      ∙ sym (length-map name_of_param ps))

  order_required :
      (memo : ℕ) (p : Param F) (ps : List (Param F))
      → check_order memo (p ∷ ps) ≡ passes tt
      → p.optional ≡ false
      → p.vararg ≡ false
      → (ltb 0 memo ≡ false) × (check_order 0 ps ≡ passes tt)
  unfolding check_order required
  order_required memo p ps h opt var =
      >>-eq-passes (ltb 0 memo) required_after_others (check_order 0 ps) (sym e ∙ h)
    where
      e :
          check_order memo (p ∷ ps)
          ≡ (fail_if (ltb 0 memo) required_after_others >> check_order 0 ps)
      e = rw (opt, var) refl

  order_optional :
      (memo : ℕ) (p : Param F) (ps : List (Param F))
      → check_order memo (p ∷ ps) ≡ passes tt
      → p.optional ≡ true
      → check_order 1 ps ≡ passes tt
  unfolding check_order required
  order_optional memo p ps h opt =
      (>>-eq-passes (ltb 1 memo) optional_after_vararg (check_order 1 ps) (sym e ∙ h)).1
    where
      e :
          check_order memo (p ∷ ps)
          ≡ (fail_if (ltb 1 memo) optional_after_vararg >> check_order 1 ps)
      e = rw opt refl

  order_variadic :
      (memo : ℕ) (p : Param F) (ps : List (Param F))
      → check_order memo (p ∷ ps) ≡ passes tt
      → p.optional ≡ false
      → p.vararg ≡ true
      → check_order 2 ps ≡ passes tt
  unfolding check_order required
  order_variadic memo p ps h opt var =
      (>>-eq-passes (memo == 2) two_varargs (check_order 2 ps) (sym e ∙ h)).1
    where
      e : check_order memo (p ∷ ps) ≡ (fail_if (memo == 2) two_varargs >> check_order 2 ps)
      e = rw (opt, var) refl

  is_required : (p : Param F) → p.optional ≡ false → p.vararg ≡ false → required p ≡ false → ⊥
  unfolding required
  is_required p opt var h = ground (arith, opt, var, h)

  min_required :
      (p : Param F) (ps : List (Param F))
      → (p.optional || p.vararg) ≡ true
      → min_of ps ≡ 0
      → min_of (p ∷ ps) ≡ 0
  unfolding min_of
  min_required p ps h e = ground (arith, h, e)

  behind :
      (memo m : ℕ) (p : Param F) (ps : List (Param F))
      → (p.optional || p.vararg) ≡ true
      → 0 < m
      → Ordered ps × (0 < m → min_of ps ≡ 0)
      → Ordered (p ∷ ps) × (0 < memo → min_of (p ∷ ps) ≡ 0)
  behind memo m p ps may some_m (o, none_left) =
      let e = none_left some_m in ((λ _. e, o), λ _. min_required p ps may e)

  -- The order that is checked, behind a parameter that is not required for a positive `memo`.
  after_others :
      (memo : ℕ) (ps : List (Param F))
      → check_order memo ps ≡ passes tt
      → Ordered ps × (0 < memo → min_of ps ≡ 0)
  after_others memo [] h = (tt, λ _. unfold min_of in refl)
  after_others memo (p ∷ ps) h = elim (Bool-cases p.optional) [
    | inl opt ↦
        behind memo 1 p ps (rw opt refl) (omega arith)
          (after_others 1 ps (order_optional memo p ps h opt))
    | inr other ↦ elim (Bool-cases p.vararg) [
      | inl var ↦
          behind memo 2 p ps (ground (arith, var)) (omega arith)
            (after_others 2 ps (order_variadic memo p ps h other var))
      | inr single ↦
          let (small, rest) = order_required memo p ps h other single in
          let (o, _) = after_others 0 ps rest in
          (
            (λ may. absurd (is_required p other single may), o),
            λ big. absurd (ground (arith, small, big)),
          )
    ]
  ]
