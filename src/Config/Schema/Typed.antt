-- ===== src/Config/Schema/Typed.antt =====
-- What `$validateAndTransformArgs` leaves in the values of a node.
use mathlib.Core.List.{Memᴰ}
use mathlib.Core.List.Memᴰ.{head, tail}
use shiny_server.Prelude.{
  ◌≡◌, refl, subst, true, false, List, [], ◌∷◌, none, some, inl, inr, ltb, length, Text, All,
  All-map, arith, Bool-cases, Option-cases, is_some, walked_eq,
}
use shiny_server.Prelude.Dict.{lookup}
use shiny_server.Config.Schema.Results.{
  Error, too_few_arguments, too_many_arguments, Checked, passes, throws, ◌>>=◌,
}
use shiny_server.Config.Schema.Rules.{Param, Rule}
use shiny_server.Config.Schema.Apply.{
  Arg, one, Values, Left, bind_args, apply_default, apply_defaults, too_many, exceeds,
  validate_args,
}
use shiny_server.Config.Schema.Binding.{
  IsArgError, few, many, IsArg, Has, DefaultTyped, Fits, Good, Binds, binds, refuses, IsCall,
  bind_args-Binds, Ready, fresh, insert-Good, insert_kept,
}
use shiny_server.Config.Schema.Created.{IsRule}

-- The value of a name belongs to a parameter of the rule.
abbrev pub Admitted : {F : Type 0} → Rule F → Text → Arg F → Type 0
Admitted {F} r name a = (p : Param F) × Memᴰ p r.params × (p.name ≡ name) × IsArg p a

-- Every value has the type of the parameter of its name, and every required parameter has one.
pub record IsTyped {F : Type 0} (r : Rule F) (vs : Values F) : Type 0 where
  pub typed : (name : Text) (a : Arg F) → lookup name vs ≡ some a → Admitted r name a
  pub present : All (Has vs) r.params

-- The outcome of the arguments: typed values, or an error of the configuration.
pub data Validates {F : Type 0} (r : Rule F) : Checked (Values F) → Type 0 where
  accepted : (vs : Values F) → IsTyped r vs → Validates r (passes vs)
  refused : (e : Error) → IsArgError e → Validates r (throws e)

members_fit :
    {F : Type 0} (parse_float : Text → F) (r : Rule F) (ps : List (Param F))
    → ((p : Param F) → Memᴰ p ps → Memᴰ p r.params)
    → All DefaultTyped ps
    → All (Fits parse_float (Admitted r)) ps
members_fit parse_float r [] inside d = tt
members_fit parse_float r (p ∷ ps) inside d = (
  (λ a h. (p, inside p (head refl), refl, h), d.0),
  members_fit parse_float r ps (λ q m. inside q (tail m)) d.1,
)

none_there : {F : Type 0} (ps : List (Param F)) → All (λ q. lookup {V = Arg F} q.name [] ≡ none) ps
unfolding lookup
none_there [] = tt
none_there (p ∷ ps) = (refl, none_there ps)

empty_ready : {F : Type 0} (ps : List (Param F)) → Ready ps []
unfolding lookup
empty_ready [] = tt
empty_ready (p ∷ ps) = (fresh, none_there ps)

module _ {F : Type 0} (parse_float : Text → F) (r : Rule F) where
  default-Good :
      (p : Param F) (vs : Values F)
      → Fits parse_float (Admitted r) p
      → Good parse_float (Admitted r) vs
      → Good parse_float (Admitted r) (apply_default p vs)
  unfolding apply_default
  default-Good p vs fit g = elim (Bool-cases p.optional) [
    | inl opt ↦ elim (Option-cases p.default_value) [
      | inl nothing ↦ simp (opt, nothing) g
      | inr (d, there) ↦
          simp (opt, there)
            (insert-Good parse_float (Admitted r) p.name (one d) vs g
              (fit.0 (one d) (fit.1 d there)))
    ]
    | inr must ↦ simp must g
  ]

  default_kept :
      (p : Param F) (vs : Values F) (name : Text)
      → is_some (lookup name vs) ≡ true
      → is_some (lookup name (apply_default p vs)) ≡ true
  unfolding apply_default
  default_kept p vs name h = elim (Bool-cases p.optional) [
    | inl opt ↦ elim (Option-cases p.default_value) [
      | inl nothing ↦ simp (opt, nothing) h
      | inr (d, there) ↦
          simp (opt, there) (insert_kept parse_float (Admitted r) p.name name (one d) vs h)
    ]
    | inr must ↦ simp must h
  ]

  defaults-Good :
      (ps : List (Param F)) (vs : Values F)
      → All (Fits parse_float (Admitted r)) ps
      → Good parse_float (Admitted r) vs
      → Good parse_float (Admitted r) (apply_defaults ps vs)
  unfolding apply_defaults
  defaults-Good [] vs fit g = g
  defaults-Good (p ∷ ps) vs fit g =
      defaults-Good ps (apply_default p vs) fit.1 (default-Good p vs fit.0 g)

  defaults_kept :
      (ps : List (Param F)) (vs : Values F) (name : Text)
      → is_some (lookup name vs) ≡ true
      → is_some (lookup name (apply_defaults ps vs)) ≡ true
  unfolding apply_defaults
  defaults_kept [] vs name h = h
  defaults_kept (p ∷ ps) vs name h =
      defaults_kept ps (apply_default p vs) name (default_kept p vs name h)

  with_defaults :
      (result : Checked (Left F))
      → Binds parse_float (Admitted r) r.params [] result
      → Validates r (result >>= λ bound. passes (apply_defaults bound.1 bound.0))
  with_defaults _ (refuses e h) = refused e h
  with_defaults _ (binds us left g fits has kept) = accepted (apply_defaults left us) (record {
    typed = defaults-Good left us fits g;
    present =
        All-map (Has us) (Has (apply_defaults left us)) r.params
          (λ p h must. defaults_kept left us p.name (h must)) has;
  })

  whole-IsCall :
      (args : List Text)
      → IsRule r
      → ltb (length args) r.min_params ≡ false
      → too_many args r ≡ false
      → IsCall parse_float (Admitted r) r.params (length args) []
  unfolding too_many
  whole-IsCall args rule enough room = record {
    fits = members_fit parse_float r r.params (λ p m. m) rule.defaults;
    good = λ name a e. unfold lookup in cc e;
    ready = empty_ready r.params;
    unique = rule.unique;
    ordered = rule.ordered;
    enough = ground (arith, enough, rule.min_params_min_of);
    room = subst (λ o. exceeds (length args) o ≡ false) rule.max_params_max_of room;
  }

  -- Of a rule that is made from a schema, whatever the arguments of a node: either the node is
  -- refused, for too few or too many arguments or for one that is no value of its type, or every
  -- value that it gets has the type of the parameter of its name, alone or in a list for a
  -- variadic parameter, and every required parameter has a value. The code never takes a parameter
  -- that is not there, nor adds to what is no list.
  pub validate_args-Validates :
      IsRule r → (args : List Text) → Validates r (validate_args parse_float r args)
  unfolding validate_args
  validate_args-Validates rule args = elim (Bool-cases (ltb (length args) r.min_params)) [
    | inl short ↦ rw short (refused too_few_arguments few)
    | inr enough ↦ elim (Bool-cases (too_many args r)) [
      | inl long ↦ rw (enough, long) (refused too_many_arguments many)
      | inr room ↦
          rw (enough, room)
            (with_defaults (bind_args parse_float r.params args []) (
              bind_args-Binds parse_float (Admitted r) r.params args []
                (whole-IsCall args rule enough room)))
    ]
  ]
