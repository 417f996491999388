-- ===== src/Config/Schema/Binding.antt =====
-- The loop that gives the parameters of a rule their arguments: it never runs out of parameters,
-- and every value that it stores has the type of its parameter.
use shiny_server.Prelude.{
  some_is, ℕ, suc, ◌≤◌, ◌≡◌, refl, sym, ap, ◌∙◌, subst, true, false, List, [], ◌∷◌, ◌++◌, Option,
  none, some, ◌⊎◌, inl, inr, if◌then◌else◌, length, Text, All, All-append, arith, Bool-cases,
  is_some, walked_eq, text_eq, text_eq_iff, map,
}
use shiny_server.Prelude.Dict.{lookup, insert, lookup-insert}
use shiny_server.Prelude.Sets.{contains, NoDup}
use shiny_server.Config.Schema.Results.{
  Error, bad_value, too_few_arguments, too_many_arguments, Checked, passes, throws, ◌>>=◌,
}
use shiny_server.Config.Schema.Rules.{
  TypeName, boolean_type, integer_type, float_type, string_type, Value, boolean, integer, float,
  string, or_throw, convert, Param, required, min_of, max_of, add_limit, name_of_param,
}
use shiny_server.Config.Schema.Types.{to_boolean, to_integer, to_float}
use shiny_server.Config.Schema.Apply.{
  Arg, one, several, Values, Left, push_value, bind_args, exceeds,
}

pub Checked-cases {ℓ} :
    {A : Type ℓ} (m : Checked A) → ((a : A) × (m ≡ passes a)) ⊎ ((e : Error) × (m ≡ throws e))
Checked-cases (passes a) = inl (a, refl)
Checked-cases (throws e) = inr (e, refl)

-- The errors that are the configuration's: wrong numbers of arguments and wrong values.
pub data IsArgError : Error → Type 0 where
  few : IsArgError too_few_arguments
  many : IsArgError too_many_arguments
  bad : (s : Text) → IsArgError (bad_value s)

module _ {F : Type 0} where
  -- The value is one of the type.
  abbrev pub HasType : TypeName → Value F → Type 0
  HasType boolean_type (boolean b) = Unit
  HasType integer_type (integer z) = Unit
  HasType float_type (float x) = Unit
  HasType string_type (string t) = Unit
  HasType _ _ = ⊥

  -- A single value, or a list of them for a variadic parameter.
  abbrev pub IsArg : Param F → Arg F → Type 0
  IsArg p (one v) = HasType p.type v
  IsArg p (several vs) = (p.vararg ≡ true) × All (HasType p.type) vs

  -- Behind a parameter that is not required, none is.
  abbrev pub Ordered : List (Param F) → Type 0
  Ordered [] = Unit
  Ordered (p ∷ ps) = (required p ≡ false → min_of ps ≡ 0) × Ordered ps

  abbrev pub DefaultTyped : Param F → Type 0
  DefaultTyped p = (d : Value F) → p.default_value ≡ some d → HasType p.type d

  abbrev pub Has : Values F → Param F → Type 0
  Has vs p = required p ≡ true → is_some (lookup p.name vs) ≡ true

  -- What the table holds for the parameter whose turn it is.
  pub data Start (p : Param F) : Option (Arg F) → Type 0 where
    fresh : Start p none
    going : (vs : List (Value F)) → All (HasType p.type) vs → Start p (some (several vs))

  abbrev pub Ready : List (Param F) → Values F → Type 0
  Ready [] vs = Unit
  Ready (p ∷ ps) vs = Start p (lookup p.name vs) × All (λ q. lookup q.name vs ≡ none) ps

  none_required : (ps : List (Param F)) (vs : Values F) → min_of ps ≤ 0 → All (Has vs) ps
  unfolding min_of required
  none_required [] vs h = tt
  none_required (p ∷ ps) vs h = (ground arith, none_required ps vs (ground arith))

-- What a conversion gives: a value of the type, or the error on the text.
pub data Converts {F : Type 0} (t : TypeName) (s : Text) : Checked (Value F) → Type 0 where
  converted : (v : Value F) → HasType t v → Converts t s (passes v)
  not_converted : Converts t s (throws (bad_value s))

or_throw-Converts {ℓ} :
    {F : Type 0} {A : Type ℓ} (t : TypeName) (s : Text) (o : Option A) (f : A → Value F)
    → ((a : A) → HasType t (f a))
    → Converts t s (or_throw (bad_value s) o >>= λ a. passes (f a))
unfolding or_throw
or_throw-Converts t s none f h = not_converted
or_throw-Converts t s (some a) f h = converted (f a) (h a)

pub convert-Converts :
    {F : Type 0} (parse_float : Text → F) (t : TypeName) (s : Text)
    → Converts t s (convert parse_float t s)
unfolding convert
convert-Converts parse_float boolean_type s =
    or_throw-Converts boolean_type s (to_boolean s) boolean (λ b. tt)
convert-Converts parse_float integer_type s =
    or_throw-Converts integer_type s (to_integer s) integer (λ b. tt)
convert-Converts parse_float float_type s =
    or_throw-Converts float_type s (to_float parse_float s) float (λ b. tt)
convert-Converts parse_float string_type s = converted (string s) tt

-- What pushing a value for a variadic parameter gives.
pushed :
    {F : Type 0} (p : Param F) (o : Option (Arg F)) (v : Value F)
    → Start p o
    → HasType p.type v
    → (vs : List (Value F)) × (push_value o v ≡ passes (several vs)) × All (HasType p.type) vs
unfolding push_value
pushed p _ v fresh h = (v ∷ [], refl, (h, tt))
pushed p _ v (going vs k) h =
    (vs ++ (v ∷ []), refl, All-append (HasType p.type) vs (v ∷ []) k (h, tt))

module _ {F : Type 0} (parse_float : Text → F) (Admits : Text → Arg F → Type 0) where
  -- The parameter's arguments are admitted under its name.
  abbrev pub Fits : Param F → Type 0
  Fits p = ((a : Arg F) → IsArg p a → Admits p.name a) × DefaultTyped p

  abbrev pub Good : Values F → Type 0
  Good vs = (name : Text) (a : Arg F) → lookup name vs ≡ some a → Admits name a

  -- What the loop gives: admitted values, with one for every required parameter.
  pub data Binds (ps : List (Param F)) (vs : Values F) : Checked (Left F) → Type 0 where
    binds :
        (us : Values F) (left : List (Param F))
        → Good us
        → All Fits left
        → All (Has us) ps
        → ((name : Text) → is_some (lookup name vs) ≡ true → is_some (lookup name us) ≡ true)
        → Binds ps vs (passes (us, left))
    refuses : (e : Error) → IsArgError e → Binds ps vs (throws e)

  pub insert-Good :
      (name : Text) (a : Arg F) (vs : Values F) → Good vs → Admits name a → Good (insert name a vs)
  insert-Good name a vs g h other b e = elim (Bool-cases (text_eq name other)) [
    | inl same ↦
        subst (λ n. Admits n b) ((text_eq_iff name other).0 same)
          (subst (Admits name)
            (some_is a b (
              sym (
                lookup-insert name other a vs
                ∙ ap (λ t. if t then some a else lookup other vs) same)
              ∙ e))
            h)
    | inr different ↦ g other b (
        sym (
          lookup-insert name other a vs ∙ ap (λ t. if t then some a else lookup other vs) different)
        ∙ e)
  ]

  inserted : (name : Text) (a : Arg F) (vs : Values F) → lookup name (insert name a vs) ≡ some a
  inserted name a vs = ground (arith, lookup-insert name name a vs, text_eq_iff name name)

  pub insert_kept :
      (name other : Text) (a : Arg F) (vs : Values F)
      → is_some (lookup other vs) ≡ true
      → is_some (lookup other (insert name a vs)) ≡ true
  insert_kept name other a vs h = ground (arith, lookup-insert name other a vs, h)

  tail_fresh :
      (name : Text) (a : Arg F) (vs : Values F) (ps : List (Param F))
      → contains name (map name_of_param ps) ≡ false
      → All (λ q. lookup q.name vs ≡ none) ps
      → All (λ q. lookup q.name (insert name a vs) ≡ none) ps
  unfolding contains name_of_param
  tail_fresh name a vs [] n h = tt
  tail_fresh name a vs (p ∷ ps) n h = (
    ground (
      arith,
      lookup-insert name p.name a vs,
      h.0,
      n,
      text_eq_iff name p.name,
      text_eq_iff p.name name,
    ),
    tail_fresh name a vs ps (ground (arith, n)) h.1,
  )

  less_required :
      (p : Param F) (ps : List (Param F)) (n : ℕ)
      → (required p ≡ false → min_of ps ≡ 0)
      → min_of (p ∷ ps) ≤ suc n
      → min_of ps ≤ n
  unfolding min_of required
  less_required p ps n ordered h = ground (arith, h, ordered)

  variadic_none :
      (p : Param F) (ps : List (Param F)) (n : ℕ)
      → (required p ≡ false → min_of ps ≡ 0)
      → p.vararg ≡ true
      → min_of (p ∷ ps) ≤ n
  unfolding min_of required
  variadic_none p ps n ordered v = ground (arith, v, ordered)

  less_params :
      (o : Option ℕ) (n : ℕ) → exceeds (suc n) (add_limit false o) ≡ false → exceeds n o ≡ false
  unfolding exceeds add_limit
  less_params none n h = refl
  less_params (some m) n h = ground (arith, h)

  start_tail :
      (ps : List (Param F)) (vs : Values F) → All (λ q. lookup q.name vs ≡ none) ps → Ready ps vs
  start_tail [] vs h = tt
  start_tail (p ∷ ps) vs h = (subst (Start p) (sym h.0) fresh, h.1)

  insert_has :
      (name : Text) (a : Arg F) (vs : Values F) → is_some (lookup name (insert name a vs)) ≡ true
  insert_has name a vs = ground (arith, lookup-insert name name a vs, text_eq_iff name name)

  single-Binds :
      (p : Param F) (ps : List (Param F)) (a : Arg F) (vs : Values F) (r : Checked (Left F))
      → Binds ps (insert p.name a vs) r
      → Binds (p ∷ ps) vs r
  single-Binds p ps a vs _ (refuses e h) = refuses e h
  single-Binds p ps a vs _ (binds us left g fits has kept) =
      binds us left g fits (λ _. kept p.name (insert_has p.name a vs), has)
        (λ name h. kept name (insert_kept p.name name a vs h))

  again-Binds :
      (name : Text) (ps : List (Param F)) (a : Arg F) (vs : Values F) (r : Checked (Left F))
      → Binds ps (insert name a vs) r
      → Binds ps vs r
  again-Binds name ps a vs _ (refuses e h) = refuses e h
  again-Binds name ps a vs _ (binds us left g fits has kept) =
      binds us left g fits has (λ other h. kept other (insert_kept name other a vs h))

  converted-Binds :
      (p : Param F) (s : Text) (ps : List (Param F)) (vs : Values F) (r : Checked (Value F))
      (k : Value F → Checked (Left F))
      → Converts p.type s r
      → ((v : Value F) → HasType p.type v → Binds ps vs (k v))
      → Binds ps vs (r >>= k)
  converted-Binds p s ps vs _ k (converted v h) next = next v h
  converted-Binds p s ps vs _ k not_converted next = refuses (bad_value s) (bad s)

  pushed-Binds :
      (ps : List (Param F)) (vs : Values F) (r : Checked (Arg F)) (us : List (Value F))
      (k : Arg F → Checked (Left F))
      → r ≡ passes (several us)
      → Binds ps vs (k (several us))
      → Binds ps vs (r >>= k)
  pushed-Binds ps vs r us k e b = rw e b

  -- What the loop is called with: admitted values, distinct parameters in their order, no argument
  -- too few and none too many.
  pub record IsCall (ps : List (Param F)) (n : ℕ) (vs : Values F) : Type 0 where
    pub fits : All Fits ps
    pub good : Good vs
    pub ready : Ready ps vs
    pub unique : NoDup (map name_of_param ps)
    pub ordered : Ordered ps
    pub enough : min_of ps ≤ n
    pub room : exceeds n (max_of ps) ≡ false

  no_room {ℓ} : {B : Type ℓ} (n : ℕ) → exceeds (suc n) (max_of {F = F} []) ≡ false → B
  unfolding exceeds max_of
  no_room n h = absurd (ground (arith, h))

  next_param :
      (p : Param F) (ps : List (Param F)) (n : ℕ) (vs : Values F) (v : Value F)
      → IsCall (p ∷ ps) (suc n) vs
      → p.vararg ≡ false
      → HasType p.type v
      → IsCall ps n (insert p.name (one v) vs)
  unfolding NoDup name_of_param
  next_param p ps n vs v c single h = record {
    fits = c.fits.1;
    good = insert-Good p.name (one v) vs c.good (c.fits.0.0 (one v) h);
    ready =
        start_tail ps (insert p.name (one v) vs)
          (tail_fresh p.name (one v) vs ps c.unique.0 c.ready.1);
    unique = c.unique.1;
    ordered = c.ordered.1;
    enough = less_required p ps n c.ordered.0 c.enough;
    room = less_params (max_of ps) n (
        subst (λ b. exceeds (suc n) (add_limit b (max_of ps)) ≡ false) single
          (unfold max_of in c.room));
  }

  same_param :
      (p : Param F) (ps : List (Param F)) (n : ℕ) (vs : Values F) (us : List (Value F))
      → IsCall (p ∷ ps) (suc n) vs
      → p.vararg ≡ true
      → All (HasType p.type) us
      → IsCall (p ∷ ps) n (insert p.name (several us) vs)
  unfolding NoDup name_of_param
  same_param p ps n vs us c variadic h = record {
    fits = c.fits;
    good = insert-Good p.name (several us) vs c.good (c.fits.0.0 (several us) (variadic, h));
    ready = (
      subst (Start p) (sym (inserted p.name (several us) vs)) (going us h),
      tail_fresh p.name (several us) vs ps c.unique.0 c.ready.1,
    );
    unique = c.unique;
    ordered = c.ordered;
    enough = variadic_none p ps n c.ordered.0 variadic;
    room = unfold max_of exceeds add_limit in rw variadic refl;
  }

  bind_single :
      (p : Param F) (ps : List (Param F)) (a : Text) (args : List Text) (vs : Values F)
      → p.vararg ≡ false
      → bind_args parse_float (p ∷ ps) (a ∷ args) vs ≡ (
          convert parse_float p.type a >>= λ v.
          bind_args parse_float ps args (insert p.name (one v) vs))
  unfolding bind_args
  bind_single p ps a args vs single = rw single refl

  bind_variadic :
      (p : Param F) (ps : List (Param F)) (a : Text) (args : List Text) (vs : Values F)
      → p.vararg ≡ true
      → bind_args parse_float (p ∷ ps) (a ∷ args) vs ≡ (
          convert parse_float p.type a >>= λ v. push_value (lookup p.name vs) v >>= λ us.
          bind_args parse_float (p ∷ ps) args (insert p.name us vs))
  unfolding bind_args
  bind_variadic p ps a args vs variadic = simp variadic

  -- Whatever the arguments, the loop gives values or an error of the configuration.
  pub bind_args-Binds :
      (ps : List (Param F)) (args : List Text) (vs : Values F)
      → IsCall ps (length args) vs
      → Binds ps vs (bind_args parse_float ps args vs)
  unfolding bind_args
  bind_args-Binds ps [] vs c =
      binds vs ps c.good c.fits (none_required ps vs c.enough) (λ name h. h)
  bind_args-Binds [] (a ∷ args) vs c = no_room (length args) c.room
  bind_args-Binds (p ∷ ps) (a ∷ args) vs c = elim (Bool-cases p.vararg) [
    | inl variadic ↦ subst (Binds (p ∷ ps) vs) (sym (bind_variadic p ps a args vs variadic)) (
        converted-Binds p a (p ∷ ps) vs _ _ (convert-Converts parse_float p.type a) (λ v h.
          let (us, e, k) = pushed p (lookup p.name vs) v c.ready.0 h in
          pushed-Binds (p ∷ ps) vs _ us _ e (
            again-Binds p.name (p ∷ ps) (several us) vs _ (
              bind_args-Binds (p ∷ ps) args (insert p.name (several us) vs)
                (same_param p ps (length args) vs us c variadic k)))))
    | inr single ↦ subst (Binds (p ∷ ps) vs) (sym (bind_single p ps a args vs single)) (
        converted-Binds p a (p ∷ ps) vs _ _ (convert-Converts parse_float p.type a) (λ v h.
          single-Binds p ps (one v) vs _ (
            bind_args-Binds ps args (insert p.name (one v) vs)
              (next_param p ps (length args) vs v c single h))))
  ]
