-- ===== src/Config/Schema/Rules.antt =====
-- lib/config/schema.js: ConfigSchemaParam and ConfigSchemaRule, made from the nodes of the schema.
use shiny_server.Prelude.{
  all, is_some, ℕ, suc, ◌+◌, ◌*◌, ◌-◌, Bool, true, false, not, ◌&&◌, ◌||◌, List, [], ◌∷◌, Option,
  none, some, ltb, ◌==◌, if◌then◌else◌, Text, text_eq, codes, length, walked_eq, map, ℤ,
}
use shiny_server.Prelude.Chars.{is_digit, is_line_end}
use shiny_server.Prelude.Sets.{uniq}
use shiny_server.Config.Node.{Node, by_name, get_one, get_all, args_of}
use shiny_server.Config.Schema.Types.{to_boolean, to_integer, to_float}
use shiny_server.Config.Schema.Results.{
  Error, missing_at, names_not_unique, required_after_others, optional_after_vararg, two_varargs,
  invalid_specification, default_of_required, unknown_type, bad_value, Checked, passes, throws,
  ◌>>=◌, ◌>>◌, fail_if,
}

-- The keys of ConfigTypes.
pub data TypeName : Type 0 where
  boolean_type integer_type float_type string_type : TypeName

-- `ConfigTypes[...]`, for the types that it names; what every object inherits, such as `constructor`,
-- is taken as unknown.
unfoldable pub type_named : Text → Option TypeName
unfolding text_eq
type_named t =
    if text_eq t (codes "Boolean")
    then some boolean_type
    else if text_eq t (codes "Integer")
    then some integer_type
    else if text_eq t (codes "Float")
    then some float_type
    else if text_eq t (codes "String")
    then some string_type
    else none

-- A value of a parameter: an integer is a number or NaN.
pub data Value (F : Type 0) : Type 0 where
  boolean : Bool → Value F
  integer : Option ℤ → Value F
  float : F → Value F
  string : Text → Value F

unfoldable pub or_throw {ℓ} : {A : Type ℓ} → Error → Option A → Checked A
or_throw e none = throws e
or_throw e (some a) = passes a

-- `[^[\].]`
unfoldable pub is_name_char : ℕ → Bool
is_name_char c = not (c == b'[' || c == b']' || c == b'.')

-- `(...)?$`
unfoldable pub three_or_none : Text → Bool
unfolding is_line_end
three_or_none [] = true
three_or_none (a ∷ b ∷ c ∷ []) = not (is_line_end a) && not (is_line_end b) && not (is_line_end c)
three_or_none _ = false

-- `\]?(...)?$`
unfoldable pub is_name_end : Text → Bool
unfolding three_or_none
is_name_end [] = true
is_name_end (c ∷ cs) = c == b']' && three_or_none cs || three_or_none (c ∷ cs)

-- `([^[\].]+)`, as long as possible.
unfoldable pub name_part : Text → Option Text
unfolding is_name_char is_name_end
name_part [] = none
name_part (c ∷ cs) =
    let longer = name_part cs in
    if is_name_char c
    then elim longer [
      | some n ↦ some (c ∷ n)
      | none ↦ if is_name_end cs then some (c ∷ []) else none
    ]
    else none

unfoldable pub after_open : Text → Text
after_open [] = []
after_open (c ∷ cs) = if c == b'[' then cs else c ∷ cs

unfoldable pub text_or : Text → Option Text → Text
text_or t none = t
text_or t (some n) = n

-- `.replace(/^\[?([^[\].]+)\]?(...)?$/, '$1')`
unfoldable pub param_name : Text → Text
unfolding text_or name_part after_open
param_name t = text_or t (name_part (after_open t))

-- `/^\[/`
unfoldable pub is_optional : Text → Bool
is_optional [] = false
is_optional (c ∷ cs) = c == b'['

-- `/\.{3}$/`
unfoldable pub ends_dots : Text → Bool
ends_dots [] = false
ends_dots (c ∷ cs) = let rest = ends_dots cs in text_eq (c ∷ cs) (codes "...") || rest

-- Digits, perhaps with a fraction, as a number that is rounded down, which makes no difference to
-- the counts that it limits.
unfoldable pub count_of : ℕ → Text → Option ℕ
unfolding is_digit
count_of n [] = some n
count_of n (c ∷ cs) =
    let rest = count_of (10 * n + (c - b'0')) cs in
    if is_digit c then rest else if c == b'.' && all is_digit cs then some n else none

unfoldable pub has_digit : Text → Bool
unfolding is_digit
has_digit [] = false
has_digit (c ∷ cs) = is_digit c || has_digit cs

unfoldable pub zero_if : Bool → Option ℕ
zero_if true = some 0
zero_if false = none

-- A text as a limit. One that is less than zero allows nothing, as zero does. A text that is no
-- number is not less than a number nor greater, and so is no limit. Numerals with an exponent, with a
-- prefix or with spaces are not read.
unfoldable pub limit_of : Text → Option ℕ
unfolding count_of has_digit zero_if
limit_of [] = some 0
limit_of (c ∷ cs) =
    if not (has_digit cs || has_digit (c ∷ []))
    then none
    else if c == b'-'
    then zero_if (is_some (count_of 0 cs))
    else count_of 0 (c ∷ cs)

module _ {F : Type 0} (parse_float : Text → F) where
  -- `convert`
  unfoldable pub convert : TypeName → Text → Checked (Value F)
  unfolding or_throw to_boolean to_integer to_float
  convert boolean_type s = do b ← or_throw (bad_value s) (to_boolean s); passes (boolean b)
  convert integer_type s = do z ← or_throw (bad_value s) (to_integer s); passes (integer z)
  convert float_type s = do x ← or_throw (bad_value s) (to_float parse_float s); passes (float x)
  convert string_type s = passes (string s)

-- A ConfigSchemaParam, without its description; `default_value` is there if `hasDefaultValue`.
pub record Param (F : Type 0) : Type 0 where
  pub type : TypeName
  pub name : Text
  pub optional : Bool
  pub vararg : Bool
  pub default_value : Option (Value F)

unfoldable pub required : {F : Type 0} → Param F → Bool
required p = not p.optional && not p.vararg

module _ {F : Type 0} (parse_float : Text → F) where
  unfoldable pub default_of : Bool → TypeName → List Text → Checked (Option (Value F))
  unfolding convert
  default_of optional type [] = passes none
  default_of optional type (d ∷ ds) = do
    fail_if (not optional) default_of_required
    v ← convert parse_float type d
    passes (some v)

  -- `new ConfigSchemaParam`, on the arguments of the node.
  unfoldable pub create_param : List Text → Checked (Param F)
  unfolding or_throw type_named param_name is_optional ends_dots default_of
  create_param (type ∷ name ∷ desc ∷ defaults) = do
    t ← or_throw (unknown_type type) (type_named type)
    d ← default_of (is_optional name) t defaults
    passes (record {
      type = t;
      name = param_name name;
      optional = is_optional name;
      vararg = ends_dots name;
      default_value = d;
    })
  create_param _ = throws invalid_specification

  unfoldable pub create_params : List Node → Checked (List (Param F))
  unfolding create_param args_of
  create_params [] = passes []
  create_params (n ∷ ns) = do p ← create_param (args_of n); ps ← create_params ns; passes (p ∷ ps)

-- A ConfigSchemaRule: a parent is named, or none for the root; no limit is none.
pub record Rule (F : Type 0) : Type 0 where
  pub at : List (Option Text)
  pub precludes : List Text
  pub max_count : Option ℕ
  pub params : List (Param F)
  pub min_params : ℕ
  pub max_params : Option ℕ

unfoldable pub add_limit : Bool → Option ℕ → Option ℕ
add_limit true o = none
add_limit false none = none
add_limit false (some n) = some (suc n)

module _ {F : Type 0} where
  unfoldable pub min_of : List (Param F) → ℕ
  min_of [] = 0
  min_of (p ∷ ps) = (if p.optional || p.vararg then 0 else 1) + min_of ps

  unfoldable pub max_of : List (Param F) → Option ℕ
  unfolding add_limit
  max_of [] = some 0
  max_of (p ∷ ps) = add_limit p.vararg (max_of ps)

  unfoldable pub name_of_param : Param F → Text
  name_of_param p = p.name

  -- `_.uniq(_.pluck(params, 'name')).length != params.length`
  unfoldable pub has_same_names : List (Param F) → Bool
  unfolding uniq name_of_param
  has_same_names ps = not (length (uniq (map name_of_param ps)) == length ps)

  -- The order of the parameters, with 0 behind a required one, 1 behind an optional one and 2
  -- behind a variadic one.
  unfoldable pub check_order : ℕ → List (Param F) → Checked (Unit {0})
  unfolding required
  check_order memo [] = passes tt
  check_order memo (p ∷ ps) = elim (required p) [
    | true ↦ fail_if (ltb 0 memo) required_after_others >> check_order 0 ps
    | false ↦ elim p.optional [
      | true ↦ fail_if (ltb 1 memo) optional_after_vararg >> check_order 1 ps
      | false ↦ fail_if (memo == 2) two_varargs >> check_order 2 ps
    ]
  ]

unfoldable pub parent_of : Text → Option Text
unfolding text_eq
parent_of arg = if text_eq arg (codes "$") then none else some arg

unfoldable pub args_or_none : Option Node → List Text
unfolding args_of
args_or_none none = []
args_or_none (some n) = args_of n

unfoldable pub count_in : List Text → Option ℕ
unfolding limit_of
count_in [] = none
count_in (t ∷ ts) = limit_of t

module _ {F : Type 0} (parse_float : Text → F) where
  -- `new ConfigSchemaRule`, for a node of the schema and the schema's root.
  unfoldable pub create_rule : Node → Node → Checked (Rule F)
  unfolding get_one get_all args_of args_or_none count_in create_params min_of max_of has_same_names
      check_order parent_of or_throw
  create_rule root n = do
    at ← or_throw missing_at (get_one (by_name (codes "at")) false n (root ∷ []))
    let precludes = args_or_none (get_one (by_name (codes "precludes")) false n (root ∷ []))
    let limit = args_or_none (get_one (by_name (codes "maxcount")) true n (root ∷ []))
    params ← create_params parse_float (get_all (by_name (codes "param")) n)
    fail_if (has_same_names params) names_not_unique
    check_order 0 params
    passes (record {
      at = map parent_of (args_of at);
      precludes = precludes;
      max_count = count_in limit;
      params = params;
      min_params = min_of params;
      max_params = max_of params;
    })
