-- ===== src/Router/AppSettings.antt =====
-- lib/router/config-router-util.js: the settings of an application from the nodes in whose scope it
-- is. A scope gives the values of the node that `getOne` finds for a directive, inherited or not.
pub mod Protocols
pub mod Kept
pub mod Given
use shiny_server.Prelude.{
  ℕ, Bool, true, false, not, ◌&&◌, ◌||◌, List, [], ◌∷◌, ◌++◌, Option, none, some, leb, ◌==◌,
  if◌then◌else◌, Text, codes, text_eq, all, map, ℤ, pos, is_truthy, walked_eq,
}
use shiny_server.Prelude.Chars.{is_space, fold_case}
use shiny_server.Prelude.Dict.{lookup, insert}
use shiny_server.Prelude.Sets.{contains}
use shiny_server.Config.Schema.Types.{is_nonempty}
use shiny_server.Config.Schema.Results.{
  Error, not_octal, invalid_url, invalid_frame_options, unknown_protocol, no_list, no_text, Checked,
  passes, throws, ◌>>=◌, ◌>>◌, fail_if,
}
use shiny_server.Config.Schema.Rules.{Value, boolean, integer, string}
use shiny_server.Config.Schema.Apply.{Arg, one, several, Values}

-- ALL_PROTOCOLS
abbrev pub all_protocols : List Text
all_protocols =
    codes "websocket"
    ∷ codes "xdr-streaming"
    ∷ codes "xhr-streaming"
    ∷ codes "eventsource"
    ∷ codes "iframe-eventsource"
    ∷ codes "htmlfile"
    ∷ codes "iframe-htmlfile"
    ∷ codes "xdr-polling"
    ∷ codes "xhr-polling"
    ∷ codes "iframe-xhr-polling"
    ∷ codes "jsonp-polling"
    ∷ []

-- The names that an object literal inherits, which are looked up like its own.
abbrev pub inherited_names : List Text
inherited_names =
    codes "constructor"
    ∷ codes "hasOwnProperty"
    ∷ codes "isPrototypeOf"
    ∷ codes "propertyIsEnumerable"
    ∷ codes "toLocaleString"
    ∷ codes "toString"
    ∷ codes "valueOf"
    ∷ codes "__proto__"
    ∷ codes "__defineGetter__"
    ∷ codes "__defineSetter__"
    ∷ codes "__lookupGetter__"
    ∷ codes "__lookupSetter__"
    ∷ []

-- META_PROTOCOLS
unfoldable pub meta_protocol : Text → Option (List Text)
unfolding text_eq
meta_protocol name =
    if text_eq name (codes "streaming")
    then some (
        codes "xdr-streaming"
        ∷ codes "iframe-htmlfile"
        ∷ codes "htmlfile"
        ∷ codes "xhr-streaming"
        ∷ codes "iframe-eventsource"
        ∷ codes "eventsource"
        ∷ [])
    else if text_eq name (codes "polling")
    then some (
        codes "jsonp-polling"
        ∷ codes "xdr-polling"
        ∷ codes "iframe-xhr-polling"
        ∷ codes "xhr-polling"
        ∷ [])
    else none

unfoldable pub add_meta : List Text → Text → Option (List Text) → Checked (List Text)
add_meta accum name none = throws (unknown_protocol name)
add_meta accum name (some names) = passes (accum ++ names)

-- The function that `reduce` is given.
unfoldable pub add_protocol : List Text → Text → Checked (List Text)
unfolding contains add_meta meta_protocol
add_protocol accum name =
    if contains name all_protocols || contains name inherited_names
    then passes (accum ++ (name ∷ []))
    else add_meta accum name (meta_protocol name)

unfoldable pub reduce_names : List Text → List Text → Checked (List Text)
unfolding add_protocol
reduce_names accum [] = passes accum
reduce_names accum (name ∷ names) = do next ← add_protocol accum name; reduce_names next names

-- A protocol is disabled along with its sibling in an iframe.
unfoldable pub push_sibling : Text → Text → List Text → List Text
unfolding contains
push_sibling iframe sibling ps = if contains iframe ps then ps ++ (sibling ∷ []) else ps

-- What `disable_protocols` disables.
unfoldable pub disabled_protocols : List Text → Checked (List Text)
unfolding reduce_names push_sibling
disabled_protocols names = do
  ps ← reduce_names [] names
  passes (
      push_sibling (codes "iframe-eventsource") (codes "eventsource")
        (push_sibling (codes "iframe-htmlfile") (codes "htmlfile") ps))

module _ {F : Type 0} where
  -- `typeof value === 'string'`
  unfoldable pub text_in : Option (Arg F) → Option Text
  text_in (some (one (string t))) = some t
  text_in _ = none

  unfoldable pub flag_in : Option (Arg F) → Option Bool
  flag_in (some (one (boolean b))) = some b
  flag_in _ = none

  -- A number, but not NaN.
  unfoldable pub number_in : Option (Arg F) → Option ℤ
  number_in (some (one (integer z))) = z
  number_in _ = none

  unfoldable pub texts_of : List (Value F) → List Text
  texts_of [] = []
  texts_of (string t ∷ vs) = t ∷ texts_of vs
  texts_of (_ ∷ vs) = texts_of vs

  unfoldable pub names_in : Option (Arg F) → Option (List Text)
  unfolding texts_of
  names_in (some (several vs)) = some (texts_of vs)
  names_in _ = none

  unfoldable pub values_or_empty : Option (Values F) → Values F
  values_or_empty none = []
  values_or_empty (some vs) = vs

-- The settings of an application: a name, with nothing for undefined.
abbrev pub Settings : Type 0 → Type 0
Settings F = List (Text × Option (Arg F))

unfoldable pub any : (ℕ → Bool) → Text → Bool
any p [] = false
any p (c ∷ cs) = p c || any p cs

-- `/^[0-8]+$/`
unfoldable pub is_octal : Text → Bool
unfolding is_nonempty
is_octal t = is_nonempty t && all (λ c. leb b'0' c && leb c b'8') t

unfoldable pub option_or {ℓ} : {A : Type ℓ} → A → Option A → A
option_or a none = a
option_or a (some b) = b

module _ {F : Type 0} where
  abbrev pub number : ℕ → Option (Arg F)
  number n = some (one (integer (some (pos n))))

  abbrev pub flag : Bool → Option (Arg F)
  flag b = some (one (boolean b))

  abbrev pub text : Text → Option (Arg F)
  text t = some (one (string t))

  abbrev pub names : List Text → Option (Arg F)
  names ts = some (several (map string ts))

  unfoldable pub defaults : Bool → Settings F
  defaults false = []
  defaults true =
      (codes "initTimeout", number 60)
      ∷ (codes "idleTimeout", number 5)
      ∷ (codes "preserveLogs", flag false)
      ∷ (codes "reconnect", flag true)
      ∷ (codes "sanitizeErrors", flag true)
      ∷ (codes "disableProtocols", names [])
      ∷ (codes "bookmarkStateDir", text (codes "/var/lib/shiny-server/bookmarks"))
      ∷ []

  -- `value || value === 0`, or `value`.
  unfoldable pub set_number : Bool → Text → Option ℤ → Settings F → Settings F
  unfolding insert
  set_number zero_too name none s = s
  set_number zero_too name (some z) s =
      if zero_too || is_truthy z then insert name (some (one (integer (some z)))) s else s

  -- A flag is stored if it is the one given.
  unfoldable pub set_flag : Bool → Text → Option Bool → Settings F → Settings F
  unfolding insert
  set_flag wanted name none s = s
  set_flag true name (some b) s = if b then insert name (flag true) s else s
  set_flag false name (some b) s = if b then s else insert name (flag false) s

  unfoldable pub set_mode : Option Text → Settings F → Checked (Settings F)
  unfolding insert is_octal is_nonempty
  set_mode none s = passes (insert (codes "logFileMode") (text (codes "640")) s)
  set_mode (some mode) s =
      if is_nonempty mode
      then (fail_if (not (is_octal mode)) not_octal
          >> passes (insert (codes "logFileMode") (text mode) s))
      else passes (insert (codes "logFileMode") (text (codes "640")) s)

  unfoldable pub push_names : Option (Option (Arg F)) → Text → Checked (Option (Arg F))
  push_names (some (some (several vs))) t = passes (some (several (vs ++ (string t ∷ []))))
  push_names _ t = throws no_list

module _ (to_upper_case : Text → Text) where
  -- `parseFrameOptions`, on the values of its node: nothing for undefined.
  unfoldable pub frame_options_of : Text → Text → Checked (Option Text)
  unfolding text_eq any is_space
  frame_options_of value url =
      let upper = to_upper_case value in
      if text_eq upper (codes "DENY") || text_eq upper (codes "SAMEORIGIN")
      then passes (some upper)
      else if text_eq upper (codes "ALLOW")
      then passes none
      else if text_eq upper (codes "ALLOW-FROM")
      then fail_if (any is_space url) invalid_url >> passes (some (upper ++ (b' ' ∷ url)))
      else throws invalid_frame_options

  unfoldable pub parse_frame_options : {F : Type 0} → Values F → Checked (Option (Arg F))
  unfolding frame_options_of text_in lookup option_or
  parse_frame_options vs = elim (text_in (lookup (codes "value") vs)) [
    | none ↦ throws no_text
    | some value ↦ do
      frame ←
          frame_options_of value (option_or (codes "undefined") (text_in (lookup (codes "url") vs)))
      passes (elim frame [ none ↦ none | some t ↦ text t ])
  ]

-- A scope: the values of the node that is found for a directive.
abbrev pub Scope : Type 0 → Type 0
Scope F = Text → Option (Values F)

module _ {F : Type 0} where
  -- `locNode.getValues(directive)[name]`
  unfoldable pub value_in : Scope F → Text → Text → Option (Arg F)
  unfolding lookup values_or_empty
  value_in scope directive name = lookup name (values_or_empty (scope directive))

module _ {F : Type 0} (to_upper_case : Text → Text) where
  unfoldable pub set_frame_options : Option (Values F) → Settings F → Checked (Settings F)
  unfolding parse_frame_options insert
  set_frame_options none s = passes s
  set_frame_options (some vs) s = do
    frame ← parse_frame_options to_upper_case vs
    passes (insert (codes "frameOptions") frame s)

module _ {F : Type 0} where
  unfoldable pub set_python : Option (Values F) → Settings F → Settings F
  unfolding insert lookup
  set_python none s = s
  set_python (some vs) s = insert (codes "python") (lookup (codes "path") vs) s

  unfoldable pub set_protocols : Option (List Text) → Settings F → Checked (Settings F)
  unfolding disabled_protocols insert
  set_protocols none s = passes s
  set_protocols (some given) s = do
    ps ← disabled_protocols given
    passes (insert (codes "disableProtocols") (names ps) s)

  unfoldable pub set_websockets : Option Bool → Settings F → Checked (Settings F)
  unfolding push_names insert lookup
  set_websockets (some true) s = do
    ps ← push_names (lookup (codes "disableProtocols") s) (codes "websocket")
    passes (insert (codes "disableProtocols") ps s)
  set_websockets _ s = passes s

  unfoldable pub set_bookmarks : Option Text → Settings F → Settings F
  unfolding insert
  set_bookmarks none s = s
  set_bookmarks (some dir) s = insert (codes "bookmarkStateDir") (text dir) s

  unfoldable pub scheduler_of : Option (Values F) → Settings F
  scheduler_of none = (codes "maxRequests", number 100) ∷ []
  scheduler_of (some []) = []
  scheduler_of (some ((k, v) ∷ vs)) = (k, some v) ∷ scheduler_of (some vs)

-- The settings that `parseApplication` sets: `appDefaults` and `scheduler.simple`.
pub record Application (F : Type 0) : Type 0 where
  pub app_defaults : Settings F
  pub simple : Settings F

module _ {F : Type 0} (to_upper_case : Text → Text) where
  -- `parseApplication`
  unfoldable pub parse_application : Scope F → Bool → Checked (Application F)
  unfolding value_in text_in flag_in number_in names_in defaults set_number set_flag set_mode
      set_frame_options set_python set_protocols set_websockets set_bookmarks scheduler_of
  parse_application scope provide_defaults = do
    let idle = number_in (value_in scope (codes "app_idle_timeout") (codes "timeout"))
    let init = number_in (value_in scope (codes "app_init_timeout") (codes "timeout"))
    let logs = flag_in (value_in scope (codes "preserve_logs") (codes "enabled"))
    let mode = text_in (value_in scope (codes "log_file_mode") (codes "mode"))
    let reconnect = flag_in (value_in scope (codes "reconnect") (codes "enabled"))
    let sanitize = flag_in (value_in scope (codes "sanitize_errors") (codes "enabled"))
    let disabled = names_in (value_in scope (codes "disable_protocols") (codes "names"))
    let websockets = flag_in (value_in scope (codes "disable_websockets") (codes "val"))
    let dir = text_in (value_in scope (codes "bookmark_state_dir") (codes "dir"))
    let timed =
        set_number false (codes "initTimeout") init
          (set_number true (codes "idleTimeout") idle (defaults provide_defaults))
    s1 ← set_mode mode (set_flag true (codes "preserveLogs") logs timed)
    s2 ← set_frame_options to_upper_case (scope (codes "frame_options")) s1
    let flagged =
        set_flag false (codes "sanitizeErrors") sanitize
          (set_flag false (codes "reconnect") reconnect s2)
    s3 ← set_protocols disabled (set_python (scope (codes "python")) flagged)
    s4 ← set_websockets websockets s3
    passes (record {
      app_defaults = set_bookmarks dir s4;
      simple = scheduler_of (scope (codes "simple_scheduler"));
    })
