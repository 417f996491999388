-- ===== src/Proxy/Multiplex.antt =====
-- lib/proxy/multiplex.js: logical channels over one SockJS connection.
pub mod Laws
use shiny_server.Prelude.{
  ℕ, Bool, true, false, not, ◌&&◌, ◌||◌, List, [], ◌∷◌, ◌++◌, Option, none, some, leb, ◌==◌,
  if◌then◌else◌, Text, codes, walked_eq,
}
use shiny_server.Prelude.Chars.{is_digit, is_line_end}
use shiny_server.Prelude.Dict.{lookup, insert}

pub data Method : Type 0 where
  message open_channel close_channel : Method

unfoldable pub method_of : ℕ → Option Method
method_of c =
    if c == b'm'
    then some message
    else if c == b'o'
    then some open_channel
    else if c == b'c'
    then some close_channel
    else none

pub record Packet : Type 0 where
  pub id : Text
  pub method : Method
  pub payload : Text

-- `|m|payload`, behind one digit or more.
behind_id : Text → Text → Option Packet
unfolding method_of
behind_id (d ∷ ds) (bar ∷ m ∷ bar' ∷ payload) =
    if bar == b'|' && bar' == b'|'
    then elim (method_of m) [
      | none ↦ none
      | some k ↦ some (record { id = d ∷ ds; method = k; payload = payload })
    ]
    else none
behind_id id _ = none

-- `^(\d+)\|(m|o|c)\|([\s\S]*)$` at one position; `id` are the digits read, in order.
unfoldable pub match_digits : Text → Text → Option Packet
unfolding is_digit behind_id
match_digits id [] = none
match_digits id (c ∷ cs) =
    let more = match_digits (id ++ (c ∷ [])) cs in
    if is_digit c then more else behind_id id (c ∷ cs)

-- The search of `exec`: the first line start at which the pattern matches. The flag says whether
-- the text stands at one.
unfoldable pub search_lines : Bool → Text → Option Packet
unfolding is_line_end
search_lines at_start [] = none
search_lines at_start (c ∷ cs) =
    let rest = search_lines (is_line_end c) cs in
    if at_start then elim (match_digits [] (c ∷ cs)) [ some p ↦ some p | none ↦ rest ] else rest

-- `parseMultiplexData`; `json` is `JSON.parse`, which throws on `none`.
unfoldable pub parse_multiplex_data : (Text → Option Text) → Text → Option Packet
parse_multiplex_data json msg = elim (search_lines true msg) [
  | none ↦ none
  | some p ↦ elim p.method [
    | message ↦ some p
    | open_channel ↦ some p
    | close_channel ↦ elim (json p.payload) [
      | none ↦ none
      | some v ↦ some (record p { payload = v })
    ]
  ]
]

unfoldable pub format_message : Text → Text → Text
format_message id msg = id ++ (b'|' ∷ b'm' ∷ b'|' ∷ msg)

unfoldable pub format_open_event : Text → Text → Text
format_open_event id url = id ++ (b'|' ∷ b'o' ∷ b'|' ∷ url)

-- `json` is the text of `{code, reason}`.
unfoldable pub format_close_event : Text → Text → Text
format_close_event id json = id ++ (b'|' ∷ b'c' ∷ b'|' ∷ json)

-- Whether `readyState` is 1; any other state of a channel is 3.
pub record Channel : Type 0 where
  pub is_open : Bool
  pub url : Text

pub data Out : Type 0 where
  connection : Text → Out
  data_event : Text → Text → Out
  close_event : Text → Text → Out
  write_conn : Text → Out
  close_conn : Out

abbrev pub Channels : Type 0
Channels = List (Text × Channel)

-- `_destroy`
unfoldable pub destroy : Text → Channel → Text → Channels → Channels × List Out
destroy id c payload t = (insert id (record c { is_open = false }) t, close_event id payload ∷ [])

-- The packet of a message from the client. `resolve` gives the URL of a new channel.
unfoldable pub dispatch : (Text → Text) → Packet → Channels → Channels × List Out
unfolding destroy
dispatch resolve p t = elim (lookup p.id t) [
  | none ↦ elim p.method [
    | open_channel ↦
        (insert p.id (record { is_open = true; url = resolve p.payload }) t, connection p.id ∷ [])
    | _ ↦ (t, [])
  ]
  | some c ↦ elim p.method [
    | close_channel ↦ destroy p.id c p.payload t
    | message ↦ (t, data_event p.id p.payload ∷ [])
    | open_channel ↦ (t, [])
  ]
]

-- The `data` event of the physical connection.
unfoldable pub on_data :
    (Text → Option Text) → (Text → Text) → Text → Channels → Channels × List Out
unfolding parse_multiplex_data search_lines match_digits dispatch lookup insert
on_data json resolve msg t = elim (parse_multiplex_data json msg) [
  | none ↦ (t, close_conn ∷ [])
  | some p ↦ dispatch resolve p t
]

-- The `close` event of the physical connection: every channel is destroyed.
unfoldable pub closes : Channels → List Out
closes [] = []
closes ((id, c) ∷ t) = close_event id [] ∷ closes t

unfoldable pub on_close : Channels → Channels × List Out
unfolding closes
on_close t = ([], closes t)

-- `write` of a channel.
unfoldable pub write_channel : Text → Text → Channels → List Out
unfolding lookup format_message
write_channel id msg t = elim (lookup id t) [
  | none ↦ []
  | some c ↦ if c.is_open then write_conn (format_message id msg) ∷ [] else []
]

-- `close` of a channel; `conn_open` says that the physical connection is open, and `json` is the
-- text of the code and the reason.
unfoldable pub close_logical : Bool → Text → Text → Channels → Channels × List Out
unfolding lookup destroy format_close_event
close_logical conn_open id json t = elim (lookup id t) [
  | none ↦ (t, [])
  | some c ↦
      let (u, es) = destroy id c json t in
      (
        u,
        (if c.is_open && conn_open then write_conn (format_close_event id json) ∷ [] else []) ++ es,
      )
]
