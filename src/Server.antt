-- ===== src/Server.antt =====
-- lib/server/server.js: the HTTP servers that listen on the configured addresses. `url.URL`, which
-- answers nothing where it throws, and the package ip-address are parameters. The forwarding of
-- events to the listeners of a Server is not modelled.
pub mod Hostname
pub mod Effects
pub mod Tables
pub mod Requests
pub mod Refines
pub mod Destroy
pub mod Runs
mod Tests
use shiny_server.Prelude.{
  ℕ, zero, suc, ◌+◌, ◌*◌, ◌-◌, ◌/◌, ◌%◌, Bool, true, false, not, List, [], ◌∷◌, ◌++◌, Option, none,
  some, ltb, ◌==◌, if◌then◌else◌, Text, codes, ◌>>=◌, ◌>>◌, guard, is_some, walked_eq, nat_eq,
}
use shiny_server.Prelude.Dict.{lookup, insert, remove}
use shiny_server.Prelude.Sets.{difference, uniq, keys}
use shiny_server.Router.Scores.{AddressLib, is_wildcard}
use Hostname.{normalize, addr_to_hostname, hostname_to_addr}

pub record Address : Type 0 where
  pub address : Text
  pub port : ℕ

pub record Url : Type 0 where
  pub hostname : Text
  pub port : Text

-- The text of a number, from its last digit on.
unfoldable pub digits : ℕ → ℕ → Text → Text
digits zero n acc = acc
digits (suc fuel) n acc =
    let d = n % 10 + b'0' in
    elim (ltb n 10) [ true ↦ d ∷ acc | false ↦ digits fuel (n / 10) (d ∷ acc) ]

unfoldable pub decimal : ℕ → Text
unfolding digits
decimal n = digits (suc n) n []

-- `+text`, for a text of digits.
unfoldable pub to_number : ℕ → Text → ℕ
to_number n [] = n
to_number n (c ∷ cs) = to_number (10 * n + (c - b'0')) cs

unfoldable pub port_of : Text → ℕ
unfolding to_number
port_of [] = 80
port_of (c ∷ cs) = to_number 0 (c ∷ cs)

-- A table from keys to the http.Server objects, which are numbered in the order of their creation.
abbrev pub Table : Type 0
Table = List (Text × ℕ)

-- `server.close` on the object at the key, and `server.listen`.
pub data Effect : Type 0 where
  stop : Text → ℕ → Effect
  listen : ℕ → ℕ → Text → Effect

-- A Server with the http.Server objects: the number of the next one, and their flag `listening`.
pub record Server : Type 0 where
  pub wildcards : Table
  pub hosts : Table
  pub next : ℕ
  pub listening : List (ℕ × Bool)

unfoldable pub created : Server
created = record { wildcards = []; hosts = []; next = 0; listening = [] }

unfoldable pub flag_or : Option Bool → Bool
flag_or none = false
flag_or (some b) = b

unfoldable pub is_listening : List (ℕ × Bool) → ℕ → Bool
unfolding flag_or lookup
is_listening flags id = flag_or (lookup id flags)

unfoldable pub same_server : Option ℕ → ℕ → Bool
same_server none id = false
same_server (some i) id = i == id

-- `removeFromTable`
unfoldable pub remove_from_table : Table → Text → ℕ → Table
unfolding lookup remove same_server
remove_from_table t key id = if same_server (lookup key t) id then remove key t else t

unfoldable pub do_close : List (ℕ × Bool) → ℕ → Text → List Effect
unfolding is_listening
do_close flags id key = if is_listening flags id then stop key id ∷ [] else []

-- `$close`; nothing where the assertion fails.
unfoldable pub close : List (ℕ × Bool) → Table → List Text → Option (Table × List Effect)
unfolding do_close remove_from_table lookup
close flags t [] = some (t, [])
close flags t (key ∷ ks) = do
  id ← lookup key t
  (u, fx) ← close flags (remove_from_table t key id) ks
  some (u, do_close flags id key ++ fx)

module _ (lib : AddressLib) where
  -- `addressToKey`; nothing where it throws.
  unfoldable pub address_to_key : Address → Option Text
  unfolding normalize addr_to_hostname decimal
  address_to_key a = do
    addr ← normalize lib a.address
    some (codes "http://" ++ addr_to_hostname lib addr ++ (b':' ∷ decimal a.port))

  -- The keys of the addresses that are wildcards, or of those that are not.
  unfoldable pub keys_of : Bool → List Address → Option (List Text)
  unfolding address_to_key is_wildcard
  keys_of wild [] = some []
  keys_of wild (a ∷ addresses) = do
    key ← address_to_key a
    ks ← keys_of wild addresses
    some (
        if is_wildcard lib a.address
        then (if wild then key ∷ ks else ks)
        else (if wild then ks else key ∷ ks))

module _ (lib : AddressLib) (parse_url : Text → Option Url) where
  -- `$open`, from the number of the next object on; nothing where an assertion fails.
  unfoldable pub open_keys : ℕ → Table → List Text → Option (ℕ × Table × List Effect)
  unfolding lookup insert hostname_to_addr port_of
  open_keys id t [] = some (id, t, [])
  open_keys id t (key ∷ ks) = do
    guard (not (is_some (lookup key t)))
    parsed ← parse_url key
    (next, u, fx) ← open_keys (suc id) (insert key id t) ks
    some (next, u, listen id (port_of parsed.port) (hostname_to_addr parsed.hostname) ∷ fx)

  -- `setAddresses`; nothing where it throws.
  unfoldable pub set_addresses : List Address → Server → Option (Server × List Effect)
  unfolding keys_of close open_keys uniq difference keys
  set_addresses addresses s = do
    ws ← keys_of lib true addresses
    hs ← keys_of lib false addresses
    let wildcard_keys = uniq ws
    let host_keys = uniq hs
    (w1, fx1) ← close s.listening s.wildcards (difference (keys s.wildcards) wildcard_keys)
    (h1, fx2) ← close s.listening s.hosts (difference (keys s.hosts) host_keys)
    (n2, w2, fx3) ← open_keys s.next w1 (difference wildcard_keys (keys s.wildcards))
    (n3, h2, fx4) ← open_keys n2 h1 (difference host_keys (keys s.hosts))
    some (record s { wildcards = w2; hosts = h2; next = n3 }, fx1 ++ (fx2 ++ (fx3 ++ fx4)))

-- `destroy`
unfoldable pub destroy : Server → Option (Server × List Effect)
unfolding close keys
destroy s = do
  (w, fx1) ← close s.listening s.wildcards (keys s.wildcards)
  (h, fx2) ← close s.listening s.hosts (keys s.hosts)
  some (record s { wildcards = w; hosts = h }, fx1 ++ fx2)

-- The table that an http.Server was created for.
pub data Kind : Type 0 where
  wildcard host : Kind

unfoldable pub drop_server : Kind → Text → ℕ → Server → Server
unfolding remove_from_table
drop_server wildcard key id s = record s { wildcards = remove_from_table s.wildcards key id }
drop_server host key id s = record s { hosts = remove_from_table s.hosts key id }

-- The listener of `close`.
unfoldable pub on_close : Kind → Text → ℕ → Server → Server
unfolding drop_server insert
on_close k key id s = drop_server k key id (record s { listening = insert id false s.listening })

-- The listener of `listening`.
unfoldable pub on_listening : ℕ → Server → Server
unfolding insert
on_listening id s = record s { listening = insert id true s.listening }

-- The listener of `error`.
unfoldable pub on_error : Kind → Text → ℕ → Server → Server
unfolding drop_server is_listening
on_error k key id s = if is_listening s.listening id then s else drop_server k key id s
