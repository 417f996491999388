-- ===== src/Router/ConfigRouter/Servers.antt =====
-- lib/router/config-router.js: createServers and the ConfigRouter. The package ip-address is a
-- parameter, and `location` is createLocation.
use shiny_server.Prelude.{
  ℕ, zero, suc, pos, negsuc, true, false, not, List, [], ◌∷◌, ◌++◌, Option, none, some,
  if◌then◌else◌, Text, codes, text_eq, is_some, walked_eq, map,
}
use shiny_server.Prelude.Sets.{contains}
use shiny_server.Config.Node.{Node, by_name}
use shiny_server.Config.Node.Within.{Place, find_from, search_from}
use shiny_server.Config.Schema.Results.{
  no_listen, invalid_port, invalid_address, no_zones, conflict, failed_assertion, Checked, passes,
  throws, ◌>>=◌, ◌>>◌, fail_if,
}
use shiny_server.Config.Schema.Rules.{integer}
use shiny_server.Config.Schema.Apply.{Arg, one, Values}
use shiny_server.Router.AppSettings.{text_in, names_in, value_in}
use shiny_server.Router.Scores.{AddressLib, is_valid}
use shiny_server.Router.ConfigRouter.Hosting.{scope_of}
use shiny_server.Server.{Address, decimal}
use shiny_server.Server.Hostname.{has_zone}

-- What a ServerRouter is made of.
pub record ServerRouter (R : Type 0) : Type 0 where
  pub port : ℕ
  pub host : Text
  pub names : Option (List Text)
  pub locations : List R
  pub template_dir : Option Text

-- The port to listen on, with nothing for NaN.
unfoldable pub port_from : {F : Type 0} → Option (Arg F) → Checked (Option ℕ)
port_from none = passes (some 80)
port_from (some (one (integer (some (pos zero))))) = throws invalid_port
port_from (some (one (integer (some (pos (suc n)))))) = passes (some (suc n))
port_from (some (one (integer (some (negsuc n))))) = throws invalid_port
port_from (some _) = passes none

unfoldable pub host_from : Option Text → Text
unfolding text_eq
host_from none = codes "::"
host_from (some []) = codes "::"
host_from (some (c ∷ cs)) = if text_eq (c ∷ cs) (codes "*") then codes "::" else c ∷ cs

unfoldable pub port_text : Option ℕ → Text
unfolding decimal
port_text none = codes "NaN"
port_text (some n) = decimal n

-- The key of a server's name.
unfoldable pub key_of : Text → Option ℕ → Text → Text
unfolding port_text
key_of host port [] = host ++ (b':' ∷ port_text port)
key_of host port (c ∷ cs) = (host ++ (b':' ∷ port_text port)) ++ (b'(' ∷ ((c ∷ cs) ++ codes ")"))

-- The loop over the names of a server, with the keys that are seen.
unfoldable pub see_keys : List Text → List Text → Checked (List Text)
unfolding contains
see_keys [] seen = passes seen
see_keys (key ∷ ks) seen = do fail_if (contains key seen) (conflict key); see_keys ks (key ∷ seen)

-- `serverNames || ['']`
unfoldable pub names_or_any : Option (List Text) → List Text
names_or_any none = [] ∷ []
names_or_any (some names) = names

-- `assert(port)`
unfoldable pub asserted_port : Option ℕ → Checked ℕ
asserted_port none = throws failed_assertion
asserted_port (some zero) = throws failed_assertion
asserted_port (some (suc n)) = passes (suc n)

-- `_.map` of a function that may throw.
unfoldable pub map_checked {ℓ κ} :
    {A : Type ℓ} {B : Type κ} → (A → Checked B) → List A → Checked (List B)
map_checked f [] = passes []
map_checked f (x ∷ xs) = do y ← f x; ys ← map_checked f xs; passes (y ∷ ys)

unfoldable pub compact {ℓ} : {A : Type ℓ} → List (Option A) → List A
compact [] = []
compact (none ∷ os) = compact os
compact (some a ∷ os) = a ∷ compact os

-- A new server, if its keys are new.
unfoldable pub register :
    {R : Type 0}
    → Text
    → Option ℕ
    → Option (List Text)
    → List R
    → Option Text
    → List Text
    → Checked (ServerRouter R × List Text)
unfolding see_keys key_of names_or_any asserted_port
register host port names locations dir seen = do
  seen' ← see_keys (map (key_of host port) (names_or_any names)) seen
  listened ← asserted_port port
  passes (
    record {
      port = listened;
      host = host;
      names = names;
      locations = locations;
      template_dir = dir;
    },
    seen',
  )

module _ (lib : AddressLib) {F R : Type 0} (values : Node → Values F)
    (location : Place → Checked (Option R)) where
  -- The function that createServers maps over the `server` nodes, with the keys that are seen.
  unfoldable pub create_server : Place → List Text → Checked (ServerRouter R × List Text)
  unfolding scope_of value_in text_in names_in port_from host_from is_valid has_zone find_from
      search_from map_checked compact register
  create_server at seen = do
    let scope = scope_of values at
    fail_if (not (is_some (find_from (by_name (codes "listen")) true at))) no_listen
    port ← port_from (value_in scope (codes "listen") (codes "port"))
    let host = host_from (text_in (value_in scope (codes "listen") (codes "host")))
    fail_if (not (is_valid lib host)) invalid_address
    fail_if (has_zone lib host) no_zones
    let names = names_in (value_in scope (codes "server_name") (codes "names"))
    locations ← map_checked location (search_from (by_name (codes "location")) false true at)
    let dir = text_in (value_in scope (codes "template_dir") (codes "dir"))
    register host port names (compact locations) dir seen

  unfoldable pub create_each : List Place → List Text → Checked (List (ServerRouter R))
  unfolding create_server
  create_each [] seen = passes []
  create_each (at ∷ ats) seen = do
    (s, seen') ← create_server at seen
    ss ← create_each ats seen'
    passes (s ∷ ss)

  -- `createServers`
  unfoldable pub create_servers : Node → Checked (List (ServerRouter R))
  unfolding create_each search_from
  create_servers root =
      create_each
        (search_from (by_name (codes "server")) false false (record { node = root; above = [] })) []

-- `getAddresses`
unfoldable pub get_addresses : {R : Type 0} → List (ServerRouter R) → List Address
get_addresses ss = map (λ s. record { address = s.host; port = s.port }) ss
