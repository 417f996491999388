-- ===== src/Router/ConfigRouter/Tests.antt =====
-- The theorems on the construction of routers at a concrete configuration.
use shiny_server.Prelude.{
  ℕ, ◌≡◌, refl, true, false, List, [], ◌∷◌, Option, none, some, if◌then◌else◌, pos, String, Text,
  codes, text_eq, All, arith, walked_eq, map,
}
use shiny_server.Prelude.Chars.{is_line_end}
use shiny_server.Prelude.Dict.{lookup}
use shiny_server.Prelude.Sets.{NoDup, keys}
use shiny_server.Config.Node.{Node, Nodes, node, no_node, and, has_name, by_name, search}
use shiny_server.Config.Node.Within.{Place}
use shiny_server.Config.Schema.Results.{Checked, passes}
use shiny_server.Config.Schema.Rules.{string, integer}
use shiny_server.Config.Schema.Apply.{one, several, Values}
use shiny_server.Router.Scores.{AddressLib}
use shiny_server.Router.Directory.{strip_slash, after_prefix}
use shiny_server.Router.ConfigRouter.Paths.{derive_location_path}
use shiny_server.Router.ConfigRouter.Nested.{after_prefix-derive_location_path}
use shiny_server.Router.ConfigRouter.Hosting.{Router}
use shiny_server.Router.ConfigRouter.Servers.{ServerRouter, create_servers, get_addresses}
use shiny_server.Router.ConfigRouter.Accepted.{
  EachOf, server_places, IsAddress, all_keys, create_servers-IsAddress,
}
use shiny_server.Router.ConfigRouter.Listens.{Parses, create_servers-Sets}
use shiny_server.Router.ConfigRouter.Permissions.{
  users_of, port_of, IsUnprivileged, is_superuser, check_permissions,
  check_permissions-IsUnprivileged,
}
use shiny_server.Server.{Url, created}
use shiny_server.Server.Refines.{table, IsTable, IsValid, each, Sets}

abbrev named : String → List Text → ℕ → Nodes → Node
named name args depth ns = node (some (codes name)) args none depth ns

abbrev inner_location : Node
inner_location =
    named "location" (codes "/a" ∷ []) 3
      (and (named "app_dir" (codes "/srv/app" ∷ []) 4 no_node) no_node)

abbrev outer_location : Node
outer_location = named "location" (codes "apps/" ∷ []) 2 (and inner_location no_node)

abbrev server_node : Node
server_node =
    named "server" [] 1
      (and (named "listen" (codes "3838" ∷ []) 2 no_node) (and outer_location no_node))

abbrev root : Node
root = node none [] none 0 (
    and (named "run_as" (codes "shiny" ∷ []) 1 no_node)
      (and (named "log_dir" (codes "/log" ∷ []) 1 no_node) (and server_node no_node)))

abbrev path_values : List Text → Values Text
path_values [] = []
path_values (a ∷ args) = (codes "path", one (string a)) ∷ []

-- What the rules make of the arguments.
abbrev values : Node → Values Text
values (node none args at depth ns) = []
values (node (some name) args at depth ns) =
    if text_eq name (codes "listen")
    then (codes "port", one (integer (some (pos 3838)))) ∷ []
    else if text_eq name (codes "run_as")
    then (codes "users", several (string (codes "shiny") ∷ [])) ∷ []
    else path_values args

abbrev apps : Place
apps = record { node = outer_location; above = server_node ∷ root ∷ [] }

abbrev one_app : Place
one_app = record { node = inner_location; above = outer_location ∷ server_node ∷ root ∷ [] }

apps_path : derive_location_path values apps ≡ passes (codes "/apps/")
unfolding derive_location_path text_eq
apps_path = refl

one_app_path : derive_location_path values one_app ≡ passes (codes "/apps/a")
unfolding derive_location_path text_eq
one_app_path = refl

is_location : has_name (codes "location") outer_location ≡ true
unfolding has_name text_eq
is_location = refl

apps_line : All (λ c. is_line_end c ≡ false) (codes "/apps/")
unfolding is_line_end
apps_line = (refl, (refl, (refl, (refl, (refl, (refl, tt))))))

one_app_line : All (λ c. is_line_end c ≡ false) (codes "/apps/a")
unfolding is_line_end
one_app_line = (refl, (refl, (refl, (refl, (refl, (refl, (refl, tt)))))))

one_app_matches :
    after_prefix (strip_slash (codes "/apps/a")) (codes "/apps/a/x") ≡ some (codes "/x")
unfolding after_prefix strip_slash
one_app_matches = refl

after_prefix-derive_location_path_example :
    (u : Text) × (after_prefix (strip_slash (codes "/apps/")) (codes "/apps/a/x") ≡ some u)
after_prefix-derive_location_path_example =
    after_prefix-derive_location_path values apps inner_location (codes "/apps/") (codes "/apps/a")
      (codes "/apps/a/x") (codes "/x") is_location apps_path one_app_path apps_line one_app_line
      one_app_matches

-- A library to which every text is an address of version 6 without a zone.
abbrev any_address : AddressLib
any_address = record {
  Address6 = Text;
  is_address4 = λ t. false;
  address6 = λ t. some t;
  from_address4 = λ t. t;
  canonical_form = λ t. t;
  correct_form4 = λ t. t;
  correct_form = λ t. t;
  zone = λ t. [];
  wildcard6 = codes "::";
}

abbrev locate : Place → Checked (Option (Router Text))
locate at = passes none

abbrev one_server : ServerRouter (Router Text)
one_server = record {
  port = 3838;
  host = codes "::";
  names = none;
  locations = [];
  template_dir = none;
}

server_created : create_servers any_address values locate root ≡ passes (one_server ∷ [])
unfolding create_servers text_eq
server_created = refl

create_servers-IsAddress_example :
    All (IsAddress any_address) (one_server ∷ [])
    × NoDup (all_keys (one_server ∷ []))
    × EachOf any_address values locate
        (server_places any_address values locate root)
        (one_server ∷ [])
    × (map (λ (p : Place). p.node) (server_places any_address values locate root)
        ≡ search (by_name (codes "server")) false false root)
create_servers-IsAddress_example =
    create_servers-IsAddress any_address values locate root (one_server ∷ []) server_created

abbrev parse_url : Text → Option Url
parse_url key = some (record { hostname = key; port = [] })

any_Parses : Parses any_address parse_url
any_Parses a key valid zone positive low e = (record { hostname = key; port = [] }, refl)

created-IsValid : IsValid created
unfolding created NoDup keys lookup
created-IsValid =
    each (λ k. IsTable 0 (table k created))
      (record { unique = tt; bounded = λ k i found. cc found })
      (record { unique = tt; bounded = λ k i found. cc found })

create_servers-Sets_example : Sets any_address parse_url (get_addresses (one_server ∷ [])) created
create_servers-Sets_example =
    create_servers-Sets any_address parse_url any_Parses values locate root (one_server ∷ [])
      created server_created (omega arith, tt) created-IsValid

not_root : is_superuser 1000 ≡ false
unfolding is_superuser
not_root = refl

permitted : check_permissions values 1000 (some (codes "shiny")) root ≡ passes tt
unfolding check_permissions text_eq
permitted = refl

check_permissions-IsUnprivileged_example :
    All
      (λ n. All (λ u. u ≡ codes "shiny") (users_of values n))
      (search (by_name (codes "run_as")) false false root)
    × (search (by_name (codes "user_apps")) false false root ≡ [])
    × (search (by_name (codes "user_dirs")) false false root ≡ [])
    × All
        (λ n. IsUnprivileged (port_of values n))
        (search (by_name (codes "listen")) false false root)
check_permissions-IsUnprivileged_example =
    check_permissions-IsUnprivileged values 1000 (codes "shiny") root not_root permitted
