-- ===== src/Server/Tests.antt =====
-- The theorems on Servers at concrete inputs: the addresses 10.0.0.1 and ::, at which the URLs are
-- read by a function for keys of the form `http://<host>:<port>`.
use shiny_server.Prelude.{
  ◌≡◌, ◌≢◌, refl, true, List, [], ◌∷◌, Option, none, some, Text, codes, arith, All, if◌then◌else◌,
  text_eq, walked_eq,
}
use shiny_server.Prelude.Dict.{lookup}
use shiny_server.Prelude.Sets.{NoDup, keys}
use shiny_server.Router.Scores.{AddressLib}
use shiny_server.Server.{Url, Address, Server, Kind, host, address_to_key, on_close}
use shiny_server.Server.Requests.{WellFormed}
use shiny_server.Server.Refines.{table, IsTable, IsValid, each, Sets, set_addresses-Sets}
use shiny_server.Server.Destroy.{Destroys, destroy-Destroys}
use shiny_server.Server.Runs.{
  Op, set_to, destroyed, closed, begun, GoodOp, Keeps, run, run-Keeps, run-late_close,
}

-- A library that knows two addresses, in their normal form.
abbrev addresses_known : AddressLib
addresses_known = record {
  Address6 = Text;
  is_address4 = λ t. text_eq t (codes "10.0.0.1");
  address6 = λ t. if text_eq t (codes "::") then some t else none;
  from_address4 = λ t. t;
  canonical_form = λ t. t;
  correct_form4 = λ t. t;
  correct_form = λ t. t;
  zone = λ t. [];
  wildcard6 = codes "::";
}

abbrev wild_key : Text
wild_key = codes "http://[::]:80"

abbrev host_key : Text
host_key = codes "http://10.0.0.1:8080"

-- `new url.URL` on the two keys: port 80 is dropped.
abbrev read_url : Text → Option Url
read_url key =
    if text_eq key wild_key
    then some (record { hostname = codes "[::]"; port = [] })
    else if text_eq key host_key
    then some (record { hostname = codes "10.0.0.1"; port = codes "8080" })
    else none

abbrev wild_address : Address
wild_address = record { address = codes "::"; port = 80 }

abbrev host_address : Address
host_address = record { address = codes "10.0.0.1"; port = 8080 }

wild_address-WellFormed : WellFormed addresses_known read_url wild_address
unfolding address_to_key text_eq
wild_address-WellFormed = (wild_key, refl, (record { hostname = codes "[::]"; port = [] }, refl))

host_address-WellFormed : WellFormed addresses_known read_url host_address
unfolding address_to_key text_eq
host_address-WellFormed =
    (host_key, refl, (record { hostname = codes "10.0.0.1"; port = codes "8080" }, refl))

-- A Server with one listening server at host_key, and with the address :: to be added.
abbrev one_host : Server
one_host = record {
  wildcards = [];
  hosts = (host_key, 0) ∷ [];
  next = 2;
  listening = (0, true) ∷ [];
}

one_host-IsValid : IsValid one_host
unfolding NoDup keys lookup
one_host-IsValid =
    each (λ k. IsTable 2 (table k one_host))
      (record { unique = tt; bounded = λ k i found. cc found })
      (record { unique = (refl, tt); bounded = λ k i found. ground (arith, found) })

both_good : All (WellFormed addresses_known read_url) (wild_address ∷ host_address ∷ [])
both_good = (wild_address-WellFormed, (host_address-WellFormed, tt))

set_addresses-Sets_example :
    Sets addresses_known read_url (wild_address ∷ host_address ∷ []) one_host
set_addresses-Sets_example =
    set_addresses-Sets addresses_known read_url (wild_address ∷ host_address ∷ []) one_host
      both_good one_host-IsValid

destroy-Destroys_example : Destroys one_host
destroy-Destroys_example = destroy-Destroys one_host one_host-IsValid

abbrev some_ops : List Op
some_ops =
    set_to (wild_address ∷ host_address ∷ []) ∷ begun 2 ∷ destroyed ∷ closed host host_key 0 ∷ []

ops_good : All (GoodOp addresses_known read_url) some_ops
ops_good = (both_good, (tt, (tt, (tt, tt))))

run-Keeps_example :
    (u : Server) × (run addresses_known read_url some_ops one_host ≡ some u) × Keeps one_host u
run-Keeps_example = run-Keeps addresses_known read_url some_ops one_host ops_good one_host-IsValid

other_server : lookup host_key one_host.hosts ≢ some 1
unfolding lookup text_eq
other_server e = ground (arith, e)

run-late_close_example :
    (u : Server) × (run addresses_known read_url some_ops one_host ≡ some u)
    × ((other : Kind) → table other (on_close host host_key 1 u) ≡ table other u)
run-late_close_example =
    run-late_close addresses_known read_url some_ops one_host host host_key 1 ops_good
      one_host-IsValid (omega arith) other_server
