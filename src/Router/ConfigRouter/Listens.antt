-- ===== src/Router/ConfigRouter/Listens.antt =====
-- An accepted configuration and the server that it is given to, as lib/main.js does it.
use shiny_server.Prelude.{
  ◌<◌, ◌≡◌, refl, ap, ◌∙◌, true, false, List, [], ◌∷◌, ◌++◌, Option, none, some, if◌then◌else◌,
  Text, codes, All, arith, Bool-cases, inl, inr, ◌>>=◌,
}
use shiny_server.Config.Node.{Node}
use shiny_server.Config.Node.Within.{Place}
use shiny_server.Config.Schema.Results.{Checked, passes}
use shiny_server.Config.Schema.Apply.{Values}
use shiny_server.Router.Scores.{AddressLib, is_valid, is_valid6}
use shiny_server.Router.ConfigRouter.Servers.{ServerRouter, create_servers, get_addresses}
use shiny_server.Router.ConfigRouter.Accepted.{IsAddress, create_servers-IsAddress}
use shiny_server.Server.{Address, Url, Server, address_to_key, decimal}
use shiny_server.Server.Hostname.{has_zone, normalize, normalize6, addr_to_hostname}
use shiny_server.Server.Requests.{WellFormed}
use shiny_server.Server.Refines.{IsValid, Sets, set_addresses-Sets}

module _ (lib : AddressLib) where
  -- `url.URL` accepts the key of every valid address without a zone and of every port of 16 bits.
  abbrev pub Parses : (Text → Option Url) → Type 0
  Parses parse_url =
      (a : Address) (key : Text)
      → is_valid lib a.address ≡ true
      → has_zone lib a.address ≡ false
      → 0 < a.port
      → a.port < 65536
      → address_to_key lib a ≡ some key
      → (url : Url) × (parse_url key ≡ some url)

  normalize6-some :
      (o : Option lib.Address6) → is_valid6 lib o ≡ true → (t : Text) × (normalize6 lib o ≡ some t)
  unfolding is_valid6 normalize6
  normalize6-some none e = cc e
  normalize6-some (some a) e = (lib.correct_form a ++ lib.zone a, refl)

  normalize-some :
      (addr : Text) → is_valid lib addr ≡ true → (t : Text) × (normalize lib addr ≡ some t)
  unfolding is_valid normalize
  normalize-some addr e = elim (Bool-cases (lib.is_address4 addr)) [
    | inl four ↦ (
      lib.correct_form4 addr,
      ap (λ b. if b then some (lib.correct_form4 addr) else normalize6 lib (lib.address6 addr))
          four,
    )
    | inr six ↦
        let (t, read) = normalize6-some (lib.address6 addr) (ground (arith, six, e)) in
        (
          t,
          ap (λ b. if b then some (lib.correct_form4 addr) else normalize6 lib (lib.address6 addr))
                six
              ∙ read,
        )
  ]

  key_exists :
      (a : Address)
      → is_valid lib a.address ≡ true
      → (key : Text) × (address_to_key lib a ≡ some key)
  unfolding address_to_key
  key_exists a valid =
      let (t, e) = normalize-some a.address valid in
      (
        codes "http://" ++ addr_to_hostname lib t ++ (b':' ∷ decimal a.port),
        ap
            (λ o. o >>= λ addr.
              some (codes "http://" ++ addr_to_hostname lib addr ++ (b':' ∷ decimal a.port)))
            e,
      )

module _ (lib : AddressLib) (parse_url : Text → Option Url) (parses : Parses lib parse_url) where
  addresses-WellFormed :
      {R : Type 0} (ss : List (ServerRouter R))
      → All (IsAddress lib) ss
      → All (λ s. s.port < 65536) ss
      → All (WellFormed lib parse_url) (get_addresses ss)
  unfolding get_addresses
  addresses-WellFormed [] h low = tt
  addresses-WellFormed (s ∷ ss) ((valid, zone, positive), h) (lo, low) =
      let a : Address = record { address = s.host; port = s.port } in
      let (key, e) = key_exists lib a valid in
      ((key, e, parses a key valid zone positive lo e), addresses-WellFormed ss h low)

  -- Where createServers accepts a configuration whose ports have 16 bits, and `url.URL` accepts the
  -- keys of such addresses, `setAddresses` with the addresses of its servers fails no assertion.
  -- Its tables then have servers at exactly the keys of these addresses: those that were there, and
  -- new ones, which alone are made to listen, where `url.URL` reads in their keys. Exactly the
  -- listening servers at other keys are closed.
  pub create_servers-Sets :
      {F R : Type 0} (values : Node → Values F) (location : Place → Checked (Option R))
      (root : Node) (ss : List (ServerRouter R)) (s : Server)
      → create_servers lib values location root ≡ passes ss
      → All (λ r. r.port < 65536) ss
      → IsValid s
      → Sets lib parse_url (get_addresses ss) s
  create_servers-Sets values location root ss s e low valid =
      set_addresses-Sets lib parse_url (get_addresses ss) s
        (addresses-WellFormed ss (create_servers-IsAddress lib values location root ss e).0 low)
        valid
