-- ===== src/Router/ConfigRouter/Accepted.antt =====
-- What an accepted list of servers has, and that the addresses of its servers can be listened on.
use shiny_server.Prelude.{
  not-eq-false, ℕ, zero, suc, is_some, ◌<◌, ◌≡◌, sym, ap, ◌∙◌, subst, true, false, not, ◌||◌, List,
  [], ◌∷◌, ◌++◌, Option, none, some, Text, codes, text_eq_iff, walked_eq, map, All, arith,
}
use shiny_server.Prelude.Sets.{contains, contains-append, NoDup}
use shiny_server.Config.Node.{Node, by_name, search}
use shiny_server.Config.Node.Within.{Place, find_from, search_from, search_from-search}
use shiny_server.Config.Schema.Results.{
  no_listen, invalid_address, no_zones, conflict, Checked, passes, passes_is, >>=-eq-passes,
  >>-eq-passes,
}
use shiny_server.Config.Schema.Apply.{Values}
use shiny_server.Router.AppSettings.{text_in, names_in, value_in}
use shiny_server.Router.ConfigRouter.Hosting.{scope_of}
use shiny_server.Router.Scores.{AddressLib, is_valid}
use shiny_server.Router.ConfigRouter.Servers.{
  ServerRouter, key_of, see_keys, names_or_any, asserted_port, create_server, create_each,
  create_servers, map_checked, port_from, host_from, compact, register,
}
use shiny_server.Server.Hostname.{has_zone}

-- The keys of a server's names.
abbrev pub keys_of : {R : Type 0} → ServerRouter R → List Text
keys_of s = map (key_of s.host (some s.port)) (names_or_any s.names)

abbrev pub all_keys : {R : Type 0} → List (ServerRouter R) → List Text
all_keys [] = []
all_keys (s ∷ ss) = keys_of s ++ all_keys ss

-- An address that is valid, has no zone, and has a port.
abbrev pub IsAddress : {R : Type 0} → AddressLib → ServerRouter R → Type 0
IsAddress lib s = (is_valid lib s.host ≡ true) × (has_zone lib s.host ≡ false) × (0 < s.port)

-- What the loop over the keys has seen: new keys only, each once.
record Seen (ks seen seen' : List Text) : Type 0 where
  once : NoDup ks
  new : (k : Text) → contains k ks ≡ true → contains k seen ≡ false
  added : (k : Text) → contains k seen' ≡ (contains k ks || contains k seen)

see_keys-Seen : (ks seen seen' : List Text) → see_keys ks seen ≡ passes seen' → Seen ks seen seen'
unfolding see_keys contains NoDup
see_keys-Seen [] seen seen' e = record {
  once = tt;
  new = λ k c. cc c;
  added = λ k. ap (contains k) (sym (ground (arith, e)));
}
see_keys-Seen (key ∷ ks) seen seen' e =
    let (fresh, rest) =
      >>-eq-passes (contains key seen) (conflict key) (see_keys ks (key ∷ seen)) e in
    let s = see_keys-Seen ks (key ∷ seen) seen' rest in
    record {
      once = (ground (arith, s.new key, text_eq_iff key key), s.once);
      new = λ k c. ground (arith, c, fresh, s.new k, text_eq_iff key k);
      added = λ k. ground (arith, s.added k);
    }

NoDup-append :
    (xs ys : List Text)
    → NoDup xs
    → NoDup ys
    → ((k : Text) → contains k ys ≡ true → contains k xs ≡ false)
    → NoDup (xs ++ ys)
unfolding NoDup contains
NoDup-append [] ys hx hy apart = hy
NoDup-append (x ∷ xs) ys (out, hx) hy apart = (
  ground (arith, out, contains-append x xs ys, apart x, text_eq_iff x x),
  NoDup-append xs ys hx hy (λ k c. ground (arith, apart k c)),
)

asserted_port-pos :
    (port : Option ℕ) (n : ℕ) → asserted_port port ≡ passes n → (port ≡ some n) × (0 < n)
unfolding asserted_port
asserted_port-pos none n e = cc e
asserted_port-pos (some zero) n e = cc e
asserted_port-pos (some (suc m)) n e =
    let same : suc m ≡ n = cc e in (ap some same, subst (λ k. 0 < k) same (omega arith))

module _ {R : Type 0} where
  register-keys :
      (host : Text) (port : Option ℕ) (names : Option (List Text)) (locations : List R)
      (dir : Option Text) (seen seen' : List Text) (s : ServerRouter R)
      → register host port names locations dir seen ≡ passes (s, seen')
      → (host ≡ s.host)
        × (0 < s.port)
        × (see_keys (keys_of s) seen ≡ passes seen')
        × (port ≡ some s.port)
        × (names ≡ s.names)
        × (locations ≡ s.locations)
        × (dir ≡ s.template_dir)
  unfolding register
  register-keys host port names locations dir seen seen' s e =
      let (seen2, saw, e1) =
        >>=-eq-passes (see_keys (map (key_of host port) (names_or_any names)) seen) _ e in
      let (n, listened, e2) = >>=-eq-passes (asserted_port port) _ e1 in
      let (at_port, positive) = asserted_port-pos port n listened in
      let made = passes_is _ _ e2 in
      let same = ap (λ p. p.0) made in
      (
        ap (λ r. r.host) same,
        subst (λ k. 0 < k) (ap (λ r. r.port) same) positive,
        subst (λ r. see_keys (keys_of r) seen ≡ passes seen') same
            (subst (λ p. see_keys (map (key_of host p) (names_or_any names)) seen ≡ passes seen')
              at_port (saw ∙ ap passes (ap (λ p. p.1) made))),
        at_port ∙ ap (λ r. some r.port) same,
        ap (λ r. r.names) same,
        ap (λ r. r.locations) same,
        ap (λ r. r.template_dir) same,
      )

module _ (lib : AddressLib) {F R : Type 0} (values : Node → Values F)
    (location : Place → Checked (Option R)) where
  -- A server of a directive: what its `listen` says, its names, and the routers of the locations in it.
  pub record IsOf (at : Place) (s : ServerRouter R) : Type 0 where
    pub host :
        s.host ≡ host_from (text_in (value_in (scope_of values at) (codes "listen") (codes "host")))
    pub port :
        port_from (value_in (scope_of values at) (codes "listen") (codes "port"))
        ≡ passes (some s.port)
    pub names :
        s.names ≡ names_in (value_in (scope_of values at) (codes "server_name") (codes "names"))
    pub made : List (Option R)
    pub located :
        map_checked location (search_from (by_name (codes "location")) false true at) ≡ passes made
    pub locations : s.locations ≡ compact made
    pub template_dir :
        s.template_dir
        ≡ text_in (value_in (scope_of values at) (codes "template_dir") (codes "dir"))

  -- One server of each directive, in their order.
  abbrev pub EachOf : List Place → List (ServerRouter R) → Type 0
  EachOf [] [] = Unit {0}
  EachOf [] (s ∷ ss) = ⊥
  EachOf (at ∷ ats) [] = ⊥
  EachOf (at ∷ ats) (s ∷ ss) = IsOf at s × EachOf ats ss

  create_server-IsAddress :
      (at : Place) (seen seen' : List Text) (s : ServerRouter R)
      → create_server lib values location at seen ≡ passes (s, seen')
      → IsAddress lib s × (see_keys (keys_of s) seen ≡ passes seen') × IsOf at s
  unfolding create_server
  create_server-IsAddress at seen seen' s e =
      let scope = scope_of values at in
      let host = host_from (text_in (value_in scope (codes "listen") (codes "host"))) in
      let (_, e1) =
        >>-eq-passes (not (is_some (find_from (by_name (codes "listen")) true at))) no_listen _ e in
      let (port, ported, e2) =
        >>=-eq-passes (port_from (value_in scope (codes "listen") (codes "port"))) _ e1 in
      let (valid, e3) = >>-eq-passes (not (is_valid lib host)) invalid_address _ e2 in
      let (zone, e4) = >>-eq-passes (has_zone lib host) no_zones _ e3 in
      let (locations, located, e5) =
        >>=-eq-passes
          (map_checked location (search_from (by_name (codes "location")) false true at)) _ e4 in
      let (same, positive, saw, at_port, named, placed, templated) =
        register-keys host port (names_in (value_in scope (codes "server_name") (codes "names")))
          (compact locations) (text_in (value_in scope (codes "template_dir") (codes "dir"))) seen
          seen' s e5 in
      (
        (
          subst (λ h. is_valid lib h ≡ true) same (not-eq-false (is_valid lib host) valid),
          subst (λ h. has_zone lib h ≡ false) same zone,
          positive,
        ),
        saw,
        record {
          host = sym same;
          port = ported ∙ ap passes at_port;
          names = sym named;
          made = locations;
          located = located;
          locations = sym placed;
          template_dir = sym templated;
        },
      )

  create_each-Seen :
      (ats : List Place) (seen : List Text) (ss : List (ServerRouter R))
      → create_each lib values location ats seen ≡ passes ss
      → All (IsAddress lib) ss
        × NoDup (all_keys ss)
        × ((k : Text) → contains k (all_keys ss) ≡ true → contains k seen ≡ false)
        × EachOf ats ss
  unfolding create_each NoDup contains
  create_each-Seen [] seen [] e = (tt, tt, λ k c. cc c, tt)
  create_each-Seen [] seen (s ∷ ss) e = cc e
  create_each-Seen (at ∷ ats) seen ss e =
      let ((s, seen'), made, e1) = >>=-eq-passes (create_server lib values location at seen) _ e in
      let (rest, more, e2) = >>=-eq-passes (create_each lib values location ats seen') _ e1 in
      let (address, saw, of) = create_server-IsAddress at seen seen' s made in
      let keys = see_keys-Seen (keys_of s) seen seen' saw in
      let (addresses, once, new, others) = create_each-Seen ats seen' rest more in
      subst
        (λ rs.
          All (IsAddress lib) rs
          × NoDup (all_keys rs)
          × ((k : Text) → contains k (all_keys rs) ≡ true → contains k seen ≡ false)
          × EachOf (at ∷ ats) rs)
        (passes_is _ _ e2)
        (
          (address, addresses),
          NoDup-append (keys_of s) (all_keys rest) keys.once once
              (λ k c. ground (arith, new k c, keys.added k)),
          λ k c. ground (
            arith,
            c,
            contains-append k (keys_of s) (all_keys rest),
            keys.new k,
            new k,
            keys.added k,
          ),
          (of, others),
        )

  -- The directives `server`, each with the scopes that it stands in.
  abbrev pub server_places : Node → List Place
  server_places root =
      search_from (by_name (codes "server")) false false (record { node = root; above = [] })

  -- Where createServers accepts a configuration, it makes one server of each directive `server`, in
  -- its order, with the host, the port, the names and the locations of that directive; each listens
  -- on a valid address without a zone and on a positive port, and the keys of their names, each with
  -- the server's host and port, are all different.
  pub create_servers-IsAddress :
      (root : Node) (ss : List (ServerRouter R))
      → create_servers lib values location root ≡ passes ss
      → All (IsAddress lib) ss
        × NoDup (all_keys ss)
        × EachOf (server_places root) ss
        × (map (λ p. p.node) (server_places root)
            ≡ search (by_name (codes "server")) false false root)
  unfolding create_servers
  create_servers-IsAddress root ss e =
      let at : Place = record { node = root; above = [] } in
      let places = search_from (by_name (codes "server")) false false at in
      let (addresses, once, new, each) = create_each-Seen places [] ss e in
      (addresses, once, each, search_from-search (by_name (codes "server")) false false at)
