-- ===== src/Router/Scores.antt =====
-- lib/router/config-router.js: `ServerRouter`, with its score, and the ConfigRouter's
-- `getAppSpec_p`; the tests of lib/core/iputil.js. The package ip-address, `toLowerCase` and the sort of the
-- runtime are parameters.
pub mod Bounds
mod Tests
use shiny_server.Prelude.{
  ℕ, ◌+◌, ℤ, pos, Bool, true, false, not, ◌&&◌, ◌||◌, List, [], ◌∷◌, ◌++◌, Option, none, some, ltb,
  ◌==◌, if◌then◌else◌, String, Text, codes, text_eq, map,
}
use shiny_server.Router.Sequence.{
  Call, resolves, rejects, hangs, throws, Settled, resolved, rejected, pending, Answer,
  get_first_app_spec, Router,
}

-- The package ip-address: the constructors, which answer nothing where they throw.
pub record AddressLib : Type 1 where
  pub Address6 : Type 0
  pub is_address4 : Text → Bool
  pub address6 : Text → Option Address6
  pub from_address4 : Text → Address6
  pub canonical_form : Address6 → Text
  pub correct_form4 : Text → Text
  pub correct_form : Address6 → Text
  pub zone : Address6 → Text
  pub wildcard6 : Address6

module _ (lib : AddressLib) where
  unfoldable pub is_wildcard6 : Option lib.Address6 → Bool
  unfolding text_eq
  is_wildcard6 none = false
  is_wildcard6 (some a) = text_eq (lib.canonical_form a) (lib.canonical_form lib.wildcard6)

  unfoldable pub is_wildcard : Text → Bool
  unfolding is_wildcard6 text_eq
  is_wildcard address =
      text_eq address (codes "*")
      || text_eq address (codes "0.0.0.0")
      || is_wildcard6 (lib.address6 address)

  unfoldable pub is_valid6 : Option lib.Address6 → Bool
  is_valid6 none = false
  is_valid6 (some a) = true

  unfoldable pub is_valid : Text → Bool
  unfolding is_valid6
  is_valid addr = lib.is_address4 addr || is_valid6 (lib.address6 addr)

  -- The address as one of version 6; nothing where the constructor throws.
  unfoldable pub as_address6 : Text → Option lib.Address6
  as_address6 addr =
      if lib.is_address4 addr then some (lib.from_address4 addr) else lib.address6 addr

  unfoldable pub same_address : Option lib.Address6 → Option lib.Address6 → Option Bool
  unfolding text_eq
  same_address (some a) (some b) =
      some (text_eq (lib.canonical_form a ++ lib.zone a) (lib.canonical_form b ++ lib.zone b))
  same_address (some a) none = none
  same_address none o = none

  -- `equal`; nothing where it throws.
  unfoldable pub equal : Text → Text → Option Bool
  unfolding is_valid as_address6 same_address text_eq
  equal a b =
      if not (is_valid a) || not (is_valid b)
      then none
      else if text_eq a b
      then some true
      else same_address (as_address6 a) (as_address6 b)

-- What the routers read of a request: the local address, if it is known, and the header `host`.
pub record Request : Type 0 where
  pub address : Option (Text × ℕ)
  pub host : Text

-- `.split(/:/)[0]`
unfoldable pub before_colon : Text → Text
before_colon [] = []
before_colon (c ∷ cs) = let rest = before_colon cs in if c == b':' then [] else c ∷ rest

pub record ServerRouter (AppSpec : Type 0) : Type 0 where
  pub port : ℕ
  pub host : Text
  pub vhosts : List Text
  pub locations : List (Router Request AppSpec)

unfoldable pub create :
    {AppSpec : Type 0}
    → (Text → Text)
    → ℕ
    → Text
    → List Text
    → List (Router Request AppSpec)
    → ServerRouter AppSpec
create to_lower port host vhosts locations = record {
  port = port;
  host = host;
  vhosts = map to_lower vhosts;
  locations = locations;
}

-- `_.find`, as a condition: an empty name that is found is falsy.
unfoldable pub has_vhost : Text → List Text → Bool
unfolding text_eq
has_vhost vhost [] = false
has_vhost vhost (vh ∷ vhs) = if text_eq vh vhost then not (text_eq vh []) else has_vhost vhost vhs

-- The score, from the points of the host on.
unfoldable pub vhost_score : ℕ → Text → List Text → ℕ
unfolding has_vhost
vhost_score score vhost [] = score
vhost_score score vhost (vh ∷ vhs) = if has_vhost vhost (vh ∷ vhs) then score + 3 else 0

unfoldable pub on_equal : Text → List Text → Option Bool → Option ℕ
unfolding vhost_score
on_equal vhost vhosts none = none
on_equal vhost vhosts (some true) = some (vhost_score 2 vhost vhosts)
on_equal vhost vhosts (some false) = some 0

module _ (lib : AddressLib) (to_lower : Text → Text) {AppSpec : Type 0} where
  unfoldable pub score_at : ServerRouter AppSpec → Text → Option (Text × ℕ) → Option ℕ
  unfolding is_wildcard equal on_equal
  score_at s vhost none = some 0
  score_at s vhost (some (host, port)) =
      if not (port == s.port)
      then some 0
      else if is_wildcard lib s.host
      then some (vhost_score 1 vhost s.vhosts)
      else on_equal vhost s.vhosts (equal lib s.host host)

  -- `getScore`; nothing where it throws.
  unfoldable pub get_score : ServerRouter AppSpec → Request → Option ℕ
  unfolding score_at before_colon
  get_score s req = score_at s (to_lower (before_colon req.host)) req.address

  -- The first of the server's locations that answers, behind the assertion.
  unfoldable pub settle : Settled (Answer AppSpec) → Call (Answer AppSpec)
  settle (resolved a) = resolves a
  settle (rejected err) = rejects err
  settle pending = hangs

  unfoldable pub on_score : Option ℕ → Call (Answer AppSpec) → Call (Answer AppSpec)
  on_score none answer = throws "invalid address"
  on_score (some score) answer = if ltb 0 score then answer else throws "assertion"

  unfoldable pub server_app_spec : ServerRouter AppSpec → Router Request AppSpec
  unfolding get_score on_score settle get_first_app_spec
  server_app_spec s req = on_score (get_score s req) (settle (get_first_app_spec s.locations req))

-- A server with its score.
pub record Scored (AppSpec : Type 0) : Type 0 where
  pub server : ServerRouter AppSpec
  pub score : ℕ

-- The comparator: `a.score < b.score`, as the number that a sort makes of it.
unfoldable pub compare_scores : {AppSpec : Type 0} → Scored AppSpec → Scored AppSpec → ℤ
compare_scores a b = if ltb a.score b.score then pos 1 else pos 0

module _ (lib : AddressLib) (to_lower : Text → Text) {AppSpec : Type 0}
    (sort : (Scored AppSpec → Scored AppSpec → ℤ)
      → List (Scored AppSpec)
      → List (Scored AppSpec)) where
  unfoldable pub add_scored :
      ServerRouter AppSpec
      → Option ℕ
      → Option (List (Scored AppSpec))
      → Option (List (Scored AppSpec))
  add_scored s none rest = none
  add_scored s (some score) none = none
  add_scored s (some score) (some rest) = some (record { server = s; score = score } ∷ rest)

  -- `_.map`; nothing where a score throws.
  unfoldable pub score_all : List (ServerRouter AppSpec) → Request → Option (List (Scored AppSpec))
  unfolding get_score add_scored
  score_all [] req = some []
  score_all (s ∷ ss) req = add_scored s (get_score lib to_lower s req) (score_all ss req)

  unfoldable pub matching : List (Scored AppSpec) → List (Scored AppSpec)
  matching [] = []
  matching (s ∷ ss) = let rest = matching ss in if ltb 0 s.score then s ∷ rest else rest

  unfoldable pub pluck_servers : List (Scored AppSpec) → List (Router Request AppSpec)
  unfolding server_app_spec
  pluck_servers [] = []
  pluck_servers (s ∷ ss) = server_app_spec lib to_lower s.server ∷ pluck_servers ss

  unfoldable pub try_scored : Option (List (Scored AppSpec)) → Request → Call (Answer AppSpec)
  unfolding matching compare_scores pluck_servers get_first_app_spec settle
  try_scored none req = throws "invalid address"
  try_scored (some scored) req =
      settle lib to_lower
        (get_first_app_spec (pluck_servers (sort compare_scores (matching scored))) req)

  -- The ConfigRouter's `getAppSpec_p`.
  unfoldable pub get_app_spec : List (ServerRouter AppSpec) → Router Request AppSpec
  unfolding score_all try_scored
  get_app_spec servers req = try_scored (score_all servers req) req
