-- ===== src/Router/Scores/Bounds.antt =====
-- What a positive score says, and how scores rank.
use shiny_server.Prelude.{
  ℕ, zero, suc, ◌≤◌, ◌<◌, ◌≡◌, ◌≢◌, refl, Bool, true, false, List, [], ◌∷◌, Option, none, some,
  ◌==◌, ==_iff, Text, arith, Bool-cases, ◌⊎◌, inl, inr,
}
use shiny_server.Router.Scores.{
  AddressLib, is_wildcard, equal, Request, before_colon, ServerRouter, has_vhost, vhost_score,
  on_equal, score_at, get_score,
}

-- The name is one of the server's, or the server has none.
abbrev pub Names : Text → List Text → Type 0
Names vhost vhosts = (vhosts ≡ []) ⊎ (has_vhost vhost vhosts ≡ true)

vhost_score-positive :
    (p : ℕ) (vhost : Text) (vhosts : List Text)
    → 0 < vhost_score p vhost vhosts
    → Names vhost vhosts
unfolding vhost_score
vhost_score-positive p vhost [] h = inl refl
vhost_score-positive p vhost (v ∷ vs) h = inr (ground arith)

vhost_score-named :
    (p : ℕ) (vhost : Text) (vhosts : List Text)
    → vhosts ≢ []
    → 0 < vhost_score p vhost vhosts
    → 3 ≤ vhost_score p vhost vhosts
unfolding vhost_score
vhost_score-named p vhost [] n h = absurd (n refl)
vhost_score-named p vhost (v ∷ vs) n h = ground arith

on_equal-positive :
    (vhost : Text) (vhosts : List Text) (o : Option Bool) (k : ℕ)
    → on_equal vhost vhosts o ≡ some k
    → 0 < k
    → (o ≡ some true) × (k ≡ vhost_score 2 vhost vhosts)
unfolding on_equal
on_equal-positive vhost vhosts none k e h = cc
on_equal-positive vhost vhosts (some true) k e h = (refl, cc)
on_equal-positive vhost vhosts (some false) k e h = absurd (ground arith)

vhost_score-nil :
    (p : ℕ) (vhost : Text) (vhosts : List Text) → vhosts ≡ [] → vhost_score p vhost vhosts ≡ p
unfolding vhost_score
vhost_score-nil p vhost [] e = refl
vhost_score-nil p vhost (v ∷ vs) e = cc

module _ (lib : AddressLib) (to_lower : Text → Text) {AppSpec : Type 0} where
  -- The points that a host gives.
  pub data IsHost (s : ServerRouter AppSpec) (host : Text) : ℕ → Type 0 where
    by_wildcard : is_wildcard lib s.host ≡ true → IsHost s host 1
    by_address :
        is_wildcard lib s.host ≡ false → equal lib s.host host ≡ some true → IsHost s host 2

  -- What a positive score stands for.
  pub record Matches (s : ServerRouter AppSpec) (req : Request) (score : ℕ) : Type 0 where
    pub host : Text
    pub points : ℕ
    pub at_port : req.address ≡ some (host, s.port)
    pub at_host : IsHost s host points
    pub at_name : Names (to_lower (before_colon req.host)) s.vhosts
    pub total : score ≡ vhost_score points (to_lower (before_colon req.host)) s.vhosts

  score_at-Matches :
      (s : ServerRouter AppSpec) (req : Request) (a : Option (Text × ℕ)) (k : ℕ)
      → req.address ≡ a
      → score_at lib to_lower s (to_lower (before_colon req.host)) a ≡ some k
      → 0 < k
      → Matches s req k
  unfolding score_at
  score_at-Matches s req none k at e h = absurd (ground arith)
  score_at-Matches s req (some (host, port)) k at e h = elim (Bool-cases (port == s.port)) [
    | inr other ↦ absurd (ground arith)
    | inl same ↦ elim (Bool-cases (is_wildcard lib s.host)) [
      | inl wild ↦
          let total' : k ≡ vhost_score 1 (to_lower (before_colon req.host)) s.vhosts =
            ground arith in
          record {
            host = host;
            points = 1;
            at_port = cc (at, (==_iff port s.port).0 same);
            at_host = by_wildcard wild;
            at_name = vhost_score-positive 1 _ s.vhosts (omega (arith, total'));
            total = total';
          }
      | inr tame ↦
          let (hit, total') =
            on_equal-positive _ s.vhosts (equal lib s.host host) k (ground arith) h in
          record {
            host = host;
            points = 2;
            at_port = cc (at, (==_iff port s.port).0 same);
            at_host = by_address tame hit;
            at_name = vhost_score-positive 2 _ s.vhosts (omega (arith, total'));
            total = total';
          }
    ]
  ]

  -- A positive score of a server says that the request came to its port, that its host is a
  -- wildcard, for a point, or else the request's own address, for two, and that it has no names
  -- or has the request's, for three more.
  get_score-Matches :
      (s : ServerRouter AppSpec) (req : Request) (score : ℕ)
      → get_score lib to_lower s req ≡ some score
      → 0 < score
      → Matches s req score
  unfolding get_score
  get_score-Matches s req score e h = score_at-Matches s req req.address score refl e h

  IsHost-le : (s : ServerRouter AppSpec) (host : Text) (p : ℕ) → IsHost s host p → p ≤ 2
  IsHost-le s host _ (by_wildcard w) = omega arith
  IsHost-le s host _ (by_address w e) = omega arith

  unnamed_le :
      (t : ServerRouter AppSpec) (req : Request) (low : ℕ)
      → get_score lib to_lower t req ≡ some low
      → t.vhosts ≡ []
      → low ≤ 2
  unnamed_le t req zero f e = omega arith
  unnamed_le t req (suc n) f e =
      let m = get_score-Matches t req (suc n) f (omega arith) in
      omega (
        arith,
        m.total,
        vhost_score-nil m.points (to_lower (before_colon req.host)) t.vhosts e,
        IsHost-le t m.host m.points m.at_host,
      )

  -- A server with names and a positive score has a higher score than every server without names,
  -- whatever the hosts of the two are.
  pub get_score-lt :
      (s t : ServerRouter AppSpec) (req : Request) (high low : ℕ)
      → get_score lib to_lower s req ≡ some high
      → get_score lib to_lower t req ≡ some low
      → 0 < high
      → s.vhosts ≢ []
      → t.vhosts ≡ []
      → low < high
  get_score-lt s t req high low e f h named unnamed =
      let m = get_score-Matches s req high e h in
      let least =
        vhost_score-named m.points (to_lower (before_colon req.host)) s.vhosts named
          (omega (arith, m.total)) in
      omega (arith, m.total, least, unnamed_le t req low f unnamed)
