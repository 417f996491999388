-- ===== src/Router/UserDirs/Named.antt =====
-- The user that a URL's path names, the groups, and the users to run as.
use shiny_server.Prelude.{
  length, ℕ, suc, ◌≡◌, ◌≢◌, refl, sym, ap, subst, true, false, List, [], ◌∷◌, ◌++◌, Option, none,
  some, ◌==◌, ◌⊎◌, inl, inr, if◌then◌else◌, Text, nat_eq, arith, Bool-cases, All, text_eq, is_some,
  map, ==_iff,
}
use shiny_server.Prelude.Sets.{contains}
use shiny_server.Router.RunAs.{home_user}
use shiny_server.Router.RunAs.HomeUser.{replaced, replace_home-ends, replace_home-replaces}
use shiny_server.Router.UserDirs.{
  segment, some_segment, first_segment, users_for, shares, is_member,
}

-- A text without a slash, at the head of another that ends there or goes on with a slash.
pub record IsSegment (name t : Text) : Type 0 where
  pub rest : Text
  pub split : t ≡ name ++ rest
  pub ends : (rest ≡ []) ⊎ ((more : Text) × (rest ≡ b'/' ∷ more))
  pub no_slash : All (λ d. (d == b'/') ≡ false) name

pub segment-IsSegment : (t : Text) → IsSegment (segment t) t
unfolding segment
segment-IsSegment [] = record { rest = []; split = refl; ends = inl refl; no_slash = tt }
segment-IsSegment (c ∷ cs) = elim (Bool-cases (c == b'/')) [
  | inl slash ↦
      subst (λ b. IsSegment (if b then [] else c ∷ segment cs) (c ∷ cs)) (sym slash)
        (record {
          rest = c ∷ cs;
          split = refl;
          ends = inr (cs, ap (λ d. d ∷ cs) ((==_iff c b'/').0 slash));
          no_slash = tt;
        })
  | inr other ↦
      let h = segment-IsSegment cs in
      subst (λ b. IsSegment (if b then [] else c ∷ segment cs) (c ∷ cs)) (sym other)
        (record {
          rest = h.rest;
          split = ap (λ u. c ∷ u) h.split;
          ends = h.ends;
          no_slash = (other, h.no_slash);
        })
]

some_segment_lem : (t u : Text) → some_segment t ≡ some u → (t ≡ u) × (u ≢ [])
unfolding some_segment
some_segment_lem [] u e = cc
some_segment_lem (c ∷ cs) u e = (cc, λ k. cc)

pub first_segment-IsSegment :
    (suffix username : Text)
    → first_segment suffix ≡ some username
    → (c : ℕ) × (t : Text) × (suffix ≡ c ∷ t) × IsSegment username t × (username ≢ [])
unfolding first_segment
first_segment-IsSegment [] username e = cc
first_segment-IsSegment (c ∷ cs) username e =
    let h = some_segment_lem (segment cs) username e in
    (c, cs, refl, subst (λ n. IsSegment n cs) h.0 (segment-IsSegment cs), h.1)

pub shares_lem :
    (ids groups : List ℕ)
    → shares ids groups ≡ true
    → (g : ℕ) × (contains g ids ≡ true) × (contains g groups ≡ true)
unfolding shares contains
shares_lem [] groups e = ground arith
shares_lem (id ∷ ids) groups e = elim (Bool-cases (contains id groups)) [
  | inl there ↦ (id, ground (arith, ==_iff id id), there)
  | inr other ↦
      let (g, mine, theirs) = shares_lem ids groups (ground arith) in (g, ground arith, theirs)
]

-- Whom an app runs as.
abbrev pub RunsAs : Option (List Text) → Text → List Text → Type 0
RunsAs none username users = users ≡ username ∷ []
RunsAs (some given) username users = users ≡ map (replaced username) given

pub users_for-RunsAs :
    (rounds : ℕ) (username : Text) (given : Option (List Text)) (users : List Text)
    → users_for rounds username given ≡ some users
    → RunsAs given username users
unfolding users_for
users_for-RunsAs rounds username none users e = cc
users_for-RunsAs rounds username (some given) users e =
    replace_home-replaces rounds username given users e

pub member_lem :
    (ids groups : List ℕ)
    → is_member ids groups ≡ true
    → (groups ≡ []) ⊎ ((g : ℕ) × (contains g ids ≡ true) × (contains g groups ≡ true))
unfolding is_member
member_lem ids [] e = inl refl
member_lem ids (g ∷ gs) e = inr (shares_lem ids (g ∷ gs) e)

-- A round more than there are users given.
abbrev pub enough : Option (List Text) → ℕ
enough none = 1
enough (some users) = suc (length users)

pub users_for-ends :
    (username : Text) (given : Option (List Text))
    → text_eq username home_user ≡ false
    → is_some (users_for (enough given) username given) ≡ true
unfolding users_for
users_for-ends username none h = refl
users_for-ends username (some users) h =
    subst (λ o. is_some o ≡ true) (sym (replace_home-ends username users h)) refl
