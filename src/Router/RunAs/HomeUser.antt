-- ===== src/Router/RunAs/HomeUser.antt =====
-- The loop of the UserDirsRouter.
use shiny_server.Prelude.{
  ℕ, zero, suc, ◌<◌, ◌≡◌, refl, ap, sym, ◌∙◌, subst, true, false, List, [], ◌∷◌, Option, none, some,
  if◌then◌else◌, Text, text_eq, text_eq_sound, length, map, arith, Bool-cases, inl, inr,
}
use shiny_server.Router.RunAs.{home_user, cons_after, replace_first, replace_home, go_on}

-- The user that stands for a member.
abbrev pub replaced : Text → Text → Text
replaced username u = if text_eq u home_user then username else u

-- How often `:HOME_USER:` occurs.
abbrev pub occurrences : List Text → ℕ
occurrences [] = 0
occurrences (u ∷ us) = if text_eq u home_user then suc (occurrences us) else occurrences us

occurrences_le : (us : List Text) → occurrences us < suc (length us)
occurrences_le [] = omega arith
occurrences_le (u ∷ us) = elim (Bool-cases (text_eq u home_user)) [
  | inl e ↦ rw e (omega (arith, occurrences_le us))
  | inr e ↦ rw e (omega (arith, occurrences_le us))
]

-- What a round leaves to do.
abbrev Round : Text → List Text → Option (List Text) → Type 0
Round username us none = map (replaced username) us ≡ us
Round username us (some vs) =
    (map (replaced username) vs ≡ map (replaced username) us)
    × (suc (occurrences vs) ≡ occurrences us)

cons-Round :
    (username u : Text) (us : List Text) (o : Option (List Text))
    → text_eq u home_user ≡ false
    → Round username us o
    → Round username (u ∷ us) (cons_after u o)
unfolding cons_after
cons-Round username u us none e k = rw e (ap (λ t. u ∷ t) k)
cons-Round username u us (some vs) e k = rw e (ap (λ t. u ∷ t) k.0, k.1)

replaced-home : (username u : Text) → text_eq u home_user ≡ true → replaced username u ≡ username
replaced-home username u e = rw e refl

replaced-other : (username u : Text) → text_eq u home_user ≡ false → replaced username u ≡ u
replaced-other username u e = rw e refl

occurrences-home :
    (u : Text) (us : List Text)
    → text_eq u home_user ≡ true
    → occurrences (u ∷ us) ≡ suc (occurrences us)
occurrences-home u us e = rw e refl

occurrences-other :
    (u : Text) (us : List Text)
    → text_eq u home_user ≡ false
    → occurrences (u ∷ us) ≡ occurrences us
occurrences-other u us e = rw e refl

home-Round :
    (username u : Text) (us : List Text)
    → text_eq u home_user ≡ true
    → text_eq username home_user ≡ false
    → Round username (u ∷ us) (some (username ∷ us))
home-Round username u us e h = (
  ap (λ t. t ∷ map (replaced username) us)
      (replaced-other username username h ∙ sym (replaced-home username u e)),
  ap suc (occurrences-other username us h) ∙ sym (occurrences-home u us e),
)

replace_first-Round :
    (username : Text) (us : List Text)
    → text_eq username home_user ≡ false
    → Round username us (replace_first username us)
unfolding replace_first
replace_first-Round username [] h = refl
replace_first-Round username (u ∷ us) h = elim (Bool-cases (text_eq u home_user)) [
  | inl e ↦ rw e (home-Round username u us e h)
  | inr e ↦ rw e (cons-Round username u us _ e (replace_first-Round username us h))
]

go_on_lem :
    (n : ℕ) (username : Text) (us : List Text) (o : Option (List Text))
    (loop : List Text → Option (List Text))
    → ((vs : List Text) → occurrences vs < n → loop vs ≡ some (map (replaced username) vs))
    → occurrences us < suc n
    → Round username us o
    → go_on loop us o ≡ some (map (replaced username) us)
unfolding go_on
go_on_lem n username us none loop h k r = ap some (sym r)
go_on_lem n username us (some vs) loop h k r = h vs (omega (arith, r.1)) ∙ ap some r.0

go_through :
    (n : ℕ) (username : Text) (us : List Text)
    → text_eq username home_user ≡ false
    → occurrences us < n
    → replace_home n username us ≡ some (map (replaced username) us)
unfolding replace_home
go_through zero username us h k = absurd (omega arith)
go_through (suc n) username us h k =
    go_on_lem n username us (replace_first username us) (replace_home n username)
      (λ vs l. go_through n username vs h l) k (replace_first-Round username us h)

-- For a user of another name than `:HOME_USER:`, the loop of the UserDirsRouter ends after at most
-- a round more than the list is long, with `:HOME_USER:` replaced everywhere.
pub replace_home-ends :
    (username : Text) (us : List Text)
    → text_eq username home_user ≡ false
    → replace_home (suc (length us)) username us ≡ some (map (replaced username) us)
replace_home-ends username us h = go_through (suc (length us)) username us h (occurrences_le us)

replace_first-stays : (us : List Text) → 0 < occurrences us → replace_first home_user us ≡ some us
unfolding replace_first
replace_first-stays [] h = absurd (omega arith)
replace_first-stays (u ∷ us) h = elim (Bool-cases (text_eq u home_user)) [
  | inl e ↦ rw e (ap (λ t. some (t ∷ us)) (sym (text_eq_sound u home_user e)))
  | inr e ↦
      rw (e, replace_first-stays us (subst (λ k. 0 < k) (occurrences-other u us e) h), cons_after)
        refl
]

hangs_on :
    (n : ℕ) (us : List Text)
    → replace_home n home_user us ≡ none
    → go_on (replace_home n home_user) us (some us) ≡ none
unfolding go_on
hangs_on n us h = h

-- For the user `:HOME_USER:`, no number of rounds ends the loop when the list has a
-- `:HOME_USER:`.
pub replace_home-hangs :
    (n : ℕ) (us : List Text) → 0 < occurrences us → replace_home n home_user us ≡ none
unfolding replace_home
replace_home-hangs zero us h = refl
replace_home-hangs (suc n) us h =
    ap (λ o. go_on (replace_home n home_user) us o) (replace_first-stays us h)
    ∙ hangs_on n us (replace_home-hangs n us h)

-- What a round keeps, whoever the user is.
abbrev Stays : Text → List Text → Option (List Text) → Type 0
Stays username us none = map (replaced username) us ≡ us
Stays username us (some vs) = map (replaced username) vs ≡ map (replaced username) us

replaced_self : (username : Text) → replaced username username ≡ username
replaced_self username = elim (Bool-cases (text_eq username home_user)) [
  | inl e ↦ replaced-home username username e
  | inr e ↦ replaced-other username username e
]

cons-Stays :
    (username u : Text) (us : List Text) (o : Option (List Text))
    → text_eq u home_user ≡ false
    → Stays username us o
    → Stays username (u ∷ us) (cons_after u o)
unfolding cons_after
cons-Stays username u us none e k = rw e (ap (λ t. u ∷ t) k)
cons-Stays username u us (some vs) e k = rw e (ap (λ t. u ∷ t) k)

replace_first-Stays :
    (username : Text) (us : List Text) → Stays username us (replace_first username us)
unfolding replace_first
replace_first-Stays username [] = refl
replace_first-Stays username (u ∷ us) = elim (Bool-cases (text_eq u home_user)) [
  | inl e ↦
      subst
        (λ b.
          Stays username (u ∷ us)
            (if b then some (username ∷ us) else cons_after u (replace_first username us)))
        (sym e)
        (ap (λ t. t ∷ map (replaced username) us)
          (replaced_self username ∙ sym (replaced-home username u e)))
  | inr e ↦ rw e (cons-Stays username u us _ e (replace_first-Stays username us))
]

go_on-replaces :
    (username : Text) (us vs : List Text) (o : Option (List Text))
    (loop : List Text → Option (List Text))
    → ((ws : List Text) → loop ws ≡ some vs → vs ≡ map (replaced username) ws)
    → Stays username us o
    → go_on loop us o ≡ some vs
    → vs ≡ map (replaced username) us
unfolding go_on
go_on-replaces username us vs none loop h k e = cc
go_on-replaces username us vs (some ws) loop h k e = h ws e ∙ k

-- Where the loop ends, `:HOME_USER:` is replaced everywhere.
pub replace_home-replaces :
    (n : ℕ) (username : Text) (us vs : List Text)
    → replace_home n username us ≡ some vs
    → vs ≡ map (replaced username) us
unfolding replace_home
replace_home-replaces zero username us vs e = cc
replace_home-replaces (suc n) username us vs e =
    go_on-replaces username us vs (replace_first username us) (replace_home n username)
      (λ ws. replace_home-replaces n username ws vs) (replace_first-Stays username us) e
