-- ===== src/Worker/Bookmarks/Laws.antt =====
-- What the directories of bookmarks are when they are there.
use shiny_server.Prelude.{
  true, ℕ, ◌≡◌, refl, sym, ap, ◌∙◌, subst, false, ◌∷◌, Option, none, some, ◌⊎◌, inl, inr,
  if◌then◌else◌, Text, codes, text_eq, walked_eq, arith, Bool-cases, Option-cases,
}
use shiny_server.Prelude.Dict.{lookup, insert, lookup-insert}
use shiny_server.Router.Sequence.{Settled, resolved, rejected, pending}
use shiny_server.Worker.Bookmarks.{
  Entry, directory, Entries, System, make, own, own_by, on_failure, after_make, create_dir,
  then_user, create_bookmark_state_directory,
}

-- Every path is as it was.
abbrev pub Unchanged : Entries → Entries → Type 0
Unchanged es fs = (p : Text) → lookup p fs ≡ lookup p es

module _ (sys : System) where
  -- Whom a new directory belongs to: the user, where getpwnam knows the user and the change of the
  -- owner is allowed, or the process's own user.
  pub data IsOwner (dir : Text) : Option Text → ℕ → Type 0 where
    no_user : IsOwner dir none sys.self
    unknown_user : (user : Text) → sys.uid_of user ≡ none → IsOwner dir (some user) sys.self
    refused_user :
        (user : Text) (uid : ℕ)
        → sys.uid_of user ≡ some uid
        → sys.can_own dir uid ≡ false
        → IsOwner dir (some user) sys.self
    owned_by :
        (user : Text) (uid : ℕ)
        → sys.uid_of user ≡ some uid
        → sys.can_own dir uid ≡ true
        → IsOwner dir (some user) uid

  -- The directory is new, with the mode and the owner, and every other path is as it was.
  pub record IsNew (dir mode : Text) (user : Option Text) (es fs : Entries) : Type 0 where
    pub owner : ℕ
    pub owned : IsOwner dir user owner
    pub absent : lookup dir es ≡ none
    pub changed :
        (p : Text)
        → lookup p fs ≡ (if text_eq dir p then some (directory owner mode) else lookup p es)

  -- Something is there before and nothing changes, or the directory is new.
  abbrev pub IsThere : Text → Text → Option Text → Entries → Entries → Type 0
  IsThere dir mode user es fs =
      ((e : Entry) × (lookup dir es ≡ some e) × Unchanged es fs) ⊎ IsNew dir mode user es fs

  make-new :
      (dir mode : Text) (es fs : Entries)
      → make sys dir mode es ≡ some fs
      → (lookup dir es ≡ none) × (fs ≡ insert dir (directory sys.self mode) es)
  unfolding make
  make-new dir mode es fs h = elim (Option-cases (lookup dir es)) [
    | inl absent ↦ (absent, ground (arith, h, absent))
    | inr (e, there) ↦ absurd (ground (arith, h, there))
  ]

  -- The owner and the entries behind the change of the owner.
  abbrev Owned : Text → Text → Option Text → Entries → Entries → Type 0
  Owned dir mode user es fs =
      (o : ℕ) × IsOwner dir user o
      × ((p : Text)
          → lookup p fs ≡ (if text_eq dir p then some (directory o mode) else lookup p es))

  own-Owned :
      (dir mode user : Text) (uid : Option ℕ) (es : Entries)
      → sys.uid_of user ≡ uid
      → Owned dir mode
          (some user)
          es
          (own sys dir mode uid (insert dir (directory sys.self mode) es))
  unfolding own
  own-Owned dir mode user none es e =
      (sys.self, unknown_user user e, λ p. lookup-insert dir p (directory sys.self mode) es)
  own-Owned dir mode user (some uid) es e = elim (Bool-cases (sys.can_own dir uid)) [
    | inl can ↦ (
      uid,
      owned_by user uid e can,
      λ p. ground (
        arith,
        can,
        lookup-insert dir p (directory uid mode) (insert dir (directory sys.self mode) es),
        lookup-insert dir p (directory sys.self mode) es,
      ),
    )
    | inr cannot ↦ (
      sys.self,
      refused_user user uid e cannot,
      λ p. ground (arith, cannot, lookup-insert dir p (directory sys.self mode) es),
    )
  ]

  own_by-Owned :
      (dir mode : Text) (user : Option Text) (es : Entries)
      → Owned dir mode user es (own_by sys dir mode user (insert dir (directory sys.self mode) es))
  unfolding own_by
  own_by-Owned dir mode none es =
      (sys.self, no_user, λ p. lookup-insert dir p (directory sys.self mode) es)
  own_by-Owned dir mode (some user) es = own-Owned dir mode user (sys.uid_of user) es refl

  -- A promise that resolves has the directory there, and one that is rejected has nothing changed.
  abbrev Outcome : Text → Text → Option Text → Entries → Settled (Unit {0}) × Entries → Type 0
  Outcome dir mode user es (resolved u, fs) = IsThere dir mode user es fs
  Outcome dir mode user es (rejected err, fs) = (lookup dir es ≡ none) × Unchanged es fs
  Outcome dir mode user es (pending, fs) = ⊥

  failure-Outcome :
      (dir mode : Text) (user : Option Text) (es : Entries) (o : Option Entry)
      → lookup dir es ≡ o
      → Outcome dir mode user es (on_failure sys o, es)
  unfolding on_failure
  failure-Outcome dir mode user es none h = (h, λ p. refl)
  failure-Outcome dir mode user es (some e) h = inl (e, h, λ p. refl)

  made-Outcome :
      (dir mode : Text) (user : Option Text) (es : Entries)
      → lookup dir es ≡ none
      → Outcome dir mode user es
          (resolved tt, own_by sys dir mode user (insert dir (directory sys.self mode) es))
  made-Outcome dir mode user es absent =
      let (o, owned, changed) = own_by-Owned dir mode user es in
      inr (record { owner = o; owned = owned; absent = absent; changed = changed })

  create_dir-Outcome :
      (dir mode : Text) (user : Option Text) (es : Entries)
      → Outcome dir mode user es (create_dir sys dir mode user es)
  unfolding create_dir
  create_dir-Outcome dir mode user es = elim (Option-cases (make sys dir mode es)) [
    | inl failed ↦
        subst (λ m. Outcome dir mode user es (after_make sys dir mode user es m)) (sym failed)
          (failure-Outcome dir mode user es (lookup dir es) refl)
    | inr (made, e) ↦
        let (absent, same) = make-new dir mode es made e in
        subst (λ m. Outcome dir mode user es (after_make sys dir mode user es m))
          (sym (e ∙ ap some same)) (made-Outcome dir mode user es absent)
  ]

  -- What createBookmarkStateDirectory leaves: the directory of a user, and above it the system's.
  abbrev pub Outcomes : Text → Text → Text → Entries → Settled (Unit {0}) × Entries → Type 0
  Outcomes base dir username es (resolved u, fs) =
      (mid : Entries) × IsThere base (codes "711") none es mid
      × IsThere dir (codes "700") (some username) mid fs
  Outcomes base dir username es (rejected err, fs) =
      Unchanged es fs
      ⊎ ((mid : Entries) × IsThere base (codes "711") none es mid × Unchanged mid fs)
  Outcomes base dir username es (pending, fs) = ⊥

  user-Outcomes :
      (base dir username : Text) (es mid : Entries) (r : Settled (Unit {0}) × Entries)
      → IsThere base (codes "711") none es mid
      → Outcome dir (codes "700") (some username) mid r
      → Outcomes base dir username es r
  user-Outcomes base dir username es mid (resolved u, fs) there h = (mid, there, h)
  user-Outcomes base dir username es mid (rejected err, fs) there h = inr (mid, there, h.1)
  user-Outcomes base dir username es mid (pending, fs) there h = h

  then-Outcomes :
      (base dir username : Text) (es : Entries) (r : Settled (Unit {0}) × Entries)
      → Outcome base (codes "711") none es r
      → Outcomes base dir username es (then_user sys dir username r)
  unfolding then_user
  then-Outcomes base dir username es (resolved u, mid) there =
      user-Outcomes base dir username es mid (create_dir sys dir (codes "700") (some username) mid)
        there (create_dir-Outcome dir (codes "700") (some username) mid)
  then-Outcomes base dir username es (rejected err, mid) h = inl h.1
  then-Outcomes base dir username es (pending, mid) h = absurd h

  -- For a base that is not empty, createBookmarkStateDirectory deals with the base first, and then
  -- with the user's directory below it. If it resolves, each was there and nothing was changed for
  -- it, or it is new and the only path that was changed for it: the base with mode 711 and the
  -- process's user as its owner, the user's with mode 700, owned by the user where getpwnam knows
  -- the user and chown is allowed and else by the process's. If it is rejected, nothing is changed
  -- but perhaps the base made.
  pub create_bookmark_state_directory-Outcomes :
      (join : Text → Text → Text) (c : ℕ) (cs username : Text) (es : Entries)
      → Outcomes
          (c ∷ cs)
          (join (c ∷ cs) username)
          username
          es
          (create_bookmark_state_directory sys join (c ∷ cs) username es)
  unfolding create_bookmark_state_directory
  create_bookmark_state_directory-Outcomes join c cs username es =
      then-Outcomes (c ∷ cs) (join (c ∷ cs) username) username es
        (create_dir sys (c ∷ cs) (codes "711") none es)
        (create_dir-Outcome (c ∷ cs) (codes "711") none es)
