-- ===== src/Router/RunAs/Squash.antt =====
-- What the SquashRouter leaves.
use shiny_server.Prelude.{
  ◌≡◌, refl, ap, true, false, List, [], ◌∷◌, ◌++◌, Text, All, Bool-cases, inl, inr,
}
use shiny_server.Router.RunAs.{
  User, name, other, RunAs, absent, single, several, is_special, find_user, squash,
}

-- No user to run as: a special name, or no name.
pub data IsPassed : User → Type 0 where
  nameless : IsPassed other
  special : (u : Text) → is_special u ≡ true → IsPassed (name u)

-- The first plain name of the array.
pub data IsFirstName (us : List User) : RunAs → Type 0 where
  nobody : All IsPassed us → IsFirstName us absent
  somebody :
      (before : List User) (u : Text) (after : List User)
      → us ≡ before ++ (name u ∷ after)
      → All IsPassed before
      → is_special u ≡ false
      → IsFirstName us (single u)

further :
    (u : User) (us : List User) (r : RunAs) → IsPassed u → IsFirstName us r → IsFirstName (u ∷ us) r
further u us _ p (nobody ps) = nobody (p, ps)
further u us _ p (somebody before v after e ps k) =
    somebody (u ∷ before) v after (ap (λ t. u ∷ t) e) (p, ps) k

find_user-IsFirstName : (us : List User) → IsFirstName us (find_user us)
unfolding find_user
find_user-IsFirstName [] = nobody tt
find_user-IsFirstName (other ∷ us) = further other us _ nameless (find_user-IsFirstName us)
find_user-IsFirstName (name u ∷ us) = elim (Bool-cases (is_special u)) [
  | inl s ↦ rw s (further (name u) us _ (special u s) (find_user-IsFirstName us))
  | inr s ↦ rw s (somebody [] u us refl tt s)
]

-- The SquashRouter leaves of an array its first member that is a string and not special, and
-- nobody when all are special or no strings.
pub squash-IsFirstName : (us : List User) → IsFirstName us (squash (several us))
unfolding squash
squash-IsFirstName us = find_user-IsFirstName us
