-- ===== src/Router/RunAs.antt =====
-- The users that an app may run as: lib/router/user-dirs-router.js, which puts the user of the URL
-- in place of `:HOME_USER:`, and lib/router/squash-run-as-router.js, which leaves one user.
pub mod HomeUser
pub mod Squash
use shiny_server.Prelude.{
  ℕ, zero, suc, Bool, true, false, not, ◌&&◌, ◌||◌, List, [], ◌∷◌, Option, none, some, ◌==◌,
  if◌then◌else◌, Text, codes, text_eq,
}
use shiny_server.Prelude.Chars.{is_line_end}

abbrev pub home_user : Text
home_user = codes ":HOME_USER:"

unfoldable pub cons_after : Text → Option (List Text) → Option (List Text)
cons_after u none = none
cons_after u (some us) = some (u ∷ us)

-- A round of the loop: `_.indexOf`, and the assignment at that index; `none` where the list has no
-- `:HOME_USER:`.
unfoldable pub replace_first : Text → List Text → Option (List Text)
unfolding text_eq cons_after
replace_first username [] = none
replace_first username (u ∷ us) =
    let rest = replace_first username us in
    if text_eq u home_user then some (username ∷ us) else cons_after u rest

-- The loop's condition, on what `_.indexOf` and the assignment give.
unfoldable pub go_on :
    (List Text → Option (List Text)) → List Text → Option (List Text) → Option (List Text)
go_on loop us none = some us
go_on loop us (some vs) = loop vs

-- The loop, for as many rounds; `none` where it is still running.
unfoldable pub replace_home : ℕ → Text → List Text → Option (List Text)
unfolding replace_first go_on
replace_home zero username us = none
replace_home (suc n) username us = go_on (replace_home n username) us (replace_first username us)

-- A member of `runAs`: a string, or another value.
pub data User : Type 0 where
  name : Text → User
  other : User

-- `runAs` of an AppSpec: a falsy value, a string or an array.
pub data RunAs : Type 0 where
  absent : RunAs
  single : Text → RunAs
  several : List User → RunAs

-- `.*:$`
unfoldable pub closes_special : Text → Bool
unfolding is_line_end
closes_special [] = false
closes_special (c ∷ []) = c == b':'
closes_special (c ∷ d ∷ cs) = not (is_line_end c) && closes_special (d ∷ cs)

-- `/^:.*:$/`
unfoldable pub is_special : Text → Bool
unfolding closes_special
is_special [] = false
is_special (c ∷ cs) = c == b':' && closes_special cs

unfoldable pub find_user : List User → RunAs
unfolding is_special
find_user [] = absent
find_user (other ∷ us) = find_user us
find_user (name u ∷ us) = if not (is_special u) then single u else find_user us

unfoldable pub squash : RunAs → RunAs
unfolding find_user
squash absent = absent
squash (single u) = single u
squash (several us) = find_user us
