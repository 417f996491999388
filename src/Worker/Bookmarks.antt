-- ===== src/Worker/Bookmarks.antt =====
-- lib/worker/app-worker.ts: createBookmarkStateDirectory, on the entries of a file system. What
-- mkdir, getpwnam and chown refuse is a parameter.
pub mod Laws
use shiny_server.Prelude.{
  ℕ, Bool, true, false, not, ◌||◌, List, [], ◌∷◌, Option, none, some, if◌then◌else◌, Text, codes,
  text_eq, is_some, walked_eq, String,
}
use shiny_server.Prelude.Dict.{lookup, insert}
use shiny_server.Router.Sequence.{Settled, resolved, rejected}

-- A directory with its owner and its mode, or a file.
pub data Entry : Type 0 where
  directory : ℕ → Text → Entry
  file : Entry

abbrev pub Entries : Type 0
Entries = List (Text × Entry)

-- The process's own user, the paths where it may make a directory, the numbers of users, and the
-- changes of an owner that are allowed.
pub record System : Type 0 where
  pub self : ℕ
  pub can_make : Text → Bool
  pub uid_of : Text → Option ℕ
  pub can_own : Text → ℕ → Bool

module _ (sys : System) where
  -- `mkdir`; nothing where it throws.
  unfoldable pub make : Text → Text → Entries → Option Entries
  unfolding lookup insert
  make dir mode es =
      if is_some (lookup dir es) || not (sys.can_make dir)
      then none
      else some (insert dir (directory sys.self mode) es)

  -- `getpwnam` and `chown` of a directory that was made.
  unfoldable pub own : Text → Text → Option ℕ → Entries → Entries
  unfolding insert
  own dir mode none es = es
  own dir mode (some uid) es =
      if sys.can_own dir uid then insert dir (directory uid mode) es else es

  unfoldable pub own_by : Text → Text → Option Text → Entries → Entries
  unfolding own
  own_by dir mode none es = es
  own_by dir mode (some user) es = own dir mode (sys.uid_of user) es

  -- The handler, where no directory was made: whatever is there is left as it is.
  unfoldable pub on_failure : Option Entry → Settled (Unit {0})
  on_failure none = rejected "EACCES"
  on_failure (some e) = resolved tt

  -- `createDir`: an exception of getpwnam or chown is caught as well, and the directory is there.
  unfoldable pub after_make :
      Text → Text → Option Text → Entries → Option Entries → Settled (Unit {0}) × Entries
  unfolding on_failure own_by lookup
  after_make dir mode user es none = (on_failure (lookup dir es), es)
  after_make dir mode user es (some made) = (resolved tt, own_by dir mode user made)

  unfoldable pub create_dir : Text → Text → Option Text → Entries → Settled (Unit {0}) × Entries
  unfolding after_make make
  create_dir dir mode user es = after_make dir mode user es (make dir mode es)

  unfoldable pub then_user :
      Text → Text → Settled (Unit {0}) × Entries → Settled (Unit {0}) × Entries
  unfolding create_dir
  then_user dir username (resolved u, es) = create_dir dir (codes "700") (some username) es
  then_user dir username (rejected err, es) = (rejected err, es)
  then_user dir username (other, es) = (other, es)

  -- `createBookmarkStateDirectory`
  unfoldable pub create_bookmark_state_directory :
      (Text → Text → Text) → Text → Text → Entries → Settled (Unit {0}) × Entries
  unfolding create_dir then_user
  create_bookmark_state_directory join [] username es = (resolved tt, es)
  create_bookmark_state_directory join (c ∷ cs) username es =
      then_user (join (c ∷ cs) username) username (create_dir (c ∷ cs) (codes "711") none es)
