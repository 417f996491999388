-- ===== src/Router/ConfigRouter/Permissions.antt =====
-- lib/core/permissions.js, and checkPermissions of lib/router/config-router.js: what a server may do
-- that does not run as root. The names of users by their numbers are a parameter.
use shiny_server.Prelude.{
  ℕ, ℤ, pos, negsuc, ◌≡◌, refl, sym, ap, ◌∙◌, Bool, true, false, not, ◌||◌, List, [], ◌∷◌, Option,
  none, some, if◌then◌else◌, ltb, ◌==◌, ◌≤◌, Text, codes, text_eq, text_eq_iff, walked_eq, All,
  All-map, arith,
}
use shiny_server.Prelude.Dict.{lookup}
use shiny_server.Config.Node.{Node, by_name, search}
use shiny_server.Config.Schema.Types.{is_nonempty}
use shiny_server.Config.Schema.Results.{
  not_run_as, not_root, port_denied, Checked, passes, ◌>>◌, fail_if, >>-eq-passes,
}
use shiny_server.Config.Schema.Apply.{Values}
use shiny_server.Router.AppSettings.{number_in, names_in, option_or}

unfoldable pub is_superuser : ℕ → Bool
is_superuser uid = uid == 0

-- `processUser`: the number and the name that are remembered.
pub record ProcessUser : Type 0 where
  pub uid : Option ℕ
  pub name : Option Text

unfoldable pub same_uid : Option ℕ → ℕ → Bool
same_uid none uid = false
same_uid (some u) uid = u == uid

unfoldable pub is_named : Option Text → Bool
unfolding is_nonempty
is_named none = false
is_named (some t) = is_nonempty t

-- `getProcessUser`, with what is remembered from then on.
unfoldable pub get_process_user : (ℕ → Option Text) → ℕ → ProcessUser → ProcessUser
unfolding is_named same_uid
get_process_user name_of uid known =
    if not (is_named known.name) || not (same_uid known.uid uid)
    then record { uid = some uid; name = name_of uid }
    else known

unfoldable pub is_user : Option Text → Text → Bool
unfolding text_eq
is_user none user = false
is_user (some name) user = text_eq user name

-- `canRunAs`, for a process with a number and a name.
unfoldable pub can_run_as : ℕ → Option Text → Text → Bool
unfolding is_superuser is_user
can_run_as uid name user = is_superuser uid || is_user name user

unfoldable pub any_denied : ℕ → Option Text → List Text → Bool
unfolding can_run_as
any_denied uid name [] = false
any_denied uid name (u ∷ us) = not (can_run_as uid name u) || any_denied uid name us

-- `port < 1024`, which is false for undefined and for NaN.
unfoldable pub is_low_port : Option ℤ → Bool
is_low_port none = false
is_low_port (some (pos n)) = ltb n 1024
is_low_port (some (negsuc n)) = true

-- The throw for the first of the nodes, if there is one.
unfoldable pub any_node : (Node → Bool) → List Node → Bool
any_node p [] = false
any_node p (n ∷ ns) = p n || any_node p ns

module _ {F : Type 0} (values : Node → Values F) where
  unfoldable pub users_of : Node → List Text
  unfolding option_or names_in lookup
  users_of n = option_or [] (names_in (lookup (codes "users") (values n)))

  unfoldable pub port_of : Node → Option ℤ
  unfolding number_in lookup
  port_of n = number_in (lookup (codes "port") (values n))

  -- `checkPermissions`, for a process with a number and a name.
  unfoldable pub check_permissions : ℕ → Option Text → Node → Checked (Unit {0})
  unfolding is_superuser any_denied users_of is_low_port port_of any_node search
  check_permissions uid name root =
      let denied =
        any_node (λ n. any_denied uid name (users_of n))
          (search (by_name (codes "run_as")) false false root) in
      let apps = any_node (λ n. true) (search (by_name (codes "user_apps")) false false root) in
      let dirs = any_node (λ n. true) (search (by_name (codes "user_dirs")) false false root) in
      let listens =
        any_node (λ n. is_low_port (port_of n))
          (search (by_name (codes "listen")) false false root) in
      if is_superuser uid then passes tt else (do
        fail_if denied not_run_as
        fail_if apps not_root
        fail_if dirs not_root
        fail_if listens port_denied
        passes tt)

-- No node of the list passes the test.
any_node-All :
    (p : Node → Bool) (ns : List Node) → any_node p ns ≡ false → All (λ n. p n ≡ false) ns
unfolding any_node
any_node-All p [] e = tt
any_node-All p (n ∷ ns) e = (ground arith, any_node-All p ns (ground (arith, e)))

any_denied-All :
    (uid : ℕ) (name : Text) (us : List Text)
    → is_superuser uid ≡ false
    → any_denied uid (some name) us ≡ false
    → All (λ u. u ≡ name) us
unfolding any_denied
any_denied-All uid name [] h e = tt
any_denied-All uid name (u ∷ us) h e =
    (ground (arith, h, e, text_eq_iff u name), any_denied-All uid name us h (ground (arith, e)))

empty_of_none : (ns : List Node) → any_node (λ n. true) ns ≡ false → ns ≡ []
unfolding any_node
empty_of_none [] e = refl
empty_of_none (n ∷ ns) e = cc e

-- What a port asks of the process: none, or one of 1024 and above.
abbrev pub IsUnprivileged : Option ℤ → Type 0
IsUnprivileged none = Unit
IsUnprivileged (some (pos n)) = 1024 ≤ n
IsUnprivileged (some (negsuc n)) = ⊥

low_port-IsUnprivileged : (o : Option ℤ) → is_low_port o ≡ false → IsUnprivileged o
unfolding is_low_port
low_port-IsUnprivileged none e = tt
low_port-IsUnprivileged (some (pos n)) e = ground arith
low_port-IsUnprivileged (some (negsuc n)) e = cc e

module _ {F : Type 0} (values : Node → Values F) where
  -- A configuration that passes checkPermissions, for a process with a name that is not the
  -- superuser's, asks for no user but the process's own, has no user_apps and no user_dirs, and
  -- listens on no port below 1024.
  pub check_permissions-IsUnprivileged :
      (uid : ℕ) (name : Text) (root : Node)
      → is_superuser uid ≡ false
      → check_permissions values uid (some name) root ≡ passes tt
      → All
          (λ n. All (λ u. u ≡ name) (users_of values n))
          (search (by_name (codes "run_as")) false false root)
        × (search (by_name (codes "user_apps")) false false root ≡ [])
        × (search (by_name (codes "user_dirs")) false false root ≡ [])
        × All
            (λ n. IsUnprivileged (port_of values n))
            (search (by_name (codes "listen")) false false root)
  unfolding check_permissions
  check_permissions-IsUnprivileged uid name root h e =
      let runs = search (by_name (codes "run_as")) false false root in
      let apps = search (by_name (codes "user_apps")) false false root in
      let dirs = search (by_name (codes "user_dirs")) false false root in
      let listens = search (by_name (codes "listen")) false false root in
      let denied = λ (n : Node). any_denied uid (some name) (users_of values n) in
      let low = λ (n : Node). is_low_port (port_of values n) in
      let k1 = fail_if (any_node low listens) port_denied >> passes tt in
      let k2 = fail_if (any_node (λ n. true) dirs) not_root >> k1 in
      let k3 = fail_if (any_node (λ n. true) apps) not_root >> k2 in
      let chain = fail_if (any_node denied runs) not_run_as >> k3 in
      let e0 : chain ≡ passes tt = ap (λ b. if b then passes tt else chain) (sym h) ∙ e in
      let (r, e1) = >>-eq-passes (any_node denied runs) not_run_as k3 e0 in
      let (a, e2) = >>-eq-passes (any_node (λ n. true) apps) not_root k2 e1 in
      let (d, e3) = >>-eq-passes (any_node (λ n. true) dirs) not_root k1 e2 in
      let (l, e4) = >>-eq-passes (any_node low listens) port_denied (passes tt) e3 in
      (
        All-map (λ n. denied n ≡ false) (λ n. All (λ u. u ≡ name) (users_of values n)) runs
            (λ n. any_denied-All uid name (users_of values n) h) (any_node-All denied runs r),
        empty_of_none apps a,
        empty_of_none dirs d,
        All-map (λ n. low n ≡ false) (λ n. IsUnprivileged (port_of values n)) listens
            (λ n. low_port-IsUnprivileged (port_of values n)) (any_node-All low listens l),
      )
