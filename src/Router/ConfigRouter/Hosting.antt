-- ===== src/Router/ConfigRouter/Hosting.antt =====
-- lib/router/config-router.js: createLocation, and the router that it makes of each kind of
-- location. `values` gives what a node's `values` hold, and `group_id` the number of a group, with
-- nothing where there is none or the lookup throws.
use shiny_server.Prelude.{
  ℕ, ◌+◌, ℤ, Bool, true, false, not, ◌||◌, ◌&&◌, List, [], ◌∷◌, Option, none, some, if◌then◌else◌,
  ◌==◌, Text, codes, text_eq, is_some, walked_eq,
}
use shiny_server.Prelude.Dict.{lookup}
use shiny_server.Config.Node.{Node, node, by_name, by_pattern, name_of}
use shiny_server.Config.Node.Within.{Place, find_from, find_place}
use shiny_server.Config.Schema.Results.{
  no_hosting, inherited_app_dir, no_users, no_log_dir, enabled_argument, no_group, unexpected_node,
  failed_assertion, no_text, Checked, passes, throws, ◌>>=◌, ◌>>◌, fail_if,
}
use shiny_server.Config.Schema.Apply.{one, Values}
use shiny_server.Config.Schema.Rules.{string}
use shiny_server.Router.AppSettings.{
  Scope, text_in, flag_in, number_in, names_in, value_in, option_or, parse_application, Application,
}
use shiny_server.Router.LocalConfig.{value, Fields, no_field, field, put, object, leaves}
use shiny_server.Router.ConfigRouter.Paths.{derive_location_path}

-- The routers that a location may be: their constructors' arguments.
pub data Router (F : Type 0) : Type 0 where
  directory : Option Text → List Text → Bool → Text → Text → Fields F → Router F
  single_app : Text → List Text → Text → Text → Fields F → Router F
  user_dirs : Text → List ℕ → Fields F → Option (List Text) → Bool → Router F
  redirect : Text → Option Text → Option ℤ → Bool → Router F
  prefix_filter : Router F → Text → Router F

unfoldable pub starts_with : Text → Text → Bool
starts_with [] t = true
starts_with (c ∷ cs) [] = false
starts_with (c ∷ cs) (d ∷ ds) = c == d && starts_with cs ds

unfoldable pub has_part : Text → Text → Bool
unfolding starts_with
has_part part [] = starts_with part []
has_part part (c ∷ cs) = starts_with part (c ∷ cs) || has_part part cs

unfoldable pub ends_with : Text → Text → Bool
unfolding text_eq
ends_with suffix [] = text_eq suffix []
ends_with suffix (c ∷ cs) = text_eq suffix (c ∷ cs) || ends_with suffix cs

-- `/^site_dir|user_dirs|app_dir|user_apps|redirect$/.test`, on a name or undefined.
unfoldable pub hosts_apps : Option Text → Bool
unfolding starts_with has_part ends_with
hosts_apps none = false
hosts_apps (some t) =
    starts_with (codes "site_dir") t
    || has_part (codes "user_dirs") t
    || has_part (codes "app_dir") t
    || has_part (codes "user_apps") t
    || ends_with (codes "redirect") t

-- A list that is there and has a member.
unfoldable pub users_or_fail : Option (List Text) → Checked (List Text)
users_or_fail none = throws no_users
users_or_fail (some []) = throws no_users
users_or_fail (some (u ∷ us)) = passes (u ∷ us)

unfoldable pub truthy_text : Option Text → Option Text
truthy_text none = none
truthy_text (some []) = none
truthy_text (some (c ∷ cs)) = some (c ∷ cs)

unfoldable pub log_dir_or_fail : Option Text → Checked Text
log_dir_or_fail none = throws no_log_dir
log_dir_or_fail (some dir) = passes dir

unfoldable pub asserted_text : Option Text → Checked Text
asserted_text none = throws failed_assertion
asserted_text (some t) = passes t

unfoldable pub is_on : Option Bool → Bool
is_on none = false
is_on (some b) = b

unfoldable pub group_or_fail : Option ℕ → Checked ℕ
group_or_fail none = throws no_group
group_or_fail (some gid) = passes gid

unfoldable pub group_ids : (Text → Option ℕ) → List Text → Checked (List ℕ)
unfolding group_or_fail
group_ids group_id [] = passes []
group_ids group_id (g ∷ gs) = do
  gid ← group_or_fail (group_id g)
  gids ← group_ids group_id gs
  passes (gid ∷ gids)

unfoldable pub values_if : {F : Type 0} → (Node → Values F) → Option Node → Option (Values F)
values_if values none = none
values_if values (some n) = some (values n)

unfoldable pub depth_of : Node → ℕ
depth_of (node name args at depth ns) = depth

-- `node.parent`, which every node but the root has.
unfoldable pub parent_of : Place → Checked Place
parent_of at = elim at.above [
  | [] ↦ throws no_text
  | q ∷ qs ↦ passes (record { node = q; above = qs })
]

unfoldable pub filtered : {F : Type 0} → Text → Text → Router F → Router F
unfolding text_eq
filtered loc_path root_path r = if text_eq loc_path root_path then r else prefix_filter r loc_path

unfoldable pub put_text : {F : Type 0} → Text → Option Text → Fields F → Fields F
unfolding put
put_text name none fs = fs
put_text name (some t) fs = put name (value (some (one (string t)))) fs

module _ {F : Type 0} (values : Node → Values F) where
  unfoldable pub scope_of : Place → Scope F
  unfolding values_if find_from
  scope_of at directive = values_if values (find_from (by_name directive) true at)

  unfoldable pub create_site_dir : Place → Place → Fields F → Checked (Router F)
  unfolding scope_of derive_location_path parent_of users_or_fail log_dir_or_fail truthy_text
      filtered value_in text_in flag_in names_in is_on
  create_site_dir loc at settings = do
    let scope = scope_of loc
    loc_path ← derive_location_path values loc
    outer ← parent_of at
    root_path ← derive_location_path values outer
    run_as ← users_or_fail (names_in (value_in scope (codes "run_as") (codes "users")))
    log_dir ←
        log_dir_or_fail (truthy_text (text_in (value_in scope (codes "log_dir") (codes "path"))))
    passes (
        filtered loc_path root_path (
          directory (text_in (value_in scope (codes "site_dir") (codes "rootPath"))) run_as
            (is_on (flag_in (value_in scope (codes "directory_index") (codes "enabled")))) root_path
            log_dir settings))

  unfoldable pub create_app_dir : Place → Place → Fields F → Checked (Router F)
  unfolding scope_of derive_location_path depth_of users_or_fail log_dir_or_fail truthy_text
      asserted_text value_in text_in names_in
  create_app_dir loc at settings = do
    let scope = scope_of loc
    fail_if (not (depth_of loc.node + 1 == depth_of at.node)) inherited_app_dir
    loc_path ← derive_location_path values loc
    run_as ← users_or_fail (names_in (value_in scope (codes "run_as") (codes "users")))
    log_dir ←
        log_dir_or_fail (truthy_text (text_in (value_in scope (codes "log_dir") (codes "path"))))
    app_dir ←
        asserted_text (truthy_text (text_in (value_in scope (codes "app_dir") (codes "path"))))
    passes (single_app app_dir run_as loc_path log_dir settings)

  unfoldable pub create_user_apps :
      (Text → Option ℕ) → Place → Place → Fields F → Bool → Checked (Router F)
  unfolding scope_of derive_location_path parent_of group_ids filtered option_or lookup value_in
      flag_in names_in is_on
  create_user_apps group_id loc at settings user_dirs_mode = do
    let scope = scope_of loc
    loc_path ← derive_location_path values loc
    outer ← parent_of at
    root_path ← derive_location_path values outer
    fail_if (not (is_on (flag_in (lookup (codes "enabled") (values at.node))))) enabled_argument
    let users = names_in (value_in scope (codes "run_as") (codes "users"))
    gids ←
        group_ids group_id
          (option_or [] (names_in (value_in scope (codes "members_of") (codes "groups"))))
    passes (
        filtered loc_path root_path (
          user_dirs root_path gids settings (if user_dirs_mode then users else none)
            (is_on (flag_in (value_in scope (codes "directory_index") (codes "enabled"))))))

  unfoldable pub create_redirect : Place → Place → Checked (Router F)
  unfolding derive_location_path parent_of filtered lookup text_in number_in flag_in is_on
  create_redirect loc at = do
    loc_path ← derive_location_path values loc
    outer ← parent_of at
    root_path ← derive_location_path values outer
    let args = values at.node
    passes (
        filtered loc_path root_path (
          redirect root_path (text_in (lookup (codes "url") args))
            (number_in (lookup (codes "statusCode") args))
            (is_on (flag_in (lookup (codes "exact") args)))))

  -- The settings that a location gives its router.
  unfoldable pub settings_with : Scope F → Application F → Fields F
  unfolding put put_text truthy_text value_in text_in leaves
  settings_with scope a =
      let analytics =
        put_text (codes "gaTrackingId")
          (truthy_text (text_in (value_in scope (codes "google_analytics_id") (codes "gaid"))))
          no_field in
      let logged =
        put (codes "logAsUser") (value (value_in scope (codes "log_as_user") (codes "enabled")))
          analytics in
      let templated =
        put_text (codes "templateDir")
          (truthy_text (text_in (value_in scope (codes "template_dir") (codes "dir")))) logged in
      put (codes "scheduler") (object (field (codes "simple") (object (leaves a.simple)) no_field))
        (put (codes "appDefaults") (object (leaves a.app_defaults)) templated)

module _ {F : Type 0} (values : Node → Values F) (group_id : Text → Option ℕ)
    (to_upper_case : Text → Text) where
  -- The switch on the name of the node that hosts apps.
  unfoldable pub create_hosting : Place → Place → Option Text → Fields F → Checked (Router F)
  unfolding create_site_dir create_app_dir create_user_apps create_redirect text_eq
  create_hosting loc at none settings = throws unexpected_node
  create_hosting loc at (some name) settings =
      if text_eq name (codes "site_dir")
      then create_site_dir values loc at settings
      else if text_eq name (codes "app_dir")
      then create_app_dir values loc at settings
      else if text_eq name (codes "user_apps")
      then create_user_apps values group_id loc at settings false
      else if text_eq name (codes "user_dirs")
      then create_user_apps values group_id loc at settings true
      else if text_eq name (codes "redirect")
      then create_redirect values loc at
      else throws unexpected_node

  unfoldable pub on_hosting : Place → Option Place → Checked (Option (Router F))
  unfolding find_from scope_of parse_application settings_with create_hosting name_of
  on_hosting loc none =
      fail_if (not (is_some (find_from (by_name (codes "location")) false loc))) no_hosting
      >> passes none
  on_hosting loc (some at) = do
    a ← parse_application to_upper_case (scope_of values loc) true
    router ← create_hosting loc at (name_of at.node) (settings_with values (scope_of values loc) a)
    passes (some router)

  -- `createLocation`; nothing for a location that only holds others.
  unfoldable pub create_location : Place → Checked (Option (Router F))
  unfolding on_hosting find_place hosts_apps
  create_location loc = on_hosting loc (find_place (by_pattern hosts_apps) true loc)
