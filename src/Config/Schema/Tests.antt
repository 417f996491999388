-- ===== src/Config/Schema/Tests.antt =====
-- The theorems on the schema at concrete inputs: the directives `server`, at the root, and
-- `listen`, once in a server and with a port.
use shiny_server.Prelude.{◌≡◌, refl, false, List, [], ◌∷◌, none, some, Text, codes}
use shiny_server.Config.Node.{Node, node, no_node, and, children}
use shiny_server.Config.Schema.Results.{passes}
use shiny_server.Config.Schema.Rules.{integer_type, Rule, create_rule}
use shiny_server.Config.Schema.Apply.{Values, validate_args, rules_of, apply_schema}
use shiny_server.Config.Schema.Created.Made.{create_rule-IsRule}
use shiny_server.Config.Schema.Typed.{Validates, validate_args-Validates}
use shiny_server.Config.Schema.Conforms.{Rules, WithinLimits, ConformBelow}
use shiny_server.Config.Schema.Conforms.Whole.{apply_schema-Conforms}

abbrev leaf : Text → List Text → Node
leaf name args = node (some name) args none 1 no_node

abbrev listen_rule_node : Node
listen_rule_node = node (some (codes "listen")) [] none 1 (
    and (leaf (codes "param") (codes "Integer" ∷ codes "port" ∷ codes "The port." ∷ [])) (
      and (leaf (codes "at") (codes "server" ∷ []))
        (and (leaf (codes "maxcount") (codes "1" ∷ [])) no_node)))

abbrev server_rule_node : Node
server_rule_node =
    node (some (codes "server")) [] none 1 (and (leaf (codes "at") (codes "$" ∷ [])) no_node)

abbrev schema_root : Node
schema_root = node none [] none 0 (and listen_rule_node (and server_rule_node no_node))

abbrev config_root : Node
config_root = node none [] none 0 (
    and
      (node (some (codes "server")) [] none 1
        (and (leaf (codes "listen") (codes "80" ∷ [])) no_node))
      no_node)

-- `parseFloat` is not called here.
abbrev no_float : Text → Text
no_float t = t

accepted_values : List (Values Text)
unfolding apply_schema
accepted_values = elim (apply_schema no_float config_root schema_root) [ passes vs ↦ vs | _ ↦ [] ]

config_accepted : apply_schema no_float config_root schema_root ≡ passes accepted_values
unfolding apply_schema accepted_values
config_accepted = refl

apply_schema-Conforms_example :
    (rules : Rules Text) × (rules_of no_float schema_root (children schema_root) [] ≡ passes rules)
    × WithinLimits rules (children config_root)
    × ConformBelow no_float rules none (children config_root) (children config_root) accepted_values
apply_schema-Conforms_example =
    apply_schema-Conforms no_float config_root schema_root accepted_values config_accepted

abbrev listen_rule : Rule Text
listen_rule = record {
  at = some (codes "server") ∷ [];
  precludes = [];
  max_count = some 1;
  params =
      record {
        type = integer_type;
        name = codes "port";
        optional = false;
        vararg = false;
        default_value = none;
      }
      ∷ [];
  min_params = 1;
  max_params = some 1;
}

listen_rule_made : create_rule no_float schema_root listen_rule_node ≡ passes listen_rule
unfolding create_rule
listen_rule_made = refl

validate_args-Validates_example :
    Validates listen_rule (validate_args no_float listen_rule (codes "80" ∷ []))
validate_args-Validates_example =
    validate_args-Validates no_float listen_rule
      (create_rule-IsRule no_float schema_root listen_rule_node listen_rule listen_rule_made)
      (codes "80" ∷ [])
