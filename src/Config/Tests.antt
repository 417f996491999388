-- ===== src/Config/Tests.antt =====
-- The theorems on the configuration's lexer and parser at concrete inputs.
use shiny_server.Prelude.{
  ◌≡◌, ◌≢◌, ◌<◌, refl, ◌⊎◌, ◌++◌, true, false, [], ◌∷◌, ◌*◌, ◌+◌, none, codes, Text, length,
}
use shiny_server.Config.Lexer.{word, eod, open_brace, Position, Token, Lexer, token, next_token}
use shiny_server.Config.Lexer.Consumes.{Consumes, advance_over, next_token-Consumes}
use shiny_server.Config.Lexer.Quoting.{quote, next_token-quote}
use shiny_server.Config.Parser.{
  Directives, directive, nil, more, ends, size, children, children_spent, parse, parse_children,
}
use shiny_server.Config.Parser.Totality.{parse-ne-spent}
use shiny_server.Config.Parser.RoundTrip.{print, AllWords, parse_children-print}
use shiny_server.Config.Node.{
  Node, root_node, directive_to_config, search, get_one, by_name, make_predicate,
}
use shiny_server.Config.Node.Search.{
  select, preorder, postorder, search-select, IsInherited, get_one-IsInherited,
}

abbrev start_position : Position
start_position = record { line = 1; col = 1; offset = 0 }

abbrev brace_text : Lexer
brace_text = record { left = codes "{ "; at = start_position }

abbrev brace_token : Token
brace_token = record { type = open_brace; content = codes "{"; position = start_position }

abbrev behind_brace : Lexer
behind_brace = record { left = codes " "; at = record { line = 1; col = 2; offset = 1 } }

brace_read : next_token brace_text ≡ token brace_token behind_brace
unfolding next_token
brace_read = refl

next_token-Consumes_example :
    (brace_token.position ≡ start_position)
    × (((brace_token.type ≡ eod) × (brace_text.left ≡ []) × (behind_brace ≡ brace_text))
        ⊎ ((brace_token.type ≢ eod)
            × Consumes brace_text.left brace_text.at behind_brace
            × (length behind_brace.left < length brace_text.left)))
next_token-Consumes_example = next_token-Consumes brace_text behind_brace brace_token brace_read

next_token-quote_example :
    next_token (record { left = quote (codes "my \"app\"") ++ codes ";"; at = start_position })
    ≡ token
        (record { type = word; content = codes "my \"app\""; position = start_position })
        (record { left = codes ";"; at = advance_over (quote (codes "my \"app\"")) start_position })
next_token-quote_example = next_token-quote (codes "my \"app\"") (codes ";") start_position

abbrev listen : Text
listen = codes "listen"

parse-ne-spent_example : parse (codes "listen 80; # port") ≢ children_spent
parse-ne-spent_example = parse-ne-spent (codes "listen 80; # port")

abbrev word_token : Text → Token
word_token t = record { type = word; content = t; position = start_position }

-- `server { listen 80; }`
abbrev server_tree : Directives
server_tree =
    more
      (directive (word_token (codes "server")) []
        (more (directive (word_token listen) (word_token (codes "80") ∷ []) nil) nil))
      nil

server_words : AllWords server_tree
unfolding AllWords
server_words = ((refl, tt, ((refl, (refl, tt), tt), tt)), tt)

parse_children-print_example :
    parse_children
      (2 * size (print start_position server_tree (ends start_position)) + 2)
      none
      (print start_position server_tree (ends start_position))
    ≡ children server_tree (ends start_position)
parse_children-print_example =
    parse_children-print server_tree start_position start_position server_words

abbrev server_node : Node
server_node = root_node server_tree

search-select_example :
    (search (by_name listen) true false server_node
      ≡ select (make_predicate (by_name listen)) (preorder server_node))
    × (search (by_name listen) true true server_node
        ≡ select (make_predicate (by_name listen)) (postorder server_node))
search-select_example = search-select (by_name listen) server_node

-- The scope of `server`, whose parent is the root.
abbrev scope_node : Node
scope_node = directive_to_config 0 (
    directive (word_token (codes "server")) []
      (more (directive (word_token listen) (word_token (codes "80") ∷ []) nil) nil))

get_one-IsInherited_example :
    IsInherited
      (make_predicate (by_name (codes "server")))
      (scope_node ∷ server_node ∷ [])
      (get_one (by_name (codes "server")) true scope_node (server_node ∷ []))
get_one-IsInherited_example =
    get_one-IsInherited (by_name (codes "server")) scope_node (server_node ∷ [])
