-- ===== src/Config/Parser.antt =====
-- lib/config/parser.js. The parser's stream is what `$nextToken` of the parser yields, one token
-- after the other, without white space and comments.
pub mod Totality
pub mod RoundTrip
use shiny_server.Prelude.{
  ℕ, zero, suc, Bool, true, false, List, [], ◌∷◌, ◌++◌, Option, none, some, length, ◌+◌, ◌*◌,
  if◌then◌else◌, Text,
}
use shiny_server.Config.Lexer.{
  TokenType, word, open_brace, close_brace, term, ws, comment, eod, Position, Token, Lexer, Result,
  token, error, create, next_token,
}
use shiny_server.Config.Lexer

pub data Fault : Type 0 where
  lexical : Lexer.Error → Fault
  never_closed unexpected_close unexpected_token missing_semicolon unterminated programmer : Fault

-- `err.position`: none for the root scope.
pub record Error : Type 0 where
  pub fault : Fault
  pub position : Option Position

pub data Stream : Type 0 where
  ends : Position → Stream
  fails : Error → Stream
  cons : Token → Stream → Stream

is_skipped : TokenType → Bool
is_skipped ws = true
is_skipped comment = true
is_skipped _ = false

is_eod : TokenType → Bool
is_eod eod = true
is_eod _ = false

-- All that `$nextToken` yields, with fuel for the tokens of the lexer.
unfoldable pub stream : ℕ → Lexer → Option Stream
unfolding is_skipped is_eod next_token
stream zero l = none
stream (suc n) l = elim (next_token l) [
  | error e p ↦ some (fails (record { fault = lexical e; position = some p }))
  | token t l' ↦
      let rest = stream n l' in
      if is_eod t.type
      then some (ends t.position)
      else if is_skipped t.type
      then rest
      else (elim rest [ none ↦ none | some s ↦ some (cons t s) ])
]

mutual
  pub data Directive : Type 0 where
    directive : Token → List Token → Directives → Directive

  pub data Directives : Type 0 where
    nil : Directives
    more : Directive → Directives → Directives

-- What `$parseOne` answers: null, false or a directive.
pub data One : Type 0 where
  data_end : One
  closed : Position → Stream → One
  found : Directive → Stream → One
  one_fails : Error → One
  one_spent : One

pub data Children : Type 0 where
  children : Directives → Stream → Children
  children_fail : Error → Children
  children_spent : Children

abbrev pub at_position : Fault → Position → Error
at_position f p = record { fault = f; position = some p }

-- A directive whose scope has been read.
abbrev pub scoped : Token → List Token → Children → One
scoped name args (children ds s) = found (directive name args ds) s
scoped name args (children_fail e) = one_fails e
scoped name args children_spent = one_spent

abbrev pub prepend : Directive → Children → Children
prepend d (children ds s) = children (more d ds) s
prepend d (children_fail e) = children_fail e
prepend d children_spent = children_spent

-- `$parseChildDirectives`, `$parseOne` and its inner loop over the arguments, each with fuel. A
-- scope has the position of its name, and the root has none.
unfoldable mutual
  pub parse_children : ℕ → Option Position → Stream → Children
  parse_children zero scope s = children_spent
  parse_children (suc n) scope s = elim (parse_one n s) [
    | data_end ↦ elim scope [
      | none ↦ children nil s
      | some p ↦ children_fail (at_position never_closed p)
    ]
    | closed p rest ↦ elim scope [
      | none ↦ children_fail (at_position unexpected_close p)
      | some q ↦ children nil rest
    ]
    | found d rest ↦ prepend d (parse_children n scope rest)
    | one_fails e ↦ children_fail e
    | one_spent ↦ children_spent
  ]

  pub parse_one : ℕ → Stream → One
  parse_one zero s = one_spent
  parse_one (suc n) s = elim s [
    | ends p ↦ data_end
    | fails e ↦ one_fails e
    | cons t rest ↦ elim t.type [
      | close_brace ↦ closed t.position rest
      | term ↦ parse_one n rest
      | word ↦ parse_args n t [] rest
      | eod ↦ data_end
      | _ ↦ one_fails (at_position unexpected_token t.position)
    ]
  ]

  pub parse_args : ℕ → Token → List Token → Stream → One
  parse_args zero name args s = one_spent
  parse_args (suc n) name args s = elim s [
    | ends p ↦ one_fails (at_position unterminated name.position)
    | fails e ↦ one_fails e
    | cons t rest ↦ elim t.type [
      | word ↦ parse_args n name (args ++ (t ∷ [])) rest
      | open_brace ↦ scoped name args (parse_children n (some name.position) rest)
      | close_brace ↦ one_fails (at_position missing_semicolon t.position)
      | term ↦ found (directive name args nil) rest
      | eod ↦ one_fails (at_position unterminated name.position)
      | _ ↦ one_fails (at_position programmer t.position)
    ]
  ]

-- The number of tokens of a stream.
abbrev pub size : Stream → ℕ
size (ends p) = 0
size (fails e) = 0
size (cons t s) = suc (size s)

-- `parse`, with the fuel that the length of the text calls for.
unfoldable pub parse : Text → Children
unfolding stream create parse_children
parse source =
    let l = create source in
    elim (stream (suc (length l.left)) l) [
      | none ↦ children_spent
      | some s ↦ parse_children (2 * size s + 2) none s
    ]
