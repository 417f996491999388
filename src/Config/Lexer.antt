-- ===== src/Config/Lexer.antt =====
-- lib/config/lexer.js. The text that is left stands for `$data` from `$pos` on.
pub mod Consumes
pub mod Quoting
use shiny_server.Prelude.{
  ℕ, ◌+◌, Bool, true, false, not, ◌&&◌, ◌||◌, List, [], ◌∷◌, Option, none, some, leb, ◌==◌,
  if◌then◌else◌, Text,
}

pub data TokenType : Type 0 where
  word open_brace close_brace term ws comment eod : TokenType

pub data Class : Type 0 where
  alpha digit open_curly close_curly semicolon hash squote dquote : Class
  backslash eol white control other : Class

pub record Position : Type 0 where
  pub line : ℕ
  pub col : ℕ
  pub offset : ℕ

pub record Token : Type 0 where
  pub type : TokenType
  pub content : Text
  pub position : Position

pub data Error : Type 0 where
  invalid_character unclosed_quote : Error

pub record Lexer : Type 0 where
  pub left : Text
  pub at : Position

-- `data.replace(/\r/, '')`: the pattern has no `g` flag.
unfoldable pub strip_cr : Text → Text
strip_cr [] = []
strip_cr (c ∷ cs) = if c == b'\r' then cs else c ∷ strip_cr cs

unfoldable pub create : Text → Lexer
unfolding strip_cr
create source = record { left = strip_cr source; at = record { line = 1; col = 1; offset = 0 } }

-- `$nextChar`, on the position.
unfoldable pub advance : ℕ → Position → Position
advance c p =
    if c == b'\n'
    then record { line = p.line + 1; col = 1; offset = p.offset + 1 }
    else record p { col = p.col + 1; offset = p.offset + 1 }

between : ℕ → ℕ → ℕ → Bool
between lo hi c = leb lo c && leb c hi

unfoldable pub classify_char : ℕ → Class
unfolding between
classify_char c =
    if between b'a' b'z' c || between b'A' b'Z' c
    then alpha
    else if between b'0' b'9' c
    then digit
    else if c == b'{'
    then open_curly
    else if c == b'}'
    then close_curly
    else if c == b';'
    then semicolon
    else if c == b'#'
    then hash
    else if c == 39
    then squote
    else if c == b'"'
    then dquote
    else if c == 92
    then backslash
    else if c == b'\n'
    then eol
    else if c == b' ' || c == b'\t' || c == b'\r'
    then white
    else if leb c 8 || between 11 12 c || between 14 31 c
    then control
    else other

unfoldable pub is_word_class : Class → Bool
is_word_class alpha = true
is_word_class digit = true
is_word_class other = true
is_word_class backslash = true
is_word_class _ = false

unfoldable pub is_word_char : ℕ → Bool
unfolding classify_char is_word_class
is_word_char c = is_word_class (classify_char c)

-- The class of `/[ \t\r]+/`.
unfoldable pub is_blank : ℕ → Bool
is_blank c = c == b' ' || c == b'\t' || c == b'\r'

-- The class of `/[^\n]*/`.
unfoldable pub not_newline : ℕ → Bool
not_newline c = not (c == b'\n')

-- What a `$match…` method has read, and where the lexer stands.
pub record Scan : Type 0 where
  pub content : Text
  pub after : Lexer

abbrev pub keep : ℕ → Scan → Scan
keep c s = record s { content = c ∷ s.content }

abbrev pub keep_read : ℕ → Option Scan → Option Scan
keep_read c none = none
keep_read c (some s) = some (keep c s)

-- `$consumeRegex` of a class of characters, and `$matchWord`: both stop at the first character
-- that is not in the class.
unfoldable pub consume : (ℕ → Bool) → Text → Position → Scan
unfolding advance
consume class [] p = record { content = []; after = record { left = []; at = p } }
consume class (c ∷ cs) p =
    let rest = keep c (consume class cs (advance c p)) in
    if class c then rest else record { content = []; after = record { left = c ∷ cs; at = p } }

-- The loop of `$matchQuoted` behind the opening quote; `none` means that no closing quote was
-- found.
unfoldable pub match_quoted : ℕ → Text → Position → Option Scan
unfolding advance
match_quoted quot [] p = none
match_quoted quot (c ∷ []) p =
    if c == quot
    then some (record { content = []; after = record { left = []; at = advance c p } })
    else none
match_quoted quot (c ∷ d ∷ cs) p =
    let escaped = keep_read d (match_quoted quot cs (advance d (advance c p))) in
    let plain = keep_read c (match_quoted quot (d ∷ cs) (advance c p)) in
    if c == quot
    then some (record { content = []; after = record { left = d ∷ cs; at = advance c p } })
    else if c == 92
    then escaped
    else plain

pub data Result : Type 0 where
  token : Token → Lexer → Result
  error : Error → Position → Result

abbrev emit : TokenType → Position → Scan → Result
emit t p s = token (record { type = t; content = s.content; position = p }) s.after

-- One character, by `$nextChar`.
abbrev single : TokenType → ℕ → Text → Position → Result
single t c cs p =
    token (record { type = t; content = c ∷ []; position = p })
      (record { left = cs; at = advance c p })

abbrev quoted : Position → Option Scan → Result
quoted p none = error unclosed_quote p
quoted p (some s) = emit word p s

-- `nextToken` at the character `c`.
unfoldable pub token_at : Class → ℕ → Text → Position → Result
unfolding consume match_quoted advance is_word_char is_blank not_newline
token_at alpha c cs p = emit word p (consume is_word_char (c ∷ cs) p)
token_at digit c cs p = emit word p (consume is_word_char (c ∷ cs) p)
token_at other c cs p = emit word p (consume is_word_char (c ∷ cs) p)
token_at backslash c cs p = emit word p (consume is_word_char (c ∷ cs) p)
token_at semicolon c cs p = single term c cs p
token_at open_curly c cs p = single open_brace c cs p
token_at close_curly c cs p = single close_brace c cs p
token_at eol c cs p = single ws c cs p
token_at white c cs p = emit ws p (consume is_blank (c ∷ cs) p)
token_at hash c cs p = emit comment p (consume not_newline cs (advance c p))
token_at squote c cs p = quoted p (match_quoted c cs (advance c p))
token_at dquote c cs p = quoted p (match_quoted c cs (advance c p))
token_at control c cs p = error invalid_character p

next_from : Text → Position → Result
unfolding token_at classify_char
next_from [] p =
    token (record { type = eod; content = []; position = p }) (record { left = []; at = p })
next_from (c ∷ cs) p = token_at (classify_char c) c cs p

unfoldable pub next_token : Lexer → Result
unfolding next_from
next_token l = next_from l.left l.at
