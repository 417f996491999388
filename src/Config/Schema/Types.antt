-- ===== src/Config/Schema/Types.antt =====
-- lib/config/schema.js, ToBoolean, ToInteger and ToFloat; `parseInt` as the language defines it, on
-- numbers of any size (those of the language are exact below 2 ^ 53), and `parseFloat` as a
-- parameter.
use shiny_server.Prelude.{
  ℕ, zero, suc, ◌+◌, ◌*◌, ◌-◌, ℤ, pos, negsuc, Bool, true, false, ◌&&◌, ◌||◌, [], ◌∷◌, Option, none,
  some, leb, ◌==◌, if◌then◌else◌, Text, text_eq, codes, map, all,
}
use shiny_server.Prelude.Chars.{is_digit, fold_case, is_space, lines, on_line}

abbrev is_one_of : Text → Text → Text → Text → Bool
unfolding text_eq fold_case
is_one_of a b c line =
    let folded = map fold_case line in text_eq folded a || text_eq folded b || text_eq folded c

-- `ToBoolean`; nothing where it throws.
unfoldable pub to_boolean : Text → Option Bool
unfolding text_eq fold_case lines on_line
to_boolean s =
    if on_line (is_one_of (codes "true") (codes "yes") (codes "on")) (lines s)
    then some true
    else if on_line (is_one_of (codes "false") (codes "no") (codes "off")) (lines s)
    then some false
    else none

-- `[0-9a-f]` under the flag `i`.
unfoldable pub is_hex_digit : ℕ → Bool
unfolding is_digit fold_case
is_hex_digit c = is_digit c || leb b'a' (fold_case c) && leb (fold_case c) b'f'

unfoldable pub is_nonempty : Text → Bool
is_nonempty [] = false
is_nonempty (c ∷ cs) = true

-- `^(0[x])[0-9a-f]+$`
unfoldable pub is_hexadecimal : Text → Bool
unfolding is_hex_digit fold_case is_nonempty
is_hexadecimal (c ∷ x ∷ cs) =
    c == b'0' && fold_case x == b'x' && is_nonempty cs && all is_hex_digit cs
is_hexadecimal _ = false

unfoldable pub after_minus : Text → Text
after_minus [] = []
after_minus (c ∷ cs) = if c == b'-' then cs else c ∷ cs

-- `^-?\d+$`
unfoldable pub is_decimal : Text → Bool
unfolding after_minus is_nonempty is_digit
is_decimal s = is_nonempty (after_minus s) && all is_digit (after_minus s)

unfoldable pub skip_space : Text → Text
unfolding is_space
skip_space [] = []
skip_space (c ∷ cs) = if is_space c then skip_space cs else c ∷ cs

unfoldable pub digit_value : ℕ → ℕ
unfolding is_digit fold_case
digit_value c = if is_digit c then c - b'0' else fold_case c - b'a' + 10

unfoldable pub or_zero : Option ℕ → ℕ
or_zero none = 0
or_zero (some n) = n

-- The digits at the start of a text, behind the value of those in front of them.
unfoldable pub read_digits : (ℕ → Bool) → ℕ → Option ℕ → Text → Option ℕ
unfolding digit_value or_zero
read_digits is_one base acc [] = acc
read_digits is_one base acc (c ∷ cs) =
    if is_one c then read_digits is_one base (some (base * or_zero acc + digit_value c)) cs else acc

unfoldable pub magnitude : Text → Option ℕ
unfolding read_digits is_hex_digit is_digit fold_case
magnitude (c ∷ x ∷ cs) =
    if c == b'0' && fold_case x == b'x'
    then read_digits is_hex_digit 16 none cs
    else read_digits is_digit 10 none (c ∷ x ∷ cs)
magnitude s = read_digits is_digit 10 none s

unfoldable pub positive : Option ℕ → Option ℤ
positive none = none
positive (some n) = some (pos n)

unfoldable pub negative : Option ℕ → Option ℤ
negative none = none
negative (some zero) = some (pos 0)
negative (some (suc n)) = some (negsuc n)

unfoldable pub signed : Text → Option ℤ
unfolding magnitude positive negative
signed [] = none
signed (c ∷ cs) =
    if c == b'-'
    then negative (magnitude cs)
    else if c == b'+'
    then positive (magnitude cs)
    else positive (magnitude (c ∷ cs))

-- `parseInt`; nothing for NaN.
unfoldable pub parse_int : Text → Option ℤ
unfolding signed skip_space
parse_int s = signed (skip_space s)

-- `ToInteger`: nothing where it throws, and a number or NaN otherwise.
unfoldable pub to_integer : Text → Option (Option ℤ)
unfolding is_hexadecimal is_decimal lines on_line parse_int
to_integer s =
    if on_line is_hexadecimal (lines s)
    then some (parse_int s)
    else if on_line is_decimal (lines s)
    then some (parse_int s)
    else none

unfoldable pub skip_digits : Text → Text
unfolding is_digit
skip_digits [] = []
skip_digits (c ∷ cs) = if is_digit c then skip_digits cs else c ∷ cs

unfoldable pub dot_digit : Text → Bool
unfolding is_digit
dot_digit (c ∷ d ∷ cs) = c == b'.' && is_digit d
dot_digit _ = false

-- `^(\d*\.\d+)`
unfoldable pub starts_fraction : Text → Bool
unfolding skip_digits dot_digit
starts_fraction s = dot_digit (skip_digits s)

unfoldable pub dot_digits : Text → Bool
unfolding is_digit
dot_digits [] = true
dot_digits (c ∷ cs) = c == b'.' && all is_digit cs

-- `\d+\.?\d*$`, from here on.
unfoldable pub is_numeral : Text → Bool
unfolding is_digit skip_digits dot_digits
is_numeral [] = false
is_numeral (c ∷ cs) = is_digit c && dot_digits (skip_digits cs)

-- `(\d+\.?\d*)$`
unfoldable pub ends_numeral : Text → Bool
unfolding is_numeral
ends_numeral [] = false
ends_numeral (c ∷ cs) = let rest = ends_numeral cs in is_numeral (c ∷ cs) || rest

module _ {ℓ} {F : Type ℓ} (parse_float : Text → F) where
  -- `ToFloat`; nothing where it throws.
  unfoldable pub to_float : Text → Option F
  unfolding starts_fraction ends_numeral
  to_float s = if starts_fraction s || ends_numeral s then some (parse_float s) else none
