-- ===== src/Prelude/Chars.antt =====
-- The classes of characters that the program's patterns use, and the lines of a text.
use Prim.Native.Nat.{ℕ, ◌+◌}
use mathlib.Core.Path.{◌≡◌, refl}
use mathlib.Core.Bool.{Bool, false, ◌&&◌, ◌||◌}
use mathlib.Core.List.{List, [], ◌∷◌}
use shiny_server.Prelude.Tests.{leb, ◌==◌, if◌then◌else◌, Text}
use shiny_server.Prelude.Preds.{All}

-- `\d`
unfoldable pub is_digit : ℕ → Bool
is_digit c = leb b'0' c && leb c b'9'

-- What `.` does not match, and what ends a line under the flag `m`.
unfoldable pub is_line_end : ℕ → Bool
is_line_end c = c == b'\n' || c == b'\r' || c == 0x2028 || c == 0x2029

-- What the flag `i` takes a character for.
unfoldable pub fold_case : ℕ → ℕ
fold_case c = if leb b'A' c && leb c b'Z' then c + 32 else c

-- What `parseInt` skips at the start of a text.
unfoldable pub is_space : ℕ → Bool
is_space c =
    leb 9 c && leb c 13
    || c == 32
    || c == 160
    || c == 0x1680
    || leb 0x2000 c && leb c 0x200a
    || c == 0x2028
    || c == 0x2029
    || c == 0x202f
    || c == 0x205f
    || c == 0x3000
    || c == 0xfeff

-- `$` under the flag `m`: a line is a part of the text between two of its ends.
unfoldable pub add_char : ℕ → List Text → List Text
add_char c [] = (c ∷ []) ∷ []
add_char c (l ∷ ls) = (c ∷ l) ∷ ls

unfoldable pub lines : Text → List Text
unfolding add_char is_line_end
lines [] = [] ∷ []
lines (c ∷ cs) = let rest = lines cs in if is_line_end c then [] ∷ rest else add_char c rest

-- A pattern between `^` and `$` under the flag `m`.
unfoldable pub on_line : (Text → Bool) → List Text → Bool
on_line p [] = false
on_line p (l ∷ ls) = p l || on_line p ls

-- A text without line ends is one line.
pub lines_one : (t : Text) → All (λ c. is_line_end c ≡ false) t → lines t ≡ t ∷ []
unfolding lines add_char
lines_one [] h = refl
lines_one (c ∷ cs) h = rw (h.0, lines_one cs h.1, add_char) refl
