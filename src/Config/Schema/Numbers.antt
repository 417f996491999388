-- ===== src/Config/Schema/Numbers.antt =====
-- What the conversions of the schema accept, and what they make of it.
use shiny_server.Prelude.{
  ℕ, zero, suc, ◌+◌, ◌*◌, ◌≡◌, refl, ℤ, pos, negsuc, Bool, true, false, ◌++◌, [], ◌∷◌, Option, none,
  some, ◌==◌, Text, All, all, arith, Bool-cases, inl, inr, ==_iff, &&-eq-true, subst, sym,
}
use shiny_server.Prelude.Chars.{
  is_digit, is_line_end, fold_case, is_space, lines, add_char, on_line, lines_one,
}
use shiny_server.Config.Schema.Types.{
  is_hex_digit, is_nonempty, is_hexadecimal, after_minus, is_decimal, skip_space, read_digits,
  digit_value, or_zero, magnitude, positive, negative, signed, parse_int, to_integer, skip_digits,
  dot_digits, is_numeral, ends_numeral, to_float,
}

some_digits :
    (is_one : ℕ → Bool) (base n : ℕ) (cs : Text)
    → (m : ℕ) × (read_digits is_one base (some n) cs ≡ some m)
unfolding read_digits
some_digits is_one base n [] = (n, refl)
some_digits is_one base n (c ∷ cs) = elim (Bool-cases (is_one c)) [
  | inl good ↦
      let (m, e) = some_digits is_one base (base * n + digit_value c) cs in
      (m, rw (good, or_zero, e) refl)
  | inr bad ↦ (n, rw bad refl)
]

first_digit :
    (is_one : ℕ → Bool) (base c : ℕ) (cs : Text)
    → is_one c ≡ true
    → (m : ℕ) × (read_digits is_one base none (c ∷ cs) ≡ some m)
first_digit is_one base c cs good =
    let (m, e) = some_digits is_one base (base * 0 + digit_value c) cs in
    (m, unfold read_digits in rw (good, or_zero, e) refl)

digit_no_x : (c : ℕ) → is_digit c ≡ true → (fold_case c == b'x') ≡ false
unfolding is_digit fold_case
digit_no_x c d = ground arith

digit_no_space : (c : ℕ) → is_digit c ≡ true → is_space c ≡ false
unfolding is_digit is_space
digit_no_space c d = ground arith

digit_no_sign : (c : ℕ) → is_digit c ≡ true → ((c == b'-') ≡ false) × ((c == b'+') ≡ false)
unfolding is_digit
digit_no_sign c d = ground arith

magnitude-digits :
    (c : ℕ) (cs : Text) → all is_digit (c ∷ cs) ≡ true → (m : ℕ) × (magnitude (c ∷ cs) ≡ some m)
unfolding magnitude
magnitude-digits c [] d = first_digit is_digit 10 c [] ((&&-eq-true _ _ d).0)
magnitude-digits c (x ∷ cs) d =
    let (dc, rest) = &&-eq-true (is_digit c) (all is_digit (x ∷ cs)) d in
    let (dx, _) = &&-eq-true (is_digit x) (all is_digit cs) rest in
    let (m, e) = first_digit is_digit 10 c (x ∷ cs) dc in (m, ground (arith, digit_no_x x dx, e))

positive-some : (o : Option ℕ) (m : ℕ) → o ≡ some m → (z : ℤ) × (positive o ≡ some z)
unfolding positive
positive-some o m e = (pos m, rw e refl)

negative-some : (o : Option ℕ) (m : ℕ) → o ≡ some m → (z : ℤ) × (negative o ≡ some z)
unfolding negative
negative-some o zero e = (pos 0, rw e refl)
negative-some o (suc m) e = (negsuc m, rw e refl)

no_space : (c : ℕ) (cs : Text) → is_space c ≡ false → skip_space (c ∷ cs) ≡ c ∷ cs
unfolding skip_space
no_space c cs e = rw e refl

minus_number :
    (cs : Text)
    → is_nonempty cs ≡ true
    → all is_digit cs ≡ true
    → (z : ℤ) × (parse_int (b'-' ∷ cs) ≡ some z)
unfolding is_nonempty
minus_number [] n d = cc n
minus_number (c ∷ cs) n d =
    let (m, e) = magnitude-digits c cs d in
    let (z, f) = negative-some (magnitude (c ∷ cs)) m e in (z, unfold parse_int in f)

plain_number :
    (c : ℕ) (cs : Text) → all is_digit (c ∷ cs) ≡ true → (z : ℤ) × (parse_int (c ∷ cs) ≡ some z)
plain_number c cs d =
    let (first, _) = &&-eq-true (is_digit c) (all is_digit cs) d in
    let (m, e) = magnitude-digits c cs d in
    let (z, f) = positive-some (magnitude (c ∷ cs)) m e in
    let (no_minus, no_plus) = digit_no_sign c first in
    (
      z,
      unfold parse_int in
          rw (no_space c cs (digit_no_space c first), signed, no_minus, no_plus, f) refl,
    )

decimal-number : (s : Text) → is_decimal s ≡ true → (z : ℤ) × (parse_int s ≡ some z)
unfolding is_decimal after_minus is_nonempty
decimal-number [] h = cc h
decimal-number (c ∷ cs) h = elim (Bool-cases (c == b'-')) [
  | inl minus ↦
      let (n, d) = &&-eq-true (is_nonempty cs) (all is_digit cs) (ground (arith, h, minus)) in
      subst (λ x. (z : ℤ) × (parse_int (x ∷ cs) ≡ some z)) (sym ((==_iff c b'-').0 minus))
        (minus_number cs n d)
  | inr none_there ↦ plain_number c cs (ground (arith, h, none_there))
]

after_0x :
    (x d : ℕ) (cs : Text)
    → (fold_case x == b'x') ≡ true
    → is_hex_digit d ≡ true
    → (z : ℤ) × (parse_int (b'0' ∷ x ∷ d ∷ cs) ≡ some z)
after_0x x d cs then_x digit =
    let (m, e) = first_digit is_hex_digit 16 d cs digit in
    (pos m, unfold parse_int in rw (then_x, e) refl)

hexadecimal-number : (s : Text) → is_hexadecimal s ≡ true → (z : ℤ) × (parse_int s ≡ some z)
unfolding is_hexadecimal is_nonempty
hexadecimal-number [] h = cc h
hexadecimal-number (c ∷ []) h = cc h
hexadecimal-number (c ∷ x ∷ []) h = absurd (ground (arith, h))
hexadecimal-number (c ∷ x ∷ d ∷ cs) h =
    let zero_first : (c == b'0') ≡ true = ground (arith, h) in
    let then_x : (fold_case x == b'x') ≡ true = ground (arith, h) in
    let digit : is_hex_digit d ≡ true = ground (arith, h) in
    subst (λ y. (z : ℤ) × (parse_int (y ∷ x ∷ d ∷ cs) ≡ some z))
      (sym ((==_iff c b'0').0 zero_first)) (after_0x x d cs then_x digit)

-- A text of one line that ToInteger accepts is converted to a number, never to NaN.
pub to_integer-number :
    (s : Text) (v : Option ℤ)
    → All (λ c. is_line_end c ≡ false) s
    → to_integer s ≡ some v
    → (z : ℤ) × (v ≡ some z)
unfolding to_integer on_line
to_integer-number s v h e = elim (Bool-cases (is_hexadecimal s)) [
  | inl hex ↦ let (z, f) = hexadecimal-number s hex in (z, ground (arith, lines_one s h, e, f, hex))
  | inr other ↦ elim (Bool-cases (is_decimal s)) [
    | inl dec ↦
        let (z, f) = decimal-number s dec in (z, ground (arith, lines_one s h, e, f, dec, other))
    | inr neither ↦ absurd (ground (arith, lines_one s h, e, other, neither))
  ]
]

not_zero : (c : ℕ) → is_digit c ≡ false → (c == b'0') ≡ false
unfolding is_digit
not_zero c d = ground arith

magnitude-junk : (c : ℕ) (t : Text) → is_digit c ≡ false → magnitude (c ∷ t) ≡ none
unfolding magnitude read_digits
magnitude-junk c [] d = rw d refl
magnitude-junk c (x ∷ t) d = rw (not_zero c d, d) refl

lines_two :
    (l n : Text) → All (λ c. is_line_end c ≡ false) l → lines (l ++ (b'\n' ∷ n)) ≡ l ∷ lines n
unfolding lines add_char
lines_two [] n h = unfold is_line_end in refl
lines_two (c ∷ cs) n h = rw (h.0, lines_two cs n h.1, add_char) refl

-- A text of several lines is accepted for any line that is a number, but parseInt reads the first:
-- where that one begins with no digit, sign or white space, ToInteger gives NaN.
pub to_integer-nan :
    (c : ℕ) (cs n : Text)
    → is_digit c ≡ false
    → is_space c ≡ false
    → (c == b'-') ≡ false
    → (c == b'+') ≡ false
    → All (λ x. is_line_end x ≡ false) (c ∷ cs)
    → All (λ x. is_line_end x ≡ false) n
    → is_decimal n ≡ true
    → to_integer ((c ∷ cs) ++ (b'\n' ∷ n)) ≡ some none
unfolding to_integer on_line
to_integer-nan c cs n d space minus plus h k num =
    let read : parse_int (c ∷ (cs ++ (b'\n' ∷ n))) ≡ none =
      unfold parse_int in
      rw
        (
          no_space c (cs ++ (b'\n' ∷ n)) space,
          signed,
          minus,
          plus,
          magnitude-junk c (cs ++ (b'\n' ∷ n)) d,
          positive,
        )
        refl in
    ground (arith, lines_two (c ∷ cs) n h, lines_one n k, num, read)

ends_numeral-digit : (t : Text) (d : ℕ) → is_digit d ≡ true → ends_numeral (t ++ (d ∷ [])) ≡ true
unfolding ends_numeral is_numeral skip_digits dot_digits
ends_numeral-digit [] d h = rw h refl
ends_numeral-digit (c ∷ t) d h = ground (arith, ends_numeral-digit t d h)

-- ToFloat accepts every text that ends in a digit, whatever stands in front of it.
to_float-digit {ℓ} :
    {F : Type ℓ} (parse_float : Text → F) (t : Text) (d : ℕ)
    → is_digit d ≡ true
    → to_float parse_float (t ++ (d ∷ [])) ≡ some (parse_float (t ++ (d ∷ [])))
unfolding to_float
to_float-digit parse_float t d h = ground (arith, ends_numeral-digit t d h)
