-- ===== src/Core/Tail.antt =====
-- lib/core/fsutil.js: safeTail_p, the end of a log file. The decoding of bytes is a parameter, and
-- a file is read at once.
use shiny_server.Prelude.{
  ℕ, zero, suc, ◌-◌, ◌≤◌, ◌<◌, ◌≡◌, ◌↔◌, refl, sym, ap, ◌∙◌, subst, List, [], ◌∷◌, ◌++◌, Option,
  none, some, if◌then◌else◌, leb, ◌==◌, length, length-append, append_assoc, ◌⊎◌, arith, Bool-cases,
  inl, inr,
}
use native.Mathlib.Decide.{dec_lt}

-- The bytes from an index on.
unfoldable pub bytes_from : ℕ → List ℕ → List ℕ
bytes_from zero bs = bs
bytes_from (suc n) [] = []
bytes_from (suc n) (b ∷ bs) = bytes_from n bs

-- The loop over the bytes of 0x80 and above.
unfoldable pub skip_high : List ℕ → List ℕ
skip_high [] = []
skip_high (b ∷ bs) = let rest = skip_high bs in if leb 128 b then rest else b ∷ bs

unfoldable pub after_first : ℕ → List ℕ → Option (List ℕ)
after_first c [] = none
after_first c (d ∷ ds) = let rest = after_first c ds in if c == d then some ds else rest

unfoldable pub or_whole : List ℕ → Option (List ℕ) → List ℕ
or_whole ds none = ds
or_whole ds (some rest) = rest

-- `str.substring(str.indexOf('\n') + 1, str.length)`
unfoldable pub after_line : List ℕ → List ℕ
unfolding after_first or_whole
after_line ds = or_whole ds (after_first b'\n' ds)

unfoldable pub tail_of : (List ℕ → List ℕ) → ℕ → List ℕ → List ℕ
unfolding bytes_from skip_high after_line
tail_of decode maxlen bytes =
    let index = length bytes - maxlen in
    let text = decode (skip_high (bytes_from index bytes)) in
    if index == 0 then text else after_line text

-- `safeTail_p`, for the bytes of a file, or nothing where it cannot be read.
unfoldable pub safe_tail : (List ℕ → List ℕ) → ℕ → Option (List ℕ) → List ℕ
unfolding tail_of
safe_tail decode maxlen none = []
safe_tail decode maxlen (some []) = []
safe_tail decode maxlen (some (b ∷ bs)) = tail_of decode maxlen (b ∷ bs)

-- A list that ends another.
abbrev pub IsEnd : List ℕ → List ℕ → Type 0
IsEnd end whole = (front : List ℕ) × (whole ≡ front ++ end)

IsEnd-trans : (a b c : List ℕ) → IsEnd a b → IsEnd b c → IsEnd a c
IsEnd-trans a b c (f, e) (g, h) = (g ++ f, h ∙ ap (λ t. g ++ t) e ∙ sym (append_assoc g f a))

bytes_from-IsEnd : (n : ℕ) (bs : List ℕ) → IsEnd (bytes_from n bs) bs
unfolding bytes_from
bytes_from-IsEnd zero bs = ([], refl)
bytes_from-IsEnd (suc n) [] = ([], refl)
bytes_from-IsEnd (suc n) (b ∷ bs) =
    let (front, e) = bytes_from-IsEnd n bs in (b ∷ front, ap (λ t. b ∷ t) e)

length-bytes_from : (n : ℕ) (bs : List ℕ) → length (bytes_from n bs) ≡ length bs - n
unfolding bytes_from
length-bytes_from zero bs = omega arith
length-bytes_from (suc n) [] = omega arith
length-bytes_from (suc n) (b ∷ bs) = omega (arith, length-bytes_from n bs)

skip_high-IsEnd : (bs : List ℕ) → IsEnd (skip_high bs) bs
unfolding skip_high
skip_high-IsEnd [] = ([], refl)
skip_high-IsEnd (b ∷ bs) = elim (Bool-cases (leb 128 b)) [
  | inl high ↦
      let (front, e) = skip_high-IsEnd bs in
      (
        b ∷ front,
        ap (λ t. b ∷ t) e
            ∙ sym (ap (λ c. b ∷ (front ++ (if c then skip_high bs else b ∷ bs))) high),
      )
  | inr low ↦ ([], sym (ap (λ c. if c then skip_high bs else b ∷ bs) low))
]

after_first-IsEnd : (c : ℕ) (ds rest : List ℕ) → after_first c ds ≡ some rest → IsEnd rest ds
unfolding after_first
after_first-IsEnd c [] rest e = cc e
after_first-IsEnd c (d ∷ ds) rest e = elim (Bool-cases (c == d)) [
  | inl here ↦ (d ∷ [], ap (λ t. d ∷ t) (ground (arith, e, here)))
  | inr later ↦
      let (front, h) = after_first-IsEnd c ds rest (ground (arith, e, later)) in
      (d ∷ front, ap (λ t. d ∷ t) h)
]

whole_or-IsEnd :
    (ds : List ℕ) (o : Option (List ℕ)) → after_first b'\n' ds ≡ o → IsEnd (or_whole ds o) ds
unfolding or_whole
whole_or-IsEnd ds none e = ([], refl)
whole_or-IsEnd ds (some rest) e = after_first-IsEnd b'\n' ds rest e

after_line-IsEnd : (ds : List ℕ) → IsEnd (after_line ds) ds
unfolding after_line
after_line-IsEnd ds = whole_or-IsEnd ds (after_first b'\n' ds) refl

length-IsEnd : (a b : List ℕ) → IsEnd a b → length a ≤ length b
length-IsEnd a b (front, e) = omega (arith, ap length e, length-append front a)

abbrev pub identity : List ℕ → List ℕ
identity bs = bs

tail_of-IsEnd :
    (maxlen : ℕ) (bytes : List ℕ)
    → IsEnd (tail_of identity maxlen bytes) (bytes_from (length bytes - maxlen) bytes)
unfolding tail_of
tail_of-IsEnd maxlen bytes =
    let buffer = bytes_from (length bytes - maxlen) bytes in
    elim (Bool-cases (length bytes - maxlen == 0)) [
      | inl whole ↦
          subst (λ c. IsEnd (if c then skip_high buffer else after_line (skip_high buffer)) buffer)
            (sym whole) (skip_high-IsEnd buffer)
      | inr cut ↦
          subst (λ c. IsEnd (if c then skip_high buffer else after_line (skip_high buffer)) buffer)
            (sym cut)
            (IsEnd-trans (after_line (skip_high buffer)) (skip_high buffer) buffer
              (after_line-IsEnd (skip_high buffer)) (skip_high-IsEnd buffer))
    ]

skip_high-le : (bs : List ℕ) → length (skip_high bs) ≤ length bs
skip_high-le bs = length-IsEnd (skip_high bs) bs (skip_high-IsEnd bs)

tail_of-short :
    (maxlen : ℕ) (bytes : List ℕ)
    → length bytes - maxlen ≡ 0
    → tail_of identity maxlen bytes ≡ skip_high bytes
unfolding tail_of bytes_from
tail_of-short maxlen bytes e =
    ap
      (λ (n : ℕ).
        if n == 0
        then skip_high (bytes_from n bytes)
        else after_line (skip_high (bytes_from n bytes)))
      e

skip_high-whole : (b : ℕ) (bs : List ℕ) → (skip_high (b ∷ bs) ≡ b ∷ bs) ↔ (b < 128)
unfolding skip_high
skip_high-whole b bs = elim (Bool-cases (leb 128 b)) [
  | inl high ↦ (
    λ e. absurd (
        omega (
          arith,
          skip_high-le bs,
          ap length (sym (ap (λ c. if c then skip_high bs else b ∷ bs) high) ∙ e),
        )),
    λ low. absurd (ground (arith, high, low)),
  )
  | inr low ↦ (λ e. ground (arith, low), λ h. ap (λ c. if c then skip_high bs else b ∷ bs) low)
]

-- Where each byte is decoded to itself, what is read of the end of a file is at most as many bytes
-- as asked for, from the end of the file; and a file that is not longer is read whole exactly where
-- its first byte is below 0x80.
pub safe_tail-IsEnd :
    (maxlen b : ℕ) (bs : List ℕ)
    → IsEnd (safe_tail identity maxlen (some (b ∷ bs))) (b ∷ bs)
      × (length (safe_tail identity maxlen (some (b ∷ bs))) ≤ maxlen)
      × ((maxlen < length (b ∷ bs))
          ⊎ ((safe_tail identity maxlen (some (b ∷ bs)) ≡ b ∷ bs) ↔ (b < 128)))
unfolding safe_tail
safe_tail-IsEnd maxlen b bs =
    let whole = b ∷ bs in
    let end = tail_of-IsEnd maxlen whole in
    let short =
      length-IsEnd (tail_of identity maxlen whole) (bytes_from (length whole - maxlen) whole) end in
    (
      IsEnd-trans (tail_of identity maxlen whole) (bytes_from (length whole - maxlen) whole) whole
          end (bytes_from-IsEnd (length whole - maxlen) whole),
      omega (arith, short, length-bytes_from (length whole - maxlen) whole),
      elim (dec_lt maxlen (length whole)) [
        | yes long ↦ inl long
        | no fits ↦ inr (
            subst (λ t. (t ≡ whole) ↔ (b < 128)) (sym (tail_of-short maxlen whole (omega arith)))
              (skip_high-whole b bs))
      ],
    )
