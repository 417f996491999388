-- ===== src/Config/Lexer/Consumes.antt =====
-- Every token takes a prefix of the text, and the lexer's position follows it.
use shiny_server.Prelude.{
  ℕ, ◌≤◌, ◌<◌, ◌≡◌, ◌≢◌, refl, ap, subst, Bool, true, [], ◌∷◌, ◌++◌, Option, none, some, ◌==◌, Text,
  arith, length, length-append, Bool-cases, ◌⊎◌, inl, inr, All,
}
use shiny_server.Config.Lexer.{
  eod, Class, alpha, digit, open_curly, close_curly, semicolon, hash, squote, dquote, backslash,
  eol, white, control, other, Position, Token, Lexer, advance, classify_char, is_word_char,
  is_word_class, Scan, keep, consume, match_quoted, keep_read, token, token_at, next_from,
  next_token, is_blank, not_newline, quoted,
}

abbrev pub advance_over : Text → Position → Position
advance_over [] p = p
advance_over (c ∷ cs) p = advance_over cs (advance c p)

-- The lexer `after` stands behind a prefix of `text`, read from position `p`.
pub record Consumes (text : Text) (p : Position) (after : Lexer) : Type 0 where
  pub used : Text
  pub split : text ≡ used ++ after.left
  pub moved : after.at ≡ advance_over used p

Consumes-nil : (text : Text) (p : Position) → Consumes text p (record { left = text; at = p })
Consumes-nil text p = record { used = []; split = refl; moved = refl }

Consumes-cons :
    (c : ℕ) (text : Text) (p : Position) (after : Lexer)
    → Consumes text (advance c p) after
    → Consumes (c ∷ text) p after
Consumes-cons c text p after k = record {
  used = c ∷ k.used;
  split = ap (λ t. c ∷ t) k.split;
  moved = k.moved;
}

-- What `consume` reads is the longest prefix in the class.
pub consume_split :
    (class : ℕ → Bool) (text : Text) (p : Position)
    → (text ≡ (consume class text p).content ++ (consume class text p).after.left)
      × ((consume class text p).after.at ≡ advance_over (consume class text p).content p)
      × All (λ c. class c ≡ true) (consume class text p).content
unfolding consume
consume_split class [] p = (refl, refl, tt)
consume_split class (c ∷ cs) p = elim (Bool-cases (class c)) [
  | inl yes' ↦
      let k = consume_split class cs (advance c p) in
      rw (yes', consume) (ap (λ t. c ∷ t) k.0, k.1, (yes', k.2))
  | inr no' ↦ rw (no', consume) (refl, refl, tt)
]

consume-Consumes :
    (class : ℕ → Bool) (text : Text) (p : Position) → Consumes text p (consume class text p).after
consume-Consumes class text p =
    let k = consume_split class text p in
    record { used = (consume class text p).content; split = k.0; moved = k.1 }

pub keep_read_inv :
    (c : ℕ) (o : Option Scan) {s : Scan}
    → keep_read c o ≡ some s
    → (r : Scan) × (o ≡ some r) × (s ≡ keep c r)
keep_read_inv c none e = cc
keep_read_inv c (some r) e = (r, refl, cc)

-- The lexer stands further on.
abbrev Moves : Text → Position → Lexer → Type 0
Moves text p l = Consumes text p l × (length l.left < length text)

Moves-cons :
    (c : ℕ) (text : Text) (p : Position) (l : Lexer)
    → Moves text (advance c p) l
    → Moves (c ∷ text) p l
Moves-cons c text p l m = (Consumes-cons c text p l m.0, omega arith)

Moves-one :
    (c : ℕ) (text : Text) (p : Position)
    → Moves (c ∷ text) p (record { left = text; at = advance c p })
Moves-one c text p = (Consumes-cons c text p _ (Consumes-nil text _), omega arith)

match_quoted-Moves :
    (quot : ℕ) (text : Text) (p : Position) (s : Scan)
    → match_quoted quot text p ≡ some s
    → Moves text p s.after
unfolding match_quoted
match_quoted-Moves quot [] p s e = cc
match_quoted-Moves quot (c ∷ []) p s e = elim (Bool-cases (c == quot)) [
  | inl ends ↦
      let at_end : record { left = []; at = advance c p } ≡ s.after = ground arith in
      subst (Moves (c ∷ []) p) at_end (Moves-one c [] p)
  | inr goes ↦ absurd (ground arith)
]
match_quoted-Moves quot (c ∷ d ∷ cs) p s e = elim (Bool-cases (c == quot)) [
  | inl ends ↦
      let at_end : record { left = d ∷ cs; at = advance c p } ≡ s.after = ground arith in
      subst (Moves (c ∷ d ∷ cs) p) at_end (Moves-one c (d ∷ cs) p)
  | inr goes ↦ elim (Bool-cases (c == 92)) [
    | inl escape ↦
        let (r, read, same) =
          keep_read_inv d (match_quoted quot cs (advance d (advance c p)))
            (rw (goes, escape) at e) in
        rw same
          (Moves-cons c (d ∷ cs) p _ (Moves-cons d cs _ _ (match_quoted-Moves quot cs _ r read)))
    | inr plain ↦
        let (r, read, same) =
          keep_read_inv c (match_quoted quot (d ∷ cs) (advance c p)) (rw (goes, plain) at e) in
        rw same (Moves-cons c (d ∷ cs) p _ (match_quoted-Moves quot (d ∷ cs) _ r read))
  ]
]

Consumes-le :
    (text : Text) (p : Position) (l : Lexer) → Consumes text p l → length l.left ≤ length text
Consumes-le text p l k = omega (arith, ap length k.split, length-append k.used l.left)

-- A nonempty read moves.
consume-Moves :
    (class : ℕ → Bool) (c : ℕ) (cs : Text) (p : Position)
    → class c ≡ true
    → Moves (c ∷ cs) p (consume class (c ∷ cs) p).after
unfolding consume
consume-Moves class c cs p e =
    let k = consume-Consumes class cs (advance c p) in
    rw (e, consume) (Consumes-cons c cs p _ k, omega (arith, Consumes-le cs _ _ k))

-- The token starts where the lexer stood, and the lexer has moved.
abbrev Reads : Text → Position → Token → Lexer → Type 0
Reads text p t l = Moves text p l × (t.type ≢ eod) × (t.position ≡ p)

Reads-eq :
    (text : Text) (p : Position) (t t' : Token) (l l' : Lexer)
    → Reads text p t l
    → token t l ≡ token t' l'
    → Reads text p t' l'
Reads-eq text p t t' l l' h e =
    let same_token : t ≡ t' = cc in
    let same_lexer : l ≡ l' = cc in
    subst (Reads text p t') same_lexer (subst (λ u. Reads text p u l) same_token h)

is_blank_of_white : (c : ℕ) → classify_char c ≡ white → is_blank c ≡ true
unfolding classify_char is_blank
is_blank_of_white c h = ground arith

quoted-Reads :
    (c : ℕ) (cs : Text) (p : Position) (o : Option Scan) (t : Token) (l : Lexer)
    → match_quoted c cs (advance c p) ≡ o
    → quoted p o ≡ token t l
    → Reads (c ∷ cs) p t l
quoted-Reads c cs p none t l m e = cc
quoted-Reads c cs p (some s) t l m e =
    Reads-eq (c ∷ cs) p _ t _ l (Moves-cons c cs p _ (match_quoted-Moves c cs _ s m), cc, refl) e

word-Reads :
    (c : ℕ) (cs : Text) (p : Position) (k : Class)
    → classify_char c ≡ k
    → is_word_class k ≡ true
    → Moves (c ∷ cs) p (consume is_word_char (c ∷ cs) p).after
unfolding is_word_char
word-Reads c cs p k e w = consume-Moves is_word_char c cs p (rw e w)

comment-Moves :
    (c : ℕ) (cs : Text) (p : Position)
    → Moves (c ∷ cs) p (consume not_newline cs (advance c p)).after
comment-Moves c cs p =
    let k = consume-Consumes not_newline cs (advance c p) in
    (Consumes-cons c cs p _ k, omega (arith, Consumes-le cs _ _ k))

token_at-Reads :
    (k : Class) (c : ℕ) (cs : Text) (p : Position) (t : Token) (l : Lexer)
    → classify_char c ≡ k
    → token_at k c cs p ≡ token t l
    → Reads (c ∷ cs) p t l
unfolding token_at is_word_class
token_at-Reads alpha c cs p t l h e =
    Reads-eq _ p _ t _ l (word-Reads c cs p alpha h refl, cc, refl) e
token_at-Reads digit c cs p t l h e =
    Reads-eq _ p _ t _ l (word-Reads c cs p digit h refl, cc, refl) e
token_at-Reads other c cs p t l h e =
    Reads-eq _ p _ t _ l (word-Reads c cs p other h refl, cc, refl) e
token_at-Reads backslash c cs p t l h e =
    Reads-eq _ p _ t _ l (word-Reads c cs p backslash h refl, cc, refl) e
token_at-Reads semicolon c cs p t l h e = Reads-eq _ p _ t _ l (Moves-one c cs p, cc, refl) e
token_at-Reads open_curly c cs p t l h e = Reads-eq _ p _ t _ l (Moves-one c cs p, cc, refl) e
token_at-Reads close_curly c cs p t l h e = Reads-eq _ p _ t _ l (Moves-one c cs p, cc, refl) e
token_at-Reads eol c cs p t l h e = Reads-eq _ p _ t _ l (Moves-one c cs p, cc, refl) e
token_at-Reads white c cs p t l h e =
    Reads-eq _ p _ t _ l (consume-Moves is_blank c cs p (is_blank_of_white c h), cc, refl) e
token_at-Reads hash c cs p t l h e = Reads-eq _ p _ t _ l (comment-Moves c cs p, cc, refl) e
token_at-Reads squote c cs p t l h e = quoted-Reads c cs p _ t l refl e
token_at-Reads dquote c cs p t l h e = quoted-Reads c cs p _ t l refl e
token_at-Reads control c cs p t l h e = cc

-- A token other than the end of the data starts at the lexer's position and takes a nonempty
-- prefix of the text, and line, column and offset behind it are those of that prefix; the end of
-- the data is reported only when no text is left.
pub next_token-Consumes :
    (l l' : Lexer) (t : Token)
    → next_token l ≡ token t l'
    → (t.position ≡ l.at)
      × (((t.type ≡ eod) × (l.left ≡ []) × (l' ≡ l))
          ⊎ ((t.type ≢ eod) × Consumes l.left l.at l' × (length l'.left < length l.left)))
unfolding next_token
next_token-Consumes l l' t e = go l.left refl e
  where
    go :
        (text : Text)
        → l.left ≡ text
        → next_from text l.at ≡ token t l'
        → (t.position ≡ l.at)
          × (((t.type ≡ eod) × (l.left ≡ []) × (l' ≡ l))
              ⊎ ((t.type ≢ eod) × Consumes l.left l.at l' × (length l'.left < length l.left)))
    go [] h f = ground arith
    go (c ∷ cs) h f =
        let r = token_at-Reads (classify_char c) c cs l.at t l' refl f in
        (r.2, inr (r.1, rw h r.0.0, rw h r.0.1))
