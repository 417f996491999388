-- ===== src/Config/Lexer/Quoting.antt =====
-- Texts that the lexer reads back: quoted texts and bare words.
use shiny_server.Prelude.{
  ℕ, ◌≡◌, refl, ap, ◌∙◌, Bool, true, false, [], ◌∷◌, ◌++◌, ◌||◌, some, ◌==◌, if◌then◌else◌, Text,
  arith, Bool-cases, inl, inr, All, append_assoc,
}
use shiny_server.Config.Lexer.{
  word, Class, Position, advance, classify_char, is_word_char, is_word_class, consume, match_quoted,
  keep_read, token, token_at, next_token, emit, alpha, digit, other, backslash,
}
use shiny_server.Config.Lexer.Consumes.{advance_over}

-- A text as the administrator writes it between double quotes.
abbrev pub escape : Text → Text
escape [] = []
escape (c ∷ cs) = if c == b'"' || c == 92 then 92 ∷ c ∷ escape cs else c ∷ escape cs

abbrev pub quote : Text → Text
quote s = b'"' ∷ (escape s ++ (b'"' ∷ []))

match_quoted-plain :
    (c : ℕ) (cs : Text) (p : Position)
    → (c == b'"' || c == 92) ≡ false
    → match_quoted b'"' (c ∷ cs) p ≡ keep_read c (match_quoted b'"' cs (advance c p))
unfolding match_quoted
match_quoted-plain c [] p h = ground arith
match_quoted-plain c (d ∷ cs) p h = ground arith

match_quoted-escape :
    (s rest : Text) (p : Position)
    → match_quoted b'"' (escape s ++ (b'"' ∷ rest)) p
      ≡ some (record {
        content = s;
        after = record { left = rest; at = advance_over (escape s ++ (b'"' ∷ [])) p };
      })
unfolding match_quoted
match_quoted-escape [] [] p = refl
match_quoted-escape [] (d ∷ ds) p = refl
match_quoted-escape (c ∷ cs) rest p = elim (Bool-cases (c == b'"' || c == 92)) [
  | inl special ↦ rw (special, match_quoted-escape cs rest)
  | inr plain ↦ rw (plain, match_quoted-plain c _ p plain, match_quoted-escape cs rest)
]

-- Any text, written between double quotes with its quotes and backslashes escaped, is read back
-- as one word with that text as its value, whatever follows.
pub next_token-quote :
    (s rest : Text) (p : Position)
    → next_token (record { left = quote s ++ rest; at = p })
      ≡ token
          (record { type = word; content = s; position = p })
          (record { left = rest; at = advance_over (quote s) p })
unfolding next_token
next_token-quote s rest p =
    rw (append_assoc (escape s) (b'"' ∷ []) rest, match_quoted-escape s rest (advance b'"' p))

consume-append :
    (class : ℕ → Bool) (w : Text) (c : ℕ) (rest : Text) (p : Position)
    → All (λ d. class d ≡ true) w
    → class c ≡ false
    → consume class (w ++ (c ∷ rest)) p
      ≡ record { content = w; after = record { left = c ∷ rest; at = advance_over w p } }
unfolding consume
consume-append class [] c rest p h stop = rw stop
consume-append class (d ∷ w) c rest p h stop =
    rw (h.0, consume-append class w c rest (advance d p) h.1 stop)

token_at-word :
    (k : Class) (c : ℕ) (cs : Text) (p : Position)
    → is_word_class k ≡ true
    → token_at k c cs p ≡ emit word p (consume is_word_char (c ∷ cs) p)
unfolding token_at is_word_class
token_at-word alpha c cs p h = refl
token_at-word digit c cs p h = refl
token_at-word other c cs p h = refl
token_at-word backslash c cs p h = refl
token_at-word _ c cs p h = cc

-- A nonempty run of word characters before a character of another kind is read back as it is.
pub next_token-word :
    (d : ℕ) (w : Text) (c : ℕ) (rest : Text) (p : Position)
    → All (λ x. is_word_char x ≡ true) (d ∷ w)
    → is_word_char c ≡ false
    → next_token (record { left = d ∷ (w ++ (c ∷ rest)); at = p })
      ≡ token
          (record { type = word; content = d ∷ w; position = p })
          (record { left = c ∷ rest; at = advance_over (d ∷ w) p })
unfolding next_token
next_token-word d w c rest p h stop =
    token_at-word (classify_char d) d _ p h.0
    ∙ ap (emit word p) (consume-append is_word_char (d ∷ w) c rest p h stop)
