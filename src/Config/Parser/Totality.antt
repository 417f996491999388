-- ===== src/Config/Parser/Totality.antt =====
-- The fuel of the parser is enough: parsing ends with a tree or with an error of the source.
use shiny_server.Prelude.{
  ℕ, zero, suc, ◌+◌, ◌*◌, ◌≤◌, ◌<◌, ◌≡◌, ◌≢◌, ◌⊎◌, inl, inr, refl, true, List, [], ◌∷◌, ◌++◌,
  Option, none, some, Text, arith, length, Bool-cases, if◌then◌else◌,
}
use shiny_server.Config.Lexer.{
  TokenType, word, open_brace, close_brace, term, ws, comment, eod, Position, Token, Lexer, Result,
  token, error, create, next_token,
}
use shiny_server.Config.Lexer.Consumes.{next_token-Consumes}
use shiny_server.Config.Parser.{
  Stream, ends, fails, cons, stream, is_eod, is_skipped, Directive, One, data_end, closed, found,
  one_fails, one_spent, Children, children, children_fail, children_spent, scoped, prepend,
  parse_children, parse_one, parse_args, size, parse,
}

abbrev Streams : ℕ → Option Stream → Type 0
Streams n none = ⊥
Streams n (some s) = size s ≤ n

is_eod_sound : (k : TokenType) → is_eod k ≡ true → k ≡ eod
unfolding is_eod
is_eod_sound eod h = refl
is_eod_sound word h = cc
is_eod_sound open_brace h = cc
is_eod_sound close_brace h = cc
is_eod_sound term h = cc
is_eod_sound ws h = cc
is_eod_sound comment h = cc

Streams-step :
    (n m : ℕ) (l l' : Lexer) (t : Token)
    → next_token l ≡ token t l'
    → (is_eod t.type ≡ true) ⊎ (Streams m (stream n l') × (m < length l.left))
    → Streams (length l.left) (stream (suc n) l)
unfolding stream
Streams-step n m l l' t same (inl is_end) = rw (same, stream, is_end) (omega arith)
Streams-step n m l l' t same (inr (k, h)) = elim (Bool-cases (is_eod t.type)) [
  | inl is_end ↦ rw (same, stream, is_end) (omega arith)
  | inr not_end ↦ rw (same, stream, not_end) (go (stream n l') k)
]
  where
    go :
        (o : Option Stream)
        → Streams m o
        → Streams
            (length l.left)
            (if is_skipped t.type then o else elim o [ none ↦ none | some s ↦ some (cons t s) ])
    go none k' = elim k' [ ]
    go (some s) k' = elim (Bool-cases (is_skipped t.type)) [
      | inl skip ↦ rw skip (omega arith)
      | inr take ↦ rw take (omega arith)
    ]

stream-Streams : (n : ℕ) (l : Lexer) → length l.left < n → Streams (length l.left) (stream n l)
stream-Streams zero l h = absurd (omega arith)
stream-Streams (suc n) l h = go (next_token l) refl (λ l' k. stream-Streams n l' (omega arith))
  where
    go :
        (r : Result)
        → next_token l ≡ r
        → ((l' : Lexer) → length l'.left < length l.left → Streams (length l'.left) (stream n l'))
        → Streams (length l.left) (stream (suc n) l)
    go (error e p) same rest = unfold stream in rw (same, stream) (omega arith)
    go (token t l') same rest = elim (next_token-Consumes l l' t same).1 [
      | inl (is_end, _, _) ↦ Streams-step n 0 l l' t same (inl (unfold is_eod in rw is_end))
      | inr (not_end, _, shorter) ↦
          Streams-step n (length l'.left) l l' t same (inr (rest l' shorter, shorter))
    ]

abbrev OneFits : ℕ → One → Type 0
OneFits n data_end = Unit
OneFits n (closed p rest) = size rest < n
OneFits n (found d rest) = size rest < n
OneFits n (one_fails e) = Unit
OneFits n one_spent = ⊥

abbrev ChildrenFit : ℕ → Children → Type 0
ChildrenFit n (children ds rest) = size rest ≤ n
ChildrenFit n (children_fail e) = Unit
ChildrenFit n children_spent = ⊥

prepend-fits :
    (n : ℕ) (d : Directive) (c : Children) (m : ℕ)
    → m < n
    → ChildrenFit m c
    → ChildrenFit n (prepend d c)
prepend-fits n d (children ds s) m h k = omega arith
prepend-fits n d (children_fail e) m h k = tt
prepend-fits n d children_spent m h k = elim k [ ]

scoped-fits :
    (n : ℕ) (name : Token) (args : List Token) (c : Children)
    → ChildrenFit n c
    → OneFits (suc n) (scoped name args c)
scoped-fits n name args (children ds s) k = omega arith
scoped-fits n name args (children_fail e) k = tt
scoped-fits n name args children_spent k = elim k [ ]

OneFits-mono : (n : ℕ) (o : One) → OneFits n o → OneFits (suc n) o
OneFits-mono n data_end h = tt
OneFits-mono n (closed p rest) h = omega arith
OneFits-mono n (found d rest) h = omega arith
OneFits-mono n (one_fails e) h = tt
OneFits-mono n one_spent h = elim h [ ]

children_after :
    (n : ℕ) (scope : Option Position) (s : Stream) (o : One)
    → parse_one n s ≡ o
    → OneFits (size s) o
    → ((d : Directive) (rest : Stream)
        → size rest < size s
        → ChildrenFit (size rest) (parse_children n scope rest))
    → ChildrenFit (size s) (parse_children (suc n) scope s)
unfolding parse_children
children_after n none s data_end e h more_fit = rw e (omega arith)
children_after n (some q) s data_end e h more_fit = rw e tt
children_after n none s (closed p rest) e h more_fit = rw e tt
children_after n (some q) s (closed p rest) e h more_fit = rw e (omega arith)
children_after n scope s (found d rest) e h more_fit =
    rw e (prepend-fits (size s) d _ (size rest) h (more_fit d rest h))
children_after n scope s (one_fails f) e h more_fit = rw e tt
children_after n scope s one_spent e h more_fit = elim h [ ]

one_after :
    (n : ℕ) (t : Token) (k : TokenType) (rest : Stream)
    → t.type ≡ k
    → OneFits (size rest) (parse_one n rest)
    → OneFits (size rest) (parse_args n t [] rest)
    → OneFits (suc (size rest)) (parse_one (suc n) (cons t rest))
unfolding parse_one
one_after n t word rest e h k = rw e (OneFits-mono _ _ k)
one_after n t term rest e h k = rw e (OneFits-mono _ _ h)
one_after n t close_brace rest e h k = rw e (omega arith)
one_after n t open_brace rest e h k = rw e tt
one_after n t ws rest e h k = rw e tt
one_after n t comment rest e h k = rw e tt
one_after n t eod rest e h k = rw e tt

args_after :
    (n : ℕ) (name : Token) (args : List Token) (t : Token) (k : TokenType) (rest : Stream)
    → t.type ≡ k
    → OneFits (size rest) (parse_args n name (args ++ (t ∷ [])) rest)
    → ChildrenFit (size rest) (parse_children n (some name.position) rest)
    → OneFits (suc (size rest)) (parse_args (suc n) name args (cons t rest))
unfolding parse_args
args_after n name args t word rest e h k = rw e (OneFits-mono _ _ h)
args_after n name args t open_brace rest e h k = rw e (scoped-fits _ name args _ k)
args_after n name args t term rest e h k = rw e (omega arith)
args_after n name args t close_brace rest e h k = rw e tt
args_after n name args t ws rest e h k = rw e tt
args_after n name args t comment rest e h k = rw e tt
args_after n name args t eod rest e h k = rw e tt

mutual
  unfolding parse_children

  children_fit :
      (n : ℕ) (scope : Option Position) (s : Stream)
      → 2 * size s + 1 < n
      → ChildrenFit (size s) (parse_children n scope s)
  children_fit zero scope s h = absurd (omega arith)
  children_fit (suc n) scope s h =
      children_after n scope s (parse_one n s) refl (one_fits n s (omega arith))
        (λ d rest k. children_fit n scope rest (omega arith))

  one_fits : (n : ℕ) (s : Stream) → 2 * size s < n → OneFits (size s) (parse_one n s)
  one_fits zero s h = absurd (omega arith)
  one_fits (suc n) (ends p) h = tt
  one_fits (suc n) (fails e) h = tt
  one_fits (suc n) (cons t rest) h =
      one_after n t t.type rest refl (one_fits n rest (omega arith))
        (args_fit n t [] rest (omega arith))

  args_fit :
      (n : ℕ) (name : Token) (args : List Token) (s : Stream)
      → 2 * size s < n
      → OneFits (size s) (parse_args n name args s)
  args_fit zero name args s h = absurd (omega arith)
  args_fit (suc n) name args (ends p) h = tt
  args_fit (suc n) name args (fails e) h = tt
  args_fit (suc n) name args (cons t rest) h =
      args_after n name args t t.type rest refl
        (args_fit n name (args ++ (t ∷ [])) rest (omega arith))
        (children_fit n (some name.position) rest (omega arith))

-- Parsing any text ends, with a tree of directives or with an error of the text: the fuel of
-- the model never runs out.
pub parse-ne-spent : (source : Text) → parse source ≢ children_spent
unfolding parse
parse-ne-spent source e =
    let n : ℕ = suc (length (create source).left) in
    go (stream n (create source)) refl (stream-Streams n (create source) (omega arith))
  where
    go :
        (o : Option Stream)
        → stream (suc (length (create source).left)) (create source) ≡ o
        → Streams (length (create source).left) o
        → ⊥
    go none same h = h
    go (some s) same h =
        let spent : parse_children (2 * size s + 2) none s ≡ children_spent =
          rw (same, parse) at e in
        let fits = children_fit (2 * size s + 2) none s (omega arith) in rw spent at fits
