-- ===== src/Config/Parser/RoundTrip.antt =====
-- A printed tree of directives is parsed back.
use mathlib.Core.List.{append-nil, append_assoc}
use shiny_server.Prelude.{
  ℕ, zero, suc, ◌+◌, ◌*◌, ◌≤◌, ◌<◌, ◌≡◌, refl, sym, ap, ◌∙◌, List, [], ◌∷◌, ◌++◌, Option, none,
  some, arith, All,
}
use shiny_server.Config.Lexer.{TokenType, word, open_brace, close_brace, term, Position, Token}
use shiny_server.Config.Parser.{
  Stream, ends, cons, Directive, Directives, nil, more, directive, found, children, scoped, prepend,
  parse_children, parse_one, parse_args, size,
}

abbrev mark : TokenType → Position → Token
mark k p = record { type = k; content = []; position = p }

pub print_args : List Token → Stream → Stream
print_args [] k = k
print_args (a ∷ rest) k = cons a (print_args rest k)

-- The tokens of a tree before the stream `k`; punctuation gets the position `p`. A directive
-- with no children ends in a semicolon.
mutual
  pub print : Position → Directives → Stream → Stream
  print p nil k = k
  print p (more d ds) k = print_one p d (print p ds k)

  pub print_one : Position → Directive → Stream → Stream
  print_one p (directive name args ds) k = cons name (print_args args (print_scope p ds k))

  pub print_scope : Position → Directives → Stream → Stream
  print_scope p nil k = cons (mark term p) k
  print_scope p (more d ds) k =
      cons (mark open_brace p) (print_one p d (print p ds (cons (mark close_brace p) k)))

-- Every name and argument is a word.
unfoldable mutual
  pub AllWords : Directives → Type 0
  AllWords nil = Unit
  AllWords (more d ds) = IsWords d × AllWords ds

  pub IsWords : Directive → Type 0
  IsWords (directive name args ds) =
      (name.type ≡ word) × All (λ t. t.type ≡ word) args × AllWords ds

children_found :
    (n : ℕ) (scope : Option Position) (s : Stream) (d : Directive) (rest : Stream)
    → parse_one n s ≡ found d rest
    → parse_children (suc n) scope s ≡ prepend d (parse_children n scope rest)
unfolding parse_children
children_found n scope s d rest e = rw e

one_word :
    (n : ℕ) (t : Token) (rest : Stream)
    → t.type ≡ word
    → parse_one (suc n) (cons t rest) ≡ parse_args n t [] rest
unfolding parse_one
one_word n t rest e = simp e

args_word :
    (n : ℕ) (name : Token) (args : List Token) (t : Token) (rest : Stream)
    → t.type ≡ word
    → parse_args (suc n) name args (cons t rest) ≡ parse_args n name (args ++ (t ∷ [])) rest
unfolding parse_args
args_word n name args t rest e = simp e

args_open :
    (n : ℕ) (name : Token) (args : List Token) (p : Position) (rest : Stream)
    → parse_args (suc n) name args (cons (mark open_brace p) rest)
      ≡ scoped name args (parse_children n (some name.position) rest)
unfolding parse_args
args_open n name args p rest = refl

args_term :
    (n : ℕ) (name : Token) (args : List Token) (p : Position) (rest : Stream)
    → parse_args (suc n) name args (cons (mark term p) rest) ≡ found (directive name args nil) rest
unfolding parse_args
args_term n name args p rest = refl

children_closed :
    (n : ℕ) (q p : Position) (k : Stream)
    → parse_children (suc (suc n)) (some q) (cons (mark close_brace p) k) ≡ children nil k
unfolding parse_children
children_closed n q p k = refl

print_args-size : (args : List Token) (k : Stream) → size k ≤ size (print_args args k)
unfolding print_args
print_args-size [] k = omega arith
print_args-size (a ∷ rest) k = omega (arith, print_args-size rest k)

mutual
  unfolding print

  print-size : (p : Position) (ds : Directives) (k : Stream) → size k ≤ size (print p ds k)
  print-size p nil k = omega arith
  print-size p (more d ds) k = omega (arith, print_one-size p d (print p ds k), print-size p ds k)

  print_one-size : (p : Position) (d : Directive) (k : Stream) → size k < size (print_one p d k)
  print_one-size p (directive name args ds) k =
      omega (arith, print_args-size args (print_scope p ds k), print_scope-size p ds k)

  print_scope-size :
      (p : Position) (ds : Directives) (k : Stream) → size k < size (print_scope p ds k)
  print_scope-size p nil k = omega arith
  print_scope-size p (more d ds) k = omega (
    arith,
    print_one-size p d (print p ds (cons (mark close_brace p) k)),
    print-size p ds (cons (mark close_brace p) k),
  )

-- The scope ends at `tail`, and `k` follows.
abbrev Stops : Option Position → Stream → Stream → Type 0
Stops scope tail k = (m : ℕ) → parse_children (suc (suc m)) scope tail ≡ children nil k

mutual
  unfolding print print_args AllWords

  children-print :
      (n : ℕ) (scope : Option Position) (ds : Directives) (tail k : Stream) (p : Position)
      → Stops scope tail k
      → AllWords ds
      → 2 * size (print p ds tail) + 1 < n
      → parse_children n scope (print p ds tail) ≡ children ds k
  children-print zero scope ds tail k p stop w h = absurd (omega arith)
  children-print (suc zero) scope ds tail k p stop w h = absurd (omega arith)
  children-print (suc (suc m)) scope nil tail k p stop w h = stop m
  children-print (suc (suc m)) scope (more d ds) tail k p stop w h =
      children_found (suc m) scope _ d (print p ds tail)
        (one-print (suc m) d (print p ds tail) p w.0 (omega arith))
      ∙ ap (prepend d) (
          children-print (suc m) scope ds tail k p stop w.1
            (omega (arith, print_one-size p d (print p ds tail))))

  one-print :
      (n : ℕ) (d : Directive) (k : Stream) (p : Position)
      → IsWords d
      → 2 * size (print_one p d k) < n
      → parse_one n (print_one p d k) ≡ found d k
  one-print zero d k p w h = absurd (omega arith)
  one-print (suc n) (directive name args ds) k p w h =
      one_word n name _ w.0 ∙ args-print n name [] args ds k p w.1 w.2 (omega arith)

  args-print :
      (n : ℕ) (name : Token) (acc args : List Token) (ds : Directives) (k : Stream) (p : Position)
      → All (λ t. t.type ≡ word) args
      → AllWords ds
      → 2 * size (print_args args (print_scope p ds k)) < n
      → parse_args n name acc (print_args args (print_scope p ds k))
        ≡ found (directive name (acc ++ args) ds) k
  args-print zero name acc args ds k p a w h = absurd (omega arith)
  args-print (suc n) name acc (t ∷ rest) ds k p a w h =
      args_word n name acc t _ a.0
      ∙ args-print n name (acc ++ (t ∷ [])) rest ds k p a.1 w (omega arith)
      ∙ ap (λ l. found (directive name l ds) k) (append_assoc acc (t ∷ []) rest)
  args-print (suc n) name acc [] nil k p a w h =
      args_term n name acc p k ∙ ap (λ l. found (directive name l nil) k) (sym (append-nil acc))
  args-print (suc n) name acc [] (more d ds) k p a w h =
      args_open n name acc p _
      ∙ ap (scoped name acc) (
          children-print n (some name.position) (more d ds) (cons (mark close_brace p) k) k p
            (λ m. children_closed m name.position p k) w (omega arith))
      ∙ ap (λ l. found (directive name l (more d ds)) k) (sym (append-nil acc))

root-Stops : (end : Position) → Stops none (ends end) (ends end)
unfolding parse_children
root-Stops end m = refl

-- Any tree of directives whose names and arguments are words is read back from its tokens, and
-- the parser stops at the end of the data.
pub parse_children-print :
    (ds : Directives) (p end : Position)
    → AllWords ds
    → parse_children (2 * size (print p ds (ends end)) + 2) none (print p ds (ends end))
      ≡ children ds (ends end)
parse_children-print ds p end w =
    children-print (2 * size (print p ds (ends end)) + 2) none ds (ends end) (ends end) p
      (root-Stops end) w (omega arith)
