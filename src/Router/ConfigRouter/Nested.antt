-- ===== src/Router/ConfigRouter/Nested.antt =====
-- The URL path of a location lies below those of the locations around it.
use shiny_server.Prelude.{
  ℕ, ◌≡◌, refl, sym, ap, ◌∙◌, subst, true, false, List, [], ◌∷◌, ◌++◌, append_assoc, append-nil,
  some, inl, inr, if◌then◌else◌, ◌==◌, Text, codes, arith, Bool-cases, All,
}
use shiny_server.Prelude.Chars.{is_line_end}
use shiny_server.Config.Node.{Node, has_name}
use shiny_server.Config.Node.Within.{Place}
use shiny_server.Config.Schema.Results.{passes, ◌>>=◌, passes_is, >>=-eq-passes}
use shiny_server.Config.Schema.Apply.{Values}
use shiny_server.Router.Directory.{strip_slash, after_prefix}
use shiny_server.Router.Locations.Redirects.{IsSuffix, after_prefix_parts}
use shiny_server.Router.ConfigRouter.Paths.{
  strip_end, strip_front, join_url_parts, rooted, path_of, derive_from, derive_location_path,
}

-- A path that goes on behind the slash of another.
abbrev pub Below : Text → Text → Type 0
Below a b = (rest : Text) × (b ≡ strip_end a ++ (b'/' ∷ rest))

strip_end-slash : (xs : Text) → strip_end (xs ++ codes "/") ≡ xs
unfolding strip_end
strip_end-slash [] = refl
strip_end-slash (x ∷ []) = refl
strip_end-slash (x ∷ y ∷ xs) = ap (λ t. x ∷ t) (strip_end-slash (y ∷ xs))

strip_end-append :
    (xs : Text) (y : ℕ) (ys : Text)
    → strip_end (xs ++ (b'/' ∷ y ∷ ys)) ≡ xs ++ (b'/' ∷ strip_end (y ∷ ys))
unfolding strip_end
strip_end-append [] y ys = refl
strip_end-append (x ∷ []) y ys = refl
strip_end-append (x ∷ z ∷ xs) y ys = ap (λ t. x ∷ t) (strip_end-append (z ∷ xs) y ys)

strip_front-nil : (a : Text) → strip_front a ≡ [] → strip_end a ≡ []
unfolding strip_end strip_front
strip_front-nil [] e = refl
strip_front-nil (c ∷ []) e = ground arith
strip_front-nil (c ∷ d ∷ cs) e = absurd (ground arith)

strip_front-cons :
    (a r : Text) (y : ℕ) (ys : Text)
    → strip_front a ≡ y ∷ ys
    → strip_front (strip_end a ++ (b'/' ∷ r)) ≡ strip_end (y ∷ ys) ++ (b'/' ∷ r)
unfolding strip_end strip_front
strip_front-cons [] r y ys e = cc e
strip_front-cons (c ∷ []) r y ys e = ground arith
strip_front-cons (c ∷ d ∷ cs) r y ys e = elim (Bool-cases (c == b'/')) [
  | inl slash ↦
      let rest : d ∷ cs ≡ y ∷ ys = ground (arith, e, slash) in
      ground (arith, slash, ap strip_end rest)
  | inr other ↦ ground (arith, other, e)
]

join_from :
    (g a r f : Text)
    → strip_front a ≡ f
    → Below (join_url_parts g a) (join_url_parts g (strip_end a ++ (b'/' ∷ r)))
unfolding join_url_parts strip_front
join_from g a r [] e = (
  r,
  ap (λ t. strip_end g ++ (b'/' ∷ strip_front (t ++ (b'/' ∷ r)))) (strip_front-nil a e)
      ∙ sym (
          ap (λ t. strip_end (strip_end g ++ (b'/' ∷ t)) ++ (b'/' ∷ r)) e
          ∙ ap (λ t. t ++ (b'/' ∷ r)) (strip_end-slash (strip_end g))),
)
join_from g a r (y ∷ ys) e = (
  r,
  ap (λ t. strip_end g ++ (b'/' ∷ t)) (strip_front-cons a r y ys e)
      ∙ sym (
          ap (λ t. strip_end (strip_end g ++ (b'/' ∷ t)) ++ (b'/' ∷ r)) e
          ∙ ap (λ t. t ++ (b'/' ∷ r)) (strip_end-append (strip_end g) y ys)
          ∙ append_assoc (strip_end g) (b'/' ∷ strip_end (y ∷ ys)) (b'/' ∷ r)),
)

join-Below : (g a b : Text) → Below a b → Below (join_url_parts g a) (join_url_parts g b)
join-Below g a b (r, e) =
    subst (λ t. Below (join_url_parts g a) (join_url_parts g t)) (sym e)
      (join_from g a r (strip_front a) refl)

join_self : (g c : Text) → Below g (join_url_parts g c)
unfolding join_url_parts
join_self g c = (strip_front c, refl)

rooted-Below : (a r : Text) → Below (rooted a) (rooted (strip_end a ++ (b'/' ∷ r)))
unfolding rooted strip_end
rooted-Below [] r = (r, refl)
rooted-Below (c ∷ []) r = (r, ground arith)
rooted-Below (c ∷ d ∷ cs) r = (r, ground arith)

-- Without line ends, the router's pattern for a trailing slash is that of the paths.
strip_slash-end : (t : Text) → All (λ c. is_line_end c ≡ false) t → strip_slash t ≡ strip_end t
unfolding strip_slash strip_end
strip_slash-end [] h = refl
strip_slash-end (c ∷ []) h = refl
strip_slash-end (c ∷ d ∷ cs) (h, h2) = ground (arith, h2, strip_slash-end (d ∷ cs) h2)

after_prefix-append : (p r : Text) → after_prefix p (p ++ (b'/' ∷ r)) ≡ some (b'/' ∷ r)
unfolding after_prefix
after_prefix-append [] r = refl
after_prefix-append (p ∷ ps) r = ground (arith, after_prefix-append ps r)

after_prefix_self : (p : Text) → after_prefix p p ≡ some []
unfolding after_prefix
after_prefix_self [] = refl
after_prefix_self (p ∷ ps) = ground (arith, after_prefix_self ps)

-- A path that matches the longer prefix matches the shorter.
matches_outer :
    (a rest s : Text)
    → IsSuffix s
    → (u : Text) × (after_prefix a (strip_end (a ++ (b'/' ∷ rest)) ++ s) ≡ some u)
matches_outer a [] s (inl e) = (
  [],
  ap (λ t. after_prefix a t)
        (ap (λ t. strip_end (a ++ codes "/") ++ t) e
          ∙ append-nil (strip_end (a ++ codes "/"))
          ∙ strip_end-slash a)
      ∙ after_prefix_self a,
)
matches_outer a [] s (inr (more, e)) = (
  b'/' ∷ more,
  ap (λ t. after_prefix a t)
        (ap (λ t. strip_end (a ++ codes "/") ++ t) e
          ∙ ap (λ t. t ++ (b'/' ∷ more)) (strip_end-slash a))
      ∙ after_prefix-append a more,
)
matches_outer a (y ∷ ys) s h = (
  b'/' ∷ (strip_end (y ∷ ys) ++ s),
  ap (λ t. after_prefix a t)
        (ap (λ t. t ++ s) (strip_end-append a y ys) ∙ append_assoc a (b'/' ∷ strip_end (y ∷ ys)) s)
      ∙ after_prefix-append a (strip_end (y ∷ ys) ++ s),
)

Below-eq : (a b c d : Text) → Below a b → a ≡ c → b ≡ d → Below c d
Below-eq a b c d h e f = subst (λ x. Below x d) e (subst (Below a) f h)

module _ {F : Type 0} (values : Node → Values F) where
  -- A round of the loop.
  derived :
      (a r : Text) (q : Node) (qs : List Node)
      → has_name (codes "location") q ≡ true
      → derive_from values a (q ∷ qs) ≡ passes r
      → (above : Text) × (path_of values q ≡ passes above)
        × (derive_from values (join_url_parts above a) qs ≡ passes r)
  unfolding derive_from
  derived a r q qs nested e =
      let rest = λ (above : Text). derive_from values (join_url_parts above a) qs in
      >>=-eq-passes (path_of values q) rest
        (ap (λ b. if b then path_of values q >>= rest else passes a) (sym nested) ∙ e)

  ended :
      (a r : Text) (q : Node) (qs : List Node)
      → has_name (codes "location") q ≡ false
      → derive_from values a (q ∷ qs) ≡ passes r
      → a ≡ r
  unfolding derive_from
  ended a r q qs outermost e =
      let rest = λ (above : Text). derive_from values (join_url_parts above a) qs in
      passes_is _ _
        (ap (λ b. if b then path_of values q >>= rest else passes a) (sym outermost) ∙ e)

  derive_from-Below :
      (a b c d : Text) (qs : List Node)
      → Below a b
      → derive_from values a qs ≡ passes c
      → derive_from values b qs ≡ passes d
      → Below c d
  unfolding derive_from
  derive_from-Below a b c d [] h e f = Below-eq a b c d h (passes_is _ _ e) (passes_is _ _ f)
  derive_from-Below a b c d (q ∷ qs) h e f = elim (Bool-cases (has_name (codes "location") q)) [
    | inl nested ↦
        let (g, path, more) = derived a c q qs nested e in
        let (g', path', more') = derived b d q qs nested f in
        let same : g' ≡ g = passes_is _ _ (sym path' ∙ path) in
        derive_from-Below (join_url_parts g a) (join_url_parts g b) c d qs (join-Below g a b h) more
          (subst (λ t. derive_from values (join_url_parts t b) qs ≡ passes d) same more')
    | inr outermost ↦ Below-eq a b c d h (ended a c q qs outermost e) (ended b d q qs outermost f)
  ]

  -- The path of a location, from its own and what the loop makes of it.
  derivation :
      (at : Place) (r : Text)
      → derive_location_path values at ≡ passes r
      → (p : Text) × (path_of values at.node ≡ passes p)
        × ((full : Text) × (derive_from values p at.above ≡ passes full) × (rooted full ≡ r))
  unfolding derive_location_path
  derivation at r e =
      let (p, path, e2) =
        >>=-eq-passes (path_of values at.node)
          (λ (p : Text). derive_from values p at.above >>= λ full. passes (rooted full)) e in
      let (full, loop, e3) =
        >>=-eq-passes (derive_from values p at.above) (λ (full : Text). passes (rooted full)) e2 in
      (p, path, (full, loop, passes_is _ _ e3))

  location-Below :
      (at : Place) (inner : Node) (a b : Text)
      → has_name (codes "location") at.node ≡ true
      → derive_location_path values at ≡ passes a
      → derive_location_path values (record { node = inner; above = at.node ∷ at.above }) ≡ passes b
      → Below a b
  location-Below at inner a b nested e f =
      let (p, path, (full, loop, r)) = derivation at a e in
      let (p', path', (full', loop', r')) =
        derivation (record { node = inner; above = at.node ∷ at.above }) b f in
      let (g, above, more) = derived p' full' at.node at.above nested loop' in
      let same : g ≡ p = passes_is _ _ (sym above ∙ path) in
      let (rest, below) =
        derive_from-Below p (join_url_parts p p') full full' at.above (join_self p p') loop (
          subst (λ t. derive_from values (join_url_parts t p') at.above ≡ passes full') same
            more) in
      Below-eq (rooted full) (rooted full') a b
        (subst (λ t. Below (rooted full) (rooted t)) (sym below) (rooted-Below full rest)) r r'

  -- For a location inside another, the pattern of its path, where it has no line end, matches only
  -- what the pattern of the other's path matches too: the outer location would take every request
  -- of the inner one if it were tried first.
  pub after_prefix-derive_location_path :
      (at : Place) (inner : Node) (a b pathname s : Text)
      → has_name (codes "location") at.node ≡ true
      → derive_location_path values at ≡ passes a
      → derive_location_path values (record { node = inner; above = at.node ∷ at.above }) ≡ passes b
      → All (λ c. is_line_end c ≡ false) a
      → All (λ c. is_line_end c ≡ false) b
      → after_prefix (strip_slash b) pathname ≡ some s
      → (u : Text) × (after_prefix (strip_slash a) pathname ≡ some u)
  after_prefix-derive_location_path at inner a b pathname s nested e f la lb m =
      let (rest, below) = location-Below at inner a b nested e f in
      let (split, suffix) = after_prefix_parts (strip_slash b) pathname s m in
      let path : pathname ≡ strip_end (strip_end a ++ (b'/' ∷ rest)) ++ s =
        split ∙ ap (λ t. t ++ s) (strip_slash-end b lb ∙ ap strip_end below) in
      let (u, matched) = matches_outer (strip_end a) rest s suffix in
      (
        u,
        ap (λ t. after_prefix (strip_slash a) t) path
            ∙ ap (λ t. after_prefix t (strip_end (strip_end a ++ (b'/' ∷ rest)) ++ s))
                (strip_slash-end a la)
            ∙ matched,
      )
