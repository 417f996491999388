-- ===== src/Router/Paths/Safety.antt =====
-- What holds of the directories that `extractUnescapedDirs` answers.
use shiny_server.Prelude.{
  ◌≡◌, ◌≢◌, refl, sym, ◌∙◌, Bool, true, false, List, [], ◌∷◌, ◌++◌, Option, none, some, ◌==◌, all,
  if◌then◌else◌, Text, codes, text_eq, text_eq_refl, subst, arith, All, append_assoc, Bool-cases,
  ◌⊎◌, inl, inr,
}
use shiny_server.Router.Paths.{
  Candidate, is_space, is_slash, has_slash, Verdict, skip, bail, take, judge, extend,
  with_candidate, take_element, scan, extract_unescaped_dirs,
}

-- The name of a directory below its parent.
pub record IsName (element : Text) : Type 0 where
  pub full : element ≢ []
  pub not_this : element ≢ codes "."
  pub not_parent : element ≢ codes ".."
  pub not_blank : all is_space element ≡ false
  pub no_slash : All (λ c. is_slash c ≡ false) element

-- A path of names, from the root down.
pub data Inside : Text → Type 0 where
  root : Inside []
  below : (p : Text) (element : Text) → Inside p → IsName element → Inside (extend p element)

has_slash-All : (t : Text) → has_slash t ≡ false → All (λ c. is_slash c ≡ false) t
unfolding has_slash
has_slash-All [] e = tt
has_slash-All (c ∷ cs) e = (ground arith, has_slash-All cs (ground arith))

text_eq-codes : (s t : Text) → text_eq s t ≡ false → s ≢ t
text_eq-codes s t e same = cc (e, text_eq_refl t, same)

judge-IsName : (t : Text) → judge t ≡ take → IsName t
unfolding judge
judge-IsName [] e = cc
judge-IsName (c ∷ cs) e = elim (Bool-cases (all is_space (c ∷ cs))) [
  | inl blank ↦ absurd (ground arith)
  | inr full' ↦ elim (Bool-cases (text_eq (c ∷ cs) (codes ".."))) [
    | inl up ↦ absurd (ground arith)
    | inr down ↦ elim (Bool-cases (text_eq (c ∷ cs) (codes "."))) [
      | inl here ↦ absurd (ground arith)
      | inr there ↦ elim (Bool-cases (has_slash (c ∷ cs))) [
        | inl deep ↦ absurd (ground arith)
        | inr flat ↦ record {
          full = cc;
          not_this = text_eq-codes (c ∷ cs) (codes ".") there;
          not_parent = text_eq-codes (c ∷ cs) (codes "..") down;
          not_blank = full';
          no_slash = has_slash-All (c ∷ cs) flat;
        }
      ]
    ]
  ]
]

-- `raw` is the part of the URL's path in front of a slash, or all of it.
abbrev pub IsBreak : Text → Text → Type 0
IsBreak url raw =
    (rest : Text) × (url ≡ raw ++ rest) × ((rest ≡ []) ⊎ ((t : Text) × (rest ≡ b'/' ∷ t)))

-- A directory below the root, with the part of the URL's path that names it.
abbrev pub Fits : Text → Candidate → Type 0
Fits url d = Inside d.path × IsBreak url d.raw_path

with_candidate-All :
    {P : Candidate → Type 0} (d : Candidate) (o : Option (List Candidate)) (ds : List Candidate)
    → P d
    → ((es : List Candidate) → o ≡ some es → All P es)
    → with_candidate d o ≡ some ds
    → All P ds
unfolding with_candidate
with_candidate-All d none ds p h e = cc
with_candidate-All {P} d (some es) ds p h e =
    let same : d ∷ es ≡ ds = cc in subst (All P) same (p, h es refl)

take_element-All :
    (url raw accum element : Text) (v : Verdict) (rest : Text → Option (List Candidate))
    (ds : List Candidate)
    → judge element ≡ v
    → Inside accum
    → IsBreak url raw
    → ((a : Text) (es : List Candidate) → Inside a → rest a ≡ some es → All (Fits url) es)
    → take_element v accum raw element rest ≡ some ds
    → All (Fits url) ds
unfolding take_element
take_element-All url raw accum element skip rest ds j i b h e = h accum ds i e
take_element-All url raw accum element bail rest ds j i b h e = cc
take_element-All url raw accum element take rest ds j i b h e =
    let deeper = below accum element i (judge-IsName element j) in
    with_candidate-All _ (rest (extend accum element)) ds (deeper, b)
      (λ es. h (extend accum element) es deeper) e

when_true :
    {x : Option (List Candidate)} {ds : List Candidate} (b : Bool)
    → b ≡ true
    → (if b then x else none) ≡ some ds
    → x ≡ some ds
when_true true h e = e
when_true false h e = cc

module _ (unescape : Text → Text) where
  scan-All :
      (url accum raw element text : Text) (ds : List Candidate)
      → Inside accum
      → url ≡ raw ++ text
      → scan unescape accum raw element text ≡ some ds
      → All (Fits url) ds
  unfolding scan
  scan-All url accum raw element [] ds i u e =
      take_element-All url raw accum (unescape element) _ (λ _. some []) ds refl i ([], u, inl refl)
        (λ a es _ k. let same : [] ≡ es = cc in subst (All (Fits url)) same tt) e
  scan-All url accum raw element (c ∷ cs) ds i u e =
      let further : url ≡ (raw ++ (c ∷ [])) ++ cs = u ∙ sym (append_assoc raw (c ∷ []) cs) in
      elim (Bool-cases (c == b'/')) [
        | inl slash ↦
            take_element-All url raw accum (unescape element) _ _ ds refl i
              (c ∷ cs, u, inr (cs, ground arith))
              (λ a es k. scan-All url a (raw ++ (c ∷ [])) [] cs es k further) (rw slash at e)
        | inr plain ↦
            scan-All url accum (raw ++ (c ∷ [])) (element ++ (c ∷ [])) cs ds i further
              (rw plain at e)
      ]

  -- Every directory that `extractUnescapedDirs` answers for a path lies below the root: its path
  -- is built of names that are not empty, not blank, not `.` or `..`, and hold neither a slash
  -- nor a backslash, whatever the function that unescapes does. The part of the URL's path that
  -- stands for it ends at a slash or at the end.
  pub extract_unescaped_dirs-Fits :
      (url : Text) (ds : List Candidate)
      → extract_unescaped_dirs unescape url ≡ some ds
      → All (Fits url) ds
  unfolding extract_unescaped_dirs
  extract_unescaped_dirs-Fits [] ds e = cc
  extract_unescaped_dirs-Fits (c ∷ cs) ds e = elim (Bool-cases (c == b'/')) [
    | inl slash ↦
        with_candidate-All (record { path = []; raw_path = [] }) (scan unescape [] [] [] (c ∷ cs))
          ds (root, (c ∷ cs, refl, inr (cs, ground arith)))
          (λ es. scan-All (c ∷ cs) [] [] [] (c ∷ cs) es root refl) (when_true (c == b'/') slash e)
    | inr plain ↦ absurd (ground arith)
  ]
