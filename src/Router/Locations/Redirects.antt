-- ===== src/Router/Locations/Redirects.antt =====
-- What a SingleAppRouter launches and where it redirects to.
use shiny_server.Prelude.{
  ℕ, ◌≡◌, refl, sym, ap, ◌∙◌, Bool, true, false, List, [], ◌∷◌, ◌++◌, Option, none, some, ◌⊎◌, inl,
  inr, if◌then◌else◌, ◌==◌, ==_iff, Text, codes, text_eq, arith, Bool-cases, append-nil,
  append_assoc,
}
use shiny_server.Router.AppDir.{
  find, is_found, is_app_file, is_rmd_file, is_index_rmd, is_index_htm, index_of, index_html,
  IndexType, Listing, listed, not_dir, fails,
}
use shiny_server.Router.Directory.{strip_slash, after_prefix}
use shiny_server.Router.LocalConfig.{Fields, AppSpec}
use shiny_server.Router.Locations.{
  Request, Reply, declined, redirect, serve_index, launch, failed, Router, SingleApp, single_app,
  spec_of, set_mode, rmd_reply, on_files, on_listing, on_suffix, single_app_router,
}

-- A suffix that the pattern leaves is empty or begins with a slash.
abbrev pub IsSuffix : Text → Type 0
IsSuffix s = (s ≡ []) ⊎ ((rest : Text) × (s ≡ b'/' ∷ rest))

pub after_prefix_parts : (p t s : Text) → after_prefix p t ≡ some s → (t ≡ p ++ s) × IsSuffix s
unfolding after_prefix
after_prefix_parts [] [] s e = (ground arith, inl (ground arith))
after_prefix_parts [] (c ∷ cs) s e = elim (Bool-cases (c == b'/')) [
  | inl slash ↦ (ground arith, inr (cs, ground (arith, e, slash)))
  | inr other ↦ absurd (ground (arith, e, other))
]
after_prefix_parts (p ∷ ps) [] s e = cc e
after_prefix_parts (p ∷ ps) (c ∷ cs) s e = elim (Bool-cases (p == c)) [
  | inl same ↦
      let (split, suffix) = after_prefix_parts ps cs s (ground (arith, e, same)) in
      (cc ((==_iff p c).0 same, split), suffix)
  | inr other ↦ absurd (ground (arith, e, other))
]

after_prefix-slash : (p : Text) → after_prefix p (p ++ codes "/") ≡ some (codes "/")
unfolding after_prefix
after_prefix-slash [] = refl
after_prefix-slash (p ∷ ps) = ground (arith, after_prefix-slash ps)

abbrev is_redirect : {F : Type 0} → Reply F → Bool
is_redirect (redirect code location) = true
is_redirect _ = false

-- What every app of the router has in common.
abbrev pub IsOf : {F : Type 0} → SingleApp F → AppSpec F → Type 0
IsOf r spec =
    (spec.app_dir ≡ r.app_dir)
    × (spec.run_as ≡ r.run_as)
    × (spec.prefix ≡ r.prefix)
    × (spec.log_dir ≡ r.log_dir)

-- A reply behind the slash: no redirect, and no other app than the router's.
abbrev Behind : {F : Type 0} → SingleApp F → Reply F → Type 0
Behind r (redirect code location) = ⊥
Behind r (launch spec) = IsOf r spec
Behind r _ = Unit

module _ {F : Type 0} (r : SingleApp F) (req : Request) where
  mode-Behind : (mode : Text) → Behind r (launch (set_mode mode (spec_of r)))
  unfolding set_mode spec_of
  mode-Behind mode = (refl, refl, refl, refl)

  spec-Behind : Behind r (launch (spec_of r))
  unfolding spec_of
  spec-Behind = (refl, refl, refl, refl)

  if-Behind : (b : Bool) (x y : Reply F) → Behind r x → Behind r y → Behind r (if b then x else y)
  if-Behind true x y hx hy = hx
  if-Behind false x y hx hy = hy

  rmd-Behind : (file : Option Text) → Behind r (rmd_reply r req file)
  unfolding rmd_reply
  rmd-Behind none = mode-Behind (codes "rmd")
  rmd-Behind (some file) =
      if-Behind (text_eq r.prefix req.url) (serve_index file)
        (launch (set_mode (codes "rmd") (spec_of r))) tt (mode-Behind (codes "rmd"))

  html-Behind :
      (p : IndexType × Option Text)
      → Behind r (let (type, path) = p in rmd_reply r req (index_html type path))
  html-Behind (type, path) = rmd-Behind (index_html type path)

  files-Behind : (files : List Text) → Behind r (on_files r req files)
  unfolding on_files
  files-Behind files =
      if-Behind (is_found (find is_app_file files)) (launch (set_mode (codes "shiny") (spec_of r)))
        _ (mode-Behind (codes "shiny"))
        (if-Behind (is_found (find is_rmd_file files)) _ (launch (spec_of r))
          (html-Behind (index_of (find is_index_rmd files) (find is_index_htm files))) spec-Behind)

  listing-Behind : (listing : Listing) → Behind r (on_listing r req listing)
  unfolding on_listing
  listing-Behind (listed files) = files-Behind files
  listing-Behind not_dir = tt
  listing-Behind fails = tt

Behind-no_redirect :
    {F : Type 0} (r : SingleApp F) (reply : Reply F) → Behind r reply → is_redirect reply ≡ false
Behind-no_redirect r declined h = refl
Behind-no_redirect r (redirect code location) h = absurd h
Behind-no_redirect r (serve_index file) h = refl
Behind-no_redirect r (launch spec) h = refl
Behind-no_redirect r failed h = refl

-- What the router may answer: what it redirects to is the location with its slash, which it does
-- not redirect again.
abbrev pub Answers : {F : Type 0} → Router F → SingleApp F → Request → Reply F → Type 0
Answers router r req (redirect code location) =
    (code ≡ 301)
    × (req.is_http ≡ true)
    × (location ≡ r.prefix ++ req.search)
    × (is_redirect (router (record req { url = location; pathname = r.prefix })) ≡ false)
Answers router r req (launch spec) =
    IsOf r spec × ((rest : Text) × (req.pathname ≡ r.prefix ++ rest))
Answers router r req _ = Unit

cons_nil : {c : ℕ} {cs : Text} → ¬ (c ∷ cs ≡ [])
cons_nil e = cc e

launched_below :
    {F : Type 0} (router : Router F) (r : SingleApp F) (req : Request) (reply : Reply F)
    (rest : Text)
    → req.pathname ≡ r.prefix ++ rest
    → Behind r reply
    → Answers router r req reply
launched_below router r req declined rest e h = tt
launched_below router r req (redirect code location) rest e h = absurd h
launched_below router r req (serve_index file) rest e h = tt
launched_below router r req (launch spec) rest e h = (h, (rest, e))
launched_below router r req failed rest e h = tt

suffix-no_redirect :
    {F : Type 0} (r : SingleApp F) (req : Request) (listing : Listing) (o : Option Text)
    → o ≡ some (codes "/")
    → is_redirect (on_suffix r req listing o) ≡ false
unfolding on_suffix
suffix-no_redirect r req listing o e =
    ap (λ s. is_redirect (on_suffix r req listing s)) e
    ∙ Behind-no_redirect r (on_listing r req listing) (listing-Behind r req listing)

module _ {F : Type 0} (readdir : Text → Listing) (app_dir : Text) (run_as : List Text)
    (prefix log_dir : Text) (settings : Fields F) where
  abbrev the_router : Router F
  the_router = single_app_router readdir app_dir run_as prefix log_dir settings

  abbrev the_app : SingleApp F
  the_app = single_app app_dir run_as prefix log_dir settings

  slash-no_redirect :
      (req : Request) (u : Text)
      → is_redirect (the_router (record req { url = u; pathname = the_app.prefix })) ≡ false
  unfolding single_app_router single_app
  slash-no_redirect req u =
      suffix-no_redirect the_app (record req { url = u; pathname = the_app.prefix })
        (readdir app_dir) _ (after_prefix-slash (strip_slash prefix))

  redirected :
      (req : Request) (b : Bool)
      → req.is_http ≡ b
      → req.pathname ≡ strip_slash prefix ++ []
      → Answers the_router the_app req
          (if b then redirect 301 (req.pathname ++ (b'/' ∷ req.search)) else declined)
  unfolding single_app
  redirected req false h e = tt
  redirected req true h e = (
    refl,
    h,
    ap (λ t. t ++ (b'/' ∷ req.search)) (e ∙ append-nil (strip_slash prefix))
        ∙ sym (append_assoc (strip_slash prefix) (codes "/") req.search),
    slash-no_redirect req (req.pathname ++ (b'/' ∷ req.search)),
  )

  below :
      (req : Request) (s : Text)
      → req.pathname ≡ strip_slash prefix ++ s
      → ((rest : Text) × (s ≡ b'/' ∷ rest))
      → (rest : Text) × (req.pathname ≡ the_app.prefix ++ rest)
  unfolding single_app
  below req s e (rest, slash) = (
    rest,
    e
        ∙ ap (λ t. strip_slash prefix ++ t) slash
        ∙ sym (append_assoc (strip_slash prefix) (codes "/") rest),
  )

  suffix-Answers :
      (req : Request) (o : Option Text)
      → after_prefix (strip_slash prefix) req.pathname ≡ o
      → Answers the_router the_app req (on_suffix the_app req (readdir app_dir) o)
  unfolding on_suffix single_app
  suffix-Answers req none e = tt
  suffix-Answers req (some []) e =
      redirected req req.is_http refl (after_prefix_parts (strip_slash prefix) req.pathname [] e).0
  suffix-Answers req (some (c ∷ cs)) e =
      let (split, suffix) = after_prefix_parts (strip_slash prefix) req.pathname (c ∷ cs) e in
      elim suffix [
        | inl none_left ↦ absurd (cons_nil none_left)
        | inr slash ↦
            let (rest, path) = below req (c ∷ cs) split slash in
            launched_below the_router the_app req (on_listing the_app req (readdir app_dir)) rest
              path (listing-Behind the_app req (readdir app_dir))
      ]

  -- A SingleAppRouter launches an app only with its own directory, users, prefix and directory of
  -- logs, for a path that begins with the prefix and its slash. It redirects requests of HTTP only,
  -- with status 301 to the prefix with its slash and the request's search, and does not redirect a
  -- request with that path again.
  pub single_app_router-Answers :
      (req : Request)
      → Answers the_router the_app req
          (single_app_router readdir app_dir run_as prefix log_dir settings req)
  unfolding single_app_router
  single_app_router-Answers req =
      suffix-Answers req (after_prefix (strip_slash prefix) req.pathname) refl
