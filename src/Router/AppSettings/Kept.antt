-- ===== src/Router/AppSettings/Kept.antt =====
-- What the steps of `parseApplication` keep of the settings, and the mode of log files that is stored.
use shiny_server.Prelude.{
  ◌≡◌, refl, sym, ap, ◌∙◌, subst, Bool, true, false, not, ◌||◌, List, Option, none, some, inl, inr,
  if◌then◌else◌, Text, codes, text_eq, text_eq_iff, arith, Bool-cases, walked_eq, ℤ, is_truthy,
}
use shiny_server.Prelude.Dict.{lookup, insert, lookup-insert}
use shiny_server.Config.Schema.Types.{is_nonempty}
use shiny_server.Config.Schema.Results.{
  passes_is, not_octal, passes, ◌>>◌, fail_if, >>=-eq-passes, >>-eq-passes,
}
use shiny_server.Config.Schema.Apply.{Arg, Values}
use shiny_server.Router.AppSettings.{
  Settings, text, set_number, set_flag, is_octal, set_mode, parse_frame_options, set_frame_options,
  set_python, disabled_protocols, set_protocols, push_names, set_websockets, set_bookmarks,
}

module _ {F : Type 0} where
  -- The setting is as it was.
  abbrev pub Same : Text → Settings F → Settings F → Type 0
  Same k s t = lookup k t ≡ lookup k s

  insert-Same :
      (k name : Text) (v : Option (Arg F)) (s : Settings F)
      → text_eq name k ≡ false
      → Same k s (insert name v s)
  insert-Same k name v s ne =
      lookup-insert name k v s ∙ ap (λ b. if b then some v else lookup k s) ne

  pub number-Same :
      (k : Text) (zero_too : Bool) (name : Text) (z : Option ℤ) (s : Settings F)
      → text_eq name k ≡ false
      → Same k s (set_number zero_too name z s)
  unfolding set_number
  number-Same k zero_too name none s ne = refl
  number-Same k zero_too name (some z) s ne = elim (Bool-cases (zero_too || is_truthy z)) [
    | inl good ↦ rw good (insert-Same k name _ s ne)
    | inr bad ↦ rw bad refl
  ]

  pub flag-Same :
      (k : Text) (wanted : Bool) (name : Text) (b : Option Bool) (s : Settings F)
      → text_eq name k ≡ false
      → Same k s (set_flag wanted name b s)
  unfolding set_flag
  flag-Same k wanted name none s ne = refl
  flag-Same k true name (some true) s ne = insert-Same k name _ s ne
  flag-Same k true name (some false) s ne = refl
  flag-Same k false name (some true) s ne = refl
  flag-Same k false name (some false) s ne = insert-Same k name _ s ne

  pub frame-Same :
      (up : Text → Text) (k : Text) (v : Option (Values F)) (s t : Settings F)
      → text_eq (codes "frameOptions") k ≡ false
      → set_frame_options up v s ≡ passes t
      → Same k s t
  unfolding set_frame_options
  frame-Same up k none s t ne e = subst (Same k s) (passes_is s t e) refl
  frame-Same up k (some vs) s t ne e =
      let (frame, _, f) = >>=-eq-passes (parse_frame_options up vs) _ e in
      subst (Same k s) (passes_is _ t f) (insert-Same k (codes "frameOptions") frame s ne)

  pub python-Same :
      (k : Text) (v : Option (Values F)) (s : Settings F)
      → text_eq (codes "python") k ≡ false
      → Same k s (set_python v s)
  unfolding set_python
  python-Same k none s ne = refl
  python-Same k (some vs) s ne = insert-Same k (codes "python") _ s ne

  pub protocols-Same :
      (k : Text) (v : Option (List Text)) (s t : Settings F)
      → text_eq (codes "disableProtocols") k ≡ false
      → set_protocols v s ≡ passes t
      → Same k s t
  unfolding set_protocols
  protocols-Same k none s t ne e = subst (Same k s) (passes_is s t e) refl
  protocols-Same k (some given) s t ne e =
      let (ps, _, f) = >>=-eq-passes (disabled_protocols given) _ e in
      subst (Same k s) (passes_is _ t f) (insert-Same k (codes "disableProtocols") _ s ne)

  pub websockets-Same :
      (k : Text) (v : Option Bool) (s t : Settings F)
      → text_eq (codes "disableProtocols") k ≡ false
      → set_websockets v s ≡ passes t
      → Same k s t
  unfolding set_websockets
  websockets-Same k none s t ne e = subst (Same k s) (passes_is s t e) refl
  websockets-Same k (some false) s t ne e = subst (Same k s) (passes_is s t e) refl
  websockets-Same k (some true) s t ne e =
      let (ps, _, f) =
        >>=-eq-passes (push_names (lookup (codes "disableProtocols") s) (codes "websocket")) _ e in
      subst (Same k s) (passes_is _ t f) (insert-Same k (codes "disableProtocols") ps s ne)

  pub bookmarks-Same :
      (k : Text) (v : Option Text) (s : Settings F)
      → text_eq (codes "bookmarkStateDir") k ≡ false
      → Same k s (set_bookmarks v s)
  unfolding set_bookmarks
  bookmarks-Same k none s ne = refl
  bookmarks-Same k (some dir) s ne = insert-Same k (codes "bookmarkStateDir") _ s ne

  -- The mode that is stored: one of octal digits, and the default where none is given.
  pub record StoresMode (mode : Option Text) (s t : Settings F) : Type 0 where
    stored : Text
    inserted : insert (codes "logFileMode") (text stored) s ≡ t
    octal : is_octal stored ≡ true
    default_mode : mode ≡ none → stored ≡ codes "640"

  fallback :
      (mode : Option Text) (s t : Settings F)
      → passes (insert (codes "logFileMode") (text (codes "640")) s) ≡ passes t
      → StoresMode mode s t
  fallback mode s t e = record {
    stored = codes "640";
    inserted = passes_is (insert (codes "logFileMode") (text (codes "640")) s) t e;
    octal = unfold is_octal in refl;
    default_mode = λ _. refl;
  }

  checked_mode :
      (mode : Text) (s t : Settings F)
      → (fail_if (not (is_octal mode)) not_octal
          >> passes (insert (codes "logFileMode") (text mode) s))
        ≡ passes t
      → StoresMode (some mode) s t
  checked_mode mode s t e =
      let (octal, rest) =
        >>-eq-passes (not (is_octal mode)) not_octal
          (passes (insert (codes "logFileMode") (text mode) s)) e in
      record {
        stored = mode;
        inserted = passes_is (insert (codes "logFileMode") (text mode) s) t rest;
        octal = ground (arith, octal);
        default_mode = λ n. absurd (cc n);
      }

  given_mode :
      (mode : Text) (s t : Settings F) (b : Bool)
      → (if b
          then (fail_if (not (is_octal mode)) not_octal
              >> passes (insert (codes "logFileMode") (text mode) s))
          else passes (insert (codes "logFileMode") (text (codes "640")) s))
        ≡ passes t
      → StoresMode (some mode) s t
  given_mode mode s t true e = checked_mode mode s t e
  given_mode mode s t false e = fallback (some mode) s t e

  pub set_mode-StoresMode :
      (mode : Option Text) (s t : Settings F) → set_mode mode s ≡ passes t → StoresMode mode s t
  unfolding set_mode
  set_mode-StoresMode none s t e = fallback none s t e
  set_mode-StoresMode (some mode) s t e = given_mode mode s t (is_nonempty mode) e

  pub StoresMode-Same :
      (k : Text) (mode : Option Text) (s t : Settings F)
      → text_eq (codes "logFileMode") k ≡ false
      → StoresMode mode s t
      → Same k s t
  StoresMode-Same k mode s t ne m =
      subst (Same k s) m.inserted (insert-Same k (codes "logFileMode") (text m.stored) s ne)

  -- A mode is stored, and it is the default where none is given.
  abbrev pub HasMode : Option Text → Settings F → Type 0
  HasMode mode t =
      (m : Text) × (lookup (codes "logFileMode") t ≡ some (text m))
      × (is_octal m ≡ true)
      × (mode ≡ none → m ≡ codes "640")

  pub StoresMode-HasMode :
      (mode : Option Text) (s t : Settings F) → StoresMode mode s t → HasMode mode t
  StoresMode-HasMode mode s t m = (
    m.stored,
    ap (lookup (codes "logFileMode")) (sym m.inserted) ∙ there m.stored s,
    m.octal,
    m.default_mode,
  )
    where
      there :
          (x : Text) (u : Settings F)
          → lookup (codes "logFileMode") (insert (codes "logFileMode") (text x) u) ≡ some (text x)
      there x u = ground (
        arith,
        lookup-insert (codes "logFileMode") (codes "logFileMode") (text x) u,
        text_eq_iff (codes "logFileMode") (codes "logFileMode"),
      )
