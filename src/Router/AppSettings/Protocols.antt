-- ===== src/Router/AppSettings/Protocols.antt =====
-- What `disable_protocols` disables.
use shiny_server.Prelude.{
  ◌≡◌, refl, sym, ap, ◌∙◌, subst, true, false, ◌||◌, List, [], ◌∷◌, ◌++◌, Option, none, some, ◌⊎◌,
  inl, inr, if◌then◌else◌, Text, codes, text_eq, text_eq_iff, All, All-map, arith, Bool-cases,
  walked_eq,
}
use shiny_server.Prelude.Sets.{contains, contains-append}
use shiny_server.Config.Schema.Results.{passes_is, passes, >>=-eq-passes}
use shiny_server.Router.AppSettings.{
  all_protocols, inherited_names, meta_protocol, add_meta, add_protocol, reduce_names, push_sibling,
  disabled_protocols,
}

-- The name is disabled, or all the protocols that it stands for are.
abbrev pub Covered : List Text → Text → Type 0
Covered ps name =
    (contains name ps ≡ true)
    ⊎ ((ms : List Text) × (meta_protocol name ≡ some ms) × All (λ m. contains m ps ≡ true) ms)

-- Every protocol of the first list is in the second.
abbrev Within : List Text → List Text → Type 0
Within ps qs = (k : Text) → contains k ps ≡ true → contains k qs ≡ true

widen-Covered : (ps qs : List Text) (name : Text) → Within ps qs → Covered ps name → Covered qs name
widen-Covered ps qs name w (inl h) = inl (w name h)
widen-Covered ps qs name w (inr (ms, e, h)) =
    inr (ms, e, All-map (λ m. contains m ps ≡ true) (λ m. contains m qs ≡ true) ms w h)

append-Within : (ps qs : List Text) → Within ps (ps ++ qs)
append-Within ps qs k h = ground (arith, contains-append k ps qs, h)

contains_self : (name : Text) (ps : List Text) → contains name (ps ++ (name ∷ [])) ≡ true
unfolding contains
contains_self name ps = ground (arith, contains-append name ps (name ∷ []), text_eq_iff name name)

all_contained : (ms : List Text) → All (λ m. contains m ms ≡ true) ms
unfolding contains
all_contained [] = tt
all_contained (m ∷ ms) = (
  ground (arith, text_eq_iff m m),
  All-map (λ k. contains k ms ≡ true) (λ k. contains k (m ∷ ms) ≡ true) ms
      (λ k h. ground (arith, h)) (all_contained ms),
)

behind_all : (accum ms : List Text) → All (λ m. contains m (accum ++ ms) ≡ true) ms
behind_all accum ms =
    All-map (λ m. contains m ms ≡ true) (λ m. contains m (accum ++ ms) ≡ true) ms
      (λ m h. ground (arith, contains-append m accum ms, h)) (all_contained ms)

meta-Covers :
    (accum : List Text) (name : Text) (o : Option (List Text)) (next : List Text)
    → meta_protocol name ≡ o
    → add_meta accum name o ≡ passes next
    → Within accum next × Covered next name
unfolding add_meta
meta-Covers accum name none next m e = absurd (cc e)
meta-Covers accum name (some ms) next m e =
    let same = passes_is (accum ++ ms) next e in
    subst (λ ps. Within accum ps × Covered ps name) same
      (append-Within accum ms, inr (ms, m, behind_all accum ms))

add_protocol-Covers :
    (accum : List Text) (name : Text) (next : List Text)
    → add_protocol accum name ≡ passes next
    → Within accum next × Covered next name
unfolding add_protocol
add_protocol-Covers accum name next e =
    elim (Bool-cases (contains name all_protocols || contains name inherited_names)) [
      | inl known ↦
          subst (λ ps. Within accum ps × Covered ps name)
            (passes_is (accum ++ (name ∷ [])) next (
              sym (
                ap
                  (λ b.
                    if b
                    then passes (accum ++ (name ∷ []))
                    else add_meta accum name (meta_protocol name))
                  known)
              ∙ e))
            (append-Within accum (name ∷ []), inl (contains_self name accum))
      | inr unknown ↦ meta-Covers accum name (meta_protocol name) next refl (
          sym (
            ap
              (λ b.
                if b
                then passes (accum ++ (name ∷ []))
                else add_meta accum name (meta_protocol name))
              unknown)
          ∙ e)
    ]

reduce_names-Covers :
    (accum names ps : List Text)
    → reduce_names accum names ≡ passes ps
    → Within accum ps × All (Covered ps) names
unfolding reduce_names
reduce_names-Covers accum [] ps e =
    (λ k h. subst (λ qs. contains k qs ≡ true) (passes_is accum ps e) h, tt)
reduce_names-Covers accum (name ∷ names) ps e =
    let (next, first, rest) =
      >>=-eq-passes (add_protocol accum name) (λ n. reduce_names n names) e in
    let (grown, covered) = add_protocol-Covers accum name next first in
    let (later, others) = reduce_names-Covers next names ps rest in
    (λ k h. later k (grown k h), (widen-Covered next ps name later covered, others))

push_sibling-Within :
    (iframe sibling : Text) (ps : List Text) → Within ps (push_sibling iframe sibling ps)
unfolding push_sibling
push_sibling-Within iframe sibling ps k h = ground (arith, contains-append k ps (sibling ∷ []), h)

push_sibling_there :
    (iframe sibling : Text) (ps : List Text)
    → text_eq sibling iframe ≡ false
    → contains iframe (push_sibling iframe sibling ps) ≡ true
    → contains sibling (push_sibling iframe sibling ps) ≡ true
unfolding push_sibling
push_sibling_there iframe sibling ps different h = elim (Bool-cases (contains iframe ps)) [
  | inl there ↦ rw there (contains_self sibling ps)
  | inr missing ↦ absurd (ground (arith, h, missing))
]

push_sibling-other :
    (iframe sibling k : Text) (ps : List Text)
    → text_eq sibling k ≡ false
    → contains k (push_sibling iframe sibling ps) ≡ contains k ps
unfolding push_sibling contains
push_sibling-other iframe sibling k ps different =
    ground (arith, contains-append k ps (sibling ∷ []), different)

-- What is known of the protocols that are disabled for the names.
pub record Disables (names ps : List Text) : Type 0 where
  pub covered : All (Covered ps) names
  pub htmlfile :
      contains (codes "iframe-htmlfile") ps ≡ true → contains (codes "htmlfile") ps ≡ true
  pub eventsource :
      contains (codes "iframe-eventsource") ps ≡ true → contains (codes "eventsource") ps ≡ true

with_siblings :
    (names qs : List Text)
    → All (Covered qs) names
    → Disables names (
        push_sibling
          (codes "iframe-eventsource")
          (codes "eventsource")
          (push_sibling (codes "iframe-htmlfile") (codes "htmlfile") qs))
with_siblings names qs covered =
    let rs = push_sibling (codes "iframe-htmlfile") (codes "htmlfile") qs in
    let us = push_sibling (codes "iframe-eventsource") (codes "eventsource") rs in
    record {
      covered =
          All-map (Covered qs) (Covered us) names
            (λ n h.
              widen-Covered rs us n
                (push_sibling-Within (codes "iframe-eventsource") (codes "eventsource") rs)
                (widen-Covered qs rs n
                  (push_sibling-Within (codes "iframe-htmlfile") (codes "htmlfile") qs) h))
            covered;
      htmlfile = λ h.
          push_sibling-Within (codes "iframe-eventsource") (codes "eventsource") rs
            (codes "htmlfile")
            (push_sibling_there (codes "iframe-htmlfile") (codes "htmlfile") qs
              (unfold text_eq in refl)
              (sym (
                  push_sibling-other (codes "iframe-eventsource") (codes "eventsource")
                    (codes "iframe-htmlfile") rs (unfold text_eq in refl))
                ∙ h));
      eventsource =
          push_sibling_there (codes "iframe-eventsource") (codes "eventsource") rs
            (unfold text_eq in refl);
    }

-- When the list of names is accepted, every name that is given is disabled, or, for `streaming` and
-- `polling`, all the protocols that it stands for; and where iframe-htmlfile or iframe-eventsource
-- is disabled, so is the transport that it wraps.
pub disabled_protocols-Disables :
    (names ps : List Text) → disabled_protocols names ≡ passes ps → Disables names ps
unfolding disabled_protocols
disabled_protocols-Disables names ps e =
    let (qs, reduced, last) = >>=-eq-passes (reduce_names [] names) _ e in
    subst (Disables names) (passes_is _ ps last)
      (with_siblings names qs ((reduce_names-Covers [] names qs reduced).1))
