-- ===== src/Prelude/Sets.antt =====
-- The functions of underscore.js on arrays without order: contains, uniq, difference and keys.

use mathlib.Core.Path.{◌≡◌, refl, subst}
use mathlib.Core.Logic.{inl, inr}
use mathlib.Core.Bool.{Bool, false, not, ◌&&◌, ◌||◌}
use mathlib.Core.List.{List, [], ◌∷◌, ◌++◌}
use native.Mathlib.Omega.{arith}
use shiny_server.Prelude.Tests.{if◌then◌else◌, Bool-cases}
use shiny_server.Prelude.Options.{is_some}
use shiny_server.Prelude.Classes.{Eq}
use shiny_server.Prelude.Dict.{lookup, insert, remove, lookup-remove, lookup-insert}

module _ {κ} {K : Type κ} ⦃e : Eq K⦄ where
  -- `_.contains(ks, k)`
  unfoldable pub contains : K → List K → Bool
  contains k [] = false
  contains k (j ∷ ks) = e.beq j k || contains k ks

  -- `_.difference(ks, js)`
  unfoldable pub difference : List K → List K → List K
  unfolding contains
  difference [] js = []
  difference (k ∷ ks) js = let rest = difference ks js in if contains k js then rest else k ∷ rest

  unfoldable pub uniq_onto : List K → List K → List K
  unfolding contains
  uniq_onto acc [] = acc
  uniq_onto acc (k ∷ ks) = uniq_onto (if contains k acc then acc else acc ++ (k ∷ [])) ks

  -- `_.uniq(ks)`
  unfoldable pub uniq : List K → List K
  unfolding uniq_onto
  uniq ks = uniq_onto [] ks

  unfoldable pub NoDup : List K → Type 0
  unfolding contains
  NoDup [] = Unit
  NoDup (k ∷ ks) = (contains k ks ≡ false) × NoDup ks

  pub contains-append :
      (k : K) (xs ys : List K) → contains k (xs ++ ys) ≡ (contains k xs || contains k ys)
  unfolding contains
  contains-append k [] ys = refl
  contains-append k (x ∷ xs) ys = ground (arith, contains-append k xs ys)

  pub contains-difference :
      (k : K) (ks js : List K)
      → contains k (difference ks js) ≡ (contains k ks && not (contains k js))
  unfolding contains difference
  contains-difference k [] js = refl
  contains-difference k (x ∷ ks) js = elim (Bool-cases (e.beq x k)) [
    | inl same ↦ ground (arith, contains-difference k ks js, e.beq_iff x k)
    | inr other ↦ ground (arith, contains-difference k ks js)
  ]

  pub difference-NoDup : (ks js : List K) → NoDup ks → NoDup (difference ks js)
  unfolding NoDup difference
  difference-NoDup [] js h = tt
  difference-NoDup (k ∷ ks) js h = elim (Bool-cases (contains k js)) [
    | inl there ↦ rw there (difference-NoDup ks js h.1)
    | inr new ↦
        rw (new, NoDup) (rw (contains-difference k ks js, h.0) refl, difference-NoDup ks js h.1)
  ]

  snoc-NoDup : (acc : List K) (k : K) → NoDup acc → contains k acc ≡ false → NoDup (acc ++ (k ∷ []))
  unfolding NoDup contains
  snoc-NoDup [] k h n = (refl, tt)
  snoc-NoDup (x ∷ acc) k h n = (
    ground (arith, contains-append x acc (k ∷ []), e.beq_iff x k, e.beq_iff k x),
    snoc-NoDup acc k h.1 (ground arith),
  )

  uniq_onto-NoDup : (acc ks : List K) → NoDup acc → NoDup (uniq_onto acc ks)
  unfolding uniq_onto
  uniq_onto-NoDup acc [] h = h
  uniq_onto-NoDup acc (k ∷ ks) h = elim (Bool-cases (contains k acc)) [
    | inl there ↦ rw there (uniq_onto-NoDup acc ks h)
    | inr new ↦ rw new (uniq_onto-NoDup (acc ++ (k ∷ [])) ks (snoc-NoDup acc k h new))
  ]

  pub uniq-NoDup : (ks : List K) → NoDup (uniq ks)
  unfolding uniq NoDup
  uniq-NoDup ks = uniq_onto-NoDup [] ks tt

  contains-uniq_onto :
      (k : K) (acc ks : List K) → contains k (uniq_onto acc ks) ≡ (contains k acc || contains k ks)
  unfolding uniq_onto contains
  contains-uniq_onto k acc [] = ground arith
  contains-uniq_onto k acc (x ∷ ks) = elim (Bool-cases (contains x acc)) [
    | inl there ↦ rw there (ground (arith, contains-uniq_onto k acc ks, e.beq_iff x k))
    | inr new ↦
        rw new (
          ground (arith, contains-uniq_onto k (acc ++ (x ∷ [])) ks, contains-append k acc (x ∷ [])))
  ]

  -- `uniq` keeps the members.
  pub contains-uniq : (k : K) (ks : List K) → contains k (uniq ks) ≡ contains k ks
  unfolding uniq contains
  contains-uniq k ks = contains-uniq_onto k [] ks

module _ {ℓ κ} {K : Type κ} {V : Type ℓ} ⦃e : Eq K⦄ where
  -- `_.keys(m)`
  unfoldable pub keys : List (K × V) → List K
  keys [] = []
  keys ((k, v) ∷ m) = k ∷ keys m

  pub contains-keys : (k : K) (m : List (K × V)) → contains k (keys m) ≡ is_some (lookup k m)
  unfolding contains keys lookup
  contains-keys k [] = refl
  contains-keys k ((j, v) ∷ m) = ground (arith, contains-keys k m)

  pub keys-remove-NoDup : (k : K) (m : List (K × V)) → NoDup (keys m) → NoDup (keys (remove k m))
  unfolding NoDup keys remove
  keys-remove-NoDup k [] h = tt
  keys-remove-NoDup k ((j, v) ∷ m) h = elim (Bool-cases (e.beq j k)) [
    | inl same ↦ rw same (keys-remove-NoDup k m h.1)
    | inr other ↦
        rw (other, keys, NoDup)
          (
            ground
                (arith, contains-keys j (remove k m), contains-keys j m, lookup-remove k j m, h.0),
            keys-remove-NoDup k m h.1,
          )
  ]

  pub keys-insert-NoDup :
      (k : K) (v : V) (m : List (K × V)) → NoDup (keys m) → NoDup (keys (insert k v m))
  unfolding NoDup keys insert contains
  keys-insert-NoDup k v [] h = (refl, tt)
  keys-insert-NoDup k v ((j, w) ∷ m) h = elim (Bool-cases (e.beq j k)) [
    | inl same ↦
        rw (same, keys, NoDup)
          (subst (λ i. contains i (keys m) ≡ false) ((e.beq_iff j k).0 same) h.0, h.1)
    | inr other ↦
        rw (other, keys, NoDup)
          (
            ground (
              arith,
              contains-keys j (insert k v m),
              contains-keys j m,
              lookup-insert k j v m,
              h.0,
              e.beq_iff j k,
              e.beq_iff k j,
            ),
            keys-insert-NoDup k v m h.1,
          )
  ]
