-- ===== src/Router/Sequence/First.antt =====
-- `forEachPromise_p` against its documentation.
use shiny_server.Prelude.{
  ◌≡◌, refl, Bool, true, false, List, [], ◌∷◌, ◌++◌, String, All, Bool-cases, inl, inr, ap,
}
use shiny_server.Router.Sequence.{
  Call, resolves, rejects, hangs, throws, Settled, resolved, rejected, pending, try_next,
  for_each_promise,
}

module _ {ℓ κ} {A : Type ℓ} {V : Type κ} (iterator : A → Call V) (accept : V → Bool)
    (default_value : V) where
  -- The element gives a value that is not accepted.
  abbrev pub Passes : A → Type κ
  Passes x = (v : V) × (iterator x ≡ resolves v) × (accept v ≡ false)

  -- What an element that does not pass makes of the whole.
  pub data Decides (x : A) : Settled V → Type κ where
    by_value : (v : V) → iterator x ≡ resolves v → accept v ≡ true → Decides x (resolved v)
    by_error : (err : String) → iterator x ≡ rejects err → Decides x (rejected err)
    by_exception : (err : String) → iterator x ≡ throws err → Decides x (rejected err)
    never : iterator x ≡ hangs → Decides x pending

  pub data IsFirst (xs : List A) : Settled V → Type (ℓ ⊔ κ) where
    exhausted : All Passes xs → IsFirst xs (resolved default_value)
    first :
        (before : List A) (x : A) (after : List A) (s : Settled V)
        → xs ≡ before ++ (x ∷ after)
        → All Passes before
        → Decides x s
        → IsFirst xs s

  later : (x : A) (xs : List A) (s : Settled V) → Passes x → IsFirst xs s → IsFirst (x ∷ xs) s
  later x xs s p (exhausted ps) = exhausted (p, ps)
  later x xs s p (first before y after _ e ps d) =
      first (x ∷ before) y after s (ap (λ t. x ∷ t) e) (p, ps) d

  try_next-IsFirst :
      (x : A) (xs : List A) (c : Call V) (s : Settled V)
      → iterator x ≡ c
      → IsFirst xs s
      → IsFirst (x ∷ xs) (try_next iterator accept default_value c s)
  unfolding try_next
  try_next-IsFirst x xs (resolves v) s e k = elim (Bool-cases (accept v)) [
    | inl good ↦ rw good (first [] x xs _ refl tt (by_value v e good))
    | inr bad ↦ rw bad (later x xs s (v, e, bad) k)
  ]
  try_next-IsFirst x xs (rejects err) s e k = first [] x xs _ refl tt (by_error err e)
  try_next-IsFirst x xs hangs s e k = first [] x xs _ refl tt (never e)
  try_next-IsFirst x xs (throws err) s e k = first [] x xs _ refl tt (by_exception err e)

  -- The promise of `forEachPromise_p` is the default value when every element gives a value that
  -- is not accepted, and otherwise is decided by the first element that does not: an accepted
  -- value resolves it, an error or an exception rejects it, and a promise that never settles
  -- leaves it pending.
  pub for_each_promise-IsFirst :
      (xs : List A) → IsFirst xs (for_each_promise iterator accept default_value xs)
  unfolding for_each_promise
  for_each_promise-IsFirst [] = exhausted tt
  for_each_promise-IsFirst (x ∷ xs) =
      try_next-IsFirst x xs (iterator x) _ refl (for_each_promise-IsFirst xs)
