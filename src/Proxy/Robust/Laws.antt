-- ===== src/Proxy/Robust/Laws.antt =====
-- What holds of robust connections over every sequence of events.
use mathlib.Core.List.{concat-ne-nil}
use shiny_server.Prelude.{
  str_eq, subst, ℕ, ◌≡◌, ◌≢◌, ◌↔◌, refl, Bool, true, false, List, [], ◌∷◌, Option, none, some,
  if◌then◌else◌, Text, arith, String, string_eq, Option-cases, Bool-cases, inl, inr, eq_iff,
}
use shiny_server.Prelude.Dict.{lookup, insert, remove, lookup-insert, lookup-remove}
use shiny_server.Proxy.ErrorCode.{bad_identifier}
use shiny_server.Proxy.Robust.{
  ClientLib, Ending, Out, close_conn, Answer, handled, RobustConn, Connections, get_info, set,
  create, answer, robustify_info, robustify, on_data, on_ending, on_timeout, write, Event, arrives,
  gets, loses, times_out, sends, acks, at_session, step, run,
}

module _ (lib : ClientLib) where
  -- The timer runs exactly while there are events to emit.
  abbrev pub IsArmed : RobustConn lib → Type 0
  IsArmed r = (r.timer ≡ true) ↔ (r.withheld ≢ [])

  set-IsArmed :
      (id : String) (c : ℕ) (resume : Bool) (r : RobustConn lib) → IsArmed (set lib id c resume r).0
  unfolding set
  set-IsArmed id c resume r = ground arith

  on_data-IsArmed :
      (id : String) (msg : Text) (r : RobustConn lib) → IsArmed r → IsArmed (on_data lib id msg r).0
  unfolding on_data
  on_data-IsArmed id msg r h = ground arith

  on_ending-IsArmed :
      (id : String) (e : Ending) (r : RobustConn lib) → IsArmed (on_ending lib id e r).0
  unfolding on_ending
  on_ending-IsArmed id e r = (λ _. concat-ne-nil e r.withheld, λ _. refl)

  write-IsArmed :
      (ready : Bool) (msg : Text) (r : RobustConn lib)
      → IsArmed r
      → IsArmed (write lib ready msg r).0
  unfolding write
  write-IsArmed ready msg r h = h

  abbrev pub Armed : Connections lib → Type 0
  Armed t = (id : String) (r : RobustConn lib) → lookup id t ≡ some r → IsArmed r

  insert-Armed :
      (id : String) (s : RobustConn lib) (t : Connections lib)
      → Armed t
      → IsArmed s
      → Armed (insert id s t)
  insert-Armed id s t h k j r e = elim (Bool-cases (str_eq id j)) [
    | inl same ↦
        let written : s ≡ r = ground (arith, lookup-insert id j s t) in subst IsArmed written k
    | inr other ↦ h j r (ground (arith, lookup-insert id j s t))
  ]

  remove-Armed : (id : String) (t : Connections lib) → Armed t → Armed (remove id t)
  remove-Armed id t h j r e = h j r (ground (arith, lookup-remove id j t))

  create-IsArmed : (c : ℕ) → IsArmed (create lib c)
  unfolding create
  create-IsArmed c = ground arith

  if-Armed :
      (b : Bool) (x y : Connections lib × Answer × List Out)
      → Armed x.0
      → Armed y.0
      → Armed (if b then x else y).0
  if-Armed true x y h k = h
  if-Armed false x y h k = k

  answer-Armed :
      (id : String) (existing : Bool) (c : ℕ) (t : Connections lib) (o : Option (RobustConn lib))
      → Armed t
      → Armed (answer lib id existing c t o).0
  unfolding answer
  answer-Armed id true c t none h = h
  answer-Armed id false c t none h = insert-Armed id (create lib c) t h (create-IsArmed c)
  answer-Armed id true c t (some r) h = insert-Armed id _ t h (set-IsArmed id c true r)
  answer-Armed id false c t (some r) h =
      if-Armed r.nascent _ _ (insert-Armed id _ t h (set-IsArmed id c false r)) h

  robustify-Armed :
      (i : Option (String × Bool)) (c : ℕ) (t : Connections lib)
      → Armed t
      → Armed (robustify_info lib i c t).0
  robustify-Armed none c t h = unfold robustify_info in h
  robustify-Armed (some (id, existing)) c t h = elim (Bool-cases (str_eq id "none")) [
    | inl no_id ↦ unfold robustify_info in rw no_id h
    | inr an_id ↦ unfold robustify_info in rw an_id (answer-Armed id existing c t (lookup id t) h)
  ]

  at_session-Armed :
      (id : String) (f : RobustConn lib → RobustConn lib × List Out) (t : Connections lib)
      → ((r : RobustConn lib) → IsArmed r → IsArmed (f r).0)
      → Armed t
      → Armed (at_session lib id f t).0
  unfolding at_session
  at_session-Armed id f t keep h = elim (Option-cases (lookup id t)) [
    | inl missing ↦ rw (missing, at_session) h
    | inr (r, found) ↦ rw (found, at_session) (insert-Armed id _ t h (keep r (h id r found)))
  ]

  on_timeout-Armed : (id : String) (t : Connections lib) → Armed t → Armed (on_timeout lib id t).0
  unfolding on_timeout
  on_timeout-Armed id t h = elim (Option-cases (lookup id t)) [
    | inl missing ↦ rw (missing, on_timeout) h
    | inr (r, found) ↦ rw (found, on_timeout) (remove-Armed id t h)
  ]

  step-Armed : (e : Event lib) (t : Connections lib) → Armed t → Armed (step lib e t).0
  unfolding step robustify
  step-Armed (arrives n o c) t h = robustify-Armed (get_info lib n o) c t h
  step-Armed (gets id msg) t h = at_session-Armed id _ t (on_data-IsArmed id msg) h
  step-Armed (loses id e) t h = at_session-Armed id _ t (λ r _. on_ending-IsArmed id e r) h
  step-Armed (times_out id) t h = on_timeout-Armed id t h
  step-Armed (sends id ready msg) t h = at_session-Armed id _ t (write-IsArmed ready msg) h
  step-Armed (acks id ready) t h = at_session-Armed id _ t (λ r k. k) h

  pub run-Armed_from :
      (es : List (Event lib)) (t : Connections lib) → Armed t → Armed (run lib es t)
  unfolding run
  run-Armed_from [] t h = h
  run-Armed_from (e ∷ es) t h = run-Armed_from es (step lib e t).0 (step-Armed e t h)

-- When the wait for a lost connection ends, a client that asks to resume the session is turned
-- away with the code for an unknown id, and what the table holds for other ids stays.
pub on_timeout-ends :
    (lib : ClientLib) (id j : String) (c : ℕ) (r : RobustConn lib) (t : Connections lib)
    → str_eq id "none" ≡ false
    → j ≢ id
    → lookup id t ≡ some r
    → (robustify_info lib (some (id, true)) c (on_timeout lib id t).0
        ≡ ((on_timeout lib id t).0, handled, close_conn c bad_identifier ∷ []))
      × (lookup j (on_timeout lib id t).0 ≡ lookup j t)
on_timeout-ends lib id j c r t named ne found =
    let left : (on_timeout lib id t).0 ≡ remove id t =
      unfold on_timeout in rw (found, on_timeout) in
    let gone : lookup id (remove id t) ≡ none =
      ground (arith, lookup-remove id id t, eq_iff id id) in
    rw left
      (unfold robustify_info in rw (named, gone), ground (arith, lookup-remove id j t, eq_iff id j))
