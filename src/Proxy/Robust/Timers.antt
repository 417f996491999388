-- ===== src/Proxy/Robust/Timers.antt =====
-- The timers of the runtime, as the calls of setTimeout and clearTimeout leave them.
use shiny_server.Prelude.{
  str_eq, subst, ℕ, ◌≡◌, ◌≢◌, ◌↔◌, refl, sym, ap, ◌∙◌, Bool, true, false, List, [], ◌∷◌, Option,
  none, some, if◌then◌else◌, String, string_eq, Bool-cases, inl, inr, eq_iff,
}
use shiny_server.Prelude.Dict.{lookup, insert, remove, lookup-insert, lookup-remove}
use shiny_server.Proxy.ErrorCode.{bad_identifier}
use shiny_server.Proxy.Robust.{
  ClientLib, Out, close_conn, Answer, handled, unchanged, RobustConn, Connections, get_info, set,
  create, answer, robustify_info, robustify, on_data, on_ending, emit_all, on_timeout, write,
  on_ack_timeout, Event, arrives, gets, loses, times_out, sends, acks, at_session, step, run,
}
use shiny_server.Proxy.Robust.Laws.{Armed, run-Armed_from}
use shiny_server.Proxy.Robust.Calls.{
  running, eq_refl, flag, Keeps, running-emit_all, set-Keeps, on_data-Keeps, on_ending-Keeps,
  write-Keeps, acks-Keeps,
}

-- The end of a wait is the end of its timer.
abbrev before : {lib : ClientLib} → String → Event lib → Bool → Bool
before id (times_out i) b = if str_eq i id then false else b
before id _ b = b

module _ (lib : ClientLib) where
  -- Whether the timer for an id runs behind events.
  unfoldable pub timer_runs : String → List (Event lib) → Connections lib → Bool → Bool
  unfolding step
  timer_runs id [] t b = b
  timer_runs id (e ∷ es) t b =
      let next = step lib e t in timer_runs id es next.0 (running id next.1 (before id e b))

  -- The timers run that the sessions of a table say.
  abbrev Agrees : Connections lib → (String → Bool) → Type 0
  Agrees t clock = (j : String) → clock j ≡ flag lib (lookup j t)

  insert-Agrees :
      (id : String) (t : Connections lib) (r : RobustConn lib) (p : RobustConn lib × List Out)
      (clock : String → Bool)
      → Agrees t clock
      → flag lib (lookup id t) ≡ r.timer
      → Keeps lib id r p
      → Agrees (insert id p.0 t) (λ j. running j p.1 (clock j))
  insert-Agrees id t r (s, os) clock h same (mine, others) j = elim (Bool-cases (str_eq id j)) [
    | inl here ↦
        subst (λ i. running i os (clock i) ≡ flag lib (lookup i (insert id s t)))
          ((eq_iff id j).0 here)
          (ap (running id os) (h id ∙ same)
            ∙ mine
            ∙ ap (flag lib) (
                sym (
                  lookup-insert id id s t
                  ∙ ap (λ b. if b then some s else lookup id t) (eq_refl id))))
    | inr there ↦
        others j (clock j) there
        ∙ h j
        ∙ ap (flag lib)
            (sym (lookup-insert id j s t ∙ ap (λ b. if b then some s else lookup j t) there))
  ]

  -- A step on the table: the timers that ran, but for that of an id whose wait has ended.
  abbrev Stays : Connections lib → (String → Bool) → Connections lib × List Out → Type 0
  Stays t clock (u, os) = Agrees t clock → Agrees u (λ j. running j os (clock j))

  at_session_at :
      (id : String) (f : RobustConn lib → RobustConn lib × List Out) (t : Connections lib)
      (clock : String → Bool) (o : Option (RobustConn lib))
      → ((r : RobustConn lib) → Keeps lib id r (f r))
      → lookup id t ≡ o
      → Stays t clock
          (elim o [ none ↦ (t, []) | some r ↦ (let (s, es) = f r in (insert id s t, es)) ])
  at_session_at id f t clock none k e h = h
  at_session_at id f t clock (some r) k e h =
      insert-Agrees id t r (f r) clock h (ap (flag lib) e) (k r)

  at_session-Stays :
      (id : String) (f : RobustConn lib → RobustConn lib × List Out) (t : Connections lib)
      (clock : String → Bool)
      → ((r : RobustConn lib) → Keeps lib id r (f r))
      → Stays t clock (at_session lib id f t)
  unfolding at_session
  at_session-Stays id f t clock k = at_session_at id f t clock (lookup id t) k refl

  abbrev Answers : Connections lib → (String → Bool) → Connections lib × Answer × List Out → Type 0
  Answers t clock (u, a, os) = Agrees t clock → Agrees u (λ j. running j os (clock j))

  if-Answers :
      (b : Bool) (t : Connections lib) (clock : String → Bool)
      (x y : Connections lib × Answer × List Out)
      → Answers t clock x
      → Answers t clock y
      → Answers t clock (if b then x else y)
  if-Answers true t clock x y h k = h
  if-Answers false t clock x y h k = k

  answer-Stays :
      (id : String) (existing : Bool) (c : ℕ) (t : Connections lib) (clock : String → Bool)
      (o : Option (RobustConn lib))
      → lookup id t ≡ o
      → Answers t clock (answer lib id existing c t o)
  unfolding answer create
  answer-Stays id true c t clock none e h = h
  answer-Stays id false c t clock none e h =
      insert-Agrees id t (create lib c) (create lib c, []) clock h (ap (flag lib) e)
        (refl, λ j b ne. refl)
  answer-Stays id true c t clock (some r) e h =
      insert-Agrees id t r (set lib id c true r) clock h (ap (flag lib) e)
        (set-Keeps lib id c true r)
  answer-Stays id false c t clock (some r) e h =
      if-Answers r.nascent t clock
        (insert id (set lib id c false r).0 t, handled, (set lib id c false r).1)
        (t, handled, close_conn c bad_identifier ∷ [])
        (λ k.
          insert-Agrees id t r (set lib id c false r) clock k (ap (flag lib) e)
            (set-Keeps lib id c false r))
        (λ k. k) h

  robustify-Stays :
      (i : Option (String × Bool)) (c : ℕ) (t : Connections lib) (clock : String → Bool)
      → Answers t clock (robustify_info lib i c t)
  unfolding robustify_info
  robustify-Stays none c t clock h = h
  robustify-Stays (some (id, existing)) c t clock h =
      if-Answers (str_eq id "none") t clock (t, unchanged c, [])
        (answer lib id existing c t (lookup id t)) (λ k. k)
        (answer-Stays id existing c t clock (lookup id t) refl) h

  abbrev Ends : String → (String → Bool) → Connections lib × List Out → Type 0
  Ends id clock (u, os) = Agrees u (λ j. running j os (if str_eq id j then false else clock j))

  on_timeout_at :
      (id : String) (t : Connections lib) (clock : String → Bool) (o : Option (RobustConn lib))
      → lookup id t ≡ o
      → Agrees t clock
      → Ends id clock
          (elim o [ none ↦ (t, []) | some r ↦ (remove id t, emit_all lib id r.withheld) ])
  on_timeout_at id t clock none e h j = elim (Bool-cases (str_eq id j)) [
    | inl here ↦
        ap (λ b. if b then false else clock j) here
        ∙ ap (flag lib) (sym (ap (λ i. lookup i t) (sym ((eq_iff id j).0 here)) ∙ e))
    | inr there ↦ ap (λ b. if b then false else clock j) there ∙ h j
  ]
  on_timeout_at id t clock (some r) e h j =
      running-emit_all lib j id r.withheld _ ∙ elim (Bool-cases (str_eq id j)) [
        | inl here ↦
            ap (λ b. if b then false else clock j) here
            ∙ ap (flag lib)
                (sym (lookup-remove id j t ∙ ap (λ b. if b then none else lookup j t) here))
        | inr there ↦
            ap (λ b. if b then false else clock j) there
            ∙ h j
            ∙ ap (flag lib)
                (sym (lookup-remove id j t ∙ ap (λ b. if b then none else lookup j t) there))
      ]

  step-Agrees :
      (e : Event lib) (t : Connections lib) (clock : String → Bool)
      → Agrees t clock
      → Agrees (step lib e t).0 (λ j. running j (step lib e t).1 (before j e (clock j)))
  unfolding step robustify on_timeout
  step-Agrees (arrives n o c) t clock h = robustify-Stays (get_info lib n o) c t clock h
  step-Agrees (gets id msg) t clock h =
      at_session-Stays id (on_data lib id msg) t clock (on_data-Keeps lib id msg) h
  step-Agrees (loses id e) t clock h =
      at_session-Stays id (on_ending lib id e) t clock (on_ending-Keeps lib id e) h
  step-Agrees (times_out id) t clock h = on_timeout_at id t clock (lookup id t) refl h
  step-Agrees (sends id ready msg) t clock h =
      at_session-Stays id (write lib ready msg) t clock (write-Keeps lib id ready msg) h
  step-Agrees (acks id ready) t clock h =
      at_session-Stays id (λ r. (r, on_ack_timeout lib ready r)) t clock (acks-Keeps lib id ready) h

  run-Agrees :
      (es : List (Event lib)) (t : Connections lib) (clock : String → Bool)
      → Agrees t clock
      → Agrees (run lib es t) (λ j. timer_runs j es t (clock j))
  unfolding run timer_runs
  run-Agrees [] t clock h = h
  run-Agrees (e ∷ es) t clock h =
      run-Agrees es (step lib e t).0 (λ j. running j (step lib e t).1 (before j e (clock j)))
        (step-Agrees e t clock h)

  -- A session is in the table and withholds an event.
  abbrev pub Withholds : Option (RobustConn lib) → Type 0
  Withholds none = ⊥
  Withholds (some r) = r.withheld ≢ []

  flag_iff :
      (id : String) (t : Connections lib) (clock : Bool) (o : Option (RobustConn lib))
      → Armed lib t
      → lookup id t ≡ o
      → clock ≡ flag lib o
      → (clock ≡ true) ↔ Withholds o
  flag_iff id t clock none a e c = (λ on. cc (on, c), λ w. absurd w)
  flag_iff id t clock (some r) a e c = let h = a id r e in (λ on. h.0 (sym c ∙ on), λ w. c ∙ h.1 w)

-- After every sequence of events, the timer for an id that the calls of setTimeout and clearTimeout
-- have left, and whose end has not come, runs exactly where there is a session of that id that
-- withholds an event.
pub run-Armed :
    (lib : ClientLib) (es : List (Event lib)) (id : String)
    → (timer_runs lib id es [] false ≡ true) ↔ Withholds lib (lookup id (run lib es []))
unfolding lookup
run-Armed lib es id =
    flag_iff lib id (run lib es []) (timer_runs lib id es [] false) (lookup id (run lib es []))
      (run-Armed_from lib es [] (λ j s f. cc)) refl
      (run-Agrees lib es [] (λ j. false) (λ j. refl) id)
