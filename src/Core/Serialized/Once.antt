-- ===== src/Core/Serialized/Once.antt =====
-- What holds of a serialized function over every sequence of events.
use shiny_server.Prelude.{
  ℕ, zero, suc, ◌+◌, ◌≡◌, refl, sym, subst, Bool, true, false, List, [], ◌∷◌, ◌++◌, Option, none,
  some, length, length-append, append-nil, append_assoc, arith, ◌==◌, if◌then◌else◌,
}
use shiny_server.Core.Serialized.{
  Current, idle, running, over, State, fresh, begin, call_at, call, settle_at, settle, reset_at,
  reset, keep_first, take_at, retry_at, retry, Event, called, retried, settled, cleared, step, run,
}

-- How often a call is in a list.
abbrev pub count : ℕ → List ℕ → ℕ
count c [] = 0
count c (d ∷ ds) = (if d == c then 1 else 0) + count c ds

-- The calls from elsewhere among events.
abbrev pub calls : List Event → List ℕ
calls [] = []
calls (called c ∷ es) = c ∷ calls es
calls (retried i ∷ es) = calls es
calls (settled ∷ es) = calls es
calls (cleared ∷ es) = calls es

abbrev pub pending : Current → ℕ
pending idle = 0
pending (running c) = 1
pending (over c) = 0

abbrev pub Waits : Current → List ℕ → Type 0
Waits (running c) waiting = Unit {0}
Waits idle waiting = waiting ≡ []
Waits (over c) waiting = waiting ≡ []

-- What holds behind a list of calls: each is, as often as it was made, among those that have begun,
-- those on which the function threw, those that wait for a pending promise, and those whose callback
-- is to run; at most one of those that have begun is not settled; and none waits where none is pending.
pub record AtMostOne (cs : List ℕ) (s : State) : Type 0 where
  pub kept :
      (c : ℕ)
      → count c s.started + (count c s.thrown + (count c s.waiting + count c s.queued)) ≡ count c cs
  pub single : length s.started ≡ s.ended + pending s.current
  pub awaited : Waits s.current s.waiting

count-append : (c : ℕ) (xs ys : List ℕ) → count c (xs ++ ys) ≡ count c xs + count c ys
count-append c [] ys = omega arith
count-append c (x ∷ xs) ys = omega (arith, count-append c xs ys)

-- The same, but for a call that is neither begun, waiting nor queued.
record Owes (c : ℕ) (cs : List ℕ) (s : State) : Type 0 where
  kept :
      (d : ℕ)
      → count d (c ∷ [])
          + (count d s.started + (count d s.thrown + (count d s.waiting + count d s.queued)))
        ≡ count d cs
  single : length s.started ≡ s.ended + pending s.current
  awaited : Waits s.current s.waiting

begin-AtMostOne :
    (threw : Bool) (c : ℕ) (cs : List ℕ) (s : State)
    → s.current ≡ idle
    → Owes c cs s
    → AtMostOne cs (begin threw c s)
unfolding begin
begin-AtMostOne true c cs s e h = record {
  kept = λ d. omega (arith, h.kept d, count-append d s.thrown (c ∷ []));
  single = h.single;
  awaited = h.awaited;
}
begin-AtMostOne false c cs s e h =
    let at_rest = subst (λ o. length s.started ≡ s.ended + pending o) e h.single in
    record {
      kept = λ d. omega (arith, h.kept d, count-append d s.started (c ∷ []));
      single = omega (arith, at_rest, length-append s.started (c ∷ []));
      awaited = tt;
    }

call_at-AtMostOne :
    (throws : ℕ → Bool) (o : Current) (c : ℕ) (cs : List ℕ) (s : State)
    → s.current ≡ o
    → Owes c cs s
    → AtMostOne cs (call_at throws o c s)
unfolding call_at
call_at-AtMostOne throws idle c cs s e h = begin-AtMostOne (throws c) c cs s e h
call_at-AtMostOne throws (running p) c cs s e h = record {
  kept = λ d. omega (arith, h.kept d, count-append d s.waiting (c ∷ []));
  single = h.single;
  awaited = subst (λ o. Waits o (s.waiting ++ (c ∷ []))) (sym e) tt;
}
call_at-AtMostOne throws (over p) c cs s e h = record {
  kept = λ d. omega (arith, h.kept d, count-append d s.queued (c ∷ []));
  single = h.single;
  awaited = h.awaited;
}

settle_at-AtMostOne :
    (o : Current) (cs : List ℕ) (s : State)
    → s.current ≡ o
    → AtMostOne cs s
    → AtMostOne cs (settle_at o s)
unfolding settle_at
settle_at-AtMostOne idle cs s e h = h
settle_at-AtMostOne (over c) cs s e h = h
settle_at-AtMostOne (running c) cs s e h =
    let at_work = subst (λ o. length s.started ≡ s.ended + pending o) e h.single in
    record {
      kept = λ d. omega (arith, h.kept d, count-append d s.queued s.waiting);
      single = omega (arith, at_work);
      awaited = refl;
    }

reset_at-AtMostOne :
    (o : Current) (cs : List ℕ) (s : State)
    → s.current ≡ o
    → AtMostOne cs s
    → AtMostOne cs (reset_at o s)
unfolding reset_at
reset_at-AtMostOne idle cs s e h = h
reset_at-AtMostOne (running c) cs s e h = h
reset_at-AtMostOne (over c) cs s e h = record {
  kept = h.kept;
  single = subst (λ o. length s.started ≡ s.ended + pending o) e h.single;
  awaited = subst (λ o. Waits o s.waiting) e h.awaited;
}

-- What `take_at` gives of a list: nothing, or an element of it and the others.
abbrev Splits : List ℕ → Option (ℕ × List ℕ) → Type 0
Splits cs none = Unit {0}
Splits cs (some (d, ds)) = (x : ℕ) → count x cs ≡ count x (d ∷ ds)

keep_first-Splits :
    (c : ℕ) (cs : List ℕ) (o : Option (ℕ × List ℕ)) → Splits cs o → Splits (c ∷ cs) (keep_first c o)
unfolding keep_first
keep_first-Splits c cs none h = tt
keep_first-Splits c cs (some (d, ds)) h = λ x. omega (arith, h x)

take_at-Splits : (i : ℕ) (cs : List ℕ) → Splits cs (take_at i cs)
unfolding take_at
take_at-Splits i [] = tt
take_at-Splits zero (c ∷ cs) = λ x. refl
take_at-Splits (suc i) (c ∷ cs) = keep_first-Splits c cs (take_at i cs) (take_at-Splits i cs)

retry_at-AtMostOne :
    (throws : ℕ → Bool) (o : Option (ℕ × List ℕ)) (cs : List ℕ) (s : State)
    → Splits s.queued o
    → AtMostOne cs s
    → AtMostOne cs (retry_at throws o s)
unfolding retry_at call
retry_at-AtMostOne throws none cs s t h = h
retry_at-AtMostOne throws (some (c, rest)) cs s t h =
    let taken = record s { queued = rest } in
    call_at-AtMostOne throws s.current c cs taken refl
      (record { kept = λ d. omega (arith, h.kept d, t d); single = h.single; awaited = h.awaited })

run-AtMostOne_from :
    (throws : ℕ → Bool) (es : List Event) (cs : List ℕ) (s : State)
    → AtMostOne cs s
    → AtMostOne (cs ++ calls es) (run throws es s)
unfolding run step call retry settle reset
run-AtMostOne_from throws [] cs s h = subst (λ xs. AtMostOne xs s) (sym (append-nil cs)) h
run-AtMostOne_from throws (called c ∷ es) cs s h =
    subst (λ xs. AtMostOne xs (run throws es (call throws c s)))
      (append_assoc cs (c ∷ []) (calls es))
      (run-AtMostOne_from throws es (cs ++ (c ∷ [])) (call throws c s) (
        call_at-AtMostOne throws s.current c (cs ++ (c ∷ [])) s refl (record {
          kept = λ d. omega (arith, h.kept d, count-append d cs (c ∷ []));
          single = h.single;
          awaited = h.awaited;
        })))
run-AtMostOne_from throws (retried i ∷ es) cs s h =
    run-AtMostOne_from throws es cs (retry throws i s)
      (retry_at-AtMostOne throws (take_at i s.queued) cs s (take_at-Splits i s.queued) h)
run-AtMostOne_from throws (settled ∷ es) cs s h =
    run-AtMostOne_from throws es cs (settle s) (settle_at-AtMostOne s.current cs s refl h)
run-AtMostOne_from throws (cleared ∷ es) cs s h =
    run-AtMostOne_from throws es cs (reset s) (reset_at-AtMostOne s.current cs s refl h)

-- Of a function that throws or returns a promise, and does not call the wrapped function before
-- that: whatever calls come in whatever order with the ends of runs and the callbacks of promises,
-- at most one run is not settled. No call is lost or made twice: each has begun a run, or the
-- function threw on it, or it waits for a run that is pending, or its callback is to run.
pub run-AtMostOne :
    (throws : ℕ → Bool) (es : List Event) → AtMostOne (calls es) (run throws es fresh)
unfolding fresh
run-AtMostOne throws es =
    run-AtMostOne_from throws es [] fresh
      (record { kept = λ d. refl; single = refl; awaited = refl })
