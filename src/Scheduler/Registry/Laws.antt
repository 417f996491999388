-- ===== src/Scheduler/Registry/Laws.antt =====
-- What the registry guarantees over every sequence of events.
use shiny_server.Prelude.{
  string_eq, ℤ, ℕ, ◌≤◌, ◌<◌, ◌≡◌, ◌≢◌, refl, List, [], ◌∷◌, Option, none, some, Option-cases, inl,
  inr, if◌then◌else◌, String, Text, arith, length, eq_iff, str_eq,
}
use native.Mathlib.Nat.{le_of_eq}
use shiny_server.Prelude.Dict.{
  lookup, remove, lookup-insert, lookup-remove, length-insert_present, length-remove,
}
use shiny_server.Scheduler.WorkerEntry.{WorkerEntry}
use shiny_server.Scheduler.Simple.{spawn, acquire_worker, within_limit}
use shiny_server.Scheduler.Workers.{
  Worker, Scheduler, spawn_worker, do_reject, on_connected, set_entry,
}
use shiny_server.Scheduler.Registry.{
  World, store, Settings, entries, find_scheduler, acquire_at, exits, Event, requested, failed,
  connected, used, exited, step, run, empty,
}

-- A new worker is started only for a scheduler that has none.
spawn-nil :
    (limit : Option ℤ) (url : Text) (ws : List (String × Worker))
    → acquire_worker limit url (entries ws) ≡ spawn
    → ws ≡ []
unfolding acquire_worker within_limit
spawn-nil limit url [] h = refl
spawn-nil none url ((id, w) ∷ ws) h = cc
spawn-nil (some l) url ((id, w) ∷ ws) h = ground arith

abbrev pub Solo : World → Type 0
Solo g = (r : ℕ) → length (g.heap r).workers ≤ 1

store-Solo :
    (g : World) (r : ℕ) (s : Scheduler)
    → Solo g
    → length s.workers ≤ 1
    → (q : ℕ) → length (store g.heap r s q).workers ≤ 1
unfolding store
store-Solo g r s v h q = ground (arith, v q)

find_scheduler-Solo : (key : String) (g : World) → Solo g → Solo (find_scheduler key g).0
unfolding find_scheduler
find_scheduler-Solo key g v q = ground (arith, v q)

spawn_worker-length :
    (id : String) (idle : Option ℤ) (s : Scheduler)
    → s.workers ≡ []
    → length (spawn_worker id idle s).workers ≤ 1
unfolding spawn_worker
spawn_worker-length id idle s h = ground arith

acquire_at-Solo :
    (set : Settings) (url : Text) (fresh : String) (r : ℕ) (g : World)
    → Solo g
    → Solo (acquire_at set url fresh r g).0
unfolding acquire_at
acquire_at-Solo set url fresh r g v q = ground (
  arith,
  v q,
  spawn-nil set.max_requests url (g.heap r).workers,
  spawn_worker-length fresh set.idle_timeout (g.heap r),
)

do_reject-length :
    (id : String) (s : Scheduler) → length (do_reject id s).workers ≤ length s.workers
unfolding do_reject
do_reject-length id s = ground (arith, length-remove id s.workers)

on_connected-length :
    (id : String) (s : Scheduler) → length (on_connected id s).workers ≤ length s.workers
unfolding on_connected
on_connected-length id s = elim (Option-cases (lookup id s.workers)) [
  | inl missing ↦ rw (missing, on_connected) (omega arith)
  | inr (w, found) ↦
      rw (found, on_connected) (le_of_eq (length-insert_present id _ w s.workers found))
]

set_entry-length :
    (id : String) (e : WorkerEntry) (s : Scheduler)
    → length (set_entry id e s).workers ≤ length s.workers
unfolding set_entry
set_entry-length id e s = elim (Option-cases (lookup id s.workers)) [
  | inl missing ↦ rw (missing, set_entry) (omega arith)
  | inr (w, found) ↦ rw (found, set_entry) (le_of_eq (length-insert_present id _ w s.workers found))
]

step-Solo : (e : Event) (g : World) → Solo g → Solo (step e g)
unfolding step
step-Solo (requested key set url fresh) g v q =
    acquire_at-Solo set url fresh (find_scheduler key g).1 (find_scheduler key g).0
      (find_scheduler-Solo key g v) q
step-Solo (failed r id) g v q =
    store-Solo g r _ v (omega (arith, v r, do_reject-length id (g.heap r))) q
step-Solo (connected r id) g v q =
    store-Solo g r _ v (omega (arith, v r, on_connected-length id (g.heap r))) q
step-Solo (used r id e) g v q =
    store-Solo g r _ v (omega (arith, v r, set_entry-length id e (g.heap r))) q
step-Solo (exited r id) g v q =
    store-Solo g r _ v (omega (arith, v r, length-remove id (g.heap r).workers)) q

-- When no scheduler has two workers in its table, none has two after any sequence of requests,
-- failures, connections and exits.
pub run-Solo : (es : List Event) (g : World) → Solo g → Solo (run es g)
unfolding run
run-Solo [] g v = v
run-Solo (e ∷ es) g v = run-Solo es (step e g) (step-Solo e g v)

-- A key is mapped to a scheduler that exists and was made for it.
abbrev pub Keyed : World → Type 0
Keyed g =
    (key : String) (r : ℕ)
    → lookup key g.registry ≡ some r
    → ((g.heap r).app_key ≡ key) × (r < g.next_ref)

find_scheduler-Keyed : (key : String) (g : World) → Keyed g → Keyed (find_scheduler key g).0
unfolding find_scheduler store
find_scheduler-Keyed key g v k r h =
    ground (arith, v k r, lookup-insert key k g.next_ref g.registry, eq_iff key k)

store-Keyed :
    (g : World) (r : ℕ) (s : Scheduler)
    → s.app_key ≡ (g.heap r).app_key
    → Keyed g
    → Keyed (record g { heap = store g.heap r s })
unfolding store
store-Keyed g r s e v k q h = ground (arith, v k q h)

acquire_at-Keyed :
    (set : Settings) (url : Text) (fresh : String) (r : ℕ) (g : World)
    → Keyed g
    → Keyed (acquire_at set url fresh r g).0
unfolding acquire_at spawn_worker store
acquire_at-Keyed set url fresh r g v k q h = ground (arith, v k q)

do_reject-key : (id : String) (s : Scheduler) → (do_reject id s).app_key ≡ s.app_key
unfolding do_reject
do_reject-key id s = ground arith

on_connected-key : (id : String) (s : Scheduler) → (on_connected id s).app_key ≡ s.app_key
unfolding on_connected
on_connected-key id s = ground arith

set_entry-key :
    (id : String) (e : WorkerEntry) (s : Scheduler) → (set_entry id e s).app_key ≡ s.app_key
unfolding set_entry
set_entry-key id e s = ground arith

exits-Keyed : (r : ℕ) (id : String) (g : World) → Keyed g → Keyed (exits r id g)
unfolding exits store
exits-Keyed r id g v k q h =
    ground
      (arith, v k q, lookup-remove (g.heap r).app_key k g.registry, eq_iff (g.heap r).app_key k)

step-Keyed : (e : Event) (g : World) → Keyed g → Keyed (step e g)
unfolding step
step-Keyed (requested key set url fresh) g v =
    acquire_at-Keyed set url fresh (find_scheduler key g).1 (find_scheduler key g).0
      (find_scheduler-Keyed key g v)
step-Keyed (failed r id) g v = store-Keyed g r _ (do_reject-key id (g.heap r)) v
step-Keyed (connected r id) g v = store-Keyed g r _ (on_connected-key id (g.heap r)) v
step-Keyed (used r id e) g v = store-Keyed g r _ (set_entry-key id e (g.heap r)) v
step-Keyed (exited r id) g v = exits-Keyed r id g v

run-Keyed : (es : List Event) (g : World) → Keyed g → Keyed (run es g)
unfolding run
run-Keyed [] g v = v
run-Keyed (e ∷ es) g v = run-Keyed es (step e g) (step-Keyed e g v)

-- After any events from the empty registry, a key leads to a scheduler that was made for that
-- key.
run-key :
    (es : List Event) (key : String) (r : ℕ)
    → lookup key (run es empty).registry ≡ some r
    → ((run es empty).heap r).app_key ≡ key
unfolding lookup
run-key es key r h = (run-Keyed es empty empty_keyed key r h).0
  where
    empty_keyed : Keyed empty
    empty_keyed k q e = cc

-- When the only worker of a scheduler exits, the key of the scheduler leaves the registry, and
-- every other key stays as it was.
pub exits-vacant :
    (r : ℕ) (id : String) (w : Worker) (g : World) (key : String)
    → (g.heap r).workers ≡ (id, w) ∷ []
    → lookup key (exits r id g).registry
      ≡ (if str_eq (g.heap r).app_key key then none else lookup key g.registry)
unfolding exits remove
exits-vacant r id w g key h =
    ground (arith, eq_iff id id, lookup-remove (g.heap r).app_key key g.registry)

-- When a process exits whose scheduler has no workers in its table, and whose key is mapped to
-- another scheduler, the key is deleted, and that other scheduler keeps its workers.
pub exits-orphan :
    (r q : ℕ) (id : String) (g : World)
    → (g.heap r).workers ≡ []
    → r ≢ q
    → lookup (g.heap r).app_key g.registry ≡ some q
    → (lookup (g.heap r).app_key (exits r id g).registry ≡ none)
      × (((exits r id g).heap q).workers ≡ (g.heap q).workers)
unfolding exits remove store
exits-orphan r q id g h ne found = ground (
  arith,
  lookup-remove (g.heap r).app_key (g.heap r).app_key g.registry,
  eq_iff (g.heap r).app_key (g.heap r).app_key,
)
