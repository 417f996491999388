-- ===== src/Scheduler/Registry.antt =====
-- lib/scheduler/scheduler-registry.js. Schedulers are objects: the registry maps keys to
-- references, and a process that outlives its entry still refers to its scheduler.
pub mod Laws
use shiny_server.Prelude.{
  string_eq, ℤ, ℕ, suc, ◌+◌, Bool, true, false, List, [], ◌∷◌, Option, none, some, map, ◌==◌,
  if◌then◌else◌, String, Text,
}
use shiny_server.Prelude.Dict.{lookup, insert, remove}
use shiny_server.Scheduler.WorkerEntry.{WorkerEntry}
use shiny_server.Scheduler.Simple.{Decision, reuse, out_of_capacity, spawn, acquire_worker}
use shiny_server.Scheduler.Workers.{
  Worker, Scheduler, Exit, spawn_worker, do_reject, on_connected, on_exit, set_entry,
}

pub record World : Type 0 where
  pub registry : List (String × ℕ)
  pub heap : ℕ → Scheduler
  pub next_ref : ℕ

unfoldable pub store : (ℕ → Scheduler) → ℕ → Scheduler → ℕ → Scheduler
store h r s q = if q == r then s else h q

-- The settings of an application that the registry hands on.
pub record Settings : Type 0 where
  pub max_requests : Option ℤ
  pub idle_timeout : Option ℤ

pub data Reply : Type 0 where
  worker : ℕ → String → Reply
  refused : Reply

abbrev pub entries : List (String × Worker) → List (String × WorkerEntry)
entries [] = []
entries ((id, w) ∷ ws) = (id, w.entry) ∷ entries ws

-- The reference of the scheduler for `key`, which is created if there is none.
unfoldable pub find_scheduler : String → World → World × ℕ
unfolding lookup insert store
find_scheduler key g = elim (lookup key g.registry) [
  | some r ↦ (g, r)
  | none ↦ (
    record {
      registry = insert key g.next_ref g.registry;
      heap = store g.heap g.next_ref (record { app_key = key; workers = [] });
      next_ref = g.next_ref + 1;
    },
    g.next_ref,
  )
]

-- `acquireWorker` of the scheduler `r`; `fresh` is the random id for a new worker.
unfoldable pub acquire_at : Settings → Text → String → ℕ → World → World × Reply
unfolding acquire_worker spawn_worker store
acquire_at set url fresh r g =
    elim (acquire_worker set.max_requests url (entries (g.heap r).workers)) [
      | reuse id w ↦ (g, worker r id)
      | out_of_capacity ↦ (g, refused)
      | spawn ↦ (
        record g { heap = store g.heap r (spawn_worker fresh set.idle_timeout (g.heap r)) },
        worker r fresh,
      )
    ]

unfoldable pub get_worker : String → Settings → Text → String → World → World × Reply
unfolding find_scheduler acquire_at
get_worker key set url fresh g = let (h, r) = find_scheduler key g in acquire_at set url fresh r h

-- A process of the scheduler `r` exits; the listener of `vacantSched` deletes the key.
unfoldable pub exits : ℕ → String → World → World
unfolding on_exit remove store
exits r id g =
    let e = on_exit id (g.heap r) in
    record g {
      heap = store g.heap r e.scheduler;
      registry = if e.vacant then remove (g.heap r).app_key g.registry else g.registry;
    }

unfoldable pub modify : (Scheduler → Scheduler) → ℕ → World → World
unfolding store
modify f r g = record g { heap = store g.heap r (f (g.heap r)) }

pub data Event : Type 0 where
  requested : String → Settings → Text → String → Event
  failed : ℕ → String → Event
  connected : ℕ → String → Event
  used : ℕ → String → WorkerEntry → Event
  exited : ℕ → String → Event

unfoldable pub step : Event → World → World
unfolding get_worker modify exits do_reject on_connected set_entry
step (requested key set url fresh) g = (get_worker key set url fresh g).0
step (failed r id) g = modify (do_reject id) r g
step (connected r id) g = modify (on_connected id) r g
step (used r id e) g = modify (set_entry id e) r g
step (exited r id) g = exits r id g

unfoldable pub run : List Event → World → World
unfolding step
run [] g = g
run (e ∷ es) g = run es (step e g)

abbrev pub empty : World
empty = record { registry = []; heap = λ r. record { app_key = ""; workers = [] }; next_ref = 0 }
