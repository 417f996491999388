-- ===== src/Scheduler/Workers.antt =====
-- lib/scheduler/scheduler.js: the worker table of one scheduler, and the waits of
-- `connectEndpoint_p`.
pub mod Connect
use shiny_server.Prelude.{
  string_eq, ℤ, pos, negsuc, thousand, ℕ, Bool, true, false, List, [], ◌∷◌, Option, none, some, ltb,
  map, if◌then◌else◌, String,
}
use shiny_server.Prelude.Dict.{lookup, insert, remove}
use shiny_server.Scheduler.WorkerEntry.{WorkerEntry, create, start_idle_timer, close}

-- The promise of the worker handle. A rejected one is no longer in the table.
pub data Promise : Type 0 where
  unresolved fulfilled : Promise

pub record Worker : Type 0 where
  pub entry : WorkerEntry
  pub promise : Promise

pub record Scheduler : Type 0 where
  pub app_key : String
  pub workers : List (String × Worker)

-- 2^31 - 1, the longest wait of `setTimeout`
abbrev pub max_timeout : ℕ
max_timeout = 2147483647

-- `idleTimeout` of `spawnWorker`; `none` stands for settings that do not give it.
unfoldable pub idle_timeout_of : Option ℤ → ℤ
idle_timeout_of none = pos 5000
idle_timeout_of (some z) = elim (thousand z) [
  | pos n ↦ if ltb max_timeout n then pos max_timeout else pos n
  | negsuc n ↦ negsuc n
]

-- `spawnWorker` up to the allocation of an endpoint: `id` is the random id of the entry.
unfoldable pub spawn_worker : String → Option ℤ → Scheduler → Scheduler
unfolding create idle_timeout_of insert
spawn_worker id idle s = record s {
  workers =
      insert id (record { entry = create (idle_timeout_of idle); promise = unresolved }) s.workers;
}

-- `doReject`: a no-op once the promise has settled.
unfoldable pub do_reject : String → Scheduler → Scheduler
unfolding lookup remove
do_reject id s = elim (lookup id s.workers) [
  | none ↦ s
  | some w ↦ elim w.promise [
    | unresolved ↦ record s { workers = remove id s.workers }
    | fulfilled ↦ s
  ]
]

-- The connection to the endpoint has succeeded.
unfoldable pub on_connected : String → Scheduler → Scheduler
unfolding lookup insert start_idle_timer
on_connected id s = elim (lookup id s.workers) [
  | none ↦ s
  | some w ↦ record s {
    workers =
        insert id (record { entry = (start_idle_timer w.entry).0; promise = fulfilled }) s.workers;
  }
]

pub record Exit : Type 0 where
  pub scheduler : Scheduler
  pub closed_entry : Option WorkerEntry
  pub vacant : Bool

close_entry : Option Worker → Option WorkerEntry
unfolding close
close_entry none = none
close_entry (some w) = some (close w.entry).0

-- The process has exited: the entry is closed and leaves the table; `vacant` says whether
-- `vacantSched` is emitted.
unfoldable pub on_exit : String → Scheduler → Exit
unfolding lookup remove close_entry
on_exit id s =
    let ws = remove id s.workers in
    record {
      scheduler = record s { workers = ws };
      closed_entry = close_entry (lookup id s.workers);
      vacant = elim ws [ [] ↦ true | w ∷ rest ↦ false ];
    }

-- A client changes the counters of an entry of the table.
unfoldable pub set_entry : String → WorkerEntry → Scheduler → Scheduler
unfolding lookup insert
set_entry id e s = elim (lookup id s.workers) [
  | none ↦ s
  | some w ↦ record s { workers = insert id (record w { entry = e }) s.workers }
]

-- `shutdown`: the workers that are killed.
unfoldable pub shutdown : List (String × Worker) → List String
shutdown [] = []
shutdown ((id, w) ∷ ws) =
    let rest = shutdown ws in elim w.promise [ unresolved ↦ rest | fulfilled ↦ id ∷ rest ]
