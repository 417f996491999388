-- ===== src/Scheduler/WorkerEntry.antt =====
-- lib/scheduler/worker-entry.js: the connection counters of a worker, its idle timer and the
-- queue of timers that release reservations.
use shiny_server.Prelude.{
  ℤ, pos, negsuc, ℕ, ◌+◌, ◌-◌, Bool, true, false, List, [], ◌∷◌, ◌++◌, ltb, leb, ◌==◌,
  if◌then◌else◌,
}

-- The three connection types; the code throws on any other text.
pub data ConnType : Type 0 where
  http sock pending : ConnType

-- A call that the entry makes of the runtime's timers.
pub data Effect : Type 0 where
  set_idle : ℕ → Effect
  clear_idle : Effect
  set_pending : ℕ → ℕ → Effect
  clear_pending : ℕ → Effect
  warn : Effect

pub record WorkerEntry : Type 0 where
  pub http_conn : ℕ
  pub sock_conn : ℕ
  pub pending_conn : ℕ
  -- in milliseconds; a value that is not positive disables reaping
  pub idle_timeout : ℤ
  pub closed : Bool
  pub timer : Bool
  pub pending_release_timers : List ℕ

-- The constructor.
unfoldable pub create : ℤ → WorkerEntry
create idle = record {
  http_conn = 0;
  sock_conn = 0;
  pending_conn = 0;
  idle_timeout = idle;
  closed = false;
  timer = false;
  pending_release_timers = [];
}

unfoldable pub session_count : WorkerEntry → ℕ
session_count w = w.sock_conn + w.pending_conn

unfoldable pub bump : ConnType → WorkerEntry → WorkerEntry
bump http w = record w { http_conn = w.http_conn + 1 }
bump sock w = record w { sock_conn = w.sock_conn + 1 }
bump pending w = record w { pending_conn = w.pending_conn + 1 }

unfoldable pub acquire : ConnType → WorkerEntry → WorkerEntry × List Effect
unfolding bump
acquire c w =
    let v = bump c w in if v.timer then (record v { timer = false }, clear_idle ∷ []) else (v, [])

unfoldable pub total : WorkerEntry → ℕ
total w = w.sock_conn + w.http_conn + w.pending_conn

unfoldable pub start_idle_timer : WorkerEntry → WorkerEntry × List Effect
unfolding total
start_idle_timer w =
    if total w == 0
    then elim w.idle_timeout [
      | pos ms ↦
          if ltb 0 ms then (record w { timer = true }, clear_idle ∷ set_idle ms ∷ []) else (w, [])
      | negsuc n ↦ (w, [])
    ]
    else (w, [])

-- The counters clamp at 0, as `Math.max(0, …)` does.
release_open : ConnType → WorkerEntry → WorkerEntry × List Effect
unfolding start_idle_timer
release_open http w = start_idle_timer (record w { http_conn = w.http_conn - 1 })
release_open sock w = start_idle_timer (record w { sock_conn = w.sock_conn - 1 })
release_open pending w =
    if leb w.pending_conn 0
    then (w, [])
    else start_idle_timer (record w { pending_conn = w.pending_conn - 1 })

unfoldable pub release : ConnType → WorkerEntry → WorkerEntry × List Effect
unfolding release_open
release c w = if w.closed then (w, []) else release_open c w

-- The runtime supplies the identity of the new timer.
unfoldable pub push_pending_release_timer : ℕ → ℕ → WorkerEntry → WorkerEntry × List Effect
push_pending_release_timer id ms w = (
  record w { pending_release_timers = w.pending_release_timers ++ (id ∷ []) },
  set_pending id ms ∷ [],
)

-- What the callback of a pending release timer does to the queue.
take_fired : ℕ → List ℕ → WorkerEntry → WorkerEntry × List Effect
take_fired id [] w = (w, warn ∷ [])
take_fired id (t ∷ ts) w =
    if t == id then (record w { pending_release_timers = ts }, []) else (w, warn ∷ [])

-- The callback of the timer `id`.
unfoldable pub pending_expired : ℕ → WorkerEntry → WorkerEntry × List Effect
unfolding take_fired release
pending_expired id w =
    let (v, es) = take_fired id w.pending_release_timers w in
    if v.closed then (v, es) else (let (u, fs) = release pending v in (u, es ++ fs))

shift_from : List ℕ → WorkerEntry → WorkerEntry × List Effect
shift_from [] w = (w, [])
shift_from (t ∷ ts) w = (record w { pending_release_timers = ts }, clear_pending t ∷ [])

unfoldable pub shift_pending_release_timer : WorkerEntry → WorkerEntry × List Effect
unfolding shift_from
shift_pending_release_timer w = shift_from w.pending_release_timers w

-- The loop of `close`: one round for each timer of the queue.
unfoldable pub shift_all : List ℕ → WorkerEntry → WorkerEntry × List Effect
shift_all [] w = (w, [])
shift_all (t ∷ ts) w =
    let (v, es) = shift_all ts (record w { pending_release_timers = ts }) in
    (v, clear_pending t ∷ es)

unfoldable pub close : WorkerEntry → WorkerEntry × List Effect
unfolding shift_all
close w = shift_all w.pending_release_timers (record w { closed = true })
