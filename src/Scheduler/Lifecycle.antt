-- ===== src/Scheduler/Lifecycle.antt =====
-- One worker entry in use: the HTTP requests of lib/proxy/http.js and the SockJS channels of
-- lib/proxy/sockjs.js acquire and release it, and the runtime fires its timers.
-- The runtime's timers are the environment: a cleared timer does not fire, and timers of one
-- duration fire in the order in which they were set.
pub mod Invariant
pub mod Reaping
use shiny_server.Prelude.{
  ℤ, pos, negsuc, ℕ, zero, suc, ◌+◌, ◌-◌, ◌≡◌, refl, Bool, true, false, List, [], ◌∷◌, ◌++◌, Option,
  none, some, ◌==◌, if◌then◌else◌,
}
use shiny_server.Scheduler.WorkerEntry.{
  http, sock, pending, Effect, set_idle, clear_idle, set_pending, clear_pending, warn, WorkerEntry,
  create, acquire, release, start_idle_timer, push_pending_release_timer, pending_expired,
  shift_pending_release_timer, close,
}

-- `requests` holds, for each HTTP request in flight, whether it asks for an app page.
pub record System : Type 0 where
  pub entry : WorkerEntry
  pub requests : List Bool
  pub socks : ℕ
  pub idle_armed : Bool
  pub scheduled : List ℕ
  pub next_id : ℕ
  pub warnings : ℕ
  pub started : Bool
  pub reaped : Bool

pub erase_id : ℕ → List ℕ → List ℕ
erase_id id [] = []
erase_id id (t ∷ ts) = if t == id then ts else t ∷ erase_id id ts

unfoldable pub effect : Effect → System → System
unfolding erase_id
effect (set_idle ms) s = record s { idle_armed = true }
effect clear_idle s = record s { idle_armed = false }
effect (set_pending id ms) s = record s {
  scheduled = s.scheduled ++ (id ∷ []);
  next_id = s.next_id + 1;
}
effect (clear_pending id) s = record s { scheduled = erase_id id s.scheduled }
effect warn s = record s { warnings = s.warnings + 1 }

unfoldable pub effects : List Effect → System → System
unfolding effect
effects [] s = s
effects (e ∷ es) s = effects es (effect e s)

unfoldable pub perform : (WorkerEntry → WorkerEntry × List Effect) → System → System
unfolding effects
perform act s = let (w, es) = act s.entry in effects es (record s { entry = w })

unfoldable pub init : ℤ → System
unfolding create
init idle = record {
  entry = create idle;
  requests = [];
  socks = 0;
  idle_armed = false;
  scheduled = [];
  next_id = 0;
  warnings = 0;
  started = false;
  reaped = false;
}

-- `httpListener`: the request is assigned to the worker.
unfoldable pub http_open : Bool → System → System
unfolding perform acquire
http_open page s =
    let t = perform (acquire http) (record s { requests = page ∷ s.requests }) in
    if page then perform (acquire pending) t else t

-- `cleanup` of `httpListener`, run once for each request.
unfoldable pub http_done : Bool → Bool → System → System
unfolding perform release push_pending_release_timer
http_done page success s =
    let t = perform (release http) s in
    if page
    then if success
      then perform (push_pending_release_timer t.next_id 45000) t
      else perform (release pending) t
    else t

-- `connectToApp`: the channel is assigned to the worker.
unfoldable pub sock_open : System → System
unfolding perform acquire release shift_pending_release_timer
sock_open s = perform (acquire sock) (
    perform (release pending)
      (perform shift_pending_release_timer (record s { socks = s.socks + 1 })))

-- The `close` listener of `connectToApp`.
unfoldable pub sock_done : System → System
unfolding perform release
sock_done s = perform (release sock) s

unfoldable pub connected : System → System
unfolding perform start_idle_timer
connected s = perform start_idle_timer (record s { started = true })

unfoldable pub pending_fires : ℕ → System → System
unfolding perform pending_expired
pending_fires id s = perform (pending_expired id) s

unfoldable pub exited : System → System
unfolding perform close
exited s = perform close s

-- What can happen to a worker. A request or a channel that ends is one that is in flight.
pub data Step (s : System) : System → Type 0 where
  opens_http : (page : Bool) → s.entry.closed ≡ false → Step s (http_open page s)
  ends_http :
      (before after : List Bool) (page success : Bool)
      → s.requests ≡ before ++ (page ∷ after)
      → Step s (http_done page success (record s { requests = before ++ after }))
  opens_sock : s.entry.closed ≡ false → Step s (sock_open s)
  ends_sock : (n : ℕ) → s.socks ≡ suc n → Step s (sock_done (record s { socks = n }))
  connects : s.entry.closed ≡ false → Step s (connected s)
  pending_timer :
      (id : ℕ) (later : List ℕ)
      → s.scheduled ≡ id ∷ later
      → Step s (pending_fires id (record s { scheduled = later }))
  idle_timer : s.idle_armed ≡ true → Step s (record s { idle_armed = false; reaped = true })
  exits : Step s (exited s)

pub data Reach (s : System) : System → Type 0 where
  here : Reach s s
  next : {t u : System} → Reach s t → Step t u → Reach s u
