-- ===== src/Scheduler/Simple.antt =====
-- lib/scheduler/simple-scheduler.js: which worker answers a request; lib/core/url-util.js; and the
-- admission of requests by lib/proxy/http.js and lib/proxy/sockjs.js.
pub mod Capacity
use shiny_server.Prelude.{
  ℤ, below, add_one, is_truthy, ℕ, Bool, true, false, not, ◌&&◌, ◌||◌, List, [], ◌∷◌, Option, none,
  some, ltb, ◌==◌, if◌then◌else◌, Text, codes, text_eq, String,
}
use shiny_server.Scheduler.WorkerEntry.{WorkerEntry, session_count}
use shiny_server.Scheduler.Lifecycle.{System, http_open, sock_open}

-- `/\.[rq]md$/i` at one position
is_md : Text → Bool
is_md (dot ∷ r ∷ m ∷ d ∷ []) =
    dot == b'.'
    && (r == b'r' || r == b'R' || r == b'q' || r == b'Q')
    && (m == b'm' || m == b'M')
    && (d == b'd' || d == b'D')
is_md _ = false

unfoldable pub ends_md : Text → Bool
unfolding is_md
ends_md [] = false
ends_md (c ∷ cs) = is_md (c ∷ cs) || ends_md cs

unfoldable pub is_app_page_path : Text → Bool
unfolding ends_md text_eq
is_app_page_path path = text_eq path (codes "/") || ends_md path

-- What `acquireWorker` decides.
pub data Decision : Type 0 where
  reuse : String → WorkerEntry → Decision
  out_of_capacity : Decision
  spawn : Decision

-- `maxRequests` that is not 0; the code's own test for 0 behind it never holds.
unfoldable pub within_limit : ℤ → Text → String → WorkerEntry → Decision
unfolding session_count text_eq
within_limit limit url id w =
    if below (session_count w) limit
    then reuse id w
    else if not (text_eq url (codes "ws")) && not (text_eq url (codes "/"))
    then reuse id w
    else if text_eq url (codes "ws")
        && ltb 0 w.pending_conn
        && below (session_count w) (add_one limit)
    then reuse id w
    else out_of_capacity

-- `none` stands for settings without a limit.
unfoldable pub acquire_worker : Option ℤ → Text → List (String × WorkerEntry) → Decision
unfolding within_limit
acquire_worker limit url [] = spawn
acquire_worker none url ((id, w) ∷ ws) = reuse id w
acquire_worker (some limit) url ((id, w) ∷ ws) =
    if is_truthy limit then within_limit limit url id w else reuse id w

-- A request to a running worker: `none` is the 503 page. `targeted` says that the query names a
-- worker.
unfoldable pub admit_http : Option ℤ → Bool → Text → System → Option System
unfolding acquire_worker
admit_http limit targeted url s = elim (acquire_worker limit url (("", s.entry) ∷ [])) [
  | reuse id w ↦ some (http_open (not targeted && is_app_page_path url) s)
  | out_of_capacity ↦ none
  | spawn ↦ none
]

-- A SockJS channel to a running worker: `none` closes it with OUT_OF_CAPACITY.
unfoldable pub admit_sock : Option ℤ → System → Option System
unfolding acquire_worker
admit_sock limit s = elim (acquire_worker limit (codes "ws") (("", s.entry) ∷ [])) [
  | reuse id w ↦ some (sock_open s)
  | out_of_capacity ↦ none
  | spawn ↦ none
]
