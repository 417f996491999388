-- ===== src/Scheduler/Tests.antt =====
-- Runs of the scheduler's parts, and the theorems at concrete inputs.
use shiny_server.Prelude.{
  ℤ, pos, ◌≡◌, refl, ◌⊎◌, true, false, [], ◌∷◌, arith, some, none, inl, ◌≤◌, codes, String,
  string_eq,
}
use shiny_server.Scheduler.Lifecycle.{
  System, init, http_open, sock_open, http_done, connected, opens_http, ends_http, connects, Reach,
  here, next,
}
use shiny_server.Scheduler.WorkerEntry.{session_count}
use shiny_server.Scheduler.Simple.{is_app_page_path, admit_http, admit_sock}
use shiny_server.Scheduler.Simple.Capacity.{admit_sock-le, admit_http-le}
use shiny_server.Scheduler.Registry.{Settings, Event, requested, run, empty}
use shiny_server.Scheduler.Registry.Laws.{Solo, run-Solo}
use shiny_server.Scheduler.Lifecycle.Reaping.{IsUnused, idle-IsUnused, unused-IsReapable}

abbrev five_seconds : ℤ
five_seconds = pos 5000

-- A worker that has connected, served one asset and is idle again.
abbrev served : System
served =
    http_done false true
      (record (http_open false (connected (init five_seconds))) { requests = [] })

served-Reach : Reach (init five_seconds) served
unfolding connected init http_open
served-Reach =
    next (next (next here (connects refl)) (opens_http false refl))
      (ends_http [] [] false true refl)

served_facts :
    (served.entry.closed ≡ false)
    × (served.idle_armed ≡ true)
    × (served.started ≡ true)
    × (served.scheduled ≡ [])
    × IsUnused served
unfolding connected init http_open http_done
served_facts = (refl, refl, refl, refl, (refl, refl, refl))

idle-IsUnused_example : IsUnused served
idle-IsUnused_example = idle-IsUnused five_seconds served-Reach served_facts.0 served_facts.1

unused-IsReapable_example : (served.idle_armed ≡ true) ⊎ (served.reaped ≡ true)
unused-IsReapable_example =
    unused-IsReapable five_seconds (omega arith) served-Reach served_facts.0 served_facts.2
      served_facts.4

-- A connected worker.
abbrev ready : System
ready = connected (init five_seconds)

-- One session.
abbrev busy : System
busy = sock_open ready

ready_sessions :
    (ready.entry.closed ≡ false) × (session_count ready.entry ≡ 0) × (session_count busy.entry ≡ 1)
unfolding connected init session_count sock_open
ready_sessions = (refl, refl, refl)

ready_admits_sock : admit_sock (some (pos 1)) ready ≡ some busy
unfolding admit_sock connected init session_count sock_open
ready_admits_sock = refl

admit_sock-le_example : session_count busy.entry ≤ 1
admit_sock-le_example =
    admit_sock-le 0 ready busy ready_sessions.0 (omega (arith, ready_sessions.1)) ready_admits_sock

ready_admits_http : admit_http (some (pos 1)) false (codes "/") ready ≡ some (http_open true ready)
unfolding admit_http connected init is_app_page_path
ready_admits_http = refl

admit_http-le_example : session_count (http_open true ready).entry ≤ 1
admit_http-le_example =
    admit_http-le 0 false (codes "/") ready (http_open true ready) (inl refl)
      (omega (arith, ready_sessions.1)) ready_admits_http

abbrev no_settings : Settings
no_settings = record { max_requests = none; idle_timeout = none }

abbrev asked : String → Event
asked id = requested "app" no_settings (codes "/") id

empty-Solo : Solo empty
empty-Solo r = omega arith

run-Solo_example : Solo (run (asked "a" ∷ asked "b" ∷ []) empty)
run-Solo_example = run-Solo (asked "a" ∷ asked "b" ∷ []) empty empty-Solo
