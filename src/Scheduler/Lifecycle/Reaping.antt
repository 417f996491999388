-- ===== src/Scheduler/Lifecycle/Reaping.antt =====
-- When the idle timer of a worker may fire, and when it must be running.
use shiny_server.Prelude.{
  ℤ, ℕ, ◌+◌, ◌≡◌, refl, ap, ◌∙◌, Bool, true, false, List, [], ◌∷◌, ◌++◌, ◌⊎◌, arith, length,
}
use shiny_server.Scheduler.WorkerEntry.{shift_all}
use shiny_server.Scheduler.Lifecycle.{
  System, erase_id, perform, init, http_open, http_done, sock_open, sock_done, connected,
  pending_fires, exited, Step, opens_http, ends_http, opens_sock, ends_sock, connects,
  pending_timer, idle_timer, exits, Reach, here, next,
}
use shiny_server.Scheduler.Lifecycle.Invariant.{pages, Reaps, Reach-Inv}

abbrev pub IsUnused : System → Type 0
IsUnused s = (s.requests ≡ []) × (s.socks ≡ 0) × (s.entry.pending_conn ≡ 0)

eq-nil_of_length : (xs : List Bool) → length xs ≡ 0 → xs ≡ []
eq-nil_of_length [] e = refl
eq-nil_of_length (x ∷ xs) e = absurd (omega arith)

-- Whenever the idle timer can fire on a worker that has not exited, no HTTP request is in
-- flight, no SockJS channel is open and no session is reserved: a worker in use is never reaped.
pub idle-IsUnused :
    (idle : ℤ) {t : System}
    → Reach (init idle) t
    → t.entry.closed ≡ false
    → t.idle_armed ≡ true
    → IsUnused t
idle-IsUnused idle {t} r c a =
    let v = Reach-Inv idle r in
    let none_left = v.idle a in
    let http_count = v.http_count c in
    let sock_count = v.sock_count c in
    (eq-nil_of_length t.requests (omega arith), omega arith, omega arith)

-- A pending release timer that fires always finds itself at the front of the queue: the
-- "Surprisingly" warning is never logged, whatever the order of requests and channels.
pub warnings-Reach : (idle : ℤ) {t : System} → Reach (init idle) t → t.warnings ≡ 0
warnings-Reach idle r = (Reach-Inv idle r).silent

-- Once no app page is in flight and no release timer is queued, no reservation is left.
pub reservations_end :
    (idle : ℤ) {t : System}
    → Reach (init idle) t
    → t.entry.closed ≡ false
    → pages t.requests ≡ 0
    → t.scheduled ≡ []
    → t.entry.pending_conn ≡ 0
reservations_end idle {t} r c p q =
    let v = Reach-Inv idle r in
    let reserved = v.reserved c in let queue = ap length (v.queue ∙ q) in omega arith

-- A connected worker with a positive idle timeout and no connection has its timer running, or
-- the timer has fired.
abbrev IsReapable : System → Type 0
IsReapable s =
    s.entry.closed ≡ false
    → s.started ≡ true
    → s.entry.sock_conn + s.entry.http_conn + s.entry.pending_conn ≡ 0
    → (s.idle_armed ≡ true) ⊎ (s.reaped ≡ true)

record Live (s : System) : Type 0 where
  reaps : Reaps s.entry.idle_timeout
  reapable : IsReapable s

http_open-Live : (page : Bool) (s : System) → Live s → Live (http_open page s)
unfolding http_open
http_open-Live true s v = ground arith
http_open-Live false s v = ground arith

http_done-Live :
    (page success : Bool) (rs : List Bool) (s : System)
    → Live s
    → Live (http_done page success (record s { requests = rs }))
unfolding http_done
http_done-Live true true rs s v = ground arith
http_done-Live true false rs s v = ground arith
http_done-Live false success rs s v = ground arith

sock_open-Live : (s : System) → Live s → Live (sock_open s)
unfolding sock_open
sock_open-Live s v = ground arith

sock_done-Live : (n : ℕ) (s : System) → Live s → Live (sock_done (record s { socks = n }))
unfolding sock_done
sock_done-Live n s v = ground arith

connected-Live : (s : System) → Live s → Live (connected s)
unfolding connected
connected-Live s v = ground arith

pending_fires-Live :
    (id : ℕ) (later : List ℕ) (s : System)
    → Live s
    → Live (pending_fires id (record s { scheduled = later }))
unfolding pending_fires
pending_fires-Live id later s v = ground arith

shift_all-Live :
    (ts : List ℕ) (s : System) → s.entry.closed ≡ true → Live s → Live (perform (shift_all ts) s)
unfolding perform shift_all
shift_all-Live [] s c v = ground arith
shift_all-Live (t ∷ ts) s c v =
    shift_all-Live ts
      (record s {
        entry = record s.entry { pending_release_timers = ts };
        scheduled = erase_id t s.scheduled;
      })
      c (ground arith)

exited-Live : (s : System) → Live s → Live (exited s)
unfolding exited
exited-Live s v =
    shift_all-Live s.entry.pending_release_timers
      (record s { entry = record s.entry { closed = true } }) refl (ground arith)

Step-Live : {s t : System} → Step s t → Live s → Live t
Step-Live {s} (opens_http page c) v = http_open-Live page s v
Step-Live {s} (ends_http before after page success e) v =
    http_done-Live page success (before ++ after) s v
Step-Live {s} (opens_sock c) v = sock_open-Live s v
Step-Live {s} (ends_sock n e) v = sock_done-Live n s v
Step-Live {s} (connects c) v = connected-Live s v
Step-Live {s} (pending_timer id later e) v = pending_fires-Live id later s v
Step-Live {s} (idle_timer e) v = ground arith
Step-Live {s} exits v = exited-Live s v

Reach-Live : (idle : ℤ) {t : System} → Reaps idle → Reach (init idle) t → Live t
unfolding init
Reach-Live idle h here = record { reaps = h; reapable = λ _ e _. cc }
Reach-Live idle h (next r st) = Step-Live st (Reach-Live idle h r)

-- With a positive idle timeout, a worker that has connected, has not exited and is used by
-- nobody has its idle timer running, or the timer has already fired: it is never forgotten.
pub unused-IsReapable :
    (idle : ℤ) {t : System}
    → Reaps idle
    → Reach (init idle) t
    → t.entry.closed ≡ false
    → t.started ≡ true
    → IsUnused t
    → (t.idle_armed ≡ true) ⊎ (t.reaped ≡ true)
unused-IsReapable idle {t} h r c st u =
    let v = Reach-Inv idle r in
    let http_count = v.http_count c ∙ ap length u.0 in
    let sock_count = v.sock_count c in
    let unused = u.1 in let unreserved = u.2 in (Reach-Live idle h r).reapable c st (omega arith)
