-- ===== src/Scheduler/Lifecycle/Invariant.antt =====
-- The invariant of a worker entry in use, and its preservation by every step.
use shiny_server.Prelude.{
  ℤ, pos, negsuc, ℕ, suc, ◌+◌, ◌≤◌, ◌<◌, ◌≡◌, refl, ap, Bool, true, false, List, [], ◌∷◌, ◌++◌,
  arith, length, length-append,
}
use shiny_server.Scheduler.WorkerEntry.{shift_all}
use shiny_server.Scheduler.Lifecycle.{
  System, erase_id, perform, init, http_open, http_done, sock_open, sock_done, connected,
  pending_fires, exited, Step, opens_http, ends_http, opens_sock, ends_sock, connects,
  pending_timer, idle_timer, exits, Reach, here, next,
}

-- The requests in flight that reserve a session.
abbrev pub pages : List Bool → ℕ
pages [] = 0
pages (true ∷ rs) = suc (pages rs)
pages (false ∷ rs) = pages rs

pub pages-append : (xs ys : List Bool) → pages (xs ++ ys) ≡ pages xs + pages ys
pages-append [] ys = omega arith
pages-append (true ∷ xs) ys = omega (arith, pages-append xs ys)
pages-append (false ∷ xs) ys = omega (arith, pages-append xs ys)

-- The idle timeout asks for reaping.
abbrev pub Reaps : ℤ → Type 0
Reaps (pos ms) = 0 < ms
Reaps (negsuc n) = ⊥

pub record Inv (s : System) : Type 0 where
  pub http_count : s.entry.closed ≡ false → s.entry.http_conn ≡ length s.requests
  pub sock_count : s.entry.closed ≡ false → s.entry.sock_conn ≡ s.socks
  pub reserved :
      s.entry.closed ≡ false
      → s.entry.pending_conn ≤ pages s.requests + length s.entry.pending_release_timers
  pub queue : s.entry.pending_release_timers ≡ s.scheduled
  pub idle : s.idle_armed ≡ true → s.entry.sock_conn + s.entry.http_conn + s.entry.pending_conn ≡ 0
  pub handle : s.idle_armed ≡ true → s.entry.timer ≡ true
  pub silent : s.warnings ≡ 0

init-Inv : (idle : ℤ) → Inv (init idle)
unfolding init
init-Inv idle = ground arith

http_open-Inv : (page : Bool) (s : System) → s.entry.closed ≡ false → Inv s → Inv (http_open page s)
unfolding http_open
http_open-Inv true s c v = ground arith
http_open-Inv false s c v = ground arith

connected-Inv : (s : System) → Inv s → Inv (connected s)
unfolding connected
connected-Inv s v = ground arith

sock_open-Inv : (s : System) → s.entry.closed ≡ false → Inv s → Inv (sock_open s)
unfolding sock_open
sock_open-Inv s c v = ground arith

http_done-Inv :
    (before after : List Bool) (page success : Bool) (s : System)
    → s.requests ≡ before ++ (page ∷ after)
    → Inv s
    → Inv (http_done page success (record s { requests = before ++ after }))
unfolding http_done
http_done-Inv before after true true s e v = ground (
  arith,
  ap length e,
  ap pages e,
  length-append before (true ∷ after),
  length-append before after,
  pages-append before (true ∷ after),
  pages-append before after,
  length-append s.entry.pending_release_timers (s.next_id ∷ []),
)
http_done-Inv before after page success s e v = ground (
  arith,
  ap length e,
  ap pages e,
  length-append before (page ∷ after),
  length-append before after,
  pages-append before (page ∷ after),
  pages-append before after,
)

sock_done-Inv :
    (n : ℕ) (s : System) → s.socks ≡ suc n → Inv s → Inv (sock_done (record s { socks = n }))
unfolding sock_done
sock_done-Inv n s e v = ground arith

pending_fires-Inv :
    (id : ℕ) (later : List ℕ) (s : System)
    → s.scheduled ≡ id ∷ later
    → Inv s
    → Inv (pending_fires id (record s { scheduled = later }))
unfolding pending_fires
pending_fires-Inv id later s e v = ground arith

shift_all-Inv :
    (ts : List ℕ) (s : System)
    → s.entry.pending_release_timers ≡ ts
    → s.entry.closed ≡ true
    → Inv s
    → Inv (perform (shift_all ts) s)
unfolding perform shift_all erase_id
shift_all-Inv [] s e c v = ground arith
shift_all-Inv (t ∷ ts) s e c v =
    shift_all-Inv ts
      (record s {
        entry = record s.entry { pending_release_timers = ts };
        scheduled = erase_id t s.scheduled;
      })
      refl c (ground arith)

exited-Inv : (s : System) → Inv s → Inv (exited s)
unfolding exited
exited-Inv s v =
    shift_all-Inv s.entry.pending_release_timers
      (record s { entry = record s.entry { closed = true } }) refl refl (ground arith)

Step-Inv : {s t : System} → Step s t → Inv s → Inv t
Step-Inv {s} (opens_http page c) v = http_open-Inv page s c v
Step-Inv {s} (ends_http before after page success e) v =
    http_done-Inv before after page success s e v
Step-Inv {s} (opens_sock c) v = sock_open-Inv s c v
Step-Inv {s} (ends_sock n e) v = sock_done-Inv n s e v
Step-Inv {s} (connects c) v = connected-Inv s v
Step-Inv {s} (pending_timer id later e) v = pending_fires-Inv id later s e v
Step-Inv {s} (idle_timer e) v = ground arith
Step-Inv {s} exits v = exited-Inv s v

pub Reach-Inv : (idle : ℤ) {t : System} → Reach (init idle) t → Inv t
Reach-Inv idle here = init-Inv idle
Reach-Inv idle (next r st) = Step-Inv st (Reach-Inv idle r)
