-- ===== src/Scheduler/Simple/Capacity.antt =====
-- What `maxRequests` bounds.
use shiny_server.Prelude.{
  pos, ℕ, suc, ◌+◌, ◌≤◌, ◌<◌, ◌≡◌, ◌↔◌, ◌⊎◌, inl, inr, Bool, true, false, List, ◌∷◌, some, arith,
  Text, codes, text_eq, String, if◌then◌else◌,
}
use shiny_server.Scheduler.WorkerEntry.{WorkerEntry, session_count}
use shiny_server.Scheduler.Lifecycle.{System, http_open, sock_open}
use shiny_server.Scheduler.Simple.{
  out_of_capacity, is_app_page_path, acquire_worker, admit_http, admit_sock,
}

-- A SockJS channel that is admitted to a worker that has not exited, whose sessions are within
-- a positive limit, leaves them within the limit.
pub admit_sock-le :
    (limit : ℕ) (s t : System)
    → s.entry.closed ≡ false
    → session_count s.entry ≤ suc limit
    → admit_sock (some (pos (suc limit))) s ≡ some t
    → session_count t.entry ≤ suc limit
unfolding admit_sock session_count sock_open
admit_sock-le limit s t c h e = ground arith

-- An app page reserves a session.
session_count-http_open :
    (page : Bool) (s : System)
    → session_count (http_open page s).entry ≡ session_count s.entry + (if page then 1 else 0)
unfolding session_count http_open
session_count-http_open true s = ground arith
session_count-http_open false s = ground arith

admit_root-le :
    (limit : ℕ) (targeted : Bool) (s t : System)
    → session_count s.entry ≤ suc limit
    → admit_http (some (pos (suc limit))) targeted (codes "/") s ≡ some t
    → session_count t.entry ≤ suc limit
unfolding admit_http session_count text_eq is_app_page_path
admit_root-le limit true s t h e = ground (arith, session_count-http_open false s)
admit_root-le limit false s t h e = ground (arith, session_count-http_open true s)

admit_asset-le :
    (limit : ℕ) (targeted : Bool) (url : Text) (s t : System)
    → is_app_page_path url ≡ false
    → session_count s.entry ≤ suc limit
    → admit_http (some (pos (suc limit))) targeted url s ≡ some t
    → session_count t.entry ≤ suc limit
unfolding session_count admit_http
admit_asset-le limit true url s t u h e = ground (arith, session_count-http_open false s)
admit_asset-le limit false url s t u h e = ground (arith, session_count-http_open false s)

-- A request that is admitted, for the root page or for what is no app page, whichever worker
-- it names, leaves the sessions of a worker within a positive limit when they were within it.
pub admit_http-le :
    (limit : ℕ) (targeted : Bool) (url : Text) (s t : System)
    → (url ≡ codes "/") ⊎ (is_app_page_path url ≡ false)
    → session_count s.entry ≤ suc limit
    → admit_http (some (pos (suc limit))) targeted url s ≡ some t
    → session_count t.entry ≤ suc limit
admit_http-le limit targeted url s t (inl root) h e =
    admit_root-le limit targeted s t h (rw root at e)
admit_http-le limit targeted url s t (inr asset) h e =
    admit_asset-le limit targeted url s t asset h e

-- When the sessions of a worker have reached a positive limit, a request that names no worker,
-- for an app page other than the root, such as an R Markdown document, is admitted, and the
-- sessions exceed the limit.
pub admit_page-exceeds :
    (limit : ℕ) (url : Text) (s : System)
    → is_app_page_path url ≡ true
    → text_eq url (codes "/") ≡ false
    → text_eq url (codes "ws") ≡ false
    → session_count s.entry ≡ suc limit
    → (t : System) × (admit_http (some (pos (suc limit))) false url s ≡ some t)
      × (suc limit < session_count t.entry)
unfolding admit_http
admit_page-exceeds limit url s page root ws full =
    (http_open true s, ground arith, ground (arith, session_count-http_open true s))

-- With a positive limit, a running worker refuses a request exactly when it asks for the root
-- page or a channel while the sessions have reached the limit, unless it asks for a channel,
-- there is a reservation, and the sessions do not exceed the limit.
pub acquire_worker-refuses :
    (limit : ℕ) (url : Text) (id : String) (w : WorkerEntry) (ws : List (String × WorkerEntry))
    → (acquire_worker (some (pos (suc limit))) url ((id, w) ∷ ws) ≡ out_of_capacity) ↔ (
        (suc limit ≤ session_count w)
        × ((text_eq url (codes "ws") ≡ true) ⊎ (text_eq url (codes "/") ≡ true))
        × ((text_eq url (codes "ws") ≡ false)
            ⊎ ((w.pending_conn ≡ 0) ⊎ (suc limit < session_count w))))
unfolding acquire_worker
acquire_worker-refuses limit url id w ws = ground arith
