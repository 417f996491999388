-- ===== src/Main/Reload.antt =====
-- lib/main.js: what a load of the configuration leaves behind.
use shiny_server.Prelude.{
  ◌≡◌, refl, sym, Bool, true, false, Option, some, ◌⊎◌, inl, inr, String, List,
}
use shiny_server.Router.Sequence.{Settled, resolved, rejected, pending}
use shiny_server.Server.{Address}
use shiny_server.Main.{
  LogSpec, Configured, Program, create_logger, with_logger, set_up, after_addresses, load_config,
}

-- The routers of a program are those of a configuration.
pub record Routes {R O S : Type 0} (c : Configured R O) (s : Program R O S) : Type 0 where
  pub router : s.router ≡ some c.router
  pub app_override : s.app_override ≡ some c.app_override

-- The settings of the proxies are those of a configuration.
pub record SetUp {R O S : Type 0} (c : Configured R O) (s : Program R O S) : Type 0 where
  pub has_transport : s.has_transport ≡ true
  pub socket_dir : s.socket_dir ≡ some c.socket_dir
  pub sockjs : s.sockjs ≡ some (c.heartbeat_delay, c.disconnect_delay)
  pub socket_timeout : s.socket_timeout ≡ c.keepalive_timeout
  pub use_compression : s.use_compression ≡ c.allow_compression

-- The settings of the proxies are those of before.
pub record KeepsSetUp {R O S : Type 0} (s t : Program R O S) : Type 0 where
  pub has_transport : t.has_transport ≡ s.has_transport
  pub socket_dir : t.socket_dir ≡ s.socket_dir
  pub sockjs : t.sockjs ≡ s.sockjs
  pub socket_timeout : t.socket_timeout ≡ s.socket_timeout
  pub use_compression : t.use_compression ≡ s.use_compression

set_up-SetUp : {R O S : Type 0} → (c : Configured R O) → (s : Program R O S) → SetUp c (set_up c s)
unfolding set_up
set_up-SetUp c s = record {
  has_transport = refl;
  socket_dir = refl;
  sockjs = refl;
  socket_timeout = refl;
  use_compression = refl;
}

module _ {R O S : Type 0} (set_addresses : List Address → S → Bool × S)
    (error_of : LogSpec → Option String) where
  -- How a load of a configuration that was read ends, from a program of before.
  pub record Ends (c : Configured R O) (s : Program R O S) (end : Bool × Program R O S)
      : Type 0 where
    pub routes : Routes c end.1
    pub listens : end.1.server ≡ (set_addresses c.addresses s.server).1
    pub outcome :
        ((end.0 ≡ true)
          × SetUp c end.1
          × (resolved end.1.request_logger ≡ create_logger error_of c.access_log))
        ⊎ ((end.0 ≡ false)
            × ((((set_addresses c.addresses s.server).0 ≡ true) × SetUp c end.1)
                ⊎ (((set_addresses c.addresses s.server).0 ≡ false) × KeepsSetUp s end.1))
            × (end.1.request_logger ≡ s.request_logger))

  with_logger-Ends :
      (c : Configured R O) (before s : Program R O S) (log : Settled (Option LogSpec))
      → create_logger error_of c.access_log ≡ log
      → s.request_logger ≡ before.request_logger
      → Routes c s
      → s.server ≡ (set_addresses c.addresses before.server).1
      → (set_addresses c.addresses before.server).0 ≡ true
      → Ends c before (with_logger log (set_up c s))
  unfolding with_logger set_up
  with_logger-Ends c before s (resolved log) e k r l a = record {
    routes = record { router = r.router; app_override = r.app_override };
    listens = l;
    outcome = inl (refl, set_up-SetUp c (record s { request_logger = log }), sym e);
  }
  with_logger-Ends c before s (rejected error) e k r l a = record {
    routes = record { router = r.router; app_override = r.app_override };
    listens = l;
    outcome = inr (refl, inl (a, set_up-SetUp c s), k);
  }
  with_logger-Ends c before s pending e k r l a = record {
    routes = record { router = r.router; app_override = r.app_override };
    listens = l;
    outcome = inr (refl, inl (a, set_up-SetUp c s), k);
  }

  after_addresses-Ends :
      (c : Configured R O) (before s : Program R O S) (returned : Bool)
      → KeepsSetUp before s
      → s.request_logger ≡ before.request_logger
      → Routes c s
      → s.server ≡ (set_addresses c.addresses before.server).1
      → (set_addresses c.addresses before.server).0 ≡ returned
      → Ends c before (after_addresses set_addresses error_of c returned s)
  unfolding after_addresses
  after_addresses-Ends c before s false kept k r l a = record {
    routes = r;
    listens = l;
    outcome = inr (refl, inr (a, kept), k);
  }
  after_addresses-Ends c before s true kept k r l a =
      with_logger-Ends c before s (create_logger error_of c.access_log) refl k r l a

  -- A load of a configuration that was read leaves its routers, on the server as setAddresses left
  -- it. If the load succeeds, all else is set up by that configuration as well. If it fails, the log
  -- is that of before, and the settings of the proxies are the new ones where setAddresses returned
  -- and those of before where it threw.
  pub load_config-Ends :
      (c : Configured R O) (s : Program R O S)
      → Ends c s (load_config set_addresses error_of (some c) s)
  unfolding load_config
  load_config-Ends c s =
      after_addresses-Ends c s
        (record s {
          router = some c.router;
          app_override = some c.app_override;
          server = (set_addresses c.addresses s.server).1;
        })
        (set_addresses c.addresses s.server).0
        (record {
          has_transport = refl;
          socket_dir = refl;
          sockjs = refl;
          socket_timeout = refl;
          use_compression = refl;
        })
        refl (record { router = refl; app_override = refl }) refl refl
