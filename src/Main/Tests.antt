-- ===== src/Main/Tests.antt =====
-- lib/main.js: the theorems at concrete inputs.
use shiny_server.Prelude.{
  ℕ, pos, ◌≡◌, Bool, true, false, List, [], ◌∷◌, Option, none, some, String, codes,
}
use shiny_server.Server.{Address}
use shiny_server.Main.{LogSpec, Configured, Program, load_config}
use shiny_server.Main.Reload.{Ends, load_config-Ends}
use shiny_server.Main.Shutdown.{started, run, cleanup, last_of, signal_all, run-cleanup}

-- A server that listens on the addresses that it is given last, and logs that cannot be opened.
abbrev listens_on : List Address → List Address → Bool × List Address
listens_on new old = (true, new)

abbrev closed_logs : LogSpec → Option String
closed_logs log = some "EACCES"

abbrev configured : Configured ℕ ℕ
configured = record {
  router = 2;
  app_override = 7;
  addresses = record { address = codes "::"; port = 3838 } ∷ [];
  socket_dir = [];
  heartbeat_delay = pos 25000;
  disconnect_delay = pos 5000;
  keepalive_timeout = pos 45000;
  allow_compression = true;
  access_log = some (record { path = codes "/var/log/access.log"; format = codes "default" });
}

abbrev running : Program ℕ ℕ (List Address)
running = record {
  router = some 1;
  app_override = none;
  server = [];
  has_transport = true;
  socket_dir = none;
  sockjs = none;
  socket_timeout = pos 45000;
  use_compression = false;
  request_logger = none;
}

load_config-Ends_example :
    Ends listens_on closed_logs configured running
      (load_config listens_on closed_logs (some configured) running)
load_config-Ends_example = load_config-Ends listens_on closed_logs configured running

-- A termination that is signalled twice, and an exit by the timer.
run-cleanup_example :
    ((run (143 ∷ 143 ∷ []) 143 started).1 ≡ cleanup (143 ∷ 143 ∷ []))
    × ((signal_all (143 ∷ 143 ∷ []) started).exit_code ≡ last_of 0 (143 ∷ 143 ∷ []))
run-cleanup_example = run-cleanup (143 ∷ 143 ∷ []) 143
