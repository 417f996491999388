-- ===== src/Main.antt =====
-- lib/main.js: loadConfig_p, which a start and every SIGHUP run, and createLogger_p. What
-- createRouter_p answers is an argument, and so is what setAddresses does to the server. Shutdown has
-- the handlers of the signals that end the program. The messages that are logged are left out.
mod Reload
mod Shutdown
mod Tests
use shiny_server.Prelude.{
  ℤ, ◌≡◌, refl, sym, ap, subst, Bool, true, false, List, [], ◌∷◌, Option, none, some, ◌⊎◌, inl, inr,
  String, if◌then◌else◌, Text, codes, text_eq,
}
use shiny_server.Router.Sequence.{Settled, resolved, rejected, pending}
use shiny_server.Server.{Address}

-- `accessLogSpec`: a path that is missing is empty.
pub record LogSpec : Type 0 where
  pub path : Text
  pub format : Text

-- What is read of a ConfigRouter; R stands for routers, O for the override of apps.
pub record Configured (R O : Type 0) : Type 0 where
  pub router : R
  pub app_override : O
  pub addresses : List Address
  pub socket_dir : Text
  pub heartbeat_delay : ℤ
  pub disconnect_delay : ℤ
  pub keepalive_timeout : ℤ
  pub allow_compression : Bool
  pub access_log : Option LogSpec

-- The variables of the module and what `setRouter`, `setAppOverride`, `setTransport` and
-- `setSocketDir` store; S stands for the state of the server.
pub record Program (R O S : Type 0) : Type 0 where
  pub router : Option R
  pub app_override : Option O
  pub server : S
  pub has_transport : Bool
  pub socket_dir : Option Text
  pub sockjs : Option (ℤ × ℤ)
  pub socket_timeout : ℤ
  pub use_compression : Bool
  pub request_logger : Option LogSpec

unfoldable pub log_format : Text → Text
unfolding text_eq
log_format format = if text_eq format (codes "default") then codes "combined" else format

unfoldable pub opened : LogSpec → Option String → Settled (Option LogSpec)
opened log none = resolved (some log)
opened log (some error) = rejected error

-- What `createWriteStream` and `morgan` throw, if they do, is a parameter.
unfoldable pub open_logger : (LogSpec → Option String) → LogSpec → Settled (Option LogSpec)
unfolding opened
open_logger error_of log = opened log (error_of log)

unfoldable pub logger_at : (LogSpec → Option String) → Text → Text → Settled (Option LogSpec)
unfolding open_logger log_format
logger_at error_of [] format = resolved none
logger_at error_of (c ∷ cs) format =
    open_logger error_of (record { path = c ∷ cs; format = log_format format })

-- `createLogger_p`
unfoldable pub create_logger : (LogSpec → Option String) → Option LogSpec → Settled (Option LogSpec)
unfolding logger_at
create_logger error_of none = resolved none
create_logger error_of (some spec) = logger_at error_of spec.path spec.format

-- Whether the promise is resolved, and the program.
unfoldable pub with_logger :
    {R O S : Type 0} → Settled (Option LogSpec) → Program R O S → Bool × Program R O S
with_logger (resolved log) s = (true, record s { request_logger = log })
with_logger (rejected error) s = (false, s)
with_logger pending s = (false, s)

-- What the transport, the server of SockJS and the handlers of requests are told.
unfoldable pub set_up : {R O S : Type 0} → Configured R O → Program R O S → Program R O S
set_up c s = record s {
  has_transport = true;
  socket_dir = some c.socket_dir;
  sockjs = some (c.heartbeat_delay, c.disconnect_delay);
  socket_timeout = c.keepalive_timeout;
  use_compression = c.allow_compression;
}

module _ {R O S : Type 0} (set_addresses : List Address → S → Bool × S)
    (error_of : LogSpec → Option String) where
  -- What follows `setAddresses`, if it has returned.
  unfoldable pub after_addresses : Configured R O → Bool → Program R O S → Bool × Program R O S
  unfolding with_logger create_logger set_up
  after_addresses c false s = (false, s)
  after_addresses c true s = with_logger (create_logger error_of c.access_log) (set_up c s)

  -- `loadConfig_p`, for what `createRouter_p` answers, or nothing where it fails.
  unfoldable pub load_config : Option (Configured R O) → Program R O S → Bool × Program R O S
  unfolding after_addresses
  load_config none s = (false, s)
  load_config (some c) s =
      let answer = set_addresses c.addresses s.server in
      after_addresses c answer.0
        (record s { router = some c.router; app_override = some c.app_override; server = answer.1 })
