-- ===== src/Proxy/Tests.antt =====
-- The theorems on closing codes, channels and robust sessions at concrete inputs.
use shiny_server.Prelude.{string_eq, walked_eq}
