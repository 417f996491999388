-- ===== src/Proxy/ErrorCode.antt =====
-- lib/proxy/errorcode.js: the close codes that tell a client whether to reconnect or restart.
use shiny_server.Prelude.{
  ℕ, ◌+◌, ◌%◌, ◌≤◌, ◌<◌, ◌≡◌, Bool, true, false, not, ◌&&◌, arith, ltb, if◌then◌else◌, ℤ, pos,
  negsuc,
}

-- `Math.abs`
magnitude : ℤ → ℕ
magnitude (pos n) = n
magnitude (negsuc n) = n + 1

valid_base : ℤ → Bool
valid_base (pos n) = not (ltb 99 n)
valid_base (negsuc n) = false

base_of : ℤ → ℕ
unfolding magnitude valid_base
base_of z = if valid_base z then magnitude z else magnitude z % 100

unfoldable pub closure_code : ℤ → Bool → Bool → ℕ
unfolding base_of
closure_code z allow_reconnect allow_restart =
    if not allow_reconnect && not allow_restart
    then base_of z + 4500
    else if allow_reconnect && allow_restart
    then base_of z + 4600
    else if not allow_reconnect && allow_restart
    then base_of z + 4700
    else 4000 + base_of z

pub data Code : Type 0 where
  access_denied out_of_capacity shutting_down app_exit bad_protocol bad_identifier retired : Code

unfoldable pub code : Code → ℕ
unfolding closure_code
code access_denied = closure_code (pos 0) false false
code out_of_capacity = closure_code (pos 1) false false
code shutting_down = closure_code (pos 2) false true
code app_exit = closure_code (pos 3) false false
code bad_protocol = closure_code (pos 4) false true
code bad_identifier = closure_code (pos 5) false true
code retired = closure_code (pos 6) false false

-- Whether a client may start a new session, by the table of the source: the codes 47xx.
abbrev pub MayRestart : ℕ → Type 0
MayRestart n = (4700 ≤ n) × (n < 4800)

-- For every base number, the code of a closure without reconnection is one of 4700 to 4799
-- when a restart is allowed, and one of 4500 to 4599 when it is not.
pub closure_code-hundreds :
    (z : ℤ) (allow_reconnect allow_restart : Bool)
    → (allow_reconnect ≡ false)
    → ((allow_restart ≡ true → MayRestart (closure_code z allow_reconnect allow_restart))
        × (allow_restart ≡ false
            → (4500 ≤ closure_code z allow_reconnect allow_restart)
              × (closure_code z allow_reconnect allow_restart < 4600)))
unfolding closure_code
closure_code-hundreds (pos n) a b h = ground arith
closure_code-hundreds (negsuc n) a b h = ground arith

-- The codes that the server sends are pairwise different.
pub code-injective : (a b : Code) → code a ≡ code b → a ≡ b
unfolding code
code-injective a b h = ground arith
