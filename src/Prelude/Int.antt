-- ===== src/Prelude/Int.antt =====
-- Signed integers: `negsuc n` is -(n + 1).
use Prim.Native.Nat.{ℕ, ◌+◌, ◌*◌, zero, suc}
use mathlib.Core.Bool.{Bool, true, false}
use shiny_server.Prelude.Tests.{ltb}

pub data ℤ : Type 0 where
  pos : ℕ → ℤ
  negsuc : ℕ → ℤ

-- a < z, for a natural number a
abbrev pub below : ℕ → ℤ → Bool
below a (pos n) = ltb a n
below a (negsuc n) = false

abbrev pub add_one : ℤ → ℤ
add_one (pos n) = pos (n + 1)
add_one (negsuc zero) = pos 0
add_one (negsuc (suc n)) = negsuc n

-- z * 1000
abbrev pub thousand : ℤ → ℤ
thousand (pos n) = pos (n * 1000)
thousand (negsuc n) = negsuc (n * 1000 + 999)

-- Truthy in JavaScript: any number but 0.
abbrev pub is_truthy : ℤ → Bool
is_truthy (pos zero) = false
is_truthy (pos (suc n)) = true
is_truthy (negsuc n) = true
