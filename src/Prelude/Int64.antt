-- ===== src/Prelude/Int64.antt =====
-- Go's int64 as its 64-bit pattern, a number below 2 ^ 64: sums and differences wrap around, and the
-- patterns from 2 ^ 63 on are the negative numbers.
use Prim.Native.Nat.{ℕ, ◌+◌, ◌-◌, ◌%◌, ◌^◌, ◌<◌}
use mathlib.Core.Path.{◌≡◌}
use mathlib.Core.Bool.{Bool, ◌&&◌}
use mathlib.Core.List.{List, [], ◌∷◌}
use native.Mathlib.Omega.{arith}
use k8s_mcp_agent.Prelude.Tests.{ltb}

unfoldable pub add64 : ℕ → ℕ → ℕ
add64 a b = (a + b) % 2 ^ 64

unfoldable pub sub64 : ℕ → ℕ → ℕ
sub64 a b = (a + (2 ^ 64 - b % 2 ^ 64)) % 2 ^ 64

-- n > 0
abbrev pub is_positive64 : ℕ → Bool
is_positive64 n = ltb 0 n && ltb n (2 ^ 63)

-- The sum of the numbers themselves.
abbrev pub sum : List ℕ → ℕ
sum [] = 0
sum (n ∷ ns) = n + sum ns

pub add64_mod : (a b : ℕ) → add64 a b ≡ (a + b) % 2 ^ 64
unfolding add64
add64_mod a b = omega arith

pub add64-mod : (a b : ℕ) → add64 (a % 2 ^ 64) b ≡ (a + b) % 2 ^ 64
unfolding add64
add64-mod a b = omega arith

pub add64-sub64 : (a b : ℕ) → a < 2 ^ 64 → add64 (sub64 a b) b ≡ a
unfolding add64 sub64
add64-sub64 a b h = omega (arith, h)
