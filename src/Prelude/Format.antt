-- ===== src/Prelude/Format.antt =====
-- What the program uses of fmt: concatenation and the verb %d on numbers that are not negative.
use Prim.Native.Nat.{ℕ, zero, suc, ◌/◌, ◌%◌}
use Prim.Native.String.{String, ◌++◌ as ◌+ˢ◌, []}
use mathlib.Core.Path.{◌≡◌, refl}
use k8s_mcp_agent.Prelude.Tests.{ltb, if◌then◌else◌}

abbrev digit : ℕ → String
digit zero = "0"
digit (suc zero) = "1"
digit (suc (suc zero)) = "2"
digit (suc (suc (suc zero))) = "3"
digit (suc (suc (suc (suc zero)))) = "4"
digit (suc (suc (suc (suc (suc zero))))) = "5"
digit (suc (suc (suc (suc (suc (suc zero)))))) = "6"
digit (suc (suc (suc (suc (suc (suc (suc zero))))))) = "7"
digit (suc (suc (suc (suc (suc (suc (suc (suc zero)))))))) = "8"
digit _ = "9"

-- The digits above the last, for `fuel` digits at most.
digits : ℕ → ℕ → String
digits zero n = []
digits (suc fuel) n =
    let above = digits fuel (n / 10) in if ltb n 10 then digit n else above +ˢ digit (n % 10)

-- A number below 10 ^ 20, so every uint64, has 20 digits at most.
unfoldable pub show_ℕ : ℕ → String
unfolding digits
show_ℕ n = digits 20 n

show_ℕ_tests :
    (show_ℕ 0 ≡ "0")
    × (show_ℕ 70000 ≡ "70000")
    × (show_ℕ 18446744073709551615 ≡ "18446744073709551615")
unfolding show_ℕ
show_ℕ_tests = (refl, refl, refl)
