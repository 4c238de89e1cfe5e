-- ===== src/Prelude/GoMap.antt =====
-- Go's map[string]V: reading a missing key gives the zero value, writing replaces, and `delete`
-- of a missing key does nothing. The programs here never depend on the order of entries.
use Prim.Native.String.{String}
use mathlib.Core.Path.{◌≡◌}
use mathlib.Core.Option.{Option, none, some}
use mathlib.Core.List.{List, [], ◌∷◌}
use native.Mathlib.Omega.{arith}
use text.Mathlib.TextEquality.{eq_iff}
use k8s_mcp_agent.Prelude.Tests.{◌=ˢ◌, if◌then◌else◌}

abbrev pub GoMap {ℓ} : Type ℓ → Type ℓ
GoMap V = List (String × V)

module _ {ℓ} {V : Type ℓ} where
  -- v, ok := m[key]
  unfoldable pub lookup : GoMap V → String → Option V
  lookup [] key = none
  lookup ((k, v) ∷ m) key = if k =ˢ key then some v else lookup m key

  -- delete(m, key)
  unfoldable pub delete : GoMap V → String → GoMap V
  delete [] key = []
  delete ((k, v) ∷ m) key = let rest = delete m key in if k =ˢ key then rest else (k, v) ∷ rest

  -- m[key] = v
  unfoldable pub store : GoMap V → String → V → GoMap V
  unfolding delete
  store m key v = (key, v) ∷ delete m key

  abbrev pub or_zero : V → Option V → V
  or_zero z none = z
  or_zero z (some v) = v

  -- m[key], with the zero value of the element type.
  abbrev pub index : V → GoMap V → String → V
  index z m key = or_zero z (lookup m key)

  pub lookup-delete :
      (m : GoMap V) (key j : String)
      → lookup (delete m key) j ≡ (if key =ˢ j then none else lookup m j)
  unfolding lookup delete
  lookup-delete [] key j = ground arith
  lookup-delete ((k, v) ∷ m) key j =
      ground (arith, lookup-delete m key j, eq_iff k key, eq_iff k j, eq_iff key j)

  pub lookup-store :
      (m : GoMap V) (key j : String) (v : V)
      → lookup (store m key v) j ≡ (if key =ˢ j then some v else lookup m j)
  unfolding lookup store
  lookup-store m key j v = ground (arith, lookup-delete m key j)

pub ruleset map_laws = (lookup-delete, lookup-store)
