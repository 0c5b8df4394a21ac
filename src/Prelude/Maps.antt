-- ===== src/Prelude/Maps.antt =====
-- The program's maps with identifiers as keys: association lists. The order of the entries stands
-- for the table's own order of iteration, which the program leaves open.
use Prim.Native.Nat.{ℕ, suc, ◌≤◌}
use mathlib.Core.Path.{◌≡◌, refl}
use mathlib.Core.Bool.{Bool, true}
use mathlib.Core.List.{List, [], ◌∷◌}
use mathlib.Core.Option.{Option, none, some}
use native.Mathlib.Omega.{arith}
use guigu_agent_bridge.Prelude.Tests.{◌==◌, if◌then◌else◌, is_some}
use guigu_agent_bridge.Prelude.Lists.{length}

abbrev pub Map {ℓ} : Type ℓ → Type ℓ
Map V = List (ℕ × V)

module _ {ℓ} {V : Type ℓ} where
  unfoldable pub remove : ℕ → Map V → Map V
  remove k [] = []
  remove k ((j, w) ∷ m) = if j == k then remove k m else (j, w) ∷ remove k m

  unfoldable pub lookup : ℕ → Map V → Option V
  lookup id [] = none
  lookup id ((found, value) ∷ rest) = if found == id then some value else lookup id rest

  abbrev pub contains_key : ℕ → Map V → Bool
  contains_key k m = is_some (lookup k m)

  unfoldable pub insert : ℕ → V → Map V → Map V
  insert id value [] = (id, value) ∷ []
  insert id value ((found, old) ∷ rest) =
      if found == id then (id, value) ∷ rest else (found, old) ∷ insert id value rest

  pub lookup-insert :
      (id other : ℕ) (value : V) (entries : Map V)
      → lookup other (insert id value entries)
        ≡ (if id == other then some value else lookup other entries)
  unfolding lookup insert
  lookup-insert id other value [] = refl
  lookup-insert id other value ((found, old) ∷ rest) =
      ground (arith, lookup-insert id other value rest)

  pub lookup-remove :
      (k j : ℕ) (m : Map V) → lookup j (remove k m) ≡ (if k == j then none else lookup j m)
  unfolding lookup remove
  lookup-remove k j [] = ground arith
  lookup-remove k j ((i, w) ∷ m) = ground (arith, lookup-remove k j m)

  pub length-remove-le : (k : ℕ) (m : Map V) → length (remove k m) ≤ length m
  unfolding remove
  length-remove-le k [] = omega arith
  length-remove-le k ((j, w) ∷ m) = ground (arith, length-remove-le k m)

  pub length-remove-lt :
      (k : ℕ) (m : Map V) → contains_key k m ≡ true → suc (length (remove k m)) ≤ length m
  unfolding remove lookup
  length-remove-lt k [] h = ground arith
  length-remove-lt k ((j, w) ∷ m) h = ground (arith, length-remove-lt k m, length-remove-le k m)

  pub length-insert-le : (k : ℕ) (v : V) (m : Map V) → length (insert k v m) ≤ suc (length m)
  unfolding insert
  length-insert-le k v [] = omega arith
  length-insert-le k v ((j, w) ∷ m) = ground (arith, length-insert-le k v m)
