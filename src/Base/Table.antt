-- ===== src/Base/Table.antt =====
-- Go's `map[string]V` as an association list; a lookup reads the first entry of a key.
use mathlib.Core.Path.{◌≡◌, refl}
use mathlib.Core.Bool.{true, false}
use mathlib.Core.Option.{Option, none, some}
use mathlib.Core.List.{List, [], ◌∷◌}
use native.Mathlib.Omega.{arith}
use tick_framework.Base.Tests.{if◌then◌else◌}
use tick_framework.Base.Text.{Bytes, bytes_eq, bytes_eq_iff}

abbrev pub GoMap {ℓ} : Type ℓ → Type ℓ
GoMap V = List (Bytes × V)

module _ {ℓ} {V : Type ℓ} where
  -- `m[k]` with its `ok`
  unfoldable pub lookup : Bytes → GoMap V → Option V
  lookup k [] = none
  lookup k ((j, v) ∷ m) = if bytes_eq j k then some v else lookup k m

  -- `m[k] = v`
  unfoldable pub assign : Bytes → V → GoMap V → GoMap V
  assign k v [] = (k, v) ∷ []
  assign k v ((j, w) ∷ m) = if bytes_eq j k then (k, v) ∷ m else (j, w) ∷ assign k v m

  -- `delete(m, k)`
  unfoldable pub delete : Bytes → GoMap V → GoMap V
  delete k [] = []
  delete k ((j, w) ∷ m) = if bytes_eq j k then delete k m else (j, w) ∷ delete k m

  pub lookup-assign :
      (k j : Bytes) (v : V) (m : GoMap V)
      → lookup j (assign k v m) ≡ (if bytes_eq k j then some v else lookup j m)
  unfolding lookup assign
  lookup-assign k j v [] = refl
  lookup-assign k j v ((i, w) ∷ m) =
      ground (arith, bytes_eq_iff k j, bytes_eq_iff i k, bytes_eq_iff i j, lookup-assign k j v m)

  pub lookup-delete :
      (k j : Bytes) (m : GoMap V)
      → lookup j (delete k m) ≡ (if bytes_eq k j then none else lookup j m)
  unfolding lookup delete
  lookup-delete k j [] = ground arith
  lookup-delete k j ((i, w) ∷ m) =
      ground (arith, bytes_eq_iff k j, bytes_eq_iff i k, bytes_eq_iff i j, lookup-delete k j m)

  pub lookup-assign_eq :
      (k j : Bytes) (v : V) (m : GoMap V) → bytes_eq k j ≡ true → lookup j (assign k v m) ≡ some v
  lookup-assign_eq k j v m h = rw (lookup-assign k j v m, h)

  pub lookup-assign_ne :
      (k j : Bytes) (v : V) (m : GoMap V)
      → bytes_eq k j ≡ false
      → lookup j (assign k v m) ≡ lookup j m
  lookup-assign_ne k j v m h = rw (lookup-assign k j v m, h)

  pub lookup-delete_eq :
      (k j : Bytes) (m : GoMap V) → bytes_eq k j ≡ true → lookup j (delete k m) ≡ none
  lookup-delete_eq k j m h = rw (lookup-delete k j m, h)

  pub lookup-delete_ne :
      (k j : Bytes) (m : GoMap V) → bytes_eq k j ≡ false → lookup j (delete k m) ≡ lookup j m
  lookup-delete_ne k j m h = rw (lookup-delete k j m, h)
