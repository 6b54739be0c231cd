-- ===== src/Base/Dict.antt =====
-- A Go map with text keys, as an association list that holds each key once.
use execgo.Base.Tests.{◌==◌, if◌then◌else◌}
use Prim.Native.String.{String}
use mathlib.Core.Path.{◌≡◌, refl}
use mathlib.Core.List.{List, [], ◌∷◌, map}
use execgo.Base.Lists.{In, IsDistinct}
use mathlib.Core.Logic.{◌≢◌, ◌↔◌, ◌⊎◌}
use mathlib.Core.Option.{Option, none, some}
use native.Mathlib.Omega.{arith}
use text.Mathlib.TextEquality.{eq_iff}

abbrev pub Dict {ℓ} : Type ℓ → Type ℓ
Dict V = List (String × V)

module _ {ℓ} {V : Type ℓ} where
  -- `v, ok := m[k]`
  abbrev pub lookup : String → Dict V → Option V
  lookup k [] = none
  lookup k ((j, v) ∷ m) = if j == k then some v else lookup k m

  -- `m[k] = v`
  unfoldable pub insert : String → V → Dict V → Dict V
  insert k v [] = (k, v) ∷ []
  insert k v ((j, w) ∷ m) = if j == k then (k, v) ∷ m else (j, w) ∷ insert k v m

  -- `delete(m, k)`
  unfoldable pub remove : String → Dict V → Dict V
  remove k [] = []
  remove k ((j, w) ∷ m) = if j == k then remove k m else (j, w) ∷ remove k m

  -- `m[k]`, the zero value `d` on a missing key
  abbrev pub get_or : Dict V → String → V → V
  get_or m k d = elim (lookup k m) [ some v ↦ v | none ↦ d ]

  abbrev pub keys : Dict V → List String
  keys m = map (λ e. e.0) m

  pub lookup-insert :
      (k j : String) (v : V) (m : Dict V)
      → lookup j (insert k v m) ≡ (if k == j then some v else lookup j m)
  unfolding insert
  lookup-insert k j v [] = refl
  lookup-insert k j v ((i, w) ∷ m) =
      ground (arith, eq_iff k j, eq_iff i k, eq_iff i j, lookup-insert k j v m)

  pub lookup-insert_other :
      (k j : String) (v : V) (m : Dict V) → k ≢ j → lookup j (insert k v m) ≡ lookup j m
  lookup-insert_other k j v m n = ground (arith, eq_iff k j, lookup-insert k j v m)

  pub lookup-insert_same : (k : String) (v : V) (m : Dict V) → lookup k (insert k v m) ≡ some v
  lookup-insert_same k v m = ground (arith, eq_iff k k, lookup-insert k k v m)

  pub lookup-remove :
      (k j : String) (m : Dict V) → lookup j (remove k m) ≡ (if k == j then none else lookup j m)
  unfolding remove
  lookup-remove k j [] = ground arith
  lookup-remove k j ((i, w) ∷ m) =
      ground (arith, eq_iff k j, eq_iff i k, eq_iff i j, lookup-remove k j m)

module _ {V : Type 0} where
  pub In-keys-insert :
      (k j : String) (v : V) (m : Dict V) → In j (keys (insert k v m)) ↔ ((j ≡ k) ⊎ In j (keys m))
  unfolding insert
  In-keys-insert k j v [] = (λ m. m, λ m. m)
  In-keys-insert k j v ((i, w) ∷ m) = ground (arith, eq_iff i k, In-keys-insert k j v m)

  pub IsDistinct-keys-insert :
      (k : String) (v : V) (m : Dict V) → IsDistinct (keys m) → IsDistinct (keys (insert k v m))
  unfolding insert
  IsDistinct-keys-insert k v [] d = (λ m. m, tt)
  IsDistinct-keys-insert k v ((i, w) ∷ m) d =
      ground (arith, eq_iff i k, In-keys-insert k i v m, IsDistinct-keys-insert k v m)

  pub In-keys_of_lookup : (k : String) (m : Dict V) (v : V) → lookup k m ≡ some v → In k (keys m)
  In-keys_of_lookup k [] v e = cc
  In-keys_of_lookup k ((i, w) ∷ m) v e = ground (arith, eq_iff i k, In-keys_of_lookup k m v)
