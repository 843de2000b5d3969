-- ===== src/Prelude/Dict.antt =====
-- Go's `map[string]V` as an association list. Its order stands for the order in which a `range`
-- loop visits the keys, which Go leaves open: what holds for every list holds for every order.
use Prim.Native.String.{String}
use mathlib.Core.Path.{◌≡◌, refl}
use mathlib.Core.Option.{Option, none, some}
use mathlib.Core.List.{List, [], ◌∷◌}
use native.Mathlib.Omega.{arith}
use text.Mathlib.Text.{◌==◌}
use text.Mathlib.TextEquality.{eq_iff}
use beegfs_csi_driver.Prelude.Tests.{if◌then◌else◌}

abbrev pub Dict {ℓ} : Type ℓ → Type ℓ
Dict V = List (String × V)

module _ {ℓ} {V : Type ℓ} where
  -- v, ok := m[k]
  unfoldable pub lookup : String → Dict V → Option V
  lookup k [] = none
  lookup k ((key, old) ∷ rest) = if key == k then some old else lookup k rest

  -- m[k] = v
  unfoldable pub insert : String → V → Dict V → Dict V
  insert k new [] = (k, new) ∷ []
  insert k new ((key, old) ∷ rest) =
      if key == k then (k, new) ∷ rest else (key, old) ∷ insert k new rest

  -- delete(m, k)
  unfoldable pub erase : String → Dict V → Dict V
  erase k [] = []
  erase k ((key, old) ∷ rest) =
      let erased = erase k rest in if key == k then erased else (key, old) ∷ erased

  -- No key occurs twice, as in every Go map.
  abbrev pub NodupKeys : Dict V → Type ℓ
  NodupKeys [] = Unit
  NodupKeys ((key, _) ∷ rest) = (lookup key rest ≡ none) × NodupKeys rest

  pub lookup-insert :
      (k j : String) (new : V) (m : Dict V)
      → lookup j (insert k new m) ≡ (if k == j then some new else lookup j m)
  unfolding lookup insert
  lookup-insert k j new [] = refl
  lookup-insert k j new ((key, old) ∷ rest) =
      ground (arith, lookup-insert k j new rest, eq_iff key j, eq_iff key k, eq_iff k j)

  pub lookup-erase :
      (k j : String) (m : Dict V) → lookup j (erase k m) ≡ (if k == j then none else lookup j m)
  unfolding lookup erase
  lookup-erase k j [] = ground arith
  lookup-erase k j ((key, old) ∷ rest) =
      ground (arith, lookup-erase k j rest, eq_iff key j, eq_iff key k, eq_iff k j)

  pub erase_absent : (k : String) (m : Dict V) → lookup k m ≡ none → erase k m ≡ m
  unfolding lookup erase
  erase_absent k [] h = refl
  erase_absent k ((key, old) ∷ rest) h = ground (arith, erase_absent k rest)
