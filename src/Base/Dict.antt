-- ===== src/Base/Dict.antt =====
-- Tables with a key: association lists, with the laws that their clients go by.
use Prim.Native.Nat.{ℕ, ◌+◌, ◌≤◌}
use mathlib.Core.Path.{◌≡◌, refl}
use mathlib.Core.Option.{Option, none, some}
use mathlib.Core.List.{List, [], ◌∷◌}
use native.Mathlib.Omega.{arith}
use backuply.Base.Tests.{if◌then◌else◌}
use backuply.Base.Equality.{Eq, ◌==◌}

abbrev pub Dict {ℓ κ} : Type ℓ → Type κ → Type (ℓ ⊔ κ)
Dict K V = List (K × V)

module _ {ℓ κ} {K : Type ℓ} {V : Type κ} ⦃e : Eq K⦄ where
  unfoldable pub lookup : K → Dict K V → Option V
  lookup k [] = none
  lookup k ((j, v) ∷ d) = if k == j then some v else lookup k d

  unfoldable pub insert : K → V → Dict K V → Dict K V
  insert k v [] = (k, v) ∷ []
  insert k v ((j, w) ∷ d) = if k == j then (k, v) ∷ d else (j, w) ∷ insert k v d

  -- Every entry of the key goes; a table has at most one.
  unfoldable pub erase : K → Dict K V → Dict K V
  erase k [] = []
  erase k ((j, w) ∷ d) = let rest = erase k d in if k == j then rest else (j, w) ∷ rest

  pub lookup-insert :
      (j k : K) (v : V) (d : Dict K V)
      → lookup j (insert k v d) ≡ (if j == k then some v else lookup j d)
  unfolding insert lookup
  lookup-insert j k v [] = refl
  lookup-insert j k v ((i, w) ∷ d) = ground (arith, lookup-insert j k v d)

  pub lookup-erase :
      (j k : K) (d : Dict K V) → lookup j (erase k d) ≡ (if j == k then none else lookup j d)
  unfolding erase lookup
  lookup-erase j k [] = ground arith
  lookup-erase j k ((i, w) ∷ d) = ground (arith, lookup-erase j k d)

  -- A sum over the entries.
  unfoldable pub total : (K → V → ℕ) → Dict K V → ℕ
  total f [] = 0
  total f ((k, v) ∷ d) = f k v + total f d

  abbrev pub weigh : (K → V → ℕ) → K → Option V → ℕ
  weigh f k none = 0
  weigh f k (some v) = f k v

  -- What `insert` replaces leaves the sum, and what it puts there joins it.
  pub total-insert :
      (f : K → V → ℕ) (k : K) (v : V) (d : Dict K V)
      → total f (insert k v d) + weigh f k (lookup k d) ≡ total f d + f k v
  unfolding insert lookup total
  total-insert f k v [] = omega arith
  total-insert f k v ((j, w) ∷ d) = ground (arith, total-insert f k v d)

module _ {ℓ κ} {K : Type ℓ} {V : Type κ} ⦃e : Eq K⦄ where
  -- An entry that is there counts.
  pub weigh-le-total : (f : K → V → ℕ) (k : K) (d : Dict K V) → weigh f k (lookup k d) ≤ total f d
  unfolding lookup total
  weigh-le-total f k [] = omega arith
  weigh-le-total f k ((j, w) ∷ d) = ground (arith, weigh-le-total f k d)

pub ruleset dict_laws = (lookup-insert, lookup-erase)
