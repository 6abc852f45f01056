-- ===== src/Base/Dict/Within.antt =====
-- Maps whose keys come from a list: they have no more entries than the list.
use bored_manager.Base.Tests.{Key, ◌==◌, Bool-cases}
use bored_manager.Base.Lists.{length, All, any, keep, length-keep}
use bored_manager.Base.Dict.{Dict, get, insert, erase}
use bored_manager.Base.Dict.Distinct.{IsDistinct}
use Prim.Native.Nat.{suc, ◌≤◌}
use mathlib.Core.Path.{◌≡◌}
use mathlib.Core.Logic.{inl, inr}
use mathlib.Core.Bool.{true, false, not}
use mathlib.Core.Option.{none}
use mathlib.Core.List.{List, [], ◌∷◌}
use native.Mathlib.Omega.{arith}

module _ {ℓ} {K : Type ℓ} ⦃e : Key K⦄ where
  abbrev pub IsIn : K → List K → Type 0
  IsIn k ks = any (λ j. j == k) ks ≡ true

  abbrev others : K → List K → List K
  others k = keep (λ j. not (j == k))

  length-others : (k : K) (ks : List K) → IsIn k ks → suc (length (others k ks)) ≤ length ks
  length-others k [] h = cc
  length-others k (j ∷ ks) h =
      ground (arith, length-others k ks, length-keep (λ i. not (i == k)) ks)

  IsIn-others : (k j : K) (ks : List K) → k == j ≡ false → IsIn j ks → IsIn j (others k ks)
  IsIn-others k j [] ne h = cc
  IsIn-others k j (i ∷ ks) ne h =
      ground (arith, IsIn-others k j ks ne, e.equal_iff i k, e.equal_iff i j, e.equal_iff k j)

module _ {ℓ κ} {K : Type ℓ} {V : Type κ} ⦃e : Key K⦄ where
  -- Every key of the map is in the list.
  abbrev pub KeysIn : List K → Dict K V → Type 0
  KeysIn ks = All (λ x. IsIn x.0 ks)

  KeysIn-others :
      (k : K) (ks : List K) (m : Dict K V) → get k m ≡ none → KeysIn ks m → KeysIn (others k ks) m
  unfolding get
  KeysIn-others k ks [] q h = tt
  KeysIn-others k ks ((j, v) ∷ m) q h = elim (Bool-cases (j == k)) [
    | inl same ↦ absurd (ground arith)
    | inr other ↦ (
      IsIn-others k j ks (ground (arith, e.equal_iff j k, e.equal_iff k j)) h.0,
      KeysIn-others k ks m (ground arith) h.1,
    )
  ]

  pub length-KeysIn :
      (ks : List K) (m : Dict K V) → IsDistinct m → KeysIn ks m → length m ≤ length ks
  length-KeysIn ks [] d h = omega arith
  length-KeysIn ks ((k, v) ∷ m) d h = omega (
    arith,
    length-others k ks h.0,
    length-KeysIn (others k ks) m d.1 (KeysIn-others k ks m d.0 h.1),
  )

  pub insert-KeysIn :
      (ks : List K) (k : K) (v : V) (m : Dict K V)
      → IsIn k ks
      → KeysIn ks m
      → KeysIn ks (insert k v m)
  unfolding insert
  insert-KeysIn ks k v [] i h = (i, tt)
  insert-KeysIn ks k v ((j, w) ∷ m) i h = elim (Bool-cases (j == k)) [
    | inl same ↦ rw (same, insert) h
    | inr other ↦ rw (other, insert) (h.0, insert-KeysIn ks k v m i h.1)
  ]

  pub erase-KeysIn : (ks : List K) (k : K) (m : Dict K V) → KeysIn ks m → KeysIn ks (erase k m)
  unfolding erase
  erase-KeysIn ks k [] h = tt
  erase-KeysIn ks k ((j, w) ∷ m) h = elim (Bool-cases (j == k)) [
    | inl same ↦ rw (same, erase) (erase-KeysIn ks k m h.1)
    | inr other ↦ rw (other, erase) (h.0, erase-KeysIn ks k m h.1)
  ]
