-- ===== src/Base/Dict.antt =====
-- JavaScript's `Map` and plain objects used as maps: an association list in insertion order, in
-- which a second `set` of a key keeps the key's place.
pub mod Distinct
pub mod Within
use bored_manager.Base.Tests.{Key, ◌==◌, if◌then◌else◌, Bool-cases}
use bored_manager.Base.Lists.{length, All, total}
use Prim.Native.Nat.{ℕ, suc, ◌≤◌, ◌+◌}
use mathlib.Core.Path.{◌≡◌, refl}
use mathlib.Core.Logic.{inl, inr}
use mathlib.Core.Bool.{true}
use mathlib.Core.Option.{Option, none, some}
use mathlib.Core.List.{List, [], ◌∷◌}
use native.Mathlib.Omega.{arith}

abbrev pub Dict {ℓ κ} : Type ℓ → Type κ → Type (ℓ ⊔ κ)
Dict K V = List (K × V)

pub equal_refl {ℓ} : {K : Type ℓ} ⦃e : Key K⦄ (k : K) → (k == k) ≡ true
equal_refl ⦃e⦄ k = (e.equal_iff k k).1 refl

module _ {ℓ κ} {K : Type ℓ} {V : Type κ} ⦃e : Key K⦄ where
  unfoldable pub get : K → Dict K V → Option V
  get k [] = none
  get k ((j, v) ∷ m) = if j == k then some v else get k m

  unfoldable pub insert : K → V → Dict K V → Dict K V
  insert k v [] = (k, v) ∷ []
  insert k v ((j, w) ∷ m) = if j == k then (j, v) ∷ m else (j, w) ∷ insert k v m

  unfoldable pub erase : K → Dict K V → Dict K V
  erase k [] = []
  erase k ((j, w) ∷ m) = let rest = erase k m in if j == k then rest else (j, w) ∷ rest

  pub get-insert :
      (k j : K) (v : V) (m : Dict K V) → get j (insert k v m) ≡ (if k == j then some v else get j m)
  unfolding get insert
  get-insert k j v [] = refl
  get-insert k j v ((i, w) ∷ m) =
      ground (arith, e.equal_iff k j, e.equal_iff i k, e.equal_iff i j, get-insert k j v m)

  pub get-erase : (k j : K) (m : Dict K V) → get j (erase k m) ≡ (if k == j then none else get j m)
  unfolding get erase
  get-erase k j [] = ground arith
  get-erase k j ((i, w) ∷ m) =
      ground (arith, e.equal_iff k j, e.equal_iff i k, e.equal_iff i j, get-erase k j m)

  pub get-insert_self : (k : K) (v : V) (m : Dict K V) → get k (insert k v m) ≡ some v
  get-insert_self k v m = rw (get-insert k k v m, equal_refl k)

  pub get-erase_self : (k : K) (m : Dict K V) → get k (erase k m) ≡ none
  get-erase_self k m = rw (get-erase k k m, equal_refl k)

  pub length-insert : (k : K) (v : V) (m : Dict K V) → length (insert k v m) ≤ suc (length m)
  unfolding insert
  length-insert k v [] = omega arith
  length-insert k v ((i, w) ∷ m) = ground (arith, length-insert k v m)

  pub length-erase : (k : K) (m : Dict K V) → length (erase k m) ≤ length m
  unfolding erase
  length-erase k [] = omega arith
  length-erase k ((i, w) ∷ m) = ground (arith, length-erase k m)

  -- The sum of a weight of the values, and how an update of a bound key moves it.
  abbrev pub total_values : (V → ℕ) → Dict K V → ℕ
  total_values w = total (λ (x : K × V). w x.1)

  pub total_values-insert :
      (w : V → ℕ) (k : K) (v old : V) (m : Dict K V)
      → get k m ≡ some old
      → total_values w (insert k v m) + w old ≡ total_values w m + w v
  unfolding get insert
  total_values-insert w k v old [] h = absurd cc
  total_values-insert w k v old ((j, x) ∷ m) h = ground (arith, total_values-insert w k v old m)

  total_values-erase_le :
      (w : V → ℕ) (k : K) (m : Dict K V) → total_values w (erase k m) ≤ total_values w m
  unfolding erase
  total_values-erase_le w k [] = omega arith
  total_values-erase_le w k ((j, x) ∷ m) = ground (arith, total_values-erase_le w k m)

  pub total_values-erase :
      (w : V → ℕ) (k : K) (old : V) (m : Dict K V)
      → get k m ≡ some old
      → total_values w (erase k m) + w old ≤ total_values w m
  unfolding get erase
  total_values-erase w k old [] h = absurd cc
  total_values-erase w k old ((j, x) ∷ m) h = elim (Bool-cases (j == k)) [
    | inl same ↦ ground (arith, total_values-erase_le w k m)
    | inr other ↦ ground (arith, total_values-erase w k old m (ground arith))
  ]

module _ {ℓ κ μ} {K : Type ℓ} {V : Type κ} ⦃e : Key K⦄ (P : K × V → Type μ) where
  pub All-insert :
      (k : K) (v : V) (m : Dict K V) → ((j : K) → j ≡ k → P (j, v)) → All P m → All P (insert k v m)
  unfolding insert
  All-insert k v [] p h = (p k refl, tt)
  All-insert k v ((i, w) ∷ m) p h = ground (arith, e.equal_iff i k, p i, All-insert k v m p h.1)

  pub All-erase : (k : K) (m : Dict K V) → All P m → All P (erase k m)
  unfolding erase
  All-erase k [] h = tt
  All-erase k ((i, w) ∷ m) h = ground (arith, All-erase k m h.1)

  pub All-get : (k : K) (m : Dict K V) {v : V} → All P m → get k m ≡ some v → P (k, v)
  unfolding get
  All-get k [] h q = cc
  All-get k ((i, w) ∷ m) h q = elim (Bool-cases (i == k)) [
    | inl same ↦ ground (arith, e.equal_iff i k)
    | inr other ↦ All-get k m h.1 (ground arith)
  ]
