-- ===== src/Base/Dict/Distinct.antt =====
-- Maps that bind no key twice, and how a predicate of all their bindings follows an update.
use bored_manager.Base.Tests.{Key, ◌==◌, if◌then◌else◌, Bool-cases, leb}
use bored_manager.Base.Lists.{length, All, keep}
use bored_manager.Base.Dict.{Dict, get, insert, erase, get-insert, get-erase}
use Prim.Native.Nat.{ℕ, ◌≤◌, ◌+◌}
use mathlib.Core.Path.{◌≡◌, refl, subst}
use mathlib.Core.Logic.{inl, inr, ◌≢◌}
use mathlib.Core.Bool.{Bool}
use mathlib.Core.Option.{none}
use mathlib.Core.List.{[], ◌∷◌}
use native.Mathlib.Omega.{arith}

module _ {ℓ κ} {K : Type ℓ} {V : Type κ} ⦃e : Key K⦄ where
  abbrev pub IsDistinct : Dict K V → Type κ
  IsDistinct [] = Unit
  IsDistinct ((k, v) ∷ m) = (get k m ≡ none) × IsDistinct m

  -- `while (map.size >= cap) map.delete(oldest)`
  unfoldable pub drop_oldest : ℕ → Dict K V → Dict K V
  drop_oldest cap [] = []
  drop_oldest cap (x ∷ m) =
      let rest = drop_oldest cap m in if leb cap (length (x ∷ m)) then rest else x ∷ m

  pub length-drop_oldest : (cap : ℕ) (m : Dict K V) → 1 ≤ cap → 1 + length (drop_oldest cap m) ≤ cap
  unfolding drop_oldest
  length-drop_oldest cap [] pos = omega arith
  length-drop_oldest cap (x ∷ m) pos = ground (arith, length-drop_oldest cap m pos)

  absent-keep : (q : K × V → Bool) (k : K) (m : Dict K V) → get k m ≡ none → get k (keep q m) ≡ none
  unfolding get
  absent-keep q k [] h = refl
  absent-keep q k ((j, v) ∷ m) h = ground (arith, absent-keep q k m)

  pub keep-IsDistinct : (q : K × V → Bool) (m : Dict K V) → IsDistinct m → IsDistinct (keep q m)
  keep-IsDistinct q [] h = tt
  keep-IsDistinct q ((k, v) ∷ m) h = ground (arith, keep-IsDistinct q m h.1, absent-keep q k m h.0)

  pub drop_oldest-IsDistinct :
      (cap : ℕ) (m : Dict K V) → IsDistinct m → IsDistinct (drop_oldest cap m)
  unfolding drop_oldest
  drop_oldest-IsDistinct cap [] h = tt
  drop_oldest-IsDistinct cap ((k, v) ∷ m) h = ground (arith, drop_oldest-IsDistinct cap m h.1)

  pub erase-IsDistinct : (k : K) (m : Dict K V) → IsDistinct m → IsDistinct (erase k m)
  unfolding erase
  erase-IsDistinct k [] h = tt
  erase-IsDistinct k ((j, v) ∷ m) h = ground (arith, erase-IsDistinct k m h.1, get-erase k j m)

  pub insert-IsDistinct : (k : K) (v : V) (m : Dict K V) → IsDistinct m → IsDistinct (insert k v m)
  unfolding insert get
  insert-IsDistinct k v [] h = (refl, tt)
  insert-IsDistinct k v ((j, w) ∷ m) h =
      ground
        (arith, insert-IsDistinct k v m h.1, get-insert k j v m, e.equal_iff k j, e.equal_iff j k)

module _ {ℓ κ μ} {K : Type ℓ} {V : Type κ} ⦃e : Key K⦄ (P Q : K × V → Type μ) where
  pub All-absent :
      (k : K) (m : Dict K V)
      → get k m ≡ none
      → ((j : K) (v : V) → j ≢ k → P (j, v) → Q (j, v))
      → All P m
      → All Q m
  unfolding get
  All-absent k [] n f h = tt
  All-absent k ((j, v) ∷ m) n f h =
      (f j v (λ q. ground (arith, e.equal_iff j k)) h.0, All-absent k m (ground arith) f h.1)

  pub All-erase_others :
      (k : K) (m : Dict K V)
      → ((j : K) (v : V) → j ≢ k → P (j, v) → Q (j, v))
      → All P m
      → All Q (erase k m)
  unfolding erase
  All-erase_others k [] f h = tt
  All-erase_others k ((j, v) ∷ m) f h = elim (Bool-cases (j == k)) [
    | inl same ↦ ground (arith, All-erase_others k m f h.1)
    | inr other ↦
        ground (arith, All-erase_others k m f h.1, f j v (λ q. ground (arith, e.equal_iff j k)) h.0)
  ]

  pub All-insert_others :
      (k : K) (v : V) (m : Dict K V)
      → IsDistinct m
      → Q (k, v)
      → ((j : K) (w : V) → j ≢ k → P (j, w) → Q (j, w))
      → All P m
      → All Q (insert k v m)
  unfolding insert
  All-insert_others k v [] d q f h = (q, tt)
  All-insert_others k v ((j, w) ∷ m) d q f h = elim (Bool-cases (j == k)) [
    | inl same ↦
        let eq : j ≡ k = (e.equal_iff j k).0 same in
        rw (same, eq) (q, All-absent k m (subst (λ x. get x m ≡ none) eq d.0) f h.1)
    | inr other ↦
        rw other
          (f j w (λ p. ground (arith, e.equal_iff j k)) h.0, All-insert_others k v m d.1 q f h.1)
  ]

  pub All-drop_oldest : (cap : ℕ) (m : Dict K V) → All P m → All P (drop_oldest cap m)
  unfolding drop_oldest
  All-drop_oldest cap [] h = tt
  All-drop_oldest cap (x ∷ m) h = ground (arith, All-drop_oldest cap m h.1)
