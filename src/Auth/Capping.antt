-- ===== src/Auth/Capping.antt =====
-- `cappedMap` of server/auth.ts: which entries are dropped when the lock file grows too long.
use mathlib.Core.List.{Perm, append-nil}
use mathlib.Core.List.Perm
use bored_manager.Base.{
  ℕ, zero, suc, ◌≤◌, ◌<◌, ◌≡◌, ◌⊎◌, min, is_some, take-append-drop, All-map, refl, String, true,
  false, List, [], ◌∷◌, ◌++◌, length, arith, Bool-cases, inl, inr, All, take, drop, length-take,
  leb,
}
use bored_manager.Base.Dict.{Dict}
use bored_manager.Auth.{
  LockEntry, max_lock_entries, goes_before, insert_sorted, sort_entries, capped_map,
}

abbrev Entry : Type 0
Entry = String × LockEntry

-- No entry of the list goes before the given one.
abbrev NoneBefore : Entry → List Entry → Type 0
NoneBefore x ys = All (λ y. goes_before y.1 x.1 ≡ false) ys

abbrev IsRanked : List Entry → Type 0
IsRanked [] = Unit
IsRanked (x ∷ xs) = NoneBefore x xs × IsRanked xs

goes_before_trans :
    (x y z : LockEntry)
    → goes_before y x ≡ false
    → goes_before z y ≡ false
    → goes_before z x ≡ false
goes_before_trans x y z h k = ground arith

goes_before_asym : (x y : LockEntry) → goes_before y x ≡ true → goes_before x y ≡ false
goes_before_asym x y h = ground arith

NoneBefore-trans :
    (x y : Entry) (zs : List Entry)
    → goes_before y.1 x.1 ≡ false
    → NoneBefore y zs
    → NoneBefore x zs
NoneBefore-trans x y [] h k = tt
NoneBefore-trans x y (z ∷ zs) h k =
    (goes_before_trans x.1 y.1 z.1 h k.0, NoneBefore-trans x y zs h k.1)

NoneBefore-insert :
    (w x : Entry) (ys : List Entry)
    → goes_before x.1 w.1 ≡ false
    → NoneBefore w ys
    → NoneBefore w (insert_sorted x ys)
unfolding insert_sorted
NoneBefore-insert w x [] h k = (h, tt)
NoneBefore-insert w x (y ∷ ys) h k = ground (arith, NoneBefore-insert w x ys h k.1)

insert_sorted-IsRanked : (x : Entry) (ys : List Entry) → IsRanked ys → IsRanked (insert_sorted x ys)
unfolding insert_sorted
insert_sorted-IsRanked x [] r = (tt, tt)
insert_sorted-IsRanked x (y ∷ ys) r = elim (Bool-cases (goes_before y.1 x.1)) [
  | inl later ↦ rw later (
    NoneBefore-insert y x ys (goes_before_asym x.1 y.1 later) r.0,
    insert_sorted-IsRanked x ys r.1,
  )
  | inr here ↦ rw here ((here, NoneBefore-trans x y ys here r.0), r)
]

sort_entries-IsRanked : (xs : List Entry) → IsRanked (sort_entries xs)
unfolding sort_entries
sort_entries-IsRanked [] = tt
sort_entries-IsRanked (x ∷ xs) =
    insert_sorted-IsRanked x (sort_entries xs) (sort_entries-IsRanked xs)

insert_sorted-perm : (x : Entry) (ys : List Entry) → Perm (insert_sorted x ys) (x ∷ ys)
unfolding insert_sorted
insert_sorted-perm x [] = Perm.refl (x ∷ [])
insert_sorted-perm x (y ∷ ys) = elim (Bool-cases (goes_before y.1 x.1)) [
  | inl later ↦ rw later (Perm.trans (Perm.cons y (insert_sorted-perm x ys)) (Perm.swap x y ys))
  | inr here ↦ rw here (Perm.refl (x ∷ y ∷ ys))
]

sort_entries-perm : (xs : List Entry) → Perm (sort_entries xs) xs
unfolding sort_entries
sort_entries-perm [] = Perm.refl []
sort_entries-perm (x ∷ xs) =
    Perm.trans (insert_sorted-perm x (sort_entries xs)) (Perm.cons x (sort_entries-perm xs))

length-insert_sorted : (x : Entry) (ys : List Entry) → length (insert_sorted x ys) ≡ suc (length ys)
unfolding insert_sorted
length-insert_sorted x [] = refl
length-insert_sorted x (y ∷ ys) = ground (arith, length-insert_sorted x ys)

length-sort_entries : (xs : List Entry) → length (sort_entries xs) ≡ length xs
unfolding sort_entries
length-sort_entries [] = refl
length-sort_entries (x ∷ xs) =
    omega (arith, length-insert_sorted x (sort_entries xs), length-sort_entries xs)

NoneBefore-drop : (n : ℕ) (x : Entry) (ys : List Entry) → NoneBefore x ys → NoneBefore x (drop n ys)
NoneBefore-drop zero x ys h = h
NoneBefore-drop (suc n) x [] h = tt
NoneBefore-drop (suc n) x (y ∷ ys) h = NoneBefore-drop n x ys h.1

take-drop-ranked :
    (n : ℕ) (xs : List Entry) → IsRanked xs → All (λ x. NoneBefore x (drop n xs)) (take n xs)
take-drop-ranked zero xs r = tt
take-drop-ranked (suc n) [] r = tt
take-drop-ranked (suc n) (x ∷ xs) r = (NoneBefore-drop n x xs r.0, take-drop-ranked n xs r.1)

-- The entry may be dropped where the other is kept: only the other is locked, or both are or neither
-- is and the other was changed no earlier.
abbrev pub Yields : LockEntry → LockEntry → Type 0
Yields dropped kept =
    ((is_some kept.locked_at ≡ true) × (is_some dropped.locked_at ≡ false))
    ⊎ ((is_some kept.locked_at ≡ is_some dropped.locked_at)
        × (dropped.updated_at ≤ kept.updated_at))

goes_before-Yields : (k d : LockEntry) → goes_before d k ≡ false → Yields d k
goes_before-Yields k d h = elim (Bool-cases (is_some k.locked_at)) [
  | inl e ↦ elim (Bool-cases (is_some d.locked_at)) [
    | inl f ↦ inr (rw (e, f) refl, ground arith)
    | inr f ↦ inl (e, f)
  ]
  | inr e ↦ elim (Bool-cases (is_some d.locked_at)) [
    | inl f ↦ absurd (ground arith)
    | inr f ↦ inr (rw (e, f) refl, ground arith)
  ]
]

-- What `cappedMap` keeps and drops.
pub record IsCapped (source kept dropped : List Entry) : Type 0 where
  pub counted : length kept ≡ min (length source) max_lock_entries
  pub complete : Perm (kept ++ dropped) source
  pub best : All (λ k. All (λ d. Yields d.1 k.1) dropped) kept
  pub in_place : (kept ≡ source) ⊎ (max_lock_entries < length source)

AllYield-nil : (xs : List Entry) → All (λ (k : Entry). All (λ (d : Entry). Yields d.1 k.1) []) xs
AllYield-nil [] = tt
AllYield-nil (x ∷ xs) = (tt, AllYield-nil xs)

-- A lock map of up to 2048 entries is written as it is; of a longer one exactly 2048 entries are
-- kept, and an entry is dropped while another is kept only if that one is locked and it is not, or
-- both or neither are and that one was changed no earlier.
pub capped_map-IsCapped :
    (source : Dict String LockEntry)
    → (dropped : List Entry) × IsCapped source (capped_map source) dropped
unfolding capped_map
capped_map-IsCapped source = elim (Bool-cases (leb (length source) max_lock_entries)) [
  | inl small ↦
      rw (small, capped_map)
        (
          [],
          record {
            counted = ground arith;
            complete = rw (append-nil source) (Perm.refl source);
            best = AllYield-nil source;
            in_place = inl refl;
          },
        )
  | inr large ↦
      let sorted = sort_entries source in
      let dropped = drop max_lock_entries sorted in
      rw (large, capped_map)
        (
          dropped,
          record {
            counted =
                ground (arith, length-take max_lock_entries sorted, length-sort_entries source);
            complete = rw (take-append-drop max_lock_entries sorted) (sort_entries-perm source);
            best =
                All-map (λ k. NoneBefore k dropped) (λ k. All (λ d. Yields d.1 k.1) dropped)
                  (take max_lock_entries sorted)
                  (λ k.
                    All-map (λ d. goes_before d.1 k.1 ≡ false) (λ d. Yields d.1 k.1) dropped
                      (λ d. goes_before-Yields k.1 d.1))
                  (take-drop-ranked max_lock_entries sorted (sort_entries-IsRanked source));
            in_place = inr (ground arith);
          },
        )
]
