-- ===== src/Jobs/Trimmed.antt =====
-- `trimFinishedJob` of modules/openwrt/main/jobs.ts: which items of a finished job are kept, and how.
use mathlib.Core.List.{Perm, append-nil, perm_middle}
use mathlib.Core.List.Perm
use bored_manager.Base.{
  ℕ, zero, suc, ◌≤◌, ◌≡◌, ◌+◌, refl, ◌∙◌, String, none, some, true, false, List, [], ◌∷◌, ◌++◌,
  ◌==◌, nat_key, not, ◌⊎◌, inl, inr, keep, take, drop, map, length, js_length, arith, All, All-drop,
  length-append, Bool-cases, Option-cases, length-take, take-append-drop, ltb, leb, min,
}
use bored_manager.Jobs.{
  JobItem, Job, is_urgent, insert_by_idx, sort_by_idx, selected_items, trim_finished_job,
  clone_item, max_history_items,
}

abbrev pub IsUrgent : JobItem → Type 0
IsUrgent i = is_urgent i.status ≡ true

abbrev pub IsPlain : JobItem → Type 0
IsPlain i = is_urgent i.status ≡ false

abbrev urgent_items : List JobItem → List JobItem
urgent_items = keep (λ i. is_urgent i.status)

abbrev plain_items : List JobItem → List JobItem
plain_items = keep (λ i. not (is_urgent i.status))

-- The two filters take every item once.
parts-perm : (xs : List JobItem) → Perm (urgent_items xs ++ plain_items xs) xs
parts-perm [] = Perm.refl []
parts-perm (x ∷ xs) = elim (Bool-cases (is_urgent x.status)) [
  | inl e ↦ rw e (Perm.cons x (parts-perm xs))
  | inr e ↦
      rw e
        (Perm.trans (perm_middle (urgent_items xs) (plain_items xs)) (Perm.cons x (parts-perm xs)))
]

length-parts : (xs : List JobItem) → length (urgent_items xs) + length (plain_items xs) ≡ length xs
length-parts [] = refl
length-parts (x ∷ xs) = ground (arith, length-parts xs)

urgent_items-All : (xs : List JobItem) → All IsUrgent (urgent_items xs)
urgent_items-All [] = tt
urgent_items-All (x ∷ xs) = ground (arith, urgent_items-All xs)

plain_items-All : (xs : List JobItem) → All IsPlain (plain_items xs)
plain_items-All [] = tt
plain_items-All (x ∷ xs) = ground (arith, plain_items-All xs)

-- Cut where it may be, a list of urgent items and then plain ones gives up plain items only, or
-- keeps urgent items only.
cut-parts :
    (n : ℕ) (us ps : List JobItem)
    → All IsUrgent us
    → All IsPlain ps
    → All IsPlain (drop n (us ++ ps)) ⊎ All IsUrgent (take n (us ++ ps))
cut-parts zero us ps hu hp = inr tt
cut-parts (suc n) [] ps hu hp = inl (All-drop IsPlain (suc n) ps hp)
cut-parts (suc n) (x ∷ us) ps hu hp = elim (cut-parts n us ps hu.1 hp) [
  | inl h ↦ inl h
  | inr h ↦ inr (hu.0, h)
]

-- The chosen items and the others.
pub record Chosen (items kept dropped : List JobItem) : Type 0 where
  complete : Perm (kept ++ dropped) items
  counted : length kept ≡ min max_history_items (length items)
  urgent_first : All IsPlain dropped ⊎ All IsUrgent kept

selected-Chosen :
    (xs : List JobItem) → (dropped : List JobItem) × Chosen xs (selected_items xs) dropped
unfolding selected_items
selected-Chosen xs = elim (Bool-cases (leb (length xs) max_history_items)) [
  | inl small ↦
      rw (small, selected_items)
        (
          [],
          record {
            complete = rw (append-nil xs) (Perm.refl xs);
            counted = ground arith;
            urgent_first = inl tt;
          },
        )
  | inr large ↦
      let us = urgent_items xs in
      let ps = plain_items xs in
      let whole = length-parts xs in
      let joined = length-append us ps in
      rw (large, selected_items)
        (
          drop max_history_items (us ++ ps),
          record {
            complete = rw (take-append-drop max_history_items (us ++ ps)) (parts-perm xs);
            counted = omega (arith, length-take max_history_items (us ++ ps), joined, whole);
            urgent_first =
                cut-parts max_history_items us ps (urgent_items-All xs) (plain_items-All xs);
          },
        )
]

-- The same item, save that an empty message is left out.
pub record IsCopy (item copy : JobItem) : Type 0 where
  same_idx : copy.idx ≡ item.idx
  same_name : copy.name ≡ item.name
  same_status : copy.status ≡ item.status
  same_ms : copy.ms ≡ item.ms
  same_message :
      (copy.message ≡ item.message)
      ⊎ ((copy.message ≡ none) × (m : String) × (item.message ≡ some m) × (js_length m ≡ 0))

abbrev pub AreCopies : List JobItem → List JobItem → Type 0
AreCopies [] [] = Unit
AreCopies (x ∷ xs) (y ∷ ys) = IsCopy x y × AreCopies xs ys
AreCopies _ _ = false ≡ true

clone-IsCopy : (i : JobItem) → IsCopy i (clone_item i)
clone-IsCopy i = record {
  same_idx = refl;
  same_name = refl;
  same_status = refl;
  same_ms = refl;
  same_message = elim (Option-cases i.message) [
    | inl e ↦ rw e (inl refl)
    | inr (m, e) ↦ elim (Bool-cases (ltb 0 (js_length m))) [
      | inl some_text ↦ rw (e, some_text) (inl refl)
      | inr no_text ↦ rw (e, no_text) (inr (refl, m, refl, ground arith))
    ]
  ];
}

clones-AreCopies : (xs : List JobItem) → AreCopies xs (map clone_item xs)
clones-AreCopies [] = tt
clones-AreCopies (x ∷ xs) = (clone-IsCopy x, clones-AreCopies xs)

abbrev pub AtLeast : ℕ → List JobItem → Type 0
AtLeast n = All (λ i. n ≤ i.idx)

abbrev pub IsSorted : List JobItem → Type 0
IsSorted [] = Unit
IsSorted (x ∷ xs) = AtLeast x.idx xs × IsSorted xs

AtLeast-insert :
    (n : ℕ) (x : JobItem) (xs : List JobItem)
    → n ≤ x.idx
    → AtLeast n xs
    → AtLeast n (insert_by_idx x xs)
unfolding insert_by_idx
AtLeast-insert n x [] h a = (h, tt)
AtLeast-insert n x (y ∷ ys) h a = ground (arith, AtLeast-insert n x ys h a.1)

AtLeast-weaken : (n k : ℕ) (xs : List JobItem) → n ≤ k → AtLeast k xs → AtLeast n xs
AtLeast-weaken n k [] h a = tt
AtLeast-weaken n k (x ∷ xs) h a = (omega (arith, a.0), AtLeast-weaken n k xs h a.1)

insert_by_idx-IsSorted :
    (x : JobItem) (xs : List JobItem) → IsSorted xs → IsSorted (insert_by_idx x xs)
unfolding insert_by_idx
insert_by_idx-IsSorted x [] s = (tt, tt)
insert_by_idx-IsSorted x (y ∷ ys) s = elim (Bool-cases (ltb y.idx x.idx)) [
  | inl e ↦ rw e (AtLeast-insert y.idx x ys (ground arith) s.0, insert_by_idx-IsSorted x ys s.1)
  | inr e ↦ rw e ((ground arith, AtLeast-weaken x.idx y.idx ys (ground arith) s.0), s)
]

sort_by_idx-IsSorted : (xs : List JobItem) → IsSorted (sort_by_idx xs)
unfolding sort_by_idx
sort_by_idx-IsSorted [] = tt
sort_by_idx-IsSorted (x ∷ xs) = insert_by_idx-IsSorted x (sort_by_idx xs) (sort_by_idx-IsSorted xs)

abbrev pub at_idx : ℕ → List JobItem → List JobItem
at_idx n = keep (λ i. i.idx == n)

at_idx-insert :
    (n : ℕ) (x : JobItem) (xs : List JobItem) → at_idx n (insert_by_idx x xs) ≡ at_idx n (x ∷ xs)
unfolding insert_by_idx
at_idx-insert n x [] = refl
at_idx-insert n x (y ∷ ys) = ground (arith, at_idx-insert n x ys)

-- Items of one index keep their order.
at_idx-sort : (n : ℕ) (xs : List JobItem) → at_idx n (sort_by_idx xs) ≡ at_idx n xs
unfolding sort_by_idx
at_idx-sort n [] = refl
at_idx-sort n (x ∷ xs) = at_idx-insert n x (sort_by_idx xs) ∙ ground (arith, at_idx-sort n xs)

-- How the items of a trimmed job come from those of the job.
pub record Trims (items trimmed : List JobItem) : Type 0 where
  pub kept : List JobItem
  pub dropped : List JobItem
  pub copies : List JobItem
  pub chosen : Chosen items kept dropped
  pub copied : AreCopies kept copies
  pub sorted : IsSorted trimmed
  pub stable : (n : ℕ) → at_idx n trimmed ≡ at_idx n copies

-- Trimming divides a job's items into those it keeps - all of up to 30, or 30 of more - and the
-- others. An item that did not fail and was not cancelled is kept only when no failed or cancelled
-- one is dropped. Each kept item is copied with its index, name, status and time, and with its
-- message unless that is empty; the copies are in the order of their indices, and those of equal
-- index in the order in which they were chosen.
pub trim_finished_job-Trims : (job : Job) → Trims job.items (trim_finished_job job).items
unfolding trim_finished_job
trim_finished_job-Trims job =
    let chosen = selected_items job.items in
    let told = selected-Chosen job.items in
    let cloned = map clone_item chosen in
    record {
      kept = chosen;
      dropped = told.0;
      copies = cloned;
      chosen = told.1;
      copied = clones-AreCopies chosen;
      sorted = sort_by_idx-IsSorted cloned;
      stable = λ n. at_idx-sort n cloned;
    }
