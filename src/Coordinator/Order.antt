-- ===== src/Coordinator/Order.antt =====
-- The names that server/resource-coordinator.ts acquires, and the order of the gates.
use bored_manager.Base.{
  ℕ, ◌<◌, Bool, true, List, [], ◌∷◌, ◌++◌, ◌≡◌, ltb, ◌==◌, nat_key, any, ◌&&◌, All, arith,
  Bool-cases, inl, inr, ◌≢◌,
}
use bored_manager.Coordinator.{
  Resource, rank, resource_key, insert_name, sorted_names, Gate, is_first, release,
}

abbrev pub IsAbove : Resource → List Resource → Type 0
IsAbove n = All (λ m. rank n < rank m)

abbrev pub IsBelow : Resource → List Resource → Type 0
IsBelow n = All (λ m. rank m < rank n)

abbrev pub IsSorted : List Resource → Type 0
IsSorted [] = Unit
IsSorted (n ∷ ns) = IsAbove n ns × IsSorted ns

IsAbove-trans :
    (n m : Resource) (ns : List Resource) → rank n < rank m → IsAbove m ns → IsAbove n ns
IsAbove-trans n m [] h k = tt
IsAbove-trans n m (x ∷ ns) h k = (omega (arith, k.0), IsAbove-trans n m ns h k.1)

IsAbove-insert_name :
    (k n : Resource) (ns : List Resource)
    → rank k < rank n
    → IsAbove k ns
    → IsAbove k (insert_name n ns)
IsAbove-insert_name k n [] h a = (h, tt)
IsAbove-insert_name k n (m ∷ ns) h a = ground (arith, IsAbove-insert_name k n ns h a.1)

insert_name-IsSorted :
    (n : Resource) (ns : List Resource) → IsSorted ns → IsSorted (insert_name n ns)
insert_name-IsSorted n [] s = (tt, tt)
insert_name-IsSorted n (m ∷ ns) s = elim (Bool-cases (ltb (rank n) (rank m))) [
  | inl below ↦ rw below ((ground arith, IsAbove-trans n m ns (ground arith) s.0), s)
  | inr above ↦ elim (Bool-cases (n == m)) [
    | inl same ↦ rw (above, same) s
    | inr other ↦
        rw (above, other)
          (IsAbove-insert_name m n ns (ground arith) s.0, insert_name-IsSorted n ns s.1)
  ]
]

pub sorted_names-IsSorted : (ns : List Resource) → IsSorted (sorted_names ns)
sorted_names-IsSorted [] = tt
sorted_names-IsSorted (n ∷ ns) = insert_name-IsSorted n (sorted_names ns) (sorted_names-IsSorted ns)

pub IsBelow-push :
    (n m : Resource) (held : List Resource)
    → rank n < rank m
    → IsBelow n held
    → IsBelow m (held ++ (n ∷ []))
IsBelow-push n m [] h b = (h, tt)
IsBelow-push n m (x ∷ held) h b = (omega (arith, b.0), IsBelow-push n m held h b.1)

-- The run has a closed gate of the name.
abbrev pub is_queued : Resource → ℕ → List Gate → Bool
is_queued n r = any (λ g. g.name == n && g.run == r)

pub is_queued-push :
    (n : Resource) (r : ℕ) (gates : List Gate)
    → is_queued n r (gates ++ (record { name = n; run = r } ∷ [])) ≡ true
is_queued-push n r [] = ground arith
is_queued-push n r (g ∷ gates) = ground (arith, is_queued-push n r gates)

pub is_queued-append :
    (n : Resource) (r : ℕ) (gates more : List Gate)
    → is_queued n r gates ≡ true
    → is_queued n r (gates ++ more) ≡ true
is_queued-append n r [] more h = cc
is_queued-append n r (g ∷ gates) more h = ground (arith, is_queued-append n r gates more)

pub is_first-append :
    (n : Resource) (r : ℕ) (gates more : List Gate)
    → is_first n r gates ≡ true
    → is_first n r (gates ++ more) ≡ true
is_first-append n r [] more h = cc
is_first-append n r (g ∷ gates) more h = ground (arith, is_first-append n r gates more)

pub is_first_unique :
    (n : Resource) (r q : ℕ) (gates : List Gate)
    → is_first n r gates ≡ true
    → is_first n q gates ≡ true
    → r ≡ q
is_first_unique n r q [] h k = cc
is_first_unique n r q (g ∷ gates) h k = ground (arith, is_first_unique n r q gates)

pub queued-first :
    (n : Resource) (r : ℕ) (gates : List Gate)
    → is_queued n r gates ≡ true
    → (h : ℕ) × (is_first n h gates ≡ true)
queued-first n r [] q = absurd cc
queued-first n r (g ∷ gates) q = elim (Bool-cases (g.name == n)) [
  | inl same ↦ (g.run, ground arith)
  | inr other ↦ let rest = queued-first n r gates (ground arith) in (rest.0, rw other rest.1)
]

pub is_queued-release :
    (n : Resource) (r q : ℕ) (held : List Resource) (gates : List Gate)
    → r ≢ q
    → is_queued n r gates ≡ true
    → is_queued n r (release q held gates) ≡ true
is_queued-release n r q held [] d h = cc
is_queued-release n r q held (g ∷ gates) d h = ground (arith, is_queued-release n r q held gates d)

pub is_first-release :
    (n : Resource) (r q : ℕ) (held : List Resource) (gates : List Gate)
    → r ≢ q
    → is_first n r gates ≡ true
    → is_first n r (release q held gates) ≡ true
is_first-release n r q held [] d h = cc
is_first-release n r q held (g ∷ gates) d h = ground (arith, is_first-release n r q held gates d)

pub All-first :
    (P : Gate → Type 0) (n : Resource) (r : ℕ) (gates : List Gate)
    → All P gates
    → is_first n r gates ≡ true
    → P (record { name = n; run = r })
All-first P n r [] a h = absurd cc
All-first P n r (g ∷ gates) a h = elim (Bool-cases (g.name == n)) [
  | inl same ↦ ground (arith, a.0, resource_key.equal_iff g.name n)
  | inr other ↦ All-first P n r gates a.1 (ground arith)
]
