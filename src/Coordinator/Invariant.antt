-- ===== src/Coordinator/Invariant.antt =====
-- What every sequence of events keeps true of server/resource-coordinator.ts: who stands in the
-- queues, and who has come first.
use bored_manager.Base.{
  ℕ, some, Bool, true, List, [], ◌∷◌, ◌++◌, ◌≡◌, refl, ◌==◌, nat_key, any, All, All-append, All-map,
  arith, Bool-cases, Option-cases, inl, inr, ◌≢◌, eqb_iff, subst, sym, ◌||◌,
}
use bored_manager.Base.Dict
use bored_manager.Base.Dict.{
  Dict, get-insert, get-erase, All-get, All-erase, equal_refl, get-insert_self,
}
use bored_manager.Base.Dict.Distinct.{
  IsDistinct, insert-IsDistinct, erase-IsDistinct, All-erase_others, All-insert_others,
}
use bored_manager.Coordinator.{
  Resource, resource_key, Gate, Phase, waiting, working, Coordinator, create_coordinator, is_first,
  enter, release, Event, called, passed, settled, happens, after, sorted_names, go_on, leave,
}
use bored_manager.Coordinator.Order.{
  IsBelow, IsSorted, sorted_names-IsSorted, IsBelow-push, is_queued, is_queued-push,
  is_queued-append, is_first-append, is_queued-release, is_first-release,
}

-- The run's closed gates are those of the names that it holds and of the name that it awaits.
abbrev pub claims : Phase → Resource → Bool
claims (waiting held n rest) m = any (λ k. k == m) held || n == m
claims (working held) m = any (λ k. k == m) held

abbrev pub IsOwned : Dict ℕ Phase → Gate → Type 0
IsOwned runs g = (p : Phase) × (Dict.get g.run runs ≡ some p) × (claims p g.name ≡ true)

-- The run holds the names: its gates come first.
abbrev pub IsHeld : ℕ → List Gate → List Resource → Type 0
IsHeld r gates = All (λ n. is_first n r gates ≡ true)

abbrev pub IsPlaced : List Gate → ℕ × Phase → Type 0
IsPlaced gates (r, waiting held n rest) =
    IsHeld r gates held × IsBelow n held × IsSorted (n ∷ rest) × (is_queued n r gates ≡ true)
IsPlaced gates (r, working held) = IsHeld r gates held

pub record IsValid (c : Coordinator) : Type 0 where
  pub distinct : IsDistinct c.runs
  pub owned : All (IsOwned c.runs) c.gates
  pub placed : All (IsPlaced c.gates) c.runs

IsHeld-append :
    (r : ℕ) (gates more : List Gate) (held : List Resource)
    → IsHeld r gates held
    → IsHeld r (gates ++ more) held
IsHeld-append r gates more held =
    All-map (λ n. is_first n r gates ≡ true) (λ n. is_first n r (gates ++ more) ≡ true) held
      (λ n. is_first-append n r gates more)

IsHeld-release :
    (r q : ℕ) (gone : List Resource) (gates : List Gate) (held : List Resource)
    → r ≢ q
    → IsHeld r gates held
    → IsHeld r (release q gone gates) held
IsHeld-release r q gone gates held d =
    All-map (λ n. is_first n r gates ≡ true) (λ n. is_first n r (release q gone gates) ≡ true) held
      (λ n. is_first-release n r q gone gates d)

IsPlaced-append :
    (gates more : List Gate) (e : ℕ × Phase) → IsPlaced gates e → IsPlaced (gates ++ more) e
IsPlaced-append gates more (r, waiting held n rest) (h, b, s, q) =
    (IsHeld-append r gates more held h, b, s, is_queued-append n r gates more q)
IsPlaced-append gates more (r, working held) h = IsHeld-append r gates more held h

IsPlaced-release :
    (q : ℕ) (gone : List Resource) (gates : List Gate) (r : ℕ) (p : Phase)
    → r ≢ q
    → IsPlaced gates (r, p)
    → IsPlaced (release q gone gates) (r, p)
IsPlaced-release q gone gates r (waiting held n rest) d (h, b, s, w) =
    (IsHeld-release r q gone gates held d h, b, s, is_queued-release n r q gone gates d w)
IsPlaced-release q gone gates r (working held) d h = IsHeld-release r q gone gates held d h

-- Gates stay owned when their run's claims grow.
IsOwned-insert :
    (r : ℕ) (p : Phase) (runs : Dict ℕ Phase)
    → ((m : Resource) (old : Phase)
        → Dict.get r runs ≡ some old
        → claims old m ≡ true
        → claims p m ≡ true)
    → (g : Gate) → IsOwned runs g
    → IsOwned (Dict.insert r p runs) g
IsOwned-insert r p runs grow g (old, at_, claim) = elim (Bool-cases (r == g.run)) [
  | inl same ↦ (
    p,
    rw (get-insert r g.run p runs, same) refl,
    grow g.name old (subst (λ x. Dict.get x runs ≡ some old) (sym ((eqb_iff r g.run).0 same)) at_)
        claim,
  )
  | inr other ↦ (old, rw (get-insert r g.run p runs, other) at_, claim)
]

-- What the names that a run goes on with must satisfy.
abbrev CanEnter : List Gate → ℕ → List Resource → List Resource → Type 0
CanEnter gates r held [] = IsHeld r gates held
CanEnter gates r held (n ∷ rest) = IsHeld r gates held × IsBelow n held × IsSorted (n ∷ rest)

claims_self :
    (held : List Resource) (n : Resource) (rest : List Resource)
    → claims (waiting held n rest) n ≡ true
claims_self held n rest = ground (arith, equal_refl n)

enter-IsValid :
    (r : ℕ) (held names : List Resource) (c : Coordinator)
    → ((m : Resource) (old : Phase)
        → Dict.get r c.runs ≡ some old
        → claims old m ≡ true
        → any (λ k. k == m) held ≡ true)
    → CanEnter c.gates r held names
    → IsValid c
    → IsValid (enter r held names c)
unfolding enter
enter-IsValid r held [] c grow can v = record {
  distinct = insert-IsDistinct r (working held) c.runs v.distinct;
  owned =
      All-map (IsOwned c.runs) (IsOwned (Dict.insert r (working held) c.runs)) c.gates
        (IsOwned-insert r (working held) c.runs grow) v.owned;
  placed =
      All-insert_others (IsPlaced c.gates) (IsPlaced c.gates) r (working held) c.runs v.distinct can
        (λ j w d h. h) v.placed;
}
enter-IsValid r held (n ∷ rest) c grow can v =
    let gate : Gate = record { name = n; run = r } in
    let p = waiting held n rest in
    record {
      distinct = insert-IsDistinct r p c.runs v.distinct;
      owned =
          All-append (IsOwned (Dict.insert r p c.runs)) c.gates (gate ∷ [])
            (All-map (IsOwned c.runs) (IsOwned (Dict.insert r p c.runs)) c.gates
              (IsOwned-insert r p c.runs (λ m old e k. ground (arith, grow m old e k))) v.owned)
            ((p, get-insert_self r p c.runs, claims_self held n rest), tt);
      placed =
          All-insert_others (IsPlaced c.gates) (IsPlaced (c.gates ++ (gate ∷ []))) r p c.runs
            v.distinct
            (
              IsHeld-append r c.gates (gate ∷ []) held can.0,
              can.1,
              can.2,
              is_queued-push n r c.gates,
            )
            (λ j w d h. IsPlaced-append c.gates (gate ∷ []) (j, w) h) v.placed;
    }

any-push :
    (held : List Resource) (n m : Resource)
    → (any (λ k. k == m) held || n == m) ≡ true
    → any (λ k. k == m) (held ++ (n ∷ [])) ≡ true
any-push [] n m h = ground arith
any-push (k ∷ held) n m h = ground (arith, any-push held n m)

CanEnter-push :
    (gates : List Gate) (r : ℕ) (held : List Resource) (n : Resource) (rest : List Resource)
    → IsPlaced gates (r, waiting held n rest)
    → is_first n r gates ≡ true
    → CanEnter gates r (held ++ (n ∷ [])) rest
CanEnter-push gates r held n [] (h, b, s, q) first =
    All-append (λ k. is_first k r gates ≡ true) held (n ∷ []) h (first, tt)
CanEnter-push gates r held n (m ∷ rest) (h, b, s, q) first = (
  All-append (λ k. is_first k r gates ≡ true) held (n ∷ []) h (first, tt),
  IsBelow-push n m held s.0.0 b,
  s.1,
)

pass-IsValid :
    (r : ℕ) (p : Phase) (c : Coordinator)
    → Dict.get r c.runs ≡ some p
    → IsValid c
    → IsValid (go_on r p c)
unfolding go_on
pass-IsValid r (working held) c e v = v
pass-IsValid r (waiting held n rest) c e v = elim (Bool-cases (is_first n r c.gates)) [
  | inl first ↦ rw first (
      enter-IsValid r (held ++ (n ∷ [])) rest c (λ m old old_e k. any-push held n m (ground arith))
        (CanEnter-push c.gates r held n rest (All-get (IsPlaced c.gates) r c.runs v.placed e) first)
        v)
  | inr behind ↦ rw behind v
]

-- The gates that a run leaves behind belong to others.
release-IsOwned :
    (r : ℕ) (held : List Resource) (runs : Dict ℕ Phase) (gates : List Gate)
    → Dict.get r runs ≡ some (working held)
    → All (IsOwned runs) gates
    → All (IsOwned (Dict.erase r runs)) (release r held gates)
release-IsOwned r held runs [] e a = tt
release-IsOwned r held runs (g ∷ gates) e a = elim (Bool-cases (g.run == r)) [
  | inl same ↦ ground (arith, release-IsOwned r held runs gates e a.1, eqb_iff g.run r)
  | inr other ↦ rw other (
    (a.0.0, ground (arith, get-erase r g.run runs, eqb_iff g.run r, eqb_iff r g.run), a.0.2),
    release-IsOwned r held runs gates e a.1,
  )
]

leave-IsValid :
    (r : ℕ) (p : Phase) (c : Coordinator)
    → Dict.get r c.runs ≡ some p
    → IsValid c
    → IsValid (leave r p c)
leave-IsValid r (waiting held n rest) c e v = v
leave-IsValid r (working held) c e v = record {
  distinct = erase-IsDistinct r c.runs v.distinct;
  owned = release-IsOwned r held c.runs c.gates e v.owned;
  placed =
      All-erase_others (IsPlaced c.gates) (IsPlaced (release r held c.gates)) r c.runs
        (λ j w d. IsPlaced-release r held c.gates j w d) v.placed;
}

CanEnter-start :
    (gates : List Gate) (r : ℕ) (names : List Resource) → IsSorted names → CanEnter gates r [] names
CanEnter-start gates r [] s = tt
CanEnter-start gates r (n ∷ rest) s = (tt, tt, s)

pub happens-IsValid : (e : Event) (c : Coordinator) → IsValid c → IsValid (happens e c)
unfolding happens
happens-IsValid (called r resources) c v = elim (Option-cases (Dict.get r c.runs)) [
  | inl none_yet ↦
      rw (none_yet, happens)
        (enter-IsValid r [] (sorted_names resources) c (λ m old e k. absurd cc)
          (CanEnter-start c.gates r (sorted_names resources) (sorted_names-IsSorted resources)) v)
  | inr (p, e) ↦ rw (e, happens) v
]
happens-IsValid (passed r) c v = elim (Option-cases (Dict.get r c.runs)) [
  | inl e ↦ rw (e, happens) v
  | inr (p, e) ↦ rw (e, happens) (pass-IsValid r p c e v)
]
happens-IsValid (settled r) c v = elim (Option-cases (Dict.get r c.runs)) [
  | inl e ↦ rw (e, happens) v
  | inr (p, e) ↦ rw (e, happens) (leave-IsValid r p c e v)
]

pub after-IsValid : (es : List Event) (c : Coordinator) → IsValid c → IsValid (after es c)
unfolding after
after-IsValid [] c v = v
after-IsValid (e ∷ es) c v = after-IsValid es (happens e c) (happens-IsValid e c v)

pub create_coordinator-IsValid : IsValid create_coordinator
create_coordinator-IsValid = record { distinct = tt; owned = tt; placed = tt }
