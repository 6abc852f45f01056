-- ===== src/Coordinator/Progress.antt =====
-- What server/resource-coordinator.ts promises its callers: one run at a time for each name, and
-- no run that waits for ever behind runs that wait.
use bored_manager.Base.{
  ℕ, zero, suc, ◌+◌, ◌≤◌, ◌<◌, some, Bool, true, false, List, [], ◌∷◌, ◌++◌, ◌≡◌, refl, ◌==◌,
  nat_key, any, All, length, arith, Bool-cases, List-cases, inl, inr, ◌⊎◌,
}
use bored_manager.Base.Dict
use bored_manager.Base.Dict.{
  Dict, All-get, total_values, total_values-insert, total_values-erase, equal_refl,
}
use bored_manager.Coordinator.{
  Resource, connection, settings, users, packages, modules, update, resource_key, rank, Gate, Phase,
  waiting, working, Coordinator, create_coordinator, is_first, enter, go_on, Event, called, passed,
  settled, happens, after,
}
use bored_manager.Coordinator.Order.{is_first_unique, queued-first, All-first, IsBelow}
use bored_manager.Coordinator.Invariant.{
  IsValid, IsHeld, IsPlaced, IsOwned, claims, after-IsValid, happens-IsValid,
  create_coordinator-IsValid,
}

-- The run has acquired the name and not released it.
abbrev pub holds : Phase → Resource → Bool
holds (waiting held n rest) m = any (λ k. k == m) held
holds (working held) m = any (λ k. k == m) held

held-first :
    (r : ℕ) (gates : List Gate) (held : List Resource) (m : Resource)
    → IsHeld r gates held
    → any (λ k. k == m) held ≡ true
    → is_first m r gates ≡ true
held-first r gates [] m h k = absurd cc
held-first r gates (n ∷ held) m h k = elim (Bool-cases (n == m)) [
  | inl same ↦ ground (arith, h.0, resource_key.equal_iff n m)
  | inr other ↦ held-first r gates held m h.1 (ground arith)
]

holds-first :
    (r : ℕ) (gates : List Gate) (p : Phase) (m : Resource)
    → IsPlaced gates (r, p)
    → holds p m ≡ true
    → is_first m r gates ≡ true
holds-first r gates (waiting held n rest) m h k = held-first r gates held m h.0 k
holds-first r gates (working held) m h k = held-first r gates held m h k

-- After any sequence of calls, passages and ends, two runs that hold the same resource are the
-- same run.
pub one_holder :
    (es : List Event) (r q : ℕ) (p s : Phase) (n : Resource)
    → let c = after es create_coordinator in
      Dict.get r c.runs ≡ some p
      → Dict.get q c.runs ≡ some s
      → holds p n ≡ true
      → holds s n ≡ true
      → r ≡ q
one_holder es r q p s n e d h k =
    let c = after es create_coordinator in
    let v = after-IsValid es create_coordinator create_coordinator-IsValid in
    is_first_unique n r q c.gates
      (holds-first r c.gates p n (All-get (IsPlaced c.gates) r c.runs v.placed e) h)
      (holds-first q c.gates s n (All-get (IsPlaced c.gates) q c.runs v.placed d) k)

-- The run's next step is enabled.
abbrev CanMove : Coordinator → ℕ → Phase → Type 0
CanMove c r (waiting held n rest) = is_first n r c.gates ≡ true
CanMove c r (working held) = Unit

abbrev Mover : Coordinator → Type 0
Mover c = (r : ℕ) × (p : Phase) × (Dict.get r c.runs ≡ some p) × CanMove c r p

IsBelow-member :
    (n m : Resource) (held : List Resource)
    → IsBelow n held
    → any (λ k. k == m) held ≡ true
    → rank m < rank n
IsBelow-member n m [] b k = absurd cc
IsBelow-member n m (x ∷ held) b k = ground (arith, IsBelow-member n m held b.1, b.0)

rank-small : (n : Resource) → rank n < 6
rank-small connection = omega arith
rank-small settings = omega arith
rank-small users = omega arith
rank-small packages = omega arith
rank-small modules = omega arith
rank-small update = omega arith

-- Who stands first for a name holds it or awaits it: it can move, or it awaits a higher name.
first-moves :
    (c : Coordinator) (n : Resource) (h : ℕ) (p : Phase)
    → Dict.get h c.runs ≡ some p
    → IsPlaced c.gates (h, p)
    → claims p n ≡ true
    → is_first n h c.gates ≡ true
    → ((held : List Resource) (m : Resource) (rest : List Resource)
        → rank n < rank m
        → Dict.get h c.runs ≡ some (waiting held m rest)
        → Mover c)
    → Mover c
first-moves c n h (working held) e placed claim first higher = (h, working held, e, tt)
first-moves c n h (waiting held m rest) e placed claim first higher = elim (Bool-cases (m == n)) [
  | inl same ↦ (h, waiting held m rest, e, ground (arith, first, resource_key.equal_iff m n))
  | inr other ↦ higher held m rest (IsBelow-member m n held placed.1 (ground arith)) e
]

-- From a run that waits, the awaited names rise until a run can move.
waiting-moves :
    (fuel : ℕ) (c : Coordinator) (r : ℕ) (held : List Resource) (n : Resource)
    (rest : List Resource)
    → IsValid c
    → Dict.get r c.runs ≡ some (waiting held n rest)
    → 6 ≤ rank n + fuel
    → Mover c
waiting-moves zero c r held n rest v e f = absurd (omega (arith, rank-small n))
waiting-moves (suc fuel) c r held n rest v e f =
    let placed = All-get (IsPlaced c.gates) r c.runs v.placed e in
    let h = queued-first n r c.gates placed.3 in
    let owner = All-first (IsOwned c.runs) n h.0 c.gates v.owned h.1 in
    first-moves c n h.0 owner.0 owner.1 (All-get (IsPlaced c.gates) h.0 c.runs v.placed owner.1)
      owner.2 h.1 (λ g m more up d. waiting-moves fuel c h.0 g m more v d (omega arith))

run-moves : (c : Coordinator) (r : ℕ) (p : Phase) → IsValid c → Dict.get r c.runs ≡ some p → Mover c
run-moves c r (working held) v e = (r, working held, e, tt)
run-moves c r (waiting held n rest) v e = waiting-moves 6 c r held n rest v e (omega arith)

-- How many of its own events a run is away from its end.
abbrev distance : Phase → ℕ
distance (waiting held n rest) = 2 + length rest
distance (working held) = 1

abbrev pub remaining : Coordinator → ℕ
remaining c = total_values distance c.runs

enter-remaining :
    (r : ℕ) (held names : List Resource) (old : Phase) (c : Coordinator)
    → Dict.get r c.runs ≡ some old
    → remaining (enter r held names c) + distance old ≡ remaining c + suc (length names)
unfolding enter
enter-remaining r held [] old c e = total_values-insert distance r (working held) old c.runs e
enter-remaining r held (n ∷ rest) old c e =
    omega (arith, total_values-insert distance r (waiting held n rest) old c.runs e)

-- The event by which a run moves.
abbrev move_of : ℕ → Phase → Event
move_of r (waiting held n rest) = passed r
move_of r (working held) = settled r

move-remaining :
    (c : Coordinator) (r : ℕ) (p : Phase)
    → Dict.get r c.runs ≡ some p
    → CanMove c r p
    → remaining (happens (move_of r p) c) < remaining c
unfolding happens go_on
move-remaining c r (waiting held n rest) e can =
    rw (e, happens, can)
      (omega (arith, enter-remaining r (held ++ (n ∷ [])) rest (waiting held n rest) c e))
move-remaining c r (working held) e can =
    rw (e, happens) (omega (arith, total_values-erase distance r (working held) c.runs e))

-- No call of `run` is among the events.
abbrev is_call : Event → Bool
is_call (called r resources) = true
is_call _ = false

abbrev pub AreProgress : List Event → Type 0
AreProgress = All (λ e. is_call e ≡ false)

move_of-progress : (r : ℕ) (p : Phase) → is_call (move_of r p) ≡ false
move_of-progress r (waiting held n rest) = refl
move_of-progress r (working held) = refl

-- A state with a run left has an event, not a call, that brings every run nearer to its end.
moves_on :
    (c : Coordinator)
    → IsValid c
    → (c.runs ≡ []) ⊎ ((e : Event) × (is_call e ≡ false) × (remaining (happens e c) < remaining c))
unfolding Dict.get
moves_on c v = elim (List-cases c.runs) [
  | inl done ↦ inl done
  | inr ((r, p), rest, e) ↦
      let m = run-moves c r p v (rw (e, Dict.get, equal_refl r) refl) in
      inr (move_of m.0 m.1, move_of-progress m.0 m.1, move-remaining c m.0 m.1 m.2 m.3)
]

drains :
    (fuel : ℕ) (c : Coordinator)
    → IsValid c
    → remaining c ≤ fuel
    → (es : List Event) × AreProgress es × (length es ≤ fuel) × ((after es c).runs ≡ [])
unfolding after
drains zero c v f = elim (moves_on c v) [
  | inl done ↦ ([], tt, omega arith, done)
  | inr (e, progress, less) ↦ absurd (omega arith)
]
drains (suc fuel) c v f = elim (moves_on c v) [
  | inl done ↦ ([], tt, omega arith, done)
  | inr (e, progress, less) ↦
      let rest = drains fuel (happens e c) (happens-IsValid e c v) (omega arith) in
      (e ∷ rest.0, (progress, rest.1), omega (arith, rest.2), rest.3)
]

-- The calls of `run` never block each other: after any sequence of events there are more events,
-- each a gate that has come first or an operation that settles and no further call, after which
-- every run has ended; they are no more than one for each name still to acquire and one for each
-- operation still to settle.
pub all_runs_end :
    (es : List Event)
    → let c = after es create_coordinator in
      (more : List Event) × AreProgress more
      × (length more ≤ remaining c)
      × ((after more c).runs ≡ [])
all_runs_end es =
    let c = after es create_coordinator in
    drains (remaining c) c (after-IsValid es create_coordinator create_coordinator-IsValid)
      (omega arith)
