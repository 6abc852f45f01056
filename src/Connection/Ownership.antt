-- ===== src/Connection/Ownership.antt =====
-- server/connection.ts: every executor that an attempt was given is accounted for.
use bored_manager.Base.{
  ℕ, ◌+◌, ◌≤◌, ◌≡◌, ◌∙◌, ap, refl, Option, none, some, Bool, List, [], ◌∷◌, ◌==◌, nat_key, arith,
  if◌then◌else◌, total, Option-cases, Bool-cases, inl, inr,
}
use bored_manager.Connection.{
  ConnectionConfig, Capability, Attempt, Stage, building, probing, swapping, failing, done, Manager,
}
use bored_manager.Connection.Requests.{
  IsOrdered, with_attempt-cases, run-IsOrdered, probed-cases, UpTo-find, find_attempt-generation,
  find-reenter,
}
use bored_manager.Connection.Step.{
  find_attempt, set_stage, drop_attempt, connect, disconnect, disconnected, rejected,
  dispose_candidate, built, Reentry, reconnect, leave, reenter, commit, probed_candidate,
  handle_connection_lost, settled, created, built_by, on_built, on_probed, on_rejected, on_swapped,
  on_settled, with_attempt, build_refused, step, run, Event, connects, builds, probes, rejects,
  swaps, settles, loses, disconnects, has_disconnected,
}

abbrev pub is_it : ℕ → Option ℕ → ℕ
is_it x none = 0
is_it x (some y) = if y == x then 1 else 0

abbrev pub at_stage : ℕ → Stage → ℕ
at_stage x (probing y) = if y == x then 1 else 0
at_stage x _ = 0

abbrev pub occurrences : ℕ → List ℕ → ℕ
occurrences x = total (λ y. if y == x then 1 else 0)

-- The places where an executor is: current, the candidate of an attempt, or disposed.
abbrev pub held : ℕ → Manager → ℕ
held x m =
    is_it x m.executor + total (λ a. at_stage x a.stage) m.attempts + occurrences x m.disposed

-- How often a life brought an executor into being.
abbrev pub creations : Bool → ℕ → List Event → ℕ
creations windows x [] = 0
creations windows x (e ∷ before) =
    is_it x (created windows e (run windows before)) + creations windows x before

held-set_stage :
    (x g : ℕ) (stage : Stage) (xs : List Attempt) (a : Attempt)
    → find_attempt g xs ≡ some a
    → total (λ b. at_stage x b.stage) (set_stage g stage xs) + at_stage x a.stage
      ≡ total (λ b. at_stage x b.stage) xs + at_stage x stage
held-set_stage x g stage [] a q = cc
held-set_stage x g stage (b ∷ rest) a q = elim (Bool-cases (b.generation == g)) [
  | inl same ↦ ground arith
  | inr other ↦ rw other (omega (arith, held-set_stage x g stage rest a (ground arith)))
]

held-drop_attempt :
    (x g : ℕ) (xs : List Attempt) (a : Attempt)
    → find_attempt g xs ≡ some a
    → total (λ b. at_stage x b.stage) (drop_attempt g xs) + at_stage x a.stage
      ≡ total (λ b. at_stage x b.stage) xs
held-drop_attempt x g [] a q = cc
held-drop_attempt x g (b ∷ rest) a q = elim (Bool-cases (b.generation == g)) [
  | inl same ↦ ground arith
  | inr other ↦ rw other (omega (arith, held-drop_attempt x g rest a (ground arith)))
]

held-connect : (x : ℕ) (cfg : ConnectionConfig) (m : Manager) → held x (connect cfg m) ≡ held x m
unfolding connect
held-connect x cfg m = omega arith

held-disconnect : (x : ℕ) (m : Manager) → held x (disconnect m) ≡ held x m
unfolding disconnect
held-disconnect x m = elim (Option-cases m.executor) [
  | inl q ↦ ground arith
  | inr (y, q) ↦ ground arith
]

held-disconnected : (x g : ℕ) (m : Manager) → held x (disconnected g m) ≡ held x m
unfolding disconnected
held-disconnected x g m = ground arith

held-reenter : (x : ℕ) (hook : List Reentry) (m : Manager) → held x (reenter hook m) ≡ held x m
unfolding reenter
held-reenter x [] m = refl
held-reenter x (reconnect cfg ∷ rest) m =
    omega (arith, held-reenter x rest (connect cfg m), held-connect x cfg m)
held-reenter x (leave ∷ rest) m =
    omega (arith, held-reenter x rest (disconnect m), held-disconnect x m)

held-handle_connection_lost :
    (x y g : ℕ) (m : Manager) → held x (handle_connection_lost y g m) ≡ held x m
unfolding handle_connection_lost
held-handle_connection_lost x y g m = elim (Option-cases m.executor) [
  | inl q ↦ ground arith
  | inr (z, q) ↦ ground arith
]

module _ (x g : ℕ) (m : Manager) (a : Attempt) (q : find_attempt g m.attempts ≡ some a) where
  held-rejected : at_stage x a.stage ≡ 0 → held x (rejected g m) ≡ held x m
  unfolding rejected
  held-rejected z = ground (arith, held-set_stage x g done m.attempts a q)

  held-dispose_candidate :
      (y : ℕ)
      → at_stage x a.stage ≡ 0
      → held x (dispose_candidate g y m) ≡ is_it x (some y) + held x m
  unfolding dispose_candidate
  held-dispose_candidate y z = omega (arith, held-set_stage x g failing m.attempts a q)

  held-built :
      (answer : Option ℕ)
      → at_stage x a.stage ≡ 0
      → held x (built g answer m) ≡ is_it x answer + held x m
  unfolding built
  held-built none z = omega (arith, held-rejected z)
  held-built (some y) z =
      ground (arith, held-set_stage x g (probing y) m.attempts a q, held-dispose_candidate y z)

  held-candidate : (y : ℕ) → a.stage ≡ probing y → held x (dispose_candidate g y m) ≡ held x m
  unfolding dispose_candidate
  held-candidate y z = ground (arith, held-set_stage x g failing m.attempts a q)

  held-commit :
      (cfg : ConnectionConfig) (c : Capability) (y : ℕ)
      → a.stage ≡ probing y
      → held y m ≤ 1
      → held x (commit cfg g c y m.executor m) ≡ held x m
  unfolding commit
  held-commit cfg c y z once = elim (Option-cases m.executor) [
    | inl e ↦ rw e (ground (arith, held-set_stage x g done m.attempts a q))
    | inr (old, e) ↦ ground (
      arith,
      held-set_stage x g done m.attempts a q,
      held-set_stage x g swapping m.attempts a q,
      held-set_stage y g done m.attempts a q,
    )
  ]

module _ (x : ℕ) (m : Manager) (a : Attempt)
    (q : find_attempt a.generation m.attempts ≡ some a) where
  held-probed :
      (y : ℕ) (answer : Option Capability) (hook : List Reentry)
      → a.stage ≡ probing y
      → a.generation ≤ m.request_generation
      → held y m ≤ 1
      → held x (probed_candidate a y answer hook m) ≡ held x m
  held-probed y answer hook z h once =
      let still : (hooked : List Reentry)
          → find_attempt a.generation (reenter hooked m).attempts ≡ some a =
        λ hooked. find-reenter a.generation hooked m h ∙ q in
      probed-cases (λ after. held x after ≡ held x m) a y answer hook m
        (λ hooked.
          held-candidate x a.generation (reenter hooked m) a (still hooked) y z
          ∙ held-reenter x hooked m)
        (λ c now. held-commit x a.generation m a q a.cfg c y z once)

  held-settled : at_stage x a.stage ≡ 0 → held x (settled a.generation m) ≡ held x m
  unfolding settled
  held-settled z = ground (arith, held-drop_attempt x a.generation m.attempts a q)

  -- One event at an attempt, by its stage.
  held-on_built :
      (refused : Bool) (stage : Stage) (answer : Option ℕ)
      → a.stage ≡ stage
      → held x (on_built refused a stage answer m)
        ≡ is_it x (built_by stage refused answer) + held x m
  held-on_built refused building answer e =
      held-built x a.generation m a q (built_by building refused answer) (rw e refl)
  held-on_built refused (probing y) answer e = omega arith
  held-on_built refused swapping answer e = omega arith
  held-on_built refused failing answer e = omega arith
  held-on_built refused done answer e = omega arith

  held-on_probed :
      (stage : Stage) (answer : Option Capability) (hook : List Reentry)
      → a.stage ≡ stage
      → a.generation ≤ m.request_generation
      → ((y : ℕ) → held y m ≤ 1)
      → held x (on_probed a stage answer hook m) ≡ held x m
  held-on_probed building answer hook e h once = refl
  held-on_probed (probing y) answer hook e h once = held-probed y answer hook e h (once y)
  held-on_probed swapping answer hook e h once = refl
  held-on_probed failing answer hook e h once = refl
  held-on_probed done answer hook e h once = refl

  held-on_rejected : (stage : Stage) → a.stage ≡ stage → held x (on_rejected a stage m) ≡ held x m
  held-on_rejected building e = refl
  held-on_rejected (probing y) e = refl
  held-on_rejected swapping e = refl
  held-on_rejected failing e = held-rejected x a.generation m a q (rw e refl)
  held-on_rejected done e = refl

  held-on_swapped : (stage : Stage) → a.stage ≡ stage → held x (on_swapped a stage m) ≡ held x m
  held-on_swapped building e = refl
  held-on_swapped (probing y) e = refl
  held-on_swapped swapping e = ground (arith, held-set_stage x a.generation done m.attempts a q)
  held-on_swapped failing e = refl
  held-on_swapped done e = refl

  held-on_settled : (stage : Stage) → a.stage ≡ stage → held x (on_settled a stage m) ≡ held x m
  held-on_settled building e = refl
  held-on_settled (probing y) e = refl
  held-on_settled swapping e = refl
  held-on_settled failing e = refl
  held-on_settled done e = held-settled (rw e refl)

step-held :
    (windows : Bool) (e : Event) (m : Manager) (x : ℕ)
    → IsOrdered m
    → ((y : ℕ) → held y m ≤ 1)
    → held x (step windows e m) ≡ is_it x (created windows e m) + held x m
unfolding step created
step-held windows (connects cfg) m x p once = omega (arith, held-connect x cfg m)
step-held windows (builds g answer) m x p once = elim (Option-cases (find_attempt g m.attempts)) [
  | inl q ↦ rw (q, with_attempt, created) (omega arith)
  | inr (a, q) ↦
      rw (q, with_attempt, created)
        (held-on_built x m a
          (ap (λ i. find_attempt i m.attempts) (find_attempt-generation g m.attempts a q) ∙ q)
          (build_refused windows a.cfg) a.stage answer refl)
]
step-held windows (probes g answer hook) m x p once =
    with_attempt-cases (λ after. held x after ≡ 0 + held x m) g
      (λ a. on_probed a a.stage answer hook) m (omega arith)
      (λ a q. omega (
        arith,
        held-on_probed x m a q a.stage answer hook refl
            (UpTo-find m.request_generation a.generation m.attempts a p q) once,
      ))
step-held windows (rejects g) m x p once =
    with_attempt-cases (λ after. held x after ≡ 0 + held x m) g (λ a. on_rejected a a.stage) m
      (omega arith) (λ a q. omega (arith, held-on_rejected x m a q a.stage refl))
step-held windows (swaps g) m x p once =
    with_attempt-cases (λ after. held x after ≡ 0 + held x m) g (λ a. on_swapped a a.stage) m
      (omega arith) (λ a q. omega (arith, held-on_swapped x m a q a.stage refl))
step-held windows (settles g) m x p once =
    with_attempt-cases (λ after. held x after ≡ 0 + held x m) g (λ a. on_settled a a.stage) m
      (omega arith) (λ a q. omega (arith, held-on_settled x m a q a.stage refl))
step-held windows (loses y g) m x p once = omega (arith, held-handle_connection_lost x y g m)
step-held windows disconnects m x p once = omega (arith, held-disconnect x m)
step-held windows (has_disconnected g) m x p once = omega (arith, held-disconnected x g m)

-- Over any life of a manager - attempts that overtake each other, fail, are cancelled by a
-- disconnect or by the hook of a swap, connections that are lost - an executor that was created is
-- in exactly one place: it is the current one, the candidate of one attempt, or disposed of, and
-- disposed of once. It is assumed that no executor is created twice.
pub executors_accounted :
    (windows : Bool) (life : List Event) (x : ℕ)
    → ((y : ℕ) → creations windows y life ≤ 1)
    → held x (run windows life) ≡ creations windows x life
unfolding run
executors_accounted windows [] x fresh = refl
executors_accounted windows (e ∷ before) x fresh =
    let earlier : (y : ℕ) → creations windows y before ≤ 1 = λ y. omega (arith, fresh y) in
    let ih : (y : ℕ) → held y (run windows before) ≡ creations windows y before =
      λ y. executors_accounted windows before y earlier in
    omega (
      arith,
      ih x,
      step-held windows e (run windows before) x (run-IsOrdered windows before)
          (λ y. omega (arith, ih y, earlier y)),
    )
