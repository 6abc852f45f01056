-- ===== src/Connection/Requests.antt =====
-- server/connection.ts: the generations of the attempts, which no request overtakes.
use bored_manager.Base.{
  ℕ, suc, ◌≤◌, ◌≡◌, ◌∙◌, ap, sym, subst, refl, Option, none, some, Bool, true, List, [], ◌∷◌, ◌==◌,
  nat_key, arith, if◌then◌else◌, ◌&&◌, All, Option-cases, Bool-cases, inl, inr, not, is_some,
}
use bored_manager.Connection.{
  ConnectionConfig, Capability, Attempt, Stage, building, probing, swapping, failing, done, Manager,
}
use bored_manager.Connection.Step.{
  find_attempt, set_stage, drop_attempt, is_current_attempt, connect, disconnect, disconnected,
  rejected, dispose_candidate, built, Reentry, reconnect, leave, reenter, commit, probed_candidate,
  handle_connection_lost, settled, is_connecting, built_by, on_built, on_probed, on_rejected,
  on_swapped, on_settled, with_attempt, build_refused, step, run, Event, connects, builds, probes,
  rejects, swaps, settles, loses, disconnects, has_disconnected,
}

pub find_attempt-generation :
    (g : ℕ) (xs : List Attempt) (a : Attempt) → find_attempt g xs ≡ some a → a.generation ≡ g
find_attempt-generation g [] a q = cc
find_attempt-generation g (b ∷ rest) a q = elim (Bool-cases (b.generation == g)) [
  | inl same ↦ ground arith
  | inr other ↦ find_attempt-generation g rest a (ground arith)
]

-- No attempt is newer than the last request.
abbrev pub IsOrdered : Manager → Type 0
IsOrdered m = All (λ a. a.generation ≤ m.request_generation) m.attempts

abbrev pub UpTo : ℕ → List Attempt → Type 0
UpTo n = All (λ a. a.generation ≤ n)

pub UpTo-later : (n k : ℕ) (xs : List Attempt) → n ≤ k → UpTo n xs → UpTo k xs
UpTo-later n k [] h p = tt
UpTo-later n k (a ∷ xs) h (p, rest) = (omega arith, UpTo-later n k xs h rest)

pub UpTo-set_stage :
    (n g : ℕ) (stage : Stage) (xs : List Attempt) → UpTo n xs → UpTo n (set_stage g stage xs)
UpTo-set_stage n g stage [] p = tt
UpTo-set_stage n g stage (a ∷ xs) p = ground (arith, UpTo-set_stage n g stage xs p.1)

pub UpTo-drop_attempt : (n g : ℕ) (xs : List Attempt) → UpTo n xs → UpTo n (drop_attempt g xs)
UpTo-drop_attempt n g [] p = tt
UpTo-drop_attempt n g (a ∷ xs) p = ground (arith, UpTo-drop_attempt n g xs p.1)

pub UpTo-find :
    (n g : ℕ) (xs : List Attempt) (a : Attempt)
    → UpTo n xs
    → find_attempt g xs ≡ some a
    → a.generation ≤ n
UpTo-find n g [] a p q = cc
UpTo-find n g (b ∷ xs) a p q = elim (Bool-cases (b.generation == g)) [
  | inl same ↦ ground arith
  | inr other ↦ UpTo-find n g xs a p.1 (ground arith)
]

pub reenter-IsOrdered :
    (hook : List Reentry) (m : Manager) → IsOrdered m → IsOrdered (reenter hook m)
unfolding reenter connect disconnect
reenter-IsOrdered [] m p = p
reenter-IsOrdered (reconnect cfg ∷ rest) m p = reenter-IsOrdered rest (connect cfg m) (
  omega arith,
  UpTo-later m.request_generation (suc m.request_generation) m.attempts (omega arith) p,
)
reenter-IsOrdered (leave ∷ rest) m p =
    reenter-IsOrdered rest (disconnect m)
      (UpTo-later m.request_generation (suc m.request_generation) m.attempts (omega arith) p)

pub reenter-request :
    (hook : List Reentry) (m : Manager) → m.request_generation ≤ (reenter hook m).request_generation
unfolding reenter connect disconnect
reenter-request [] m = omega arith
reenter-request (reconnect cfg ∷ rest) m = omega (arith, reenter-request rest (connect cfg m))
reenter-request (leave ∷ rest) m = omega (arith, reenter-request rest (disconnect m))

-- An attempt that was there before the hook ran is still where it was.
pub find-reenter :
    (g : ℕ) (hook : List Reentry) (m : Manager)
    → g ≤ m.request_generation
    → find_attempt g (reenter hook m).attempts ≡ find_attempt g m.attempts
unfolding reenter connect disconnect
find-reenter g [] m h = refl
find-reenter g (reconnect cfg ∷ rest) m h =
    ground (arith, find-reenter g rest (connect cfg m) (omega arith))
find-reenter g (leave ∷ rest) m h = find-reenter g rest (disconnect m) (omega arith)

-- The part of an attempt that only moves the attempt to another stage, the requests left alone.
abbrev pub Moved : ℕ → Manager → Manager → Type 0
Moved g m after =
    (after.request_generation ≡ m.request_generation)
    × (stage : Stage) × (after.attempts ≡ set_stage g stage m.attempts)

pub Moved-IsOrdered : (g : ℕ) (m after : Manager) → Moved g m after → IsOrdered m → IsOrdered after
Moved-IsOrdered g m after (r, stage, e) p =
    rw (r, e) (UpTo-set_stage m.request_generation g stage m.attempts p)

pub rejected-Moved : (g : ℕ) (m : Manager) → Moved g m (rejected g m)
unfolding rejected
rejected-Moved g m = elim (Bool-cases (g == m.request_generation)) [
  | inl e ↦ rw (e, rejected) (refl, done, refl)
  | inr e ↦ rw (e, rejected) (refl, done, refl)
]

pub built-Moved : (g : ℕ) (answer : Option ℕ) (m : Manager) → Moved g m (built g answer m)
unfolding built dispose_candidate
built-Moved g none m = rejected-Moved g m
built-Moved g (some y) m = elim (Bool-cases (is_current_attempt g m)) [
  | inl e ↦ rw (e, built) (refl, probing y, refl)
  | inr e ↦ rw (e, built) (refl, failing, refl)
]

pub commit-Moved :
    (cfg : ConnectionConfig) (g : ℕ) (c : Capability) (y : ℕ) (old : Option ℕ) (m : Manager)
    → Moved g m (commit cfg g c y old m)
unfolding commit
commit-Moved cfg g c y none m = (refl, done, refl)
commit-Moved cfg g c y (some old) m = elim (Bool-cases (old == y)) [
  | inl f ↦ rw (commit, f) (refl, done, refl)
  | inr f ↦ rw (commit, f) (refl, swapping, refl)
]

-- A hook that leaves an attempt current has called nothing.
reenter-current :
    (g : ℕ) (hook : List Reentry) (m : Manager)
    → is_current_attempt g m ≡ true
    → is_current_attempt g (reenter hook m) ≡ true
    → reenter hook m ≡ m
unfolding reenter connect disconnect is_current_attempt
reenter-current g [] m e f = refl
reenter-current g (reconnect cfg ∷ rest) m e f =
    absurd (ground (arith, reenter-request rest (connect cfg m)))
reenter-current g (leave ∷ rest) m e f =
    absurd (ground (arith, reenter-request rest (disconnect m)))

pub lost-same :
    (y g : ℕ) (m : Manager)
    → ((handle_connection_lost y g m).request_generation ≡ m.request_generation)
      × ((handle_connection_lost y g m).attempts ≡ m.attempts)
unfolding handle_connection_lost
lost-same y g m = elim (Option-cases m.executor) [
  | inl e ↦ rw (e, handle_connection_lost) (refl, refl)
  | inr (z, e) ↦ ground arith
]

-- What becomes of a probed candidate: it is disposed of, or it is committed while it is current.
pub probed-cases :
    (P : Manager → Type 0) (a : Attempt) (y : ℕ) (answer : Option Capability) (hook : List Reentry)
    (m : Manager)
    → ((hooked : List Reentry) → P (dispose_candidate a.generation y (reenter hooked m)))
    → ((c : Capability)
        → is_current_attempt a.generation m ≡ true
        → P (commit a.cfg a.generation c y m.executor m))
    → P (probed_candidate a y answer hook m)
unfolding probed_candidate reenter
probed-cases P a y none hook m out in_ = out []
probed-cases P a y (some c) hook m out in_ =
    let hooked = if is_some m.executor then hook else [] in
    let same : (if is_some m.executor then reenter hook m else m) ≡ reenter hooked m =
      elim (Bool-cases (is_some m.executor)) [ inl e ↦ rw e refl | inr e ↦ rw e refl ] in
    elim (Bool-cases (is_current_attempt a.generation m)) [
      | inr e ↦ rw (probed_candidate, e) (out [])
      | inl e ↦ elim (Bool-cases (is_current_attempt a.generation (reenter hooked m))) [
        | inr f ↦ rw (probed_candidate, e, same, f) (out hooked)
        | inl f ↦
            rw (probed_candidate, e, same, f)
              (subst (λ after. P (commit a.cfg a.generation c y m.executor after))
                (sym (reenter-current a.generation hooked m e f)) (in_ c e))
      ]
    ]

module _ (m : Manager) (p : IsOrdered m) (a : Attempt) where
  keeps-IsOrdered : (after : Manager) → Moved a.generation m after → IsOrdered after
  keeps-IsOrdered after moved = Moved-IsOrdered a.generation m after moved p

  on_built-IsOrdered :
      (refused : Bool) (stage : Stage) (answer : Option ℕ)
      → IsOrdered (on_built refused a stage answer m)
  on_built-IsOrdered refused building answer =
      keeps-IsOrdered (built a.generation (built_by building refused answer) m)
        (built-Moved a.generation (built_by building refused answer) m)
  on_built-IsOrdered refused (probing y) answer = p
  on_built-IsOrdered refused swapping answer = p
  on_built-IsOrdered refused failing answer = p
  on_built-IsOrdered refused done answer = p

  on_probed-IsOrdered :
      (stage : Stage) (answer : Option Capability) (hook : List Reentry)
      → IsOrdered (on_probed a stage answer hook m)
  unfolding dispose_candidate
  on_probed-IsOrdered (probing y) answer hook =
      probed-cases IsOrdered a y answer hook m
        (λ hooked.
          let q = reenter-IsOrdered hooked m p in
          UpTo-set_stage (reenter hooked m).request_generation a.generation failing
            (reenter hooked m).attempts q)
        (λ c now.
          keeps-IsOrdered (commit a.cfg a.generation c y m.executor m)
            (commit-Moved a.cfg a.generation c y m.executor m))
  on_probed-IsOrdered building answer hook = p
  on_probed-IsOrdered swapping answer hook = p
  on_probed-IsOrdered failing answer hook = p
  on_probed-IsOrdered done answer hook = p

  on_rejected-IsOrdered : (stage : Stage) → IsOrdered (on_rejected a stage m)
  on_rejected-IsOrdered failing =
      keeps-IsOrdered (rejected a.generation m) (rejected-Moved a.generation m)
  on_rejected-IsOrdered building = p
  on_rejected-IsOrdered (probing y) = p
  on_rejected-IsOrdered swapping = p
  on_rejected-IsOrdered done = p

  on_swapped-IsOrdered : (stage : Stage) → IsOrdered (on_swapped a stage m)
  on_swapped-IsOrdered swapping = UpTo-set_stage m.request_generation a.generation done m.attempts p
  on_swapped-IsOrdered building = p
  on_swapped-IsOrdered (probing y) = p
  on_swapped-IsOrdered failing = p
  on_swapped-IsOrdered done = p

  on_settled-IsOrdered : (stage : Stage) → IsOrdered (on_settled a stage m)
  unfolding settled
  on_settled-IsOrdered done =
      let kept = UpTo-drop_attempt m.request_generation a.generation m.attempts p in
      elim (Bool-cases (
        a.generation == m.request_generation
        && not (is_some m.executor)
        && is_connecting m.phase)) [ inl e ↦ rw (e, settled) kept | inr e ↦ rw (e, settled) kept ]
  on_settled-IsOrdered building = p
  on_settled-IsOrdered (probing y) = p
  on_settled-IsOrdered swapping = p
  on_settled-IsOrdered failing = p

pub with_attempt-cases :
    (P : Manager → Type 0) (g : ℕ) (f : Attempt → Manager → Manager) (m : Manager)
    → P m
    → ((a : Attempt) → find_attempt a.generation m.attempts ≡ some a → P (f a m))
    → P (with_attempt g f m)
with_attempt-cases P g f m same moved = elim (Option-cases (find_attempt g m.attempts)) [
  | inl e ↦ rw (e, with_attempt) same
  | inr (a, e) ↦
      rw (e, with_attempt)
        (moved a
          (ap (λ i. find_attempt i m.attempts) (find_attempt-generation g m.attempts a e) ∙ e))
]

pub step-IsOrdered :
    (windows : Bool) (e : Event) (m : Manager) → IsOrdered m → IsOrdered (step windows e m)
unfolding step connect disconnect reenter
step-IsOrdered windows (connects cfg) m p = reenter-IsOrdered (reconnect cfg ∷ []) m p
step-IsOrdered windows (builds g answer) m p =
    with_attempt-cases IsOrdered g (λ a. on_built (build_refused windows a.cfg) a a.stage answer) m
      p (λ a q. on_built-IsOrdered m p a (build_refused windows a.cfg) a.stage answer)
step-IsOrdered windows (probes g answer hook) m p =
    with_attempt-cases IsOrdered g (λ a. on_probed a a.stage answer hook) m p
      (λ a q. on_probed-IsOrdered m p a a.stage answer hook)
step-IsOrdered windows (rejects g) m p =
    with_attempt-cases IsOrdered g (λ a. on_rejected a a.stage) m p
      (λ a q. on_rejected-IsOrdered m p a a.stage)
step-IsOrdered windows (swaps g) m p =
    with_attempt-cases IsOrdered g (λ a. on_swapped a a.stage) m p
      (λ a q. on_swapped-IsOrdered m p a a.stage)
step-IsOrdered windows (settles g) m p =
    with_attempt-cases IsOrdered g (λ a. on_settled a a.stage) m p
      (λ a q. on_settled-IsOrdered m p a a.stage)
step-IsOrdered windows (loses y g) m p = rw ((lost-same y g m).0, (lost-same y g m).1) p
step-IsOrdered windows disconnects m p = reenter-IsOrdered (leave ∷ []) m p
step-IsOrdered windows (has_disconnected g) m p = elim (Bool-cases (g == m.request_generation)) [
  | inl e ↦ rw (e, disconnected) p
  | inr e ↦ rw (e, disconnected) p
]

pub run-IsOrdered : (windows : Bool) (life : List Event) → IsOrdered (run windows life)
unfolding run
run-IsOrdered windows [] = tt
run-IsOrdered windows (e ∷ before) =
    step-IsOrdered windows e (run windows before) (run-IsOrdered windows before)
