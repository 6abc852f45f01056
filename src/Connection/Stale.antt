-- ===== src/Connection/Stale.antt =====
-- server/connection.ts: an attempt that a later request overtook stays without effect for ever.
use bored_manager.Base.{
  ℕ, suc, ◌≤◌, ◌<◌, ◌≡◌, refl, String, Option, none, some, Bool, true, false, List, [], ◌∷◌, ◌++◌,
  ◌==◌, nat_key, arith, Bool-cases, Option-cases, inl, inr, not, is_some, ◌&&◌, some_injective,
}
use bored_manager.Connection.{
  CommittedConfig, SudoState, Capability, Attempt, Stage, building, probing, swapping, failing,
  done, Manager,
}
use bored_manager.Connection.Requests.{
  Moved, built-Moved, rejected-Moved, commit-Moved, lost-same, probed-cases, with_attempt-cases,
  reenter-request, find_attempt-generation,
}
use bored_manager.Connection.Step.{
  is_current_attempt, find_attempt, connect, disconnect, disconnected, rejected, dispose_candidate,
  built, Reentry, probed_candidate, settled, is_connecting, built_by, on_built, on_probed,
  on_rejected, on_swapped, on_settled, with_attempt, build_refused, step, run, Event, connects,
  builds, probes, rejects, swaps, settles, loses, disconnects, has_disconnected,
}

-- The requests go on from a generation.
abbrev Reaches : ℕ → Manager → Type 0
Reaches n m = n ≤ m.request_generation

Moved-Reaches : (n g : ℕ) (m after : Manager) → Moved g m after → Reaches n m → Reaches n after
Moved-Reaches n g m after (r, stage, e) h = omega (arith, r)

module _ (n : ℕ) (m : Manager) (h : Reaches n m) (a : Attempt) where
  on_built-Reaches :
      (refused : Bool) (stage : Stage) (answer : Option ℕ)
      → Reaches n (on_built refused a stage answer m)
  on_built-Reaches refused building answer =
      let answered = built_by building refused answer in
      Moved-Reaches n a.generation m (built a.generation answered m)
        (built-Moved a.generation answered m) h
  on_built-Reaches refused (probing y) answer = h
  on_built-Reaches refused swapping answer = h
  on_built-Reaches refused failing answer = h
  on_built-Reaches refused done answer = h

  on_probed-Reaches :
      (stage : Stage) (answer : Option Capability) (hook : List Reentry)
      → Reaches n (on_probed a stage answer hook m)
  unfolding dispose_candidate
  on_probed-Reaches (probing y) answer hook =
      probed-cases (Reaches n) a y answer hook m (λ hooked. omega (arith, reenter-request hooked m))
        (λ c now. omega (arith, (commit-Moved a.cfg a.generation c y m.executor m).0))
  on_probed-Reaches building answer hook = h
  on_probed-Reaches swapping answer hook = h
  on_probed-Reaches failing answer hook = h
  on_probed-Reaches done answer hook = h

  on_rejected-Reaches : (stage : Stage) → Reaches n (on_rejected a stage m)
  on_rejected-Reaches failing =
      Moved-Reaches n a.generation m (rejected a.generation m) (rejected-Moved a.generation m) h
  on_rejected-Reaches building = h
  on_rejected-Reaches (probing y) = h
  on_rejected-Reaches swapping = h
  on_rejected-Reaches done = h

  on_swapped-Reaches : (stage : Stage) → Reaches n (on_swapped a stage m)
  on_swapped-Reaches swapping = h
  on_swapped-Reaches building = h
  on_swapped-Reaches (probing y) = h
  on_swapped-Reaches failing = h
  on_swapped-Reaches done = h

  on_settled-Reaches : (stage : Stage) → Reaches n (on_settled a stage m)
  unfolding settled
  on_settled-Reaches done =
      elim (Bool-cases (
        a.generation == m.request_generation
        && not (is_some m.executor)
        && is_connecting m.phase)) [ inl e ↦ rw (e, settled) h | inr e ↦ rw (e, settled) h ]
  on_settled-Reaches building = h
  on_settled-Reaches (probing y) = h
  on_settled-Reaches swapping = h
  on_settled-Reaches failing = h

step-Reaches :
    (windows : Bool) (n : ℕ) (e : Event) (m : Manager) → Reaches n m → Reaches n (step windows e m)
unfolding step connect disconnect
step-Reaches windows n (connects cfg) m h = omega arith
step-Reaches windows n (builds g answer) m h =
    with_attempt-cases (Reaches n) g (λ a. on_built (build_refused windows a.cfg) a a.stage answer)
      m h (λ a f. on_built-Reaches n m h a (build_refused windows a.cfg) a.stage answer)
step-Reaches windows n (probes g answer hook) m h =
    with_attempt-cases (Reaches n) g (λ a. on_probed a a.stage answer hook) m h
      (λ a f. on_probed-Reaches n m h a a.stage answer hook)
step-Reaches windows n (rejects g) m h =
    with_attempt-cases (Reaches n) g (λ a. on_rejected a a.stage) m h
      (λ a f. on_rejected-Reaches n m h a a.stage)
step-Reaches windows n (swaps g) m h =
    with_attempt-cases (Reaches n) g (λ a. on_swapped a a.stage) m h
      (λ a f. on_swapped-Reaches n m h a a.stage)
step-Reaches windows n (settles g) m h =
    with_attempt-cases (Reaches n) g (λ a. on_settled a a.stage) m h
      (λ a f. on_settled-Reaches n m h a a.stage)
step-Reaches windows n (loses y g) m h = omega (arith, (lost-same y g m).0)
step-Reaches windows n disconnects m h = omega arith
step-Reaches windows n (has_disconnected g) m h = elim (Bool-cases (g == m.request_generation)) [
  | inl e ↦ rw (e, disconnected) h
  | inr e ↦ rw (e, disconnected) h
]

run-Reaches :
    (windows : Bool) (n : ℕ) (life later : List Event)
    → Reaches n (run windows life)
    → Reaches n (run windows (later ++ life))
unfolding run
run-Reaches windows n life [] h = h
run-Reaches windows n life (e ∷ later) h =
    step-Reaches windows n e (run windows (later ++ life)) (run-Reaches windows n life later h)

-- What a manager serves its callers with.
abbrev pub served : Manager → Option ℕ × Option CommittedConfig × String × SudoState × ℕ
served m = (m.executor, m.config, m.sudo_password, m.sudo_state, m.active_generation)

rejected-served : (g : ℕ) (m : Manager) → served (rejected g m) ≡ served m
unfolding rejected
rejected-served g m = elim (Bool-cases (g == m.request_generation)) [
  | inl e ↦ rw (e, rejected) refl
  | inr e ↦ rw (e, rejected) refl
]

built-served : (g : ℕ) (answer : Option ℕ) (m : Manager) → served (built g answer m) ≡ served m
unfolding built dispose_candidate
built-served g none m = rejected-served g m
built-served g (some y) m = elim (Bool-cases (is_current_attempt g m)) [
  | inl e ↦ rw (e, built) refl
  | inr e ↦ rw (e, built) refl
]

module _ (m : Manager) (a : Attempt) where
  on_built-served :
      (refused : Bool) (stage : Stage) (answer : Option ℕ)
      → served (on_built refused a stage answer m) ≡ served m
  on_built-served refused building answer =
      built-served a.generation (built_by building refused answer) m
  on_built-served refused (probing y) answer = refl
  on_built-served refused swapping answer = refl
  on_built-served refused failing answer = refl
  on_built-served refused done answer = refl

  on_probed-served :
      (stage : Stage) (answer : Option Capability) (hook : List Reentry)
      → a.generation < m.request_generation
      → served (on_probed a stage answer hook m) ≡ served m
  unfolding probed_candidate dispose_candidate is_current_attempt
  on_probed-served (probing y) none hook h = refl
  on_probed-served (probing y) (some c) hook h =
      let old : is_current_attempt a.generation m ≡ false = ground arith in
      rw (probed_candidate, old) refl
  on_probed-served building answer hook h = refl
  on_probed-served swapping answer hook h = refl
  on_probed-served failing answer hook h = refl
  on_probed-served done answer hook h = refl

  on_rejected-served : (stage : Stage) → served (on_rejected a stage m) ≡ served m
  on_rejected-served failing = rejected-served a.generation m
  on_rejected-served building = refl
  on_rejected-served (probing y) = refl
  on_rejected-served swapping = refl
  on_rejected-served done = refl

  on_swapped-served : (stage : Stage) → served (on_swapped a stage m) ≡ served m
  on_swapped-served swapping = refl
  on_swapped-served building = refl
  on_swapped-served (probing y) = refl
  on_swapped-served failing = refl
  on_swapped-served done = refl

  on_settled-served : (stage : Stage) → served (on_settled a stage m) ≡ served m
  unfolding settled
  on_settled-served done =
      elim (Bool-cases (
        a.generation == m.request_generation
        && not (is_some m.executor)
        && is_connecting m.phase)) [ inl e ↦ rw (e, settled) refl | inr e ↦ rw (e, settled) refl ]
  on_settled-served building = refl
  on_settled-served (probing y) = refl
  on_settled-served swapping = refl
  on_settled-served failing = refl

-- The attempt that an event carries on.
abbrev pub attempt_of : Event → Option ℕ
attempt_of (builds g answer) = some g
attempt_of (probes g answer hook) = some g
attempt_of (rejects g) = some g
attempt_of (swaps g) = some g
attempt_of (settles g) = some g
attempt_of _ = none

-- A request to connect or to disconnect.
abbrev pub is_request : Event → Bool
is_request (connects cfg) = true
is_request disconnects = true
is_request _ = false

step-served :
    (windows : Bool) (g : ℕ) (e : Event) (m : Manager)
    → attempt_of e ≡ some g
    → g < m.request_generation
    → served (step windows e m) ≡ served m
unfolding step
step-served windows g (connects cfg) m of h = cc
step-served windows g (builds i answer) m of h =
    with_attempt-cases (λ r. served r ≡ served m) i
      (λ a. on_built (build_refused windows a.cfg) a a.stage answer) m refl
      (λ a f. on_built-served m a (build_refused windows a.cfg) a.stage answer)
step-served windows g (probes i answer hook) m of h =
    elim (Option-cases (find_attempt i m.attempts)) [
      | inl q ↦ rw (q, with_attempt) refl
      | inr (a, q) ↦
          rw (q, with_attempt)
            (on_probed-served m a a.stage answer hook
              (omega (arith, find_attempt-generation i m.attempts a q, some_injective i g of)))
    ]
step-served windows g (rejects i) m of h =
    with_attempt-cases (λ r. served r ≡ served m) i (λ a. on_rejected a a.stage) m refl
      (λ a f. on_rejected-served m a a.stage)
step-served windows g (swaps i) m of h =
    with_attempt-cases (λ r. served r ≡ served m) i (λ a. on_swapped a a.stage) m refl
      (λ a f. on_swapped-served m a a.stage)
step-served windows g (settles i) m of h =
    with_attempt-cases (λ r. served r ≡ served m) i (λ a. on_settled a a.stage) m refl
      (λ a f. on_settled-served m a a.stage)
step-served windows g (loses y i) m of h = cc
step-served windows g disconnects m of h = cc
step-served windows g (has_disconnected i) m of h = cc

request-Reaches :
    (windows : Bool) (r : Event) (m : Manager)
    → is_request r ≡ true
    → Reaches (suc m.request_generation) (step windows r m)
unfolding step connect disconnect
request-Reaches windows (connects cfg) m q = omega arith
request-Reaches windows disconnects m q = omega arith
request-Reaches windows (builds g answer) m q = cc
request-Reaches windows (probes g answer hook) m q = cc
request-Reaches windows (rejects g) m q = cc
request-Reaches windows (swaps g) m q = cc
request-Reaches windows (settles g) m q = cc
request-Reaches windows (loses y g) m q = cc
request-Reaches windows (has_disconnected g) m q = cc

-- Once a disconnect or a newer request to connect has come, no event of an attempt that was made
-- before it - the answers to its build and its probe, with whatever a hook may call, and the ends of
-- its disposals - ever changes the executor that is served, its configuration, its sudo state and
-- password or the active generation, whatever came between, later connects and disconnects included.
pub overtaken_attempt_serves_nothing :
    (windows : Bool) (life later : List Event) (request e : Event) (g : ℕ)
    → is_request request ≡ true
    → g ≤ (run windows life).request_generation
    → attempt_of e ≡ some g
    → let m = run windows (later ++ request ∷ life) in served (step windows e m) ≡ served m
unfolding run
overtaken_attempt_serves_nothing windows life later request e g asked old of =
    let reached =
      run-Reaches windows (suc (run windows life).request_generation) (request ∷ life) later
        (request-Reaches windows request (run windows life) asked) in
    step-served windows g e (run windows (later ++ request ∷ life)) of (omega (arith, reached))
