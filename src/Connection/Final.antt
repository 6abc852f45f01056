-- ===== src/Connection/Final.antt =====
-- server/connection.ts: a disconnect is final until the next request to connect.
use bored_manager.Base.{
  ℕ, suc, ◌≤◌, ◌≡◌, refl, ◌∙◌, Option, none, some, Bool, true, false, List, [], ◌∷◌, ◌++◌, ◌==◌,
  nat_key, arith, All, Bool-cases, inl, inr, not, is_some, ◌&&◌,
}
use bored_manager.Connection.{
  Capability, Attempt, Stage, building, probing, swapping, failing, done, Manager,
}
use bored_manager.Connection.Requests.{
  UpTo, UpTo-find, UpTo-set_stage, UpTo-drop_attempt, Moved, built-Moved, rejected-Moved,
  with_attempt-cases, run-IsOrdered,
}
use bored_manager.Connection.Step.{
  is_current_attempt, disconnect, disconnected, rejected, dispose_candidate, built, Reentry,
  probed_candidate, handle_connection_lost, settled, is_connecting, built_by, on_built, on_probed,
  on_rejected, on_swapped, on_settled, build_refused, step, run, Event, connects, builds, probes,
  rejects, swaps, settles, loses, disconnects, has_disconnected,
}

abbrev pub is_connect : Event → Bool
is_connect (connects cfg) = true
is_connect _ = false

-- No executor, and every attempt is older than the last request.
record IsQuiet (n : ℕ) (m : Manager) : Type 0 where
  none_there : m.executor ≡ none
  older : suc n ≤ m.request_generation
  attempts_older : UpTo n m.attempts

built-executor :
    (g : ℕ) (answer : Option ℕ) (m : Manager) → (built g answer m).executor ≡ m.executor
unfolding built rejected dispose_candidate
built-executor g none m = ground arith
built-executor g (some y) m = ground arith

Moved-IsQuiet :
    (n g : ℕ) (m after : Manager)
    → after.executor ≡ m.executor
    → Moved g m after
    → IsQuiet n m
    → IsQuiet n after
Moved-IsQuiet n g m after e (r, stage, s) q = record {
  none_there = e ∙ q.none_there;
  older = rw r q.older;
  attempts_older = rw s (UpTo-set_stage n g stage m.attempts q.attempts_older);
}

module _ (n : ℕ) (m : Manager) (q : IsQuiet n m) (a : Attempt) where
  on_built-IsQuiet :
      (refused : Bool) (stage : Stage) (answer : Option ℕ)
      → IsQuiet n (on_built refused a stage answer m)
  on_built-IsQuiet refused building answer =
      let answered = built_by building refused answer in
      Moved-IsQuiet n a.generation m (built a.generation answered m)
        (built-executor a.generation answered m) (built-Moved a.generation answered m) q
  on_built-IsQuiet refused (probing y) answer = q
  on_built-IsQuiet refused swapping answer = q
  on_built-IsQuiet refused failing answer = q
  on_built-IsQuiet refused done answer = q

  disposed-IsQuiet : (y : ℕ) → IsQuiet n (dispose_candidate a.generation y m)
  unfolding dispose_candidate
  disposed-IsQuiet y =
      Moved-IsQuiet n a.generation m (dispose_candidate a.generation y m) refl (refl, failing, refl)
        q

  on_probed-IsQuiet :
      (stage : Stage) (answer : Option Capability) (hook : List Reentry)
      → a.generation ≤ n
      → IsQuiet n (on_probed a stage answer hook m)
  unfolding probed_candidate is_current_attempt
  on_probed-IsQuiet (probing y) none hook h = disposed-IsQuiet y
  on_probed-IsQuiet (probing y) (some c) hook h =
      let old : is_current_attempt a.generation m ≡ false = ground (arith, q.older) in
      rw (probed_candidate, old) (disposed-IsQuiet y)
  on_probed-IsQuiet building answer hook h = q
  on_probed-IsQuiet swapping answer hook h = q
  on_probed-IsQuiet failing answer hook h = q
  on_probed-IsQuiet done answer hook h = q

  on_rejected-IsQuiet : (stage : Stage) → IsQuiet n (on_rejected a stage m)
  unfolding rejected built
  on_rejected-IsQuiet failing =
      Moved-IsQuiet n a.generation m (rejected a.generation m) (built-executor a.generation none m)
        (rejected-Moved a.generation m) q
  on_rejected-IsQuiet building = q
  on_rejected-IsQuiet (probing y) = q
  on_rejected-IsQuiet swapping = q
  on_rejected-IsQuiet done = q

  on_swapped-IsQuiet : (stage : Stage) → IsQuiet n (on_swapped a stage m)
  on_swapped-IsQuiet swapping =
      Moved-IsQuiet n a.generation m (on_swapped a swapping m) refl (refl, done, refl) q
  on_swapped-IsQuiet building = q
  on_swapped-IsQuiet (probing y) = q
  on_swapped-IsQuiet failing = q
  on_swapped-IsQuiet done = q

  on_settled-IsQuiet : (stage : Stage) → IsQuiet n (on_settled a stage m)
  unfolding settled
  on_settled-IsQuiet done =
      let kept = UpTo-drop_attempt n a.generation m.attempts q.attempts_older in
      elim (Bool-cases (
        a.generation == m.request_generation
        && not (is_some m.executor)
        && is_connecting m.phase)) [
          | inl e ↦
              rw (e, settled)
                (record { none_there = q.none_there; older = q.older; attempts_older = kept })
          | inr e ↦
              rw (e, settled)
                (record { none_there = q.none_there; older = q.older; attempts_older = kept })
        ]
  on_settled-IsQuiet building = q
  on_settled-IsQuiet (probing y) = q
  on_settled-IsQuiet swapping = q
  on_settled-IsQuiet failing = q

disconnect-IsQuiet :
    (n : ℕ) (m : Manager) → n ≤ m.request_generation → UpTo n m.attempts → IsQuiet n (disconnect m)
unfolding disconnect
disconnect-IsQuiet n m h p = record { none_there = refl; older = omega arith; attempts_older = p }

disconnected-IsQuiet : (n g : ℕ) (m : Manager) → IsQuiet n m → IsQuiet n (disconnected g m)
unfolding disconnected
disconnected-IsQuiet n g m q = elim (Bool-cases (g == m.request_generation)) [
  | inl e ↦
      rw (e, disconnected)
        (record { none_there = q.none_there; older = q.older; attempts_older = q.attempts_older })
  | inr e ↦ rw (e, disconnected) q
]

lost-IsQuiet : (n x g : ℕ) (m : Manager) → IsQuiet n m → IsQuiet n (handle_connection_lost x g m)
unfolding handle_connection_lost
lost-IsQuiet n x g m q = rw (handle_connection_lost, q.none_there) q

step-IsQuiet :
    (windows : Bool) (n : ℕ) (e : Event) (m : Manager)
    → is_connect e ≡ false
    → IsQuiet n m
    → IsQuiet n (step windows e m)
unfolding step
step-IsQuiet windows n (connects cfg) m c q = cc
step-IsQuiet windows n (builds g answer) m c q =
    with_attempt-cases (IsQuiet n) g (λ a. on_built (build_refused windows a.cfg) a a.stage answer)
      m q (λ a f. on_built-IsQuiet n m q a (build_refused windows a.cfg) a.stage answer)
step-IsQuiet windows n (probes g answer hook) m c q =
    with_attempt-cases (IsQuiet n) g (λ a. on_probed a a.stage answer hook) m q
      (λ a f.
        on_probed-IsQuiet n m q a a.stage answer hook
          (UpTo-find n a.generation m.attempts a q.attempts_older f))
step-IsQuiet windows n (rejects g) m c q =
    with_attempt-cases (IsQuiet n) g (λ a. on_rejected a a.stage) m q
      (λ a f. on_rejected-IsQuiet n m q a a.stage)
step-IsQuiet windows n (swaps g) m c q =
    with_attempt-cases (IsQuiet n) g (λ a. on_swapped a a.stage) m q
      (λ a f. on_swapped-IsQuiet n m q a a.stage)
step-IsQuiet windows n (settles g) m c q =
    with_attempt-cases (IsQuiet n) g (λ a. on_settled a a.stage) m q
      (λ a f. on_settled-IsQuiet n m q a a.stage)
step-IsQuiet windows n (loses x g) m c q = lost-IsQuiet n x g m q
step-IsQuiet windows n disconnects m c q =
    disconnect-IsQuiet n m (omega (arith, q.older)) q.attempts_older
step-IsQuiet windows n (has_disconnected g) m c q = disconnected-IsQuiet n g m q

run-IsQuiet :
    (windows : Bool) (life later : List Event)
    → All (λ e. is_connect e ≡ false) later
    → IsQuiet (run windows life).request_generation (run windows (later ++ disconnects ∷ life))
unfolding run step
run-IsQuiet windows life [] h =
    disconnect-IsQuiet (run windows life).request_generation (run windows life) (omega arith)
      (run-IsOrdered windows life)
run-IsQuiet windows life (e ∷ later) h =
    step-IsQuiet windows (run windows life).request_generation e
      (run windows (later ++ disconnects ∷ life)) h.0 (run-IsQuiet windows life later h.1)

-- After a disconnect, at whatever point of a manager's life, there is no executor as long as no new
-- request to connect comes: until then no attempt that was under way commits its candidate, in
-- whichever order the attempts' awaits, failures and disposals come.
pub disconnect_is_final :
    (windows : Bool) (life later : List Event)
    → All (λ e. is_connect e ≡ false) later
    → (run windows (later ++ disconnects ∷ life)).executor ≡ none
disconnect_is_final windows life later h = (run-IsQuiet windows life later h).none_there
