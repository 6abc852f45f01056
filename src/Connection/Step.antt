-- ===== src/Connection/Step.antt =====
-- server/connection.ts: `connect`, the parts of `connectAttempt` between its awaits, the loss of a
-- connection and `disconnect`, as steps.
use bored_manager.Base.{
  ℕ, suc, String, Option, none, some, Bool, true, false, List, [], ◌∷◌, ◌++◌, ◌==◌, nat_key, not,
  ◌&&◌, ◌||◌, ltb, any, keep, length, if◌then◌else◌, or_else, is_some,
}
use bored_manager.Connection.{
  local_mode, ssh_mode, Phase, idle, connecting, connected, disconnecting, SudoState, no_sudo,
  password_verified, ConnectionConfig, Capability, Attempt, Stage, building, probing, swapping,
  failing, done, Manager, initial,
}

abbrev pub member : ℕ → List ℕ → Bool
member x = any (λ y. y == x)

-- The attempt of a generation, and the same attempt at its next stage.
abbrev pub find_attempt : ℕ → List Attempt → Option Attempt
find_attempt g [] = none
find_attempt g (a ∷ rest) =
    let later = find_attempt g rest in if a.generation == g then some a else later

abbrev pub set_stage : ℕ → Stage → List Attempt → List Attempt
set_stage g stage [] = []
set_stage g stage (a ∷ rest) =
    let later = set_stage g stage rest in
    if a.generation == g then record a { stage = stage } ∷ rest else a ∷ later

abbrev pub drop_attempt : ℕ → List Attempt → List Attempt
drop_attempt g [] = []
drop_attempt g (a ∷ rest) =
    let later = drop_attempt g rest in if a.generation == g then rest else a ∷ later

-- `connect`, up to its first await
unfoldable pub connect : ConnectionConfig → Manager → Manager
connect cfg m =
    let generation = suc m.request_generation in
    record m {
      request_generation = generation;
      aborted = m.attempt_aborts ++ m.aborted;
      attempt_aborts = generation ∷ m.attempt_aborts;
      phase = connecting;
      attempts = record { generation = generation; cfg = cfg; stage = building } ∷ m.attempts;
    }

-- `disconnect`, up to its await
unfoldable pub disconnect : Manager → Manager
disconnect m = record m {
  request_generation = suc m.request_generation;
  phase = disconnecting;
  aborted = m.attempt_aborts ++ m.aborted;
  attempt_aborts = [];
  executor = none;
  config = none;
  sudo_password = "";
  sudo_state = no_sudo;
  active_generation = suc m.active_generation;
  disposed = elim m.executor [ none ↦ m.disposed | some x ↦ x ∷ m.disposed ];
}

-- `disconnect`, after its await
unfoldable pub disconnected : ℕ → Manager → Manager
disconnected generation m =
    if generation == m.request_generation
    then record m { phase = if is_some m.executor then connected else idle }
    else m

-- `assertCurrentAttempt` passes.
unfoldable pub is_current_attempt : ℕ → Manager → Bool
is_current_attempt generation m =
    not (member generation m.aborted || not (generation == m.request_generation))

-- `connectAttempt`'s catch, after the candidate's disposal
unfoldable pub rejected : ℕ → Manager → Manager
rejected generation m =
    let settled = record m { attempts = set_stage generation done m.attempts } in
    if generation == m.request_generation
    then record settled { phase = if is_some m.executor then connected else idle }
    else settled

-- `connectAttempt`'s catch with a candidate, up to the await of its disposal
unfoldable pub dispose_candidate : ℕ → ℕ → Manager → Manager
dispose_candidate generation candidate m = record m {
  attempts = set_stage generation failing m.attempts;
  disposed = candidate ∷ m.disposed;
}

-- `buildExecutor` has answered: the executor, or an error
unfoldable pub built : ℕ → Option ℕ → Manager → Manager
unfolding rejected is_current_attempt dispose_candidate
built generation answer m = elim answer [
  | none ↦ rejected generation m
  | some x ↦
      if is_current_attempt generation m
      then record m { attempts = set_stage generation (probing x) m.attempts }
      else dispose_candidate generation x m
]

-- What the hook before a swap may call: each starts at once. A hook that throws, and a loss of the
-- connection while it runs, are left out.
pub data Reentry : Type 0 where
  reconnect : ConnectionConfig → Reentry
  leave : Reentry

unfoldable pub reenter : List Reentry → Manager → Manager
unfolding connect disconnect
reenter [] m = m
reenter (reconnect cfg ∷ rest) m = reenter rest (connect cfg m)
reenter (leave ∷ rest) m = reenter rest (disconnect m)

abbrev pub kept_password : SudoState → Option String → String
kept_password password_verified given = or_else given ""
kept_password _ given = ""

-- `connectAttempt` from the swap on, up to the await of the old executor's disposal; `old` is the
-- executor that was there before the hook
unfoldable pub commit : ConnectionConfig → ℕ → Capability → ℕ → Option ℕ → Manager → Manager
commit cfg generation capability candidate old m =
    let swapped = record m {
      active_generation = suc m.active_generation;
      executor = some candidate;
      config =
          some (record {
            mode = cfg.mode;
            label = cfg.label;
            host = cfg.host;
            username = cfg.username;
          });
      sudo_state = capability.sudo_state;
      sudo_password = kept_password capability.sudo_state cfg.sudo_password;
      phase = connected;
    } in
    elim old [
      | none ↦ record swapped { attempts = set_stage generation done m.attempts }
      | some replaced ↦
          if replaced == candidate
          then record swapped { attempts = set_stage generation done m.attempts }
          else record swapped {
            attempts = set_stage generation swapping m.attempts;
            disposed = replaced ∷ m.disposed;
          }
    ]

-- `probeCandidate` has answered; the hook runs only when an executor is to be replaced
unfoldable pub probed_candidate : Attempt → ℕ → Option Capability → List Reentry → Manager → Manager
unfolding is_current_attempt dispose_candidate reenter commit
probed_candidate attempt candidate answer hook m = elim answer [
  | none ↦ dispose_candidate attempt.generation candidate m
  | some capability ↦
      let after = if is_some m.executor then reenter hook m else m in
      if not (is_current_attempt attempt.generation m)
      then dispose_candidate attempt.generation candidate m
      else if not (is_current_attempt attempt.generation after)
      then dispose_candidate attempt.generation candidate after
      else commit attempt.cfg attempt.generation capability candidate m.executor after
]

-- `handleConnectionLost`
unfoldable pub handle_connection_lost : ℕ → ℕ → Manager → Manager
handle_connection_lost x generation m = elim m.executor [
  | none ↦ m
  | some current ↦
      if not (current == x) || not (m.active_generation == generation) || member x m.lost_executors
      then m
      else record m {
        lost_executors = x ∷ m.lost_executors;
        executor = none;
        config = none;
        sudo_password = "";
        sudo_state = no_sudo;
        active_generation = suc m.active_generation;
        phase = if ltb 0 (length m.attempt_aborts) then connecting else idle;
        disposed = x ∷ m.disposed;
        notified = suc m.notified;
      }
]

abbrev pub is_connecting : Phase → Bool
is_connecting connecting = true
is_connecting _ = false

-- `connect`'s `finally`
unfoldable pub settled : ℕ → Manager → Manager
settled generation m =
    let gone = record m {
      attempts = drop_attempt generation m.attempts;
      attempt_aborts = keep (λ g. not (g == generation)) m.attempt_aborts;
    } in
    if generation == m.request_generation && not (is_some m.executor) && is_connecting m.phase
    then record gone { phase = idle }
    else gone

pub data Event : Type 0 where
  connects : ConnectionConfig → Event
  builds : ℕ → Option ℕ → Event
  probes : ℕ → Option Capability → List Reentry → Event
  rejects swaps settles : ℕ → Event
  loses : ℕ → ℕ → Event
  disconnects : Event
  has_disconnected : ℕ → Event

-- `buildExecutor` refuses a local connection on Windows.
unfoldable pub build_refused : Bool → ConnectionConfig → Bool
build_refused windows cfg = elim cfg.mode [ local_mode ↦ windows | ssh_mode ↦ false ]

-- The executor that an event brings into being: an attempt waits for it.
abbrev pub built_by : Stage → Bool → Option ℕ → Option ℕ
built_by building false answer = answer
built_by _ _ answer = none

unfoldable pub created : Bool → Event → Manager → Option ℕ
unfolding build_refused
created windows (builds g answer) m = elim (find_attempt g m.attempts) [
  | none ↦ none
  | some a ↦ built_by a.stage (build_refused windows a.cfg) answer
]
created windows _ m = none

-- What an event does to an attempt, by the stage it waits in; one that does not wait for the event
-- is left alone.
abbrev pub on_built : Bool → Attempt → Stage → Option ℕ → Manager → Manager
on_built refused a building answer m = built a.generation (built_by building refused answer) m
on_built refused a _ answer m = m

abbrev pub on_probed : Attempt → Stage → Option Capability → List Reentry → Manager → Manager
on_probed a (probing x) answer hook m = probed_candidate a x answer hook m
on_probed a _ answer hook m = m

abbrev pub on_rejected : Attempt → Stage → Manager → Manager
on_rejected a failing m = rejected a.generation m
on_rejected a _ m = m

abbrev pub on_swapped : Attempt → Stage → Manager → Manager
on_swapped a swapping m = record m { attempts = set_stage a.generation done m.attempts }
on_swapped a _ m = m

abbrev pub on_settled : Attempt → Stage → Manager → Manager
on_settled a done m = settled a.generation m
on_settled a _ m = m

abbrev pub with_attempt : ℕ → (Attempt → Manager → Manager) → Manager → Manager
with_attempt g f m = elim (find_attempt g m.attempts) [ none ↦ m | some a ↦ f a m ]

unfoldable pub step : Bool → Event → Manager → Manager
unfolding connect disconnect disconnected handle_connection_lost build_refused
step windows (connects cfg) m = connect cfg m
step windows (builds g answer) m =
    with_attempt g (λ a. on_built (build_refused windows a.cfg) a a.stage answer) m
step windows (probes g answer hook) m = with_attempt g (λ a. on_probed a a.stage answer hook) m
step windows (rejects g) m = with_attempt g (λ a. on_rejected a a.stage) m
step windows (swaps g) m = with_attempt g (λ a. on_swapped a a.stage) m
step windows (settles g) m = with_attempt g (λ a. on_settled a a.stage) m
step windows (loses x generation) m = handle_connection_lost x generation m
step windows disconnects m = disconnect m
step windows (has_disconnected g) m = disconnected g m

-- The events of a life, the newest first.
unfoldable pub run : Bool → List Event → Manager
unfolding step
run windows [] = initial
run windows (e ∷ before) = step windows e (run windows before)
