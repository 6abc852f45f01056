-- ===== src/Rpc/Client/Run.antt =====
-- A browser's connection as a sequence of the router's operations on it, in any order: what the
-- socket, the timers, the handlers and the rest of the server may do between two waits.
use bored_manager.Base.{ℕ, String, Option, none, some, Bool, true, List, [], ◌∷◌}
use bored_manager.Json.{Json}
use bored_manager.Rpc.Frame.{ServerFrame}
use bored_manager.Rpc.Client.{Limits, QueuedInput, ClientState, close_state, Wire, socket_closed}
use bored_manager.Rpc.Client.Input.{accept_input}
use bored_manager.Rpc.Client.Events.{
  SerializedEvent, queue_event, resume_pump, timer_fires, forget_events,
}
use bored_manager.Rpc.Client.Dispatch.{
  Registered, Outcome, begin_dispatch, authorized_dispatch, finish_dispatch, reject_during_shutdown,
}

-- The Boolean of an operation is the router's `accepting`, the second one of `arrives` tells a
-- binary frame, and that of an answer is the answer.
pub data Op : Type 0 where
  arrives : Wire → Bool → ℕ → Bool → QueuedInput → Op
  begins : Op
  authorizes : Wire → Bool → Bool → Op
  ends : Wire → Bool → Outcome → Op
  emits : Wire → Bool → SerializedEvent → Op
  answers : Wire → Bool → Bool → Op
  timer : Wire → Bool → Op
  protects : Op
  defers : ℕ → Op
  stops : Op
  closes : ℕ → Op
  disconnects : Op

module _ (size : ServerFrame → Option ℕ) (parse : String → Option Json) (limits : Limits)
    (known : Registered) where
  unfoldable pub answer_rejected : Wire → ClientState × Option String → ClientState
  unfolding reject_during_shutdown
  answer_rejected wire (c, none) = c
  answer_rejected wire (c, some raw) = reject_during_shutdown size parse limits wire raw c

  unfoldable pub step : Op → ClientState → ClientState
  unfolding answer_rejected
  step (arrives wire accepting now is_binary m) c =
      answer_rejected wire (accept_input limits accepting now is_binary m c)
  step begins c = begin_dispatch size parse c
  step (authorizes wire accepting answer) c =
      authorized_dispatch size parse limits wire accepting known answer c
  step (ends wire accepting outcome) c = finish_dispatch size parse limits wire accepting outcome c
  step (emits wire accepting s) c = (queue_event limits wire accepting s c).0
  step (answers wire accepting answer) c = resume_pump limits wire accepting answer c
  step (timer wire accepting) c = timer_fires limits wire accepting c
  step protects c = record c { is_protected = true }
  step (defers code) c = record c { is_protected = true; deferred = some code }
  step stops c = forget_events c
  step (closes code) c = close_state c code
  step disconnects c = socket_closed c

  unfoldable pub run : List Op → ClientState → ClientState
  run [] c = c
  run (op ∷ ops) c = run ops (step op c)
