-- ===== src/Rpc/Client/Dispatch.antt =====
-- server/rpc.ts: what `RpcRouter.dispatch` does with one frame, in the three parts between its
-- waits (the answer of `isAuthorized`, the end of the handler), and what it answers. The parameters
-- stand for the runtime: `JSON.parse`, and the byte length of `JSON.stringify` (`none` if it
-- throws). Log lines are left out.
use bored_manager.Base.{
  ℕ, String, Option, none, some, Bool, true, false, if◌then◌else◌, not, ◌||◌, or_else,
}
use Prim.Native.String.{◌++◌ as append}
use bored_manager.Json.{Json, null, is_record}
use bored_manager.Rpc.Frame.{
  ClientFrame, invoke, send, ServerFrame, result, error, Parsed, ok, bad, problem_text,
  parse_rpc_client_frame,
}
use bored_manager.Rpc.Client.{
  Limits, ClientState, taken, authorizing, handling, close_state, send_text, Wire, replied,
  invalid_data, unauthorized,
}
use bored_manager.Rpc.Client.Input.{next_frame}
use bored_manager.Rpc.Client.Events.{pump_events}

-- Which of the router's maps have the channel of a frame: `handlers`, `clientHandlers` (for an
-- invoke) and `sendHandlers` (for a send).
pub record Registered : Type 0 where
  pub normal : String → Bool
  pub with_client : String → Bool
  pub sends : String → Bool

-- How a handler ended.
pub data Outcome : Type 0 where
  returned : Option Json → Outcome
  threw_public : String → String → Outcome
  threw_other : Outcome

-- `publicErrorPayload` of server/errors.ts: the code and the message that may leave the server
unfoldable pub public_error_payload : Outcome → String × String
public_error_payload (threw_public code message) = (code, message)
public_error_payload _ = ("INTERNAL_ERROR", "Internal server error")

-- `No handler for "${channel}"`
unfoldable pub no_handler : String → String
no_handler channel = append "No handler for \"" (append channel "\"")

module _ (size : ServerFrame → Option ℕ) (parse : String → Option Json) where
  -- `writeFrame`
  unfoldable pub write_frame : Limits → Wire → ClientState → ServerFrame → ClientState × Bool
  unfolding send_text
  write_frame limits wire c f = elim (size f) [
    | none ↦ (c, false)
    | some bytes ↦ send_text limits wire c (replied f) bytes
  ]

  -- `dispatch` up to its first wait
  unfoldable pub begin_dispatch : ClientState → ClientState
  unfolding next_frame
  begin_dispatch c = elim c.dispatching [
    | taken raw ↦ elim (parse raw) [
      | none ↦ next_frame c
      | some frame ↦
          if not (is_record frame) || c.is_protected
          then next_frame c
          else record c { dispatching = authorizing frame }
    ]
    | _ ↦ c
  ]

  unfoldable pub refuse : Limits → Wire → ClientState → ℕ → String → String → ClientState
  unfolding write_frame next_frame
  refuse limits wire c id code message =
      next_frame (write_frame limits wire c (error id (some code) message)).0

  unfoldable pub route : Limits → Wire → Bool → Registered → ClientFrame → ClientState → ClientState
  unfolding refuse next_frame
  route limits wire false known (invoke id channel args) c =
      refuse limits wire c id "SERVER_SHUTTING_DOWN" "Server is shutting down"
  route limits wire false known (send channel args) c = next_frame c
  route limits wire true known (invoke id channel args) c =
      if known.normal channel || known.with_client channel
      then record c { dispatching = handling (invoke id channel args) }
      else refuse limits wire c id "METHOD_NOT_FOUND" (no_handler channel)
  route limits wire true known (send channel args) c =
      if known.sends channel
      then record c { dispatching = handling (send channel args) }
      else next_frame c

  unfoldable pub route_parsed :
      Limits → Wire → Bool → Registered → Parsed ClientFrame → ClientState → ClientState
  unfolding route refuse next_frame problem_text
  route_parsed limits wire accepting known (ok f) c = route limits wire accepting known f c
  route_parsed limits wire accepting known (bad p (some id)) c =
      refuse limits wire c id "INVALID_REQUEST" (problem_text p)
  route_parsed limits wire accepting known (bad p none) c = next_frame c

  -- `dispatch` after the answer of `isAuthorized`, up to the call of the handler
  unfoldable pub authorized_dispatch :
      Limits → Wire → Bool → Registered → Bool → ClientState → ClientState
  unfolding route_parsed close_state next_frame
  authorized_dispatch limits wire accepting known answer c = elim c.dispatching [
    | authorizing frame ↦
        if answer
        then route_parsed limits wire accepting known (parse_rpc_client_frame frame) c
        else next_frame (close_state c unauthorized)
    | _ ↦ c
  ]

  -- `finishDeferredClose`
  unfoldable pub finish_deferred_close : Limits → Wire → Bool → ClientState → ClientState
  unfolding close_state pump_events
  finish_deferred_close limits wire accepting c = elim c.deferred [
    | some code ↦ close_state (record c { is_protected = false; deferred = none }) code
    | none ↦ pump_events limits wire accepting (record c { is_protected = false })
  ]

  -- The answer to an invoke: the value, or the error that may leave the server. A value that does
  -- not serialize, or that the socket does not take, is answered by an error if it still can be.
  unfoldable pub answer_invoke : Limits → Wire → ℕ → Outcome → ClientState → ClientState
  unfolding write_frame public_error_payload
  answer_invoke limits wire id (returned value) c =
      let (d, written) = write_frame limits wire c (result id (some (or_else value null))) in
      if written || d.closed
      then d
      else (write_frame limits wire d (error id (some "INTERNAL_ERROR") "Internal server error")).0
  answer_invoke limits wire id thrown c =
      let (code, message) = public_error_payload thrown in
      (write_frame limits wire c (error id (some code) message)).0

  unfoldable pub finish_send : Outcome → ClientState → ClientState
  unfolding close_state
  finish_send (returned value) c = c
  finish_send (threw_public code message) c = close_state c invalid_data
  finish_send threw_other c = close_state c 1011

  -- `dispatch` after the handler has ended
  unfoldable pub finish_dispatch : Limits → Wire → Bool → Outcome → ClientState → ClientState
  unfolding answer_invoke finish_send finish_deferred_close next_frame
  finish_dispatch limits wire accepting outcome c = elim c.dispatching [
    | handling frame ↦ elim frame [
      | invoke id channel args ↦
          next_frame
            (finish_deferred_close limits wire accepting (answer_invoke limits wire id outcome c))
      | send channel args ↦ next_frame (finish_send outcome c)
    ]
    | _ ↦ c
  ]

  -- `rejectDuringShutdown`
  unfoldable pub reject_during_shutdown : Limits → Wire → String → ClientState → ClientState
  unfolding write_frame
  reject_during_shutdown limits wire raw c = elim (parse raw) [
    | none ↦ c
    | some frame ↦ elim (parse_rpc_client_frame frame) [
      | bad p id ↦ c
      | ok f ↦ elim f [
        | send channel args ↦ c
        | invoke id channel args ↦
            (write_frame limits wire c
              (error id (some "SERVER_SHUTTING_DOWN") "Server is shutting down")).0
      ]
    ]
  ]
