-- ===== src/Rpc/Client/Preserved.antt =====
-- A predicate of a browser's state that the steps of server/rpc.ts keep is kept by every operation of
-- the router, and so by every sequence of operations.
use bored_manager.Base.{
  ℕ, ◌≡◌, refl, String, Option, none, some, Bool, true, false, List, [], ◌∷◌, inl, inr,
  Option-cases, Bool-cases, or_else, All, not, ◌||◌,
}
use bored_manager.Json.{Json, null, is_record}
use bored_manager.Rpc.Frame.{
  ClientFrame, invoke, send, ServerFrame, result, error, Parsed, ok, bad, problem_text,
  parse_rpc_client_frame,
}
use bored_manager.Rpc.Client.{
  Limits, ClientState, Progress, idle, taken, authorizing, handling, close_state, unauthorized,
  invalid_data, Wire, replied, socket_closed, send_text, QueuedInput,
}
use bored_manager.Rpc.Client.Input.{accept_input, next_frame}
use bored_manager.Rpc.Client.Events.{
  forget_events, SerializedEvent, pump_events, queue_event, resume_pump, timer_fires,
}
use bored_manager.Rpc.Client.Dispatch.{
  Registered, Outcome, returned, threw_public, threw_other, public_error_payload, write_frame,
  refuse, route, route_parsed, answer_invoke, finish_send, begin_dispatch, authorized_dispatch,
  finish_dispatch, finish_deferred_close, reject_during_shutdown, no_handler,
}
use bored_manager.Rpc.Client.Run.{
  Op, arrives, begins, authorizes, ends, emits, answers, timer, protects, defers, stops, closes,
  disconnects, step, run, answer_rejected,
}

-- What the steps between two waits must keep; `Allowed` restricts the answers of the authorization
-- for events.
pub record Keeps (limits : Limits) (Allowed : Bool → Type 0) (P : ClientState → Type 0)
    : Type 0 where
  pub replies :
      (wire : Wire) (c : ClientState) (f : ServerFrame) (bytes : ℕ)
      → P c
      → P (send_text limits wire c (replied f) bytes).0
  pub closes : (c : ClientState) (code : ℕ) → P c → P (close_state c code)
  pub nexts : (c : ClientState) → P c → P (next_frame c)
  pub accepts :
      (accepting : Bool) (now : ℕ) (is_binary : Bool) (m : QueuedInput) (c : ClientState)
      → P c
      → P (accept_input limits accepting now is_binary m c).0
  pub pumps :
      (wire : Wire) (accepting : Bool) (c : ClientState)
      → P c
      → P (pump_events limits wire accepting c)
  pub queues :
      (wire : Wire) (accepting : Bool) (s : SerializedEvent) (c : ClientState)
      → P c
      → P (queue_event limits wire accepting s c).0
  pub resumes :
      (wire : Wire) (accepting answer : Bool) (c : ClientState)
      → Allowed answer
      → P c
      → P (resume_pump limits wire accepting answer c)
  pub timers :
      (wire : Wire) (accepting : Bool) (c : ClientState)
      → P c
      → P (timer_fires limits wire accepting c)
  pub dispatches : (c : ClientState) (p : Progress) → P c → P (record c { dispatching = p })
  pub protects :
      (c : ClientState) (b : Bool) (d : Option ℕ)
      → P c
      → P (record c { is_protected = b; deferred = d })
  pub forgets : (c : ClientState) → P c → P (forget_events c)
  pub drops : (c : ClientState) → P c → P (socket_closed c)

-- The operations that the rule is about.
abbrev pub IsAllowed : (Bool → Type 0) → Op → Type 0
IsAllowed Allowed (answers wire accepting answer) = Allowed answer
IsAllowed Allowed _ = Unit

module _ (size : ServerFrame → Option ℕ) (parse : String → Option Json) (limits : Limits)
    (Allowed : Bool → Type 0) (P : ClientState → Type 0) (rule : Keeps limits Allowed P) where
  write_frame-keeps :
      (wire : Wire) (c : ClientState) (f : ServerFrame)
      → P c
      → P (write_frame size parse limits wire c f).0
  unfolding write_frame
  write_frame-keeps wire c f v = elim (Option-cases (size f)) [
    | inl e ↦ rw (e, write_frame) v
    | inr (n, e) ↦ rw (e, write_frame) (rule.replies wire c f n v)
  ]

  begin_dispatch-keeps : (c : ClientState) → P c → P (begin_dispatch size parse c)
  unfolding begin_dispatch
  begin_dispatch-keeps c v = go c.dispatching refl
    where
      go : (p : Progress) → c.dispatching ≡ p → P (begin_dispatch size parse c)
      go (taken raw) e = elim (Option-cases (parse raw)) [
        | inl f ↦ rw (e, begin_dispatch, f) (rule.nexts c v)
        | inr (frame, f) ↦ elim (Bool-cases (not (is_record frame) || c.is_protected)) [
          | inl skip ↦ rw (e, begin_dispatch, f, skip) (rule.nexts c v)
          | inr go_on ↦ rw (e, begin_dispatch, f, go_on) (rule.dispatches c (authorizing frame) v)
        ]
      ]
      go idle e = rw (e, begin_dispatch) v
      go (authorizing frame) e = rw (e, begin_dispatch) v
      go (handling f) e = rw (e, begin_dispatch) v

  refuse-keeps :
      (wire : Wire) (c : ClientState) (id : ℕ) (code message : String)
      → P c
      → P (refuse size parse limits wire c id code message)
  unfolding refuse
  refuse-keeps wire c id code message v =
      rule.nexts _ (write_frame-keeps wire c (error id (some code) message) v)

  route-keeps :
      (wire : Wire) (accepting : Bool) (known : Registered) (f : ClientFrame) (c : ClientState)
      → P c
      → P (route size parse limits wire accepting known f c)
  unfolding route
  route-keeps wire false known (invoke id channel args) c v =
      refuse-keeps wire c id "SERVER_SHUTTING_DOWN" "Server is shutting down" v
  route-keeps wire false known (send channel args) c v = rule.nexts c v
  route-keeps wire true known (invoke id channel args) c v =
      elim (Bool-cases (known.normal channel || known.with_client channel)) [
        | inl here ↦ rw here (rule.dispatches c (handling (invoke id channel args)) v)
        | inr unknown ↦
            rw unknown (refuse-keeps wire c id "METHOD_NOT_FOUND" (no_handler channel) v)
      ]
  route-keeps wire true known (send channel args) c v = elim (Bool-cases (known.sends channel)) [
    | inl here ↦ rw here (rule.dispatches c (handling (send channel args)) v)
    | inr unknown ↦ rw unknown (rule.nexts c v)
  ]

  route_parsed-keeps :
      (wire : Wire) (accepting : Bool) (known : Registered) (r : Parsed ClientFrame)
      (c : ClientState)
      → P c
      → P (route_parsed size parse limits wire accepting known r c)
  unfolding route_parsed
  route_parsed-keeps wire accepting known (ok f) c v = route-keeps wire accepting known f c v
  route_parsed-keeps wire accepting known (bad p (some id)) c v =
      refuse-keeps wire c id "INVALID_REQUEST" (problem_text p) v
  route_parsed-keeps wire accepting known (bad p none) c v = rule.nexts c v

  authorized_dispatch-keeps :
      (wire : Wire) (accepting : Bool) (known : Registered) (answer : Bool) (c : ClientState)
      → P c
      → P (authorized_dispatch size parse limits wire accepting known answer c)
  unfolding authorized_dispatch
  authorized_dispatch-keeps wire accepting known answer c v = go c.dispatching refl
    where
      go :
          (p : Progress)
          → c.dispatching ≡ p
          → P (authorized_dispatch size parse limits wire accepting known answer c)
      go (authorizing frame) e = elim (Bool-cases answer) [
        | inl granted ↦
            rw (e, authorized_dispatch, granted)
              (route_parsed-keeps wire accepting known (parse_rpc_client_frame frame) c v)
        | inr denied ↦
            rw (e, authorized_dispatch, denied)
              (rule.nexts (close_state c unauthorized) (rule.closes c unauthorized v))
      ]
      go idle e = rw (e, authorized_dispatch) v
      go (taken raw) e = rw (e, authorized_dispatch) v
      go (handling f) e = rw (e, authorized_dispatch) v

  finish_deferred_close-keeps :
      (wire : Wire) (accepting : Bool) (c : ClientState)
      → P c
      → P (finish_deferred_close size parse limits wire accepting c)
  unfolding finish_deferred_close
  finish_deferred_close-keeps wire accepting c v = elim (Option-cases c.deferred) [
    | inl e ↦
        rw (e, finish_deferred_close)
          (rule.pumps wire accepting (record c { is_protected = false })
            (rule.protects c false c.deferred v))
    | inr (code, e) ↦
        rw (e, finish_deferred_close)
          (rule.closes (record c { is_protected = false; deferred = none }) code
            (rule.protects c false none v))
  ]

  answer_invoke-keeps :
      (wire : Wire) (id : ℕ) (outcome : Outcome) (c : ClientState)
      → P c
      → P (answer_invoke size parse limits wire id outcome c)
  unfolding answer_invoke public_error_payload
  answer_invoke-keeps wire id (returned value) c v =
      let f = result id (some (or_else value null)) in
      let d = (write_frame size parse limits wire c f).0 in
      let w = write_frame-keeps wire c f v in
      elim (Bool-cases ((write_frame size parse limits wire c f).1 || d.closed)) [
        | inl told ↦ rw told w
        | inr untold ↦
            rw untold (
              write_frame-keeps wire d (error id (some "INTERNAL_ERROR") "Internal server error") w)
      ]
  answer_invoke-keeps wire id (threw_public code message) c v =
      write_frame-keeps wire c (error id (some code) message) v
  answer_invoke-keeps wire id threw_other c v = write_frame-keeps wire c _ v

  finish_send-keeps :
      (outcome : Outcome) (c : ClientState) → P c → P (finish_send size parse outcome c)
  unfolding finish_send
  finish_send-keeps (returned value) c v = v
  finish_send-keeps (threw_public code message) c v = rule.closes c invalid_data v
  finish_send-keeps threw_other c v = rule.closes c 1011 v

  finish_dispatch-keeps :
      (wire : Wire) (accepting : Bool) (outcome : Outcome) (c : ClientState)
      → P c
      → P (finish_dispatch size parse limits wire accepting outcome c)
  unfolding finish_dispatch
  finish_dispatch-keeps wire accepting outcome c v = go c.dispatching refl
    where
      go :
          (p : Progress)
          → c.dispatching ≡ p
          → P (finish_dispatch size parse limits wire accepting outcome c)
      go (handling (invoke id channel args)) e =
          rw (e, finish_dispatch)
            (rule.nexts _ (
              finish_deferred_close-keeps wire accepting _
                (answer_invoke-keeps wire id outcome c v)))
      go (handling (send channel args)) e =
          rw (e, finish_dispatch) (rule.nexts _ (finish_send-keeps outcome c v))
      go idle e = rw (e, finish_dispatch) v
      go (taken raw) e = rw (e, finish_dispatch) v
      go (authorizing f) e = rw (e, finish_dispatch) v

  reject_during_shutdown-keeps :
      (wire : Wire) (raw : String) (c : ClientState)
      → P c
      → P (reject_during_shutdown size parse limits wire raw c)
  unfolding reject_during_shutdown
  reject_during_shutdown-keeps wire raw c v = elim (Option-cases (parse raw)) [
    | inl e ↦ rw (e, reject_during_shutdown) v
    | inr (frame, e) ↦ rw (e, reject_during_shutdown) (go (parse_rpc_client_frame frame))
  ]
    where
      answer : ServerFrame → ClientState
      answer f = (write_frame size parse limits wire c f).0

      shut : ℕ → ServerFrame
      shut id = error id (some "SERVER_SHUTTING_DOWN") "Server is shutting down"

      go :
          (r : Parsed ClientFrame)
          → P (elim r [
            | bad p id ↦ c
            | ok f ↦ elim f [ send channel args ↦ c | invoke id channel args ↦ answer (shut id) ]
          ])
      go (bad p id) = v
      go (ok (send channel args)) = v
      go (ok (invoke id channel args)) = write_frame-keeps wire c (shut id) v

  module _ (known : Registered) where
    step-keeps :
        (op : Op) (c : ClientState)
        → IsAllowed Allowed op
        → P c
        → P (step size parse limits known op c)
    unfolding step
    step-keeps (arrives wire accepting now is_binary m) c g v =
        go (accept_input limits accepting now is_binary m c)
          (rule.accepts accepting now is_binary m c v)
      where
        go :
            (r : ClientState × Option String)
            → P r.0
            → P (answer_rejected size parse limits known wire r)
        go (d, none) w = unfold answer_rejected in w
        go (d, some raw) w = unfold answer_rejected in reject_during_shutdown-keeps wire raw d w
    step-keeps begins c g v = begin_dispatch-keeps c v
    step-keeps (authorizes wire accepting answer) c g v =
        authorized_dispatch-keeps wire accepting known answer c v
    step-keeps (ends wire accepting outcome) c g v =
        finish_dispatch-keeps wire accepting outcome c v
    step-keeps (emits wire accepting s) c g v = rule.queues wire accepting s c v
    step-keeps (answers wire accepting answer) c g v = rule.resumes wire accepting answer c g v
    step-keeps (timer wire accepting) c g v = rule.timers wire accepting c v
    step-keeps protects c g v = rule.protects c true c.deferred v
    step-keeps (defers code) c g v = rule.protects c true (some code) v
    step-keeps stops c g v = rule.forgets c v
    step-keeps (closes code) c g v = rule.closes c code v
    step-keeps disconnects c g v = rule.drops c v

    pub run-keeps :
        (ops : List Op) (c : ClientState)
        → All (IsAllowed Allowed) ops
        → P c
        → P (run size parse limits known ops c)
    unfolding run
    run-keeps [] c g v = v
    run-keeps (op ∷ ops) c g v = run-keeps ops _ g.1 (step-keeps op c g.0 v)
