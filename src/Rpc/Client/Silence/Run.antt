-- ===== src/Rpc/Client/Silence/Run.antt =====
-- No operation of the router but a positive answer of the authorization lets an event out.
use bored_manager.Base.{ℕ, ◌≡◌, refl, String, Option, Bool, false, List, arith, All, All-map}
use bored_manager.Json.{Json}
use bored_manager.Rpc.Frame.{ServerFrame}
use bored_manager.Rpc.Client.{Limits, replied, socket_closed, attach}
use bored_manager.Rpc.Client.Events.{forget_events}
use bored_manager.Rpc.Client.Dispatch.{Registered}
use bored_manager.Rpc.Client.Run.{
  Op, arrives, begins, authorizes, ends, emits, answers, timer, protects, defers, stops, closes,
  disconnects, run,
}
use bored_manager.Rpc.Client.Preserved.{Keeps, IsAllowed, run-keeps}
use bored_manager.Rpc.Client.Silence.{
  IsSilent, close_state-IsSilent, send_text-IsSilent, next_frame-IsSilent, accept_input-IsSilent,
  pump_events-IsSilent, queue_event-IsSilent, resume_pump-IsSilent, timer_fires-IsSilent,
}

-- The operation is a positive answer of the authorization for an event.
abbrev pub grants : Op → Bool
grants (answers wire accepting answer) = answer
grants _ = false

abbrev Denied : Bool → Type 0
Denied answer = answer ≡ false

grants-IsAllowed : (op : Op) → grants op ≡ false → IsAllowed Denied op
grants-IsAllowed (answers wire accepting answer) g = g
grants-IsAllowed (arrives wire accepting now is_binary m) g = tt
grants-IsAllowed begins g = tt
grants-IsAllowed (authorizes wire accepting answer) g = tt
grants-IsAllowed (ends wire accepting outcome) g = tt
grants-IsAllowed (emits wire accepting s) g = tt
grants-IsAllowed (timer wire accepting) g = tt
grants-IsAllowed protects g = tt
grants-IsAllowed (defers code) g = tt
grants-IsAllowed stops g = tt
grants-IsAllowed (closes code) g = tt
grants-IsAllowed disconnects g = tt

IsSilent-Keeps : (limits : Limits) → Keeps limits Denied IsSilent
unfolding forget_events socket_closed
IsSilent-Keeps limits = record {
  replies = λ wire c f n v. send_text-IsSilent limits wire c (replied f) n refl v;
  closes = close_state-IsSilent;
  nexts = next_frame-IsSilent;
  accepts = accept_input-IsSilent limits;
  pumps = pump_events-IsSilent limits;
  queues = queue_event-IsSilent limits;
  resumes = resume_pump-IsSilent limits;
  timers = timer_fires-IsSilent limits;
  dispatches = λ c p v. ground arith;
  protects = λ c b d v. ground arith;
  forgets = λ c v. ground arith;
  drops = λ c v. ground arith;
}

module _ (size : ServerFrame → Option ℕ) (parse : String → Option Json) (limits : Limits)
    (known : Registered) where
  -- Nothing is pushed to a browser before the authorization has answered yes for one of its
  -- events: after any sequence of operations without such an answer, all that was handed to the
  -- socket are replies, and every event that waits is unauthorized.
  pub run-attach-IsSilent :
      (now : ℕ) (ops : List Op)
      → All (λ op. grants op ≡ false) ops
      → IsSilent (run size parse limits known ops (attach limits now))
  unfolding attach
  run-attach-IsSilent now ops g =
      run-keeps size parse limits Denied IsSilent (IsSilent-Keeps limits) known ops
        (attach limits now)
        (All-map (λ op. grants op ≡ false) (IsAllowed Denied) ops grants-IsAllowed g)
        (record { unauthorized = tt; silent = tt })
