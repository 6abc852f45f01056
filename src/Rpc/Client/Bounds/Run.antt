-- ===== src/Rpc/Client/Bounds/Run.antt =====
-- Every operation of the router on a browser keeps its two queues within the limits.
use bored_manager.Base.{ℕ, String, Option, Bool, List, [], ◌∷◌, arith, All}
use bored_manager.Json.{Json}
use bored_manager.Rpc.Frame.{ServerFrame}
use bored_manager.Rpc.Client.{Limits, replied, socket_closed, attach}
use bored_manager.Rpc.Client.Events.{forget_events}
use bored_manager.Rpc.Client.Dispatch.{Registered}
use bored_manager.Rpc.Client.Run.{
  Op, arrives, begins, authorizes, ends, emits, answers, timer, protects, defers, stops, closes,
  disconnects, run,
}
use bored_manager.Rpc.Client.Preserved.{Keeps, IsAllowed, run-keeps}
use bored_manager.Rpc.Client.Bounds.{
  IsBounded, close_state-IsBounded, send_text-IsBounded, next_frame-IsBounded,
  accept_input-IsBounded,
}
use bored_manager.Rpc.Client.Bounds.Pump.{
  pump_events-IsBounded, queue_event-IsBounded, resume_pump-IsBounded, timer_fires-IsBounded,
}

-- Any answer of the authorization is allowed.
abbrev Any : Bool → Type 0
Any answer = Unit

allowed : (ops : List Op) → All (IsAllowed Any) ops
allowed [] = tt
allowed (answers wire accepting answer ∷ ops) = (tt, allowed ops)
allowed (arrives wire accepting now is_binary m ∷ ops) = (tt, allowed ops)
allowed (begins ∷ ops) = (tt, allowed ops)
allowed (authorizes wire accepting answer ∷ ops) = (tt, allowed ops)
allowed (ends wire accepting outcome ∷ ops) = (tt, allowed ops)
allowed (emits wire accepting s ∷ ops) = (tt, allowed ops)
allowed (timer wire accepting ∷ ops) = (tt, allowed ops)
allowed (protects ∷ ops) = (tt, allowed ops)
allowed (defers code ∷ ops) = (tt, allowed ops)
allowed (stops ∷ ops) = (tt, allowed ops)
allowed (closes code ∷ ops) = (tt, allowed ops)
allowed (disconnects ∷ ops) = (tt, allowed ops)

IsBounded-Keeps : (limits : Limits) → Keeps limits Any (IsBounded limits)
unfolding forget_events socket_closed
IsBounded-Keeps limits = record {
  replies = λ wire c f n v. send_text-IsBounded limits wire c (replied f) n v;
  closes = close_state-IsBounded limits;
  nexts = next_frame-IsBounded limits;
  accepts = accept_input-IsBounded limits;
  pumps = pump_events-IsBounded limits;
  queues = queue_event-IsBounded limits;
  resumes = λ wire accepting answer c g v. resume_pump-IsBounded limits wire accepting answer c v;
  timers = timer_fires-IsBounded limits;
  dispatches = λ c p v. ground arith;
  protects = λ c b d v. ground arith;
  forgets = λ c v. ground arith;
  drops = λ c v. ground arith;
}

module _ (size : ServerFrame → Option ℕ) (parse : String → Option Json) (limits : Limits)
    (known : Registered) where
  -- After any sequence of operations on a browser that has been attached - frames, answers of the
  -- authorization, ends of handlers, events, timers, closes - whatever its socket answers, the
  -- bytes of its input and event queues are counted exactly, both queues are within the limits,
  -- and both are empty once the connection is closed.
  pub run-attach-IsBounded :
      (now : ℕ) (ops : List Op)
      → IsBounded limits (run size parse limits known ops (attach limits now))
  unfolding attach
  run-attach-IsBounded now ops =
      run-keeps size parse limits Any (IsBounded limits) (IsBounded-Keeps limits) known ops
        (attach limits now) (allowed ops) (ground arith)
