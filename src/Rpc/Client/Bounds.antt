-- ===== src/Rpc/Client/Bounds.antt =====
-- The memory that one browser can take: both queues of `ClientState` are counted exactly and stay
-- within the limits, and are empty once the socket is closed.
pub mod Pump
pub mod Run
use bored_manager.Base.{
  ℕ, zero, suc, ◌+◌, ◌-◌, ◌≤◌, ◌≡◌, refl, String, Option, none, some, Bool, true, false, List, [],
  ◌∷◌, ◌++◌, length, total, arith, total-append, length-append, Bool-cases, inl, inr, eq_iff, ◌&&◌,
  ◌==◌, string_key, Option-cases,
}
use bored_manager.Json.{Json}
use bored_manager.Rpc.Frame.{ServerFrame}
use bored_manager.Rpc.Client.{
  Limits, QueuedInput, QueuedEvent, ClientState, close_state, queue_limit, rate_limit, invalid_data,
  slow_client, unauthorized, send_text, Wire, socket_closed, Outgoing, attach,
}
use bored_manager.Rpc.Client.Input.{
  accept_input, enqueue, after_token, take_rate_token, next_frame, pump_input, queue_input,
}
use bored_manager.Rpc.Client.Events.{
  SerializedEvent, drop_first, trim, replace, put_event, send_head, Round, again, finished,
  pump_loop, pump_events, resume_pump, timer_fires, queue_event, forget_events,
}

abbrev input_bytes : List QueuedInput → ℕ
input_bytes = total (λ m. m.bytes)

abbrev pub event_bytes : List QueuedEvent → ℕ
event_bytes = total (λ e. e.bytes)

pub record IsBounded (limits : Limits) (c : ClientState) : Type 0 where
  pub queue_counted : c.queued_bytes ≡ input_bytes c.queue
  pub queue_short : length c.queue ≤ limits.max_queued_frames
  pub queue_small : c.queued_bytes ≤ limits.max_queued_bytes
  pub events_counted : c.event_bytes ≡ event_bytes c.events
  pub events_short : length c.events ≤ limits.max_queued_frames
  pub events_small : c.event_bytes ≤ limits.outbound_hard_limit
  pub closed_queue : c.closed ≡ true → c.queue ≡ []
  pub closed_events : c.closed ≡ true → c.events ≡ []

module _ (limits : Limits) where
  pub close_state-IsBounded :
      (c : ClientState) (code : ℕ) → IsBounded limits c → IsBounded limits (close_state c code)
  unfolding close_state
  close_state-IsBounded c code v = ground arith

  pub send_text-IsBounded :
      (wire : Wire) (c : ClientState) (m : Outgoing) (bytes : ℕ)
      → IsBounded limits c
      → IsBounded limits (send_text limits wire c m bytes).0
  unfolding send_text close_state
  send_text-IsBounded wire c m bytes v = ground arith

  pub next_frame-IsBounded :
      (c : ClientState) → IsBounded limits c → IsBounded limits (next_frame c)
  unfolding next_frame
  next_frame-IsBounded c v = ground arith

  pub pump_input-IsBounded :
      (c : ClientState) → IsBounded limits c → IsBounded limits (pump_input c)
  unfolding pump_input
  pump_input-IsBounded c v = ground (arith, next_frame-IsBounded (record c { processing = true }))

  enqueue-IsBounded :
      (c : ClientState) (m : QueuedInput)
      → c.closed ≡ false
      → length c.queue + 1 ≤ limits.max_queued_frames
      → c.queued_bytes + m.bytes ≤ limits.max_queued_bytes
      → IsBounded limits c
      → IsBounded limits (enqueue c m)
  unfolding enqueue
  enqueue-IsBounded c m o short small v =
      ground (arith, total-append (λ x. x.bytes) c.queue (m ∷ []), length-append c.queue (m ∷ []))

  queue_input-IsBounded :
      (accepting : Bool) (m : QueuedInput) (c : ClientState)
      → c.closed ≡ false
      → IsBounded limits c
      → IsBounded limits (queue_input limits accepting m c).0
  unfolding queue_input
  queue_input-IsBounded true m c o v = ground (
    arith,
    close_state-IsBounded c queue_limit,
    enqueue-IsBounded c m,
    pump_input-IsBounded (enqueue c m),
  )
  queue_input-IsBounded false m c o v = ground (arith, enqueue-IsBounded c m)

  take_rate_token-IsBounded :
      (now : ℕ) (c : ClientState)
      → IsBounded limits c
      → IsBounded limits (take_rate_token limits now c).0
        × ((take_rate_token limits now c).0.closed ≡ c.closed)
  unfolding take_rate_token
  take_rate_token-IsBounded now c v = ground arith

  after_token-IsBounded :
      (accepting : Bool) (m : QueuedInput) (c : ClientState) (passed : Bool)
      → c.closed ≡ false
      → IsBounded limits c
      → IsBounded limits (after_token limits accepting m (c, passed)).0
  unfolding after_token
  after_token-IsBounded accepting m c true o v = queue_input-IsBounded accepting m c o v
  after_token-IsBounded accepting m c false o v = close_state-IsBounded c rate_limit v

  pub accept_input-IsBounded :
      (accepting : Bool) (now : ℕ) (is_binary : Bool) (m : QueuedInput) (c : ClientState)
      → IsBounded limits c
      → IsBounded limits (accept_input limits accepting now is_binary m c).0
  unfolding accept_input
  accept_input-IsBounded accepting now is_binary m c v = ground (
    arith,
    close_state-IsBounded c invalid_data v,
    close_state-IsBounded c 1009 v,
    take_rate_token-IsBounded now c v,
    after_token-IsBounded accepting m (take_rate_token limits now c).0
        (take_rate_token limits now c).1,
  )

drop_first-sizes :
    (events : List QueuedEvent) {d : QueuedEvent} {rest : List QueuedEvent}
    → drop_first events ≡ some (d, rest)
    → (event_bytes events ≡ d.bytes + event_bytes rest) × (length events ≡ suc (length rest))
unfolding drop_first
drop_first-sizes [] h = cc
drop_first-sizes (x ∷ []) h = cc
drop_first-sizes (x ∷ y ∷ r) h = elim (Option-cases (drop_first (y ∷ r))) [
  | inl e ↦ ground arith
  | inr ((d', rest'), e) ↦ ground (arith, drop_first-sizes (y ∷ r) e)
]

pub trim_counted :
    (fuel : ℕ) (limits : Limits) (events : List QueuedEvent) (bytes : ℕ)
    → bytes ≡ event_bytes events
    → (trim fuel limits events bytes).1 ≡ event_bytes (trim fuel limits events bytes).0
unfolding trim
trim_counted zero limits events bytes h = h
trim_counted (suc fuel) limits events bytes h = elim (Option-cases (drop_first events)) [
  | inl e ↦ ground arith
  | inr ((d, rest), e) ↦
      ground (arith, drop_first-sizes events e, trim_counted fuel limits rest (bytes - d.bytes))
]

pub replace-sizes :
    (s : SerializedEvent) (events : List QueuedEvent) {old : QueuedEvent} {rest : List QueuedEvent}
    → replace s events ≡ some (old, rest)
    → (event_bytes rest + old.bytes ≡ event_bytes events + s.bytes) × (length rest ≡ length events)
unfolding replace
replace-sizes s [] h = cc
replace-sizes s (x ∷ r) h = elim (Bool-cases (x.replaceable && x.channel == s.channel)) [
  | inl hit ↦ ground arith
  | inr miss ↦ elim (Option-cases (replace s r)) [
    | inl e ↦ ground arith
    | inr ((old', rest'), e) ↦ ground (arith, replace-sizes s r e)
  ]
]
