-- ===== src/Rpc/Client/Silence.antt =====
-- server/rpc.ts: what a browser is sent before the authorization has let an event through.
pub mod Run
use bored_manager.Base.{
  ℕ, zero, suc, ◌+◌, ◌-◌, ◌≡◌, refl, String, Option, none, some, Bool, true, false, List, [], ◌∷◌,
  ◌++◌, length, arith, Bool-cases, inl, inr, ◌&&◌, ◌==◌, string_key, Option-cases, All, All-append,
  subst,
}
use bored_manager.Rpc.Client.{
  Limits, QueuedInput, QueuedEvent, ClientState, close_state, send_text, Wire, Outgoing, pushed,
  replied,
}
use bored_manager.Rpc.Client.Input.{
  accept_input, enqueue, after_token, take_rate_token, next_frame, pump_input, queue_input,
}
use bored_manager.Rpc.Client.Events.{
  SerializedEvent, drop_first, trim, replace, put_event, append_event, after_put, pump_loop,
  pump_events, resume_pump, timer_fires, queue_event,
}
use bored_manager.Rpc.Client.Events.Loop.{pump_loop_inv, resume_pump_inv}

abbrev pub is_reply : Outgoing → Bool
is_reply (pushed e) = false
is_reply (replied f) = true

abbrev pub Unauthorized : List QueuedEvent → Type 0
Unauthorized = All (λ e. e.authorized ≡ false)

pub record IsSilent (c : ClientState) : Type 0 where
  pub unauthorized : Unauthorized c.events
  pub silent : All (λ o. is_reply o ≡ true) c.sent

-- Whatever leaves the events and what was sent alone, or drops the events.
pub close_state-IsSilent : (c : ClientState) (code : ℕ) → IsSilent c → IsSilent (close_state c code)
unfolding close_state
close_state-IsSilent c code v = ground arith

pub next_frame-IsSilent : (c : ClientState) → IsSilent c → IsSilent (next_frame c)
unfolding next_frame
next_frame-IsSilent c v = ground arith

pump_input-IsSilent : (c : ClientState) → IsSilent c → IsSilent (pump_input c)
unfolding pump_input
pump_input-IsSilent c v = ground (arith, next_frame-IsSilent (record c { processing = true }))

drop_first-Unauthorized :
    (events : List QueuedEvent) {d : QueuedEvent} {rest : List QueuedEvent}
    → drop_first events ≡ some (d, rest)
    → Unauthorized events
    → Unauthorized rest
unfolding drop_first
drop_first-Unauthorized [] h u = cc
drop_first-Unauthorized (x ∷ []) h u = cc
drop_first-Unauthorized (x ∷ y ∷ r) h u = elim (Option-cases (drop_first (y ∷ r))) [
  | inl e ↦ ground arith
  | inr ((d', rest'), e) ↦ ground (arith, drop_first-Unauthorized (y ∷ r) e u.1)
]

trim-Unauthorized :
    (fuel : ℕ) (limits : Limits) (events : List QueuedEvent) (bytes : ℕ)
    → Unauthorized events
    → Unauthorized (trim fuel limits events bytes).0
unfolding trim
trim-Unauthorized zero limits events bytes u = u
trim-Unauthorized (suc fuel) limits events bytes u = elim (Option-cases (drop_first events)) [
  | inl e ↦ ground arith
  | inr ((d, rest), e) ↦ ground (
    arith,
    drop_first-Unauthorized events e u,
    trim-Unauthorized fuel limits rest (bytes - d.bytes),
  )
]

replace-Unauthorized :
    (s : SerializedEvent) (events : List QueuedEvent) {old : QueuedEvent} {rest : List QueuedEvent}
    → replace s events ≡ some (old, rest)
    → Unauthorized events
    → Unauthorized rest
unfolding replace
replace-Unauthorized s [] h u = cc
replace-Unauthorized s (x ∷ r) h u = elim (Bool-cases (x.replaceable && x.channel == s.channel)) [
  | inl hit ↦ ground arith
  | inr miss ↦ elim (Option-cases (replace s r)) [
    | inl e ↦ ground arith
    | inr ((old', rest'), e) ↦ ground (arith, replace-Unauthorized s r e u.1)
  ]
]

append_event-IsSilent :
    (s : SerializedEvent) (c : ClientState) → IsSilent c → IsSilent (append_event s c)
unfolding append_event
append_event-IsSilent s c v = record {
  unauthorized = All-append (λ e. e.authorized ≡ false) c.events _ v.unauthorized (refl, tt);
  silent = v.silent;
}

put_event-IsSilent : (s : SerializedEvent) (c : ClientState) → IsSilent c → IsSilent (put_event s c)
unfolding put_event
put_event-IsSilent s c v = elim (Option-cases (replace s c.events)) [
  | inl e ↦ ground (arith, append_event-IsSilent s c v)
  | inr ((old, rest), e) ↦
      ground (arith, append_event-IsSilent s c v, replace-Unauthorized s c.events e v.unauthorized)
]

module _ (limits : Limits) where
  pub send_text-IsSilent :
      (wire : Wire) (c : ClientState) (m : Outgoing) (bytes : ℕ)
      → is_reply m ≡ true
      → IsSilent c
      → IsSilent (send_text limits wire c m bytes).0
  unfolding send_text close_state
  send_text-IsSilent wire c m bytes r v = ground arith

  queue_input-IsSilent :
      (accepting : Bool) (m : QueuedInput) (c : ClientState)
      → IsSilent c
      → IsSilent (queue_input limits accepting m c).0
  unfolding queue_input enqueue
  queue_input-IsSilent true m c v =
      ground (arith, close_state-IsSilent c 4409 v, pump_input-IsSilent (enqueue c m))
  queue_input-IsSilent false m c v = ground arith

  after_token-IsSilent :
      (accepting : Bool) (m : QueuedInput) (c : ClientState) (passed : Bool)
      → IsSilent c
      → IsSilent (after_token limits accepting m (c, passed)).0
  unfolding after_token
  after_token-IsSilent accepting m c true v = queue_input-IsSilent accepting m c v
  after_token-IsSilent accepting m c false v = close_state-IsSilent c 4429 v

  take_rate_token-IsSilent :
      (now : ℕ) (c : ClientState) → IsSilent c → IsSilent (take_rate_token limits now c).0
  unfolding take_rate_token
  take_rate_token-IsSilent now c v = ground arith

  pub accept_input-IsSilent :
      (accepting : Bool) (now : ℕ) (is_binary : Bool) (m : QueuedInput) (c : ClientState)
      → IsSilent c
      → IsSilent (accept_input limits accepting now is_binary m c).0
  unfolding accept_input
  accept_input-IsSilent accepting now is_binary m c v = ground (
    arith,
    close_state-IsSilent c 4400 v,
    close_state-IsSilent c 1009 v,
    take_rate_token-IsSilent now c v,
    after_token-IsSilent accepting m (take_rate_token limits now c).0
        (take_rate_token limits now c).1,
  )

  -- An unauthorized head is never sent: the loop waits for an answer at it.
  pub pump_loop-IsSilent :
      (fuel : ℕ) (wire : Wire) (accepting : Bool) (c : ClientState)
      → IsSilent c
      → IsSilent (pump_loop fuel limits wire accepting c)
  pump_loop-IsSilent fuel wire accepting c v =
      pump_loop_inv limits wire accepting IsSilent (λ d w. ground arith) (λ d e w. ground arith)
        (λ d e rest q granted w.
          let u = subst Unauthorized q w.unauthorized in absurd (ground arith))
        fuel c v

  pub pump_events-IsSilent :
      (wire : Wire) (accepting : Bool) (c : ClientState)
      → IsSilent c
      → IsSilent (pump_events limits wire accepting c)
  unfolding pump_events
  pump_events-IsSilent wire accepting c v = ground (
    arith,
    pump_loop-IsSilent (suc (length c.events)) wire accepting (record c { event_pumping = true }),
  )

  pub resume_pump-IsSilent :
      (wire : Wire) (accepting answer : Bool) (c : ClientState)
      → answer ≡ false
      → IsSilent c
      → IsSilent (resume_pump limits wire accepting answer c)
  resume_pump-IsSilent wire accepting answer c denied v =
      resume_pump_inv limits wire accepting IsSilent answer c
        (λ d w. pump_loop-IsSilent (suc (length d.events)) wire accepting d w)
        (λ w. ground (arith, close_state-IsSilent c 4401 w))
        (λ e rest q granted w. absurd (ground arith)) v

  pub timer_fires-IsSilent :
      (wire : Wire) (accepting : Bool) (c : ClientState)
      → IsSilent c
      → IsSilent (timer_fires limits wire accepting c)
  unfolding timer_fires
  timer_fires-IsSilent wire accepting c v =
      ground (arith, pump_events-IsSilent wire accepting (record c { event_timer = false }))

  after_put-IsSilent :
      (wire : Wire) (c : ClientState) → IsSilent c → IsSilent (after_put limits wire c).0
  unfolding after_put close_state
  after_put-IsSilent wire c v =
      let t = trim (length c.events) limits c.events c.event_bytes in
      ground (
        arith,
        trim-Unauthorized (length c.events) limits c.events c.event_bytes v.unauthorized,
        pump_events-IsSilent wire true (record c { events = t.0; event_bytes = t.1 }),
      )

  pub queue_event-IsSilent :
      (wire : Wire) (accepting : Bool) (s : SerializedEvent) (c : ClientState)
      → IsSilent c
      → IsSilent (queue_event limits wire accepting s c).0
  unfolding queue_event
  queue_event-IsSilent wire accepting s c v = ground (
    arith,
    close_state-IsSilent c 4410 v,
    put_event-IsSilent s c v,
    after_put-IsSilent wire (put_event s c),
  )
