-- ===== src/Rpc/Client/Bounds/Pump.antt =====
-- The event queue of one browser stays within its limits: queueing, trimming and sending.
use bored_manager.Base.{
  ℕ, suc, ◌-◌, ◌≡◌, refl, Bool, true, false, List, ◌∷◌, length, arith, total-append, Bool-cases,
  inl, inr, Option-cases,
}
use bored_manager.Rpc.Client.{
  Limits, QueuedEvent, ClientState, close_state, slow_client, unauthorized, Wire, pushed,
}
use bored_manager.Rpc.Client.Events.{
  SerializedEvent, trim, replace, put_event, append_event, after_put, send_head, pump_loop,
  pump_events, resume_pump, timer_fires, queue_event,
}
use bored_manager.Rpc.Client.Events.Loop.{After, pump_loop_inv, resume_pump_inv}
use bored_manager.Rpc.Client.Bounds.{
  IsBounded, event_bytes, close_state-IsBounded, send_text-IsBounded, trim_counted, replace-sizes,
}

module _ (limits : Limits) where
  send_head-IsBounded :
      (wire : Wire) (e : QueuedEvent) (rest : List QueuedEvent) (c : ClientState)
      → c.events ≡ e ∷ rest
      → IsBounded limits c
      → After (IsBounded limits) (send_head limits wire e rest c)
  unfolding send_head
  send_head-IsBounded wire e rest c q v = ground (
    arith,
    close_state-IsBounded limits c slow_client v,
    send_text-IsBounded limits wire
        (record c { events = rest; event_bytes = c.event_bytes - e.bytes }) (pushed e) e.bytes,
  )

  pump_loop-IsBounded :
      (fuel : ℕ) (wire : Wire) (accepting : Bool) (c : ClientState)
      → IsBounded limits c
      → IsBounded limits (pump_loop fuel limits wire accepting c)
  pump_loop-IsBounded fuel wire accepting c v =
      pump_loop_inv limits wire accepting (IsBounded limits) (λ d w. ground arith)
        (λ d e w. ground arith) (λ d e rest q granted w. send_head-IsBounded wire e rest d q w) fuel
        c v

  pub pump_events-IsBounded :
      (wire : Wire) (accepting : Bool) (c : ClientState)
      → IsBounded limits c
      → IsBounded limits (pump_events limits wire accepting c)
  unfolding pump_events
  pump_events-IsBounded wire accepting c v = ground (
    arith,
    pump_loop-IsBounded (suc (length c.events)) wire accepting (record c { event_pumping = true }),
  )

  pub resume_pump-IsBounded :
      (wire : Wire) (accepting answer : Bool) (c : ClientState)
      → IsBounded limits c
      → IsBounded limits (resume_pump limits wire accepting answer c)
  resume_pump-IsBounded wire accepting answer c v =
      resume_pump_inv limits wire accepting (IsBounded limits) answer c
        (λ d w. pump_loop-IsBounded (suc (length d.events)) wire accepting d w)
        (λ w. ground (arith, close_state-IsBounded limits c unauthorized w))
        (λ e rest q granted w.
          send_head-IsBounded wire (record e { authorized = true }) rest
            (record c { events = record e { authorized = true } ∷ rest }) refl (ground arith))
        v

  pub timer_fires-IsBounded :
      (wire : Wire) (accepting : Bool) (c : ClientState)
      → IsBounded limits c
      → IsBounded limits (timer_fires limits wire accepting c)
  unfolding timer_fires
  timer_fires-IsBounded wire accepting c v =
      ground (arith, pump_events-IsBounded wire accepting (record c { event_timer = false }))

append_event_counted :
    (s : SerializedEvent) (c : ClientState)
    → c.event_bytes ≡ event_bytes c.events
    → (append_event s c).event_bytes ≡ event_bytes (append_event s c).events
unfolding append_event
append_event_counted s c h = rw total-append (omega arith)

-- `put_event` keeps the count exact, and leaves the input queue alone.
record Put (c d : ClientState) : Type 0 where
  counted : d.event_bytes ≡ event_bytes d.events
  queue : d.queue ≡ c.queue
  queued : d.queued_bytes ≡ c.queued_bytes
  closed : d.closed ≡ c.closed

append_event-Put :
    (s : SerializedEvent) (c : ClientState)
    → c.event_bytes ≡ event_bytes c.events
    → Put c (append_event s c)
unfolding append_event
append_event-Put s c h = record {
  counted = append_event_counted s c h;
  queue = refl;
  queued = refl;
  closed = refl;
}

put_event-Put :
    (s : SerializedEvent) (c : ClientState)
    → c.event_bytes ≡ event_bytes c.events
    → Put c (put_event s c)
unfolding put_event
put_event-Put s c h = elim (Bool-cases s.replaceable) [
  | inr lasting ↦ ground (arith, append_event-Put s c h)
  | inl replaceable ↦ elim (Option-cases (replace s c.events)) [
    | inl e ↦ ground (arith, append_event-Put s c h)
    | inr ((old, rest), e) ↦ ground (arith, replace-sizes s c.events e)
  ]
]

module _ (limits : Limits) where
  after_put-IsBounded :
      (wire : Wire) (c d : ClientState)
      → c.closed ≡ false
      → IsBounded limits c
      → Put c d
      → IsBounded limits (after_put limits wire d).0
  unfolding after_put close_state
  after_put-IsBounded wire c d o v p = ground (
    arith,
    trim_counted (length d.events) limits d.events d.event_bytes p.counted,
    pump_events-IsBounded limits wire true (record d {
      events = (trim (length d.events) limits d.events d.event_bytes).0;
      event_bytes = (trim (length d.events) limits d.events d.event_bytes).1;
    }),
  )

  pub queue_event-IsBounded :
      (wire : Wire) (accepting : Bool) (s : SerializedEvent) (c : ClientState)
      → IsBounded limits c
      → IsBounded limits (queue_event limits wire accepting s c).0
  unfolding queue_event
  queue_event-IsBounded wire accepting s c v = ground (
    arith,
    close_state-IsBounded limits c slow_client v,
    put_event-Put s c v.events_counted,
    after_put-IsBounded wire c (put_event s c),
  )
