-- ===== src/Rpc/Client/Events.antt =====
-- server/rpc.ts: the bounded queue of events to one browser. `queueSerializedEvent` puts an event
-- in or replaces the one of its channel, `trimReplaceableEvents` drops old ones, and `pumpEvents`
-- sends them. `pumpEvents` waits once for each event, for `isAuthorized`; the code between two
-- waits runs uninterrupted and is one function here.
pub mod Loop
pub mod Fuel
use bored_manager.Base.{
  ℕ, zero, suc, ◌+◌, ◌*◌, ◌-◌, String, Option, none, some, Bool, true, false, List, [], ◌∷◌, ◌++◌,
  ltb, leb, eqb, if◌then◌else◌, not, ◌||◌, ◌&&◌, length, ◌==◌, string_key, nat_key,
}
use bored_manager.Rpc.Client.{
  Limits, QueuedEvent, ClientState, close_state, send_text, Wire, Outgoing, pushed, slow_client,
  unauthorized,
}

-- `SerializedEvent`
pub record SerializedEvent : Type 0 where
  pub channel : String
  pub text : String
  pub bytes : ℕ
  pub replaceable : Bool

-- The first replaceable event that is not the last one, and the queue without it.
unfoldable pub drop_first : List QueuedEvent → Option (QueuedEvent × List QueuedEvent)
drop_first [] = none
drop_first (x ∷ []) = none
drop_first (x ∷ y ∷ r) =
    if x.replaceable
    then some (x, y ∷ r)
    else elim (drop_first (y ∷ r)) [ none ↦ none | some (d, rest) ↦ some (d, x ∷ rest) ]

abbrev pub over : Limits → List QueuedEvent → ℕ → Bool
over limits events bytes =
    ltb limits.outbound_high_water bytes || ltb limits.max_queued_frames (length events)

-- `trimReplaceableEvents`: each round takes one event away, so the queue's length is fuel enough.
unfoldable pub trim : ℕ → Limits → List QueuedEvent → ℕ → List QueuedEvent × ℕ
trim zero limits events bytes = (events, bytes)
trim (suc fuel) limits events bytes = elim (over limits events bytes) [
  | false ↦ (events, bytes)
  | true ↦ elim (drop_first events) [
    | none ↦ (events, bytes)
    | some (d, rest) ↦ trim fuel limits rest (bytes - d.bytes)
  ]
]

-- `state.events.find(…)`, and the event with its new content
unfoldable pub replace :
    SerializedEvent → List QueuedEvent → Option (QueuedEvent × List QueuedEvent)
replace s [] = none
replace s (x ∷ r) =
    if x.replaceable && x.channel == s.channel
    then some (
      x,
      record x { text = s.text; bytes = s.bytes; authorized = false; version = x.version + 1 } ∷ r,
    )
    else elim (replace s r) [ none ↦ none | some (old, rest) ↦ some (old, x ∷ rest) ]

unfoldable pub append_event : SerializedEvent → ClientState → ClientState
append_event s c = record c {
  events =
      c.events
      ++ record {
        uid = c.next_uid;
        channel = s.channel;
        text = s.text;
        bytes = s.bytes;
        replaceable = s.replaceable;
        authorized = false;
        version = 1;
      }
        ∷ [];
  event_bytes = c.event_bytes + s.bytes;
  next_uid = suc c.next_uid;
}

unfoldable pub put_event : SerializedEvent → ClientState → ClientState
unfolding append_event
put_event s c =
    if s.replaceable
    then elim (replace s c.events) [
      | none ↦ append_event s c
      | some (old, events) ↦ record c {
        events = events;
        event_bytes = c.event_bytes + s.bytes - old.bytes;
      }
    ]
    else append_event s c

-- The end of `pumpEvents`.
abbrev pub stop_pump : ClientState → ClientState
stop_pump c = record c { event_pumping = false; awaiting = none }

-- Whether the loop of `pumpEvents` goes on.
pub data Round : Type 0 where
  again finished : ClientState → Round

-- The head of the queue, once authorized: it is sent, unless the socket is too full.
unfoldable pub send_head : Limits → Wire → QueuedEvent → List QueuedEvent → ClientState → Round
unfolding send_text close_state
send_head limits wire e rest c =
    let filled = wire.buffered (length c.sent) + e.bytes in
    let shifted = record c { events = rest; event_bytes = c.event_bytes - e.bytes } in
    if e.replaceable && ltb limits.outbound_high_water filled
    then finished (record c { event_pumping = false; awaiting = none; event_timer = true })
    else if ltb limits.outbound_hard_limit filled
    then finished (stop_pump (close_state c slow_client))
    else let (d, sent) = send_text limits wire shifted (pushed e) e.bytes in
      if sent then again d else finished (stop_pump d)

-- `pumpEvents` from the test of the loop up to its next wait. The head of the queue is sent
-- without a wait only if it is authorized already. Each round without a wait sends one event.
unfoldable pub pump_loop : ℕ → Limits → Wire → Bool → ClientState → ClientState
unfolding send_head
pump_loop zero limits wire accepting c = stop_pump c
pump_loop (suc fuel) limits wire accepting c = elim c.events [
  | [] ↦ stop_pump c
  | e ∷ rest ↦ elim (c.closed || not accepting || c.is_protected) [
    | true ↦ stop_pump c
    | false ↦ elim e.authorized [
      | false ↦ record c { event_pumping = true; awaiting = some (e.uid, e.version) }
      | true ↦ elim (send_head limits wire e rest c) [
        | again d ↦ pump_loop fuel limits wire accepting d
        | finished d ↦ d
      ]
    ]
  ]
]

abbrev pub run_loop : Limits → Wire → Bool → ClientState → ClientState
run_loop limits wire accepting c = pump_loop (suc (length c.events)) limits wire accepting c

-- `pumpEvents`, up to its first wait
unfoldable pub pump_events : Limits → Wire → Bool → ClientState → ClientState
unfolding pump_loop
pump_events limits wire accepting c =
    if c.event_pumping || c.closed || not accepting
    then c
    else run_loop limits wire accepting (record c { event_pumping = true })

unfoldable pub answered :
    Limits → Wire → Bool → Bool → QueuedEvent → List QueuedEvent → ClientState → ClientState
unfolding pump_loop send_head close_state
answered limits wire accepting false e rest c = stop_pump (close_state c unauthorized)
answered limits wire accepting true e rest c =
    let granted = record e { authorized = true } in
    elim (send_head limits wire granted rest (record c { events = granted ∷ rest })) [
      | again d ↦ run_loop limits wire accepting d
      | finished d ↦ d
    ]

-- `pumpEvents` after `isAuthorized` has answered, for the event and the version that it was asked
-- for: if either is another by now, the loop starts again.
unfoldable pub resume_pump : Limits → Wire → Bool → Bool → ClientState → ClientState
unfolding answered pump_loop
resume_pump limits wire accepting answer c = elim c.awaiting [
  | none ↦ c
  | some (uid, version) ↦ elim c.events [
    | [] ↦ run_loop limits wire accepting c
    | e ∷ rest ↦ elim (eqb e.uid uid && eqb e.version version) [
      | true ↦ answered limits wire accepting answer e rest c
      | false ↦ run_loop limits wire accepting c
    ]
  ]
]

-- The timer of `scheduleEventPump`.
unfoldable pub timer_fires : Limits → Wire → Bool → ClientState → ClientState
unfolding pump_events
timer_fires limits wire accepting c = elim c.event_timer [
  | false ↦ c
  | true ↦ pump_events limits wire accepting (record c { event_timer = false })
]

unfoldable pub after_put : Limits → Wire → ClientState → ClientState × Bool
unfolding trim close_state pump_events
after_put limits wire c =
    let t = trim (length c.events) limits c.events c.event_bytes in
    let d = record c { events = t.0; event_bytes = t.1 } in
    if ltb limits.outbound_hard_limit d.event_bytes
      || ltb limits.max_queued_frames (length d.events)
    then (close_state d slow_client, false)
    else (pump_events limits wire true d, true)

-- `queueSerializedEvent`
unfoldable pub queue_event :
    Limits → Wire → Bool → SerializedEvent → ClientState → ClientState × Bool
unfolding after_put put_event close_state
queue_event limits wire accepting s c =
    if not accepting || c.closed || not c.is_open || c.is_protected
    then (c, false)
    else if ltb limits.outbound_hard_limit s.bytes
    then (close_state c slow_client, false)
    else after_put limits wire (put_event s c)

-- What `stopAccepting` does to each browser.
unfoldable pub forget_events : ClientState → ClientState
forget_events c = record c { events = []; event_bytes = 0; event_timer = false }
