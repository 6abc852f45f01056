-- ===== src/Rpc/Client/Input.antt =====
-- server/rpc.ts: what arrives at the socket (`acceptInput`, `takeRateToken`) and the loop that
-- takes frames off the queue one at a time (`pumpInput`).
pub mod Rate
use bored_manager.Base.{
  ℕ, ◌+◌, ◌*◌, ◌-◌, String, Option, none, some, Bool, true, false, List, [], ◌∷◌, ◌++◌, ltb, leb,
  if◌then◌else◌, not, ◌||◌, ◌&&◌, length, min,
}
use bored_manager.Rpc.Client.{
  Limits, QueuedInput, idle, taken, ClientState, close_state, invalid_data, queue_limit, rate_limit,
}

-- `takeRateToken`. A clock that went back refills nothing: `-` stops at 0, as `Math.max(0, …)`.
unfoldable pub take_rate_token : Limits → ℕ → ClientState → ClientState × Bool
take_rate_token limits now c =
    let tokens =
      min (limits.rate_burst * 1000) (c.tokens + (now - c.last_refill) * limits.rate_per_second) in
    if ltb tokens 1000
    then (record c { last_refill = now; tokens = tokens }, false)
    else (record c { last_refill = now; tokens = tokens - 1000 }, true)

unfoldable pub enqueue : ClientState → QueuedInput → ClientState
enqueue c m = record c { queue = c.queue ++ m ∷ []; queued_bytes = c.queued_bytes + m.bytes }

-- The head of the loop of `pumpInput`: the next frame is under dispatch, or the loop ends.
unfoldable pub next_frame : ClientState → ClientState
next_frame c = elim c.queue [
  | [] ↦ record c { processing = false; dispatching = idle }
  | m ∷ rest ↦ if c.closed then record c { processing = false; dispatching = idle } else record c {
    queue = rest;
    queued_bytes = c.queued_bytes - m.bytes;
    dispatching = taken m.raw;
  }
]

-- `pumpInput`, up to its first wait
unfoldable pub pump_input : ClientState → ClientState
unfolding next_frame
pump_input c = if c.processing || c.closed then c else next_frame (record c { processing = true })

-- `acceptInput` once a token is taken. While the server shuts down, frames behind the one in
-- progress are still queued; any other is answered by `rejectDuringShutdown` (the last part).
unfoldable pub queue_input : Limits → Bool → QueuedInput → ClientState → ClientState × Option String
unfolding enqueue pump_input close_state
queue_input limits true m c =
    if leb limits.max_queued_frames (length c.queue)
      || ltb limits.max_queued_bytes (c.queued_bytes + m.bytes)
    then (close_state c queue_limit, none)
    else (pump_input (enqueue c m), none)
queue_input limits false m c =
    if c.processing
      && ltb (length c.queue) limits.max_queued_frames
      && leb (c.queued_bytes + m.bytes) limits.max_queued_bytes
    then (enqueue c m, none)
    else (c, some m.raw)

unfoldable pub after_token :
    Limits → Bool → QueuedInput → ClientState × Bool → ClientState × Option String
unfolding queue_input close_state
after_token limits accepting m (c, true) = queue_input limits accepting m c
after_token limits accepting m (c, false) = (close_state c rate_limit, none)

-- `acceptInput`; the second part is a frame to be answered by `rejectDuringShutdown`
unfoldable pub accept_input :
    Limits → Bool → ℕ → Bool → QueuedInput → ClientState → ClientState × Option String
unfolding after_token take_rate_token close_state
accept_input limits accepting now is_binary m c =
    if c.closed
    then (c, none)
    else if is_binary
    then (close_state c invalid_data, none)
    else if ltb limits.max_payload m.bytes
    then (close_state c 1009, none)
    else after_token limits accepting m (take_rate_token limits now c)
