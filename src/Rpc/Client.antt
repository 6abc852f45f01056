-- ===== src/Rpc/Client.antt =====
-- server/rpc.ts: what `RpcRouter` keeps for one connected browser (`ClientState`), its limits, and
-- the operations that all of its handlers share. The socket is represented by what was handed to
-- it (`sent`), by the code that it was closed with, and by `is_open` (`readyState === OPEN`).
pub mod Input
pub mod Events
pub mod Dispatch
pub mod Run
pub mod Preserved
pub mod Bounds
pub mod Silence
use bored_manager.Base.{
  ℕ, ◌+◌, ◌*◌, ◌-◌, ◌≤◌, ◌<◌, String, Option, none, some, Bool, true, false, List, [], ◌∷◌, ◌++◌,
  ltb, leb, if◌then◌else◌, not, ◌||◌, ◌&&◌, length,
}
use bored_manager.Json.{Json}
use bored_manager.Rpc.Frame.{ClientFrame, ServerFrame}

-- `RpcRouterLimits`; the retry delay only sets a timer.
pub record Limits : Type 0 where
  pub max_payload : ℕ
  pub rate_per_second : ℕ
  pub rate_burst : ℕ
  pub max_queued_frames : ℕ
  pub max_queued_bytes : ℕ
  pub outbound_high_water : ℕ
  pub outbound_hard_limit : ℕ

abbrev pub rpc_limits : Limits
rpc_limits = record {
  max_payload = 2097152;
  rate_per_second = 30;
  rate_burst = 60;
  max_queued_frames = 64;
  max_queued_bytes = 8388608;
  outbound_high_water = 2097152;
  outbound_hard_limit = 8388608;
}

-- `WS_CLOSE_CODES`, and the codes that the protocol of the socket defines
abbrev pub invalid_data : ℕ
invalid_data = 4400

abbrev pub unauthorized : ℕ
unauthorized = 4401

abbrev pub queue_limit : ℕ
queue_limit = 4409

abbrev pub slow_client : ℕ
slow_client = 4410

abbrev pub rate_limit : ℕ
rate_limit = 4429

pub record QueuedInput : Type 0 where
  pub raw : String
  pub bytes : ℕ

-- `uid` stands for the identity of the event object.
pub record QueuedEvent : Type 0 where
  pub uid : ℕ
  pub channel : String
  pub text : String
  pub bytes : ℕ
  pub replaceable : Bool
  pub authorized : Bool
  pub version : ℕ

-- What was handed to `socket.send`.
pub data Outgoing : Type 0 where
  pushed : QueuedEvent → Outgoing
  replied : ServerFrame → Outgoing

-- How far `dispatch` has come with the frame that `pumpInput` took off the queue.
pub data Progress : Type 0 where
  idle : Progress
  taken : String → Progress
  authorizing : Json → Progress
  handling : ClientFrame → Progress

-- `tokens` counts thousandths of a token, so that the refill is exact. `awaiting` is the event and
-- the version for which `pumpEvents` awaits the answer of `isAuthorized`; `dispatching` is the
-- frame in progress. `is_protected` is membership in
-- `protectedReplies`, and `deferred` the entry of `deferredCloses`.
pub record ClientState : Type 0 where
  pub queue : List QueuedInput
  pub queued_bytes : ℕ
  pub processing : Bool
  pub dispatching : Progress
  pub tokens : ℕ
  pub last_refill : ℕ
  pub closed : Bool
  pub events : List QueuedEvent
  pub event_bytes : ℕ
  pub event_pumping : Bool
  pub awaiting : Option (ℕ × ℕ)
  pub event_timer : Bool
  pub is_protected : Bool
  pub deferred : Option ℕ
  pub next_uid : ℕ
  pub is_open : Bool
  pub close_code : Option ℕ
  pub sent : List Outgoing

-- `attach`: a full bucket and empty queues
unfoldable pub attach : Limits → ℕ → ClientState
attach limits now = record {
  queue = [];
  queued_bytes = 0;
  processing = false;
  dispatching = idle;
  tokens = limits.rate_burst * 1000;
  last_refill = now;
  closed = false;
  events = [];
  event_bytes = 0;
  event_pumping = false;
  awaiting = none;
  event_timer = false;
  is_protected = false;
  deferred = none;
  next_uid = 0;
  is_open = true;
  close_code = none;
  sent = [];
}

-- `closeState`
unfoldable pub close_state : ClientState → ℕ → ClientState
close_state c code = if c.closed then c else record c {
  closed = true;
  queue = [];
  queued_bytes = 0;
  events = [];
  event_bytes = 0;
  event_timer = false;
  is_open = false;
  close_code = some code;
}

-- What the socket answers during one uninterrupted run of the code: its `bufferedAmount`, by how
-- many messages were handed to it, and whether `send` throws.
pub record Wire : Type 0 where
  pub buffered : ℕ → ℕ
  pub send_throws : Bool

-- `sendText`: the state after it, and its result
unfoldable pub send_text : Limits → Wire → ClientState → Outgoing → ℕ → ClientState × Bool
unfolding close_state
send_text limits wire c message bytes =
    if c.closed || not c.is_open
    then (c, false)
    else if ltb limits.outbound_hard_limit (wire.buffered (length c.sent) + bytes)
    then (close_state c slow_client, false)
    else if wire.send_throws
    then (c, false)
    else (record c { sent = message ∷ c.sent }, true)

-- The `close` event of the socket.
unfoldable pub socket_closed : ClientState → ClientState
socket_closed c = record c {
  closed = true;
  queue = [];
  queued_bytes = 0;
  events = [];
  event_bytes = 0;
  event_timer = false;
  deferred = none;
  is_protected = false;
  is_open = false;
}
