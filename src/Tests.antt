-- ===== src/Tests.antt =====
-- Runs of the definitions at concrete inputs, and the theorems at inputs where their conditions
-- hold.
mod Network
mod Server
mod Services
mod Workers
use bored_manager.Base.{
  ℕ, suc, ◌+◌, ◌*◌, ◌-◌, ◌≤◌, ◌<◌, ◌≡◌, ◌≢◌, ◌↔◌, ◌⊎◌, inl, inr, refl, String, Option, none, some,
  Bool, true, false, List, [], ◌∷◌, ◌++◌, length, arith, is_some, min, All, js_length, string_key,
}
use bored_manager.Base.Dict
use bored_manager.Base.Dict.{Dict}
use bored_manager.Json.{Json, null, str, num, nat, obj, Items, nil, cons, Fields, end, field}
use bored_manager.Rpc.Frame.{
  ClientFrame, invoke, send, ServerFrame, result, error, event, ok, parse_rpc_client_frame,
  parse_rpc_server_frame, write_client, write_server,
}
use bored_manager.Rpc.Frame.Codec
use bored_manager.Rpc.Frame.Codec.{IsClientFrame}
use bored_manager.Rpc.Client.{ClientState, Limits, rpc_limits, QueuedInput, Wire, attach}
use bored_manager.Rpc.Client.Input.Rate.{arrivals, arrivals_limited}
use bored_manager.Rpc.Client.Dispatch.{Registered, returned}
use bored_manager.Rpc.Client.Run
use bored_manager.Rpc.Client.Run.{Op, emits, answers, arrives, begins, authorizes, ends, closes}
use bored_manager.Rpc.Client.Bounds.{IsBounded}
use bored_manager.Rpc.Client.Bounds.Run.{run-attach-IsBounded}
use bored_manager.Rpc.Client.Silence.{IsSilent}
use bored_manager.Rpc.Client.Events.{pump_loop, run_loop}
use bored_manager.Rpc.Client.Events.Fuel.{run_loop_total}
use bored_manager.Rpc.Client.Silence.Run.{run-attach-IsSilent}
use bored_manager.Auth.{
  LockEntry, LockFile, Attempt, attempt_login, attempts, either_locked, entry_locked, locked,
  capped_map,
}
use bored_manager.Auth.Lockout.{IsWellFormed, LocksOut, attempt_login-locked_iff}
use bored_manager.Auth.Guesses.{wrong_guesses, wrong_guesses_limited}
use bored_manager.Auth.Capping.{IsCapped, capped_map-IsCapped}

-- auth.ts
abbrev empty_lock : LockFile
empty_lock = record { users = []; ips = [] }

abbrev guess : String → Attempt
guess ip = record {
  username = "alice";
  password = "guess";
  ip = ip;
  verified = none;
  recorded = false;
  now = 5;
}

abbrev guesses : List Attempt
guesses = guess "10.0.0.1" ∷ guess "10.0.0.2" ∷ guess "10.0.0.3" ∷ []

abbrev shut : LockEntry
shut = record { failures = 2; locked_at = some 3; updated_at = 3 }

abbrev alice_locked : LockFile
alice_locked = record { users = ("alice", shut) ∷ []; ips = [] }

wrong_guesses_limited_example :
    wrong_guesses "alice" guesses (attempts 2 empty_lock guesses).1 + 0 ≤ 2
unfolding Dict.get
wrong_guesses_limited_example =
    wrong_guesses_limited ("alice" ∷ []) ("10.0.0.1" ∷ "10.0.0.2" ∷ "10.0.0.3" ∷ []) 2 empty_lock
      "alice" guesses (omega arith) (omega arith)
      (record { users_distinct = tt; ips_distinct = tt; users_in = tt; ips_in = tt })
      ((refl, refl), ((refl, refl), ((refl, refl), tt))) (omega arith)
      ((λ e. refl), ((λ e. refl), ((λ e. refl), tt))) (omega arith)

attempt_login-locked_iff_example :
    ((attempt_login 2 alice_locked (guess "10.0.0.1")).1 ≡ locked) ↔ (
      IsWellFormed (guess "10.0.0.1")
      × (LocksOut 2 "alice" alice_locked.users ⊎ LocksOut 2 "10.0.0.1" alice_locked.ips))
attempt_login-locked_iff_example = attempt_login-locked_iff 2 alice_locked (guess "10.0.0.1")

capped_map-IsCapped_example :
    (dropped : List (String × LockEntry)) × IsCapped
      (("alice", shut) ∷ [])
      (capped_map (("alice", shut) ∷ []))
      dropped
capped_map-IsCapped_example = capped_map-IsCapped (("alice", shut) ∷ [])

-- rpc.ts
abbrev ping : ClientFrame
ping = invoke 7 "system:ping" (cons (str "x") nil)

parse_client-write_example : parse_rpc_client_frame (write_client ping) ≡ ok ping
parse_client-write_example =
    Codec.parse_client-write ping
      ((omega arith, omega arith), (omega arith, omega arith), omega arith)

parse_server-write_example :
    parse_rpc_server_frame (write_server (error 7 (some "BUSY") "later"))
    ≡ ok (error 7 (some "BUSY") "later")
parse_server-write_example =
    Codec.parse_server-write (error 7 (some "BUSY") "later")
      ((omega arith, omega arith), (omega arith, omega arith), omega arith)

parse_client-IsClientFrame_example : IsClientFrame ping
parse_client-IsClientFrame_example =
    Codec.parse_client-IsClientFrame (write_client ping) parse_client-write_example

arrivals_limited_example :
    (arrivals rpc_limits (500 ∷ 510 ∷ 1500 ∷ []) (attach rpc_limits 0)).1 * 1000
    ≤ rpc_limits.rate_burst * 1000 + (1500 - 500) * rpc_limits.rate_per_second
arrivals_limited_example =
    arrivals_limited rpc_limits (attach rpc_limits 0) 500 (500 ∷ 510 ∷ 1500 ∷ []) 1500
      (omega arith, (omega arith, (omega arith, omega arith)))

abbrev frame_size : ServerFrame → Option ℕ
frame_size f = some 20

abbrev parse_json : String → Option Json
parse_json raw = some (obj (field "kind" (str raw) end))

abbrev all_known : Registered
all_known = record { normal = λ c. true; with_client = λ c. false; sends = λ c. true }

abbrev idle_wire : Wire
idle_wire = record { buffered = λ n. 0; send_throws = false }

abbrev a_call : List Op
a_call =
    arrives idle_wire true 5 false (record { raw = "send"; bytes = 4 })
    ∷ begins
    ∷ authorizes idle_wire true true
    ∷ ends idle_wire true (returned none)
    ∷ closes 1001
    ∷ []

run-attach-IsBounded_example :
    IsBounded rpc_limits
      (Run.run frame_size parse_json rpc_limits all_known a_call (attach rpc_limits 0))
run-attach-IsBounded_example =
    run-attach-IsBounded frame_size parse_json rpc_limits all_known 0 a_call

abbrev a_quiet_life : List Op
a_quiet_life =
    emits idle_wire true
      (record { channel = "metrics"; text = "{}"; bytes = 2; replaceable = true })
    ∷ answers idle_wire true false
    ∷ a_call

run-attach-IsSilent_example :
    IsSilent (Run.run frame_size parse_json rpc_limits all_known a_quiet_life (attach rpc_limits 0))
run-attach-IsSilent_example =
    run-attach-IsSilent frame_size parse_json rpc_limits all_known 0 a_quiet_life
      (refl, (refl, (refl, (refl, (refl, (refl, (refl, tt)))))))

abbrev waiting_client : ClientState
waiting_client = record (attach rpc_limits 0) {
  events =
      record {
        uid = 0;
        channel = "metrics";
        text = "{}";
        bytes = 2;
        replaceable = true;
        authorized = true;
        version = 1;
      }
      ∷ [];
  event_bytes = 2;
  event_pumping = true;
}

run_loop_total_example :
    pump_loop 9 rpc_limits idle_wire true waiting_client
    ≡ run_loop rpc_limits idle_wire true waiting_client
run_loop_total_example = run_loop_total rpc_limits idle_wire true 9 waiting_client (omega arith)
