-- ===== src/Rpc/Frame.antt =====
-- shared/rpc.ts: the frames of the protocol, and the validators that both ends run on what they
-- receive.
pub mod Codec
use bored_manager.Base.{
  ℕ, String, Option, none, some, ◌==◌, string_key, ltb, leb, if◌then◌else◌, js_length, ◌&&◌, ◌||◌,
}
use bored_manager.Json.{
  Json, num, str, arr, obj, Items, nil, Fields, end, field, nat, get_field, count_items,
  is_safe_integer,
}

pub data ClientFrame : Type 0 where
  invoke : ℕ → String → Items → ClientFrame
  send : String → Items → ClientFrame

-- The payload of a result or an event may be absent.
pub data ServerFrame : Type 0 where
  result : ℕ → Option Json → ServerFrame
  error : ℕ → Option String → String → ServerFrame
  event : String → Option Json → ServerFrame

pub data Problem : Type 0 where
  expected_object bad_client_kind bad_invoke_id empty_channel long_channel : Problem
  args_not_array too_many_args : Problem
  bad_server_kind bad_result_id bad_error_id bad_message bad_code : Problem

pub data Parsed (A : Type 0) : Type 0 where
  ok : A → Parsed A
  bad : Problem → Option ℕ → Parsed A

abbrev pub max_channel_length : ℕ
max_channel_length = 512

abbrev pub max_args : ℕ
max_args = 64

abbrev pub max_error_code_length : ℕ
max_error_code_length = 64

-- The text of a refusal.
unfoldable pub problem_text : Problem → String
problem_text expected_object = "invalid RPC frame: expected an object"
problem_text bad_client_kind = "invalid RPC frame: \"kind\" must be \"invoke\" or \"send\""
problem_text bad_invoke_id = "invalid RPC frame: invoke \"id\" must be a positive safe integer"
problem_text empty_channel = "invalid RPC frame: \"channel\" must be a non-empty string"
problem_text long_channel = "invalid RPC frame: \"channel\" must be at most 512 characters"
problem_text args_not_array = "invalid RPC frame: \"args\" must be an array"
problem_text too_many_args = "invalid RPC frame: \"args\" must contain at most 64 items"
problem_text bad_server_kind =
    "invalid RPC frame: \"kind\" must be \"result\", \"error\" or \"event\""
problem_text bad_result_id = "invalid RPC frame: result \"id\" must be a positive safe integer"
problem_text bad_error_id = "invalid RPC frame: error \"id\" must be a positive safe integer"
problem_text bad_message = "invalid RPC frame: error \"message\" must be a non-empty string"
problem_text bad_code = "invalid RPC frame: error \"code\" must be a short string"

-- `validId(value['id']) ? value['id'] : undefined`
unfoldable pub valid_id : Option Json → Option ℕ
valid_id (some (num (nat n))) = if is_safe_integer (nat n) && ltb 0 n then some n else none
valid_id _ = none

pub data Kind : Type 0 where
  invoke_kind send_kind : Kind

abbrev client_kind : Option Json → Option Kind
client_kind (some (str s)) =
    if s == "invoke" then some invoke_kind else if s == "send" then some send_kind else none
client_kind _ = none

-- `channelProblem`: the channel, or what is wrong with it
pub data Checked (A : Type 0) : Type 0 where
  good : A → Checked A
  wrong : Problem → Checked A

unfoldable pub channel_problem : Option Json → Checked String
channel_problem (some (str s)) =
    if leb (js_length s) 0
    then wrong empty_channel
    else if ltb max_channel_length (js_length s)
    then wrong long_channel
    else good s
channel_problem _ = wrong empty_channel

-- `argsProblem` and the default `[]`
unfoldable pub args_problem : Option Json → Checked Items
args_problem none = good nil
args_problem (some (arr xs)) =
    if leb (count_items xs) max_args then good xs else wrong too_many_args
args_problem _ = wrong args_not_array

build_client : Kind → Option ℕ → String → Items → Parsed ClientFrame
build_client invoke_kind (some i) channel args = ok (invoke i channel args)
build_client invoke_kind none channel args = bad bad_invoke_id none
build_client send_kind id channel args = ok (send channel args)

check_args : Kind → Option ℕ → String → Checked Items → Parsed ClientFrame
unfolding build_client
check_args kind id channel (wrong p) = bad p id
check_args kind id channel (good args) = build_client kind id channel args

check_channel : Kind → Option ℕ → Checked String → Checked Items → Parsed ClientFrame
unfolding check_args
check_channel kind id (wrong p) args = bad p id
check_channel kind id (good channel) args = check_args kind id channel args

check_kind : Option Kind → Option ℕ → Checked String → Checked Items → Parsed ClientFrame
unfolding check_channel
check_kind none id channel args = bad bad_client_kind id
check_kind (some invoke_kind) none channel args = bad bad_invoke_id none
check_kind (some invoke_kind) (some i) channel args =
    check_channel invoke_kind (some i) channel args
check_kind (some send_kind) id channel args = check_channel send_kind id channel args

unfoldable pub parse_rpc_client_frame : Json → Parsed ClientFrame
unfolding check_kind
parse_rpc_client_frame (obj fs) =
    check_kind (client_kind (get_field "kind" fs)) (valid_id (get_field "id" fs))
      (channel_problem (get_field "channel" fs)) (args_problem (get_field "args" fs))
parse_rpc_client_frame _ = bad expected_object none

-- What the browser writes: `invoke` and `send` of src/lib/ws-client.ts.
unfoldable pub write_client : ClientFrame → Json
write_client (invoke i channel args) = obj (
    field "kind" (str "invoke")
      (field "id" (num (nat i)) (field "channel" (str channel) (field "args" (arr args) end))))
write_client (send channel args) =
    obj (field "kind" (str "send") (field "channel" (str channel) (field "args" (arr args) end)))

pub data ServerKind : Type 0 where
  result_kind error_kind event_kind : ServerKind

abbrev server_kind : Option Json → Option ServerKind
server_kind (some (str s)) =
    if s == "result"
    then some result_kind
    else if s == "error"
    then some error_kind
    else if s == "event"
    then some event_kind
    else none
server_kind _ = none

-- `error "message" must be a non-empty string`
check_message : Option Json → Checked String
check_message (some (str s)) = if leb (js_length s) 0 then wrong bad_message else good s
check_message _ = wrong bad_message

check_code : Option Json → Checked (Option String)
check_code none = good none
check_code (some (str s)) =
    if leb (js_length s) 0 || ltb max_error_code_length (js_length s)
    then wrong bad_code
    else good (some s)
check_code _ = wrong bad_code

build_error : ℕ → Checked String → Checked (Option String) → Parsed ServerFrame
build_error i (wrong p) code = bad p none
build_error i (good message) (wrong p) = bad p none
build_error i (good message) (good code) = ok (error i code message)

build_event : Checked String → Option Json → Parsed ServerFrame
build_event (wrong p) payload = bad p none
build_event (good channel) payload = ok (event channel payload)

dispatch_kind : Option ServerKind → Fields → Parsed ServerFrame
unfolding build_error build_event check_message check_code
dispatch_kind (some result_kind) fs = elim (valid_id (get_field "id" fs)) [
  | none ↦ bad bad_result_id none
  | some i ↦ ok (result i (get_field "value" fs))
]
dispatch_kind (some error_kind) fs = elim (valid_id (get_field "id" fs)) [
  | none ↦ bad bad_error_id none
  | some i ↦
      build_error i (check_message (get_field "message" fs)) (check_code (get_field "code" fs))
]
dispatch_kind (some event_kind) fs =
    build_event (channel_problem (get_field "channel" fs)) (get_field "payload" fs)
dispatch_kind none fs = bad bad_server_kind none

unfoldable pub parse_rpc_server_frame : Json → Parsed ServerFrame
unfolding dispatch_kind
parse_rpc_server_frame (obj fs) = dispatch_kind (server_kind (get_field "kind" fs)) fs
parse_rpc_server_frame _ = bad expected_object none

-- A property of value `undefined` is left out by `JSON.stringify`.
abbrev optional_field : String → Option Json → Fields → Fields
optional_field k none fs = fs
optional_field k (some v) fs = field k v fs

abbrev text_value : Option String → Option Json
text_value none = none
text_value (some s) = some (str s)

-- What the server writes: `writeFrame`, `writeError` and `serializeEvent` of server/rpc.ts.
unfoldable pub write_server : ServerFrame → Json
write_server (result i value) =
    obj (field "kind" (str "result") (field "id" (num (nat i)) (optional_field "value" value end)))
write_server (error i code message) = obj (
    field "kind" (str "error") (
      field "id" (num (nat i))
        (optional_field "code" (text_value code) (field "message" (str message) end))))
write_server (event channel payload) = obj (
    field "kind" (str "event")
      (field "channel" (str channel) (optional_field "payload" payload end)))
