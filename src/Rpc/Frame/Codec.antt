-- ===== src/Rpc/Frame/Codec.antt =====
-- The validators of shared/rpc.ts against the writers of both ends, and what a refusal echoes.
use bored_manager.Base.{ℕ, ◌≤◌, ◌<◌, ◌≡◌, refl, String, Option, none, some, js_length, arith, subst}
use bored_manager.Json.{
  Json, null, bool, num, str, arr, obj, Items, Fields, nat, neg, fraction, get_field, count_items,
  max_safe_integer,
}
use bored_manager.Rpc.Frame.{
  ClientFrame, invoke, send, Kind, invoke_kind, send_kind, Checked, good, wrong, check_kind,
  ServerFrame, result, error, event, ok, bad, Problem, valid_id, channel_problem, args_problem,
  parse_rpc_client_frame, parse_rpc_server_frame, write_client, write_server, max_channel_length,
  max_args, max_error_code_length,
}

abbrev pub IsId : ℕ → Type 0
IsId i = (0 < i) × (i ≤ max_safe_integer)

abbrev pub IsChannel : String → Type 0
IsChannel s = (0 < js_length s) × (js_length s ≤ max_channel_length)

abbrev pub IsClientFrame : ClientFrame → Type 0
IsClientFrame (invoke i channel args) = IsId i × IsChannel channel × (count_items args ≤ max_args)
IsClientFrame (send channel args) = IsChannel channel × (count_items args ≤ max_args)

valid_id-nat : (i : ℕ) → IsId i → valid_id (some (num (nat i))) ≡ some i
unfolding valid_id
valid_id-nat i h = ground arith

abbrev pub IsCode : Option String → Type 0
IsCode none = Unit
IsCode (some s) = (0 < js_length s) × (js_length s ≤ max_error_code_length)

abbrev pub IsServerFrame : ServerFrame → Type 0
IsServerFrame (result i value) = IsId i
IsServerFrame (error i code message) = IsId i × IsCode code × (0 < js_length message)
IsServerFrame (event channel payload) = IsChannel channel

-- A frame that is well formed and that the browser writes is read back by the server as it was.
pub parse_client-write :
    (f : ClientFrame) → IsClientFrame f → parse_rpc_client_frame (write_client f) ≡ ok f
unfolding parse_rpc_client_frame write_client valid_id channel_problem args_problem
parse_client-write (invoke i channel args) h = ground arith
parse_client-write (send channel args) h = ground arith

-- A frame that is well formed and that the server writes is read back by the browser as it was.
pub parse_server-write :
    (f : ServerFrame) → IsServerFrame f → parse_rpc_server_frame (write_server f) ≡ ok f
unfolding parse_rpc_server_frame write_server valid_id channel_problem
parse_server-write (result i none) h = ground arith
parse_server-write (result i (some v)) h = ground arith
parse_server-write (error i none message) h = ground arith
parse_server-write (error i (some code) message) h = ground arith
parse_server-write (event channel none) h = ground arith
parse_server-write (event channel (some v)) h = ground arith

valid_id_sound : (v : Option Json) {i : ℕ} → valid_id v ≡ some i → (v ≡ some (num (nat i))) × IsId i
unfolding valid_id
valid_id_sound none h = cc
valid_id_sound (some (num (nat n))) h = ground arith
valid_id_sound (some (num (neg n))) h = cc
valid_id_sound (some (num (fraction n))) h = cc
valid_id_sound (some null) h = cc
valid_id_sound (some (bool b)) h = cc
valid_id_sound (some (str s)) h = cc
valid_id_sound (some (arr xs)) h = cc
valid_id_sound (some (obj fs)) h = cc

channel_problem_sound :
    (v : Option Json) {s : String} → channel_problem v ≡ good s → (v ≡ some (str s)) × IsChannel s
unfolding channel_problem
channel_problem_sound none h = cc
channel_problem_sound (some (str s)) h = ground arith
channel_problem_sound (some (num x)) h = cc
channel_problem_sound (some null) h = cc
channel_problem_sound (some (bool b)) h = cc
channel_problem_sound (some (arr xs)) h = cc
channel_problem_sound (some (obj fs)) h = cc

args_problem_sound :
    (v : Option Json) {xs : Items} → args_problem v ≡ good xs → count_items xs ≤ max_args
unfolding args_problem
args_problem_sound none h = ground arith
args_problem_sound (some (arr xs)) h = ground arith
args_problem_sound (some (str s)) h = cc
args_problem_sound (some (num x)) h = cc
args_problem_sound (some null) h = cc
args_problem_sound (some (bool b)) h = cc
args_problem_sound (some (obj fs)) h = cc

ok-injective : {A : Type 0} {a b : A} → ok a ≡ ok b → a ≡ b
ok-injective h = cc

check_kind_sound :
    (kind : Option Kind) (id : Option ℕ) (c : Checked String) (a : Checked Items) {f : ClientFrame}
    → ((i : ℕ) → id ≡ some i → IsId i)
    → ((s : String) → c ≡ good s → IsChannel s)
    → ((xs : Items) → a ≡ good xs → count_items xs ≤ max_args)
    → check_kind kind id c a ≡ ok f
    → IsClientFrame f
unfolding check_kind
check_kind_sound (some invoke_kind) (some i) (good s) (good xs) hi hc ha h =
    subst IsClientFrame (ok-injective h) (hi i refl, hc s refl, ha xs refl)
check_kind_sound (some send_kind) id (good s) (good xs) hi hc ha h =
    subst IsClientFrame (ok-injective h) (hc s refl, ha xs refl)
check_kind_sound (some invoke_kind) none c a hi hc ha h = cc
check_kind_sound (some invoke_kind) (some i) (wrong p) a hi hc ha h = cc
check_kind_sound (some invoke_kind) (some i) (good s) (wrong p) hi hc ha h = cc
check_kind_sound (some send_kind) id (wrong p) a hi hc ha h = cc
check_kind_sound (some send_kind) id (good s) (wrong p) hi hc ha h = cc
check_kind_sound none id c a hi hc ha h = cc

-- Whatever value arrives, a frame that the server accepts has an id that is a positive safe
-- integer (of an invoke), a channel of 1 to 512 units and at most 64 arguments.
pub parse_client-IsClientFrame :
    (v : Json) {f : ClientFrame} → parse_rpc_client_frame v ≡ ok f → IsClientFrame f
unfolding parse_rpc_client_frame
parse_client-IsClientFrame (obj fs) h =
    check_kind_sound _ (valid_id (get_field "id" fs)) (channel_problem (get_field "channel" fs))
      (args_problem (get_field "args" fs)) (λ i e. (valid_id_sound (get_field "id" fs) e).1)
      (λ s e. (channel_problem_sound (get_field "channel" fs) e).1)
      (λ xs e. args_problem_sound (get_field "args" fs) e) h
parse_client-IsClientFrame null h = cc
parse_client-IsClientFrame (bool b) h = cc
parse_client-IsClientFrame (num x) h = cc
parse_client-IsClientFrame (str s) h = cc
parse_client-IsClientFrame (arr xs) h = cc

check_kind_echo :
    (kind : Option Kind) (id : Option ℕ) (c : Checked String) (a : Checked Items) {p : Problem}
    {i : ℕ}
    → check_kind kind id c a ≡ bad p (some i)
    → id ≡ some i
unfolding check_kind
check_kind_echo (some invoke_kind) (some i) (good s) (good xs) h = cc
check_kind_echo (some invoke_kind) none c a h = cc
check_kind_echo (some invoke_kind) (some i) (wrong p) a h = ground arith
check_kind_echo (some invoke_kind) (some i) (good s) (wrong p) h = ground arith
check_kind_echo (some send_kind) id (wrong p) a h = ground arith
check_kind_echo (some send_kind) id (good s) (wrong p) h = ground arith
check_kind_echo (some send_kind) id (good s) (good xs) h = cc
check_kind_echo none id c a h = ground arith

-- The id that a refusal of a client frame carries, to be echoed in an error response, is the
-- frame's own "id" field, and a positive safe integer.
pub parse_client_echo :
    (fs : Fields) {p : Problem} {i : ℕ}
    → parse_rpc_client_frame (obj fs) ≡ bad p (some i)
    → (get_field "id" fs ≡ some (num (nat i))) × IsId i
unfolding parse_rpc_client_frame
parse_client_echo fs h = valid_id_sound (get_field "id" fs) (check_kind_echo _ _ _ _ h)
