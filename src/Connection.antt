-- ===== src/Connection.antt =====
-- server/connection.ts: the manager of the one connection. Its asynchronous work is a sequence of
-- events: an attempt's executor is built, it is probed, its disposal ends, the attempt settles.
-- An executor is known by a number, and `disposed` lists the calls of `dispose`.
pub mod Step
pub mod Requests
pub mod Ownership
pub mod Final
pub mod Stale
use bored_manager.Base.{
  ℕ, suc, String, Option, none, some, Bool, true, false, List, [], ◌∷◌, ◌==◌, string_key, nat_key,
  ◌+◌, refl, not, ◌&&◌, ◌||◌, ltb, any, every, codes, is_digit, js_length, if◌then◌else◌, or_else,
}

pub data Mode : Type 0 where
  local_mode ssh_mode : Mode

pub data Phase : Type 0 where
  idle connecting connected disconnecting : Phase

pub data SudoState : Type 0 where
  no_sudo root passwordless password_verified : SudoState

pub record ConnectionConfig : Type 0 where
  pub mode : Mode
  pub label : Option String
  pub host : Option String
  pub username : Option String
  pub sudo_password : Option String

pub record CommittedConfig : Type 0 where
  pub mode : Mode
  pub label : Option String
  pub host : Option String
  pub username : Option String

pub record Capability : Type 0 where
  pub sudo_state : SudoState
  pub sudo_password_rejected : Bool
  pub warning : Option String

pub record Status : Type 0 where
  pub mode : Mode
  pub label : Option String
  pub host : Option String
  pub username : Option String
  pub is_root : Bool
  pub has_sudo : Bool

-- Where an attempt's coroutine waits.
pub data Stage : Type 0 where
  building : Stage
  probing : ℕ → Stage
  swapping failing done : Stage

pub record Attempt : Type 0 where
  pub generation : ℕ
  pub cfg : ConnectionConfig
  pub stage : Stage

pub record Manager : Type 0 where
  pub executor : Option ℕ
  pub config : Option CommittedConfig
  pub sudo_password : String
  pub sudo_state : SudoState
  pub phase : Phase
  pub request_generation : ℕ
  pub active_generation : ℕ
  pub attempts : List Attempt
  pub attempt_aborts : List ℕ
  pub aborted : List ℕ
  pub lost_executors : List ℕ
  pub notified : ℕ
  pub disposed : List ℕ

abbrev pub initial : Manager
initial = record {
  executor = none;
  config = none;
  sudo_password = "";
  sudo_state = no_sudo;
  phase = idle;
  request_generation = 0;
  active_generation = 0;
  attempts = [];
  attempt_aborts = [];
  aborted = [];
  lost_executors = [];
  notified = 0;
  disposed = [];
}

-- The first two lines that `id -u && uname -s` wrote, trimmed and in lower case.
pub record Probe : Type 0 where
  pub code : ℕ
  pub uid : String
  pub kernel : String

-- `probeCandidate`, with the exit codes of `sudo -n true` and `sudo -S -k -p '' true`
unfoldable pub probe_candidate : Probe → ℕ → ℕ → ConnectionConfig → Option Capability
probe_candidate probe passwordless_code verified_code cfg =
    if not (probe.code == 0)
    then none
    else if not (ltb 0 (js_length probe.uid) && every is_digit (codes probe.uid))
        || not (probe.kernel == "linux")
    then none
    else if probe.uid == "0"
    then some (record { sudo_state = root; sudo_password_rejected = false; warning = none })
    else if passwordless_code == 0
    then some (record { sudo_state = passwordless; sudo_password_rejected = false; warning = none })
    else if not (ltb 0 (js_length (or_else cfg.sudo_password "")))
    then some (record { sudo_state = no_sudo; sudo_password_rejected = false; warning = none })
    else if verified_code == 0
    then some
        (record { sudo_state = password_verified; sudo_password_rejected = false; warning = none })
    else some (record {
      sudo_state = no_sudo;
      sudo_password_rejected = true;
      warning = some "Connected, but the sudo password was rejected";
    })

abbrev is_root : SudoState → Bool
is_root root = true
is_root _ = false

abbrev has_sudo : SudoState → Bool
has_sudo no_sudo = false
has_sudo _ = true

abbrev shown_host : Mode → Option String → Option String
shown_host local_mode host = some "localhost"
shown_host ssh_mode host = host

-- `status`; `none` is `{ connected: false }`
unfoldable pub status : Manager → Option Status
status m = elim m.executor [
  | none ↦ none
  | some x ↦ elim m.config [
    | none ↦ none
    | some c ↦ some (record {
      mode = c.mode;
      label = c.label;
      host = shown_host c.mode c.host;
      username = c.username;
      is_root = is_root m.sudo_state;
      has_sudo = has_sudo m.sudo_state;
    })
  ]
]

-- `statusFor`
unfoldable pub status_for : ConnectionConfig → SudoState → Status
status_for cfg sudo = record {
  mode = cfg.mode;
  label = cfg.label;
  host = shown_host cfg.mode cfg.host;
  username = cfg.username;
  is_root = is_root sudo;
  has_sudo = has_sudo sudo;
}

-- What `execSudo` runs and what it puts before the command's own input.
pub data SudoCommand : Type 0 where
  not_connected : SudoCommand
  as_root : SudoCommand
  with_password : String → SudoCommand
  without_password : SudoCommand

unfoldable pub exec_sudo : Manager → SudoCommand
exec_sudo m = elim m.executor [
  | none ↦ not_connected
  | some x ↦ elim m.sudo_state [
    | root ↦ as_root
    | password_verified ↦
        if ltb 0 (js_length m.sudo_password)
        then with_password m.sudo_password
        else without_password
    | no_sudo ↦ without_password
    | passwordless ↦ without_password
  ]
]
