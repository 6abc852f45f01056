-- ===== src/KnownHosts.antt =====
-- server/services/known-hosts.ts: the SSH host keys that a user accepted, and the challenges that
-- wait for a confirmation. `trim` and `toLowerCase` are JavaScript's, and the decimal text of a port
-- too: the section's parameters. A token is an argument; the source draws one that is not pending.
pub mod Accepted
pub mod Expiry
pub mod History
use bored_manager.Base.{
  ℕ, ◌+◌, String, Option, none, some, Bool, true, false, List, [], ◌∷◌, ◌==◌, string_key, not, ◌||◌,
  ◌&&◌, leb, ltb, every, length, js_length, codes, is_hex, keep, if◌then◌else◌, is_some,
}
use bored_manager.Base.Dict
use bored_manager.Base.Dict.{Dict}
use bored_manager.Base.Dict.Distinct.{drop_oldest}
use bored_manager.Json.{max_safe_integer}
use Prim.Native.String.{◌++◌}

pub data Kind : Type 0 where
  unknown changed : Kind

pub record Challenge : Type 0 where
  pub kind : Kind
  pub fingerprint : String
  pub host : String
  pub port : ℕ
  pub token : String
  pub expires_at : ℕ
  pub host_id : String

pub record Confirmation : Type 0 where
  pub token : String
  pub fingerprint : String

pub record Keeper : Type 0 where
  pub hosts : Dict String String
  pub pending : Dict String Challenge

abbrev pub challenge_ttl_ms : ℕ
challenge_ttl_ms = 60000

abbrev pub max_pending_challenges : ℕ
max_pending_challenges = 256

-- `/^[0-9a-f]{64}$/i`
unfoldable pub is_fingerprint : String → Bool
is_fingerprint s = every is_hex (codes s) && leb 64 (length (codes s)) && leb (length (codes s)) 64

-- `pruneChallenges`
unfoldable pub prune_challenges : ℕ → Dict String Challenge → Dict String Challenge
prune_challenges now pending =
    drop_oldest max_pending_challenges (keep (λ e. ltb now e.1.expires_at) pending)

-- What `checkHostKey` throws, or that it returns.
pub data Verdict : Type 0 where
  accepted : Verdict
  invalid_fingerprint invalid_host : Verdict
  challenged : Challenge → Verdict

-- `confirmationMatches`' answer; a bad fingerprint in the confirmation throws.
pub data Match : Type 0 where
  matches refused throws : Match

module _ (trim lower : String → String) (print_port : ℕ → String) where
  -- `hostId`
  unfoldable pub host_id : String → ℕ → Option String
  host_id host port =
      let name = lower (trim host) in
      if not (ltb 0 (js_length name))
        || ltb 506 (js_length name)
        || not (leb port max_safe_integer)
        || ltb port 1
        || ltb 65535 port
      then none
      else some (name ++ ":" ++ print_port port)

  -- `fingerprintValue`
  unfoldable pub fingerprint_value : String → Option String
  unfolding is_fingerprint
  fingerprint_value fingerprint =
      if is_fingerprint fingerprint then some (lower fingerprint) else none

  -- `rememberHostKey`, of an id and a fingerprint that are valid
  abbrev pub remember_host_key : String → String → Keeper → Keeper
  remember_host_key id fingerprint k = record k { hosts = Dict.insert id fingerprint k.hosts }

  -- `issueChallenge`
  unfoldable pub issue_challenge :
      Kind → String → ℕ → String → String → String → ℕ → Keeper → Keeper × Challenge
  unfolding prune_challenges
  issue_challenge kind host port id fingerprint token now k =
      let challenge : Challenge = record {
        kind = kind;
        fingerprint = fingerprint;
        host = trim host;
        port = port;
        token = token;
        expires_at = now + challenge_ttl_ms;
        host_id = id;
      } in
      (
        record k { pending = Dict.insert token challenge (prune_challenges now k.pending) },
        challenge,
      )

  -- `confirmationMatches`: the pending challenges afterwards, and the answer
  unfoldable pub confirmation_matches :
      String
      → String
      → Option Confirmation
      → ℕ
      → Dict String Challenge
      → Dict String Challenge × Match
  unfolding fingerprint_value
  confirmation_matches id fingerprint none now pending = (pending, refused)
  confirmation_matches id fingerprint (some c) now pending = elim (Dict.get c.token pending) [
    | none ↦ (pending, refused)
    | some challenge ↦ (
      Dict.erase c.token pending,
      if leb challenge.expires_at now
            || not (challenge.host_id == id)
            || not (challenge.fingerprint == fingerprint)
          then refused
          else elim (fingerprint_value c.fingerprint) [
            | none ↦ throws
            | some confirmed ↦
                if not (confirmed == fingerprint) || not (challenge.token == c.token)
                then refused
                else matches
          ],
    )
  ]

  abbrev pub forget : Option Confirmation → Dict String Challenge → Dict String Challenge
  forget none pending = pending
  forget (some c) pending = Dict.erase c.token pending

  abbrev pub same_key : Option String → String → Bool
  same_key none fingerprint = false
  same_key (some stored) fingerprint = stored == fingerprint

  -- The end of `checkHostKey`, once the confirmation is spent.
  unfoldable pub answer_match :
      Match → Kind → String → ℕ → String → String → String → ℕ → Keeper → Keeper × Verdict
  unfolding issue_challenge
  answer_match matches kind host port id fingerprint token now k =
      (remember_host_key id fingerprint k, accepted)
  answer_match refused kind host port id fingerprint token now k =
      let issued = issue_challenge kind host port id fingerprint token now k in
      (issued.0, challenged issued.1)
  answer_match throws kind host port id fingerprint token now k = (k, invalid_fingerprint)

  -- `checkHostKey`, of a host and a fingerprint that are valid
  unfoldable pub check_valid :
      String → ℕ → String → String → Option Confirmation → String → ℕ → Keeper → Keeper × Verdict
  unfolding confirmation_matches answer_match
  check_valid host port id fingerprint confirmation token now k =
      let stored = Dict.get id k.hosts in
      let m = confirmation_matches id fingerprint confirmation now k.pending in
      if same_key stored fingerprint
      then (record k { pending = forget confirmation k.pending }, accepted)
      else answer_match m.1 (if is_some stored then changed else unknown) host port id fingerprint
          token now (record k { pending = m.0 })

  -- `checkHostKey`
  unfoldable pub check_host_key :
      String → ℕ → String → Option Confirmation → String → ℕ → Keeper → Keeper × Verdict
  unfolding host_id fingerprint_value check_valid
  check_host_key host port fingerprint confirmation token now k =
      elim (fingerprint_value fingerprint) [
        | none ↦ (k, invalid_fingerprint)
        | some normalized ↦ elim (host_id host port) [
          | none ↦ (k, invalid_host)
          | some id ↦ check_valid host port id normalized confirmation token now k
        ]
      ]
