-- ===== src/Tests/Services.antt =====
-- The theorems on checks, host keys and accounts at concrete inputs.
use bored_manager.Base.{
  ℕ, ◌+◌, ◌<◌, ◌≡◌, ◌≢◌, ◌⊎◌, refl, String, none, some, true, false, List, [], ◌∷◌, ◌==◌,
  string_key, js_length, if◌then◌else◌, Bool-cases, inl, inr,
}
use bored_manager.Base.Dict
use bored_manager.Base.Dict.{Dict}
use bored_manager.Auth.{is_username}
use bored_manager.Base.Dict.Distinct.{drop_oldest}
use bored_manager.Json.{Json, str}
use bored_manager.Check
use bored_manager.Check.{CheckSession, Issued, issue, token_ttl_ms, max_outstanding, create_session}
use bored_manager.Check.Spent.{Asked, issued, stands_for, take_only_issued}
use bored_manager.KnownHosts.{check_host_key, Challenge, Confirmation, fingerprint_value, host_id}
use bored_manager.KnownHosts.History.{Peer, keeper, offered, thrown_at}
use bored_manager.KnownHosts.Accepted.{accepted_only_confirmed}
use bored_manager.Users.{
  StoredUser, find_user, set_password, verify_for_session, password_matches, session_is_current,
}
use bored_manager.Users.Sessions.{
  HasUniqueNames, creates, deletes, edited, edited-HasUniqueNames, set_password-sessions,
  verify_for_session_sound,
}

-- check.ts
abbrev digits : ℕ → String
digits n = "1"

abbrev text_of : Json → String
text_of (str s) = s
text_of _ = ""

abbrev asked : List (Asked ℕ)
asked = issued 100 "r" (str "form") 9 ∷ []

take_only_issued_example :
    (e : Issued ℕ) × (stands_for digits text_of "chk_1_1_r" asked ≡ some e)
    × (e.values ≡ "form")
    × (500 < e.expires_at)
    × (e.payload ≡ 9)
unfolding Check.take issue Dict.get Dict.insert drop_oldest create_session
take_only_issued_example = take_only_issued digits text_of asked 500 "chk_1_1_r" (str "form") 9 refl

-- known-hosts.ts
abbrev same : String → String
same s = s

abbrev port_text : ℕ → String
port_text n = "22"

abbrev key : String
key = "0123456789abcdef0123456789abcdef0123456789abcdef0123456789abcdef"

abbrev peer : Peer same same port_text
peer = record {
  host = "nas";
  port = 22;
  fingerprint = key;
  confirmation = none;
  token = "t";
  now = 10;
}

abbrev confirmed : Peer same same port_text
confirmed = record peer {
  confirmation = some (record { token = "t"; fingerprint = key });
  token = "u";
  now = 20;
}

accepted_only_confirmed_example :
    let k = keeper same same port_text [] (peer ∷ []) in
    (Dict.get "nas:22" k.hosts ≡ some key)
    ⊎ ((c : Confirmation) × (ch : Challenge) × (confirmed.confirmation ≡ some c)
        × (offered same same port_text [] (peer ∷ []) c.token ≡ some ch)
        × (ch.host_id ≡ "nas:22")
        × (ch.fingerprint ≡ key)
        × (20 < thrown_at same same port_text [] (peer ∷ []) c.token + 60000))
unfolding fingerprint_value host_id check_host_key Dict.get Dict.insert drop_oldest
accepted_only_confirmed_example =
    accepted_only_confirmed same same port_text [] (peer ∷ []) confirmed "nas:22" key refl refl refl

-- users.ts
abbrev hash : String → String → String
hash password salt = if password == "right" then "aa" else "bb"

abbrev user : StoredUser
user = record {
  username = "alice";
  password_hash = "aa";
  salt = "s";
  created_at = 1;
  last_login_at = none;
  session_version = 4;
}

abbrev users : List StoredUser
users = user ∷ []

abbrev dummy : String
dummy = "cc"

edited-HasUniqueNames_example :
    HasUniqueNames (edited hash (creates "bob" "secret" "t" 5 ∷ deletes "alice" ∷ []) users)
edited-HasUniqueNames_example =
    edited-HasUniqueNames hash (creates "bob" "secret" "t" 5 ∷ deletes "alice" ∷ []) users
      (refl, tt)

set_password-sessions_example :
    let after = (set_password hash "alice" "other" "n" users).0 in
    ((version : ℕ) → version ≢ 5 → session_is_current "alice" version after ≡ false)
    × (session_is_current "alice" 5 after ≡ true)
    × ((other : String) (version : ℕ)
        → "alice" ≢ other
        → session_is_current other version after ≡ session_is_current other version users)
unfolding set_password is_username
set_password-sessions_example = set_password-sessions hash "alice" "other" "n" users user refl refl

dummy_is_no_hash : (p : String) → (dummy == hash p "s") ≡ false
dummy_is_no_hash p = elim (Bool-cases (p == "right")) [ inl e ↦ rw e refl | inr e ↦ rw e refl ]

verify_for_session_sound_example :
    (u : StoredUser) × (c : StoredUser) × (find_user "alice" users ≡ some u)
    × (find_user "alice" users ≡ some c)
    × (0 < js_length c.password_hash)
    × ((c.password_hash == hash "right" c.salt) ≡ true)
    × (c.session_version ≡ u.session_version)
    × (c.session_version ≡ 4)
unfolding verify_for_session is_username password_matches
verify_for_session_sound_example =
    verify_for_session_sound hash (λ x y. x == y) "s" dummy "alice" "right" users users 4
      dummy_is_no_hash refl
