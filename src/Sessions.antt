-- ===== src/Sessions.antt =====
-- server/sessions.ts: the revocation of login sessions. What the session store answers, and the
-- folder's names, are arguments; of a session's data only the account is read. The loop of
-- revokeUsername runs without other revocations in between.
pub mod Revoked
use bored_manager.Base.{
  ℕ, suc, String, Option, none, some, Bool, true, false, List, [], ◌∷◌, ◌++◌, ◌==◌, string_key, ltb,
  ◌||◌, any, length, if◌then◌else◌,
}

abbrev pub max_revoked_ids : ℕ
max_revoked_ids = 10000

pub record SessionData : Type 0 where
  pub username : Option String

-- `Set.add`: a present element keeps its place.
abbrev pub add : String → List String → List String
add sid ids = if any (λ i. i == sid) ids then ids else ids ++ (sid ∷ [])

-- The loop that forgets the oldest.
unfoldable pub trim : List String → List String
trim [] = []
trim (i ∷ ids) =
    let rest = trim ids in if ltb max_revoked_ids (length (i ∷ ids)) then rest else i ∷ ids

unfoldable pub remember_revoked : String → List String → List String
unfolding trim
remember_revoked sid revoked = trim (add sid revoked)

-- `get` and `touch` are refused before the store is asked.
abbrev pub is_refused : String → List String → Bool
is_refused sid revoked = sid == "" || any (λ i. i == sid) revoked

-- What the store answers to `get`: `none` is an error.
abbrev pub Read : Type 0
Read = Option (Option SessionData)

unfoldable pub get : String → Read → List String → Read
get sid answer revoked = if is_refused sid revoked then some none else answer

-- `none` stands for a store that has no `touch`; otherwise whether it succeeds.
abbrev pub touch : String → Option Bool → List String → Bool
touch sid none revoked = false
touch sid (some succeeds) revoked = if is_refused sid revoked then false else succeeds

-- The revoked ids afterwards, the ids that the store was told to destroy, and those for which it
-- failed.
pub record Revocation : Type 0 where
  pub revoked : List String
  pub destroyed : List String
  pub failures : List String

-- The id is remembered, then destroyed.
abbrev pub revoke_one : String → Bool → List String → Revocation
unfolding remember_revoked
revoke_one sid succeeds revoked = record {
  revoked = remember_revoked sid revoked;
  destroyed = sid ∷ [];
  failures = if succeeds then [] else sid ∷ [];
}

abbrev pub untouched : List String → Revocation
untouched revoked = record { revoked = revoked; destroyed = []; failures = [] }

unfoldable pub revoke_session : String → Bool → List String → Revocation
revoke_session sid succeeds revoked =
    if sid == "" then untouched revoked else revoke_one sid succeeds revoked

-- An id of `entries()`, what came with it, what the store answers when it is read, and whether its
-- destruction succeeds.
pub record Entry : Type 0 where
  pub sid : String
  pub existing : Option SessionData
  pub read : Read
  pub destroys : Bool

abbrev is_text : String → Option String → Bool
is_text s none = false
is_text s (some t) = t == s

abbrev has_username : String → Option SessionData → Bool
has_username username none = false
has_username username (some d) = is_text username d.username

-- The session is of the account, or cannot be read.
abbrev pub must_go : String → Entry → Bool
must_go username e = elim e.existing [
  | some d ↦ has_username username (some d)
  | none ↦ elim e.read [ none ↦ true | some data_ ↦ has_username username data_ ]
]

-- The loop of `revokeUsername`; its error reports the failures.
unfoldable pub revoke_username : String → List Entry → List String → Revocation
unfolding remember_revoked
revoke_username username [] revoked = untouched revoked
revoke_username username (e ∷ entries) revoked =
    let first =
      if must_go username e then revoke_one e.sid e.destroys revoked else untouched revoked in
    let rest = revoke_username username entries first.revoked in
    record {
      revoked = rest.revoked;
      destroyed = first.destroyed ++ rest.destroyed;
      failures = first.failures ++ rest.failures;
    }

-- `name.endsWith('.json') && name.length > '.json'.length`, then `name.slice(0, -'.json'.length)`
abbrev pub session_id : String → Option String
session_id String.[] = none
session_id (String.◌∷◌ c s) =
    let longer = session_id s in
    if s == ".json"
    then some (String.◌∷◌ c String.[])
    else elim longer [ none ↦ none | some id ↦ some (String.◌∷◌ c id) ]

-- `entries()` of a folder.
abbrev pub listed : List String → List String
listed [] = []
listed (name ∷ names) =
    let rest = listed names in elim (session_id name) [ none ↦ rest | some id ↦ id ∷ rest ]
