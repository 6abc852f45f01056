-- ===== src/Users.antt =====
-- server/services/users.ts: the accounts. The file is the list of its users; scrypt, with a salt
-- and a password, and the texts of salts are arguments, and a failed read or write of the file is
-- outside of the model.
pub mod Sessions
use bored_manager.Base.{
  ℕ, suc, ◌+◌, String, Option, none, some, Bool, true, false, List, [], ◌∷◌, ◌++◌, ◌==◌, string_key,
  nat_key, not, ◌||◌, ◌&&◌, leb, ltb, any, keep, find, map, js_length, if◌then◌else◌, is_some,
}
use bored_manager.Json.{max_safe_integer}
use bored_manager.Auth.{is_username}

pub record StoredUser : Type 0 where
  pub username : String
  pub password_hash : String
  pub salt : String
  pub created_at : ℕ
  pub last_login_at : Option ℕ
  pub session_version : ℕ

pub record UserAccount : Type 0 where
  pub username : String
  pub created_at : ℕ
  pub last_login_at : Option ℕ
  pub has_password : Bool

pub data UserProblem : Type 0 where
  bad_username empty_password long_password already_exists does_not_exist : UserProblem
  cannot_delete_default version_exhausted : UserProblem

abbrev pub max_password_length : ℕ
max_password_length = 4096

abbrev pub default_username : String
default_username = "bored-admin"

-- `toAccount`
unfoldable pub to_account : StoredUser → UserAccount
to_account u = record {
  username = u.username;
  created_at = u.created_at;
  last_login_at = u.last_login_at;
  has_password = ltb 0 (js_length u.password_hash);
}

abbrev pub find_user : String → List StoredUser → Option StoredUser
find_user name [] = none
find_user name (u ∷ users) =
    let rest = find_user name users in if u.username == name then some u else rest

-- `userExists`
abbrev pub user_exists : String → List StoredUser → Bool
user_exists name = any (λ u. u.username == name)

-- The first user of a name, changed where it stands.
abbrev pub change_user : String → (StoredUser → StoredUser) → List StoredUser → List StoredUser
change_user name f [] = []
change_user name f (u ∷ users) =
    let rest = change_user name f users in if u.username == name then f u ∷ users else u ∷ rest

-- `listUsers`
unfoldable pub list_users : List StoredUser → List UserAccount
unfolding to_account
list_users = map to_account

-- `hasPassword`
unfoldable pub has_password : String → List StoredUser → Bool
has_password name users = elim (find_user name users) [
  | none ↦ false
  | some u ↦ ltb 0 (js_length u.password_hash)
]

-- `nameProblem`
unfoldable pub name_problem : String → List StoredUser → Option UserProblem
name_problem name users =
    if not (is_username name)
    then some bad_username
    else if user_exists name users
    then some already_exists
    else none

-- `passwordProblem`
unfoldable pub password_problem : String → Option UserProblem
password_problem password =
    if js_length password == 0
    then some empty_password
    else if not (leb (js_length password) max_password_length)
    then some long_password
    else none

-- `ensureDefaultAdmin`, on a file that may be missing; `none` is the thrown error
unfoldable pub ensure_default_admin :
    String → ℕ → Option (List StoredUser) → Option (List StoredUser)
ensure_default_admin salt now none = some (
    record {
      username = default_username;
      password_hash = "";
      salt = salt;
      created_at = now;
      last_login_at = none;
      session_version = 1;
    }
    ∷ [])
ensure_default_admin salt now (some users) =
    if user_exists default_username users then some users else none

-- An operation answers, or throws and leaves the file.
pub data Outcome (A : Type 0) : Type 0 where
  answers : A → Outcome A
  throws : UserProblem → Outcome A

module _ (hash : String → String → String) where
  -- `createUser`
  unfoldable pub create_user :
      String → String → String → ℕ → List StoredUser → List StoredUser × Outcome UserAccount
  unfolding name_problem password_problem to_account
  create_user username password salt now users =
      let user : StoredUser = record {
        username = username;
        password_hash = hash password salt;
        salt = salt;
        created_at = now;
        last_login_at = none;
        session_version = 1;
      } in
      if not (is_username username)
      then (users, throws bad_username)
      else elim (password_problem password) [
        | some p ↦ (users, throws p)
        | none ↦ elim (name_problem username users) [
          | some p ↦ (users, throws p)
          | none ↦ (users ++ user ∷ [], answers (to_account user))
        ]
      ]

  -- `setPassword`
  unfoldable pub set_password :
      String → String → String → List StoredUser → List StoredUser × Outcome Unit
  unfolding password_problem
  set_password username password salt users =
      if not (is_username username)
      then (users, throws bad_username)
      else elim (password_problem password) [
        | some p ↦ (users, throws p)
        | none ↦ elim (find_user username users) [
          | none ↦ (users, throws does_not_exist)
          | some u ↦
              if leb max_safe_integer u.session_version
              then (users, throws version_exhausted)
              else (
                change_user username
                    (λ v. record v {
                      salt = salt;
                      password_hash = hash password salt;
                      session_version = suc v.session_version;
                    })
                    users,
                answers tt,
              )
        ]
      ]

  -- `verifyForSession`: the file as it is read before the password is hashed, and as it is then.
  -- A missing account, or one without a password, is compared with the dummy hash; hashes are
  -- compared as the bytes that they spell.
  module _ (same_bytes : String → String → Bool) (dummy_salt dummy_hash : String) where
    unfoldable pub password_matches : String → StoredUser → Bool
    password_matches password user =
        if ltb 0 (js_length user.password_hash)
        then same_bytes user.password_hash (hash password user.salt)
        else same_bytes dummy_hash (hash password dummy_salt)

    unfoldable pub verify_for_session :
        String → String → List StoredUser → List StoredUser → Option ℕ
    unfolding password_matches
    verify_for_session username password before now =
        if not (is_username username)
          || js_length password == 0
          || not (leb (js_length password) max_password_length)
        then none
        else elim (find_user username before) [
          | none ↦ none
          | some user ↦ elim (find_user username now) [
            | none ↦ none
            | some current ↦
                if not (password_matches password user)
                  || not (current.password_hash == user.password_hash)
                  || not (current.salt == user.salt)
                  || not (current.session_version == user.session_version)
                then none
                else some current.session_version
          ]
        ]

-- `deleteUser`
unfoldable pub delete_user : String → List StoredUser → List StoredUser × Outcome Unit
delete_user username users =
    if username == default_username
    then (users, throws cannot_delete_default)
    else if not (is_username username)
    then (users, throws bad_username)
    else if not (user_exists username users)
    then (users, throws does_not_exist)
    else (keep (λ u. not (u.username == username)) users, answers tt)

-- `sessionIsCurrent`, for a version that is a natural number
unfoldable pub session_is_current : String → ℕ → List StoredUser → Bool
session_is_current username version users =
    if not (leb version max_safe_integer) || version == 0
    then false
    else elim (find_user username users) [ none ↦ false | some u ↦ u.session_version == version ]

-- `recordLogin`
unfoldable pub record_login : String → Option ℕ → ℕ → List StoredUser → List StoredUser × Bool
record_login username expected now users = elim (find_user username users) [
  | none ↦ (users, false)
  | some u ↦
      if elim expected [ none ↦ false | some v ↦ not (u.session_version == v) ]
      then (users, false)
      else (change_user username (λ v. record v { last_login_at = some now }) users, true)
]
