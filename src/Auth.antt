-- ===== src/Auth.antt =====
-- server/auth.ts: logging in, and the lockout. A login attempt reads the lock file twice, before
-- and after the password is verified, and writes it once; attempts run one after another
-- (`serializeLogin`). Times are milliseconds.
pub mod Capping
pub mod Lockout
pub mod Room
pub mod Guesses
use bored_manager.Base.{
  ℕ, zero, suc, ◌+◌, ◌*◌, ◌-◌, max, String, Option, none, some, Bool, true, false, not, List, [],
  ◌∷◌, ◌==◌, string_key, ltb, leb, eqb, if◌then◌else◌, ◌||◌, ◌&&◌, length, take, every, codes,
  js_length, is_lower, is_digit, is_hex, is_some, or_else,
}
use bored_manager.Base.Dict
use bored_manager.Base.Dict.{Dict}

pub record LockEntry : Type 0 where
  pub failures : ℕ
  pub locked_at : Option ℕ
  pub updated_at : ℕ

pub record LockFile : Type 0 where
  pub users : Dict String LockEntry
  pub ips : Dict String LockEntry

abbrev pub max_lock_entries : ℕ
max_lock_entries = 2048

abbrev pub max_password_length : ℕ
max_password_length = 4096

pub data IdleUnit : Type 0 where
  minute hour day : IdleUnit

-- `idleMs`; a value that is not positive is 0 here.
unfoldable pub idle_ms : ℕ → IdleUnit → ℕ
idle_ms value minute = value * 60000
idle_ms value hour = value * 3600000
idle_ms value day = value * 86400000

-- `USERNAME_PATTERN` of shared/types.ts: `^[a-z][a-z0-9_-]{2,31}$`
abbrev name_char : ℕ → Bool
name_char c = is_lower c || is_digit c || eqb c b'_' || eqb c b'-'

name_rest : List ℕ → Bool
name_rest [] = false
name_rest (c ∷ cs) = is_lower c && every name_char cs && leb 2 (length cs) && leb (length cs) 31

unfoldable pub is_username : String → Bool
unfolding name_rest
is_username s = name_rest (codes s)

-- `^[0-9a-f:.%]+$` with the flag `i`, and at most 128 characters
abbrev address_char : ℕ → Bool
address_char c = is_hex c || eqb c b':' || eqb c b'.' || eqb c b'%'

unfoldable pub is_address : String → Bool
is_address s = ltb 0 (js_length s) && leb (js_length s) 128 && every address_char (codes s)

pub data InputProblem : Type 0 where
  bad_credentials long_password : InputProblem

-- `loginInputProblem`
unfoldable pub login_input_problem : String → String → Option InputProblem
unfolding is_username
login_input_problem username password =
    if not (is_username username)
    then some bad_credentials
    else if eqb (js_length password) 0
    then some bad_credentials
    else if ltb max_password_length (js_length password)
    then some long_password
    else none

-- The order of `cappedMap`: locked entries first, then the ones changed last.
abbrev lock_rank : LockEntry → ℕ
lock_rank e = if is_some e.locked_at then 1 else 0

abbrev pub goes_before : LockEntry → LockEntry → Bool
goes_before a b =
    ltb (lock_rank b) (lock_rank a)
    || eqb (lock_rank a) (lock_rank b) && ltb b.updated_at a.updated_at

-- A stable sort: an entry stays before the later ones that do not go before it.
unfoldable pub insert_sorted :
    String × LockEntry → List (String × LockEntry) → List (String × LockEntry)
insert_sorted x [] = x ∷ []
insert_sorted x (y ∷ ys) =
    let later = y ∷ insert_sorted x ys in if goes_before y.1 x.1 then later else x ∷ y ∷ ys

unfoldable pub sort_entries : List (String × LockEntry) → List (String × LockEntry)
unfolding insert_sorted
sort_entries [] = []
sort_entries (x ∷ xs) = insert_sorted x (sort_entries xs)

unfoldable pub capped_map : Dict String LockEntry → Dict String LockEntry
unfolding sort_entries
capped_map source =
    if leb (length source) max_lock_entries
    then source
    else take max_lock_entries (sort_entries source)

-- `writeLock`: what the file holds afterwards
unfoldable pub write_lock : LockFile → LockFile
unfolding capped_map
write_lock lock = record { users = capped_map lock.users; ips = capped_map lock.ips }

unfoldable pub entry_locked : Option LockEntry → ℕ → Bool
entry_locked none limit = false
entry_locked (some e) limit = is_some e.locked_at || leb limit e.failures

-- `isLocked`, for the parts of `who` that are given and not empty
unfoldable pub is_locked : ℕ → LockFile → Option String → Option String → Bool
unfolding entry_locked
is_locked limit lock username ip =
    (elim username [
      | none ↦ false
      | some u ↦ ltb 0 (js_length u) && entry_locked (Dict.get u lock.users) limit
    ])
    || (elim ip [
      | none ↦ false
      | some a ↦ ltb 0 (js_length a) && entry_locked (Dict.get a lock.ips) limit
    ])

-- `unlock`
unfoldable pub unlock : LockFile
unfolding write_lock
unlock = write_lock (record { users = []; ips = [] })

pub data AttemptProblem : Type 0 where
  input : InputProblem → AttemptProblem
  bad_address : AttemptProblem

pub data LoginAttempt : Type 0 where
  malformed : AttemptProblem → LoginAttempt
  locked : LoginAttempt
  invalid : ℕ → ℕ → Bool → LoginAttempt
  success : ℕ → LoginAttempt

-- The entry after one more failure.
unfoldable pub fail_entry : ℕ → ℕ → Option LockEntry → LockEntry
fail_entry limit now old =
    let failures : ℕ = elim old [ none ↦ 1 | some e ↦ e.failures + 1 ] in
    let before : Option ℕ = elim old [ none ↦ none | some e ↦ e.locked_at ] in
    record {
      failures = failures;
      locked_at = if leb limit failures then some now else before;
      updated_at = now;
    }

-- What the rest of the server answers during one attempt: `verifyForSession`, `recordLogin` and
-- the clock.
pub record Attempt : Type 0 where
  pub username : String
  pub password : String
  pub ip : String
  pub verified : Option ℕ
  pub recorded : Bool
  pub now : ℕ

unfoldable pub either_locked : ℕ → LockFile → String → String → Bool
unfolding entry_locked
either_locked limit lock username ip =
    entry_locked (Dict.get username lock.users) limit || entry_locked (Dict.get ip lock.ips) limit

-- The attempt failed: both counters grow.
unfoldable pub fail_login : ℕ → LockFile → Attempt → LockFile × LoginAttempt
unfolding fail_entry write_lock
fail_login limit lock a =
    let user = fail_entry limit a.now (Dict.get a.username lock.users) in
    let ip = fail_entry limit a.now (Dict.get a.ip lock.ips) in
    let failures = max user.failures ip.failures in
    (
      write_lock (record {
        users = Dict.insert a.username user lock.users;
        ips = Dict.insert a.ip ip lock.ips;
      }),
      invalid failures (limit - failures) (leb limit user.failures || leb limit ip.failures),
    )

unfoldable pub pass_login : LockFile → Attempt → ℕ → LockFile × LoginAttempt
unfolding write_lock
pass_login lock a version = (
  write_lock (record { users = Dict.erase a.username lock.users; ips = Dict.erase a.ip lock.ips }),
  success version,
)

-- What is in the queue of `serializeLogin`: `first` is the file at the first reading, `second` the
-- one at the second, which the attempt writes over.
unfoldable pub check_password : ℕ → LockFile → LockFile → Attempt → LockFile × LoginAttempt
unfolding either_locked fail_login pass_login
check_password limit first second a =
    if either_locked limit first a.username a.ip
    then (first, locked)
    else if either_locked limit second a.username a.ip
    then (second, locked)
    else elim a.verified [
      | none ↦ fail_login limit second a
      | some version ↦ if a.recorded then pass_login second a version else fail_login limit second a
    ]

-- `attemptLogin`, where no other process writes the file between the two readings
unfoldable pub attempt_login : ℕ → LockFile → Attempt → LockFile × LoginAttempt
unfolding check_password login_input_problem is_address
attempt_login limit lock a = elim (login_input_problem a.username a.password) [
  | some p ↦ (lock, malformed (input p))
  | none ↦
      if not (a.ip == "unknown") && not (is_address a.ip)
      then (lock, malformed bad_address)
      else check_password limit lock lock a
]

-- A sequence of attempts, one after another, and their results.
unfoldable pub attempts : ℕ → LockFile → List Attempt → LockFile × List LoginAttempt
attempts limit lock [] = (lock, [])
attempts limit lock (a ∷ rest) =
    let (next, r) = attempt_login limit lock a in
    let (last, rs) = attempts limit next rest in (last, r ∷ rs)
