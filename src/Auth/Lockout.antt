-- ===== src/Auth/Lockout.antt =====
-- The lockout of server/auth.ts: who is refused, and that only the two keys of an attempt count.
use bored_manager.Base.{
  ℕ, ◌≤◌, ◌≡◌, refl, ◌≢◌, ◌↔◌, String, none, some, true, false, ◌==◌, ◌∙◌, string_key, length,
  arith, eq_iff, Bool-cases, Option-cases, inl, inr, ◌||◌, ◌⊎◌, is_some,
}
use bored_manager.Base.Dict
use bored_manager.Base.Dict.{Dict, get-insert, get-erase, length-erase}
use bored_manager.Auth.{
  AttemptProblem, input, bad_address, LockEntry, LockFile, max_lock_entries, capped_map, write_lock,
  entry_locked, either_locked, Attempt, fail_entry, fail_login, pass_login, check_password,
  attempt_login, login_input_problem, is_address, LoginAttempt, malformed, locked,
}

-- The input of an attempt passes the checks that are made before the lock file is read.
abbrev pub IsWellFormed : Attempt → Type 0
IsWellFormed a =
    (login_input_problem a.username a.password ≡ none)
    × ((a.ip == "unknown" || is_address a.ip) ≡ true)

-- No entry of the lock file has to be dropped.
abbrev pub HasRoom : LockFile → Type 0
HasRoom lock = (length lock.users ≤ max_lock_entries) × (length lock.ips ≤ max_lock_entries)

write_lock-same : (lock : LockFile) → HasRoom lock → write_lock lock ≡ lock
unfolding write_lock capped_map
write_lock-same lock h = ground arith

-- What one attempt may do to the lock file: nothing, count a failure, or clear its two keys.
pub check_password-cases :
    (limit : ℕ) (lock : LockFile) (a : Attempt) (P : LockFile × LoginAttempt → Type 0)
    → ((either_locked limit lock a.username a.ip ≡ true) → P (lock, locked))
    → ((either_locked limit lock a.username a.ip ≡ false) → P (fail_login limit lock a))
    → ((version : ℕ)
        → either_locked limit lock a.username a.ip ≡ false
        → a.verified ≡ some version
        → a.recorded ≡ true
        → P (pass_login lock a version))
    → P (check_password limit lock lock a)
unfolding check_password
check_password-cases limit lock a P refused failed passed =
    elim (Bool-cases (either_locked limit lock a.username a.ip)) [
      | inl e ↦ rw e (refused e)
      | inr e ↦ elim (Option-cases a.verified) [
        | inl v ↦ rw (e, v, check_password) (failed e)
        | inr (n, v) ↦ elim (Bool-cases a.recorded) [
          | inl r ↦ rw (e, v, r, check_password) (passed n e v r)
          | inr r ↦ rw (e, v, r, check_password) (failed e)
        ]
      ]
    ]

pub attempt_login-cases :
    (limit : ℕ) (lock : LockFile) (a : Attempt) (P : LockFile × LoginAttempt → Type 0)
    → ((p : AttemptProblem) → P (lock, malformed p))
    → (IsWellFormed a → P (check_password limit lock lock a))
    → P (attempt_login limit lock a)
unfolding attempt_login
attempt_login-cases limit lock a P bad fine =
    elim (Option-cases (login_input_problem a.username a.password)) [
      | inr (p, e) ↦ rw (e, attempt_login) (bad (input p))
      | inl e ↦ elim (Bool-cases (a.ip == "unknown")) [
        | inl u ↦ rw (e, u, attempt_login) (fine (e, rw u))
        | inr u ↦ elim (Bool-cases (is_address a.ip)) [
          | inl w ↦ rw (e, u, w, attempt_login) (fine (e, rw (u, w)))
          | inr w ↦ rw (e, u, w, attempt_login) (bad bad_address)
        ]
      ]
    ]

-- The file has an entry for the key that carries a lock time or has at least `limit` failures.
pub record LocksOut (limit : ℕ) (key : String) (entries : Dict String LockEntry) : Type 0 where
  pub entry : LockEntry
  pub stored : Dict.get key entries ≡ some entry
  pub counts : (is_some entry.locked_at ≡ true) ⊎ (limit ≤ entry.failures)

entry_locked-LocksOut :
    (limit : ℕ) (key : String) (entries : Dict String LockEntry)
    → entry_locked (Dict.get key entries) limit ≡ true
    → LocksOut limit key entries
unfolding entry_locked
entry_locked-LocksOut limit key entries h = elim (Option-cases (Dict.get key entries)) [
  | inl q ↦ absurd (ground arith)
  | inr (entry, q) ↦ record { entry = entry; stored = q; counts = ground arith }
]

LocksOut-entry_locked :
    (limit : ℕ) (key : String) (entries : Dict String LockEntry)
    → LocksOut limit key entries
    → entry_locked (Dict.get key entries) limit ≡ true
unfolding entry_locked
LocksOut-entry_locked limit key entries l = rw l.stored (ground (arith, l.counts))

either_locked_iff :
    (limit : ℕ) (lock : LockFile) (username ip : String)
    → (either_locked limit lock username ip ≡ true)
      ↔ (LocksOut limit username lock.users ⊎ LocksOut limit ip lock.ips)
unfolding either_locked
either_locked_iff limit lock username ip = (
  λ h. elim (Bool-cases (entry_locked (Dict.get username lock.users) limit)) [
    | inl e ↦ inl (entry_locked-LocksOut limit username lock.users e)
    | inr e ↦ inr (entry_locked-LocksOut limit ip lock.ips (ground arith))
  ],
  λ h. elim h [
    | inl u ↦ ground (arith, LocksOut-entry_locked limit username lock.users u)
    | inr i ↦ ground (arith, LocksOut-entry_locked limit ip lock.ips i)
  ],
)

answered-locked :
    (limit : ℕ) (lock : LockFile) (a : Attempt)
    → ((attempt_login limit lock a).1 ≡ locked)
      ↔ (IsWellFormed a × (either_locked limit lock a.username a.ip ≡ true))
unfolding attempt_login check_password
answered-locked limit lock a = (λ e. ground arith, λ h. ground arith)

-- An attempt is answered "locked" exactly when its input is well formed and the file has an entry,
-- for its username or for its address, that carries a lock time or has at least `limit` failures.
pub attempt_login-locked_iff :
    (limit : ℕ) (lock : LockFile) (a : Attempt)
    → ((attempt_login limit lock a).1 ≡ locked)
      ↔ (IsWellFormed a × (LocksOut limit a.username lock.users ⊎ LocksOut limit a.ip lock.ips))
attempt_login-locked_iff limit lock a = (
  λ e.
      let told = (answered-locked limit lock a).0 e in
      (told.0, (either_locked_iff limit lock a.username a.ip).0 told.1),
  λ h. (answered-locked limit lock a).1 (h.0, (either_locked_iff limit lock a.username a.ip).1 h.1),
)

-- The file after one attempt, where no entry has to be dropped.
module _ (limit : ℕ) (lock : LockFile) (a : Attempt) where
  abbrev pub counted : LockFile
  counted = record {
    users =
        Dict.insert a.username (fail_entry limit a.now (Dict.get a.username lock.users)) lock.users;
    ips = Dict.insert a.ip (fail_entry limit a.now (Dict.get a.ip lock.ips)) lock.ips;
  }

  abbrev pub cleared : LockFile
  cleared = record { users = Dict.erase a.username lock.users; ips = Dict.erase a.ip lock.ips }

  -- There is room for the attempt's keys.
  abbrev pub IsSpacious : Type 0
  IsSpacious = HasRoom lock × HasRoom counted

  pub fail_login-file : IsSpacious → (fail_login limit lock a).0 ≡ counted
  unfolding fail_login
  fail_login-file room = write_lock-same counted room.1

  pub pass_login-file : (version : ℕ) → IsSpacious → (pass_login lock a version).0 ≡ cleared
  unfolding pass_login
  pass_login-file version room =
      write_lock-same cleared
        (omega (arith, room.0, length-erase a.username lock.users, length-erase a.ip lock.ips))

  -- What the file keeps for keys that are not those of the attempt.
  abbrev Untouched : LockFile → Type 0
  Untouched after =
      ((u : String) → u ≢ a.username → Dict.get u after.users ≡ Dict.get u lock.users)
      × ((i : String) → i ≢ a.ip → Dict.get i after.ips ≡ Dict.get i lock.ips)

  counted-Untouched : Untouched counted
  counted-Untouched = (
    λ u ne. get-insert a.username u _ lock.users ∙ ground (arith, eq_iff a.username u),
    λ i ne. get-insert a.ip i _ lock.ips ∙ ground (arith, eq_iff a.ip i),
  )

  cleared-Untouched : Untouched cleared
  cleared-Untouched = (
    λ u ne. get-erase a.username u lock.users ∙ ground (arith, eq_iff a.username u),
    λ i ne. get-erase a.ip i lock.ips ∙ ground (arith, eq_iff a.ip i),
  )

  -- Guessing at one account locks nobody else out: whatever the attempt is answered, the counters
  -- of every other username and of every other address stay as they were.
  pub attempt_login_others : IsSpacious → Untouched (attempt_login limit lock a).0
  attempt_login_others room =
      attempt_login-cases limit lock a (λ r. Untouched r.0) (λ p. (λ u ne. refl, λ i ne. refl))
        (λ w.
          check_password-cases limit lock a (λ r. Untouched r.0) (λ e. (λ u ne. refl, λ i ne. refl))
            (λ e. rw (fail_login-file room) counted-Untouched)
            (λ v e m r. rw (pass_login-file v room) cleared-Untouched))

  locked_user :
      (u : String)
      → (u == a.username) ≡ true
      → entry_locked (Dict.get u lock.users) limit ≡ true
      → either_locked limit lock a.username a.ip ≡ true
  unfolding either_locked
  locked_user u same h = rw (← (eq_iff u a.username).0 same, h)

  pub user_stays_locked :
      (u : String)
      → IsSpacious
      → entry_locked (Dict.get u lock.users) limit ≡ true
      → entry_locked (Dict.get u (attempt_login limit lock a).0.users) limit ≡ true
  user_stays_locked u room h = elim (Bool-cases (u == a.username)) [
    | inr other ↦ rw ((attempt_login_others room).0 u (λ e. ground (arith, eq_iff u a.username))) h
    | inl same ↦
        attempt_login-cases limit lock a (λ r. entry_locked (Dict.get u r.0.users) limit ≡ true)
          (λ p. h)
          (λ w.
            check_password-cases limit lock a
              (λ r. entry_locked (Dict.get u r.0.users) limit ≡ true) (λ e. h)
              (λ e. cc (locked_user u same h, e)) (λ v e m r. cc (locked_user u same h, e)))
  ]
