-- ===== src/Auth/Guesses.antt =====
-- How many passwords can be guessed at one account of server/auth.ts.
use bored_manager.Base.{
  ℕ, suc, ◌+◌, ◌≤◌, ◌<◌, ◌≡◌, refl, String, Option, none, some, Bool, true, false, List, [], ◌∷◌,
  ◌==◌, string_key, length, arith, eq_iff, Bool-cases, Option-cases, inl, inr, ◌⊎◌, ◌&&◌, All,
  if◌then◌else◌, subst,
}
use bored_manager.Base.Dict
use bored_manager.Base.Dict.{Dict, get-insert, get-insert_self}
use bored_manager.Auth.{
  LockEntry, LockFile, max_lock_entries, entry_locked, either_locked, Attempt, fail_entry,
  fail_login, attempt_login, attempts, LoginAttempt, invalid,
}
use bored_manager.Auth.Lockout.{
  IsSpacious, attempt_login-cases, check_password-cases, attempt_login_others, fail_login-file,
}
use bored_manager.Auth.Room.{Fits, ComeFrom, attempt_login-Fits, Fits-IsSpacious}

abbrev pub failures_of : Option LockEntry → ℕ
failures_of none = 0
failures_of (some e) = e.failures

abbrev is_invalid : LoginAttempt → Bool
is_invalid (invalid n remaining shut) = true
is_invalid _ = false

-- The attempts at the account that had their password verified and refused.
abbrev pub wrong_guesses : String → List Attempt → List LoginAttempt → ℕ
wrong_guesses u (a ∷ rest) (r ∷ rs) =
    let more = wrong_guesses u rest rs in if a.username == u && is_invalid r then suc more else more
wrong_guesses u _ _ = 0

-- No attempt at the account has the right password.
abbrev pub NoneRight : String → List Attempt → Type 0
NoneRight u = All (λ a. a.username ≡ u → a.verified ≡ none)

-- One attempt either counts one failure, below the limit, or counts none.
abbrev Counted : ℕ → LockFile → String → LockFile × LoginAttempt → Type 0
Counted limit lock u r =
    let before = failures_of (Dict.get u lock.users) in
    let after = failures_of (Dict.get u r.0.users) in
    ((is_invalid r.1 ≡ true) × (after ≡ suc before) × (before < limit))
    ⊎ ((is_invalid r.1 ≡ false) × (after ≡ before))

unlocked-below :
    (limit : ℕ) (lock : LockFile) (username ip : String)
    → 0 < limit
    → either_locked limit lock username ip ≡ false
    → failures_of (Dict.get username lock.users) < limit
unfolding either_locked entry_locked
unlocked-below limit lock username ip pos e = elim (Option-cases (Dict.get username lock.users)) [
  | inl q ↦ rw q pos
  | inr (entry, q) ↦ rw q (ground arith)
]

failures_of-fail_entry :
    (limit now : ℕ) (old : Option LockEntry)
    → (fail_entry limit now old).failures ≡ suc (failures_of old)
unfolding fail_entry
failures_of-fail_entry limit now none = refl
failures_of-fail_entry limit now (some e) = omega arith

fail_login-invalid :
    (limit : ℕ) (lock : LockFile) (a : Attempt) → is_invalid (fail_login limit lock a).1 ≡ true
unfolding fail_login
fail_login-invalid limit lock a = refl

fail_login-Counted :
    (limit : ℕ) (lock : LockFile) (a : Attempt)
    → IsSpacious limit lock a
    → 0 < limit
    → either_locked limit lock a.username a.ip ≡ false
    → Counted limit lock a.username (fail_login limit lock a)
fail_login-Counted limit lock a room pos e = inl (
  fail_login-invalid limit lock a,
  rw
      (
        fail_login-file limit lock a room,
        get-insert_self a.username (fail_entry limit a.now (Dict.get a.username lock.users))
            lock.users,
      )
      (failures_of-fail_entry limit a.now (Dict.get a.username lock.users)),
  unlocked-below limit lock a.username a.ip pos e,
)

guess-Counted :
    (limit : ℕ) (lock : LockFile) (a : Attempt)
    → IsSpacious limit lock a
    → 0 < limit
    → a.verified ≡ none
    → Counted limit lock a.username (attempt_login limit lock a)
guess-Counted limit lock a room pos wrong =
    attempt_login-cases limit lock a (Counted limit lock a.username) (λ p. inr (refl, refl))
      (λ w.
        check_password-cases limit lock a (Counted limit lock a.username) (λ e. inr (refl, refl))
          (λ e. fail_login-Counted limit lock a room pos e) (λ v e m r. cc (wrong, m)))

-- While no right password is tried for an account, which would clear its failures, at most `limit`
-- guesses at it are verified, in any order among attempts at other accounts, however many they are
-- and wherever they come from; the failures that the file already counts are taken off. The attempts
-- and the file may name at most 2048 accounts and 2048 addresses, so that no entry is dropped.
pub wrong_guesses_limited :
    (names addresses : List String) (limit : ℕ) (lock : LockFile) (u : String)
    (tries : List Attempt)
    → length names ≤ max_lock_entries
    → length addresses ≤ max_lock_entries
    → Fits names addresses lock
    → ComeFrom names addresses tries
    → 0 < limit
    → NoneRight u tries
    → failures_of (Dict.get u lock.users) ≤ limit
    → wrong_guesses u tries (attempts limit lock tries).1 + failures_of (Dict.get u lock.users)
      ≤ limit
unfolding attempts
wrong_guesses_limited names addresses limit lock u [] n d fits known pos wrong f = omega arith
wrong_guesses_limited names addresses limit lock u (a ∷ tries) n d fits known pos wrong f =
    let next = (attempt_login limit lock a).0 in
    let room = Fits-IsSpacious names addresses limit lock a fits known.0.0 known.0.1 n d in
    let ih =
      wrong_guesses_limited names addresses limit next u tries n d
        (attempt_login-Fits names addresses limit lock a fits known.0.0 known.0.1 n d) known.1 pos
        wrong.1 in
    elim (Bool-cases (a.username == u)) [
      | inr other ↦
          let kept =
            (attempt_login_others limit lock a room).0 u
              (λ e. ground (arith, eq_iff a.username u)) in
          ground (arith, ih (rw kept f), kept)
      | inl same ↦
          let eq = (eq_iff a.username u).0 same in
          let c : Counted limit lock a.username (attempt_login limit lock a) =
            guess-Counted limit lock a room pos (wrong.0 eq) in
          elim (subst (λ x. Counted limit lock x (attempt_login limit lock a)) eq c) [
            | inl (bad, grown, below) ↦ ground (arith, ih (rw grown below))
            | inr (fine, kept) ↦ ground (arith, ih (rw kept f))
          ]
    ]
