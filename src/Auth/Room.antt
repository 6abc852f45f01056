-- ===== src/Auth/Room.antt =====
-- The lock file of server/auth.ts, while attempts name few accounts and addresses: no entry is
-- dropped, and a locked account stays locked.
use bored_manager.Base.{ℕ, ◌≤◌, ◌≡◌, String, true, List, [], ◌∷◌, string_key, length, arith, All}
use bored_manager.Base.Dict
use bored_manager.Base.Dict.{Dict, get-insert, get-erase, length-erase}
use bored_manager.Base.Dict.Distinct.{IsDistinct, insert-IsDistinct, erase-IsDistinct}
use bored_manager.Base.Dict.Within.{IsIn, KeysIn, length-KeysIn, insert-KeysIn, erase-KeysIn}
use bored_manager.Auth.{LockFile, max_lock_entries, entry_locked, Attempt, attempt_login, attempts}
use bored_manager.Auth.Lockout.{
  counted, cleared, IsSpacious, attempt_login-cases, check_password-cases, fail_login-file,
  pass_login-file, user_stays_locked,
}

-- A lock file whose usernames and addresses, each stored once, are all from two lists.
pub record Fits (names addresses : List String) (lock : LockFile) : Type 0 where
  pub users_distinct : IsDistinct lock.users
  pub ips_distinct : IsDistinct lock.ips
  pub users_in : KeysIn names lock.users
  pub ips_in : KeysIn addresses lock.ips

-- The attempts' usernames and addresses are all from two lists.
abbrev pub ComeFrom : List String → List String → List Attempt → Type 0
ComeFrom names addresses = All (λ a. IsIn a.username names × IsIn a.ip addresses)

module _ (names addresses : List String) (limit : ℕ) (lock : LockFile) (a : Attempt)
    (h : Fits names addresses lock) (u : IsIn a.username names) (i : IsIn a.ip addresses) where
  counted-Fits : Fits names addresses (counted limit lock a)
  counted-Fits = record {
    users_distinct = insert-IsDistinct a.username _ lock.users h.users_distinct;
    ips_distinct = insert-IsDistinct a.ip _ lock.ips h.ips_distinct;
    users_in = insert-KeysIn names a.username _ lock.users u h.users_in;
    ips_in = insert-KeysIn addresses a.ip _ lock.ips i h.ips_in;
  }

  cleared-Fits : Fits names addresses (cleared limit lock a)
  cleared-Fits = record {
    users_distinct = erase-IsDistinct a.username lock.users h.users_distinct;
    ips_distinct = erase-IsDistinct a.ip lock.ips h.ips_distinct;
    users_in = erase-KeysIn names a.username lock.users h.users_in;
    ips_in = erase-KeysIn addresses a.ip lock.ips h.ips_in;
  }

  module _ (few_names : length names ≤ max_lock_entries)
      (few_addresses : length addresses ≤ max_lock_entries) where
    pub Fits-IsSpacious : IsSpacious limit lock a
    Fits-IsSpacious =
        let grown = counted limit lock a in
        let g = counted-Fits in
        omega (
          arith,
          length-KeysIn names lock.users h.users_distinct h.users_in,
          length-KeysIn addresses lock.ips h.ips_distinct h.ips_in,
          length-KeysIn names grown.users g.users_distinct g.users_in,
          length-KeysIn addresses grown.ips g.ips_distinct g.ips_in,
        )

    pub attempt_login-Fits : Fits names addresses (attempt_login limit lock a).0
    attempt_login-Fits =
        attempt_login-cases limit lock a (λ r. Fits names addresses r.0) (λ p. h)
          (λ w.
            check_password-cases limit lock a (λ r. Fits names addresses r.0) (λ e. h)
              (λ e. rw (fail_login-file limit lock a Fits-IsSpacious) counted-Fits)
              (λ v e m r. rw (pass_login-file limit lock a v Fits-IsSpacious) cleared-Fits))

-- A locked account is still locked after any further attempts from anywhere, however many, as long
-- as they and the file name at most 2048 accounts and 2048 addresses.
pub attempts_stay_locked :
    (names addresses : List String) (limit : ℕ) (lock : LockFile) (u : String)
    (tries : List Attempt)
    → length names ≤ max_lock_entries
    → length addresses ≤ max_lock_entries
    → Fits names addresses lock
    → ComeFrom names addresses tries
    → entry_locked (Dict.get u lock.users) limit ≡ true
    → entry_locked (Dict.get u (attempts limit lock tries).0.users) limit ≡ true
unfolding attempts
attempts_stay_locked names addresses limit lock u [] n d f k h = h
attempts_stay_locked names addresses limit lock u (a ∷ tries) n d f k h =
    attempts_stay_locked names addresses limit (attempt_login limit lock a).0 u tries n d
      (attempt_login-Fits names addresses limit lock a f k.0.0 k.0.1 n d) k.1
      (user_stays_locked limit lock a u
        (Fits-IsSpacious names addresses limit lock a f k.0.0 k.0.1 n d) h)
