-- ===== src/Users/Sessions.antt =====
-- server/services/users.ts: what an account's session version is worth.
use bored_manager.Base.{
  ℕ, suc, ◌≤◌, ◌<◌, ◌≡◌, ◌≢◌, refl, String, Option, none, some, Bool, true, false, List, [], ◌∷◌,
  ◌++◌, ◌==◌, string_key, nat_key, not, inl, inr, keep, if◌then◌else◌, arith, eq_iff, leb, ◌||◌,
  js_length, Option-cases, Bool-cases,
}
use bored_manager.Auth.{is_username}
use bored_manager.Json.{max_safe_integer}
use bored_manager.Users.{
  StoredUser, find_user, user_exists, change_user, create_user, set_password, delete_user,
  verify_for_session, password_matches, session_is_current, record_login, answers, name_problem,
  password_problem,
}

find-change :
    (name other : String) (f : StoredUser → StoredUser) (users : List StoredUser)
    → ((u : StoredUser) → (f u).username ≡ u.username)
    → find_user other (change_user name f users) ≡ (
        if name == other
        then elim (find_user name users) [ none ↦ none | some u ↦ some (f u) ]
        else find_user other users)
find-change name other f [] same = ground arith
find-change name other f (u ∷ users) same = ground (
  arith,
  same u,
  find-change name other f users same,
  eq_iff u.username name,
  eq_iff u.username other,
  eq_iff name other,
)

-- Names are unique.
abbrev pub HasUniqueNames : List StoredUser → Type 0
HasUniqueNames [] = Unit
HasUniqueNames (u ∷ users) = (user_exists u.username users ≡ false) × HasUniqueNames users

exists-append :
    (name : String) (u : StoredUser) (users : List StoredUser)
    → user_exists name (users ++ u ∷ []) ≡ (user_exists name users || u.username == name)
exists-append name u [] = ground arith
exists-append name u (v ∷ users) = ground (arith, exists-append name u users)

unique-append :
    (u : StoredUser) (users : List StoredUser)
    → user_exists u.username users ≡ false
    → HasUniqueNames users
    → HasUniqueNames (users ++ u ∷ [])
unique-append u [] n h = (refl, tt)
unique-append u (v ∷ users) n h = ground (
  arith,
  exists-append v.username u users,
  unique-append u users (ground arith) h.1,
  eq_iff v.username u.username,
  eq_iff u.username v.username,
)

exists-keep :
    (name gone : String) (users : List StoredUser)
    → user_exists name users ≡ false
    → user_exists name (keep (λ u. not (u.username == gone)) users) ≡ false
exists-keep name gone [] h = refl
exists-keep name gone (u ∷ users) h = ground (arith, exists-keep name gone users)

unique-keep :
    (gone : String) (users : List StoredUser)
    → HasUniqueNames users
    → HasUniqueNames (keep (λ u. not (u.username == gone)) users)
unique-keep gone [] h = tt
unique-keep gone (u ∷ users) h =
    ground (arith, exists-keep u.username gone users, unique-keep gone users h.1)

exists-change :
    (name other : String) (f : StoredUser → StoredUser) (users : List StoredUser)
    → ((u : StoredUser) → (f u).username ≡ u.username)
    → user_exists other (change_user name f users) ≡ user_exists other users
exists-change name other f [] same = refl
exists-change name other f (u ∷ users) same =
    ground (arith, same u, exists-change name other f users same)

unique-change :
    (name : String) (f : StoredUser → StoredUser) (users : List StoredUser)
    → ((u : StoredUser) → (f u).username ≡ u.username)
    → HasUniqueNames users
    → HasUniqueNames (change_user name f users)
unique-change name f [] same h = tt
unique-change name f (u ∷ users) same h =
    ground (
      arith,
      same u,
      unique-change name f users same h.1,
      exists-change name u.username f users same,
    )

name_problem-free :
    (name : String) (users : List StoredUser)
    → name_problem name users ≡ none
    → user_exists name users ≡ false
unfolding name_problem
name_problem-free name users q = ground arith

-- What changes the file of accounts.
pub data Edit : Type 0 where
  creates : String → String → String → ℕ → Edit
  sets_password : String → String → String → Edit
  deletes : String → Edit
  logs_in : String → Option ℕ → ℕ → Edit

module _ (hash : String → String → String) where
  abbrev pub edit : Edit → List StoredUser → List StoredUser
  edit (creates name password salt now) users = (create_user hash name password salt now users).0
  edit (sets_password name password salt) users = (set_password hash name password salt users).0
  edit (deletes name) users = (delete_user name users).0
  edit (logs_in name expected now) users = (record_login name expected now users).0

  abbrev pub edited : List Edit → List StoredUser → List StoredUser
  edited [] users = users
  edited (e ∷ before) users = edit e (edited before users)

  create_user_unique :
      (name password salt : String) (now : ℕ) (users : List StoredUser)
      → HasUniqueNames users
      → HasUniqueNames (create_user hash name password salt now users).0
  unfolding create_user
  create_user_unique name password salt now users h = elim (Bool-cases (is_username name)) [
    | inr e ↦ rw (create_user, e) h
    | inl e ↦ elim (Option-cases (password_problem password)) [
      | inr (p, f) ↦ rw (create_user, e, f) h
      | inl f ↦ elim (Option-cases (name_problem name users)) [
        | inr (p, g) ↦ rw (create_user, e, f, g) h
        | inl g ↦
            rw (create_user, e, f, g)
              (unique-append
                (record {
                  username = name;
                  password_hash = hash password salt;
                  salt = salt;
                  created_at = now;
                  last_login_at = none;
                  session_version = 1;
                })
                users (name_problem-free name users g) h)
      ]
    ]
  ]

  set_password_unique :
      (name password salt : String) (users : List StoredUser)
      → HasUniqueNames users
      → HasUniqueNames (set_password hash name password salt users).0
  unfolding set_password
  set_password_unique name password salt users h = elim (Bool-cases (is_username name)) [
    | inr e ↦ rw (set_password, e) h
    | inl e ↦ elim (Option-cases (password_problem password)) [
      | inr (p, f) ↦ rw (set_password, e, f) h
      | inl f ↦ elim (Option-cases (find_user name users)) [
        | inl g ↦ rw (set_password, e, f, g) h
        | inr (u, g) ↦ elim (Bool-cases (leb max_safe_integer u.session_version)) [
          | inl k ↦ rw (set_password, e, f, g, k) h
          | inr k ↦
              rw (set_password, e, f, g, k)
                (unique-change name
                  (λ v. record v {
                    salt = salt;
                    password_hash = hash password salt;
                    session_version = suc v.session_version;
                  })
                  users (λ v. refl) h)
        ]
      ]
    ]
  ]

  delete_user_unique :
      (name : String) (users : List StoredUser)
      → HasUniqueNames users
      → HasUniqueNames (delete_user name users).0
  unfolding delete_user
  delete_user_unique name users h = ground (arith, unique-keep name users h)

  record_login_unique :
      (name : String) (expected : Option ℕ) (now : ℕ) (users : List StoredUser)
      → HasUniqueNames users
      → HasUniqueNames (record_login name expected now users).0
  unfolding record_login
  record_login_unique name expected now users h =
      ground
        (arith, unique-change name (λ v. record v { last_login_at = some now }) users (λ v. refl) h)

  edit_unique :
      (e : Edit) (users : List StoredUser) → HasUniqueNames users → HasUniqueNames (edit e users)
  edit_unique (creates name password salt now) users h =
      create_user_unique name password salt now users h
  edit_unique (sets_password name password salt) users h =
      set_password_unique name password salt users h
  edit_unique (deletes name) users h = delete_user_unique name users h
  edit_unique (logs_in name expected now) users h = record_login_unique name expected now users h

  -- Any sequence of account operations keeps the usernames of the file unique.
  pub edited-HasUniqueNames :
      (edits : List Edit) (users : List StoredUser)
      → HasUniqueNames users
      → HasUniqueNames (edited edits users)
  edited-HasUniqueNames [] users h = h
  edited-HasUniqueNames (e ∷ before) users h =
      edit_unique e (edited before users) (edited-HasUniqueNames before users h)

  abbrev renewed : String → String → StoredUser → StoredUser
  renewed password salt v = record v {
    salt = salt;
    password_hash = hash password salt;
    session_version = suc v.session_version;
  }

  set_password-answered :
      (name password salt : String) (users : List StoredUser) (u : StoredUser)
      → (set_password hash name password salt users).1 ≡ answers tt
      → find_user name users ≡ some u
      → ((set_password hash name password salt users).0
          ≡ change_user name (renewed password salt) users)
        × (suc u.session_version ≤ max_safe_integer)
  unfolding set_password
  set_password-answered name password salt users u a q = ground (arith, q)

  -- After a password change that is answered, a session of the account is current exactly if it has
  -- the version that follows the one before, so that every earlier session has ended; the sessions
  -- of every other account are as they were.
  pub set_password-sessions :
      (name password salt : String) (users : List StoredUser) (u : StoredUser)
      → (set_password hash name password salt users).1 ≡ answers tt
      → find_user name users ≡ some u
      → let after = (set_password hash name password salt users).0 in
        ((version : ℕ)
          → version ≢ suc u.session_version
          → session_is_current name version after ≡ false)
        × (session_is_current name (suc u.session_version) after ≡ true)
        × ((other : String) (version : ℕ)
            → name ≢ other
            → session_is_current other version after ≡ session_is_current other version users)
  unfolding set_password session_is_current
  set_password-sessions name password salt users u a q =
      let (e, room) = set_password-answered name password salt users u a q in
      rw e (
        (λ version old. ground (
          arith,
          q,
          find-change name name (renewed password salt) users (λ v. refl),
          eq_iff name name,
        )),
        ground (
          arith,
          q,
          find-change name name (renewed password salt) users (λ v. refl),
          eq_iff name name,
          room,
        ),
        (λ other version different. ground (
          arith,
          find-change name other (renewed password salt) users (λ v. refl),
          eq_iff name other,
        )),
      )

  module _ (same_bytes : String → String → Bool) (dummy_salt dummy_hash : String) where
    granted-same :
        (name password : String) (before now : List StoredUser) (version : ℕ) (u c : StoredUser)
        → ((p : String) → same_bytes dummy_hash (hash p dummy_salt) ≡ false)
        → verify_for_session hash same_bytes dummy_salt dummy_hash name password before now
          ≡ some version
        → find_user name before ≡ some u
        → find_user name now ≡ some c
        → (0 < js_length c.password_hash)
          × (same_bytes c.password_hash (hash password c.salt) ≡ true)
          × (c.session_version ≡ u.session_version)
          × (c.session_version ≡ version)
    unfolding verify_for_session password_matches
    granted-same name password before now version u c dummy granted q r =
        ground (arith, dummy password, eq_iff c.password_hash u.password_hash, eq_iff c.salt u.salt)

    -- A login is granted only for an account that is in the file at both readings and has a password,
    -- with a password whose hash is the stored one at the second reading, and only if the version
    -- has not changed between the two; what is granted is that version. It is assumed that the
    -- dummy hash is the hash of no password.
    pub verify_for_session_sound :
        (name password : String) (before now : List StoredUser) (version : ℕ)
        → ((p : String) → same_bytes dummy_hash (hash p dummy_salt) ≡ false)
        → verify_for_session hash same_bytes dummy_salt dummy_hash name password before now
          ≡ some version
        → (u : StoredUser) × (c : StoredUser) × (find_user name before ≡ some u)
          × (find_user name now ≡ some c)
          × (0 < js_length c.password_hash)
          × (same_bytes c.password_hash (hash password c.salt) ≡ true)
          × (c.session_version ≡ u.session_version)
          × (c.session_version ≡ version)
    unfolding verify_for_session password_matches
    verify_for_session_sound name password before now version dummy granted =
        elim (Option-cases (find_user name before)) [
          | inl q ↦ absurd (ground arith)
          | inr (u, q) ↦ elim (Option-cases (find_user name now)) [
            | inl r ↦ absurd (ground arith)
            | inr (c, r) ↦
                let same = granted-same name password before now version u c dummy granted q r in
                (u, c, q, r, same.0, same.1, same.2, same.3)
          ]
        ]
