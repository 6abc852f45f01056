-- ===== src/Sessions/Revoked.antt =====
-- server/sessions.ts: how long a revocation is remembered, and which sessions one of an account
-- reaches.
use bored_manager.Base.{
  ℕ, suc, ◌+◌, ◌≤◌, ◌<◌, String, Option, none, some, true, false, List, [], ◌∷◌, ◌++◌, ◌≡◌, refl,
  ◌==◌, string_key, ◌||◌, ◌&&◌, any, length, length-append, if◌then◌else◌, arith, eq_iff,
  Bool-cases, inl, inr, ap, map, keep, not,
}
use bored_manager.Base.Dict.{equal_refl}
use bored_manager.Sessions
use bored_manager.Sessions.{
  max_revoked_ids, add, trim, remember_revoked, is_refused, Read, Revocation, revoke_one, untouched,
  Entry, must_go, revoke_username,
}

-- How many ids came after the id.
abbrev later : String → List String → Option ℕ
later sid [] = none
later sid (i ∷ ids) = let rest = later sid ids in if i == sid then some (length ids) else rest

later-trim :
    (sid : String) (ids : List String) (k : ℕ)
    → later sid ids ≡ some k
    → k < max_revoked_ids
    → later sid (trim ids) ≡ some k
unfolding trim
later-trim sid [] k h small = cc
later-trim sid (i ∷ ids) k h small = ground (arith, later-trim sid ids k)

later-push :
    (sid other : String) (ids : List String) (k : ℕ)
    → later sid ids ≡ some k
    → later sid (ids ++ (other ∷ [])) ≡ some (suc k)
later-push sid other [] k h = cc
later-push sid other (i ∷ ids) k h =
    ground (arith, later-push sid other ids k, length-append ids (other ∷ []))

later-push_self :
    (sid : String) (ids : List String)
    → any (λ i. i == sid) ids ≡ false
    → later sid (ids ++ (sid ∷ [])) ≡ some 0
later-push_self sid [] h = ground (arith, equal_refl sid)
later-push_self sid (i ∷ ids) h = ground (arith, later-push_self sid ids)

later-any :
    (sid : String) (ids : List String) (k : ℕ)
    → later sid ids ≡ some k
    → any (λ i. i == sid) ids ≡ true
later-any sid [] k h = cc
later-any sid (i ∷ ids) k h = ground (arith, later-any sid ids k)

-- The id is remembered, and fewer than so many ids came after it.
abbrev IsRecent : ℕ → String → List String → Type 0
IsRecent n sid ids = (k : ℕ) × (later sid ids ≡ some k) × (k < n)

remember-IsRecent :
    (n : ℕ) (sid other : String) (ids : List String)
    → n < max_revoked_ids
    → IsRecent n sid ids
    → IsRecent (suc n) sid (remember_revoked other ids)
unfolding remember_revoked
remember-IsRecent n sid other ids small (k, h, below) =
    elim (Bool-cases (any (λ i. i == other) ids)) [
      | inl present ↦ rw present (k, later-trim sid ids k h (omega arith), omega arith)
      | inr absent ↦ rw absent (
        suc k,
        later-trim sid (ids ++ (other ∷ [])) (suc k) (later-push sid other ids k h) (omega arith),
        omega arith,
      )
    ]

-- Further revocations, the first one first.
abbrev pub remember_all : List String → List String → List String
remember_all [] revoked = revoked
remember_all (sid ∷ sids) revoked = remember_all sids (remember_revoked sid revoked)

remember_all-IsRecent :
    (n : ℕ) (sid : String) (others ids : List String)
    → n + length others ≤ max_revoked_ids
    → IsRecent n sid ids
    → IsRecent (n + length others) sid (remember_all others ids)
remember_all-IsRecent n sid [] ids room (k, h, below) = (k, h, omega arith)
remember_all-IsRecent n sid (o ∷ others) ids room recent =
    let r =
      remember_all-IsRecent (suc n) sid others (remember_revoked o ids) (omega arith)
        (remember-IsRecent n sid o ids (omega arith) recent) in
    (r.0, r.1, omega (arith, r.2))

-- An id that was not remembered and is revoked stays refused through the next 9,999 revocations,
-- of whichever ids: what the store would answer is not asked for.
pub revoked_stays_refused :
    (sid : String) (revoked others : List String) (answer : Read)
    → any (λ i. i == sid) revoked ≡ false
    → length others < max_revoked_ids
    → Sessions.get sid answer (remember_all others (remember_revoked sid revoked)) ≡ some none
unfolding Sessions.get remember_revoked
revoked_stays_refused sid revoked others answer absent room =
    let start : IsRecent 1 sid (remember_revoked sid revoked) = rw absent (
      0,
      later-trim sid (revoked ++ (sid ∷ [])) 0 (later-push_self sid revoked absent) (omega arith),
      omega arith,
    ) in
    let r = remember_all-IsRecent 1 sid others (remember_revoked sid revoked) (omega arith) start in
    ground (arith, later-any sid (remember_all others (remember_revoked sid revoked)) r.0 r.1)

length-trim : (ids : List String) → length (trim ids) ≤ max_revoked_ids
unfolding trim
length-trim [] = omega arith
length-trim (i ∷ ids) = ground (arith, length-trim ids)

trim-all : (ids : List String) → length ids ≤ max_revoked_ids → trim ids ≡ ids
unfolding trim
trim-all [] h = refl
trim-all (i ∷ ids) h = ground arith

any-push :
    (sid other : String) (ids : List String)
    → any (λ i. i == sid) (ids ++ (other ∷ [])) ≡ (any (λ i. i == sid) ids || other == sid)
any-push sid other [] = ground arith
any-push sid other (i ∷ ids) = ground (arith, any-push sid other ids)

any-same :
    (sid other : String) (ids : List String)
    → other ≡ sid
    → any (λ i. i == other) ids ≡ any (λ i. i == sid) ids
any-same sid other ids e = ap (λ x. any (λ i. i == x) ids) e

remember-any :
    (sid other : String) (ids : List String)
    → length ids < max_revoked_ids
    → (any (λ i. i == sid) (remember_revoked other ids) ≡ (any (λ i. i == sid) ids || other == sid))
      × (length (remember_revoked other ids) ≤ suc (length ids))
unfolding remember_revoked
remember-any sid other ids room = elim (Bool-cases (any (λ i. i == other) ids)) [
  | inl present ↦
      rw (present, trim-all ids (omega arith))
        (ground (arith, any-same sid other ids, eq_iff other sid, present), omega arith)
  | inr absent ↦
      let grown = length-append ids (other ∷ []) in
      rw (absent, trim-all (ids ++ (other ∷ [])) (omega (arith, grown)))
        (any-push sid other ids, omega (arith, grown))
]

-- While the revocations fit the memory of 10,000, `revokeUsername` makes an id refused exactly when
-- it was refused before or one of the listed sessions of that id is of the account or cannot be
-- read, also when destructions fail; the store is told to destroy exactly those sessions, in their
-- order, and the failures are exactly those whose destruction failed.
pub revoke_username_exact :
    (username sid : String) (entries : List Entry) (revoked : List String)
    → length revoked + length entries ≤ max_revoked_ids
    → let r = revoke_username username entries revoked in
      (is_refused sid r.revoked
        ≡ (is_refused sid revoked || any (λ e. must_go username e && e.sid == sid) entries))
      × (r.destroyed ≡ map (λ e. e.sid) (keep (must_go username) entries))
      × (r.failures ≡ map (λ e. e.sid) (keep (λ e. must_go username e && not e.destroys) entries))
unfolding revoke_username
revoke_username_exact username sid [] revoked room = (ground arith, refl, refl)
revoke_username_exact username sid (e ∷ entries) revoked room =
    elim (Bool-cases (must_go username e)) [
      | inl goes ↦
          let ih =
            revoke_username_exact username sid entries (remember_revoked e.sid revoked)
              (omega (arith, (remember-any e.sid e.sid revoked (omega arith)).1)) in
          rw (goes) (
            ground (arith, ih.0, (remember-any sid e.sid revoked (omega arith)).0),
            ground (arith, ih.1),
            ground (arith, ih.2),
          )
      | inr stays ↦
          let ih = revoke_username_exact username sid entries revoked (omega arith) in
          rw (stays) (ground (arith, ih.0), ground (arith, ih.1), ground (arith, ih.2))
    ]
