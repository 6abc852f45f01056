-- ===== src/KnownHosts/History.antt =====
-- server/services/known-hosts.ts: the challenges that may still be answered, by the history of a
-- process alone.
use bored_manager.Base.{
  ℕ, ◌≤◌, ◌≡◌, refl, String, Option, none, some, Bool, true, List, [], ◌∷◌, ◌==◌, string_key, ◌&&◌,
  ltb, length, keep, if◌then◌else◌, is_some, inl, inr, arith, eq_iff, All, All-keep, Option-cases,
  Bool-cases,
}
use bored_manager.Base.Dict
use bored_manager.Base.Dict.{Dict, equal_refl, length-insert, length-erase, All-get}
use bored_manager.Base.Dict.Distinct.{
  IsDistinct, drop_oldest, length-drop_oldest, keep-IsDistinct, drop_oldest-IsDistinct,
  erase-IsDistinct, insert-IsDistinct, All-absent, All-erase_others, All-insert_others,
  All-drop_oldest,
}
use bored_manager.KnownHosts.{
  Kind, Challenge, Confirmation, Keeper, max_pending_challenges, prune_challenges, Verdict,
  accepted, invalid_fingerprint, invalid_host, challenged, Match, matches, refused, throws, host_id,
  fingerprint_value, issue_challenge, confirmation_matches, forget, check_host_key, answer_match,
  check_valid, same_key, changed, unknown,
}

-- A view of the challenges that a token may still answer.
abbrev pub View : Type 0
View = String → Option Challenge

abbrev pub without : Option Confirmation → View → View
without none f t = f t
without (some c) f t = if c.token == t then none else f t

abbrev pub with_challenge : Challenge → View → View
with_challenge ch f t = if ch.token == t then some ch else f t

abbrev pub Shows : View → String × Challenge → Type 0
Shows f e = f e.0 ≡ some e.1

pub record IsShown (f : View) (pending : Dict String Challenge) : Type 0 where
  pub bounded : length pending ≤ max_pending_challenges
  pub distinct : IsDistinct pending
  pub shown : All (Shows f) pending

module _ (trim lower : String → String) (print_port : ℕ → String) where
  forget-IsShown :
      (c : Option Confirmation) (f : View) (pending : Dict String Challenge)
      → IsShown f pending
      → IsShown (without c f) (forget trim lower print_port c pending)
  forget-IsShown none f pending s = s
  forget-IsShown (some c) f pending s = record {
    bounded = omega (arith, length-erase c.token pending, s.bounded);
    distinct = erase-IsDistinct c.token pending s.distinct;
    shown =
        All-erase_others (Shows f) (Shows (without (some c) f)) c.token pending
          (λ j w other h. ground (arith, eq_iff c.token j)) s.shown;
  }

  matches-IsShown :
      (id fingerprint : String) (c : Option Confirmation) (now : ℕ) (f : View)
      (pending : Dict String Challenge)
      → IsShown f pending
      → IsShown
          (without c f)
          (confirmation_matches trim lower print_port id fingerprint c now pending).0
  unfolding confirmation_matches
  matches-IsShown id fingerprint none now f pending s = s
  matches-IsShown id fingerprint (some c) now f pending s =
      elim (Option-cases (Dict.get c.token pending)) [
        | inl q ↦
            rw (confirmation_matches, q)
              (record {
                bounded = s.bounded;
                distinct = s.distinct;
                shown =
                    All-absent (Shows f) (Shows (without (some c) f)) c.token pending q
                      (λ j w other h. ground (arith, eq_iff c.token j)) s.shown;
              })
        | inr (ch, q) ↦ rw (confirmation_matches, q) (forget-IsShown (some c) f pending s)
      ]

  issue-IsShown :
      (kind : Kind) (host : String) (port : ℕ) (id fingerprint token : String) (now : ℕ)
      (k : Keeper) (f : View)
      → IsShown f k.pending
      → let r = issue_challenge trim lower print_port kind host port id fingerprint token now k in
        IsShown (with_challenge r.1 f) r.0.pending
  unfolding issue_challenge prune_challenges
  issue-IsShown kind host port id fingerprint token now k f s =
      let fresh = (λ (e : String × Challenge). ltb now e.1.expires_at) in
      let kept = keep fresh k.pending in
      let left = drop_oldest max_pending_challenges kept in
      let d =
        drop_oldest-IsDistinct max_pending_challenges kept
          (keep-IsDistinct fresh k.pending s.distinct) in
      let r = issue_challenge trim lower print_port kind host port id fingerprint token now k in
      record {
        bounded = omega (
          arith,
          length-insert token r.1 left,
          length-drop_oldest max_pending_challenges kept (omega arith),
        );
        distinct = insert-IsDistinct token r.1 left d;
        shown =
            All-insert_others (Shows f) (Shows (with_challenge r.1 f)) token r.1 left d
              (rw (equal_refl token) refl) (λ j w other h. ground (arith, eq_iff token j))
              (All-drop_oldest (Shows f) (Shows f) max_pending_challenges kept
                (All-keep (Shows f) fresh k.pending s.shown));
      }

  -- The check of one key: the peer, the key it showed, the confirmation that came with it, the
  -- token that a challenge would get, and the time.
  pub record Peer : Type 0 where
    pub host : String
    pub port : ℕ
    pub fingerprint : String
    pub confirmation : Option Confirmation
    pub token : String
    pub now : ℕ

  abbrev pub check : Peer → Keeper → Keeper × Verdict
  check p =
      check_host_key trim lower print_port p.host p.port p.fingerprint p.confirmation p.token p.now

  abbrev pub viewed : Bool → Option Confirmation → Verdict → View → View
  viewed read c accepted f = without c f
  viewed read c invalid_fingerprint f = if read then without c f else f
  viewed read c invalid_host f = f
  viewed read c (challenged ch) f = with_challenge ch (without c f)

  -- A process that starts with stored hosts, and what was asked of it, the newest first.
  abbrev pub keeper : Dict String String → List Peer → Keeper
  keeper hosts [] = record { hosts = hosts; pending = [] }
  keeper hosts (p ∷ before) = (check p (keeper hosts before)).0

  abbrev pub is_read : Peer → Bool
  is_read p =
      is_some (fingerprint_value trim lower print_port p.fingerprint)
      && is_some (host_id trim lower print_port p.host p.port)

  -- The challenge that a token may answer, by what was thrown and submitted alone: the last one
  -- thrown with that token, unless the token was submitted since.
  abbrev pub offered : Dict String String → List Peer → View
  offered hosts [] = λ t. none
  offered hosts (p ∷ before) =
      viewed (is_read p) p.confirmation (check p (keeper hosts before)).1 (offered hosts before)

  abbrev pub timed : ℕ → Verdict → (String → ℕ) → String → ℕ
  timed now (challenged ch) f t = if ch.token == t then now else f t
  timed now _ f t = f t

  -- When the challenge that a token may answer was thrown: the time of the last check that threw
  -- one with that token.
  abbrev pub thrown_at : Dict String String → List Peer → String → ℕ
  thrown_at hosts [] = λ t. 0
  thrown_at hosts (p ∷ before) =
      timed p.now (check p (keeper hosts before)).1 (thrown_at hosts before)

  answer-IsShown :
      (m : Match) (kind : Kind) (p : Peer) (id fingerprint : String) (f : View) (k : Keeper)
      → IsShown (without p.confirmation f) k.pending
      → let r =
          answer_match trim lower print_port m kind p.host p.port id fingerprint p.token p.now k in
        IsShown (viewed true p.confirmation r.1 f) r.0.pending
  unfolding answer_match
  answer-IsShown matches kind p id fingerprint f k s = record {
    bounded = s.bounded;
    distinct = s.distinct;
    shown = s.shown;
  }
  answer-IsShown refused kind p id fingerprint f k s =
      issue-IsShown kind p.host p.port id fingerprint p.token p.now k (without p.confirmation f) s
  answer-IsShown throws kind p id fingerprint f k s = s

  valid-IsShown :
      (p : Peer) (id fingerprint : String) (f : View) (k : Keeper)
      → IsShown f k.pending
      → let r =
          check_valid trim lower print_port p.host p.port id fingerprint p.confirmation p.token
            p.now k in
        IsShown (viewed true p.confirmation r.1 f) r.0.pending
  unfolding check_valid
  valid-IsShown p id fingerprint f k s =
      let m =
        confirmation_matches trim lower print_port id fingerprint p.confirmation p.now k.pending in
      let kind = if is_some (Dict.get id k.hosts) then changed else unknown in
      elim (Bool-cases (same_key trim lower print_port (Dict.get id k.hosts) fingerprint)) [
        | inl e ↦ rw (check_valid, e) (forget-IsShown p.confirmation f k.pending s)
        | inr e ↦
            rw (check_valid, e)
              (answer-IsShown m.1 kind p id fingerprint f (record k { pending = m.0 })
                (matches-IsShown id fingerprint p.confirmation p.now f k.pending s))
      ]

  check-IsShown :
      (p : Peer) (f : View) (k : Keeper)
      → IsShown f k.pending
      → IsShown (viewed (is_read p) p.confirmation (check p k).1 f) (check p k).0.pending
  unfolding check_host_key
  check-IsShown p f k s =
      elim (Option-cases (fingerprint_value trim lower print_port p.fingerprint)) [
        | inl e ↦ rw (check_host_key, e) s
        | inr (fp, e) ↦ elim (Option-cases (host_id trim lower print_port p.host p.port)) [
          | inl g ↦ rw (check_host_key, e, g) s
          | inr (id, g) ↦ rw (check_host_key, e, g) (valid-IsShown p id fp f k s)
        ]
      ]

  pub keeper-IsShown :
      (hosts : Dict String String) (life : List Peer)
      → IsShown (offered hosts life) (keeper hosts life).pending
  keeper-IsShown hosts [] = record { bounded = omega arith; distinct = tt; shown = tt }
  keeper-IsShown hosts (p ∷ before) =
      check-IsShown p (offered hosts before) (keeper hosts before) (keeper-IsShown hosts before)

  -- At no time do more than 256 challenges wait.
  pub keeper-bounded :
      (hosts : Dict String String) (life : List Peer)
      → length (keeper hosts life).pending ≤ max_pending_challenges
  keeper-bounded hosts life = (keeper-IsShown hosts life).bounded
