-- ===== src/KnownHosts/Accepted.antt =====
-- server/services/known-hosts.ts: which host keys a process comes to accept.
use bored_manager.Base.{
  ℕ, ◌+◌, ◌<◌, ◌≡◌, ◌∙◌, ap, sym, refl, String, Option, none, some, true, false, List, string_key,
  if◌then◌else◌, is_some, ◌⊎◌, inl, inr, arith, eq_iff, Option-cases, Bool-cases,
}
use bored_manager.Base.Dict
use bored_manager.Base.Dict.{Dict, equal_refl, length-insert, length-erase, All-get}
use bored_manager.KnownHosts.{
  Kind, Challenge, Confirmation, Keeper, accepted, Match, matches, refused, throws, host_id,
  fingerprint_value, confirmation_matches, check_host_key, answer_match, check_valid, same_key,
  changed, unknown,
}
use bored_manager.KnownHosts.History.{
  View, Shows, IsShown, Peer, check, keeper, offered, thrown_at, keeper-IsShown,
}
use bored_manager.KnownHosts.Expiry.{offered-expires}

module _ (trim lower : String → String) (print_port : ℕ → String) where
  confirmation_matches-only :
      (id fingerprint : String) (c : Option Confirmation) (now : ℕ) (f : View)
      (pending : Dict String Challenge)
      → IsShown f pending
      → (confirmation_matches trim lower print_port id fingerprint c now pending).1 ≡ matches
      → (d : Confirmation) × (ch : Challenge) × (c ≡ some d)
        × (f d.token ≡ some ch)
        × (ch.host_id ≡ id)
        × (ch.fingerprint ≡ fingerprint)
        × (now < ch.expires_at)
  unfolding confirmation_matches
  confirmation_matches-only id fingerprint none now f pending s q = absurd (ground arith)
  confirmation_matches-only id fingerprint (some d) now f pending s q =
      elim (Option-cases (Dict.get d.token pending)) [
        | inl e ↦ absurd (ground arith)
        | inr (ch, e) ↦ (
          d,
          ch,
          refl,
          All-get (Shows f) d.token pending s.shown e,
          ground (arith, eq_iff ch.host_id id),
          ground (arith, eq_iff ch.fingerprint fingerprint),
          ground arith,
        )
      ]

  answer-accepted :
      (m : Match) (kind : Kind) (p : Peer trim lower print_port) (id fingerprint : String)
      (k : Keeper)
      → (answer_match trim lower print_port m kind p.host p.port id fingerprint p.token p.now k).1
        ≡ accepted
      → m ≡ matches
  unfolding answer_match
  answer-accepted matches kind p id fingerprint k q = refl
  answer-accepted refused kind p id fingerprint k q = absurd (ground arith)
  answer-accepted throws kind p id fingerprint k q = absurd (ground arith)

  same_key-stored :
      (stored : Option String) (key : String)
      → same_key trim lower print_port stored key ≡ true
      → stored ≡ some key
  same_key-stored none key q = absurd (ground arith)
  same_key-stored (some old) key q = ap some ((eq_iff old key).0 q)

  check-valid :
      (p : Peer trim lower print_port) (id key : String) (k : Keeper)
      → fingerprint_value trim lower print_port p.fingerprint ≡ some key
      → host_id trim lower print_port p.host p.port ≡ some id
      → check trim lower print_port p k
        ≡ check_valid trim lower print_port p.host p.port id key p.confirmation p.token p.now k
  unfolding check_host_key
  check-valid p id key k e g = rw (check_host_key, e, g) refl

  valid-answered :
      (p : Peer trim lower print_port) (id key : String) (k : Keeper)
      → same_key trim lower print_port (Dict.get id k.hosts) key ≡ false
      → let m = confirmation_matches trim lower print_port id key p.confirmation p.now k.pending in
        let kind = if is_some (Dict.get id k.hosts) then changed else unknown in
        (answer_match trim lower print_port m.1 kind p.host p.port id key p.token p.now
          (record k { pending = m.0 })).1
        ≡ (check_valid trim lower print_port p.host p.port id key p.confirmation p.token p.now k).1
  unfolding check_valid
  valid-answered p id key k other = rw (check_valid, other) refl

  -- A host key is accepted, whatever was asked before, only if it is the one that is stored for the
  -- host and port, or if a confirmation came with it that names a challenge which this process threw
  -- for that host and port and that key, which was thrown less than a minute ago, and which no
  -- confirmation named since.
  pub accepted_only_confirmed :
      (hosts : Dict String String) (life : List (Peer trim lower print_port))
      (p : Peer trim lower print_port) (id key : String)
      → fingerprint_value trim lower print_port p.fingerprint ≡ some key
      → host_id trim lower print_port p.host p.port ≡ some id
      → (check trim lower print_port p (keeper trim lower print_port hosts life)).1 ≡ accepted
      → (Dict.get id (keeper trim lower print_port hosts life).hosts ≡ some key)
        ⊎ ((c : Confirmation) × (ch : Challenge) × (p.confirmation ≡ some c)
            × (offered trim lower print_port hosts life c.token ≡ some ch)
            × (ch.host_id ≡ id)
            × (ch.fingerprint ≡ key)
            × (p.now < thrown_at trim lower print_port hosts life c.token + 60000))
  unfolding check_host_key check_valid
  accepted_only_confirmed hosts life p id key e g a =
      let k = keeper trim lower print_port hosts life in
      let m = confirmation_matches trim lower print_port id key p.confirmation p.now k.pending in
      let kind = if is_some (Dict.get id k.hosts) then changed else unknown in
      let v : (check_valid trim lower print_port p.host p.port id key p.confirmation p.token p.now
            k).1
          ≡ accepted =
        sym (ap (λ r. r.1) (check-valid p id key k e g)) ∙ a in
      elim (Bool-cases (same_key trim lower print_port (Dict.get id k.hosts) key)) [
        | inl same ↦ inl (same_key-stored (Dict.get id k.hosts) key same)
        | inr other ↦
            let (c, ch, given, live, host, shown, soon) =
              confirmation_matches-only id key p.confirmation p.now
                (offered trim lower print_port hosts life) k.pending
                (keeper-IsShown trim lower print_port hosts life)
                (answer-accepted m.1 kind p id key (record k { pending = m.0 })
                  (valid-answered p id key k other ∙ v)) in
            let until = offered-expires trim lower print_port hosts life c.token ch live in
            inr (c, ch, given, live, host, shown, omega (arith, soon, until))
      ]
