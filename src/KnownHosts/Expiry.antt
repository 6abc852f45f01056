-- ===== src/KnownHosts/Expiry.antt =====
-- server/services/known-hosts.ts: when a challenge expires.
use bored_manager.Base.{
  ℕ, ◌+◌, ◌≡◌, ◌∙◌, ap, sym, refl, String, Option, none, some, Bool, true, false, List, [], ◌∷◌,
  ◌==◌, string_key, if◌then◌else◌, is_some, inl, inr, arith, or_else, Option-cases, Bool-cases,
}
use bored_manager.Base.Dict
use bored_manager.Base.Dict.{Dict, equal_refl, length-insert, length-erase, All-get}
use bored_manager.KnownHosts.{
  Kind, Challenge, Confirmation, Keeper, Verdict, accepted, invalid_fingerprint, invalid_host,
  challenged, Match, matches, refused, throws, host_id, fingerprint_value, issue_challenge,
  confirmation_matches, check_host_key, answer_match, check_valid, same_key, changed, unknown,
}
use bored_manager.KnownHosts.History.{
  View, without, Peer, check, viewed, timed, is_read, keeper, offered, thrown_at,
}

module _ (trim lower : String → String) (print_port : ℕ → String) where
  -- A challenge that is thrown expires a minute later.
  abbrev Expires : ℕ → Verdict → Type 0
  Expires now (challenged ch) = ch.expires_at ≡ now + 60000
  Expires now _ = Unit

  answer-Expires :
      (m : Match) (kind : Kind) (p : Peer trim lower print_port) (id fingerprint : String)
      (k : Keeper)
      → Expires p.now
          (answer_match trim lower print_port m kind p.host p.port id fingerprint p.token p.now k).1
  unfolding answer_match issue_challenge
  answer-Expires matches kind p id fingerprint k = tt
  answer-Expires refused kind p id fingerprint k = refl
  answer-Expires throws kind p id fingerprint k = tt

  valid-Expires :
      (p : Peer trim lower print_port) (id key : String) (k : Keeper)
      → Expires p.now
          (check_valid trim lower print_port p.host p.port id key p.confirmation p.token p.now k).1
  unfolding check_valid
  valid-Expires p id key k =
      let m = confirmation_matches trim lower print_port id key p.confirmation p.now k.pending in
      let kind = if is_some (Dict.get id k.hosts) then changed else unknown in
      elim (Bool-cases (same_key trim lower print_port (Dict.get id k.hosts) key)) [
        | inl e ↦ rw (check_valid, e) tt
        | inr e ↦
            rw (check_valid, e) (answer-Expires m.1 kind p id key (record k { pending = m.0 }))
      ]

  check-Expires :
      (p : Peer trim lower print_port) (k : Keeper)
      → Expires p.now (check trim lower print_port p k).1
  unfolding check_host_key
  check-Expires p k = elim (Option-cases (fingerprint_value trim lower print_port p.fingerprint)) [
    | inl e ↦ rw (check_host_key, e) tt
    | inr (key, e) ↦ elim (Option-cases (host_id trim lower print_port p.host p.port)) [
      | inl g ↦ rw (check_host_key, e, g) tt
      | inr (id, g) ↦ rw (check_host_key, e, g) (valid-Expires p id key k)
    ]
  ]

  without-some :
      (c : Option Confirmation) (f : View) (t : String) (ch : Challenge)
      → without c f t ≡ some ch
      → f t ≡ some ch
  without-some none f t ch q = q
  without-some (some c) f t ch q = ground arith

  viewed-Expires :
      (read : Bool) (c : Option Confirmation) (now : ℕ) (v : Verdict) (f : View) (g : String → ℕ)
      (t : String) (ch : Challenge)
      → Expires now v
      → ((old : Challenge) → f t ≡ some old → old.expires_at ≡ g t + 60000)
      → viewed trim lower print_port read c v f t ≡ some ch
      → ch.expires_at ≡ timed trim lower print_port now v g t + 60000
  viewed-Expires read c now accepted f g t ch x h q = h ch (without-some c f t ch q)
  viewed-Expires true c now invalid_fingerprint f g t ch x h q = h ch (without-some c f t ch q)
  viewed-Expires false c now invalid_fingerprint f g t ch x h q = h ch q
  viewed-Expires read c now invalid_host f g t ch x h q = h ch q
  viewed-Expires read c now (challenged new) f g t ch x h q = elim (Bool-cases (new.token == t)) [
    | inl same ↦ rw same (ap (λ o. (or_else o new).expires_at) (sym q) ∙ rw same x)
    | inr other ↦ rw other (h ch (without-some c f t ch (ground arith)))
  ]

  pub offered-expires :
      (hosts : Dict String String) (life : List (Peer trim lower print_port)) (t : String)
      (ch : Challenge)
      → offered trim lower print_port hosts life t ≡ some ch
      → ch.expires_at ≡ thrown_at trim lower print_port hosts life t + 60000
  offered-expires hosts [] t ch q = cc
  offered-expires hosts (p ∷ before) t ch q =
      viewed-Expires (is_read trim lower print_port p) p.confirmation p.now
        (check trim lower print_port p (keeper trim lower print_port hosts before)).1
        (offered trim lower print_port hosts before) (thrown_at trim lower print_port hosts before)
        t ch (check-Expires p (keeper trim lower print_port hosts before))
        (λ old. offered-expires hosts before t old) q
