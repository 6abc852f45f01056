-- ===== src/Check/Spent.antt =====
-- shared/check.ts: what a session answers, compared with the history of what was asked of it.
use bored_manager.Base.{
  ℕ, suc, ◌+◌, ◌≤◌, ◌<◌, String, Option, none, some, List, [], ◌∷◌, ◌≡◌, refl, ap, ltb, keep, ◌==◌,
  string_key, arith, eq_iff, if◌then◌else◌, length, All, All-keep, Option-cases, inl, inr,
}
use bored_manager.Base.Dict
use bored_manager.Base.Dict.{
  Dict, equal_refl, get-insert_self, get-erase_self, length-insert, length-erase, All-get,
}
use bored_manager.Base.Dict.Distinct.{
  IsDistinct, length-drop_oldest, keep-IsDistinct, drop_oldest-IsDistinct, erase-IsDistinct,
  insert-IsDistinct, All-erase_others, All-insert_others, All-drop_oldest, All-absent, drop_oldest,
}
use bored_manager.Json.{Json}
use bored_manager.Check
use bored_manager.Check.{
  CheckSession, Issued, sweep, issue, create_session, token_text, token_ttl_ms, max_outstanding,
}

-- What a module asks of its session, the newest first; an issue with its time, its random text,
-- the values and what the check resolved.
pub data Asked (T : Type 0) : Type 0 where
  issued : ℕ → String → Json → T → Asked T
  taken : ℕ → String → Json → Asked T
  cleared : Asked T

module _ {T : Type 0} (print36 : ℕ → String) (canon : Json → String) where
  abbrev pub asked : Asked T → CheckSession T → CheckSession T
  asked (issued now random values payload) s = (issue print36 canon now random values payload s).0
  asked (taken now token values) s = (Check.take print36 canon now token values s).0
  asked cleared s = Check.clear s

  abbrev pub session_after : List (Asked T) → CheckSession T
  session_after [] = create_session
  session_after (a ∷ before) = asked a (session_after before)

  -- The tokens that the history has handed out.
  abbrev pub issues : List (Asked T) → ℕ
  issues [] = 0
  issues (issued now random values payload ∷ before) = suc (issues before)
  issues (_ ∷ before) = issues before

  -- What a token stands for by the history alone: what its last issue said, unless the token was
  -- taken or everything cleared since.
  abbrev pub stands_for : String → List (Asked T) → Option (Issued T)
  stands_for token [] = none
  stands_for token (issued now random values payload ∷ before) =
      let older = stands_for token before in
      if token_text print36 (suc (issues before)) now random == token
      then some
          (record { values = canon values; expires_at = now + token_ttl_ms; payload = payload })
      else older
  stands_for token (taken now t values ∷ before) =
      let older = stands_for token before in if t == token then none else older
  stands_for token (cleared ∷ before) = none

  abbrev Agrees : List (Asked T) → String × Issued T → Type 0
  Agrees h e = stands_for e.0 h ≡ some e.1

  abbrev IsSound : List (Asked T) → CheckSession T → Type 0
  IsSound h s =
      (s.counter ≡ issues h)
      × (length s.opened ≤ max_outstanding)
      × IsDistinct s.opened
      × All (Agrees h) s.opened

  issue-IsSound :
      (h : List (Asked T)) (s : CheckSession T) (now : ℕ) (random : String) (values : Json)
      (payload : T)
      → IsSound h s
      → IsSound
          (issued now random values payload ∷ h)
          (issue print36 canon now random values payload s).0
  unfolding issue sweep
  issue-IsSound h s now random values payload (n, size, distinct, all) =
      let token = token_text print36 (suc s.counter) now random in
      let fresh = (λ (e : String × Issued T). ltb now e.1.expires_at) in
      let kept = keep fresh s.opened in
      let swept-distinct =
        drop_oldest-IsDistinct max_outstanding kept (keep-IsDistinct fresh s.opened distinct) in
      let entry : Issued T = record {
        values = canon values;
        expires_at = now + token_ttl_ms;
        payload = payload;
      } in
      let self : Agrees (issued now random values payload ∷ h) (token, entry) =
        rw (n, equal_refl (token_text print36 (suc (issues h)) now random)) refl in
      (
        ap suc n,
        omega (
          arith,
          length-insert token entry (sweep print36 canon now s.opened),
          length-drop_oldest max_outstanding kept (omega arith),
        ),
        insert-IsDistinct token entry (drop_oldest max_outstanding kept) swept-distinct,
        All-insert_others (Agrees h) (Agrees (issued now random values payload ∷ h)) token entry
            (drop_oldest max_outstanding kept) swept-distinct self
            (λ j w other agrees.
              ground (arith, n, eq_iff (token_text print36 (suc (issues h)) now random) j))
            (All-drop_oldest (Agrees h) (Agrees h) max_outstanding kept
              (All-keep (Agrees h) fresh s.opened all)),
      )

  take-IsSound :
      (h : List (Asked T)) (s : CheckSession T) (now : ℕ) (token : String) (values : Json)
      → IsSound h s
      → IsSound (taken now token values ∷ h) (Check.take print36 canon now token values s).0
  unfolding Check.take
  take-IsSound h s now token values (n, size, distinct, all) =
      let gone =
        All-erase_others (Agrees h) (Agrees (taken now token values ∷ h)) token s.opened
          (λ j w other agrees. ground (arith, eq_iff token j)) all in
      elim (Option-cases (Dict.get token s.opened)) [
        | inl q ↦
            rw (q, Check.take)
              (
                n,
                size,
                distinct,
                All-absent (Agrees h) (Agrees (taken now token values ∷ h)) token s.opened q
                    (λ j w other agrees. ground (arith, eq_iff token j)) all,
              )
        | inr (e, q) ↦
            rw (q, Check.take)
              (
                n,
                omega (arith, length-erase token s.opened),
                erase-IsDistinct token s.opened distinct,
                gone,
              )
      ]

  session_after-IsSound : (h : List (Asked T)) → IsSound h (session_after h)
  unfolding create_session Check.clear
  session_after-IsSound [] = (refl, omega arith, tt, tt)
  session_after-IsSound (issued now random values payload ∷ h) =
      issue-IsSound h (session_after h) now random values payload (session_after-IsSound h)
  session_after-IsSound (taken now token values ∷ h) =
      take-IsSound h (session_after h) now token values (session_after-IsSound h)
  session_after-IsSound (cleared ∷ h) = ((session_after-IsSound h).0, omega arith, tt, tt)

  -- After any history a session holds at most 50 tokens, and the counter in their text has counted
  -- every issue.
  pub session_after-bounded :
      (h : List (Asked T))
      → (length (session_after h).opened ≤ max_outstanding) × ((session_after h).counter ≡ issues h)
  session_after-bounded h = let s = session_after-IsSound h in (s.1, s.0)

  -- Whatever the history, a token that is taken with success was issued for the same checked
  -- values and with the payload that is returned, less than ten minutes ago, and neither taken nor
  -- cleared since that issue.
  pub take_only_issued :
      (h : List (Asked T)) (now : ℕ) (token : String) (values : Json) (payload : T)
      → (Check.take print36 canon now token values (session_after h)).1 ≡ some payload
      → (e : Issued T) × (stands_for token h ≡ some e)
        × (e.values ≡ canon values)
        × (now < e.expires_at)
        × (e.payload ≡ payload)
  unfolding Check.take
  take_only_issued h now token values payload took =
      elim (Option-cases (Dict.get token (session_after h).opened)) [
        | inl q ↦ cc
        | inr (e, q) ↦
            let agrees =
              All-get (Agrees h) token (session_after h).opened (session_after-IsSound h).3 q in
            (e, agrees, ground (arith, eq_iff e.values (canon values)), ground arith, ground arith)
      ]

  -- A token that has just been issued and is taken with values of the same canonical text, less
  -- than ten minutes later, gives back what the check resolved, whatever the session held; taken a
  -- second time it gives nothing.
  issue-take :
      (s : CheckSession T) (now later again : ℕ) (random : String) (values same any_values : Json)
      (payload : T)
      → later < now + token_ttl_ms
      → canon same ≡ canon values
      → let r = issue print36 canon now random values payload s in
        let t = Check.take print36 canon later r.1 same r.0 in
        (t.1 ≡ some payload) × ((Check.take print36 canon again r.1 any_values t.0).1 ≡ none)
  unfolding issue Check.take
  issue-take s now later again random values same any_values payload h c =
      let token = token_text print36 (suc s.counter) now random in
      let entry : Issued T = record {
        values = canon values;
        expires_at = now + token_ttl_ms;
        payload = payload;
      } in
      let opened = sweep print36 canon now s.opened in
      rw (get-insert_self token entry opened, Check.take)
        (
          ground (arith, eq_iff (canon values) (canon same)),
          rw (get-erase_self token (Dict.insert token entry opened)) refl,
        )
