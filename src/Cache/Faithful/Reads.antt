-- ===== src/Cache/Faithful/Reads.antt =====
-- shared/cache.ts: a call of `get` keeps the state what the history says, and so does every history.
use bored_manager.Base.{
  ℕ, String, none, some, false, List, [], ◌∷◌, ◌≡◌, refl, string_key, nat_key, ltb, arith,
  Bool-cases, Option-cases, eq_iff, eqb_iff, inl, inr,
}
use bored_manager.Base.Dict
use bored_manager.Base.Dict.{Dict, get-insert, get-erase, get-insert_self}
use bored_manager.Cache
use bored_manager.Cache.{
  Cache, Stored, Loading, create_ttl_cache, Answer, cached, request, loaded, failed, finish, clear,
  revision_of, is_fresh, is_current, join_or_load, same_request, close,
}
use bored_manager.Cache.History.{
  Happening, asked, resolved, rejected, finished, cleared, step, cache_after, starts, stored,
  is_live,
}
use bored_manager.Cache.Faithful.{
  IsFaithful, clear_all-IsFaithful, clear_key-IsFaithful, finished-IsFaithful, loaded-IsFaithful,
  failed-IsFaithful,
}

module _ {T : Type 0} where
  unused_request :
      (h : List (Happening T)) (c : Cache T) → IsFaithful h c → Dict.get c.requests c.loading ≡ none
  unused_request h c f = elim (Option-cases (Dict.get c.requests c.loading)) [
    | inl e ↦ e
    | inr (l, e) ↦ absurd (omega (arith, (f.known c.requests l e).0))
  ]

  -- A call of `get` that finds nothing fresh.
  join-IsFaithful :
      (h : List (Happening T)) (k : String) (now : ℕ) (values : Dict String (Stored T))
      → is_fresh now (stored k h) ≡ false
      → ((key : String) → Dict.get key values ≡ stored key (asked k now ∷ h))
      → IsFaithful h (cache_after h)
      → IsFaithful (asked k now ∷ h) (join_or_load k (record (cache_after h) { values = values })).0
  unfolding is_live stored starts
  join-IsFaithful h k now values stale kept f =
      let c : Cache T = cache_after h in
      elim (Option-cases (Dict.get k c.pending)) [
        | inr (i, e) ↦
            rw (e, join_or_load)
              (record {
                live = λ id key. ground (arith, f.live id key, e, eq_iff k key);
                kept = kept;
                known = f.known;
                shared = f.shared;
                closed = f.closed;
              })
        | inl e ↦
            let l : Loading = record {
              key = k;
              global = c.global_revision;
              revision = revision_of k c;
            } in
            rw (e, join_or_load)
              (record {
                live = λ id key. ground (
                  arith,
                  f.live id key,
                  e,
                  eq_iff k key,
                  eqb_iff c.requests id,
                  stale,
                  get-insert c.requests id l c.loading,
                  unused_request h c f,
                );
                kept = kept;
                known = λ id m d. ground (
                  arith,
                  f.known id m,
                  d,
                  eqb_iff c.requests id,
                  get-insert c.requests id l c.loading,
                );
                shared = λ id key m. ground (
                  arith,
                  f.shared id key,
                  m,
                  e,
                  eq_iff k key,
                  eqb_iff c.requests id,
                  get-insert c.requests id l c.loading,
                  get-insert k key c.requests c.pending,
                );
                closed = λ id key d. ground (
                  arith,
                  f.closed id key,
                  d,
                  eqb_iff c.requests id,
                  get-insert c.requests id l c.loading,
                );
              })
      ]

  asked-IsFaithful :
      (h : List (Happening T)) (k : String) (now : ℕ)
      → IsFaithful h (cache_after h)
      → IsFaithful (asked k now ∷ h) (Cache.get k now (cache_after h)).0
  unfolding Cache.get is_live stored
  asked-IsFaithful h k now f =
      let c : Cache T = cache_after h in
      elim (Option-cases (Dict.get k c.values)) [
        | inl e ↦
            rw (e, Cache.get)
              (join-IsFaithful h k now c.values (ground (arith, f.kept k, e))
                (λ key. ground (arith, f.kept key, e, eq_iff k key)) f)
        | inr (s, e) ↦ elim (Bool-cases (ltb now s.expires_at)) [
          | inl fresh ↦
              rw (e, Cache.get, fresh)
                (record {
                  live = λ id key. ground (arith, f.live id key, f.kept k, e, fresh, eq_iff k key);
                  kept = λ key. ground (arith, f.kept key, e, fresh, eq_iff k key);
                  known = f.known;
                  shared = f.shared;
                  closed = f.closed;
                })
          | inr late ↦
              rw (e, Cache.get, late)
                (join-IsFaithful h k now (Dict.erase k c.values) (ground (arith, f.kept k, e, late))
                  (λ key.
                    ground (arith, f.kept key, e, late, eq_iff k key, get-erase k key c.values))
                  f)
        ]
      ]

  pub cache_after-IsFaithful : (h : List (Happening T)) → IsFaithful h (cache_after h)
  unfolding cache_after step is_live stored Dict.get
  cache_after-IsFaithful [] = record {
    live = λ id key. refl;
    kept = λ key. refl;
    known = λ id l e. absurd cc;
    shared = λ id key m. absurd cc;
    closed = λ id key e. absurd cc;
  }
  cache_after-IsFaithful (asked k now ∷ h) = asked-IsFaithful h k now (cache_after-IsFaithful h)
  cache_after-IsFaithful (resolved i value duration now ∷ h) =
      loaded-IsFaithful h i value duration now (cache_after h) (cache_after-IsFaithful h)
  cache_after-IsFaithful (rejected i ∷ h) =
      failed-IsFaithful h i (cache_after h) (cache_after-IsFaithful h)
  cache_after-IsFaithful (finished i ∷ h) =
      finished-IsFaithful h i (cache_after h) (cache_after-IsFaithful h)
  cache_after-IsFaithful (cleared none ∷ h) =
      clear_all-IsFaithful h (cache_after h) (cache_after-IsFaithful h)
  cache_after-IsFaithful (cleared (some k) ∷ h) =
      clear_key-IsFaithful h k (cache_after h) (cache_after-IsFaithful h)
