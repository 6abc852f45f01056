-- ===== src/Cache/Answers.antt =====
-- shared/cache.ts: what the callers of `get` receive, and what `clear` makes sure of.
use bored_manager.Base.{
  ℕ, ◌≤◌, ◌<◌, String, Option, none, some, true, false, List, [], ◌∷◌, ◌++◌, ◌≡◌, refl, string_key,
  nat_key, ltb, if◌then◌else◌, arith, Option-cases, inl, inr,
}
use bored_manager.Base.Dict
use bored_manager.Base.Dict.{Dict}
use bored_manager.Cache
use bored_manager.Cache.{
  Cache, Stored, Loading, Answer, cached, request, loaded, failed, finish, clear, close, is_fresh,
  join_or_load,
}
use bored_manager.Cache.History.{
  Happening, asked, resolved, rejected, finished, cleared, step, cache_after, covers, starts,
  stored, is_live,
}
use bored_manager.Cache.Faithful.Reads.{cache_after-IsFaithful}

module _ {T : Type 0} where
  abbrev pub cached_value : Answer T → Option T
  cached_value (cached v) = some v
  cached_value (request id) = none

  abbrev pub fresh_value : ℕ → Option (Stored T) → Option T
  fresh_value now none = none
  fresh_value now (some s) = if ltb now s.expires_at then some s.value else none

  join-cached_value : (k : String) (c : Cache T) → cached_value (join_or_load k c).1 ≡ none
  join-cached_value k c = elim (Option-cases (Dict.get k c.pending)) [
    | inl e ↦ rw (e, join_or_load) refl
    | inr (i, e) ↦ rw (e, join_or_load) refl
  ]

  -- After any history `get` answers at once exactly when, by the history's account, a value is
  -- stored for the key that has not expired, and then with that value.
  pub get-stored :
      (h : List (Happening T)) (key : String) (now : ℕ)
      → cached_value (Cache.get key now (cache_after h)).1 ≡ fresh_value now (stored key h)
  unfolding Cache.get
  get-stored h key now =
      let c : Cache T = cache_after h in
      let kept = (cache_after-IsFaithful h).kept key in
      elim (Option-cases (Dict.get key c.values)) [
        | inl e ↦ rw (e, Cache.get) (ground (arith, join-cached_value key c, kept, e))
        | inr (s, e) ↦
            rw (e, Cache.get)
              (ground (
                arith,
                join-cached_value key (record c { values = Dict.erase key c.values }),
                kept,
                e,
              ))
      ]

  join-shared :
      (id : ℕ) (k : String) (c : Cache T)
      → Dict.get k c.pending ≡ some id
      → (join_or_load k c).1 ≡ request id
  join-shared id k c e = rw (e, join_or_load) refl

  -- After any history, while a request for the key loads that no `clear` has overtaken, a call of
  -- `get` that finds no fresh value is given that request's promise and starts none: concurrent
  -- callers share one request.
  pub get-shares :
      (h : List (Happening T)) (id : ℕ) (key : String) (now : ℕ)
      → is_live id key h ≡ true
      → is_fresh now (stored key h) ≡ false
      → let r = Cache.get key now (cache_after h) in
        (r.1 ≡ request id) × (r.0.requests ≡ (cache_after h).requests)
  unfolding Cache.get
  get-shares h id key now live stale =
      let c : Cache T = cache_after h in
      let f = cache_after-IsFaithful h in
      let waits = f.shared id key (ground (arith, f.live id key, live)) in
      elim (Option-cases (Dict.get key c.values)) [
        | inl e ↦ rw (e, Cache.get, waits, join_or_load) (refl, refl)
        | inr (s, e) ↦
            let late : ltb now s.expires_at ≡ false = ground (arith, f.kept key, e, stale) in
            rw (e, Cache.get, late, waits, join_or_load) (refl, refl)
      ]

  requests-join : (k : String) (c : Cache T) → c.requests ≤ (join_or_load k c).0.requests
  requests-join k c = elim (Option-cases (Dict.get k c.pending)) [
    | inl e ↦ rw (e, join_or_load) (omega arith)
    | inr (i, e) ↦ rw (e, join_or_load) (omega arith)
  ]

  requests-step : (e : Happening T) (c : Cache T) → c.requests ≤ (step e c).requests
  unfolding step Cache.get loaded failed finish clear
  requests-step (asked key now) c = elim (Option-cases (Dict.get key c.values)) [
    | inl e ↦ rw (step, e, Cache.get) (requests-join key c)
    | inr (s, e) ↦
        rw (step, e, Cache.get)
          (ground (arith, requests-join key (record c { values = Dict.erase key c.values })))
  ]
  requests-step (resolved id value duration now) c = elim (Option-cases (Dict.get id c.loading)) [
    | inl e ↦ rw (step, e, loaded) (omega arith)
    | inr (l, e) ↦ rw (step, e, loaded) (ground arith)
  ]
  requests-step (rejected id) c = elim (Option-cases (Dict.get id c.loading)) [
    | inl e ↦ rw (step, e, failed) (omega arith)
    | inr (l, e) ↦ rw (step, e, failed) (omega arith)
  ]
  requests-step (finished id) c = elim (Option-cases (Dict.get id c.closing)) [
    | inl e ↦ rw (step, e, finish) (omega arith)
    | inr (k, e) ↦ rw (step, e, finish) (omega arith)
  ]
  requests-step (cleared none) c = omega arith
  requests-step (cleared (some k)) c = omega arith

  requests-append :
      (more h : List (Happening T)) → (cache_after h).requests ≤ (cache_after (more ++ h)).requests
  unfolding cache_after
  requests-append [] h = omega arith
  requests-append (e ∷ more) h =
      omega (arith, requests-append more h, requests-step e (cache_after (more ++ h)))

  overtaken-dead :
      (more h : List (Happening T)) (k : Option String) (id : ℕ) (key : String)
      → covers k key ≡ true
      → id < (cache_after h).requests
      → is_live id key (more ++ (cleared k ∷ h)) ≡ false
  unfolding is_live starts
  overtaken-dead [] h k id key c old = rw c refl
  overtaken-dead (asked j now ∷ more) h k id key c old = ground (
    arith,
    overtaken-dead more h k id key c old,
    requests-append more (cleared k ∷ h),
    requests-append (cleared k ∷ []) h,
  )
  overtaken-dead (resolved i value duration now ∷ more) h k id key c old =
      ground (arith, overtaken-dead more h k id key c old)
  overtaken-dead (rejected i ∷ more) h k id key c old =
      ground (arith, overtaken-dead more h k id key c old)
  overtaken-dead (cleared j ∷ more) h k id key c old =
      ground (arith, overtaken-dead more h k id key c old)
  overtaken-dead (finished i ∷ more) h k id key c old = overtaken-dead more h k id key c old

  -- A request made before a `clear` that covers a key never stores anything for that key, whatever
  -- has happened between the `clear` and the moment its `load` resolves.
  pub overtaken_load_unstored :
      (more h : List (Happening T)) (k : Option String) (id : ℕ) (key : String) (value : T)
      (duration now : ℕ)
      → covers k key ≡ true
      → id < (cache_after h).requests
      → let c = cache_after (more ++ (cleared k ∷ h)) in
        Dict.get key (loaded id value duration now c).values ≡ Dict.get key c.values
  unfolding stored cache_after step
  overtaken_load_unstored more h k id key value duration now c old =
      let all = more ++ (cleared k ∷ h) in
      ground (
        arith,
        overtaken-dead more h k id key c old,
        (cache_after-IsFaithful (resolved id value duration now ∷ all)).kept key,
        (cache_after-IsFaithful all).kept key,
      )
