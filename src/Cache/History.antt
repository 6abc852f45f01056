-- ===== src/Cache/History.antt =====
-- shared/cache.ts against the history of its calls: what is stored, and which requests load.
use bored_manager.Base.{
  ℕ, ◌+◌, String, Option, none, some, Bool, true, false, List, [], ◌∷◌, ◌==◌, string_key, nat_key,
  ltb, not, ◌&&◌, ◌||◌, if◌then◌else◌, is_none,
}
use bored_manager.Base.Dict
use bored_manager.Base.Dict.{Dict, get-insert, get-erase, get-insert_self}
use bored_manager.Cache
use bored_manager.Cache.{
  Cache, Stored, Loading, create_ttl_cache, Answer, cached, request, loaded, failed, finish, clear,
  revision_of, is_fresh, is_current, join_or_load, same_request, close,
}

-- What happens to a cache: `get` is called; a request's `load` resolves, with the duration of
-- `ttl()` and the time; it rejects; its `finally` runs; `clear` is called.
pub data Happening (T : Type 0) : Type 0 where
  asked : String → ℕ → Happening T
  resolved : ℕ → T → ℕ → ℕ → Happening T
  rejected : ℕ → Happening T
  finished : ℕ → Happening T
  cleared : Option String → Happening T

abbrev pub covers : Option String → String → Bool
covers none key = true
covers (some k) key = k == key

module _ {T : Type 0} where
  unfoldable pub step : Happening T → Cache T → Cache T
  unfolding Cache.get loaded failed finish clear
  step (asked key now) c = (Cache.get key now c).0
  step (resolved id value duration now) c = loaded id value duration now c
  step (rejected id) c = failed id c
  step (finished id) c = finish id c
  step (cleared key) c = clear key c

  -- The newest happening comes first.
  unfoldable pub cache_after : List (Happening T) → Cache T
  unfolding step
  cache_after [] = create_ttl_cache
  cache_after (e ∷ before) = step e (cache_after before)

  -- By the history: what is stored for a key, and whether a request loads for it that no `clear`
  -- has overtaken. A value is stored when such a request resolves with a positive duration; it
  -- goes with a `clear` of its key, or when it is asked for too late.
  unfoldable pub starts : ℕ → String → List (Happening T) → Bool
  starts id key before =
      is_none (Dict.get key (cache_after before).pending) && (cache_after before).requests == id

  unfoldable mutual
    unfolding starts

    pub stored : String → List (Happening T) → Option (Stored T)
    stored key [] = none
    stored key (resolved id value duration now ∷ before) =
        let older = stored key before in
        if ltb 0 duration && is_live id key before
        then some (record { value = value; expires_at = now + duration })
        else older
    stored key (cleared k ∷ before) =
        let older = stored key before in if covers k key then none else older
    stored key (asked k now ∷ before) =
        let older = stored key before in
        if k == key && not (is_fresh now older) then none else older
    stored key (_ ∷ before) = stored key before

    pub is_live : ℕ → String → List (Happening T) → Bool
    is_live id key [] = false
    is_live id key (asked k now ∷ before) =
        let older = is_live id key before in
        older || k == key && not (is_fresh now (stored key before)) && starts id key before
    is_live id key (resolved i value duration now ∷ before) =
        let older = is_live id key before in not (i == id) && older
    is_live id key (rejected i ∷ before) =
        let older = is_live id key before in not (i == id) && older
    is_live id key (cleared k ∷ before) =
        let older = is_live id key before in not (covers k key) && older
    is_live id key (finished i ∷ before) = is_live id key before
