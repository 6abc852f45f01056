-- ===== src/Cache.antt =====
-- shared/cache.ts: the cache of module reads. The type `T` stands for what a module's reads give.
-- A request is a number; the promise of `load()` settles in an event of its own, and the
-- `finally` that follows it runs in a later one.
pub mod History
pub mod Faithful
pub mod Answers
use bored_manager.Base.{
  ℕ, suc, ◌+◌, String, Option, none, some, Bool, true, false, [], ◌==◌, string_key, nat_key, ltb,
  eqb, ◌&&◌, if◌then◌else◌, or_else,
}
use bored_manager.Base.Dict
use bored_manager.Base.Dict.{Dict}

pub record Stored (T : Type 0) : Type 0 where
  pub value : T
  pub expires_at : ℕ

-- A request whose `load` has not settled, with `startedAtRevision`: the two numbers of its text.
pub record Loading : Type 0 where
  pub key : String
  pub global : ℕ
  pub revision : ℕ

pub record Cache (T : Type 0) : Type 0 where
  pub values : Dict String (Stored T)
  pub pending : Dict String ℕ
  pub revisions : Dict String ℕ
  pub global_revision : ℕ
  -- the requests: how many there have been, those that load, and those that wait for `finally`
  pub requests : ℕ
  pub loading : Dict ℕ Loading
  pub closing : Dict ℕ String

abbrev pub create_ttl_cache : {T : Type 0} → Cache T
create_ttl_cache = record {
  values = [];
  pending = [];
  revisions = [];
  global_revision = 0;
  requests = 0;
  loading = [];
  closing = [];
}

-- What a caller of `get` receives: a settled promise, or that of a request.
pub data Answer (T : Type 0) : Type 0 where
  cached : T → Answer T
  request : ℕ → Answer T

abbrev pub same_request : ℕ → Option ℕ → Bool
same_request id none = false
same_request id (some j) = j == id

module _ {T : Type 0} where
  abbrev pub revision_of : String → Cache T → ℕ
  revision_of key c = or_else (Dict.get key c.revisions) 0

  abbrev pub is_fresh : ℕ → Option (Stored T) → Bool
  is_fresh now none = false
  is_fresh now (some s) = ltb now s.expires_at

  -- `get` when no stored value is fresh
  abbrev pub join_or_load : String → Cache T → Cache T × Answer T
  join_or_load key c = elim (Dict.get key c.pending) [
    | some id ↦ (c, request id)
    | none ↦ (
      record c {
        requests = suc c.requests;
        pending = Dict.insert key c.requests c.pending;
        loading =
            Dict.insert c.requests
              (record { key = key; global = c.global_revision; revision = revision_of key c })
              c.loading;
      },
      request c.requests,
    )
  ]

  unfoldable pub get : String → ℕ → Cache T → Cache T × Answer T
  get key now c = elim (Dict.get key c.values) [
    | none ↦ join_or_load key c
    | some s ↦
        if ltb now s.expires_at
        then (c, cached s.value)
        else join_or_load key (record c { values = Dict.erase key c.values })
  ]

  -- The request would still find its own revision.
  abbrev pub is_current : Loading → Cache T → Bool
  is_current l c = l.global == c.global_revision && l.revision == revision_of l.key c

  abbrev close : ℕ → Loading → Cache T → Cache T
  close id l c = record c {
    loading = Dict.erase id c.loading;
    closing = Dict.insert id l.key c.closing;
  }

  -- `load()` has resolved; `duration` is what `ttl()` returns.
  unfoldable pub loaded : ℕ → T → ℕ → ℕ → Cache T → Cache T
  loaded id value duration now c = elim (Dict.get id c.loading) [
    | none ↦ c
    | some l ↦ close id l (
        if ltb 0 duration && is_current l c
        then record c {
          values =
              Dict.insert l.key (record { value = value; expires_at = now + duration }) c.values;
        }
        else c)
  ]

  -- `load()` has rejected, or thrown.
  unfoldable pub failed : ℕ → Cache T → Cache T
  failed id c = elim (Dict.get id c.loading) [ none ↦ c | some l ↦ close id l c ]

  -- The request's `finally`.
  unfoldable pub finish : ℕ → Cache T → Cache T
  finish id c = elim (Dict.get id c.closing) [
    | none ↦ c
    | some key ↦ record c {
      closing = Dict.erase id c.closing;
      pending =
          if same_request id (Dict.get key c.pending) then Dict.erase key c.pending else c.pending;
    }
  ]

  unfoldable pub clear : Option String → Cache T → Cache T
  clear none c = record c { global_revision = suc c.global_revision; values = []; pending = [] }
  clear (some key) c = record c {
    revisions = Dict.insert key (suc (revision_of key c)) c.revisions;
    values = Dict.erase key c.values;
    pending = Dict.erase key c.pending;
  }
