-- ===== src/Check.antt =====
-- shared/check.ts: the sessions of "check, then confirm". A session is the map of its outstanding
-- tokens and its counter; the clock and the random text are arguments. `JSON.stringify` on a scalar
-- or a key, the order of texts and `toString(36)` are JavaScript's own: the section's parameters.
pub mod Spent
use bored_manager.Base.{
  ℕ, suc, ◌+◌, String, Option, none, some, Bool, true, false, List, [], ◌∷◌, ◌≡◌, ◌==◌, string_key,
  leb, ltb, not, any, keep, if◌then◌else◌, is_some, map, ◌||◌,
}
use bored_manager.Base.Dict
use bored_manager.Base.Dict.{Dict}
use bored_manager.Base.Dict.Distinct.{drop_oldest}
use bored_manager.Json.{Json, arr, obj, str, Items, nil, cons, Fields, end, field}
use Prim.Native.String.{◌++◌}

pub data Level : Type 0 where
  pass info warning error : Level

pub record Finding : Type 0 where
  pub level : Level
  pub label : String
  pub detail : Option String

pub record Report : Type 0 where
  pub ok : Bool
  pub token : Option String
  pub findings : List Finding

-- `failedCheck`
unfoldable pub failed_check : String → Option String → Report
failed_check label detail = record {
  ok = false;
  token = none;
  findings = record { level = error; label = label; detail = detail } ∷ [];
}

abbrev is_error : Level → Bool
is_error error = true
is_error _ = false

-- `hasBlockingFinding`
unfoldable pub has_blocking_finding : List Finding → Bool
has_blocking_finding = any (λ f. is_error f.level)

abbrev pub token_ttl_ms : ℕ
token_ttl_ms = 600000

abbrev pub max_outstanding : ℕ
max_outstanding = 50

-- `values.join(',')`
unfoldable pub join : List String → String
join [] = ""
join (x ∷ []) = x
join (x ∷ xs) = x ++ "," ++ join xs

-- The texts of an object's fields, in the order of their keys.
module _ (before : String → String → Bool) where
  unfoldable pub insert_entry : String × String → List (String × String) → List (String × String)
  insert_entry e [] = e ∷ []
  insert_entry e (d ∷ rest) =
      let later = insert_entry e rest in if before d.0 e.0 then d ∷ later else e ∷ d ∷ rest

unfoldable pub print_entry : (Json → String) → String × String → String
print_entry stringify (k, v) = stringify (str k) ++ ":" ++ v

-- `canonical`; a field that is undefined is not among the fields of a value that came as JSON
module _ (stringify : Json → String) (before : String → String → Bool) where
  unfoldable mutual
    unfolding join print_entry insert_entry

    pub canonical : Json → String
    canonical (arr xs) = "[" ++ join (canonical_items xs) ++ "]"
    canonical (obj fs) = "{" ++ join (map (print_entry stringify) (canonical_entries fs)) ++ "}"
    canonical x = stringify x

    pub canonical_items : Items → List String
    canonical_items nil = []
    canonical_items (cons x xs) = canonical x ∷ canonical_items xs

    pub canonical_entries : Fields → List (String × String)
    canonical_entries end = []
    canonical_entries (field k v fs) = insert_entry before (k, canonical v) (canonical_entries fs)

-- `Issued`, with what the check resolved
pub record Issued (T : Type 0) : Type 0 where
  pub values : String
  pub expires_at : ℕ
  pub payload : T

pub record CheckSession (T : Type 0) : Type 0 where
  pub opened : Dict String (Issued T)
  pub counter : ℕ

-- `createCheckSession`
unfoldable pub create_session : {T : Type 0} → CheckSession T
create_session = record { opened = []; counter = 0 }

unfoldable pub token_text : (ℕ → String) → ℕ → ℕ → String → String
token_text print36 counter now random =
    "chk_" ++ print36 counter ++ "_" ++ print36 now ++ "_" ++ random

module _ {T : Type 0} (print36 : ℕ → String) (canon : Json → String) where
  -- `sweep`
  unfoldable pub sweep : ℕ → Dict String (Issued T) → Dict String (Issued T)
  sweep now opened = drop_oldest max_outstanding (keep (λ e. ltb now e.1.expires_at) opened)

  -- `issue`, with `Math.random().toString(36).slice(2, 10)`
  unfoldable pub issue : ℕ → String → Json → T → CheckSession T → CheckSession T × String
  unfolding sweep token_text
  issue now random values payload s =
      let counter = suc s.counter in
      let token = token_text print36 counter now random in
      let entry : Issued T = record {
        values = canon values;
        expires_at = now + token_ttl_ms;
        payload = payload;
      } in
      (record { opened = Dict.insert token entry (sweep now s.opened); counter = counter }, token)

  -- `take`: the token is spent whether or not it turns out to match
  unfoldable pub take : ℕ → String → Json → CheckSession T → CheckSession T × Option T
  take now token values s = elim (Dict.get token s.opened) [
    | none ↦ (s, none)
    | some e ↦ (
      record s { opened = Dict.erase token s.opened },
      if leb e.expires_at now || not (e.values == canon values) then none else some e.payload,
    )
  ]

  -- `consume`
  unfoldable pub consume : ℕ → String → Json → CheckSession T → CheckSession T × Bool
  unfolding take
  consume now token values s = let r = take now token values s in (r.0, is_some r.1)

-- `clear`
unfoldable pub clear : {T : Type 0} → CheckSession T → CheckSession T
clear s = record s { opened = [] }
