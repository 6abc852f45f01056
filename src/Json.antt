-- ===== src/Json.antt =====
-- The values that `JSON.parse` returns, and the runtime guards of shared/validation.ts over them.
-- A missing property (`undefined`) is `none`. A number is an integer of either sign or, as
-- `fraction`, any other double by its bit pattern.
use bored_manager.Base.{
  ℕ, suc, String, Option, none, some, Bool, true, false, ◌==◌, string_key, leb, if◌then◌else◌,
}

pub data Number : Type 0 where
  nat : ℕ → Number
  neg : ℕ → Number
  fraction : ℕ → Number

mutual
  pub data Json : Type 0 where
    null : Json
    bool : Bool → Json
    num : Number → Json
    str : String → Json
    arr : Items → Json
    obj : Fields → Json

  pub data Items : Type 0 where
    nil : Items
    cons : Json → Items → Items

  pub data Fields : Type 0 where
    end : Fields
    field : String → Json → Fields → Fields

abbrev pub get_field : String → Fields → Option Json
get_field k end = none
get_field k (field j v fs) = if j == k then some v else get_field k fs

abbrev pub count_items : Items → ℕ
count_items nil = 0
count_items (cons x xs) = suc (count_items xs)

-- `Number.MAX_SAFE_INTEGER`
abbrev pub max_safe_integer : ℕ
max_safe_integer = 9007199254740991

-- `isSafeInteger`, with a negative integer -(n + 1) for `neg n`
abbrev pub is_safe_integer : Number → Bool
is_safe_integer (nat n) = leb n max_safe_integer
is_safe_integer (neg n) = leb (suc n) max_safe_integer
is_safe_integer (fraction x) = false

-- `isRecord`: an object that is neither null nor an array
abbrev pub is_record : Json → Bool
is_record (obj fs) = true
is_record _ = false
