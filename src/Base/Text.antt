-- ===== src/Base/Text.antt =====
-- Texts: the equality of keys, the characters as numbers, and the two lengths of JavaScript.
use Prim.Native.Nat.{ℕ, zero, suc, ◌+◌, ◌-◌, ◌*◌, ◌/◌, ◌%◌, ◌^◌, ◌<◌}
use mathlib.Core.Path.{◌≡◌, refl, ap}
use native.Mathlib.Omega.{arith}
use native.Mathlib.Nat.{pow-suc}
use Prim.Native.Char.{code}
use Prim.Native.String.{String}
use mathlib.Core.List.{List, [], ◌∷◌, reverse, reverse-reverse, reverse-cons}
use text.Mathlib.Text.{◌==◌ as str_eq}
use text.Mathlib.TextEquality.{eq_iff}
use mathlib.Core.Logic.{inl, inr}
use mathlib.Core.Bool.{Bool, true, false, ◌&&◌, ◌||◌}
use bored_manager.Base.Tests.{Key, leb, ltb, eqb, Bool-cases, if◌then◌else◌}
use bored_manager.Base.Lists.{total, All, All-append, All-map}

instance abbrev pub string_key : Key String
string_key = record { equal_iff = eq_iff; equal = str_eq }

-- The code points of a text.
abbrev pub codes : String → List ℕ
codes String.[] = []
codes (String.◌∷◌ c s) = code c ∷ codes s

-- `s.length`: UTF-16 units.
abbrev utf16_units : ℕ → ℕ
utf16_units c = if ltb c 0x10000 then 1 else 2

abbrev pub js_length : String → ℕ
js_length s = total utf16_units (codes s)

-- `Buffer.byteLength(s, 'utf8')`.
abbrev utf8_bytes : ℕ → ℕ
utf8_bytes c = if ltb c 0x80 then 1 else if ltb c 0x800 then 2 else if ltb c 0x10000 then 3 else 4

abbrev pub byte_length : String → ℕ
byte_length s = total utf8_bytes (codes s)

-- The classes of characters that the source's patterns name.
abbrev pub is_lower : ℕ → Bool
is_lower c = leb b'a' c && leb c b'z'

abbrev pub is_upper : ℕ → Bool
is_upper c = leb b'A' c && leb c b'Z'

abbrev pub is_digit : ℕ → Bool
is_digit c = leb b'0' c && leb c b'9'

-- `[0-9a-f]` with the flag `i`
abbrev pub is_hex : ℕ → Bool
is_hex c = is_digit c || leb b'a' c && leb c b'f' || leb b'A' c && leb c b'F'

-- A text as the list of its UTF-16 units.
abbrev pub Units : Type 0
Units = List ℕ

-- What `trim` removes.
abbrev pub is_space : ℕ → Bool
is_space c =
    leb 9 c && leb c 13
    || eqb c 0x20
    || eqb c 0xA0
    || eqb c 0x1680
    || leb 0x2000 c && leb c 0x200A
    || eqb c 0x2028
    || eqb c 0x2029
    || eqb c 0x202F
    || eqb c 0x205F
    || eqb c 0x3000
    || eqb c 0xFEFF

abbrev pub trim_start : Units → Units
trim_start [] = []
trim_start (c ∷ s) = let rest = trim_start s in if is_space c then rest else c ∷ s

abbrev pub trim : Units → Units
trim s = reverse (trim_start (reverse (trim_start s)))

-- The number that decimal digits write, with those before them.
abbrev pub decimal : ℕ → Units → ℕ
decimal n [] = n
decimal n (c ∷ s) = decimal (n * 10 + (c - b'0')) s

-- The decimal digits of a number, in front of a text; at most so many are written.
abbrev digits : ℕ → ℕ → Units → Units
digits zero n out = out
digits (suc fuel) n out =
    let more = digits fuel (n / 10) ((b'0' + n % 10) ∷ out) in
    if ltb n 10 then (b'0' + n) ∷ out else more

-- `String(n)` of a natural number; one that a JavaScript number holds exactly has at most 16 digits.
unfoldable pub decimal_text : ℕ → Units
decimal_text n = digits 16 n []

decimal-digits :
    (fuel n : ℕ) (out : Units) → n < 10 ^ fuel → decimal 0 (digits fuel n out) ≡ decimal n out
decimal-digits zero n out h = ap (λ x. decimal x out) (omega arith)
decimal-digits (suc fuel) n out h = elim (Bool-cases (ltb n 10)) [
  | inl one ↦ rw one (ap (λ x. decimal x out) (omega arith))
  | inr more ↦
      rw
        (
          more,
          decimal-digits fuel (n / 10) ((b'0' + n % 10) ∷ out) (omega (arith, pow-suc 10 fuel)),
        )
        (ap (λ x. decimal x out) (omega arith))
]

pub decimal-decimal_text : (n : ℕ) → n < 10 ^ 16 → decimal 0 (decimal_text n) ≡ n
unfolding decimal_text
decimal-decimal_text n h = decimal-digits 16 n [] h

-- No unit is removed by `trim`.
abbrev pub IsSolid : Units → Type 0
IsSolid = All (λ c. is_space c ≡ false)

trim_start-solid : (s : Units) → IsSolid s → trim_start s ≡ s
trim_start-solid [] h = refl
trim_start-solid (c ∷ s) h = rw h.0 refl

IsSolid-reverse : (s : Units) → IsSolid s → IsSolid (reverse s)
IsSolid-reverse [] h = tt
IsSolid-reverse (c ∷ s) h =
    rw (reverse-cons c s)
      (All-append (λ d. is_space d ≡ false) (reverse s) (c ∷ []) (IsSolid-reverse s h.1) (h.0, tt))

pub trim-solid : (s : Units) → IsSolid s → trim s ≡ s
trim-solid s h =
    rw (trim_start-solid s h, trim_start-solid (reverse s) (IsSolid-reverse s h))
      (reverse-reverse s)

abbrev pub AreDigits : Units → Type 0
AreDigits = All (λ c. is_digit c ≡ true)

AreDigits-IsSolid : (s : Units) → AreDigits s → IsSolid s
AreDigits-IsSolid s =
    All-map (λ c. is_digit c ≡ true) (λ c. is_space c ≡ false) s (λ c d. ground arith)

digits-AreDigits : (fuel n : ℕ) (out : Units) → AreDigits out → AreDigits (digits fuel n out)
digits-AreDigits zero n out h = h
digits-AreDigits (suc fuel) n out h = elim (Bool-cases (ltb n 10)) [
  | inl one ↦ rw one (ground arith, h)
  | inr more ↦ rw more (digits-AreDigits fuel (n / 10) ((b'0' + n % 10) ∷ out) (ground arith, h))
]

pub decimal_text-AreDigits : (n : ℕ) → AreDigits (decimal_text n)
unfolding decimal_text
decimal_text-AreDigits n = digits-AreDigits 16 n [] tt

pub trim-decimal_text : (n : ℕ) → trim (decimal_text n) ≡ decimal_text n
trim-decimal_text n =
    trim-solid (decimal_text n) (AreDigits-IsSolid (decimal_text n) (decimal_text-AreDigits n))
