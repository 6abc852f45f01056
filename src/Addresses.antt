-- ===== src/Addresses.antt =====
-- modules/service-fleet/main/net.ts: IPv4 addresses, blocks and ranges. A text is the list of its
-- UTF-16 units. `number` stands for `Number` on a text where the language's own grammar decides,
-- when the result is an integer that is not negative.
pub mod Octets
pub mod Blocks
pub mod Enumeration
use bored_manager.Base.{
  ℕ, zero, suc, ◌+◌, ◌-◌, ◌*◌, ◌/◌, ◌%◌, ◌^◌, min, max, Option, none, some, Bool, true, false, List,
  [], ◌∷◌, ◌++◌, ◌==◌, nat_key, ltb, leb, ◌&&◌, ◌||◌, not, any, every, length, take, drop, reverse,
  is_digit, if◌then◌else◌, ◌>>=◌, codes, eqb, ◌⊎◌, inl, inr, Units, decimal, trim,
}

-- `split` at a unit: the first piece and the others.
abbrev pub onto : ℕ → Units × List Units → Units × List Units
onto c (piece, pieces) = (c ∷ piece, pieces)

abbrev pub split : ℕ → Units → Units × List Units
split sep [] = ([], [])
split sep (c ∷ s) =
    let rest = split sep s in if eqb c sep then ([], rest.0 ∷ rest.1) else onto c rest

-- `(\d{1,3})`, and the test of the loop.
abbrev pub octet : Units → Option ℕ
octet s =
    let n = decimal 0 s in
    if leb 1 (length s) && leb (length s) 3 && every is_digit s
    then if leb n 255 then some n else none
    else none

-- The loop over the octets.
abbrev pub read_octets : ℕ → List Units → Option ℕ
read_octets out [] = some out
read_octets out (s ∷ pieces) = octet s >>= λ n. read_octets (out * 256 + n) pieces

unfoldable pub ip_to_int : Units → Option ℕ
ip_to_int ip =
    let pieces = split b'.' (trim ip) in
    if eqb (length pieces.1) 3 then read_octets 0 (pieces.0 ∷ pieces.1) else none

-- The decimal text of a number below 1000.
abbrev pub octet_text : ℕ → Units
octet_text n =
    if ltb n 10
    then (b'0' + n) ∷ []
    else if ltb n 100
    then (b'0' + n / 10) ∷ (b'0' + n % 10) ∷ []
    else (b'0' + n / 100) ∷ (b'0' + n / 10 % 10) ∷ (b'0' + n % 10) ∷ []

-- The loop's `unshift`s, the last octet first.
abbrev pub octets_of : ℕ → ℕ → List ℕ → List ℕ
octets_of zero rest parts = parts
octets_of (suc i) rest parts = octets_of i (rest / 256) (rest % 256 ∷ parts)

abbrev pub join : List ℕ → Units
join [] = []
join (n ∷ []) = octet_text n
join (n ∷ m ∷ parts) = octet_text n ++ (b'.' ∷ join (m ∷ parts))

unfoldable pub int_to_ip : ℕ → Units
int_to_ip value = join (octets_of 4 value [])

pub record Cidr : Type 0 where
  pub base : ℕ
  pub prefix : ℕ

abbrev pub block_size : Cidr → ℕ
block_size c = 2 ^ (32 - c.prefix)

unfoldable pub cidr_contains : Cidr → ℕ → Bool
cidr_contains cidr value = leb cidr.base value && ltb value (cidr.base + block_size cidr)

abbrev pub masked : ℕ → ℕ → Option Cidr
masked base prefix =
    if leb prefix 32
    then some (record { base = base - base % 2 ^ (32 - prefix); prefix = prefix })
    else none

pub record Range : Type 0 where
  pub from : ℕ
  pub to : ℕ

-- `indexOf` of a unit
abbrev pub index_of : ℕ → Units → Option ℕ
index_of sep [] = none
index_of sep (c ∷ s) =
    let rest = index_of sep s in
    if eqb c sep then some 0 else elim rest [ none ↦ none | some i ↦ some (suc i) ]

pub data TargetKind : Type 0 where
  host cidr range : TargetKind

pub record Enumerated : Type 0 where
  pub ips : List Units
  pub total : ℕ
  pub truncated : Bool
  pub problem : Option Units

-- The addresses of a block that are machines.
abbrev pub usable : Cidr → Range
usable c =
    let size = block_size c in
    if ltb 2 size
    then record { from = c.base + 1; to = c.base + size - 2 }
    else record { from = c.base; to = c.base + size - 1 }

-- The loop that collects `count` addresses.
abbrev pub addresses : ℕ → ℕ → List Units
unfolding int_to_ip
addresses from zero = []
addresses from (suc count) = int_to_ip from ∷ addresses (suc from) count

module _ (number : Units → Option ℕ) where
  abbrev pub cidr_parts : Units × List Units → Option Cidr
  cidr_parts (base, prefix ∷ []) = ip_to_int base >>= λ b. number prefix >>= λ p. masked b p
  cidr_parts _ = none

  unfoldable pub parse_cidr : Units → Option Cidr
  parse_cidr text = cidr_parts (split b'/' (trim text))

  abbrev pub range_end : ℕ → Units → Option ℕ
  range_end from tail =
      if any (λ c. eqb c b'.') tail
      then ip_to_int tail
      else number tail >>= λ last. if leb last 255 then some (from / 256 * 256 + last) else none

  abbrev pub range_at : Units → ℕ → Option Range
  range_at trimmed dash = ip_to_int (take dash trimmed) >>= λ from.
      range_end from (trim (drop (suc dash) trimmed)) >>= λ to.
      if ltb to from then none else some (record { from = from; to = to })

  unfoldable pub parse_range : Units → Option Range
  parse_range text =
      let trimmed = trim text in
      index_of b'-' trimmed >>= λ dash. if eqb dash 0 then none else range_at trimmed dash

  -- The range of a rule, or the end of the message that it has none.
  unfoldable pub target : TargetKind → Units → Range ⊎ Units
  unfolding parse_cidr parse_range ip_to_int
  target host value = elim (ip_to_int value) [
    | none ↦ inr (codes " is not an IPv4 address")
    | some one ↦ inl (record { from = one; to = one })
  ]
  target cidr value = elim (parse_cidr value) [
    | none ↦ inr (codes " is not a CIDR block like 10.0.0.0/24")
    | some c ↦ inl (usable c)
  ]
  target range value = elim (parse_range value) [
    | none ↦ inr (codes " is not a range like 10.0.0.10-10.0.0.40")
    | some r ↦ inl r
  ]

  unfoldable pub enumerate_rule : TargetKind → Units → ℕ → Enumerated
  unfolding target
  enumerate_rule kind value cap = elim (target kind value) [
    | inr message ↦ record {
      ips = [];
      total = 0;
      truncated = false;
      problem = some (b'"' ∷ value ++ (b'"' ∷ message));
    }
    | inl r ↦
        let total = r.to - r.from + 1 in
        let count = min total (max 1 cap) in
        record {
          ips = addresses r.from count;
          total = total;
          truncated = ltb count total;
          problem = none;
        }
  ]
