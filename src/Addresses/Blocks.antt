-- ===== src/Addresses/Blocks.antt =====
-- modules/service-fleet/main/net.ts: the blocks that `parseCidr` gives and the ranges that
-- `parseRange` gives.
use bored_manager.Base.{
  ℕ, zero, suc, ◌+◌, ◌-◌, ◌*◌, ◌/◌, ◌%◌, ◌^◌, ◌≤◌, ◌<◌, Option, none, some, List, [], ◌∷◌, ◌≡◌, sym,
  ◌∙◌, ap, subst, leb, eqb, arith, Bool-cases, bind-some, inl, inr, any, take, drop, if◌then◌else◌,
  ◌>>=◌,
}
use native.Mathlib.Nat.{
  mod-lt, mul-le-mul_left, div-add-mod, div-lt_iff_lt-mul, mul-mod_right, mul_comm, mul_assoc,
  add-zero, add-suc, mul-one, mul-suc, pow-suc,
}
use bored_manager.Base.{Units}
use bored_manager.Base.{trim}
use bored_manager.Addresses.{
  split, ip_to_int, Cidr, block_size, masked, cidr_parts, parse_cidr, Range, index_of, range_end,
  range_at, parse_range, usable,
}
use bored_manager.Addresses.Octets.{ip_to_int_below}

pow_split : (k p : ℕ) → 2 ^ k * 2 ^ p ≡ 2 ^ (k + p)
pow_split k zero = rw (add-zero k) (mul-one (2 ^ k))
pow_split k (suc p) = rw (add-suc k p) (
    ap (λ x. 2 ^ k * x) (pow-suc 2 p)
    ∙ sym (mul_assoc (2 ^ k) (2 ^ p) 2)
    ∙ ap (λ x. x * 2) (pow_split k p)
    ∙ sym (pow-suc 2 (k + p)))

pub pow_pos : (k : ℕ) → 0 < 2 ^ k
pow_pos zero = omega arith
pow_pos (suc k) = omega (arith, pow_pos k)

-- The multiple of `size` below a number, when the size divides the space.
block_end :
    (base size count : ℕ)
    → 0 < size
    → base < size * count
    → base - base % size + size ≤ size * count
block_end base size count pos below =
    let q = base / size in
    let fits : suc q ≤ count =
      (div-lt_iff_lt-mul pos).1 (subst (λ n. base < n) (mul_comm size count) below) in
    let room = mul-le-mul_left size fits in
    omega (arith, room, div-add-mod base size, mod-lt base pos, mul-suc size q)

-- A block of the 32-bit space: its base is a multiple of its size.
pub record IsBlock (c : Cidr) : Type 0 where
  pub short : c.prefix ≤ 32
  pub aligned : c.base % block_size c ≡ 0
  pub inside : c.base + block_size c ≤ 2 ^ 32

space : (p : ℕ) → p ≤ 32 → 2 ^ (32 - p) * 2 ^ p ≡ 2 ^ 32
space p h = pow_split (32 - p) p ∙ ap (λ k. 2 ^ k) {y = 32} (omega arith)

masked-IsBlock : (base p : ℕ) (c : Cidr) → base < 2 ^ 32 → masked base p ≡ some c → IsBlock c
masked-IsBlock base p c below e = elim (Bool-cases (leb p 32)) [
  | inr long ↦ absurd (ground arith)
  | inl short ↦
      let size = 2 ^ (32 - p) in
      let start = base - base % size in
      let is_c : record { base = start; prefix = p } ≡ c = ground arith in
      let multiple : start ≡ size * (base / size) = omega (arith, div-add-mod base size) in
      subst IsBlock is_c (record {
        short = ground arith;
        aligned = rw multiple (mul-mod_right size (base / size));
        inside =
            subst (λ n. start + size ≤ n) (space p (ground arith))
              (block_end base size (2 ^ p) (pow_pos (32 - p))
                (subst (λ n. base < n) (sym (space p (ground arith))) below));
      })
]

-- What `usable` keeps of a block lies in it.
pub usable-inside :
    (c : Cidr)
    → IsBlock c
    → let r = usable c in (c.base ≤ r.from) × (r.from ≤ r.to) × (r.to < c.base + block_size c)
usable-inside c b = ground (arith, pow_pos (32 - c.prefix))

module _ (number : Units → Option ℕ) where
  cidr_parts-IsBlock :
      (pieces : Units × List Units) (c : Cidr) → cidr_parts number pieces ≡ some c → IsBlock c
  cidr_parts-IsBlock (base, []) c h = absurd cc
  cidr_parts-IsBlock (base, _ ∷ _ ∷ _) c h = absurd cc
  cidr_parts-IsBlock (base, prefix ∷ []) c h =
      let b = bind-some (ip_to_int base) (λ n. number prefix >>= λ p. masked n p) c h in
      let p = bind-some (number prefix) (λ k. masked b.0 k) c b.2 in
      masked-IsBlock b.0 p.0 c (ip_to_int_below base b.0 b.1) p.2

  -- Whatever the text, a block that it is read as has a prefix of at most 32, a base that is a
  -- multiple of its size, and ends within the 32-bit space.
  pub parse_cidr-IsBlock : (text : Units) (c : Cidr) → parse_cidr number text ≡ some c → IsBlock c
  unfolding parse_cidr
  parse_cidr-IsBlock text c h = cidr_parts-IsBlock (split b'/' (trim text)) c h

  range_end-bounded :
      (from : ℕ) (tail : Units) (to : ℕ)
      → from < 2 ^ 32
      → range_end number from tail ≡ some to
      → to < 2 ^ 32
  range_end-bounded from tail to low h = elim (Bool-cases (any (λ c. eqb c b'.') tail)) [
    | inl dotted ↦ ip_to_int_below tail to (ground arith)
    | inr plain ↦
        let last =
          bind-some (number tail) (λ n. if leb n 255 then some (from / 256 * 256 + n) else none) to
            (ground arith) in
        ground (arith, last.2)
  ]

  range_at-bounded :
      (trimmed : Units) (dash : ℕ) (r : Range)
      → range_at number trimmed dash ≡ some r
      → (r.from ≤ r.to) × (r.to < 2 ^ 32)
  range_at-bounded trimmed dash r h =
      let tail = trim (drop (suc dash) trimmed) in
      let from = bind-some (ip_to_int (take dash trimmed)) _ r h in
      let to = bind-some (range_end number from.0 tail) _ r from.2 in
      let below =
        range_end-bounded from.0 tail to.0 (ip_to_int_below (take dash trimmed) from.0 from.1)
          to.1 in
      ground (arith, to.2)

  -- Whatever the text, a range that it is read as is not empty and ends within the 32-bit space.
  pub parse_range-bounded :
      (text : Units) (r : Range)
      → parse_range number text ≡ some r
      → (r.from ≤ r.to) × (r.to < 2 ^ 32)
  unfolding parse_range
  parse_range-bounded text r h =
      let trimmed = trim text in
      let dash = bind-some (index_of b'-' trimmed) _ r h in
      elim (Bool-cases (eqb dash.0 0)) [
        | inl front ↦ absurd (ground (arith, dash.2))
        | inr later ↦ range_at-bounded trimmed dash.0 r (ground (arith, dash.2))
      ]
