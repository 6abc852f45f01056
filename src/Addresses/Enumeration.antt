-- ===== src/Addresses/Enumeration.antt =====
-- modules/service-fleet/main/net.ts `enumerateRule`: which addresses a rule lists.
use bored_manager.Base.{
  ℕ, zero, suc, ◌+◌, ◌-◌, ◌^◌, ◌≤◌, ◌<◌, min, max, Option, none, some, Bool, true, false, List, [],
  ◌≡◌, refl, ltb, leb, eqb, ◌&&◌, ◌||◌, not, any, length, arith, Option-cases, inl, inr, ◌⊎◌,
  is_some,
}
use bored_manager.Base.{Units}
use bored_manager.Addresses.{
  ip_to_int, Cidr, block_size, cidr_contains, parse_cidr, Range, parse_range, usable, TargetKind,
  host, cidr, range, target, addresses, enumerate_rule,
}
use bored_manager.Addresses.Octets.{ip_to_int-int_to_ip, ip_to_int_below}
use bored_manager.Addresses.Blocks.{parse_cidr-IsBlock, parse_range-bounded, usable-inside, pow_pos}

abbrev is_number : ℕ → Option ℕ → Bool
is_number v none = false
is_number v (some n) = eqb n v

-- One of the addresses is the number's.
abbrev pub lists : ℕ → List Units → Bool
lists v ips = any (λ ip. is_number v (ip_to_int ip)) ips

length-addresses : (from count : ℕ) → length (addresses from count) ≡ count
unfolding addresses
length-addresses from zero = refl
length-addresses from (suc count) = omega (arith, length-addresses (suc from) count)

lists-addresses :
    (v from count : ℕ)
    → from + count ≤ 2 ^ 32
    → lists v (addresses from count) ≡ (leb from v && ltb v (from + count))
unfolding addresses
lists-addresses v from zero room = ground arith
lists-addresses v from (suc count) room = ground (
  arith,
  lists-addresses v (suc from) count (omega arith),
  ip_to_int-int_to_ip from (omega arith),
)

-- The addresses of a block that stand for machines: all of a block of one or two, else all but the
-- first and the last.
abbrev pub is_machine : Cidr → ℕ → Bool
is_machine c v =
    cidr_contains c v
    && (leb (block_size c) 2 || not (eqb v c.base) && not (eqb (suc v) (c.base + block_size c)))

module _ (number : Units → Option ℕ) where
  target-bounded :
      (kind : TargetKind) (value : Units) (r : Range)
      → target number kind value ≡ inl r
      → (r.from ≤ r.to) × (r.to < 2 ^ 32)
  unfolding target
  target-bounded host value r h = elim (Option-cases (ip_to_int value)) [
    | inl e ↦ absurd (ground (arith, e))
    | inr (one, e) ↦ ground (arith, e, ip_to_int_below value one e)
  ]
  target-bounded cidr value r h = elim (Option-cases (parse_cidr number value)) [
    | inl e ↦ absurd (ground (arith, e))
    | inr (c, e) ↦
        let b = parse_cidr-IsBlock number value c e in
        ground (arith, e, usable-inside c b, b.inside)
  ]
  target-bounded range value r h = elim (Option-cases (parse_range number value)) [
    | inl e ↦ absurd (ground (arith, e))
    | inr (s, e) ↦ ground (arith, e, parse_range-bounded number value s e)
  ]

  target-cases :
      (kind : TargetKind) (value : Units)
      → ((r : Range) × (target number kind value ≡ inl r))
        ⊎ ((message : Units) × (target number kind value ≡ inr message))
  target-cases kind value = split (target number kind value)
    where
      split :
          (t : Range ⊎ Units)
          → ((r : Range) × (t ≡ inl r)) ⊎ ((message : Units) × (t ≡ inr message))
      split (inl r) = inl (r, refl)
      split (inr message) = inr (message, refl)

  -- Whatever the rule and the cap: either it is no rule, and then nothing is listed, the total is
  -- zero and a problem is told; or at least one address is listed, as many as the total, which is
  -- at most 2^32, and the cap (at least one) allow, and `truncated` says whether some are left out.
  pub enumerate_rule_counts :
      (kind : TargetKind) (value : Units) (cap : ℕ)
      → let e = enumerate_rule number kind value cap in
        ((e.ips ≡ []) × (e.total ≡ 0) × (is_some e.problem ≡ true))
        ⊎ ((1 ≤ length e.ips)
            × (length e.ips ≡ min e.total (max 1 cap))
            × (e.truncated ≡ ltb (length e.ips) e.total)
            × (e.total ≤ 2 ^ 32)
            × (e.problem ≡ none))
  unfolding enumerate_rule
  enumerate_rule_counts kind value cap = elim (target-cases kind value) [
    | inr (message, e) ↦ rw (e, enumerate_rule) (inl (refl, refl, refl))
    | inl (r, e) ↦
        let b = target-bounded kind value r e in
        let n = min (r.to - r.from + 1) (max 1 cap) in
        rw (e, enumerate_rule, length-addresses r.from n)
          (inr (omega arith, refl, refl, omega (arith, b), refl))
  ]

  -- A rule that is not truncated lists the numbers of its range.
  whole-lists :
      (kind : TargetKind) (value : Units) (cap v : ℕ) (r : Range)
      → target number kind value ≡ inl r
      → (enumerate_rule number kind value cap).truncated ≡ false
      → lists v (enumerate_rule number kind value cap).ips ≡ (leb r.from v && leb v r.to)
  unfolding enumerate_rule
  whole-lists kind value cap v r e whole =
      let b = target-bounded kind value r e in
      let total = r.to - r.from + 1 in
      let n = min total (max 1 cap) in
      let all : ltb n total ≡ false = ground (arith, e) in
      rw (e, enumerate_rule) (ground (arith, all, lists-addresses v r.from n (omega (arith, b)), b))

  -- A block that is not truncated lists exactly its machines: a number is listed if and only if
  -- `cidrContains` accepts it and, in a block of more than two, it is neither the first nor the last.
  pub enumerate_cidr_exact :
      (value : Units) (cap v : ℕ) (c : Cidr)
      → parse_cidr number value ≡ some c
      → (enumerate_rule number cidr value cap).truncated ≡ false
      → lists v (enumerate_rule number cidr value cap).ips ≡ is_machine c v
  unfolding target cidr_contains
  enumerate_cidr_exact value cap v c e whole = ground (
    arith,
    whole-lists cidr value cap v (usable c) (rw (e, target) refl) whole,
    pow_pos (32 - c.prefix),
  )

  -- A range that is not truncated lists exactly the numbers from its first to its last address.
  pub enumerate_range_exact :
      (value : Units) (cap v : ℕ) (r : Range)
      → parse_range number value ≡ some r
      → (enumerate_rule number range value cap).truncated ≡ false
      → lists v (enumerate_rule number range value cap).ips ≡ (leb r.from v && leb v r.to)
  unfolding target
  enumerate_range_exact value cap v r e whole =
      whole-lists range value cap v r (rw (e, target) refl) whole
