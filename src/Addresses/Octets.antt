-- ===== src/Addresses/Octets.antt =====
-- modules/service-fleet/main/net.ts: an address written and read again.
use bored_manager.Base.{
  ℕ, zero, suc, ◌+◌, ◌*◌, ◌/◌, ◌%◌, ◌^◌, ◌<◌, some, true, false, List, [], ◌∷◌, ◌++◌, ◌≡◌, refl, ap,
  ltb, eqb, length, is_digit, arith, Bool-cases, Option-cases, inl, inr, All, All-append, All-map,
  map, subst, eqb_iff,
}
use bored_manager.Base.{Units, IsSolid, trim-solid}
use bored_manager.Base.{is_space, trim}
use bored_manager.Addresses.{split, octet, read_octets, ip_to_int, octet_text, join, int_to_ip}

octet-octet_text : (n : ℕ) → n < 256 → octet (octet_text n) ≡ some n
octet-octet_text n h = ground arith

-- No unit is a dot.
abbrev HasNoDot : Units → Type 0
HasNoDot = All (λ c. eqb c b'.' ≡ false)

split-last : (s : Units) → HasNoDot s → split b'.' s ≡ (s, [])
split-last [] h = refl
split-last (c ∷ s) h = rw (h.0, split-last s h.1) refl

split-piece :
    (s more : Units)
    → HasNoDot s
    → split b'.' (s ++ (b'.' ∷ more)) ≡ (s, (split b'.' more).0 ∷ (split b'.' more).1)
split-piece [] more h = refl
split-piece (c ∷ s) more h = rw (h.0, split-piece s more h.1) refl

octet_text-digits : (n : ℕ) → n < 256 → All (λ c. is_digit c ≡ true) (octet_text n)
octet_text-digits n h = elim (Bool-cases (ltb n 10)) [
  | inl one ↦ rw one (ground arith, tt)
  | inr more ↦ elim (Bool-cases (ltb n 100)) [
    | inl two ↦ rw (more, two) (ground arith, (ground arith, tt))
    | inr three ↦ rw (more, three) (ground arith, (ground arith, (ground arith, tt)))
  ]
]

octet_text-HasNoDot : (n : ℕ) → n < 256 → HasNoDot (octet_text n)
octet_text-HasNoDot n h =
    All-map (λ c. is_digit c ≡ true) (λ c. eqb c b'.' ≡ false) (octet_text n) (λ c d. ground arith)
      (octet_text-digits n h)

octet_text-IsSolid : (n : ℕ) → n < 256 → IsSolid (octet_text n)
octet_text-IsSolid n h =
    All-map (λ c. is_digit c ≡ true) (λ c. is_space c ≡ false) (octet_text n) (λ c d. ground arith)
      (octet_text-digits n h)

abbrev AreOctets : List ℕ → Type 0
AreOctets = All (λ n. n < 256)

join-IsSolid : (parts : List ℕ) → AreOctets parts → IsSolid (join parts)
join-IsSolid [] h = tt
join-IsSolid (n ∷ []) h = octet_text-IsSolid n h.0
join-IsSolid (n ∷ m ∷ parts) h =
    All-append (λ c. is_space c ≡ false) (octet_text n) (b'.' ∷ join (m ∷ parts))
      (octet_text-IsSolid n h.0) (refl, join-IsSolid (m ∷ parts) h.1)

-- The pieces of a written address are its octets' texts.
split-join :
    (n : ℕ) (parts : List ℕ)
    → AreOctets (n ∷ parts)
    → split b'.' (join (n ∷ parts)) ≡ (octet_text n, map octet_text parts)
split-join n [] h = split-last (octet_text n) (octet_text-HasNoDot n h.0)
split-join n (m ∷ parts) h =
    rw
      (
        split-piece (octet_text n) (join (m ∷ parts)) (octet_text-HasNoDot n h.0),
        split-join m parts h.1,
      )
      refl

abbrev value_of : ℕ → List ℕ → ℕ
value_of out [] = out
value_of out (n ∷ parts) = value_of (out * 256 + n) parts

read_octets-map :
    (out : ℕ) (parts : List ℕ)
    → AreOctets parts
    → read_octets out (map octet_text parts) ≡ some (value_of out parts)
read_octets-map out [] h = refl
read_octets-map out (n ∷ parts) h =
    rw (octet-octet_text n h.0) (read_octets-map (out * 256 + n) parts h.1)

-- Every number of 32 bits, written as an address, is read back.
pub ip_to_int-int_to_ip : (value : ℕ) → value < 2 ^ 32 → ip_to_int (int_to_ip value) ≡ some value
unfolding ip_to_int int_to_ip
ip_to_int-int_to_ip value h =
    let a = value / 256 / 256 / 256 % 256 in
    let parts = value / 256 / 256 % 256 ∷ value / 256 % 256 ∷ value % 256 ∷ [] in
    let small : AreOctets (a ∷ parts) =
      (omega arith, (omega arith, (omega arith, (omega arith, tt)))) in
    rw
      (
        trim-solid (join (a ∷ parts)) (join-IsSolid (a ∷ parts) small),
        split-join a parts small,
        read_octets-map 0 (a ∷ parts) small,
      )
      (ap some (omega arith))

octet_below : (s : Units) (n : ℕ) → octet s ≡ some n → n < 256
octet_below s n h = ground arith

abbrev scaled : ℕ → ℕ → ℕ
scaled bound zero = bound
scaled bound (suc k) = scaled (bound * 256) k

read_octets_below :
    (out bound : ℕ) (pieces : List Units) (v : ℕ)
    → out < bound
    → read_octets out pieces ≡ some v
    → v < scaled bound (length pieces)
read_octets_below out bound [] v b h = ground arith
read_octets_below out bound (s ∷ pieces) v b h = elim (Option-cases (octet s)) [
  | inl e ↦ absurd (ground (arith, e))
  | inr (n, e) ↦
      read_octets_below (out * 256 + n) (bound * 256) pieces v (omega (arith, octet_below s n e))
        (ground (arith, e))
]

-- What is read as an address is a number of 32 bits.
pub ip_to_int_below : (ip : Units) (v : ℕ) → ip_to_int ip ≡ some v → v < 2 ^ 32
unfolding ip_to_int
ip_to_int_below ip v h =
    let pieces = split b'.' (trim ip) in
    elim (Bool-cases (eqb (length pieces.1) 3)) [
      | inl four ↦
          let low = read_octets_below 0 1 (pieces.0 ∷ pieces.1) v (omega arith) (ground arith) in
          subst (λ k. v < scaled 256 k) ((eqb_iff (length pieces.1) 3).0 four) low
      | inr other ↦ absurd (ground arith)
    ]
