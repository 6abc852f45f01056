-- ===== src/Uci/Plans.antt =====
-- modules/openwrt/main/uci.ts: the names, routing tables and devices that a batch is given.
use bored_manager.Base.{
  ℕ, zero, suc, ◌+◌, ◌-◌, ◌≤◌, Option, none, some, Bool, true, false, List, [], ◌∷◌, ◌++◌, ◌≡◌,
  refl, ap, sym, ◌∙◌, length, arith, get_elem?, ltb, not, ◌||◌, Bool-cases, unless-some,
  some_injective, ◌≢◌, subst, bind-some, inl, inr, ◌>>=◌, Units, decimal, decimal_text,
  decimal-decimal_text, codes, if◌then◌else◌,
}
use mathlib.Core.List.{tail-eq_of_cons-eq}
use bored_manager.Uci.{
  PppoeAccount, PppoeBuildOptions, PppoeSectionPlan, max_pppoe_sequence, is_pppoe_prefix,
  is_safe_device_name, valid_vlan, zeros, pad_start, pad_pppoe_sequence, pppoe_section_name,
  pppoe_table_id, device_of, vlan_or, plan_row, plan_rows, build_pppoe_sections,
}

decimal-zeros : (k : ℕ) (s : Units) → decimal 0 (zeros k ++ s) ≡ decimal 0 s
decimal-zeros zero s = refl
decimal-zeros (suc k) s = decimal-zeros k s

-- The padded number can be read back.
pad-decimal :
    (seq : ℕ) (padded : Units)
    → pad_pppoe_sequence seq ≡ some padded
    → (decimal 0 padded ≡ seq) × (1 ≤ seq) × (seq ≤ max_pppoe_sequence)
unfolding pad_pppoe_sequence
pad-decimal seq padded h =
    let text = decimal_text seq in
    let fine = unless-some (ltb seq 1 || ltb max_pppoe_sequence seq) (pad_start 5 text) padded h in
    let range : (1 ≤ seq) × (seq ≤ max_pppoe_sequence) = ground (arith, fine.0) in
    (
      ap (decimal 0) (sym fine.1)
          ∙ decimal-zeros (5 - length text) text
          ∙ decimal-decimal_text seq (omega (arith, range)),
      range.0,
      range.1,
    )

after_prefix : (prefix s t : Units) → prefix ++ s ≡ prefix ++ t → s ≡ t
after_prefix [] s t h = h
after_prefix (c ∷ prefix) s t h = after_prefix prefix s t (tail-eq_of_cons-eq h)

-- What a name that is given satisfies.
record IsName (prefix : Units) (seq : ℕ) (name : Units) : Type 0 where
  padded : Units
  made : prefix ++ padded ≡ name
  read_back : decimal 0 padded ≡ seq
  in_range : (1 ≤ seq) × (seq ≤ max_pppoe_sequence)
  fits : length (codes "pppoe-" ++ name) ≤ 15

pppoe_section_name-IsName :
    (prefix : Units) (seq : ℕ) (name : Units)
    → pppoe_section_name prefix seq ≡ some name
    → IsName prefix seq name
unfolding pppoe_section_name
pppoe_section_name-IsName prefix seq name h = elim (Bool-cases (is_pppoe_prefix prefix)) [
  | inr bad ↦ absurd (cc (h, bad))
  | inl good ↦
      let padded =
        bind-some (pad_pppoe_sequence seq)
          (λ padded.
            if ltb 15 (length (codes "pppoe-" ++ (prefix ++ padded)))
            then none
            else some (prefix ++ padded))
          name
          (subst
            (λ b.
              (if not b
                then none
                else pad_pppoe_sequence seq >>= λ padded.
                    if ltb 15 (length (codes "pppoe-" ++ (prefix ++ padded)))
                    then none
                    else some (prefix ++ padded))
              ≡ some name)
            good h) in
      let short =
        unless-some (ltb 15 (length (codes "pppoe-" ++ (prefix ++ padded.0)))) (prefix ++ padded.0)
          name padded.2 in
      let number = pad-decimal seq padded.0 padded.1 in
      record {
        padded = padded.0;
        made = short.1;
        read_back = number.0;
        in_range = (number.1, number.2);
        fits = subst (λ n. length (codes "pppoe-" ++ n) ≤ 15) short.1 (ground (arith, short.0));
      }
]

not_above : (n k : ℕ) → ltb k n ≡ false → n ≤ k
not_above n k h = ground arith

second_fails : (a b : Bool) → (a || b) ≡ false → b ≡ false
second_fails true b h = absurd cc
second_fails false b h = h

-- A plan of a row: its name is that of its number, its table follows the number, and its device's
-- name is short.
record IsPlan (o : PppoeBuildOptions) (seq : ℕ) (p : PppoeSectionPlan) : Type 0 where
  named : IsName o.prefix seq p.section
  routed : p.table ≡ o.table_base + seq
  in_space : p.table ≤ 2147483647
  short : length p.device ≤ 15

plan_row-IsPlan :
    (o : PppoeBuildOptions) (batch : Option ℕ) (seq : ℕ) (row : PppoeAccount) (p : PppoeSectionPlan)
    → plan_row o batch seq row ≡ some p
    → IsPlan o seq p
unfolding plan_row pppoe_table_id
plan_row-IsPlan o batch seq row p h =
    let section = bind-some (pppoe_section_name o.prefix seq) _ p h in
    let table = bind-some (pppoe_table_id o.table_base seq) _ p section.2 in
    let vlan = bind-some (valid_vlan (vlan_or row.vlan batch)) _ p table.2 in
    let made = unless-some (ltb 15 (length (device_of o.carrier vlan.0))) _ p vlan.2 in
    let routed =
      unless-some (ltb o.table_base 1 || ltb 2147483647 (o.table_base + seq)) (o.table_base + seq)
        table.0 table.1 in
    subst (IsPlan o seq) made.1 (record {
      named = pppoe_section_name-IsName o.prefix seq section.0 section.1;
      routed = sym routed.1;
      in_space = not_above table.0 2147483647 (
          subst (λ t. ltb 2147483647 t ≡ false) routed.1
            (second_fails (ltb o.table_base 1) (ltb 2147483647 (o.table_base + seq)) routed.0));
      short = not_above (length (device_of o.carrier vlan.0)) 15 made.0;
    })

AllPlans : PppoeBuildOptions → ℕ → List PppoeSectionPlan → Type 0
AllPlans o seq [] = Unit
AllPlans o seq (p ∷ plans) = IsPlan o seq p × AllPlans o (suc seq) plans

plan_rows-AllPlans :
    (o : PppoeBuildOptions) (batch : Option ℕ) (seq : ℕ) (rows : List PppoeAccount)
    (plans : List PppoeSectionPlan)
    → plan_rows o batch seq rows ≡ some plans
    → AllPlans o seq plans × (length plans ≡ length rows)
unfolding AllPlans
plan_rows-AllPlans o batch seq [] [] h = (tt, refl)
plan_rows-AllPlans o batch seq [] (p ∷ plans) h = absurd cc
plan_rows-AllPlans o batch seq (row ∷ rows) plans h =
    let first = bind-some (plan_row o batch seq row) _ plans h in
    let rest = bind-some (plan_rows o batch (suc seq) rows) _ plans first.2 in
    let ih = plan_rows-AllPlans o batch (suc seq) rows rest.0 rest.1 in
    subst (λ ps. AllPlans o seq ps × (length ps ≡ suc (length rows)))
      (some_injective (first.0 ∷ rest.0) plans rest.2)
      ((plan_row-IsPlan o batch seq row first.0 first.1, ih.0), omega (arith, ih.1))

AllPlans-get :
    (o : PppoeBuildOptions) (seq i : ℕ) (plans : List PppoeSectionPlan) (p : PppoeSectionPlan)
    → AllPlans o seq plans
    → get_elem? plans i ≡ some p
    → IsPlan o (seq + i) p
unfolding AllPlans
AllPlans-get o seq i [] p a h = absurd cc
AllPlans-get o seq zero (q ∷ plans) p a h =
    subst (IsPlan o (seq + 0)) (some_injective q p h) (subst (λ n. IsPlan o n q) (omega arith) a.0)
AllPlans-get o seq (suc i) (q ∷ plans) p a h =
    subst (λ n. IsPlan o n p) (omega arith) (AllPlans-get o (suc seq) i plans p a.1 h)

build-AllPlans :
    (rows : List PppoeAccount) (o : PppoeBuildOptions) (plans : List PppoeSectionPlan)
    → build_pppoe_sections rows o ≡ some plans
    → AllPlans o o.seq_from plans × (length plans ≡ length rows)
unfolding build_pppoe_sections
build-AllPlans rows o plans h =
    elim (Bool-cases (not (is_pppoe_prefix o.prefix) || not (is_safe_device_name o.carrier))) [
      | inl bad ↦ absurd (cc (h, bad))
      | inr good ↦
          let batch =
            bind-some (valid_vlan o.vlan) (λ batch. plan_rows o batch o.seq_from rows) plans
              (subst
                (λ b.
                  (if b
                    then none
                    else valid_vlan o.vlan >>= λ batch. plan_rows o batch o.seq_from rows)
                  ≡ some plans)
                good h) in
          plan_rows-AllPlans o batch.0 o.seq_from rows plans batch.2
    ]

same_name :
    (prefix : Units) (m n : ℕ) (s t : Units) → IsName prefix m s → IsName prefix n t → s ≡ t → m ≡ n
same_name prefix m n s t a b e =
    let pads = after_prefix prefix a.padded b.padded (a.made ∙ e ∙ sym b.made) in
    sym a.read_back ∙ ap (decimal 0) pads ∙ b.read_back

-- No two interfaces of a batch that is built share a name or a routing table.
pub plans_apart :
    (rows : List PppoeAccount) (o : PppoeBuildOptions) (plans : List PppoeSectionPlan) (i j : ℕ)
    (p q : PppoeSectionPlan)
    → build_pppoe_sections rows o ≡ some plans
    → get_elem? plans i ≡ some p
    → get_elem? plans j ≡ some q
    → i ≢ j
    → (p.section ≢ q.section) × (p.table ≢ q.table)
plans_apart rows o plans i j p q h e f apart =
    let all = (build-AllPlans rows o plans h).0 in
    let a = AllPlans-get o o.seq_from i plans p all e in
    let b = AllPlans-get o o.seq_from j plans q all f in
    (
      λ same.
          let numbers =
            same_name o.prefix (o.seq_from + i) (o.seq_from + j) p.section q.section a.named b.named
              same in
          apart (omega (arith, numbers)),
      λ same. apart (omega (arith, same, a.routed, b.routed)),
    )

-- A batch that is built has one interface for each account; the one at a place takes the next
-- number of the sequence, at most 99,999, and the routing table of that number, which fits 31 bits,
-- and the names of its interface and of its device fit the 15 units that Linux allows.
pub plans_fit :
    (rows : List PppoeAccount) (o : PppoeBuildOptions) (plans : List PppoeSectionPlan) (i : ℕ)
    (p : PppoeSectionPlan)
    → build_pppoe_sections rows o ≡ some plans
    → get_elem? plans i ≡ some p
    → (length plans ≡ length rows)
      × (o.seq_from + i ≤ max_pppoe_sequence)
      × (p.table ≡ o.table_base + (o.seq_from + i))
      × (p.table ≤ 2147483647)
      × (length (codes "pppoe-" ++ p.section) ≤ 15)
      × (length p.device ≤ 15)
plans_fit rows o plans i p h e =
    let all = build-AllPlans rows o plans h in
    let a = AllPlans-get o o.seq_from i plans p all.0 e in
    (all.1, a.named.in_range.1, a.routed, a.in_space, a.named.fits, a.short)
