-- ===== src/Uci.antt =====
-- modules/openwrt/main/uci.ts: the plan of a batch of PPPoE interfaces and its `uci batch` lines.
-- A text is the list of its UTF-16 units; the numbers are whole and not negative, as `wholeNumber`
-- asks; `none` stands for an error that is thrown.
pub mod Plans
pub mod Chunks
pub mod Apply
use bored_manager.Base.{
  ℕ, zero, suc, ◌+◌, ◌-◌, ◌*◌, ◌/◌, max, String, Option, none, some, Bool, true, false, List, [],
  ◌∷◌, ◌++◌, ◌==◌, nat_key, ltb, leb, eqb, ◌&&◌, ◌||◌, not, any, every, length, take, drop,
  is_lower, is_upper, is_digit, if◌then◌else◌, ◌>>=◌, Units, codes, decimal_text, or_else, map,
}
use bored_manager.Shell.{uci_quote}

pub record PppoeAccount : Type 0 where
  pub user : Units
  pub pass : Units
  pub vlan : Option ℕ

pub record PppoeBuildOptions : Type 0 where
  pub prefix : Units
  pub carrier : Units
  pub seq_from : ℕ
  pub table_base : ℕ
  pub vlan : Option ℕ

pub record PppoeSectionPlan : Type 0 where
  pub seq : ℕ
  pub section : Units
  pub table : ℕ
  pub device : Units
  pub vlan : Option ℕ
  pub lines : List Units

abbrev pub max_pppoe_sequence : ℕ
max_pppoe_sequence = 99999

abbrev pub max_pppoe_chunks : ℕ
max_pppoe_chunks = 100

-- `/^[a-z][a-z0-9]{0,3}$/`
unfoldable pub is_pppoe_prefix : Units → Bool
is_pppoe_prefix [] = false
is_pppoe_prefix (c ∷ s) = is_lower c && every (λ d. is_lower d || is_digit d) s && leb (length s) 3

abbrev is_device_unit : ℕ → Bool
is_device_unit c =
    is_upper c
    || is_lower c
    || is_digit c
    || eqb c b'_'
    || eqb c b'.'
    || eqb c b':'
    || eqb c b'@'
    || eqb c b'-'

-- `/^[A-Za-z0-9][A-Za-z0-9_.:@-]{0,31}$/`
unfoldable pub is_safe_device_name : Units → Bool
is_safe_device_name [] = false
is_safe_device_name (c ∷ s) =
    (is_upper c || is_lower c || is_digit c) && every is_device_unit s && leb (length s) 31

-- `validVlan`: the vlan, or an error
unfoldable pub valid_vlan : Option ℕ → Option (Option ℕ)
valid_vlan none = some none
valid_vlan (some vlan) = if leb 1 vlan && leb vlan 4094 then some (some vlan) else none

abbrev pub zeros : ℕ → Units
zeros zero = []
zeros (suc n) = b'0' ∷ zeros n

abbrev pub pad_start : ℕ → Units → Units
pad_start n s = zeros (n - length s) ++ s

unfoldable pub pad_pppoe_sequence : ℕ → Option Units
pad_pppoe_sequence seq =
    if ltb seq 1 || ltb max_pppoe_sequence seq then none else some (pad_start 5 (decimal_text seq))

unfoldable pub pppoe_section_name : Units → ℕ → Option Units
unfolding pad_pppoe_sequence is_pppoe_prefix
pppoe_section_name prefix seq =
    if not (is_pppoe_prefix prefix)
    then none
    else pad_pppoe_sequence seq >>= λ padded.
        if ltb 15 (length (codes "pppoe-" ++ (prefix ++ padded)))
        then none
        else some (prefix ++ padded)

unfoldable pub pppoe_table_id : ℕ → ℕ → Option ℕ
pppoe_table_id base seq =
    let table = base + seq in if ltb base 1 || ltb 2147483647 table then none else some table

abbrev pub setting : Units → String → Units → Units
setting section key value =
    codes "set network." ++ (section ++ (codes key ++ (b'=' ∷ uci_quote value)))

-- A section's header line: `set network.${section}=${kind}`
abbrev pub header : Units → String → Units
header section kind = codes "set network." ++ (section ++ (b'=' ∷ codes kind))

abbrev pub vlan_device : Units → ℕ → Units
vlan_device carrier vlan = carrier ++ (b'.' ∷ decimal_text vlan)

unfoldable pub vlan_lines : Units → ℕ → Option (List Units)
unfolding valid_vlan
vlan_lines carrier vlan = valid_vlan (some vlan) >>= λ checked.
    let section = codes "bmv" ++ decimal_text vlan in
    let device = vlan_device carrier vlan in
    if ltb 15 (length device)
    then none
    else some (
        header section "device"
        ∷ setting section ".type" (codes "8021q")
        ∷ setting section ".ifname" carrier
        ∷ setting section ".vid" (decimal_text vlan)
        ∷ setting section ".name" device
        ∷ [])

abbrev pub device_of : Units → Option ℕ → Units
device_of carrier none = carrier
device_of carrier (some vlan) = vlan_device carrier vlan

abbrev pub section_lines : Units → Units → ℕ → PppoeAccount → List Units
section_lines section device table row =
    header section "interface"
    ∷ setting section ".proto" (codes "pppoe")
    ∷ setting section ".device" device
    ∷ setting section ".username" row.user
    ∷ setting section ".password" row.pass
    ∷ setting section ".ipv6" (codes "0")
    ∷ setting section ".peerdns" (codes "0")
    ∷ setting section ".defaultroute" (codes "1")
    ∷ setting section ".ip4table" (decimal_text table)
    ∷ setting section ".metric" (decimal_text table)
    ∷ []

-- `row.vlan ?? batchVlan`
abbrev pub vlan_or : Option ℕ → Option ℕ → Option ℕ
vlan_or none batch = batch
vlan_or (some vlan) batch = some vlan

-- The body of the map over the rows.
unfoldable pub plan_row : PppoeBuildOptions → Option ℕ → ℕ → PppoeAccount → Option PppoeSectionPlan
unfolding pppoe_section_name pppoe_table_id valid_vlan
plan_row o batch seq row = pppoe_section_name o.prefix seq >>= λ section.
    pppoe_table_id o.table_base seq >>= λ table. valid_vlan (vlan_or row.vlan batch) >>= λ vlan.
    if ltb 15 (length (device_of o.carrier vlan))
    then none
    else some (record {
      seq = seq;
      section = section;
      table = table;
      device = device_of o.carrier vlan;
      vlan = vlan;
      lines = section_lines section (device_of o.carrier vlan) table row;
    })

-- The map itself, from a sequence number on.
abbrev pub plan_rows :
    PppoeBuildOptions → Option ℕ → ℕ → List PppoeAccount → Option (List PppoeSectionPlan)
plan_rows o batch seq [] = some []
plan_rows o batch seq (row ∷ rows) =
    let rest = plan_rows o batch (suc seq) rows in
    plan_row o batch seq row >>= λ plan. rest >>= λ plans. some (plan ∷ plans)

unfoldable pub build_pppoe_sections :
    List PppoeAccount → PppoeBuildOptions → Option (List PppoeSectionPlan)
unfolding is_pppoe_prefix is_safe_device_name valid_vlan
build_pppoe_sections rows o =
    if not (is_pppoe_prefix o.prefix) || not (is_safe_device_name o.carrier)
    then none
    else valid_vlan o.vlan >>= λ batch. plan_rows o batch o.seq_from rows

-- The loop that writes sections: the VLANs emitted so far, and the lines.
pub record Written : Type 0 where
  pub emitted : List ℕ
  pub lines : List Units

abbrev pub write_vlan : Units → List ℕ → Option ℕ → Option Written
write_vlan carrier emitted none = some (record { emitted = emitted; lines = [] })
write_vlan carrier emitted (some vlan) =
    if any (λ v. v == vlan) emitted
    then some (record { emitted = emitted; lines = [] })
    else vlan_lines carrier vlan >>= λ lines.
        some (record { emitted = vlan ∷ emitted; lines = lines })

abbrev pub write_section : Units → List ℕ → PppoeSectionPlan → Option Written
write_section carrier emitted plan = write_vlan carrier emitted plan.vlan >>= λ w.
    some (record { emitted = w.emitted; lines = w.lines ++ plan.lines })

abbrev pub write_after : Written → Option Written → Option Written
write_after first rest = rest >>= λ w. some (record w { lines = first.lines ++ w.lines })

unfoldable pub write_sections : Units → List ℕ → List PppoeSectionPlan → Option Written
write_sections carrier emitted [] = some (record { emitted = emitted; lines = [] })
write_sections carrier emitted (plan ∷ plans) = write_section carrier emitted plan >>= λ w.
    write_after w (write_sections carrier w.emitted plans)

unfoldable pub build_pppoe_uci_lines : List PppoeAccount → PppoeBuildOptions → Option (List Units)
unfolding build_pppoe_sections write_sections
build_pppoe_uci_lines rows o = build_pppoe_sections rows o >>= λ sections.
    write_sections o.carrier [] sections >>= λ w. some w.lines

-- The loop of `chunkValues`; as many rounds as there are values are enough.
abbrev pub chunk_rounds {ℓ} : {A : Type ℓ} → ℕ → ℕ → List A → List (List A)
chunk_rounds zero size values = []
chunk_rounds (suc rounds) size [] = []
chunk_rounds (suc rounds) size (v ∷ values) =
    take size (v ∷ values) ∷ chunk_rounds rounds size (drop size (v ∷ values))

unfoldable pub chunk_values {ℓ} : {A : Type ℓ} → List A → ℕ → List (List A)
chunk_values values size_raw = chunk_rounds (length values) (max 1 size_raw) values

-- `Math.ceil(count / MAX_PPPOE_CHUNKS) || 1`
unfoldable pub effective_pppoe_chunk_size : ℕ → ℕ → ℕ
effective_pppoe_chunk_size count requested =
    max (max 1 requested) (max 1 ((count + 99) / max_pppoe_chunks))

pub record PppoeUciChunk : Type 0 where
  pub index : ℕ
  pub total : ℕ
  pub seq_from : ℕ
  pub seq_to : ℕ
  pub sections : List Units
  pub lines : List Units

abbrev pub first_seq : ℕ → List PppoeSectionPlan → ℕ
first_seq default [] = default
first_seq default (plan ∷ plans) = plan.seq

abbrev pub last_seq : ℕ → List PppoeSectionPlan → ℕ
last_seq default [] = default
last_seq default (plan ∷ plans) = last_seq plan.seq plans

-- The map over the chunks, from an index on, with the VLANs emitted so far.
unfoldable pub plan_chunks :
    PppoeBuildOptions → ℕ → ℕ → List ℕ → List (List PppoeSectionPlan) → Option (List PppoeUciChunk)
unfolding write_sections
plan_chunks o total index emitted [] = some []
plan_chunks o total index emitted (chunk ∷ chunks) = write_sections o.carrier emitted chunk >>= λ w.
    plan_chunks o total (suc index) w.emitted chunks >>= λ rest. some (
      record {
        index = suc index;
        total = total;
        seq_from = first_seq o.seq_from chunk;
        seq_to = last_seq o.seq_from chunk;
        sections = map (λ plan. plan.section) chunk;
        lines = w.lines;
      }
      ∷ rest)

unfoldable pub plan_pppoe_chunks :
    List PppoeAccount → PppoeBuildOptions → ℕ → Option (List PppoeUciChunk)
unfolding build_pppoe_sections chunk_values effective_pppoe_chunk_size plan_chunks
plan_pppoe_chunks rows o requested = build_pppoe_sections rows o >>= λ sections.
    let chunks = chunk_values sections (effective_pppoe_chunk_size (length sections) requested) in
    plan_chunks o (length chunks) 0 [] chunks
