-- ===== src/Tests/Network.antt =====
-- The theorems on addresses, quoting and the plans of interfaces at concrete inputs.
use bored_manager.Base.{
  ℕ, ◌≤◌, ◌+◌, ◌≡◌, ◌≢◌, ◌⊎◌, refl, Option, none, some, true, List, [], ◌∷◌, ◌++◌, ltb, min, max,
  is_some, ◌^◌, arith, length, codes, Units, decimal_text, decimal,
}
use bored_manager.Addresses.{
  ip_to_int, int_to_ip, Cidr, host, cidr, parse_cidr, enumerate_rule, target,
}
use bored_manager.Addresses.Octets.{ip_to_int-int_to_ip}
use bored_manager.Addresses.Enumeration.{
  lists, is_machine, enumerate_rule_counts, enumerate_cidr_exact,
}
use bored_manager.Shell.{sh_quote}
use bored_manager.Shell.Quoting.{outside, read_word, sh_quote-read}
use bored_manager.Uci.{
  PppoeAccount, PppoeBuildOptions, PppoeSectionPlan, build_pppoe_sections, build_pppoe_uci_lines,
  plan_pppoe_chunks, section_lines, plan_row, pppoe_section_name,
}
use bored_manager.Uci.Chunks.{lines_of, plan-build_lines}
use bored_manager.Base.{◌==◌, nat_key, false}
use bored_manager.Uci.{PppoeUciChunk}
use bored_manager.Uci.Apply.{Turn, apply_uci_chunks}
use bored_manager.Uci.Apply.Pairs.{StopsWell, apply_uci_chunks-StopsWell}
use bored_manager.Uci.Plans.{plans_apart}

-- net.ts
abbrev number : Units → Option ℕ
number s = some (decimal 0 s)

ip_to_int-int_to_ip_example : ip_to_int (int_to_ip 3232235777) ≡ some 3232235777
ip_to_int-int_to_ip_example = ip_to_int-int_to_ip 3232235777 (omega arith)

written : int_to_ip 3232235777 ≡ codes "192.168.1.1"
unfolding int_to_ip
written = refl

abbrev four_machines : Cidr
four_machines = record { base = 167772160; prefix = 29 }

enumerate_cidr_exact_example :
    lists 167772163 (enumerate_rule number cidr (codes "10.0.0.0/29") 256).ips
    ≡ is_machine four_machines 167772163
unfolding parse_cidr ip_to_int enumerate_rule target
enumerate_cidr_exact_example =
    enumerate_cidr_exact number (codes "10.0.0.0/29") 256 167772163 four_machines refl refl

enumerate_rule_counts_example :
    let e = enumerate_rule number host (codes "10.0.0.300") 5 in
    ((e.ips ≡ []) × (e.total ≡ 0) × (is_some e.problem ≡ true))
    ⊎ ((1 ≤ length e.ips)
        × (length e.ips ≡ min e.total (max 1 5))
        × (e.truncated ≡ ltb (length e.ips) e.total)
        × (e.total ≤ 2 ^ 32)
        × (e.problem ≡ none))
enumerate_rule_counts_example = enumerate_rule_counts number host (codes "10.0.0.300") 5

-- shell.ts
sh_quote-read_example :
    read_word outside (sh_quote (codes "it's $HOME; x") ++ codes " next")
    ≡ some (codes "it's $HOME; x", codes " next")
sh_quote-read_example = sh_quote-read (codes "it's $HOME; x") (codes " next") refl

-- uci.ts
abbrev first_account : PppoeAccount
first_account = record { user = codes "u1"; pass = codes "p1"; vlan = some 7 }

abbrev second_account : PppoeAccount
second_account = record { user = codes "u2"; pass = codes "p2"; vlan = some 7 }

abbrev rows : List PppoeAccount
rows = first_account ∷ second_account ∷ []

abbrev options : PppoeBuildOptions
options = record {
  prefix = codes "wan";
  carrier = codes "eth0";
  seq_from = 1;
  table_base = 1000;
  vlan = none;
}

plan-build_lines_example :
    lines_of (plan_pppoe_chunks rows options 1) ≡ build_pppoe_uci_lines rows options
plan-build_lines_example = plan-build_lines rows options 1

abbrev planned : ℕ → Units → PppoeAccount → PppoeSectionPlan
planned seq section row = record {
  seq = seq;
  section = section;
  table = 1000 + seq;
  device = codes "eth0.7";
  vlan = some 7;
  lines = section_lines section (codes "eth0.7") (1000 + seq) row;
}

abbrev first_plan : PppoeSectionPlan
first_plan = planned 1 (codes "wan00001") first_account

abbrev second_plan : PppoeSectionPlan
second_plan = planned 2 (codes "wan00002") second_account

plans_apart_example :
    (first_plan.section ≢ second_plan.section) × (first_plan.table ≢ second_plan.table)
unfolding build_pppoe_sections plan_row pppoe_section_name decimal_text
plans_apart_example =
    plans_apart rows options (first_plan ∷ second_plan ∷ []) 0 1 first_plan second_plan refl refl
      refl (λ same. absurd (omega (arith, same)))

-- The second of two chunks: its reload fails.
abbrev chunk_of : ℕ → PppoeUciChunk
chunk_of n = record {
  index = n;
  total = 2;
  seq_from = n;
  seq_to = n;
  sections = [];
  lines = codes "set network.wan00001=interface" ∷ [];
}

abbrev reload_fails : ℕ → Turn
reload_fails i = record {
  cancelled_before = false;
  batch_succeeds = true;
  reload_succeeds = i == 0;
  polls = [];
}

abbrev two_chunks : List PppoeUciChunk
two_chunks = chunk_of 1 ∷ chunk_of 2 ∷ []

apply_uci_chunks-StopsWell_example :
    StopsWell reload_fails 0 two_chunks (apply_uci_chunks reload_fails 500 0 two_chunks)
apply_uci_chunks-StopsWell_example = apply_uci_chunks-StopsWell reload_fails 500 two_chunks
