-- ===== src/Shell.antt =====
-- shared/shell.ts: the quoting of a text for the shell of the target machine, which
-- modules/openwrt/main/parse.ts repeats for the lines of `uci batch`, and the sections of a batched
-- command's output.
pub mod Quoting
use bored_manager.Base.{
  ℕ, String, Bool, true, false, List, [], ◌∷◌, ◌++◌, ◌&&◌, ◌||◌, ◌==◌, eqb, leb, is_upper,
  if◌then◌else◌, Units, codes, every, Option, none, some, length, take, drop, ltb,
}

-- `s.replace(/'/g, "'\\''")`
abbrev pub escape : Units → Units
escape [] = []
escape (c ∷ s) = let rest = escape s in if eqb c 39 then 39 ∷ 92 ∷ 39 ∷ 39 ∷ rest else c ∷ rest

unfoldable pub sh_quote : Units → Units
sh_quote s = 39 ∷ escape s ++ (39 ∷ [])

unfoldable pub uci_quote : Units → Units
uci_quote value = 39 ∷ escape value ++ (39 ∷ [])
