-- ===== src/Shell/Quoting.antt =====
-- shared/shell.ts `shQuote` and modules/openwrt/main/parse.ts `uciQuote` against the shell's own
-- rules for reading a word.
use bored_manager.Base.{
  ℕ, Bool, true, [], ◌∷◌, ◌++◌, ◌≡◌, refl, ◌||◌, eqb, if◌then◌else◌, Units, Option, none, some,
  arith, Bool-cases, ap, sym, ◌∙◌, eqb_iff, inl, inr,
}
use mathlib.Core.List.{append_assoc}
use bored_manager.Shell.{escape, sh_quote, uci_quote}

-- What ends a word: a blank, the end of the line, an operator.
abbrev pub ends_word : ℕ → Bool
ends_word c =
    eqb c b' '
    || eqb c 9
    || eqb c 10
    || eqb c b';'
    || eqb c b'&'
    || eqb c b'|'
    || eqb c b'<'
    || eqb c b'>'
    || eqb c b'('
    || eqb c b')'

-- What an unquoted word may not hold literally: expansions, substitutions, patterns.
abbrev pub is_active : ℕ → Bool
is_active c =
    eqb c b'$'
    || eqb c 96
    || eqb c b'"'
    || eqb c b'*'
    || eqb c b'?'
    || eqb c b'['
    || eqb c b'#'
    || eqb c b'~'

pub data Mode : Type 0 where
  outside inside escaped : Mode

abbrev with_unit : ℕ → Option (Units × Units) → Option (Units × Units)
with_unit c none = none
with_unit c (some (word, rest)) = some (c ∷ word, rest)

-- The word at the front of a line and what follows it; `none` when it is not a literal word.
unfoldable pub read_word : Mode → Units → Option (Units × Units)
read_word outside [] = some ([], [])
read_word outside (c ∷ s) =
    let quoted = read_word inside s in
    let literal = read_word escaped s in
    let more = read_word outside s in
    if eqb c 39
    then quoted
    else if eqb c 92
    then literal
    else if ends_word c
    then some ([], c ∷ s)
    else if is_active c
    then none
    else with_unit c more
read_word inside [] = none
read_word inside (c ∷ s) =
    let closed = read_word outside s in
    let more = read_word inside s in if eqb c 39 then closed else with_unit c more
read_word escaped [] = none
read_word escaped (c ∷ s) = with_unit c (read_word outside s)

abbrev pub can_follow : Units → Bool
can_follow [] = true
can_follow (c ∷ s) = ends_word c

after_word : (rest : Units) → can_follow rest ≡ true → read_word outside rest ≡ some ([], rest)
unfolding read_word
after_word [] h = refl
after_word (c ∷ s) h = ground arith

escape-read :
    (s rest : Units)
    → can_follow rest ≡ true
    → read_word inside (escape s ++ (39 ∷ rest)) ≡ some (s, rest)
unfolding read_word
escape-read [] rest h = after_word rest h
escape-read (c ∷ s) rest h = elim (Bool-cases (eqb c 39)) [
  | inl quote ↦
      rw (quote, escape-read s rest h) (ap (λ x. some (x ∷ s, rest)) (sym ((eqb_iff c 39).0 quote)))
  | inr plain ↦ ground (arith, plain, escape-read s rest h)
]

quote-append :
    (s rest : Units) → (39 ∷ escape s ++ (39 ∷ [])) ++ rest ≡ 39 ∷ (escape s ++ (39 ∷ rest))
quote-append s rest = ap (λ x. 39 ∷ x) (append_assoc (escape s) (39 ∷ []) rest)

-- However a text is made up, the shell reads its quoted form, in front of anything that ends a
-- word, as one literal word, which is the text: nothing in it is expanded, split off or run.
pub sh_quote-read :
    (s rest : Units)
    → can_follow rest ≡ true
    → read_word outside (sh_quote s ++ rest) ≡ some (s, rest)
unfolding sh_quote read_word
sh_quote-read s rest h = ap (read_word outside) (quote-append s rest) ∙ escape-read s rest h

-- The same holds for a value quoted for a line of `uci batch`, up to the line's end.
pub uci_quote-read : (value : Units) → read_word outside (uci_quote value) ≡ some (value, [])
unfolding uci_quote read_word
uci_quote-read value = escape-read value [] refl
