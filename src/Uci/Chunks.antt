-- ===== src/Uci/Chunks.antt =====
-- modules/openwrt/main/uci.ts `planPppoeChunks` against `buildPppoeUciLines`: the chunks divide the
-- work without changing it.
use bored_manager.Base.{
  ℕ, zero, suc, ◌*◌, ◌≤◌, max, Option, none, some, List, [], ◌∷◌, ◌++◌, ◌≡◌, refl, ap, sym, ◌∙◌,
  length, take, drop, length-take, length-drop, take-append-drop, arith, Option-cases, bind-some,
  inl, inr, ◌>>=◌, Units, All,
}
use mathlib.Core.List.{flatten, append_assoc}
use native.Mathlib.Nat.{mul-zero, mul-suc}
use bored_manager.Uci.{
  PppoeAccount, PppoeBuildOptions, PppoeSectionPlan, max_pppoe_chunks, build_pppoe_sections,
  Written, write_section, write_after, write_sections, build_pppoe_uci_lines, chunk_rounds,
  chunk_values, effective_pppoe_chunk_size, PppoeUciChunk, plan_chunks, plan_pppoe_chunks,
}

module _ {ℓ} {A : Type ℓ} where
  flatten-chunk_rounds :
      (rounds size : ℕ) (values : List A)
      → 1 ≤ size
      → length values ≤ rounds
      → flatten (chunk_rounds rounds size values) ≡ values
  unfolding flatten
  flatten-chunk_rounds zero size [] pos h = refl
  flatten-chunk_rounds zero size (v ∷ values) pos h = absurd (omega arith)
  flatten-chunk_rounds (suc rounds) size [] pos h = refl
  flatten-chunk_rounds (suc rounds) size (v ∷ values) pos h =
      let rest = drop size (v ∷ values) in
      ap (λ x. take size (v ∷ values) ++ x)
        (flatten-chunk_rounds rounds size rest pos (omega (arith, length-drop size (v ∷ values))))
      ∙ take-append-drop size (v ∷ values)

  -- So many chunks are enough for so many times their size.
  length-chunk_rounds :
      (rounds size count : ℕ) (values : List A)
      → length values ≤ size * count
      → length (chunk_rounds rounds size values) ≤ count
  length-chunk_rounds zero size count values h = omega arith
  length-chunk_rounds (suc rounds) size count [] h = omega arith
  length-chunk_rounds (suc rounds) size zero (v ∷ values) h = absurd (omega (arith, mul-zero size))
  length-chunk_rounds (suc rounds) size (suc count) (v ∷ values) h = omega (
    arith,
    length-chunk_rounds rounds size count (drop size (v ∷ values))
        (omega (arith, length-drop size (v ∷ values), mul-suc size count)),
  )

  chunk_rounds-sizes :
      (rounds size : ℕ) (values : List A)
      → 1 ≤ size
      → All (λ (c : List A). (1 ≤ length c) × (length c ≤ size)) (chunk_rounds rounds size values)
  chunk_rounds-sizes zero size values pos = tt
  chunk_rounds-sizes (suc rounds) size [] pos = tt
  chunk_rounds-sizes (suc rounds) size (v ∷ values) pos = (
    (omega (arith, length-take size (v ∷ values)), omega (arith, length-take size (v ∷ values))),
    chunk_rounds-sizes rounds size (drop size (v ∷ values)) pos,
  )

write_sections-append :
    (carrier : Units) (emitted : List ℕ) (xs ys : List PppoeSectionPlan)
    → write_sections carrier emitted (xs ++ ys) ≡ (
        write_sections carrier emitted xs >>= λ w.
        write_after w (write_sections carrier w.emitted ys))
unfolding write_sections
write_sections-append carrier emitted [] ys =
    elim (Option-cases (write_sections carrier emitted ys)) [
      | inl e ↦ rw e refl
      | inr (w, e) ↦ rw e refl
    ]
write_sections-append carrier emitted (x ∷ xs) ys =
    elim (Option-cases (write_section carrier emitted x)) [
      | inl e ↦ rw e refl
      | inr (w, e) ↦ elim (Option-cases (write_sections carrier w.emitted xs)) [
        | inl f ↦ rw (e, write_sections-append carrier w.emitted xs ys, f) refl
        | inr (u, f) ↦ elim (Option-cases (write_sections carrier u.emitted ys)) [
          | inl g ↦ rw (e, write_sections-append carrier w.emitted xs ys, f, g) refl
          | inr (t, g) ↦
              rw (e, write_sections-append carrier w.emitted xs ys, f, g)
                (ap (λ l. some (record t { lines = l }))
                  (sym (append_assoc w.lines u.lines t.lines)))
        ]
      ]
    ]

-- The lines of some chunks, one chunk after the other.
abbrev pub all_lines : List PppoeUciChunk → List Units
all_lines [] = []
all_lines (c ∷ chunks) = c.lines ++ all_lines chunks

abbrev pub lines_of : Option (List PppoeUciChunk) → Option (List Units)
lines_of none = none
lines_of (some chunks) = some (all_lines chunks)

abbrev just_lines : Option Written → Option (List Units)
just_lines o = o >>= λ w. some w.lines

lines_of-cons :
    (first : PppoeUciChunk) (w : Written) (rest : Option (List PppoeUciChunk))
    (more : Option Written)
    → first.lines ≡ w.lines
    → lines_of rest ≡ just_lines more
    → lines_of (rest >>= λ chunks. some (first ∷ chunks)) ≡ just_lines (write_after w more)
lines_of-cons first w none none e h = refl
lines_of-cons first w none (some t) e h = absurd cc
lines_of-cons first w (some chunks) none e h = absurd cc
lines_of-cons first w (some chunks) (some t) e h = cc (e, h)

plan_chunks-lines :
    (o : PppoeBuildOptions) (total index : ℕ) (emitted : List ℕ)
    (chunks : List (List PppoeSectionPlan))
    → lines_of (plan_chunks o total index emitted chunks)
      ≡ just_lines (write_sections o.carrier emitted (flatten chunks))
unfolding plan_chunks flatten write_sections
plan_chunks-lines o total index emitted [] = refl
plan_chunks-lines o total index emitted (c ∷ chunks) =
    elim (Option-cases (write_sections o.carrier emitted c)) [
      | inl e ↦ rw (write_sections-append o.carrier emitted c (flatten chunks), e) refl
      | inr (w, e) ↦
          rw (write_sections-append o.carrier emitted c (flatten chunks), e)
            (lines_of-cons _ w (plan_chunks o total (suc index) w.emitted chunks)
              (write_sections o.carrier w.emitted (flatten chunks)) refl
              (plan_chunks-lines o total (suc index) w.emitted chunks))
    ]

chunk_values-flatten :
    (sections : List PppoeSectionPlan) (size : ℕ) → flatten (chunk_values sections size) ≡ sections
unfolding chunk_values
chunk_values-flatten sections size =
    flatten-chunk_rounds (length sections) (max 1 size) sections (omega arith) (omega arith)

-- The lines of the planned chunks, one chunk after the other, are exactly the lines of the whole
-- batch written at once, whatever chunk size is asked for; and the plan fails exactly when the
-- batch does.
pub plan-build_lines :
    (rows : List PppoeAccount) (o : PppoeBuildOptions) (requested : ℕ)
    → lines_of (plan_pppoe_chunks rows o requested) ≡ build_pppoe_uci_lines rows o
unfolding plan_pppoe_chunks build_pppoe_uci_lines
plan-build_lines rows o requested = elim (Option-cases (build_pppoe_sections rows o)) [
  | inl e ↦ rw e refl
  | inr (sections, e) ↦
      let size = effective_pppoe_chunk_size (length sections) requested in
      let chunks = chunk_values sections size in
      rw e (
        plan_chunks-lines o (length chunks) 0 [] chunks
        ∙ ap (λ x. just_lines (write_sections o.carrier [] x)) (chunk_values-flatten sections size))
]

length-plan_chunks :
    (o : PppoeBuildOptions) (total index : ℕ) (emitted : List ℕ)
    (chunks : List (List PppoeSectionPlan)) (planned : List PppoeUciChunk)
    → plan_chunks o total index emitted chunks ≡ some planned
    → length planned ≡ length chunks
unfolding plan_chunks
length-plan_chunks o total index emitted [] planned h = ground arith
length-plan_chunks o total index emitted (c ∷ chunks) planned h =
    let w = bind-some (write_sections o.carrier emitted c) _ planned h in
    let rest = bind-some (plan_chunks o total (suc index) w.0.emitted chunks) _ planned w.2 in
    ground (arith, rest.2, length-plan_chunks o total (suc index) w.0.emitted chunks rest.0 rest.1)

-- A plan has at most 100 chunks, however many accounts there are and whatever chunk size is asked
-- for.
pub plan_pppoe_chunks_bounded :
    (rows : List PppoeAccount) (o : PppoeBuildOptions) (requested : ℕ)
    (planned : List PppoeUciChunk)
    → plan_pppoe_chunks rows o requested ≡ some planned
    → length planned ≤ max_pppoe_chunks
unfolding plan_pppoe_chunks effective_pppoe_chunk_size chunk_values
plan_pppoe_chunks_bounded rows o requested planned h =
    let b = bind-some (build_pppoe_sections rows o) _ planned h in
    let n = length b.0 in
    let size = effective_pppoe_chunk_size n requested in
    let chunks = chunk_values b.0 size in
    let made = length-plan_chunks o (length chunks) 0 [] chunks planned b.2 in
    let room : n ≤ max 1 size * 100 = omega arith in
    omega (arith, made, length-chunk_rounds n (max 1 size) 100 b.0 room)
