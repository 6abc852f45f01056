-- ===== src/Coordinator/Asked.antt =====
-- server/resource-coordinator.ts: an operation runs with every resource that its call has named.
use bored_manager.Base.{
  ℕ, ◌≡◌, refl, ap, sym, ◌∙◌, some, Bool, true, false, List, [], ◌∷◌, ◌++◌, ◌==◌, nat_key, any,
  ◌||◌, ltb, All, All-map, Bool-cases, Option-cases, inl, inr, ◌⊎◌, subst,
}
use mathlib.Core.List.{append_assoc, append-nil}
use bored_manager.Base.Dict
use bored_manager.Base.Dict.{Dict, All-get, All-insert, All-erase}
use bored_manager.Coordinator.{
  Resource, resource_key, rank, insert_name, sorted_names, Phase, waiting, working, Coordinator,
  create_coordinator, is_first, enter, go_on, Event, called, passed, settled, happens, after,
}

-- The event is one of the list.
abbrev pub Was : Event → List Event → Type 0
Was e [] = false ≡ true
Was e (x ∷ es) = (x ≡ e) ⊎ Was e es

Was-append : (e : Event) (es more : List Event) → Was e es → Was e (es ++ more)
Was-append e [] more w = absurd cc
Was-append e (x ∷ es) more (inl h) = inl h
Was-append e (x ∷ es) more (inr w) = inr (Was-append e es more w)

Was-last : (e : Event) (es : List Event) → Was e (es ++ (e ∷ []))
Was-last e [] = inl refl
Was-last e (x ∷ es) = inr (Was-last e es)

-- The names of a run, acquired and to come.
abbrev names_of : Phase → List Resource
names_of (waiting held n rest) = held ++ (n ∷ rest)
names_of (working held) = held

abbrev IsAsked : List Event → ℕ × Phase → Type 0
IsAsked es (r, p) =
    (resources : List Resource) × Was (called r resources) es
    × (names_of p ≡ sorted_names resources)

AllAsked : List Event → Coordinator → Type 0
AllAsked es c = All (IsAsked es) c.runs

enter-AllAsked :
    (es : List Event) (r : ℕ) (held names : List Resource) (c : Coordinator)
    → ((resources : List Resource) × Was (called r resources) es
        × (held ++ names ≡ sorted_names resources))
    → AllAsked es c
    → AllAsked es (enter r held names c)
unfolding enter AllAsked
enter-AllAsked es r held [] c (resources, was, e) a =
    All-insert (IsAsked es) r (working held) c.runs
      (λ j same. (
        resources,
        subst (λ k. Was (called k resources) es) (sym same) was,
        sym (append-nil held) ∙ e,
      ))
      a
enter-AllAsked es r held (n ∷ rest) c (resources, was, e) a =
    All-insert (IsAsked es) r (waiting held n rest) c.runs
      (λ j same. (resources, subst (λ k. Was (called k resources) es) (sym same) was, e)) a

go_on-AllAsked :
    (es : List Event) (r : ℕ) (p : Phase) (c : Coordinator)
    → Dict.get r c.runs ≡ some p
    → AllAsked es c
    → AllAsked es (go_on r p c)
unfolding go_on AllAsked
go_on-AllAsked es r (working held) c e a = a
go_on-AllAsked es r (waiting held n rest) c e a = elim (Bool-cases (is_first n r c.gates)) [
  | inr behind ↦ rw behind a
  | inl first ↦
      let told = All-get (IsAsked es) r c.runs a e in
      rw first (
        enter-AllAsked es r (held ++ (n ∷ [])) rest c
          (told.0, told.1, append_assoc held (n ∷ []) rest ∙ told.2) a)
]

happens-AllAsked :
    (es : List Event) (e : Event) (c : Coordinator)
    → Was e es
    → AllAsked es c
    → AllAsked es (happens e c)
unfolding happens AllAsked
happens-AllAsked es (called r resources) c was a = elim (Option-cases (Dict.get r c.runs)) [
  | inl e ↦
      rw (e, happens) (enter-AllAsked es r [] (sorted_names resources) c (resources, was, refl) a)
  | inr (p, e) ↦ rw (e, happens) a
]
happens-AllAsked es (passed r) c was a = elim (Option-cases (Dict.get r c.runs)) [
  | inl e ↦ rw (e, happens) a
  | inr (p, e) ↦ rw (e, happens) (go_on-AllAsked es r p c e a)
]
happens-AllAsked es (settled r) c was a = elim (Option-cases (Dict.get r c.runs)) [
  | inl e ↦ rw (e, happens) a
  | inr (waiting held n rest, e) ↦ rw (e, happens) a
  | inr (working held, e) ↦ rw (e, happens) (All-erase (IsAsked es) r c.runs a)
]

after-AllAsked :
    (before es : List Event) (c : Coordinator)
    → AllAsked before c
    → AllAsked (before ++ es) (after es c)
unfolding after AllAsked
after-AllAsked before [] c a = subst (λ l. All (IsAsked l) c.runs) (sym (append-nil before)) a
after-AllAsked before (e ∷ es) c a =
    let more = before ++ (e ∷ []) in
    let wider =
      All-map (IsAsked before) (IsAsked more) c.runs
        (λ x t. (t.0, Was-append (called x.0 t.0) before (e ∷ []) t.1, t.2)) a in
    let next = happens-AllAsked more e c (Was-last e before) wider in
    subst (λ l. All (IsAsked l) (after es (happens e c)).runs) (append_assoc before (e ∷ []) es)
      (after-AllAsked more es (happens e c) next)

or_swap : (a b c : Bool) → (a || (b || c)) ≡ (b || (a || c))
or_swap true true c = refl
or_swap true false c = refl
or_swap false true c = refl
or_swap false false c = refl

or_twice : (a b : Bool) → (a || (a || b)) ≡ (a || b)
or_twice true b = refl
or_twice false b = refl

insert_name-any :
    (m n : Resource) (ns : List Resource)
    → any (λ k. k == m) (insert_name n ns) ≡ (n == m || any (λ k. k == m) ns)
insert_name-any m n [] = refl
insert_name-any m n (x ∷ ns) = elim (Bool-cases (ltb (rank n) (rank x))) [
  | inl before ↦ rw before refl
  | inr behind ↦ elim (Bool-cases (n == x)) [
    | inl same ↦
        rw (behind, same)
          (subst
            (λ k. (x == m || any (λ j. j == m) ns) ≡ (k == m || (x == m || any (λ j. j == m) ns)))
            (sym ((resource_key.equal_iff n x).0 same))
            (sym (or_twice (x == m) (any (λ j. j == m) ns))))
    | inr other ↦
        rw (behind, other, insert_name-any m n ns)
          (or_swap (x == m) (n == m) (any (λ j. j == m) ns))
  ]
]

sorted_names-any :
    (m : Resource) (ns : List Resource) → any (λ k. k == m) (sorted_names ns) ≡ any (λ k. k == m) ns
sorted_names-any m [] = refl
sorted_names-any m (n ∷ ns) =
    insert_name-any m n (sorted_names ns) ∙ ap (λ b. n == m || b) (sorted_names-any m ns)

-- After any sequence of events, a run whose operation runs holds exactly the resources that a call
-- of it has named, in whichever order and however often they were named.
pub works_with_all :
    (es : List Event) (r : ℕ) (held : List Resource) (n : Resource)
    → Dict.get r (after es create_coordinator).runs ≡ some (working held)
    → (resources : List Resource) × Was (called r resources) es
      × (any (λ k. k == n) held ≡ any (λ k. k == n) resources)
unfolding AllAsked
works_with_all es r held n e =
    let told =
      All-get (IsAsked es) r (after es create_coordinator).runs
        (after-AllAsked [] es create_coordinator tt) e in
    (told.0, told.1, ap (any (λ k. k == n)) told.2 ∙ sorted_names-any n told.0)
