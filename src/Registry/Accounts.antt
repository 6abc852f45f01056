-- ===== src/Registry/Accounts.antt =====
-- server/session-registry.ts: what becomes of every resource that was ever registered.
use bored_manager.Base.{
  ℕ, suc, ◌+◌, ◌≤◌, String, none, Bool, true, false, List, [], ◌∷◌, ◌++◌, ◌≡◌, refl, ◌==◌, nat_key,
  not, every, keep, is_some, if◌then◌else◌, arith, eqb_iff, Bool-cases, Option-cases, subst, inl,
  inr, ◌⊎◌,
}
use bored_manager.Base.Dict
use bored_manager.Base.Dict.{Dict, get-insert, get-erase}
use bored_manager.Base.Dict.Distinct.{IsDistinct, insert-IsDistinct, erase-IsDistinct}
use bored_manager.Registry.{
  Registry, RegistryState, active, shutting_down, disposed, Drain, idle, settling, pausing,
  returned, over, keys, register, unregister, dispose, round, dispose_all, resume, expire, close,
  nothing_left, is_settled,
}
use bored_manager.Registry.Events.{
  Event, registers, unregisters, disposes, shuts_down, resumes, expires, closes, settles, finalizes,
  step, registry_after, count, unregistered, is_held, is_active, was_registered,
}

abbrev is_idle : Drain → Bool
is_idle idle = true
is_idle _ = false

record IsAccounted (gone : List ℕ) (r : Registry) : Type 0 where
  distinct : IsDistinct r.items
  settled_up : (id : ℕ) → is_held id r + count id r.calls + count id gone ≡ was_registered id r
  emptied : is_active r.state ≡ false → r.items ≡ []
  begun : is_idle r.drain ≡ false → is_active r.state ≡ false

count-append : (id : ℕ) (xs ys : List ℕ) → count id (xs ++ ys) ≡ count id xs + count id ys
count-append id [] ys = omega arith
count-append id (x ∷ xs) ys = ground (arith, count-append id xs ys)

count-keys :
    (id : ℕ) (items : Dict ℕ String)
    → IsDistinct items
    → count id (keys items) ≡ (if is_some (Dict.get id items) then 1 else 0)
unfolding Dict.get
count-keys id [] d = refl
count-keys id ((j, name) ∷ items) d = ground (arith, count-keys id items d.1, d.0, eqb_iff j id)

round-IsAccounted :
    (gone : List ℕ) (is_late : Bool) (r : Registry)
    → IsDistinct r.items
    → ((id : ℕ) → is_held id r + count id r.calls + count id gone ≡ was_registered id r)
    → is_active r.state ≡ false
    → IsAccounted gone (round is_late r)
unfolding round Dict.get
round-IsAccounted gone is_late r d s shut = record {
  distinct = tt;
  settled_up =
      λ id. omega (arith, s id, count-append id (keys r.items) r.calls, count-keys id r.items d);
  emptied = λ e. refl;
  begun = λ e. shut;
}

new_id-free :
    (gone : List ℕ) (r : Registry) → IsAccounted gone r → Dict.get (suc r.counter) r.items ≡ none
new_id-free gone r a = ground (arith, a.settled_up (suc r.counter))

register-IsAccounted :
    (gone : List ℕ) (name : String) (r : Registry) (s : RegistryState)
    → r.state ≡ s
    → IsAccounted gone r
    → IsAccounted gone (register name r)
unfolding register
register-IsAccounted gone name r active e a =
    rw (e, register)
      (record {
        distinct = insert-IsDistinct (suc r.counter) name r.items a.distinct;
        settled_up = λ id. ground (
          arith,
          a.settled_up id,
          get-insert (suc r.counter) id name r.items,
          eqb_iff (suc r.counter) id,
        );
        emptied = λ h. absurd (ground arith);
        begun = λ h. absurd (ground (arith, a.begun h));
      })
register-IsAccounted gone name r shutting_down e a =
    rw (e, register)
      (record {
        distinct = a.distinct;
        settled_up =
            λ id. ground (arith, a.settled_up id, new_id-free gone r a, eqb_iff (suc r.counter) id);
        emptied = λ h. a.emptied (ground arith);
        begun = λ h. ground (arith, a.begun h);
      })
register-IsAccounted gone name r disposed e a =
    rw (e, register)
      (record {
        distinct = a.distinct;
        settled_up =
            λ id. ground (arith, a.settled_up id, new_id-free gone r a, eqb_iff (suc r.counter) id);
        emptied = λ h. a.emptied (ground arith);
        begun = λ h. ground (arith, a.begun h);
      })

unregister-IsAccounted :
    (gone : List ℕ) (i : ℕ) (r : Registry)
    → IsAccounted gone r
    → IsAccounted (if is_some (Dict.get i r.items) then i ∷ gone else gone) (unregister i r)
unfolding unregister Dict.erase
unregister-IsAccounted gone i r a = record {
  distinct = erase-IsDistinct i r.items a.distinct;
  settled_up = λ id. ground (arith, a.settled_up id, get-erase i id r.items, eqb_iff i id);
  emptied = λ h. rw (a.emptied h) refl;
  begun = a.begun;
}

dispose-IsAccounted :
    (gone : List ℕ) (i : ℕ) (r : Registry) → IsAccounted gone r → IsAccounted gone (dispose i r)
unfolding dispose Dict.erase
dispose-IsAccounted gone i r a = elim (Option-cases (Dict.get i r.items)) [
  | inl e ↦ rw e a
  | inr (name, e) ↦ rw e (record {
    distinct = erase-IsDistinct i r.items a.distinct;
    settled_up = λ id. ground (arith, a.settled_up id, get-erase i id r.items, eqb_iff i id, e);
    emptied = λ h. rw (a.emptied h) refl;
    begun = a.begun;
  })
]

dispose_all-IsAccounted :
    (gone : List ℕ) (is_late : Bool) (r : Registry) (s : RegistryState)
    → r.state ≡ s
    → IsAccounted gone r
    → IsAccounted gone (dispose_all is_late r)
unfolding dispose_all
dispose_all-IsAccounted gone is_late r active e a =
    rw (e, dispose_all)
      (round-IsAccounted gone is_late (record r { state = shutting_down }) a.distinct a.settled_up
        refl)
dispose_all-IsAccounted gone is_late r shutting_down e a = rw (e, dispose_all) a
dispose_all-IsAccounted gone is_late r disposed e a = rw (e, dispose_all) a

-- A change of where `drain` is.
drain-IsAccounted :
    (gone : List ℕ) (d : Drain) (r : Registry)
    → is_active r.state ≡ false
    → IsAccounted gone r
    → IsAccounted gone (record r { drain = d })
drain-IsAccounted gone d r shut a = record {
  distinct = a.distinct;
  settled_up = a.settled_up;
  emptied = a.emptied;
  begun = λ h. shut;
}

resume-IsAccounted :
    (gone : List ℕ) (is_late : Bool) (r : Registry) (d : Drain)
    → r.drain ≡ d
    → IsAccounted gone r
    → IsAccounted gone (resume is_late r)
unfolding resume
resume-IsAccounted gone is_late r idle e a = rw (e, resume) a
resume-IsAccounted gone is_late r over e a = rw (e, resume) a
resume-IsAccounted gone is_late r returned e a = rw (e, resume) a
resume-IsAccounted gone is_late r (settling work) e a =
    elim (Bool-cases (every (is_settled r.running) work)) [
      | inl done ↦
          rw (e, resume, done)
            (round-IsAccounted gone is_late r a.distinct a.settled_up (a.begun (rw e refl)))
      | inr busy ↦ rw (e, resume, busy) a
    ]
resume-IsAccounted gone is_late r pausing e a = elim (Bool-cases (nothing_left r)) [
  | inl done ↦ rw (e, resume, done) (drain-IsAccounted gone returned r (a.begun (rw e refl)) a)
  | inr more ↦
      rw (e, resume, more)
        (round-IsAccounted gone is_late r a.distinct a.settled_up (a.begun (rw e refl)))
]

expire-IsAccounted :
    (gone : List ℕ) (r : Registry) (d : Drain)
    → r.drain ≡ d
    → IsAccounted gone r
    → IsAccounted gone (expire r)
expire-IsAccounted gone r idle e a = rw (e, expire) a
expire-IsAccounted gone r over e a = rw (e, expire) a
expire-IsAccounted gone r returned e a = rw (e, expire) a
expire-IsAccounted gone r pausing e a = rw (e, expire) a
expire-IsAccounted gone r (settling work) e a =
    rw (e, expire) (drain-IsAccounted gone returned r (a.begun (rw e refl)) a)

close-IsAccounted :
    (gone : List ℕ) (r : Registry) (d : Drain)
    → r.drain ≡ d
    → IsAccounted gone r
    → IsAccounted gone (close r)
unfolding close Dict.get
close-IsAccounted gone r idle e a = rw (e, close) a
close-IsAccounted gone r over e a = rw (e, close) a
close-IsAccounted gone r pausing e a = rw (e, close) a
close-IsAccounted gone r (settling work) e a = rw (e, close) a
close-IsAccounted gone r returned e a =
    let none_held = a.emptied (a.begun (rw e refl)) in
    rw (e, close)
      (record {
        distinct = tt;
        settled_up = λ id.
            subst
              (λ i.
                (if is_some (Dict.get id i) then 1 else 0) + count id r.calls + count id gone
                ≡ was_registered id r)
              none_held (a.settled_up id);
        emptied = λ h. refl;
        begun = λ h. refl;
      })

quiet-IsAccounted :
    (gone late running : List ℕ) (r : Registry)
    → IsAccounted gone r
    → IsAccounted gone (record r { late_disposals = late; running = running })
quiet-IsAccounted gone late running r a = record {
  distinct = a.distinct;
  settled_up = a.settled_up;
  emptied = a.emptied;
  begun = a.begun;
}

registry_after-IsAccounted : (h : List Event) → IsAccounted (unregistered h) (registry_after h)
unfolding registry_after step Dict.get
registry_after-IsAccounted [] = record {
  distinct = tt;
  settled_up = λ id. ground arith;
  emptied = λ h. refl;
  begun = λ h. absurd cc;
}
registry_after-IsAccounted (registers name ∷ h) =
    register-IsAccounted (unregistered h) name (registry_after h) _ refl
      (registry_after-IsAccounted h)
registry_after-IsAccounted (unregisters id ∷ h) =
    unregister-IsAccounted (unregistered h) id (registry_after h) (registry_after-IsAccounted h)
registry_after-IsAccounted (disposes id ∷ h) =
    dispose-IsAccounted (unregistered h) id (registry_after h) (registry_after-IsAccounted h)
registry_after-IsAccounted (shuts_down is_late ∷ h) =
    dispose_all-IsAccounted (unregistered h) is_late (registry_after h) _ refl
      (registry_after-IsAccounted h)
registry_after-IsAccounted (resumes is_late ∷ h) =
    resume-IsAccounted (unregistered h) is_late (registry_after h) _ refl
      (registry_after-IsAccounted h)
registry_after-IsAccounted (expires ∷ h) =
    expire-IsAccounted (unregistered h) (registry_after h) _ refl (registry_after-IsAccounted h)
registry_after-IsAccounted (closes ∷ h) =
    close-IsAccounted (unregistered h) (registry_after h) _ refl (registry_after-IsAccounted h)
registry_after-IsAccounted (settles id ∷ h) =
    let r = registry_after h in
    quiet-IsAccounted (unregistered h) r.late_disposals (keep (λ j. not (j == id)) r.running) r
      (registry_after-IsAccounted h)
registry_after-IsAccounted (finalizes id ∷ h) =
    let r = registry_after h in
    elim (Bool-cases (is_settled r.running id)) [
      | inl done ↦ rw done (
          quiet-IsAccounted (unregistered h) (keep (λ j. not (j == id)) r.late_disposals) r.running
            r (registry_after-IsAccounted h))
      | inr busy ↦ rw busy (registry_after-IsAccounted h)
    ]

-- The number of times a resource's `dispose` has been called.
abbrev pub times_disposed : ℕ → List Event → ℕ
times_disposed id h = count id (registry_after h).calls

-- Whatever happens and in whatever order, a registered resource is at every moment in exactly one
-- of three states: still held, unregistered while it was held, or disposed of by exactly one call;
-- and once a shutdown has begun none is held any more.
pub resource_accounted :
    (h : List Event) (id : ℕ)
    → 1 ≤ id
    → id ≤ (registry_after h).counter
    → (is_held id (registry_after h) + times_disposed id h + count id (unregistered h) ≡ 1)
      × ((is_active (registry_after h).state ≡ true) ⊎ (is_held id (registry_after h) ≡ 0))
unfolding Dict.get
resource_accounted h id low high =
    let a = registry_after-IsAccounted h in
    (
      ground (arith, a.settled_up id),
      elim (Bool-cases (is_active (registry_after h).state)) [
        | inl open_still ↦ inl open_still
        | inr shut ↦ inr (rw (a.emptied shut) refl)
      ],
    )
