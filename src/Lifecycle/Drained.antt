-- ===== src/Lifecycle/Drained.antt =====
-- server/lifecycle.ts `RequestTracker`: what `drain` waits for.
use bored_manager.Base.{
  ℕ, ◌+◌, ◌-◌, ◌≤◌, none, Bool, true, false, List, [], ◌∷◌, ◌≡◌, refl, ◌==◌, nat_key, any, arith,
  Bool-cases, Option-cases, inl, inr, ◌⊎◌, if◌then◌else◌, is_none, ◌||◌, any-append,
}
use bored_manager.Base.Dict
use bored_manager.Base.Dict.{Dict, total_values, total_values-insert}
use bored_manager.Lifecycle.{Tracker, create_tracker, middleware, finish, stop_accepting, drain}

pub data Event : Type 0 where
  arrives : ℕ → Event
  ends : ℕ → Event
  stops : Event
  drains : ℕ → Event

-- Every request has a number of its own: a number that was used does not arrive again.
unfoldable pub step : Event → Tracker → Tracker
unfolding middleware finish drain
step (arrives id) t = if is_none (Dict.get id t.requests) then (middleware id t).0 else t
step (ends id) t = finish id t
step stops t = stop_accepting t
step (drains caller) t = drain caller t

-- The newest event comes first.
unfoldable pub tracker_after : List Event → Tracker
unfolding step
tracker_after [] = create_tracker
tracker_after (e ∷ before) = step e (tracker_after before)

abbrev pub weight : Bool → ℕ
weight finished = if finished then 0 else 1

-- The requests whose response has neither finished nor closed.
abbrev pub unfinished : Tracker → ℕ
unfinished t = total_values weight t.requests

-- Who has called `drain`.
abbrev pub callers : List Event → List ℕ
callers [] = []
callers (drains caller ∷ before) = caller ∷ callers before
callers (e ∷ before) = callers before

record IsCounted (t : Tracker) : Type 0 where
  exact : t.active ≡ unfinished t
  awake : t.active ≡ 0 → t.waiters ≡ []

total_values-fresh :
    (id : ℕ) (v : Bool) (m : Dict ℕ Bool)
    → Dict.get id m ≡ none
    → total_values weight (Dict.insert id v m) ≡ total_values weight m + weight v
unfolding Dict.get Dict.insert
total_values-fresh id v [] h = omega arith
total_values-fresh id v ((j, x) ∷ m) h = ground (arith, total_values-fresh id v m)

middleware-IsCounted :
    (id : ℕ) (t : Tracker)
    → Dict.get id t.requests ≡ none
    → IsCounted t
    → IsCounted (middleware id t).0
unfolding middleware
middleware-IsCounted id t fresh c = elim (Bool-cases t.accepting) [
  | inr shut ↦ rw shut (record { exact = c.exact; awake = c.awake })
  | inl open_ ↦ rw open_ (record {
    exact = omega (arith, c.exact, total_values-fresh id false t.requests fresh);
    awake = λ e. absurd (omega (arith, e));
  })
]

finish-IsCounted : (id : ℕ) (t : Tracker) → IsCounted t → IsCounted (finish id t)
unfolding finish
finish-IsCounted id t c = elim (Option-cases (Dict.get id t.requests)) [
  | inl e ↦ rw (e, finish) c
  | inr (finished, e) ↦ elim (Bool-cases finished) [
    | inl done ↦ rw (e, finish, done) c
    | inr busy ↦
        let left = total_values-insert weight id true finished t.requests e in
        elim (Bool-cases (t.active - 1 == 0)) [
          | inl last ↦
              rw (e, finish, busy, last)
                (record { exact = ground (arith, left, busy, c.exact); awake = λ z. refl })
          | inr more ↦
              rw (e, finish, busy, more)
                (record {
                  exact = ground (arith, left, busy, c.exact);
                  awake = λ z. absurd (ground (arith, z, more));
                })
        ]
  ]
]

drain-IsCounted : (caller : ℕ) (t : Tracker) → IsCounted t → IsCounted (drain caller t)
unfolding drain
drain-IsCounted caller t c = elim (Bool-cases (t.active == 0)) [
  | inl idle ↦ rw idle (record { exact = c.exact; awake = c.awake })
  | inr busy ↦ rw busy (record { exact = c.exact; awake = λ z. absurd (ground (arith, z, busy)) })
]

tracker_after-IsCounted : (h : List Event) → IsCounted (tracker_after h)
unfolding tracker_after step
tracker_after-IsCounted [] = record { exact = refl; awake = λ z. refl }
tracker_after-IsCounted (arrives id ∷ h) =
    let t = tracker_after h in
    elim (Option-cases (Dict.get id t.requests)) [
      | inl fresh ↦ rw fresh (middleware-IsCounted id t fresh (tracker_after-IsCounted h))
      | inr (finished, used) ↦ rw used (tracker_after-IsCounted h)
    ]
tracker_after-IsCounted (ends id ∷ h) =
    finish-IsCounted id (tracker_after h) (tracker_after-IsCounted h)
tracker_after-IsCounted (stops ∷ h) =
    let c = tracker_after-IsCounted h in record { exact = c.exact; awake = c.awake }
tracker_after-IsCounted (drains caller ∷ h) =
    drain-IsCounted caller (tracker_after h) (tracker_after-IsCounted h)

-- The caller of `drain` waits, or its promise is resolved.
abbrev pub is_heard : ℕ → Tracker → Bool
is_heard caller t = any (λ k. k == caller) t.resolved || any (λ k. k == caller) t.waiters

middleware-is_heard : (c id : ℕ) (t : Tracker) → is_heard c (middleware id t).0 ≡ is_heard c t
unfolding middleware
middleware-is_heard c id t = ground arith

finish-is_heard : (c id : ℕ) (t : Tracker) → is_heard c (finish id t) ≡ is_heard c t
unfolding finish
finish-is_heard c id t = elim (Option-cases (Dict.get id t.requests)) [
  | inl e ↦ rw (e, finish) refl
  | inr (finished, e) ↦
      rw (e, finish) (ground (arith, any-append (λ k. k == c) t.resolved t.waiters))
]

drain-is_heard :
    (c caller : ℕ) (t : Tracker) → is_heard c (drain caller t) ≡ (caller == c || is_heard c t)
unfolding drain
drain-is_heard c caller t = ground (
  arith,
  any-append (λ k. k == c) t.resolved (caller ∷ []),
  any-append (λ k. k == c) t.waiters (caller ∷ []),
)

callers-is_heard :
    (h : List Event) (c : ℕ) → is_heard c (tracker_after h) ≡ any (λ k. k == c) (callers h)
unfolding tracker_after step
callers-is_heard [] c = refl
callers-is_heard (arrives id ∷ h) c =
    ground (arith, middleware-is_heard c id (tracker_after h), callers-is_heard h c)
callers-is_heard (ends id ∷ h) c =
    ground (arith, finish-is_heard c id (tracker_after h), callers-is_heard h c)
callers-is_heard (stops ∷ h) c = callers-is_heard h c
callers-is_heard (drains caller ∷ h) c =
    ground (arith, drain-is_heard c caller (tracker_after h), callers-is_heard h c)

-- Whatever requests arrive and end, once or twice each, and whenever `drain` is called: the count
-- of active requests is exact, every caller of `drain` and no other is waiting or resolved, and
-- nobody is left waiting when no request is unfinished.
pub drain_never_stuck :
    (h : List Event) (caller : ℕ)
    → let t = tracker_after h in
      (t.active ≡ unfinished t)
      × (is_heard caller t ≡ any (λ k. k == caller) (callers h))
      × ((t.waiters ≡ []) ⊎ (1 ≤ unfinished t))
drain_never_stuck h caller =
    let t = tracker_after h in
    let c = tracker_after-IsCounted h in
    (
      c.exact,
      callers-is_heard h caller,
      elim (Bool-cases (t.active == 0)) [
        | inl idle ↦ inl (c.awake (ground (arith, idle)))
        | inr busy ↦ inr (ground (arith, busy, c.exact))
      ],
    )
