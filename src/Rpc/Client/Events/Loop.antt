-- ===== src/Rpc/Client/Events/Loop.antt =====
-- One rule for the loop of `pumpEvents` and for its restart after an answer.
use bored_manager.Base.{
  ℕ, zero, suc, ◌≡◌, refl, some, Bool, true, List, ◌∷◌, not, ◌||◌, ◌&&◌, Bool-cases, List-cases,
  Option-cases, inl, inr, ◌⊎◌, eqb,
}
use bored_manager.Rpc.Client.{Limits, QueuedEvent, ClientState, close_state, unauthorized, Wire}
use bored_manager.Rpc.Client.Events.{
  Round, again, finished, stop_pump, send_head, pump_loop, run_loop, answered, resume_pump,
}

abbrev pub After : (ClientState → Type 0) → Round → Type 0
After P (again d) = P d
After P (finished d) = P d

pub Round-cases :
    (r : Round) → ((d : ClientState) × (r ≡ again d)) ⊎ ((d : ClientState) × (r ≡ finished d))
Round-cases (again d) = inl (d, refl)
Round-cases (finished d) = inr (d, refl)

module _ (limits : Limits) (wire : Wire) (accepting : Bool) (P : ClientState → Type 0) where
  pub pump_loop_inv :
      ((d : ClientState) → P d → P (stop_pump d))
      → ((d : ClientState) (e : QueuedEvent)
          → P d
          → P (record d { event_pumping = true; awaiting = some (e.uid, e.version) }))
      → ((d : ClientState) (e : QueuedEvent) (rest : List QueuedEvent)
          → d.events ≡ e ∷ rest
          → e.authorized ≡ true
          → P d
          → After P (send_head limits wire e rest d))
      → (fuel : ℕ) (c : ClientState) → P c
      → P (pump_loop fuel limits wire accepting c)
  unfolding pump_loop
  pump_loop_inv stops waits sends zero c p = stops c p
  pump_loop_inv stops waits sends (suc fuel) c p = elim (List-cases c.events) [
    | inl q ↦ rw (q, pump_loop) (stops c p)
    | inr (e, rest, q) ↦ elim (Bool-cases (c.closed || not accepting || c.is_protected)) [
      | inl t ↦ rw (q, t, pump_loop) (stops c p)
      | inr f ↦ elim (Bool-cases e.authorized) [
        | inr a ↦ rw (q, f, a, pump_loop) (waits c e p)
        | inl a ↦ elim (Round-cases (send_head limits wire e rest c)) [
          | inl (d, r) ↦
              rw (q, f, a, r, pump_loop)
                (pump_loop_inv stops waits sends fuel d (rw r at (sends c e rest q a p)))
          | inr (d, r) ↦ rw (q, f, a, r, pump_loop) (rw r at (sends c e rest q a p))
        ]
      ]
    ]
  ]

  pub resume_pump_inv :
      (answer : Bool) (c : ClientState)
      → ((d : ClientState) → P d → P (run_loop limits wire accepting d))
      → (P c → P (stop_pump (close_state c unauthorized)))
      → ((e : QueuedEvent) (rest : List QueuedEvent)
          → c.events ≡ e ∷ rest
          → answer ≡ true
          → P c
          → After P (
              send_head limits wire
                (record e { authorized = true })
                rest
                (record c { events = record e { authorized = true } ∷ rest })))
      → P c
      → P (resume_pump limits wire accepting answer c)
  unfolding resume_pump answered
  resume_pump_inv answer c loops refused sends p = elim (Option-cases c.awaiting) [
    | inl w ↦ rw (w, resume_pump) p
    | inr ((uid, version), w) ↦ elim (List-cases c.events) [
      | inl q ↦ rw (w, q, resume_pump) (loops c p)
      | inr (e, rest, q) ↦ elim (Bool-cases (eqb e.uid uid && eqb e.version version)) [
        | inr other ↦ rw (w, q, other, resume_pump) (loops c p)
        | inl same ↦ elim (Bool-cases answer) [
          | inr denied ↦ rw (w, q, same, denied, resume_pump, answered) (refused p)
          | inl granted ↦
              elim (Round-cases (
                send_head limits wire (record e { authorized = true }) rest
                  (record c { events = record e { authorized = true } ∷ rest }))) [
                    | inl (d, r) ↦
                        rw (w, q, same, granted, r, resume_pump, answered)
                          (loops d (rw r at (sends e rest q granted p)))
                    | inr (d, r) ↦
                        rw (w, q, same, granted, r, resume_pump, answered)
                          (rw r at (sends e rest q granted p))
                  ]
        ]
      ]
    ]
  ]
