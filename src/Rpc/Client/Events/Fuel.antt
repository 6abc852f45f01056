-- ===== src/Rpc/Client/Events/Fuel.antt =====
-- The loop of `pumpEvents` ends by itself: more fuel than its caller gives changes nothing.
use bored_manager.Base.{
  ℕ, zero, suc, ◌≤◌, ◌≡◌, refl, List, not, ◌||◌, Bool, Bool-cases, List-cases, inl, inr, length,
  arith, ap,
}
use bored_manager.Rpc.Client.{Limits, QueuedEvent, ClientState, Wire, send_text, close_state}
use bored_manager.Rpc.Client.Events.{again, send_head, pump_loop, run_loop}
use bored_manager.Rpc.Client.Events.Loop.{Round-cases}

send_head-shorter :
    (limits : Limits) (wire : Wire) (e : QueuedEvent) (rest : List QueuedEvent) (c d : ClientState)
    → send_head limits wire e rest c ≡ again d
    → length d.events ≡ length rest
unfolding send_head send_text close_state
send_head-shorter limits wire e rest c d r = ground arith

enough_fuel :
    (limits : Limits) (wire : Wire) (accepting : Bool) (f g : ℕ) (c : ClientState)
    → suc (length c.events) ≤ f
    → suc (length c.events) ≤ g
    → pump_loop f limits wire accepting c ≡ pump_loop g limits wire accepting c
unfolding pump_loop
enough_fuel limits wire accepting zero g c h k = absurd (omega arith)
enough_fuel limits wire accepting (suc f) zero c h k = absurd (omega arith)
enough_fuel limits wire accepting (suc f) (suc g) c h k = elim (List-cases c.events) [
  | inl q ↦ rw (q, pump_loop) refl
  | inr (e, rest, q) ↦ elim (Bool-cases (c.closed || not accepting || c.is_protected)) [
    | inl t ↦ rw (q, t, pump_loop) refl
    | inr u ↦ elim (Bool-cases e.authorized) [
      | inr a ↦ rw (q, u, a, pump_loop) refl
      | inl a ↦ elim (Round-cases (send_head limits wire e rest c)) [
        | inr (d, r) ↦ rw (q, u, a, r, pump_loop) refl
        | inl (d, r) ↦
            let shorter = send_head-shorter limits wire e rest c d r in
            let long : length c.events ≡ suc (length rest) = ap length q in
            rw (q, u, a, r, pump_loop)
              (enough_fuel limits wire accepting f g d (omega (arith, shorter, long))
                (omega (arith, shorter, long)))
      ]
    ]
  ]
]

-- The loop of `pumpEvents` never stops for want of fuel: with any more fuel than the one round for
-- each waiting event and the last one, it ends in the same state.
pub run_loop_total :
    (limits : Limits) (wire : Wire) (accepting : Bool) (more : ℕ) (c : ClientState)
    → suc (length c.events) ≤ more
    → pump_loop more limits wire accepting c ≡ run_loop limits wire accepting c
run_loop_total limits wire accepting more c h =
    enough_fuel limits wire accepting more (suc (length c.events)) c h (omega arith)
