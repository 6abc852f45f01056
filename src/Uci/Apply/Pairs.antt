-- ===== src/Uci/Apply/Pairs.antt =====
-- modules/openwrt/main/uci.ts `applyUciChunks`: the configuration and the running network agree where
-- a run stops.
use bored_manager.Base.{
  ℕ, suc, ◌+◌, ◌≡◌, refl, ap, Bool, true, false, List, [], ◌∷◌, ◌++◌, ltb, ◌&&◌, length, take, drop,
  if◌then◌else◌, arith, Bool-cases, inl, inr, ◌⊎◌,
}
use bored_manager.Uci.{PppoeUciChunk}
use bored_manager.Uci.Apply.{
  Command, uci_batch, reload_network, Turn, Ending, done, failed, Applied, batch_body,
  apply_pppoe_chunk, wait_cancelable, apply_uci_chunks,
}

abbrev pub is_done : Ending → Bool
is_done done = true
is_done _ = false

abbrev pub is_failed : Ending → Bool
is_failed failed = true
is_failed _ = false

-- Each chunk's batch, followed by the reload.
abbrev pub pairs : List PppoeUciChunk → List Command
pairs [] = []
pairs (c ∷ chunks) = uci_batch (batch_body c.lines) ∷ reload_network ∷ pairs chunks

-- What a chunk that fails has sent: its batch, and the reload when the batch itself went through.
abbrev pub tried : Turn → PppoeUciChunk → List Command
tried t c =
    if t.batch_succeeds
    then uci_batch (batch_body c.lines) ∷ reload_network ∷ []
    else uci_batch (batch_body c.lines) ∷ []

-- Where a run over the chunks from a place on stops: between two chunks, or in the chunk that comes
-- after the ones it has applied.
abbrev pub StopsWell : (ℕ → Turn) → ℕ → List PppoeUciChunk → Applied → Type 0
StopsWell turn i chunks r =
    ((is_failed r.ending ≡ false)
      × (r.commands ≡ pairs (take r.mutated chunks))
      × ((is_done r.ending ≡ false) ⊎ (r.mutated ≡ length chunks)))
    ⊎ ((is_failed r.ending ≡ true)
        × (c : PppoeUciChunk) × (later : List PppoeUciChunk) × (place : ℕ) × (drop r.mutated chunks
            ≡ c ∷ later)
        × (place ≡ i + r.mutated)
        × (r.commands ≡ pairs (take r.mutated chunks) ++ tried (turn place) c))

apply-StopsWell :
    (turn : ℕ → Turn) (delay_ms i : ℕ) (chunks : List PppoeUciChunk)
    → StopsWell turn i chunks (apply_uci_chunks turn delay_ms i chunks)
unfolding apply_uci_chunks apply_pppoe_chunk
apply-StopsWell turn delay_ms i [] = inl (refl, refl, inr refl)
apply-StopsWell turn delay_ms i (c ∷ chunks) =
    let t = turn i in
    let ih = apply-StopsWell turn delay_ms (suc i) chunks in
    elim (Bool-cases t.cancelled_before) [
      | inl stop ↦ rw stop (inl (refl, refl, inl refl))
      | inr on ↦ elim (Bool-cases t.batch_succeeds) [
        | inr bad ↦ rw (on, bad) (inr (refl, c, chunks, i, refl, omega arith, rw bad refl))
        | inl wrote ↦ elim (Bool-cases t.reload_succeeds) [
          | inr bad ↦
              rw (on, wrote, bad) (inr (refl, c, chunks, i, refl, omega arith, rw wrote refl))
          | inl good ↦
              elim (Bool-cases (ltb c.index c.total && ltb 0 delay_ms && wait_cancelable t.polls)) [
                | inl stop ↦ rw (on, wrote, good, stop) (inl (refl, refl, inl refl))
                | inr next ↦
                    rw (on, wrote, good, next)
                      (elim ih [
                        | inl (fine, e, all) ↦ inl (
                          fine,
                          ap (λ x. uci_batch (batch_body c.lines) ∷ reload_network ∷ x) e,
                          elim all [ inl half ↦ inl half | inr whole ↦ inr (ap suc whole) ],
                        )
                        | inr (bad, d, later, place, rest, at, e) ↦ inr (
                          bad,
                          d,
                          later,
                          place,
                          rest,
                          omega (arith, at),
                          ap (λ x. uci_batch (batch_body c.lines) ∷ reload_network ∷ x) e,
                        )
                      ])
              ]
        ]
      ]
    ]

-- However a run over a plan's chunks ends - done, cancelled or failed - what was sent to the machine
-- is, for some first chunks, each one's batch with its commit and then the reload; a run that is
-- cancelled stops between two chunks, and one that is done has applied them all. Only one that fails
-- has sent more: the batch of the next chunk, and the reload after it exactly when that batch
-- succeeded.
pub apply_uci_chunks-StopsWell :
    (turn : ℕ → Turn) (delay_ms : ℕ) (chunks : List PppoeUciChunk)
    → StopsWell turn 0 chunks (apply_uci_chunks turn delay_ms 0 chunks)
apply_uci_chunks-StopsWell turn delay_ms chunks = apply-StopsWell turn delay_ms 0 chunks
