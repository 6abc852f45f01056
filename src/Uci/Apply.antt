-- ===== src/Uci/Apply.antt =====
-- modules/openwrt/main/uci.ts `applyUciChunks`: the chunks of a plan are written and made effective one
-- after the other. The commands of a run are recorded; how the machine answers them, and whether the
-- caller has cancelled, is an argument.
pub mod Pairs
use bored_manager.Base.{
  ℕ, suc, Bool, true, false, List, [], ◌∷◌, ◌++◌, ltb, ◌&&◌, not, any, keep, length, if◌then◌else◌,
  Units, codes, trim,
}
use bored_manager.Uci.{PppoeUciChunk}

pub data Command : Type 0 where
  uci_batch : List Units → Command
  reload_network : Command

-- What `applyUciChunks` meets at one chunk; `polls` are the answers of `cancelled` in
-- `waitCancelable`, in its loop and after it.
pub record Turn : Type 0 where
  pub cancelled_before : Bool
  pub batch_succeeds : Bool
  pub reload_succeeds : Bool
  pub polls : List Bool

pub data Ending : Type 0 where
  done failed cancelled : Ending

pub record Applied : Type 0 where
  pub commands : List Command
  pub mutated : ℕ
  pub ending : Ending

-- The body of a batch: the lines that are not blank, then the commit.
abbrev pub batch_body : List Units → List Units
batch_body lines = keep (λ line. ltb 0 (length (trim line))) lines ++ (codes "commit network" ∷ [])

-- `applyPppoeChunk`: the commands, and whether it returns
unfoldable pub apply_pppoe_chunk : Turn → List Units → List Command × Bool
apply_pppoe_chunk t lines =
    if t.batch_succeeds
    then (uci_batch (batch_body lines) ∷ reload_network ∷ [], t.reload_succeeds)
    else (uci_batch (batch_body lines) ∷ [], false)

-- `waitCancelable`, whether it throws
abbrev pub wait_cancelable : List Bool → Bool
wait_cancelable polls = any (λ b. b) polls

abbrev pub ended : List Command → ℕ → Ending → Applied
ended commands mutated ending = record { commands = commands; mutated = mutated; ending = ending }

abbrev pub after_chunk : List Command → Applied → Applied
after_chunk commands rest = record rest {
  commands = commands ++ rest.commands;
  mutated = suc rest.mutated;
}

-- The loop from the chunk at a place on.
unfoldable pub apply_uci_chunks : (ℕ → Turn) → ℕ → ℕ → List PppoeUciChunk → Applied
unfolding apply_pppoe_chunk
apply_uci_chunks turn delay_ms i [] = ended [] 0 done
apply_uci_chunks turn delay_ms i (chunk ∷ chunks) =
    let t = turn i in
    let applied = apply_pppoe_chunk t chunk.lines in
    let rest = apply_uci_chunks turn delay_ms (suc i) chunks in
    if t.cancelled_before
    then ended [] 0 cancelled
    else if not applied.1
    then ended applied.0 0 failed
    else if ltb chunk.index chunk.total && ltb 0 delay_ms && wait_cancelable t.polls
    then ended applied.0 1 cancelled
    else after_chunk applied.0 rest
