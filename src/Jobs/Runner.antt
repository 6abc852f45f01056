-- ===== src/Jobs/Runner.antt =====
-- modules/openwrt/main/jobs.ts `run`: the loop over a job's items and the way it ends.
pub mod Finished
use bored_manager.Base.{
  ℕ, suc, ◌+◌, ◌-◌, String, Option, none, some, Bool, true, false, List, [], ◌∷◌, ◌==◌, nat_key,
  not, ◌||◌, ◌&&◌, ltb, keep, length, js_length, if◌then◌else◌,
}
use bored_manager.Jobs.{
  ItemStatus, pending, running, ok, error, skipped, cancelled, JobState, running_job, done_job,
  failed_job, partial_job, cancelled_job, JobItem, Job, is_error, is_waiting,
}

-- How an item's `run` came back; a text is the trimmed note or the error's message.
pub data Result : Type 0 where
  resolved : Option String → Result
  threw_cancelled : Result
  threw : String → Result

-- What the loop meets at one item.
pub record Turn : Type 0 where
  pub current_before : Bool
  pub cancelled_before : Bool
  pub emit_fails_before : Bool
  pub result : Result
  pub current_after : Bool
  pub cancelled_after : Bool
  pub emit_fails_after : Bool
  pub started_at : ℕ
  pub ended_at : ℕ

-- The loop goes on, returns, or is left by an error that it does not catch.
pub data Flow : Type 0 where
  goes_on returns breaks : Flow

pub record Visit : Type 0 where
  pub item : JobItem
  pub counted : ℕ
  pub errors : ℕ
  pub aborted : Bool
  pub flow : Flow

abbrev note_of : Option String → Option String → Option String
note_of none old = old
note_of (some note) old = if ltb 0 (js_length note) then some note else old

-- The item after its `run` has come back: its status and message, and whether it failed.
unfoldable pub settle_item : Turn → JobItem → JobItem × Bool
settle_item t item =
    let timed = record item { ms = some (t.ended_at - t.started_at) } in
    elim t.result [
      | resolved note ↦ (record timed { status = ok; message = note_of note item.message }, false)
      | threw_cancelled ↦ (record timed { status = cancelled }, false)
      | threw message ↦
          if t.cancelled_after
          then (record timed { status = cancelled }, false)
          else (record timed { status = error; message = some message }, true)
    ]

-- The body of the loop.
unfoldable pub visit : Turn → Bool → Bool → JobItem → Visit
unfolding settle_item
visit t abort aborted item =
    let settled = settle_item t item in
    if not t.current_before
    then record { item = item; counted = 0; errors = 0; aborted = aborted; flow = returns }
    else if t.cancelled_before || aborted
    then record {
      item = record item { status = if t.cancelled_before then cancelled else skipped };
      counted = 1;
      errors = 0;
      aborted = aborted;
      flow = goes_on;
    }
    else if t.emit_fails_before
    then record {
      item = record item { status = running };
      counted = 0;
      errors = 0;
      aborted = aborted;
      flow = breaks;
    }
    else if not t.current_after
    then record {
      item = record item { status = running };
      counted = 0;
      errors = 0;
      aborted = aborted;
      flow = returns;
    }
    else record {
      item = settled.0;
      counted = 1;
      errors = if settled.1 then 1 else 0;
      aborted = aborted || settled.1 && abort;
      flow = if t.emit_fails_after then breaks else goes_on;
    }

pub record Walk : Type 0 where
  pub items : List JobItem
  pub done : ℕ
  pub failed : ℕ
  pub flow : Flow

abbrev after_visit : Flow → Visit → List JobItem → Walk → Walk
after_visit goes_on v rest later = record {
  items = v.item ∷ later.items;
  done = v.counted + later.done;
  failed = v.errors + later.failed;
  flow = later.flow;
}
after_visit f v rest later = record {
  items = v.item ∷ rest;
  done = v.counted;
  failed = v.errors;
  flow = f;
}

-- The loop, from an index on.
unfoldable pub walk : (ℕ → Turn) → Bool → Bool → ℕ → List JobItem → Walk
unfolding visit
walk turn abort aborted i [] = record { items = []; done = 0; failed = 0; flow = goes_on }
walk turn abort aborted i (item ∷ rest) =
    let v = visit (turn i) abort aborted item in
    after_visit v.flow v rest (walk turn abort v.aborted (suc i) rest)

-- The items that still wait when the runner itself fails.
abbrev pub fail_waiting : List JobItem → List JobItem
fail_waiting [] = []
fail_waiting (i ∷ items) =
    let rest = fail_waiting items in
    if is_waiting i.status
    then record i { status = error; message = some "job runner stopped unexpectedly" } ∷ rest
    else i ∷ rest

abbrev is_pending : ItemStatus → Bool
is_pending pending = true
is_pending _ = false

-- The items that no turn reached.
abbrev pub close_pending : Bool → List JobItem → List JobItem
close_pending was_cancelled [] = []
close_pending was_cancelled (i ∷ items) =
    let rest = close_pending was_cancelled items in
    if is_pending i.status
    then record i { status = if was_cancelled then cancelled else skipped } ∷ rest
    else i ∷ rest

abbrev pub waiting : List JobItem → ℕ
waiting items = length (keep (λ i. is_waiting i.status) items)

abbrev pub errors : List JobItem → ℕ
errors items = length (keep (λ i. is_error i.status) items)

abbrev pub final_state : Bool → ℕ → ℕ → JobState
final_state was_cancelled failed total =
    if was_cancelled
    then cancelled_job
    else if failed == 0
    then done_job
    else if failed == total
    then failed_job
    else partial_job

-- The end of `run`, up to the job it persists.
unfoldable pub finish : Bool → ℕ → Walk → Job → Job
finish was_cancelled now w job =
    let items = close_pending was_cancelled w.items in
    record job {
      items = items;
      done = job.done + w.done + length (keep (λ i. is_pending i.status) w.items);
      failed = errors items;
      finished_at = some now;
      progress_pct = 100;
      state = final_state was_cancelled (errors items) job.total;
      cancel_requested = false;
    }

-- What holds after the loop: the generation is current in the handler of the runner's failure,
-- and at the end; the job was cancelled; the time.
pub record Ending : Type 0 where
  pub current_in_handler : Bool
  pub current_at_end : Bool
  pub was_cancelled : Bool
  pub now : ℕ

abbrev handled : Walk → Walk
handled w = record {
  items = fail_waiting w.items;
  done = w.done + waiting w.items;
  failed = w.failed + waiting w.items;
  flow = goes_on;
}

-- `run`: the finished job, or `none` when a reset made it stale
unfoldable pub run_job : (ℕ → Turn) → Bool → Ending → Job → Option Job
unfolding walk finish
run_job turn abort end_ job =
    let w = walk turn abort false 0 job.items in
    elim w.flow [
      | returns ↦ none
      | goes_on ↦
          if end_.current_at_end then some (finish end_.was_cancelled end_.now w job) else none
      | breaks ↦
          if end_.current_in_handler && end_.current_at_end
          then some (finish end_.was_cancelled end_.now (handled w) job)
          else none
    ]
