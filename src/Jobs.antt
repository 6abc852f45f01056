-- ===== src/Jobs.antt =====
-- modules/openwrt/main/jobs.ts: the sequential runner of router jobs. What a run meets while it
-- waits - a result, a cancellation, a reset of the connection, an emit that throws - is a `Turn`
-- for each item, whose run comes back (one that never does leaves its job live); the clock, the ids and the store's failures are arguments.
pub mod Runner
pub mod History
pub mod Trimmed
use bored_manager.Base.{
  ℕ, suc, ◌+◌, ◌-◌, String, Option, none, some, Bool, true, false, List, [], ◌∷◌, ◌++◌, ◌==◌,
  string_key, nat_key, not, ◌||◌, ◌&&◌, leb, ltb, any, keep, find, map, take, length, js_length,
  if◌then◌else◌,
}

pub data ItemStatus : Type 0 where
  pending running ok error skipped cancelled : ItemStatus

pub data JobState : Type 0 where
  running_job done_job failed_job partial_job cancelled_job : JobState

pub record JobItem : Type 0 where
  pub idx : ℕ
  pub name : String
  pub status : ItemStatus
  pub message : Option String
  pub ms : Option ℕ

pub record Job : Type 0 where
  pub id : String
  pub kind : String
  pub label : String
  pub state : JobState
  pub started_at : ℕ
  pub finished_at : Option ℕ
  pub total : ℕ
  pub done : ℕ
  pub failed : ℕ
  pub progress_pct : ℕ
  pub cancel_requested : Bool
  pub items : List JobItem

pub record JobSpec : Type 0 where
  pub kind : String
  pub label : String
  pub names : List String
  pub abort_on_error : Bool

abbrev pub max_finished_jobs : ℕ
max_finished_jobs = 10

abbrev pub max_history_items : ℕ
max_history_items = 30

abbrev pub is_error : ItemStatus → Bool
is_error error = true
is_error _ = false

abbrev pub is_waiting : ItemStatus → Bool
is_waiting pending = true
is_waiting running = true
is_waiting _ = false

-- The items that trimming keeps first.
abbrev pub is_urgent : ItemStatus → Bool
is_urgent error = true
is_urgent cancelled = true
is_urgent _ = false

-- A stable sort: an item stays before the later ones of its index.
unfoldable pub insert_by_idx : JobItem → List JobItem → List JobItem
insert_by_idx x [] = x ∷ []
insert_by_idx x (y ∷ ys) =
    let later = insert_by_idx x ys in if ltb y.idx x.idx then y ∷ later else x ∷ y ∷ ys

-- `.sort((a, b) => a.idx - b.idx)`
unfoldable pub sort_by_idx : List JobItem → List JobItem
unfolding insert_by_idx
sort_by_idx [] = []
sort_by_idx (x ∷ xs) = insert_by_idx x (sort_by_idx xs)

unfoldable pub selected_items : List JobItem → List JobItem
selected_items items =
    if leb (length items) max_history_items
    then items
    else take max_history_items
        (keep (λ i. is_urgent i.status) items ++ keep (λ i. not (is_urgent i.status)) items)

-- `cloneItem`
abbrev clone_item : JobItem → JobItem
clone_item i = record i {
  message = elim i.message [ none ↦ none | some m ↦ if ltb 0 (js_length m) then some m else none ];
}

-- `trimFinishedJob`
unfoldable pub trim_finished_job : Job → Job
unfolding selected_items sort_by_idx
trim_finished_job job = record job {
  cancel_requested = false;
  items = sort_by_idx (map clone_item (selected_items job.items));
}

pub record Jobs : Type 0 where
  pub live : List Job
  pub cancelling : List String
  pub generation : ℕ
  pub disposed : Bool
  pub store : List Job

-- `list`
unfoldable pub list : Jobs → List Job
unfolding trim_finished_job
list s = s.live ++ map trim_finished_job (take max_finished_jobs s.store)

-- `busy`
abbrev pub busy : Jobs → Bool
busy s = ltb 0 (length s.live)

abbrev pub pending_items : ℕ → List String → List JobItem
pending_items i [] = []
pending_items i (name ∷ names) =
    record { idx = i; name = name; status = pending; message = none; ms = none }
    ∷ pending_items (suc i) names

-- The job that `start` makes.
unfoldable pub new_job : String → ℕ → JobSpec → Job
new_job id now spec = record {
  id = id;
  kind = spec.kind;
  label = spec.label;
  state = running_job;
  started_at = now;
  finished_at = none;
  total = length spec.names;
  done = 0;
  failed = 0;
  progress_pct = if ltb 0 (length spec.names) then 0 else 100;
  cancel_requested = false;
  items = pending_items 0 spec.names;
}

-- `start`; `none` when the engine is disposed
unfoldable pub start : String → ℕ → JobSpec → Jobs → Option (Jobs × Job)
unfolding new_job
start id now spec s =
    if s.disposed
    then none
    else some (record s { live = new_job id now spec ∷ s.live }, new_job id now spec)

abbrev request_cancel : String → List Job → List Job
request_cancel id [] = []
request_cancel id (j ∷ js) =
    let later = request_cancel id js in
    if j.id == id then record j { cancel_requested = true } ∷ js else j ∷ later

-- `cancel`; the answer's `ok`
unfoldable pub cancel : String → Jobs → Jobs × Bool
cancel id s = elim (find (λ j. j.id == id) s.live) [
  | none ↦ (s, false)
  | some j ↦ (record s { cancelling = id ∷ s.cancelling; live = request_cancel id s.live }, true)
]

-- `clearFinished`; how many it removed
unfoldable pub clear_finished : Jobs → Jobs × ℕ
clear_finished s = (record s { store = [] }, length s.store)

-- `stopLive`
unfoldable pub stop_live : Bool → Jobs → Jobs
stop_live dispose s = record s {
  generation = suc s.generation;
  live = [];
  cancelling = [];
  disposed = dispose;
}

-- `current`
unfoldable pub is_current : ℕ → Jobs → Bool
is_current generation s = not s.disposed && (generation == s.generation)

unfoldable pub remember : ℕ → Job → List Job → List Job
remember cap entry jobs = take cap (entry ∷ keep (λ old. not (old.id == entry.id)) jobs)

-- What the store does with a write that fails: nothing, or the change stays in memory.
pub data Write : Type 0 where
  saved lost kept_in_memory : Write

-- `persist`: after a failed write it tries once more with a shorter history
unfoldable pub persist : Write → Write → Job → List Job → List Job
unfolding remember trim_finished_job
persist saved second job jobs = remember max_finished_jobs (trim_finished_job job) jobs
persist lost lost job jobs = jobs
persist lost _ job jobs = remember 5 (trim_finished_job job) jobs
persist kept_in_memory lost job jobs = remember max_finished_jobs (trim_finished_job job) jobs
persist kept_in_memory _ job jobs =
    let entry = trim_finished_job job in remember 5 entry (remember max_finished_jobs entry jobs)
