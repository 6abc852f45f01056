-- ===== src/Jobs/Runner/Finished.antt =====
-- modules/openwrt/main/jobs.ts: what a job looks like when its run has ended.
use bored_manager.Base.{
  ℕ, suc, ◌+◌, ◌<◌, ◌≡◌, ◌≢◌, ◌==◌, nat_key, ◌∙◌, sym, subst, refl, Option, none, some, Bool, true,
  false, List, [], ◌∷◌, ◌⊎◌, inl, inr, ◌&&◌, keep, length, if◌then◌else◌, arith, All, Bool-cases,
}
use bored_manager.Jobs.{
  JobState, running_job, cancelled_job, done_job, failed_job, partial_job, JobItem, Job, ItemStatus,
  pending, skipped, cancelled, is_error, is_waiting,
}
use bored_manager.Jobs.Runner.{
  Turn, goes_on, returns, breaks, settle_item, visit, Walk, walk, fail_waiting, close_pending,
  waiting, errors, final_state, finish, Ending, run_job, is_pending, handled,
}

abbrev pub AllPending : List JobItem → Type 0
AllPending = All (λ i. i.status ≡ pending)

-- A job as `start` makes it.
abbrev pub IsFresh : Job → Type 0
IsFresh job = AllPending job.items × (job.total ≡ length job.items) × (job.done ≡ 0)

abbrev weight : JobItem → ℕ
weight i = if is_waiting i.status then 1 else 0

settle_item-settled : (t : Turn) (item : JobItem) → is_waiting (settle_item t item).0.status ≡ false
unfolding settle_item
settle_item-settled t item = ground arith

-- What one turn counts, by how it leaves the loop.
visit-cases :
    (t : Turn) (abort aborted : Bool) (item : JobItem)
    → let v = visit t abort aborted item in
      (v.flow ≡ returns)
      ⊎ ((v.flow ≡ goes_on) × (v.counted ≡ 1) × (is_waiting v.item.status ≡ false))
      ⊎ ((v.flow ≡ breaks) × (v.counted + weight v.item ≡ 1))
unfolding visit
visit-cases t abort aborted item = ground (arith, settle_item-settled t item)

waiting-AllPending : (items : List JobItem) → AllPending items → waiting items ≡ length items
waiting-AllPending [] p = refl
waiting-AllPending (i ∷ items) p = ground (arith, waiting-AllPending items p.1)

walk-cases :
    (turn : ℕ → Turn) (abort aborted : Bool) (i : ℕ) (items : List JobItem)
    → AllPending items
    → let w = walk turn abort aborted i items in
      (length w.items ≡ length items)
      × ((w.flow ≡ returns)
          ⊎ ((w.flow ≡ goes_on) × (w.done ≡ length items) × (waiting w.items ≡ 0))
          ⊎ ((w.flow ≡ breaks) × (w.done + waiting w.items ≡ length items)))
unfolding walk
walk-cases turn abort aborted i [] p = (refl, inr (inl (refl, refl, refl)))
walk-cases turn abort aborted i (item ∷ rest) p =
    let v = visit (turn i) abort aborted item in
    let ih = walk-cases turn abort v.aborted (suc i) rest p.1 in
    elim (visit-cases (turn i) abort aborted item) [
      | inl r ↦ rw (walk, r) (refl, inl refl)
      | inr (inl (g, c, s)) ↦ rw (walk, g) (ground arith)
      | inr (inr (b, c)) ↦ rw (walk, b) (ground (arith, waiting-AllPending rest p.1))
    ]

fail_waiting-settled :
    (items : List JobItem)
    → (waiting (fail_waiting items) ≡ 0) × (length (fail_waiting items) ≡ length items)
fail_waiting-settled [] = (refl, refl)
fail_waiting-settled (i ∷ items) = ground (arith, fail_waiting-settled items)

-- With nothing left waiting there is nothing to close.
close_pending-settled :
    (c : Bool) (items : List JobItem)
    → waiting items ≡ 0
    → (length (close_pending c items) ≡ length items)
      × (waiting (close_pending c items) ≡ 0)
      × (length (keep (λ i. is_pending i.status) items) ≡ 0)
close_pending-settled c [] h = (refl, refl, refl)
close_pending-settled c (i ∷ items) h = ground (arith, close_pending-settled c items)

-- The state that a finished job shows.
abbrev pub HasState : Bool → ℕ → ℕ → JobState → Type 0
HasState was_cancelled failed total running_job = false ≡ true
HasState was_cancelled failed total cancelled_job = was_cancelled ≡ true
HasState was_cancelled failed total done_job = (was_cancelled ≡ false) × (failed ≡ 0)
HasState was_cancelled failed total failed_job =
    (was_cancelled ≡ false) × (0 < failed) × (failed ≡ total)
HasState was_cancelled failed total partial_job =
    (was_cancelled ≡ false) × (0 < failed) × (failed ≢ total)

final_state-HasState :
    (c : Bool) (failed total : ℕ) → HasState c failed total (final_state c failed total)
final_state-HasState true failed total = refl
final_state-HasState false failed total = elim (Bool-cases (failed == 0)) [
  | inl e ↦ rw e (refl, ground arith)
  | inr e ↦ elim (Bool-cases (failed == total)) [
    | inl f ↦ rw (e, f) (refl, ground arith, ground arith)
    | inr f ↦ rw (e, f) (refl, ground arith, ground arith)
  ]
]

-- A finished job accounts for every item of the job that started: none still waits, each is counted
-- once, the failures are those of the items, and the state is the one that they give.
abbrev pub IsFinished : Bool → Job → Job → Type 0
IsFinished was_cancelled job j =
    (length j.items ≡ job.total)
    × (j.total ≡ job.total)
    × (j.done ≡ j.total)
    × (waiting j.items ≡ 0)
    × (j.failed ≡ errors j.items)
    × (j.state ≡ final_state was_cancelled (errors j.items) j.total)
    × HasState was_cancelled (errors j.items) j.total j.state

finish-IsFinished :
    (c : Bool) (now : ℕ) (w : Walk) (job : Job)
    → IsFresh job
    → length w.items ≡ length job.items
    → w.done ≡ length job.items
    → waiting w.items ≡ 0
    → IsFinished c job (finish c now w job)
unfolding finish
finish-IsFinished c now w job fresh l d z =
    let closed = close_pending-settled c w.items z in
    (
      closed.0 ∙ l ∙ sym fresh.1,
      refl,
      omega (arith, closed.2, fresh.1, fresh.2),
      closed.1,
      refl,
      refl,
      final_state-HasState c (errors (close_pending c w.items)) job.total,
    )

handled-settled :
    (w : Walk) → (length (handled w).items ≡ length w.items) × (waiting (handled w).items ≡ 0)
handled-settled w = ((fail_waiting-settled w.items).1, (fail_waiting-settled w.items).0)

abbrev EverySome : (Job → Type 0) → Option Job → Type 0
EverySome P none = Unit
EverySome P (some j) = P j

run_job-EverySome :
    (turn : ℕ → Turn) (abort : Bool) (ending : Ending) (job : Job)
    → IsFresh job
    → EverySome (IsFinished ending.was_cancelled job) (run_job turn abort ending job)
unfolding run_job
run_job-EverySome turn abort ending job fresh =
    let w = walk turn abort false 0 job.items in
    let cases = walk-cases turn abort false 0 job.items fresh.0 in
    elim cases.1 [
      | inl ret ↦ rw (run_job, ret) tt
      | inr (inl (g, d, z)) ↦ elim (Bool-cases ending.current_at_end) [
        | inl e ↦
            rw (run_job, g, e)
              (finish-IsFinished ending.was_cancelled ending.now w job fresh cases.0 d z)
        | inr e ↦ rw (run_job, g, e) tt
      ]
      | inr (inr (b, d)) ↦ elim (Bool-cases (ending.current_in_handler && ending.current_at_end)) [
        | inl e ↦
            rw (run_job, b, e)
              (finish-IsFinished ending.was_cancelled ending.now (handled w) job fresh
                ((handled-settled w).0 ∙ cases.0) d (handled-settled w).1)
        | inr e ↦ rw (run_job, b, e) tt
      ]
    ]

-- Whatever happens while a job runs - failures, a cancellation, an emit that throws - the job that
-- `run` persists has all its items settled and counted once: none is pending or running, `done` is
-- `total`, `failed` is the number of failed items, and the state is `cancelled`, `done`, `failed`
-- or `partial` by them. The job is one that has just been started.
pub run_job-IsFinished :
    (turn : ℕ → Turn) (abort : Bool) (ending : Ending) (job j : Job)
    → IsFresh job
    → run_job turn abort ending job ≡ some j
    → IsFinished ending.was_cancelled job j
unfolding run_job
run_job-IsFinished turn abort ending job j fresh r =
    subst (EverySome (IsFinished ending.was_cancelled job)) r
      (run_job-EverySome turn abort ending job fresh)

-- The items of a status that no `run` gives.
abbrev pub is_untouched : ItemStatus → Bool
is_untouched pending = true
is_untouched skipped = true
is_untouched cancelled = true
is_untouched _ = false

abbrev Untouched : List JobItem → Type 0
Untouched = All (λ i. is_untouched i.status ≡ true)

abbrev pub StopsAtFailure : List JobItem → Type 0
StopsAtFailure [] = Unit
StopsAtFailure (i ∷ rest) = (is_error i.status ≡ true → Untouched rest) × StopsAtFailure rest

Untouched-pending :
    (items : List JobItem) → AllPending items → Untouched items × StopsAtFailure items
Untouched-pending [] p = (tt, tt)
Untouched-pending (i ∷ rest) p =
    let ih = Untouched-pending rest p.1 in ((ground arith, ih.0), ((λ e. ih.0), ih.1))

visit-aborted :
    (t : Turn) (item : JobItem)
    → item.status ≡ pending
    → is_untouched (visit t true true item).item.status ≡ true
unfolding visit
visit-aborted t item p = ground arith

visit-still_aborted :
    (t : Turn) (item : JobItem)
    → ((visit t true true item).flow ≡ returns)
      ⊎ (((visit t true true item).flow ≡ goes_on) × ((visit t true true item).aborted ≡ true))
unfolding visit
visit-still_aborted t item = ground arith

walk-aborted :
    (turn : ℕ → Turn) (i : ℕ) (items : List JobItem)
    → AllPending items
    → Untouched (walk turn true true i items).items
unfolding walk
walk-aborted turn i [] p = tt
walk-aborted turn i (item ∷ rest) p = elim (visit-still_aborted (turn i) item) [
  | inl r ↦ rw (walk, r) (visit-aborted (turn i) item p.0, (Untouched-pending rest p.1).0)
  | inr (g, a) ↦
      rw (walk, g, a) (visit-aborted (turn i) item p.0, walk-aborted turn (suc i) rest p.1)
]

-- A turn that fails its item leaves the loop or leaves it aborted.
visit-failed :
    (t : Turn) (aborted : Bool) (item : JobItem)
    → item.status ≡ pending
    → is_error (visit t true aborted item).item.status ≡ true
    → (visit t true aborted item).aborted ≡ true
unfolding visit settle_item
visit-failed t aborted item p e = ground arith

walk-StopsAtFailure :
    (turn : ℕ → Turn) (aborted : Bool) (i : ℕ) (items : List JobItem)
    → AllPending items
    → StopsAtFailure (walk turn true aborted i items).items
unfolding walk
walk-StopsAtFailure turn aborted i [] p = tt
walk-StopsAtFailure turn aborted i (item ∷ rest) p =
    let v = visit (turn i) true aborted item in
    let asleep = Untouched-pending rest p.1 in
    elim (visit-cases (turn i) true aborted item) [
      | inl r ↦ rw (walk, r) ((λ e. asleep.0), asleep.1)
      | inr (inl (g, c, s)) ↦
          rw (walk, g)
            (
              (λ e.
                  subst (λ x. Untouched (walk turn true x (suc i) rest).items)
                    (sym (visit-failed (turn i) aborted item p.0 e))
                    (walk-aborted turn (suc i) rest p.1)),
              walk-StopsAtFailure turn v.aborted (suc i) rest p.1,
            )
      | inr (inr (b, c)) ↦ rw (walk, b) ((λ e. asleep.0), asleep.1)
    ]

-- A job that aborts on errors runs none of the items after its first failed one: when its loop
-- ends, in whichever way, those are still pending, skipped or cancelled.
pub failure_stops_job :
    (turn : ℕ → Turn) (job : Job)
    → IsFresh job
    → StopsAtFailure (walk turn true false 0 job.items).items
failure_stops_job turn job fresh = walk-StopsAtFailure turn false 0 job.items fresh.0
