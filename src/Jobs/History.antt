-- ===== src/Jobs/History.antt =====
-- modules/openwrt/main/jobs.ts: what the history holds after `persist`.
use bored_manager.Base.{
  ℕ, zero, suc, ◌≤◌, ◌≡◌, refl, ap, ◌∙◌, String, Bool, true, false, List, [], ◌∷◌, ◌==◌, string_key,
  not, ◌⊎◌, inl, inr, keep, take, arith, Bool-cases, eq_iff,
}
use bored_manager.Jobs.{
  Job, trim_finished_job, max_finished_jobs, remember, persist, Write, saved, lost, kept_in_memory,
}

-- The entries of other jobs.
abbrev pub others : String → List Job → List Job
others id = keep (λ old. not (old.id == id))

others-take :
    (n : ℕ) (id : String) (jobs : List Job)
    → others id (take n (others id jobs)) ≡ take n (others id jobs)
others-take zero id jobs = refl
others-take (suc n) id [] = refl
others-take (suc n) id (j ∷ jobs) = elim (Bool-cases (j.id == id)) [
  | inl same ↦ rw same (others-take (suc n) id jobs)
  | inr other ↦ rw (other, other) (ap (λ l. j ∷ l) (others-take n id jobs))
]

take-take : (m n : ℕ) (jobs : List Job) → m ≤ n → take m (take n jobs) ≡ take m jobs
take-take zero n jobs h = refl
take-take (suc m) zero jobs h = absurd (omega arith)
take-take (suc m) (suc n) [] h = refl
take-take (suc m) (suc n) (j ∷ jobs) h = ap (λ l. j ∷ l) (take-take m n jobs (omega arith))

remember_twice :
    (job : Job) (jobs : List Job)
    → remember 5 job (remember max_finished_jobs job jobs) ≡ job ∷ take 4 (others job.id jobs)
unfolding remember
remember_twice job jobs = rw ((eq_iff job.id job.id).1 refl) (
    ap (λ l. job ∷ l)
      (ap (take 4) (others-take 9 job.id jobs) ∙ take-take 4 9 (others job.id jobs) (omega arith)))

abbrev pub is_saved : Write → Bool
is_saved saved = true
is_saved _ = false

-- How a history comes to hold a job: before the newest 9 entries of other jobs, or the newest 4 if
-- the first write failed.
pub record Holds (first : Write) (job : Job) (jobs after : List Job) : Type 0 where
  pub count : ℕ
  pub counted : (count ≡ 9) ⊎ ((count ≡ 4) × (is_saved first ≡ false))
  pub recorded : after ≡ trim_finished_job job ∷ take count (others job.id jobs)

-- After `persist`, a history is unchanged only when both writes were lost without a trace;
-- otherwise it starts with the finished job, trimmed, and goes on with the entries of other jobs as
-- they were: the newest nine, or the newest four, which happens only if the first write failed.
pub persist-remembers :
    (first second : Write) (job : Job) (jobs : List Job)
    → ((first ≡ lost) × (second ≡ lost) × (persist first second job jobs ≡ jobs))
      ⊎ Holds first job jobs (persist first second job jobs)
unfolding persist remember trim_finished_job
persist-remembers saved second job jobs =
    inr (record { count = 9; counted = inl refl; recorded = refl })
persist-remembers lost saved job jobs =
    inr (record { count = 4; counted = inr (refl, refl); recorded = refl })
persist-remembers lost kept_in_memory job jobs =
    inr (record { count = 4; counted = inr (refl, refl); recorded = refl })
persist-remembers lost lost job jobs = inl (refl, refl, refl)
persist-remembers kept_in_memory lost job jobs =
    inr (record { count = 9; counted = inl refl; recorded = refl })
persist-remembers kept_in_memory saved job jobs = inr (record {
  count = 4;
  counted = inr (refl, refl);
  recorded = remember_twice (trim_finished_job job) jobs;
})
persist-remembers kept_in_memory kept_in_memory job jobs = inr (record {
  count = 4;
  counted = inr (refl, refl);
  recorded = remember_twice (trim_finished_job job) jobs;
})
