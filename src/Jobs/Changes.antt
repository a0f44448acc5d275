-- ===== src/Jobs/Changes.antt =====
-- What an action changes in the table of jobs and among the active workers, as a step relation.
use acadid.Common.{
  ℕ, ◌<◌, String, Option, none, some, Bool, true, false, not, ◌&&◌, ◌≡◌, refl, sym, subst, ◌∙◌, inl,
  inr, string_Eq, arith, Bool-cases, Option-cases, [], ◌∷◌, ◌⊎◌, some-eq-some,
}
use mathlib.Core.List.{Memᴰ}
use acadid.Common.Assoc.{Assoc, lookup, put, remove, IsTable, ◌∈◌}
use acadid.Common.Outcome.{Outcome, ok, throw}
use acadid.Jobs.Types.{JobStatus, queued, running, failed, Job}
use acadid.Jobs.Retry.{Draw, should_retry}
use acadid.Jobs.Queue.{EnqueueJobInput, created_job, create_job}
use acadid.Jobs.Claim.{
  is_waiting, is_due, first_of, precedes, next_job, claimed_row, claim_next_job,
}
use acadid.Jobs.Finish.{
  completed_row, complete_job, failed_row, retry_at_of, fail_or_retry_job, is_failed, requeued_row,
  requeue_dead_letter_job,
}
use acadid.Jobs.System.{
  System, Processed, returned, threw, Action, enqueue, claim, finish, read_dead_letter,
  requeue_dead_letter, IsFresh, FreshRow, begin_retry, stop, start_job, finish_job, or_unchanged,
  act,
}

abbrev pub Found : System → String → Job → Type 0
Found s id row = lookup id s.database.jobs ≡ some row

abbrev pub is_running : JobStatus → Bool
is_running running = true
is_running _ = false

abbrev Writes : System → System → String → Job → Type 0
Writes s s' id row = s'.database.jobs ≡ put id row s.database.jobs

-- One constructor for each way in which an action changes the rows or the workers.
pub data Change (s s' : System) : Type 0 where
  kept : s'.database.jobs ≡ s.database.jobs → s'.active ≡ s.active → Change s s'
  created :
      (row : Job)
      → lookup row.uuid s.database.jobs ≡ none
      → row.status ≡ queued
      → row.attempts ≡ 0
      → Writes s s' row.uuid row
      → s'.active ≡ s.active
      → Change s s'
  claimed :
      (worker : String) (now : ℕ) (id : String) (row : Job)
      → Found s id row
      → is_waiting row.status ≡ true
      → lookup worker s.active ≡ none
      → Writes s s' row.uuid (claimed_row worker now row)
      → s'.active ≡ put worker (claimed_row worker now row) s.active
      → Change s s'
  finished :
      (worker : String) (job row row' : Job)
      → lookup worker s.active ≡ some job
      → Found s job.uuid row
      → row'.uuid ≡ row.uuid
      → row'.attempts ≡ row.attempts
      → row'.max_attempts ≡ row.max_attempts
      → is_running row'.status ≡ false
      → (is_waiting row'.status ≡ true → job.attempts < job.max_attempts)
      → Writes s s' job.uuid row'
      → s'.active ≡ remove worker s.active
      → Change s s'
  requeued :
      (now : ℕ) (id : String) (row : Job)
      → Found s id row
      → row.status ≡ failed
      → Writes s s' row.uuid (requeued_row row now row)
      → s'.active ≡ s.active
      → Change s s'
  dropped :
      (worker : String)
      → s'.database.jobs ≡ s.database.jobs
      → s'.active ≡ remove worker s.active
      → Change s s'

pub first_of_cases :
    (job : Job) (o : Option Job) → (first_of job o ≡ job) ⊎ (o ≡ some (first_of job o))
first_of_cases job none = inl refl
first_of_cases job (some best) = elim (Bool-cases (precedes best job)) [
  | inl e ↦ inr (rw e refl)
  | inr e ↦ inl (rw e refl)
]

-- The next job is a row of the table, is due, and is not locked by another transaction.
abbrev pub IsCandidate : (String → Bool) → ℕ → Assoc String Job → Job → Type 0
IsCandidate skipped now rows job =
    (id : String) × ((id, job) ∈ rows) × ((is_due now job && not (skipped id)) ≡ true)

IsCandidate-tail :
    (skipped : String → Bool) (now : ℕ) {e : String × Job} {rows : Assoc String Job} {job : Job}
    → IsCandidate skipped now rows job
    → IsCandidate skipped now (e ∷ rows) job
IsCandidate-tail skipped now (id, there, due) = (id, Memᴰ.tail there, due)

pub next_job-IsCandidate :
    (skipped : String → Bool) (now : ℕ) (rows : Assoc String Job) {job : Job}
    → next_job skipped now rows ≡ some job
    → IsCandidate skipped now rows job
unfolding next_job
next_job-IsCandidate skipped now [] h = cc
next_job-IsCandidate skipped now ((id, row) ∷ rows) h =
    elim (Bool-cases (is_due now row && not (skipped id))) [
      | inl due ↦ elim (first_of_cases row (next_job skipped now rows)) [
        | inl here ↦
            subst (IsCandidate skipped now ((id, row) ∷ rows))
              (sym here ∙ some-eq-some (rw due at h)) (id, Memᴰ.head refl, due)
        | inr there ↦
            IsCandidate-tail skipped now
              (next_job-IsCandidate skipped now rows (there ∙ rw due at h))
      ]
      | inr not_due ↦
          IsCandidate-tail skipped now (next_job-IsCandidate skipped now rows (rw not_due at h))
    ]

is_failed-eq : (status : JobStatus) → is_failed status ≡ true → status ≡ failed
is_failed-eq failed h = refl
is_failed-eq _ h = cc

is_due-waiting : (a b c : Bool) → ((a && b) && c) ≡ true → a ≡ true
is_due-waiting true b c h = refl
is_due-waiting false b c h = cc

retry_at_of-lt :
    (job : Job) (non_retryable : Bool) (now : ℕ) (random : Draw) {t : ℕ}
    → retry_at_of job non_retryable now random ≡ some t
    → job.attempts < job.max_attempts
unfolding retry_at_of should_retry
retry_at_of-lt job true now random h = cc
retry_at_of-lt job false now random h = ground arith

module _ (s : System) where
  enqueue-Change :
      (input : EnqueueJobInput) (uuid : String) (now : ℕ)
      → Change s (act (enqueue input uuid now) s)
  unfolding act create_job created_job
  enqueue-Change input uuid now = elim (Option-cases (lookup uuid s.database.jobs)) [
    | inl free ↦ rw free (created (created_job input uuid now) free refl refl refl refl)
    | inr (row, taken) ↦ rw taken (kept refl refl)
  ]

  claim-Change :
      (skipped : String → Bool) (worker : String) (now : ℕ)
      → IsTable s.database.jobs
      → Change s (act (claim skipped worker now) s)
  unfolding act claim_next_job start_job
  claim-Change skipped worker now table = elim (Option-cases (lookup worker s.active)) [
    | inr (job, busy) ↦ rw busy (kept refl refl)
    | inl idle ↦ elim (Option-cases (next_job skipped now s.database.jobs)) [
      | inl nothing ↦ rw (idle, nothing) (kept refl refl)
      | inr (row, found) ↦
          let (id, there, due) = next_job-IsCandidate skipped now s.database.jobs found in
          rw (idle, found)
            (claimed worker now id row (table id row there) (is_due-waiting _ _ _ due) idle refl
              refl)
    ]
  ]

  -- How a run ends that is known to have its row.
  threw-Change :
      (s' : System) (worker message : String) (non_retryable : Bool) (random : Draw) (now : ℕ)
      (job row : Job) (o : Option ℕ)
      → retry_at_of job non_retryable now random ≡ o
      → lookup worker s.active ≡ some job
      → Found s job.uuid row
      → Writes s s' job.uuid (failed_row message o now row)
      → s'.active ≡ remove worker s.active
      → Change s s'
  unfolding failed_row
  threw-Change s' worker message non_retryable random now job row none e busy found rows active =
      finished worker job row (failed_row message none now row) busy found refl refl refl refl
        (λ h. cc) rows active
  threw-Change s' worker message non_retryable random now job row (some t) e busy found rows
        active =
      finished worker job row (failed_row message (some t) now row) busy found refl refl refl refl
        (λ h. retry_at_of-lt job non_retryable now random e) rows active

  finish-Change :
      (worker : String) (processed : Processed) (random : Draw) (now : ℕ)
      → Change s (act (finish worker processed random now) s)
  unfolding act finish_job complete_job completed_row fail_or_retry_job
  finish-Change worker processed random now = elim (Option-cases (lookup worker s.active)) [
    | inl idle ↦ rw idle (kept refl refl)
    | inr (job, busy) ↦
        rw busy (end processed job busy (Option-cases (lookup job.uuid s.database.jobs)))
  ]
    where
      end :
          (processed : Processed) (job : Job)
          → lookup worker s.active ≡ some job
          → (lookup job.uuid s.database.jobs ≡ none) ⊎ ((row : Job) × Found s job.uuid row)
          → Change s (record {
            database = or_unchanged (finish_job job processed random now s.database) s.database;
            active = remove worker s.active;
            retries = s.retries;
          })
      end (returned result) job busy (inl lost) = rw lost (dropped worker refl refl)
      end (threw message non_retryable) job busy (inl lost) = rw lost (dropped worker refl refl)
      end (returned result) job busy (inr (row, found)) = rw found (
          finished worker job row (completed_row result now row) busy found refl refl refl refl
            (λ h. cc) refl refl)
      end (threw message non_retryable) job busy (inr (row, found)) = rw found (
          threw-Change _ worker message non_retryable random now job row _ refl busy found refl
            refl)

  begin_retry-Change : (call : String) (read : Outcome Job) → Change s (begin_retry call read s)
  unfolding begin_retry
  begin_retry-Change call (ok existing) = kept refl refl
  begin_retry-Change call (throw e) = kept refl refl

  requeue-Change :
      (call : String) (now : ℕ)
      → IsFresh (requeue_dead_letter call now) s
      → Change s (act (requeue_dead_letter call now) s)
  unfolding act requeue_dead_letter_job
  requeue-Change call now fresh = elim (Option-cases (lookup call s.retries)) [
    | inl nothing ↦ rw nothing (kept refl refl)
    | inr (row, read) ↦
        let (found, fallen) : FreshRow (some row) s = rw read at fresh in
        rw (read, found)
          (requeued now row.uuid row found (is_failed-eq row.status fallen) refl refl)
  ]

  pub act-Change : (a : Action) → IsFresh a s → IsTable s.database.jobs → Change s (act a s)
  unfolding act
  act-Change (enqueue input uuid now) fresh table = enqueue-Change input uuid now
  act-Change (claim skipped worker now) fresh table = claim-Change skipped worker now table
  act-Change (finish worker processed random now) fresh table =
      finish-Change worker processed random now
  act-Change (read_dead_letter call id) fresh table = begin_retry-Change call _
  act-Change (requeue_dead_letter call now) fresh table = requeue-Change call now fresh
  act-Change (stop worker) fresh table = dropped worker refl refl
