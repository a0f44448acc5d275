-- ===== src/Jobs/Claim.antt =====
-- `claimNextJob` of job-worker.service.ts: the query that takes the next job and the update that
-- locks it, in one transaction. `skipped` tells the rows that other transactions have locked.
use acadid.Common.{
  ℕ, ◌+◌, leb, ltb, nat_eq, String, Option, none, some, List, [], ◌∷◌, Bool, true, false, not, ◌&&◌,
  ◌||◌, elem, if_some, string_Eq, if◌then◌else◌,
}
use acadid.Common.Assoc.{Assoc, put}
use acadid.Jobs.Types.{JobStatus, queued, running, retrying, Job, Database}

abbrev pub worker_queues : List String
worker_queues =
    "ingestion.bulk" ∷ "results.validation" ∷ "credentials.generation" ∷ "documents.pdf"
    ∷ "notifications.delivery" ∷ "payments.paystack" ∷ "record-requests.deadlines"
    ∷ "webhooks.delivery" ∷ "notifications.push" ∷ "live-results.callbacks" ∷ "exam-body.ingest"
    ∷ "platform.maintenance" ∷ []

abbrev pub is_waiting : JobStatus → Bool
is_waiting queued = true
is_waiting retrying = true
is_waiting _ = false

-- The query's WHERE.
abbrev pub is_due : ℕ → Job → Bool
is_due now job = is_waiting job.status && (elem job.queue worker_queues && leb job.run_after now)

-- The query's ORDER BY.
abbrev pub precedes : Job → Job → Bool
precedes a b =
    ltb b.priority a.priority
    || (nat_eq a.priority b.priority
        && (ltb a.run_after b.run_after
            || (nat_eq a.run_after b.run_after && ltb a.created_at b.created_at)))

abbrev pub first_of : Job → Option Job → Job
first_of job none = job
first_of job (some best) = if precedes best job then best else job

unfoldable pub next_job : (String → Bool) → ℕ → Assoc String Job → Option Job
next_job skipped now [] = none
next_job skipped now ((id, job) ∷ rows) =
    let best = next_job skipped now rows in
    if is_due now job && not (skipped id) then some (first_of job best) else best

unfoldable pub claimed_row : String → ℕ → Job → Job
claimed_row worker now job = record job {
  status = running;
  locked_at = some now;
  locked_by = some worker;
  started_at = some now;
  attempts = job.attempts + 1;
  error = none;
  progress = 10;
}

unfoldable pub claim_next_job : (String → Bool) → String → ℕ → Database → Option Job × Database
claim_next_job skipped worker now db =
    if_some (next_job skipped now db.jobs) (none, db)
      (λ next.
        let row = claimed_row worker now next in
        (some row, record db { jobs = put next.uuid row db.jobs }))
