-- ===== src/Jobs/Finish.antt =====
-- What ends a run of a job: `completeJob` and `failOrRetryJob` of job-worker.service.ts; and
-- `retryDeadLetterJob` of apps/api/src/modules/admin/admin.service.ts, which starts a failed job
-- again.
use acadid.Common.{
  ℕ, ◌+◌, max, String, Option, none, some, List, [], ◌∷◌, ◌++◌, map, Bool, true, false, ◌&&◌, ◌==◌,
  if_some, string_Eq, if◌then◌else◌,
}
use acadid.Common.Assoc.{lookup, put}
use acadid.Common.Json.{Json}
use acadid.Common.Outcome.{Outcome, ok, throw, plain_error, bad_request}
use acadid.Jobs.Types.{
  JobType, webhook_delivery, JobStatus, retrying, succeeded, failed, Job, DeliveryStatus,
  delivery_pending, delivery_retrying, delivery_failed, Delivery, JobEvent, has_succeeded,
  is_retrying, has_failed, dead_letter_retry_queued, DomainEvent, Database,
}
use acadid.Jobs.Retry.{Draw, should_retry, next_run_after, max_attempts_for}

abbrev pub event_of : Job → JobEvent → List DomainEvent
event_of job event =
    record {
      job_type = job.type;
      aggregate_id = job.uuid;
      institution_id = job.institution_id;
      event = event;
    }
    ∷ []

abbrev pub no_row : Outcome Database
no_row = throw (plain_error "Record to update not found.")

unfoldable pub completed_row : Json → ℕ → Job → Job
completed_row result now row = record row {
  status = succeeded;
  result = some result;
  progress = 100;
  locked_at = none;
  locked_by = none;
  completed_at = some now;
}

unfoldable pub complete_job : Job → Json → ℕ → Database → Outcome Database
complete_job job result now db = if_some (lookup job.uuid db.jobs) no_row (λ row. ok (record db {
  jobs = put job.uuid (completed_row result now row) db.jobs;
  events = db.events ++ event_of job (has_succeeded result);
}))

-- `retry_at` is `nextRunAfter`, which is undefined when the job is not tried again.
unfoldable pub failed_row : String → Option ℕ → ℕ → Job → Job
failed_row message (some retry_at) now row = record row {
  status = retrying;
  error = some message;
  progress = 0;
  locked_at = none;
  locked_by = none;
  run_after = retry_at;
}
failed_row message none now row = record row {
  status = failed;
  error = some message;
  progress = 100;
  locked_at = none;
  locked_by = none;
  failed_at = some now;
}

abbrev pub is_some_id : Option String → String → Bool
is_some_id none id = false
is_some_id (some a) id = a == id

abbrev pub is_open_delivery : DeliveryStatus → Bool
is_open_delivery delivery_pending = true
is_open_delivery delivery_retrying = true
is_open_delivery _ = false

abbrev pub is_failed_delivery : DeliveryStatus → Bool
is_failed_delivery delivery_failed = true
is_failed_delivery _ = false

unfoldable pub failed_delivery : Job → String → Option ℕ → ℕ → Delivery → Delivery
failed_delivery job message (some retry_at) now d =
    if is_some_id d.job_id job.uuid && is_open_delivery d.status
    then record d {
      status = delivery_retrying;
      last_error = some message;
      next_attempt_at = retry_at;
    }
    else d
failed_delivery job message none now d =
    if is_some_id d.job_id job.uuid && is_open_delivery d.status
    then record d { status = delivery_failed; last_error = some message; next_attempt_at = now }
    else d

abbrev pub is_webhook : JobType → Bool
is_webhook webhook_delivery = true
is_webhook _ = false

abbrev pub failure_event : String → Option ℕ → JobEvent
failure_event message none = has_failed message
failure_event message (some retry_at) = is_retrying message

unfoldable pub retry_at_of : Job → Bool → ℕ → Draw → Option ℕ
retry_at_of job non_retryable now random =
    if should_retry job.type job.attempts (some job.max_attempts) non_retryable
    then some (next_run_after job.type job.attempts now random)
    else none

-- `non_retryable` tells that the error is a `NonRetryableJobError`.
unfoldable pub fail_or_retry_job : Job → String → Bool → Draw → ℕ → Database → Outcome Database
fail_or_retry_job job message non_retryable random now db =
    let retry_at = retry_at_of job non_retryable now random in
    if_some (lookup job.uuid db.jobs) no_row (λ row. ok (record {
      jobs = put job.uuid (failed_row message retry_at now row) db.jobs;
      deliveries =
          if is_webhook job.type
          then map (failed_delivery job message retry_at now) db.deliveries
          else db.deliveries;
      events = db.events ++ event_of job (failure_event message retry_at);
    }))

abbrev pub is_failed : JobStatus → Bool
is_failed failed = true
is_failed _ = false

unfoldable pub next_max_attempts : Job → ℕ
next_max_attempts job = max (max job.max_attempts (job.attempts + 1)) (max_attempts_for job.type)

unfoldable pub requeued_row : Job → ℕ → Job → Job
requeued_row existing now row = record row {
  status = retrying;
  error = none;
  progress = 0;
  locked_at = none;
  locked_by = none;
  run_after = now;
  failed_at = none;
  max_attempts = next_max_attempts existing;
}

unfoldable pub requeued_delivery : Job → ℕ → Delivery → Delivery
requeued_delivery job now d =
    if is_some_id d.job_id job.uuid && is_failed_delivery d.status
    then record d { status = delivery_retrying; last_error = none; next_attempt_at = now }
    else d

-- What `retryDeadLetterJob` reads before its transaction starts.
unfoldable pub read_dead_letter_job : String → Database → Outcome Job
read_dead_letter_job id db =
    if_some (lookup id db.jobs) (throw (bad_request "Dead-letter job not found.")) (λ existing.
      if is_failed existing.status
      then ok existing
      else throw (bad_request "Only failed dead-letter jobs can be retried."))

-- Its transaction: `existing` is the row as it was read, and the row that is written may be another
-- by then.
unfoldable pub requeue_dead_letter_job : Job → ℕ → Database → Outcome Database
requeue_dead_letter_job existing now db = if_some (lookup existing.uuid db.jobs) no_row (λ row.
    ok (record {
      jobs = put existing.uuid (requeued_row existing now row) db.jobs;
      deliveries =
          if is_webhook existing.type
          then map (requeued_delivery existing now) db.deliveries
          else db.deliveries;
      events =
          db.events
          ++ event_of existing
              (dead_letter_retry_queued existing.attempts (next_max_attempts existing));
    }))
