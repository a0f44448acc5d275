-- ===== src/Jobs/Queue.antt =====
-- `createJob` of queue.service.ts, which puts a job into its queue. The database draws its uuid.
use acadid.Common.{ℕ, String, Option, none, [], ◌∷◌, ◌++◌, coalesce, if_some, string_Eq}
use acadid.Common.Assoc.{lookup, put}
use acadid.Common.Outcome.{Outcome, ok, throw, plain_error}
use acadid.Common.Json.{Json}
use acadid.Jobs.Types.{
  JobType, bulk_student_upload, result_batch_validation, credential_generation, pdf_generation,
  sms_email_delivery, push_notification, paystack_payment_confirmation, record_request_deadline,
  webhook_delivery, live_results_callback, exam_body_ingest, rate_limit_bucket_cleanup,
  idempotency_record_cleanup, queued, Job, was_queued, Database,
}
use acadid.Jobs.Retry.{max_attempts_for}

abbrev pub queue_by_job_type : JobType → String
queue_by_job_type bulk_student_upload = "ingestion.bulk"
queue_by_job_type result_batch_validation = "results.validation"
queue_by_job_type credential_generation = "credentials.generation"
queue_by_job_type pdf_generation = "documents.pdf"
queue_by_job_type sms_email_delivery = "notifications.delivery"
queue_by_job_type paystack_payment_confirmation = "payments.paystack"
queue_by_job_type record_request_deadline = "record-requests.deadlines"
queue_by_job_type webhook_delivery = "webhooks.delivery"
queue_by_job_type push_notification = "notifications.push"
queue_by_job_type live_results_callback = "live-results.callbacks"
queue_by_job_type exam_body_ingest = "exam-body.ingest"
queue_by_job_type rate_limit_bucket_cleanup = "platform.maintenance"
queue_by_job_type idempotency_record_cleanup = "platform.maintenance"

pub record EnqueueJobInput : Type 0 where
  pub type : JobType
  pub queue : Option String
  pub institution_id : Option String
  pub created_by_id : Option String
  pub related_entity_type : Option String
  pub related_entity_id : Option String
  pub priority : Option ℕ
  pub max_attempts : Option ℕ
  pub run_after : Option ℕ
  pub payload : Json

unfoldable pub created_job : EnqueueJobInput → String → ℕ → Job
created_job input uuid now = record {
  uuid = uuid;
  type = input.type;
  queue = coalesce input.queue (queue_by_job_type input.type);
  status = queued;
  institution_id = input.institution_id;
  created_by_id = input.created_by_id;
  related_entity_type = input.related_entity_type;
  related_entity_id = input.related_entity_id;
  priority = coalesce input.priority 0;
  payload = input.payload;
  result = none;
  error = none;
  progress = 0;
  attempts = 0;
  max_attempts = coalesce input.max_attempts (max_attempts_for input.type);
  run_after = coalesce input.run_after now;
  locked_at = none;
  locked_by = none;
  started_at = none;
  completed_at = none;
  failed_at = none;
  created_at = now;
}

-- The uuid is the table's key: one that stands in it already is refused by the database.
unfoldable pub create_job : EnqueueJobInput → String → ℕ → Database → Outcome Database
create_job input uuid now db =
    let job = created_job input uuid now in
    if_some (lookup uuid db.jobs)
      (ok (record db {
        jobs = put uuid job db.jobs;
        events =
            db.events
            ++ (record {
              job_type = job.type;
              aggregate_id = uuid;
              institution_id = input.institution_id;
              event = was_queued job.queue;
            }
                ∷ []);
      }))
      (λ row. throw (plain_error "Unique constraint failed on uuid."))
