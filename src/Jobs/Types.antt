-- ===== src/Jobs/Types.antt =====
-- The types of jobs, and the rows of `BackgroundJob`, `WebhookDelivery` and `DomainEvent`.
use acadid.Common.{ℕ, String, Option, List}
use acadid.Common.Assoc.{Assoc}
use acadid.Common.Json.{Json}

pub data JobType : Type 0 where
  bulk_student_upload result_batch_validation credential_generation pdf_generation
        sms_email_delivery push_notification paystack_payment_confirmation record_request_deadline
        webhook_delivery live_results_callback exam_body_ingest rate_limit_bucket_cleanup
        idempotency_record_cleanup :
      JobType

pub data JobStatus : Type 0 where
  queued running retrying succeeded failed cancelled : JobStatus

pub record Job : Type 0 where
  pub uuid : String
  pub type : JobType
  pub queue : String
  pub status : JobStatus
  pub institution_id : Option String
  pub created_by_id : Option String
  pub related_entity_type : Option String
  pub related_entity_id : Option String
  pub priority : ℕ
  pub payload : Json
  pub result : Option Json
  pub error : Option String
  pub progress : ℕ
  pub attempts : ℕ
  pub max_attempts : ℕ
  pub run_after : ℕ
  pub locked_at : Option ℕ
  pub locked_by : Option String
  pub started_at : Option ℕ
  pub completed_at : Option ℕ
  pub failed_at : Option ℕ
  pub created_at : ℕ

pub data DeliveryStatus : Type 0 where
  delivery_pending delivered delivery_retrying delivery_failed delivery_cancelled : DeliveryStatus

pub record Delivery : Type 0 where
  pub job_id : Option String
  pub status : DeliveryStatus
  pub last_error : Option String
  pub next_attempt_at : ℕ

-- What happened to the job; the text of `type` is made from it and the job's type.
pub data JobEvent : Type 0 where
  was_queued : (queue : String) → JobEvent
  has_succeeded : (result : Json) → JobEvent
  is_retrying has_failed : (error : String) → JobEvent
  dead_letter_retry_queued : (previous_attempts max_attempts : ℕ) → JobEvent

pub record DomainEvent : Type 0 where
  pub job_type : JobType
  pub aggregate_id : String
  pub institution_id : Option String
  pub event : JobEvent

pub record Database : Type 0 where
  pub jobs : Assoc String Job
  pub deliveries : List Delivery
  pub events : List DomainEvent
