-- ===== src/Jobs/Retry.antt =====
-- retry-policy.service.ts. The jitter's ratios are written in percent, and a draw of `Math.random`
-- is a fraction.
use acadid.Common.{
  ℕ, suc, ◌+◌, ◌-◌, ◌*◌, ◌/◌, ◌^◌, min, max, ltb, Option, Bool, false, coalesce, if◌then◌else◌,
}
use acadid.Jobs.Types.{
  JobType, bulk_student_upload, result_batch_validation, credential_generation, pdf_generation,
  sms_email_delivery, push_notification, paystack_payment_confirmation, record_request_deadline,
  webhook_delivery, live_results_callback, exam_body_ingest, rate_limit_bucket_cleanup,
  idempotency_record_cleanup,
}

pub record RetryPolicy : Type 0 where
  pub max_attempts : ℕ
  pub base_delay_ms : ℕ
  pub max_delay_ms : ℕ
  pub jitter_percent : ℕ

abbrev pub minute : ℕ
minute = 60 * 1000

abbrev pub default_policy : RetryPolicy
default_policy = record {
  max_attempts = 3;
  base_delay_ms = 30 * 1000;
  max_delay_ms = 15 * minute;
  jitter_percent = 20;
}

-- `{ ...defaultPolicy, maxAttempts, baseDelayMs, maxDelayMs }`
abbrev pub policy : ℕ → ℕ → ℕ → RetryPolicy
policy attempts base most = record default_policy {
  max_attempts = attempts;
  base_delay_ms = base;
  max_delay_ms = most;
}

abbrev pub policy_for : JobType → RetryPolicy
policy_for bulk_student_upload = policy 3 (20 * 1000) (10 * minute)
policy_for result_batch_validation = policy 3 (20 * 1000) (10 * minute)
policy_for credential_generation = policy 5 (30 * 1000) (20 * minute)
policy_for pdf_generation = policy 5 (30 * 1000) (20 * minute)
policy_for sms_email_delivery = policy 5 (45 * 1000) (30 * minute)
policy_for push_notification = policy 5 (30 * 1000) (20 * minute)
policy_for paystack_payment_confirmation = policy 10 minute (60 * minute)
policy_for record_request_deadline = policy 4 (2 * minute) (30 * minute)
policy_for webhook_delivery = policy 8 (30 * 1000) (30 * minute)
policy_for live_results_callback = policy 8 (30 * 1000) (30 * minute)
policy_for exam_body_ingest = policy 8 minute (45 * minute)
policy_for rate_limit_bucket_cleanup = record (policy 2 (5 * minute) (15 * minute)) {
  jitter_percent = 10;
}
policy_for idempotency_record_cleanup = record (policy 2 (5 * minute) (15 * minute)) {
  jitter_percent = 10;
}

abbrev pub max_attempts_for : JobType → ℕ
max_attempts_for type = (policy_for type).max_attempts

unfoldable pub should_retry : JobType → ℕ → Option ℕ → Bool → Bool
should_retry type attempts max_attempts non_retryable =
    if non_retryable then false else ltb attempts (coalesce max_attempts (max_attempts_for type))

-- The fraction numerator / (denominator + 1); what lies above 1 counts as 1.
pub record Draw : Type 0 where
  pub numerator : ℕ
  pub denominator : ℕ

-- `Math.round(delayMs * jitterRatio * boundedRandom)`, a half rounded up
unfoldable pub jitter_ms : ℕ → ℕ → Draw → ℕ
jitter_ms delay percent random =
    let d = suc random.denominator in
    (2 * (delay * percent * min d random.numerator) + 100 * d) / (2 * (100 * d))

unfoldable pub exponential_delay : JobType → ℕ → ℕ
exponential_delay type attempts =
    let p = policy_for type in min p.max_delay_ms (p.base_delay_ms * 2 ^ (attempts - 1))

unfoldable pub delay_ms : JobType → ℕ → Draw → ℕ
delay_ms type attempts random =
    let delay = exponential_delay type attempts in
    max 1000 (delay + jitter_ms delay (policy_for type).jitter_percent random)

unfoldable pub next_run_after : JobType → ℕ → ℕ → Draw → ℕ
next_run_after type attempts now random = now + delay_ms type attempts random
