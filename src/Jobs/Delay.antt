-- ===== src/Jobs/Delay.antt =====
-- The delay before a job is tried again.
use native.Mathlib.Nat.{
  mul-le-mul_left, mul-le-mul_right, le_of_mul-le-mul_right, mul-div-le, pow-le-pow_right,
  one-le-pow, le-div_iff_mul-le, div-mul-le_self,
}
use acadid.Common.{ℕ, suc, ◌+◌, ◌-◌, ◌*◌, ◌/◌, ◌^◌, ◌≤◌, ◌<◌, min, arith}
use acadid.Jobs.Types.{
  JobType, bulk_student_upload, result_batch_validation, credential_generation, pdf_generation,
  sms_email_delivery, push_notification, paystack_payment_confirmation, record_request_deadline,
  webhook_delivery, live_results_callback, exam_body_ingest, rate_limit_bucket_cleanup,
  idempotency_record_cleanup,
}
use acadid.Jobs.Retry.{RetryPolicy, policy_for, Draw, jitter_ms, exponential_delay, delay_ms}

-- What holds of each policy.
abbrev IsSane : RetryPolicy → Type 0
IsSane p = (1000 ≤ p.base_delay_ms) × (p.base_delay_ms ≤ p.max_delay_ms)

policy_for-IsSane : (type : JobType) → IsSane (policy_for type)
policy_for-IsSane bulk_student_upload = (omega arith, omega arith)
policy_for-IsSane result_batch_validation = (omega arith, omega arith)
policy_for-IsSane credential_generation = (omega arith, omega arith)
policy_for-IsSane pdf_generation = (omega arith, omega arith)
policy_for-IsSane sms_email_delivery = (omega arith, omega arith)
policy_for-IsSane push_notification = (omega arith, omega arith)
policy_for-IsSane paystack_payment_confirmation = (omega arith, omega arith)
policy_for-IsSane record_request_deadline = (omega arith, omega arith)
policy_for-IsSane webhook_delivery = (omega arith, omega arith)
policy_for-IsSane live_results_callback = (omega arith, omega arith)
policy_for-IsSane exam_body_ingest = (omega arith, omega arith)
policy_for-IsSane rate_limit_bucket_cleanup = (omega arith, omega arith)
policy_for-IsSane idempotency_record_cleanup = (omega arith, omega arith)

-- A jitter is its share of the delay at most, rounded.
jitter_ms-le :
    (delay percent : ℕ) (random : Draw)
    → 100 * jitter_ms delay percent random ≤ delay * percent + 50
unfolding jitter_ms
jitter_ms-le delay percent random =
    let d : ℕ = suc random.denominator in
    let m : ℕ = min d random.numerator in
    let share : delay * percent * m ≤ delay * percent * d =
      mul-le-mul_left (delay * percent) (omega arith) in
    let floor : 2 * (100 * d) * jitter_ms delay percent random
        ≤ 2 * (delay * percent * m) + 100 * d =
      mul-div-le (2 * (delay * percent * m) + 100 * d) (2 * (100 * d)) in
    le_of_mul-le-mul_right {k = 2 * d} (clear d m share floor) (omega arith)
  where
    clear :
        (d m : ℕ)
        → delay * percent * m ≤ delay * percent * d
        → 2 * (100 * d) * jitter_ms delay percent random ≤ 2 * (delay * percent * m) + 100 * d
        → 100 * jitter_ms delay percent random * (2 * d) ≤ (delay * percent + 50) * (2 * d)
    clear d m share floor = omega arith

div-le-div : (a b k : ℕ) → 0 < k → a ≤ b → a / k ≤ b / k
div-le-div a b k pos h =
    let floor : a / k * k ≤ a = div-mul-le_self a k in
    (le-div_iff_mul-le {k = k} {x = a / k} {y = b} pos).1 (below (a / k * k) floor)
  where
    below : (n : ℕ) → n ≤ a → n ≤ b
    below n le = omega arith

jitter_ms_mono :
    (a b percent : ℕ) (random : Draw)
    → a ≤ b
    → jitter_ms a percent random ≤ jitter_ms b percent random
unfolding jitter_ms
jitter_ms_mono a b percent random h =
    let d : ℕ = suc random.denominator in
    let m : ℕ = min d random.numerator in
    let share : a * percent * m ≤ b * percent * m =
      mul-le-mul_right m (mul-le-mul_right percent h) in
    div-le-div (2 * (a * percent * m) + 100 * d) (2 * (b * percent * m) + 100 * d) (2 * (100 * d))
      (omega arith) (omega arith)

exponential_delay_bounds :
    (type : JobType) (attempts : ℕ)
    → ((policy_for type).base_delay_ms ≤ exponential_delay type attempts)
      × (exponential_delay type attempts ≤ (policy_for type).max_delay_ms)
unfolding exponential_delay
exponential_delay_bounds type attempts =
    let (least, order) = policy_for-IsSane type in
    let grows : (policy_for type).base_delay_ms * 1
        ≤ (policy_for type).base_delay_ms * 2 ^ (attempts - 1) =
      mul-le-mul_left (policy_for type).base_delay_ms (one-le-pow (attempts - 1) 2 (omega arith)) in
    (omega arith, omega arith)

-- A job is tried again after its type's base delay at least, whatever is drawn, and after its
-- longest delay and the share of it that is jitter at most, rounded to a millisecond.
pub delay_ms_bounds :
    (type : JobType) (attempts : ℕ) (random : Draw)
    → ((policy_for type).base_delay_ms ≤ delay_ms type attempts random)
      × (100 * delay_ms type attempts random
          ≤ (100 + (policy_for type).jitter_percent) * (policy_for type).max_delay_ms + 50)
unfolding delay_ms
delay_ms_bounds type attempts random =
    let (least, order) = policy_for-IsSane type in
    let (low, high) = exponential_delay_bounds type attempts in
    let percent : ℕ = (policy_for type).jitter_percent in
    let jitter : 100 * jitter_ms (exponential_delay type attempts) percent random
        ≤ exponential_delay type attempts * percent + 50 =
      jitter_ms-le (exponential_delay type attempts) percent random in
    let share : exponential_delay type attempts * percent
        ≤ (policy_for type).max_delay_ms * percent =
      mul-le-mul_right percent high in
    (omega arith, omega arith)

-- With the same draw, a job that was tried more often waits no shorter.
pub delay_ms_mono :
    (type : JobType) (a b : ℕ) (random : Draw)
    → a ≤ b
    → delay_ms type a random ≤ delay_ms type b random
unfolding delay_ms exponential_delay
delay_ms_mono type a b random h =
    let p : RetryPolicy = policy_for type in
    let power : p.base_delay_ms * 2 ^ (a - 1) ≤ p.base_delay_ms * 2 ^ (b - 1) =
      mul-le-mul_left p.base_delay_ms (pow-le-pow_right (omega arith) (omega arith)) in
    let longer : exponential_delay type a ≤ exponential_delay type b = omega arith in
    let jitter =
      jitter_ms_mono (exponential_delay type a) (exponential_delay type b) p.jitter_percent random
        longer in
    omega arith
