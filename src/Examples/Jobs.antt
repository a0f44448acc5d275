-- ===== src/Examples/Jobs.antt =====
-- A job that two workers could take (job-worker.service.ts, queue.service.ts and
-- retry-policy.service.ts).
use acadid.Common.{
  ◌+◌, ◌*◌, ◌≤◌, max, String, Option, none, some, inl, List, [], ◌∷◌, Bool, true, false, ◌≡◌, refl,
  arith, string_Eq,
}
use mathlib.Core.List.{Memᴰ}
use acadid.Common.Assoc.{lookup, put, remove}
use acadid.Common.Json.{null}
use acadid.Jobs.Types.{push_notification, paystack_payment_confirmation, running, Job, Database}
use acadid.Jobs.Retry.{policy_for, Draw, should_retry, jitter_ms, exponential_delay, delay_ms}
use acadid.Jobs.Queue.{EnqueueJobInput, created_job, create_job}
use acadid.Jobs.Claim.{next_job, claimed_row, claim_next_job}
use acadid.Jobs.Finish.{
  completed_row, complete_job, fail_or_retry_job, failed_row, retry_at_of, read_dead_letter_job,
  requeue_dead_letter_job, requeued_row, next_max_attempts,
}
use acadid.Jobs.System.{
  System, AllFresh, Action, returned, threw, enqueue, claim, finish, read_dead_letter,
  requeue_dead_letter, begin_retry, stop, start_job, finish_job, act, act_all, empty,
}
use acadid.Jobs.Changes.{Found}
use acadid.Jobs.Consistent.{Held}
use acadid.Jobs.Exclusive.{workers-exclusive, attempts-bounded}
use acadid.Jobs.Final.{succeeded-stays, stopped-stays}
use acadid.Jobs.Order.{IsClaimable, IsBefore, claim_next_job-first}
use acadid.Jobs.Delay.{delay_ms_bounds, delay_ms_mono}

abbrev push : EnqueueJobInput
push = record {
  type = push_notification;
  queue = none;
  institution_id = none;
  created_by_id = none;
  related_entity_type = none;
  related_entity_id = none;
  priority = none;
  max_attempts = none;
  run_after = none;
  payload = null;
}

abbrev none_skipped : String → Bool
none_skipped id = false

abbrev half : Draw
half = record { numerator = 1; denominator = 1 }

abbrev taken : List Action
taken = enqueue push "j1" 5 ∷ claim none_skipped "w1" 10 ∷ claim none_skipped "w2" 11 ∷ []

abbrev waiting : Job
unfolding created_job
waiting = created_job push "j1" 5

abbrev claimed : Job
unfolding claimed_row created_job
claimed = claimed_row "w1" 10 waiting

taken_active : lookup "w1" (act_all taken empty).active ≡ some claimed
unfolding act_all act create_job created_job claim_next_job next_job start_job claimed_row lookup
    put remove
taken_active = refl

taken_row : Found (act_all taken empty) "j1" claimed
unfolding act_all act create_job created_job claim_next_job next_job start_job claimed_row lookup
    put remove
taken_row = refl

-- The job fails, an operator's call starts it again, and it is claimed once more.
abbrev retried : List Action
retried =
    enqueue push "j1" 5
    ∷ claim none_skipped "w1" 10
    ∷ finish "w1" (threw "No device." true) half 20
    ∷ read_dead_letter "c1" "j1"
    ∷ requeue_dead_letter "c1" 30
    ∷ claim none_skipped "w2" 40
    ∷ []

abbrev retried_row : Job
retried_row = elim (lookup "j1" (act_all retried empty).database.jobs) [
  | none ↦ waiting
  | some row ↦ row
]

retried-Found : Found (act_all retried empty) "j1" retried_row
unfolding act_all act create_job created_job claim_next_job next_job start_job claimed_row lookup
    put remove finish_job fail_or_retry_job failed_row retry_at_of should_retry begin_retry
    read_dead_letter_job requeue_dead_letter_job requeued_row next_max_attempts
retried-Found = refl

retried_active : lookup "w2" (act_all retried empty).active ≡ some retried_row
unfolding act_all act create_job created_job claim_next_job next_job start_job claimed_row lookup
    put remove finish_job fail_or_retry_job failed_row retry_at_of should_retry begin_retry
    read_dead_letter_job requeue_dead_letter_job requeued_row next_max_attempts
retried_active = refl

retried_fresh : AllFresh retried empty
unfolding act_all act create_job created_job claim_next_job next_job start_job claimed_row lookup
    put remove finish_job fail_or_retry_job failed_row retry_at_of should_retry begin_retry
    read_dead_letter_job requeue_dead_letter_job requeued_row next_max_attempts
retried_fresh = (tt, (tt, (tt, (tt, ((refl, refl), (tt, tt))))))

workers-exclusive_example :
    (◌≡◌ {A = String} "w2" "w2") × Held (act_all retried empty) "w2" retried_row
workers-exclusive_example =
    workers-exclusive retried "w2" "w2" retried_row retried_row retried_fresh retried_active
      retried_active refl

attempts-bounded_example : retried_row.attempts ≤ max 1 retried_row.max_attempts
attempts-bounded_example = attempts-bounded retried "j1" retried_row retried_fresh retried-Found

-- Two calls read the failed job, and the second writes after the job was claimed again.
abbrev raced : List Action
raced =
    enqueue push "j1" 5
    ∷ claim none_skipped "w1" 10
    ∷ finish "w1" (threw "No device." true) half 20
    ∷ read_dead_letter "c1" "j1"
    ∷ read_dead_letter "c2" "j1"
    ∷ requeue_dead_letter "c1" 30
    ∷ claim none_skipped "w1" 40
    ∷ requeue_dead_letter "c2" 50
    ∷ claim none_skipped "w2" 60
    ∷ []

abbrev job_of : String → Option String
job_of worker = elim (lookup worker (act_all raced empty).active) [
  | none ↦ none
  | some job ↦ some job.uuid
]

-- Then two workers process it.
raced_twice : (job_of "w1" ≡ some "j1") × (job_of "w2" ≡ some "j1")
unfolding act_all act create_job created_job claim_next_job next_job start_job claimed_row lookup
    put remove finish_job fail_or_retry_job failed_row retry_at_of should_retry begin_retry
    read_dead_letter_job requeue_dead_letter_job requeued_row next_max_attempts
raced_twice = (refl, refl)

abbrev ended : List Action
ended = enqueue push "j1" 5 ∷ claim none_skipped "w1" 10 ∷ finish "w1" (returned null) half 20 ∷ []

abbrev completed : Job
unfolding completed_row
completed = completed_row null 20 claimed

ended_row : Found (act_all ended empty) "j1" completed
unfolding act_all act create_job created_job claim_next_job next_job start_job claimed_row lookup
    put remove finish_job complete_job completed_row
ended_row = refl

abbrev later : List Action
later = claim none_skipped "w2" 30 ∷ []

taken_fresh : AllFresh taken empty
taken_fresh = (tt, (tt, (tt, tt)))

ended_fresh : AllFresh ended empty
ended_fresh = (tt, (tt, (tt, tt)))

later_fresh : (s : System) → AllFresh later s
later_fresh s = (tt, tt)

succeeded-stays_example : Found (act_all later (act_all ended empty)) "j1" completed
unfolding completed
succeeded-stays_example =
    succeeded-stays ended later "j1" completed ended_fresh (later_fresh (act_all ended empty))
      ended_row refl

stopped-stays_example :
    (claimed.status ≡ running)
    × Found (act_all later (act (stop "w1") (act_all taken empty))) "j1" claimed
unfolding claimed
stopped-stays_example =
    stopped-stays taken later "w1" claimed claimed taken_fresh
      (later_fresh (act (stop "w1") (act_all taken empty))) taken_active taken_row

abbrev two_jobs : Database
two_jobs = record {
  jobs = ("j1", waiting) ∷ ("j2", record waiting { uuid = "j2"; priority = 1 }) ∷ [];
  deliveries = [];
  events = [];
}

-- The job of the higher priority is taken.
two_jobs_next :
    next_job none_skipped 10 two_jobs.jobs ≡ some (record waiting { uuid = "j2"; priority = 1 })
unfolding next_job waiting
two_jobs_next = refl

claim_next_job-first_example :
    (next row : Job) × IsClaimable none_skipped 10 two_jobs.jobs next
    × IsBefore next waiting
    × (claim_next_job none_skipped "w1" 10 two_jobs
        ≡ (some row, record two_jobs { jobs = put next.uuid row two_jobs.jobs }))
    × (row.status ≡ running)
    × (row.locked_by ≡ some "w1")
    × (row.attempts ≡ next.attempts + 1)
    × (row.uuid ≡ next.uuid)
unfolding waiting
claim_next_job-first_example = claim_next_job-first none_skipped "w1" 10 two_jobs waiting (record {
  id = "j1";
  listed = Memᴰ.head refl;
  waits = inl refl;
  queue_served = refl;
  due = omega arith;
  unlocked = refl;
})

-- The second attempt of a push notification fails: 60 seconds and half of the jitter of 12.
second_delay : delay_ms push_notification 2 half ≡ 66000
unfolding delay_ms exponential_delay jitter_ms
second_delay = refl

delay_ms_bounds_example :
    ((policy_for push_notification).base_delay_ms ≤ delay_ms push_notification 2 half)
    × (100 * delay_ms push_notification 2 half
        ≤ (100 + (policy_for push_notification).jitter_percent)
            * (policy_for push_notification).max_delay_ms
          + 50)
delay_ms_bounds_example = delay_ms_bounds push_notification 2 half

delay_ms_mono_example :
    delay_ms paystack_payment_confirmation 3 half ≤ delay_ms paystack_payment_confirmation 9 half
delay_ms_mono_example = delay_ms_mono paystack_payment_confirmation 3 9 half (omega arith)
