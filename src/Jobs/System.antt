-- ===== src/Jobs/System.antt =====
-- The queue with the workers that run its jobs: `runOnce` of job-worker.service.ts claims a job,
-- processes it and then completes or fails it, and other workers' steps come in between. What the
-- processor of a job makes of it is part of the action. A worker that is stopped while it processes
-- a job forgets it.
use acadid.Common.{
  ℕ, String, Option, none, some, List, [], if_some, ◌∷◌, Bool, true, ◌≡◌, string_Eq,
}
use acadid.Common.Assoc.{Assoc, lookup, put, remove}
use acadid.Common.Json.{Json}
use acadid.Common.Outcome.{Outcome, ok, throw}
use acadid.Jobs.Types.{Job, Database}
use acadid.Jobs.Retry.{Draw}
use acadid.Jobs.Queue.{EnqueueJobInput, create_job}
use acadid.Jobs.Claim.{claim_next_job}
use acadid.Jobs.Finish.{
  is_failed, complete_job, fail_or_retry_job, read_dead_letter_job, requeue_dead_letter_job,
}

-- The database, for each worker that is processing one the job as it was claimed, and for each call
-- of `retryDeadLetterJob` that has not written yet the row as it read it.
pub record System : Type 0 where
  pub database : Database
  pub active : Assoc String Job
  pub retries : Assoc String Job

-- What a processor returns or throws.
pub data Processed : Type 0 where
  returned : Json → Processed
  threw : (message : String) → (non_retryable : Bool) → Processed

pub data Action : Type 0 where
  enqueue : EnqueueJobInput → (uuid : String) → (now : ℕ) → Action
  claim : (skipped : String → Bool) → (worker : String) → (now : ℕ) → Action
  finish : (worker : String) → Processed → Draw → (now : ℕ) → Action
  read_dead_letter : (call id : String) → Action
  requeue_dead_letter : (call : String) → (now : ℕ) → Action
  stop : (worker : String) → Action

abbrev pub or_unchanged : Outcome Database → Database → Database
or_unchanged (ok db') db = db'
or_unchanged (throw e) db = db

unfoldable pub start_job : String → Option Job × Database → System → System
start_job worker (none, db) s = record s { database = db }
start_job worker (some job, db) s = record s { database = db; active = put worker job s.active }

unfoldable pub begin_retry : String → Outcome Job → System → System
begin_retry call (ok existing) s = record s { retries = put call existing s.retries }
begin_retry call (throw e) s = s

unfoldable pub finish_job : Job → Processed → Draw → ℕ → Database → Outcome Database
finish_job job (returned result) random now db = complete_job job result now db
finish_job job (threw message non_retryable) random now db =
    fail_or_retry_job job message non_retryable random now db

unfoldable pub act : Action → System → System
act (enqueue input uuid now) s = record s {
  database = or_unchanged (create_job input uuid now s.database) s.database;
}
act (claim skipped worker now) s =
    if_some (lookup worker s.active)
      (start_job worker (claim_next_job skipped worker now s.database) s) (λ job. s)
act (finish worker processed random now) s = if_some (lookup worker s.active) s (λ job. record s {
  database = or_unchanged (finish_job job processed random now s.database) s.database;
  active = remove worker s.active;
})
act (read_dead_letter call id) s = begin_retry call (read_dead_letter_job id s.database) s
act (requeue_dead_letter call now) s = if_some (lookup call s.retries) s (λ existing. record s {
  database = or_unchanged (requeue_dead_letter_job existing now s.database) s.database;
  retries = remove call s.retries;
})
act (stop worker) s = record s { active = remove worker s.active }

unfoldable pub act_all : List Action → System → System
act_all [] s = s
act_all (a ∷ actions) s = act_all actions (act a s)

abbrev pub empty : System
empty = record {
  database = record { jobs = []; deliveries = []; events = [] };
  active = [];
  retries = [];
}

-- What a call read is still how the row stands, and the job has failed.
abbrev pub FreshRow : Option Job → System → Type 0
FreshRow none s = Unit
FreshRow (some existing) s =
    (lookup existing.uuid s.database.jobs ≡ some existing) × (is_failed existing.status ≡ true)

-- A call of `retryDeadLetterJob` writes while the row is failed and as the call read it.
abbrev pub IsFresh : Action → System → Type 0
IsFresh (requeue_dead_letter call now) s = FreshRow (lookup call s.retries) s
IsFresh (read_dead_letter call id) s = Unit
IsFresh (enqueue input uuid now) s = Unit
IsFresh (claim skipped worker now) s = Unit
IsFresh (finish worker processed random now) s = Unit
IsFresh (stop worker) s = Unit

-- Each call among the actions does.
abbrev pub AllFresh : List Action → System → Type 0
AllFresh [] s = Unit
AllFresh (a ∷ actions) s = IsFresh a s × AllFresh actions (act a s)
