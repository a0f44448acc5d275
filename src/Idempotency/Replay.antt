-- ===== src/Idempotency/Replay.antt =====
-- What a request gets that comes again.
use acadid.Common.{ℕ, String, none, some, true, false, ◌≡◌, refl, ap, ◌∙◌, string_Eq}
use acadid.Common.Assoc.{lookup, put, lookup-put_self}
use acadid.Common.Json.{Json}
use acadid.Common.Outcome.{Exception, ok, throw, conflict}
use acadid.Idempotency.Records.{
  RecordKey, record_key_Eq, failed, succeeded, Record, Records, IdempotencyInput, normalise_key,
  started_record, create_record, ended_record, end_record,
}
use acadid.Idempotency.Execute.{
  is_truthy, without_response, answer, Handler, key_of, after_end, run_handler, execute_key,
  execute,
}

module _ {ℓ} {S : Type ℓ} (hash : String → String) (input : IdempotencyInput) (key : String)
    (valid : normalise_key input.key ≡ ok key) where
  -- The record after a first request, ended with what its handler returned or threw.
  first_run :
      (now : ℕ) (handler : Handler S) (records : Records) (s : S)
      → lookup (key_of hash input key) records ≡ none
      → execute hash input now handler records s ≡ (
        (handler s).0,
        put
            (key_of hash input key)
            (ended_record input (handler s).0 (started_record input (hash input.request) now))
            (put (key_of hash input key) (started_record input (hash input.request) now) records),
        (handler s).1,
      )
  unfolding execute execute_key run_handler create_record end_record after_end
  first_run now handler records s free = rw (valid, free, lookup-put_self) refl

  again :
      (now : ℕ) (handler : Handler S) (records : Records) (s : S) (row : Record)
      → lookup (key_of hash input key) records ≡ some row
      → execute hash input now handler records s ≡ (answer row (hash input.request), records, s)
  unfolding execute execute_key
  again now handler records s row found = rw (valid, found) refl

answer-truthy :
    (row : Record) (request_hash : String) (response : Json)
    → row.request_hash ≡ request_hash
    → row.response ≡ some response
    → is_truthy response ≡ true
    → answer row request_hash ≡ ok response
unfolding answer
answer-truthy row request_hash response same recorded counts =
    rw ((string_Eq.beq_iff row.request_hash request_hash).1 same, recorded, counts) refl

-- A request whose handler returned a response that counts as true gets that response when it comes
-- again with its key, and its handler does not run again: nothing changes.
pub execute-execute {ℓ} :
    {S : Type ℓ} (hash : String → String) (input : IdempotencyInput) (key : String) (now now' : ℕ)
    (handler handler' : Handler S) (records : Records) (s s' : S) (response : Json)
    → normalise_key input.key ≡ ok key
    → lookup (key_of hash input key) records ≡ none
    → (handler s).0 ≡ ok response
    → is_truthy response ≡ true
    → let ran = execute hash input now handler records s in
      (ran.0 ≡ ok response) × (execute hash input now' handler' ran.1 s' ≡ (ok response, ran.1, s'))
unfolding ended_record started_record
execute-execute hash input key now now' handler handler' records s s' response valid free returned
      counts =
    let k : RecordKey = key_of hash input key in
    let row : Record =
      ended_record input (ok response) (started_record input (hash input.request) now) in
    let created : Records = put k (started_record input (hash input.request) now) records in
    let run : execute hash input now handler records s
        ≡ (ok response, put k row created, (handler s).1) =
      first_run hash input key valid now handler records s free ∙ rw returned refl in
    rw run (
      refl,
      again hash input key valid now' handler' (put k row created) s' row
            (lookup-put_self k row created)
          ∙ ap (λ o. (o, put k row created, s'))
              (answer-truthy row (hash input.request) response refl refl counts),
    )

answer-failed :
    (row : Record) (request_hash : String)
    → row.request_hash ≡ request_hash
    → row.response ≡ none
    → row.status ≡ failed
    → answer row request_hash
      ≡ throw (
          conflict
            "An idempotent request with this key previously failed. Use a new key after resolving the error.")
unfolding answer without_response
answer-failed row request_hash same nothing ended =
    rw ((string_Eq.beq_iff row.request_hash request_hash).1 same, nothing, ended) refl

-- A request whose handler threw gets a conflict when it comes again with its key, and its handler
-- does not run again: nothing changes.
pub execute-failed {ℓ} :
    {S : Type ℓ} (hash : String → String) (input : IdempotencyInput) (key : String) (now now' : ℕ)
    (handler handler' : Handler S) (records : Records) (s s' : S) (e : Exception)
    → normalise_key input.key ≡ ok key
    → lookup (key_of hash input key) records ≡ none
    → (handler s).0 ≡ throw e
    → let ran = execute hash input now handler records s in
      (ran.0 ≡ throw e)
      × (execute hash input now' handler' ran.1 s' ≡ (
        throw (
            conflict
              "An idempotent request with this key previously failed. Use a new key after resolving the error."),
        ran.1,
        s',
      ))
unfolding ended_record started_record
execute-failed hash input key now now' handler handler' records s s' e valid free threw =
    let k : RecordKey = key_of hash input key in
    let row : Record =
      ended_record input (throw e) (started_record input (hash input.request) now) in
    let created : Records = put k (started_record input (hash input.request) now) records in
    let run : execute hash input now handler records s
        ≡ (throw e, put k row created, (handler s).1) =
      first_run hash input key valid now handler records s free ∙ rw threw refl in
    rw run (
      refl,
      again hash input key valid now' handler' (put k row created) s' row
            (lookup-put_self k row created)
          ∙ ap (λ o. (o, put k row created, s'))
              (answer-failed row (hash input.request) refl refl refl),
    )

answer-falsy :
    (row : Record) (request_hash : String) (response : Json)
    → row.request_hash ≡ request_hash
    → row.response ≡ some response
    → is_truthy response ≡ false
    → row.status ≡ succeeded
    → answer row request_hash
      ≡ throw (
          conflict
            "An idempotent request with this key previously failed. Use a new key after resolving the error.")
unfolding answer without_response
answer-falsy row request_hash response same recorded falsy ended =
    rw ((string_Eq.beq_iff row.request_hash request_hash).1 same, recorded, falsy, ended) refl

-- A request whose handler returned a response that counts as false is told, when it comes again
-- with its key, that it failed before.
pub execute-falsy {ℓ} :
    {S : Type ℓ} (hash : String → String) (input : IdempotencyInput) (key : String) (now now' : ℕ)
    (handler handler' : Handler S) (records : Records) (s s' : S) (response : Json)
    → normalise_key input.key ≡ ok key
    → lookup (key_of hash input key) records ≡ none
    → (handler s).0 ≡ ok response
    → is_truthy response ≡ false
    → let ran = execute hash input now handler records s in
      (ran.0 ≡ ok response)
      × ((execute hash input now' handler' ran.1 s').0
          ≡ throw (
              conflict
                "An idempotent request with this key previously failed. Use a new key after resolving the error."))
unfolding ended_record started_record
execute-falsy hash input key now now' handler handler' records s s' response valid free returned
      falsy =
    let k : RecordKey = key_of hash input key in
    let row : Record =
      ended_record input (ok response) (started_record input (hash input.request) now) in
    let created : Records = put k (started_record input (hash input.request) now) records in
    let run : execute hash input now handler records s
        ≡ (ok response, put k row created, (handler s).1) =
      first_run hash input key valid now handler records s free ∙ rw returned refl in
    rw run (
      refl,
      ap (λ r. r.0)
            (again hash input key valid now' handler' (put k row created) s' row
              (lookup-put_self k row created))
          ∙ answer-falsy row (hash input.request) response refl refl falsy refl,
    )
