-- ===== src/Examples/Idempotency.antt =====
-- A request with a key that comes twice (idempotency.service.ts). The handler's state is a counter.
use acadid.Common.{ℕ, suc, ◌+◌, ◌≤◌, String, none, List, [], ◌∷◌, ◌≡◌, refl, string_Eq}
use acadid.Common.Assoc.{lookup, lookup-nil}
use acadid.Common.Json.{Json, null, str}
use acadid.Common.Text.{trim, length_of}
use acadid.Common.Outcome.{ok, throw, bad_request, conflict}
use acadid.Idempotency.Records.{
  RecordKey, record_key_Eq, IdempotencyInput, Record, normalise_key, all_key_chars,
}
use acadid.Idempotency.Execute.{Handler, key_of, execute}
use acadid.Idempotency.Replay.{execute-execute, execute-failed, execute-falsy}
use acadid.Idempotency.Once
use acadid.Idempotency.Once.{Step, starts_of, taken, starts_of-le}

abbrev no_hash : String → String
no_hash text = text

abbrev upload : IdempotencyInput
upload = record {
  scope = "job:BULK_STUDENT_UPLOAD";
  key = " upload-2024 ";
  operation = "bulk_student_upload.queued";
  request = "{}";
  actor_id = none;
  institution_id = none;
  ttl_hours = none;
  response_job_id = λ response. none;
}

upload_key : normalise_key upload.key ≡ ok "upload-2024"
unfolding normalise_key trim length_of all_key_chars
upload_key = refl

short_key :
    normalise_key "abc"
    ≡ throw (bad_request "Idempotency key must be between 8 and 200 characters.")
unfolding normalise_key trim length_of all_key_chars
short_key = refl

abbrev answers : Json → Handler ℕ
answers response n = (ok response, suc n)

abbrev refuses : Handler ℕ
refuses n = (throw (bad_request "No rows."), n)

abbrev upload_record_key : RecordKey
upload_record_key = key_of no_hash upload "upload-2024"

execute-execute_example :
    let ran = execute no_hash upload 10 (answers (str "job-1")) [] 0 in
    (ran.0 ≡ ok (str "job-1"))
    × (execute no_hash upload 20 (answers (str "job-2")) ran.1 1 ≡ (ok (str "job-1"), ran.1, 1))
execute-execute_example =
    execute-execute no_hash upload "upload-2024" 10 20 (answers (str "job-1"))
      (answers (str "job-2")) [] 0 1 (str "job-1") upload_key
      (lookup-nil {V = Record} upload_record_key) refl refl

execute-failed_example :
    let ran = execute no_hash upload 10 refuses [] 0 in
    (ran.0 ≡ throw (bad_request "No rows."))
    × (execute no_hash upload 20 (answers (str "job-2")) ran.1 1 ≡ (
      throw (
          conflict
            "An idempotent request with this key previously failed. Use a new key after resolving the error."),
      ran.1,
      1,
    ))
execute-failed_example =
    execute-failed no_hash upload "upload-2024" 10 20 refuses (answers (str "job-2")) [] 0 1
      (bad_request "No rows.") upload_key (lookup-nil {V = Record} upload_record_key) refl

execute-falsy_example :
    let ran = execute no_hash upload 10 (answers null) [] 0 in
    (ran.0 ≡ ok null)
    × ((execute no_hash upload 20 (answers null) ran.1 1).0
        ≡ throw (
            conflict
              "An idempotent request with this key previously failed. Use a new key after resolving the error."))
execute-falsy_example =
    execute-falsy no_hash upload "upload-2024" 10 20 (answers null) (answers null) [] 0 1 null
      upload_key (lookup-nil {V = Record} upload_record_key) refl refl

abbrev two_uploads : List Step
two_uploads =
    Once.create upload upload_record_key "{}" 10
    ∷ Once.create upload upload_record_key "{}" 11
    ∷ Once.end upload upload_record_key (ok (str "job-1"))
    ∷ []

starts_of-le_example :
    starts_of upload_record_key two_uploads [] + taken (lookup upload_record_key []) ≤ 1
starts_of-le_example = starts_of-le upload_record_key two_uploads []
