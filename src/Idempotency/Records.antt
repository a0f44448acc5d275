-- ===== src/Idempotency/Records.antt =====
-- The table `IdempotencyRecord`: `normaliseKey`, `createRecord`, the updates at the end of a request
-- and `cleanupExpiredRecords`. `hash` is the digest of a text; times are milliseconds.
use Prim.Native.Char.{code}
use acadid.Common.{
  ℕ, ◌+◌, ◌-◌, ◌*◌, leb, ltb, nat_eq, ◌&&◌, ◌||◌, not, ◌≡◌, ◌↔◌, String, Option, none, some, Bool,
  true, Eq, ◌==◌, string_Eq, arith, filterb, coalesce, if_some,
}
use acadid.Common.Assoc.{Assoc, lookup, put}
use acadid.Common.Number.{Number, clamp_number}
use acadid.Common.Text.{trim, length_of, slice_to}
use acadid.Common.Json.{Json}
use acadid.Common.Outcome.{
  Outcome, ok, throw, bad_request, conflict, plain_error, message_of, ◌>>◌, refuse,
}

pub record RecordKey : Type 0 where
  pub scope : String
  pub key_hash : String

abbrev pub same_key : RecordKey → RecordKey → Bool
same_key a b = (a.scope == b.scope) && (a.key_hash == b.key_hash)

pub same_key_iff : (a b : RecordKey) → (same_key a b ≡ true) ↔ (a ≡ b)
same_key_iff a b =
    ground (arith, string_Eq.beq_iff a.scope b.scope, string_Eq.beq_iff a.key_hash b.key_hash)

instance abbrev pub record_key_Eq : Eq RecordKey
record_key_Eq = record { beq = same_key; beq_iff = same_key_iff }

pub data RecordStatus : Type 0 where
  in_progress succeeded failed : RecordStatus

pub record Record : Type 0 where
  pub request_hash : String
  pub operation : String
  pub status : RecordStatus
  pub actor_id : Option String
  pub institution_id : Option String
  pub job_id : Option String
  pub response : Option Json
  pub error : Option String
  pub expires_at : ℕ

abbrev pub Records : Type 0
Records = Assoc RecordKey Record

-- `request` is the text that `stableStringify` makes of the request.
pub record IdempotencyInput : Type 0 where
  pub scope : String
  pub key : String
  pub operation : String
  pub request : String
  pub actor_id : Option String
  pub institution_id : Option String
  pub ttl_hours : Option Number
  pub response_job_id : Json → Option String

-- `[a-zA-Z0-9._:-]`
unfoldable pub is_key_char : ℕ → Bool
is_key_char c =
    (leb b'a' c && leb c b'z')
    || ((leb b'A' c && leb c b'Z')
        || ((leb b'0' c && leb c b'9')
            || (nat_eq c b'.' || (nat_eq c b'_' || (nat_eq c b':' || nat_eq c b'-')))))

unfoldable pub all_key_chars : String → Bool
unfolding is_key_char
all_key_chars String.[] = true
all_key_chars (String.◌∷◌ c s) = is_key_char (code c) && all_key_chars s

unfoldable pub normalise_key : String → Outcome String
unfolding trim
normalise_key key = do
  let trimmed = trim key
  refuse (ltb (length_of trimmed) 8 || ltb 200 (length_of trimmed))
      (bad_request "Idempotency key must be between 8 and 200 characters.")
  refuse (not (all_key_chars trimmed)) (
      bad_request
        "Idempotency key may only contain letters, numbers, dots, underscores, colons, and hyphens.")
  ok trimmed

abbrev pub clamp_hours : Option Number → ℕ
clamp_hours value = clamp_number value 1 (24 * 30) 24

unfoldable pub started_record : IdempotencyInput → String → ℕ → Record
started_record input request_hash now = record {
  request_hash = request_hash;
  operation = input.operation;
  status = in_progress;
  actor_id = input.actor_id;
  institution_id = input.institution_id;
  job_id = none;
  response = none;
  error = none;
  expires_at = now + clamp_hours input.ttl_hours * 60 * 60 * 1000;
}

-- The scope and the digest of the key are unique together.
unfoldable pub create_record : IdempotencyInput → RecordKey → String → ℕ → Records → Outcome Records
create_record input k request_hash now records =
    if_some (lookup k records) (ok (put k (started_record input request_hash now) records))
      (λ taken. throw (conflict "An idempotent request with this key is already being recorded."))

-- The update that follows the handler, whether it returned or threw.
unfoldable pub ended_record : IdempotencyInput → Outcome Json → Record → Record
ended_record input (ok response) r = record r {
  status = succeeded;
  response = some response;
  job_id = input.response_job_id response;
  error = none;
}
ended_record input (throw e) r = record r {
  status = failed;
  error = some (slice_to 1000 (message_of e));
}

unfoldable pub end_record : IdempotencyInput → RecordKey → Outcome Json → Records → Outcome Records
end_record input k result records =
    if_some (lookup k records) (throw (plain_error "Record to update not found."))
      (λ r. ok (put k (ended_record input result r) records))

abbrev pub is_unexpired : ℕ → RecordKey × Record → Bool
is_unexpired limit (k, r) = not (ltb r.expires_at limit)

unfoldable pub cleanup_expired_records : Option Number → ℕ → Records → Records
cleanup_expired_records older_than_hours now records =
    filterb
      (is_unexpired
        (now - clamp_hours (some (coalesce older_than_hours (Number.ratio 24 0))) * 60 * 60 * 1000))
      records
