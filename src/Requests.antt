-- ===== src/Requests.antt =====
-- Record requests: the rows of `RecordRequest`, what the handlers write beside them, and the world
-- that the handlers of apps/api/src/modules/gateway/governance/governance.service.ts share.
pub mod Guards
pub mod Review
pub mod Confirm
pub mod Refund
pub mod Fulfill
pub mod Paystack
pub mod Operations
pub mod Steps
pub mod Ledger
pub mod Changes
pub mod History
pub mod Settled
pub mod Replay
pub mod Reopened
use acadid.Common.{
  ℕ, String, Option, none, some, List, [], ◌∷◌, ◌++◌, true, false, string_Eq, if◌then◌else◌,
}
use acadid.Common.Assoc.{Assoc, put}
use acadid.Common.Outcome.{Outcome, ok, throw, forbidden}
use acadid.Authority.{
  Auth, Role, InstitutionUser, is_api_key, is_role, acadid_super_admin,
  assert_actor_can_operate_institution,
}

pub data Status : Type 0 where
  submitted awaiting_payment assigned institution_review needs_more_information approved rejected
        fulfilled disputed escalated cancelled :
      Status

pub data PaymentStatus : Type 0 where
  not_required pending paid waived refunded : PaymentStatus

pub data EscrowStatus : Type 0 where
  none_held held released refund_pending escrow_refunded : EscrowStatus

-- The entries of the JSON list `notes`: who recorded what, and what the kind of note adds.
pub data NoteStatus : Type 0 where
  of_status : Status → NoteStatus
  note_refunded note_refund_pending : NoteStatus

pub data NoteDetail : Type 0 where
  no_detail : NoteDetail
  payment_detail : (payment_reference : String) → NoteDetail
  refund_detail :
      (reason : String) → (amount_minor : ℕ) → (refund_reference : Option String) → NoteDetail
  credential_detail : (credential_ref : String) → NoteDetail
  webhook_detail : (payment_reference : String) → (job_id : String) → NoteDetail

pub record Note : Type 0 where
  pub at : ℕ
  pub by : String
  pub role : Option Role
  pub status : NoteStatus
  pub note : Option String
  pub detail : NoteDetail

-- Times are milliseconds. Relations that the handlers load (`learner`, `institution`,
-- `fulfilledCredential`) are there exactly when their foreign key is.
pub record RecordRequest : Type 0 where
  pub uuid : String
  pub request_id : String
  pub learner_id : Option String
  pub institution_id : Option String
  pub status : Status
  pub payment_status : PaymentStatus
  pub escrow_status : EscrowStatus
  pub payment_reference : Option String
  pub payment_provider : Option String
  pub amount_minor : Option ℕ
  pub currency : String
  pub payment_held_at : Option ℕ
  pub payment_released_at : Option ℕ
  pub refund_requested_at : Option ℕ
  pub assigned_to_id : Option String
  pub fulfilled_credential_id : Option String
  pub rejection_reason : Option String
  pub escalation_reason : Option String
  pub resolution_note : Option String
  pub notes : List Note
  pub assigned_at : Option ℕ
  pub fulfilled_at : Option ℕ
  pub rejected_at : Option ℕ
  pub escalated_at : Option ℕ

pub data EntryKind : Type 0 where
  release_entry refund_entry : EntryKind

-- `RevenueLedgerEntry`: a release (`sourceType` "RecordRequest") earns its amount; a refund
-- ("RecordRequestRefund") is recorded with the amount's negation, here its kind.
pub record LedgerEntry : Type 0 where
  pub kind : EntryKind
  pub source_id : String
  pub amount_minor : ℕ
  pub currency : String
  pub institution_id : Option String
  pub credential_id : Option String
  pub paid_at : ℕ

pub record Credential : Type 0 where
  pub uuid : String
  pub credential_ref : String
  pub learner_id : String
  pub institution_id : String
  pub record_request_id : String

pub record AuditEvent : Type 0 where
  pub actor_id : Option String
  pub action : String
  pub target_id : String
  pub institution_id : Option String

-- What the handlers read and write of the database.
pub record World : Type 0 where
  pub requests : Assoc String RecordRequest
  pub credentials : List Credential
  pub ledger : List LedgerEntry
  pub audit : List AuditEvent
  pub users : List InstitutionUser

-- `auth.kind === "API_KEY" ? undefined : auth.sub`
abbrev pub human_actor : Auth → Option String
human_actor auth = if is_api_key auth.kind then none else some auth.sub

-- `update({ where: { uuid } })`, followed by `audit.write`
unfoldable pub save : World → Option String → RecordRequest → String → World
save w actor_id row action =
    let event : AuditEvent = record {
      actor_id = actor_id;
      action = action;
      target_id = row.uuid;
      institution_id = row.institution_id;
    } in
    record w { requests = put row.uuid row w.requests; audit = w.audit ++ (event ∷ []) }

unfoldable pub assert_record_request_reviewer : World → Auth → RecordRequest → Outcome (Unit {0})
assert_record_request_reviewer w auth request = elim request.institution_id [
  | some institution ↦ assert_actor_can_operate_institution w.users auth institution
  | none ↦ elim (is_role auth.role acadid_super_admin) [
    | true ↦ ok tt
    | false ↦ throw (forbidden "Only founder operations can review unassigned record requests.")
  ]
]
