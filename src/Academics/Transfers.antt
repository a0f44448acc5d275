-- ===== src/Academics/Transfers.antt =====
-- `createTransferRequest` and `reviewTransferRequest` of
-- apps/api/src/modules/gateway/governance/governance.service.ts.
use acadid.Common.{
  ℕ, String, Option, none, some, coalesce, find, [], ◌∷◌, ◌++◌, Bool, true, false, not, ◌||◌, ◌==◌,
  string_Eq, if_some, if◌then◌else◌,
}
use acadid.Common.Assoc.{lookup, put}
use acadid.Common.Outcome.{Outcome, ok, throw, bad_request, plain_error, refuse, ◌>>=◌, ◌>>◌}
use acadid.Authority.{Auth, assert_actor_can_operate_institution}
use acadid.Authority.Grants.{Institution}
use acadid.Requests.Guards.{or_else, parsed_or}
use acadid.Academics.{
  transfer_out, approved_record, TransferStatus, requested, rejected, cancelled, completed,
  is_active, Enrolment, RolloverRecord, TransferNote, Transfer, Register, create_rollover, audited,
}
use acadid.Academics.Guards.{resolve_human_institution}
use acadid.Academics.Rollover.{end_enrolment}

pub record TransferInput : Type 0 where
  pub institution_id : String
  pub enrolment_id : String
  pub to_institution_id : Option String
  pub to_name : Option String
  pub to_email : Option String
  pub reason : Option String

-- The row's identifier, and that of `nextTransferRequestId`.
pub record FreshTransfer : Type 0 where
  pub uuid : String
  pub transfer_id : String

pub data ReviewDecision : Type 0 where
  approve reject cancel : ReviewDecision

pub record ReviewTransferInput : Type 0 where
  pub decision : ReviewDecision
  pub note : Option String

-- `!enrolment || enrolment.institutionId !== institution.uuid || enrolment.status !== "ACTIVE"`
abbrev pub is_unavailable : String → Enrolment → Bool
is_unavailable institution e = not (e.institution_id == institution) || not (is_active e.status)

unfoldable pub available_enrolment : String → String → Register → String → Outcome Enrolment
available_enrolment message institution db id =
    if_some (lookup id db.enrolments) (throw (bad_request message))
      (λ e. refuse (is_unavailable institution e) (bad_request message) >> ok e)

abbrev pub active_target : Option Institution → Outcome (Option Institution)
active_target none = throw (bad_request "Target institution must be active.")
active_target (some i) =
    if i.is_active then ok (some i) else throw (bad_request "Target institution must be active.")

abbrev pub target_institution : Register → Option String → Outcome (Option Institution)
target_institution db none = ok none
target_institution db (some id) = active_target (find (λ i. i.uuid == id) db.institutions)

abbrev pub is_institution : String → Option Institution → Bool
is_institution id none = false
is_institution id (some i) = i.uuid == id

abbrev pub uuid_of : Option Institution → Option String
uuid_of none = none
uuid_of (some i) = some i.uuid

abbrev pub official_name_of : Register → Option Institution → Option String
official_name_of db none = none
official_name_of db (some i) = lookup i.uuid db.official_names

unfoldable pub transfer_row :
    Auth
    → TransferInput
    → FreshTransfer
    → ℕ
    → Register
    → String
    → Option Institution
    → Enrolment
    → Transfer
transfer_row auth input fresh now db institution target e = record {
  uuid = fresh.uuid;
  transfer_id = fresh.transfer_id;
  learner_id = e.learner_id;
  from_institution_id = institution;
  to_institution_id = uuid_of target;
  from_enrolment_id = some e.uuid;
  from_session_id = e.academic_session_id;
  from_structure_id = e.structure_scope_id;
  to_name = or_else input.to_name (official_name_of db target);
  to_email = input.to_email;
  reason = input.reason;
  status = requested;
  requested_by_id = auth.institution_user_id;
  requested_at = now;
  reviewed_by_id = none;
  reviewed_at = none;
  rejected_at = none;
  cancelled_at = none;
  completed_at = none;
  rollover_record_id = none;
  dispute_id = none;
  notes =
      record {
        at = now;
        by = auth.sub;
        role = auth.role;
        status = "REQUESTED";
        note = some (coalesce input.reason "Transfer request opened.");
      }
      ∷ [];
}

abbrev pub write_transfer : Transfer → Register → Register
write_transfer t db = record db { transfers = put t.uuid t db.transfers }

unfoldable pub create_transfer : Transfer → Register → Outcome Register
create_transfer t db =
    if_some (lookup t.uuid db.transfers) (ok (write_transfer t db))
      (λ row. throw (plain_error "Unique constraint failed on uuid."))

unfoldable pub create_transfer_request :
    Auth → Option TransferInput → FreshTransfer → ℕ → Register → Outcome Register
create_transfer_request auth body fresh now db = do
  input ← parsed_or body
  institution ← resolve_human_institution db auth input.institution_id
  e ←
      available_enrolment "Active source enrolment not found for this institution." institution.uuid
        db input.enrolment_id
  target ← target_institution db input.to_institution_id
  refuse (is_institution institution.uuid target)
      (bad_request "Transfer target institution must be different from the source institution.")
  after ← create_transfer (transfer_row auth input fresh now db institution.uuid target e) db
  ok (audited auth "transfer_request.create" fresh.uuid institution.uuid after)

-- `["REJECTED", "CANCELLED", "COMPLETED"].includes(existing.status)`
abbrev pub is_closed_transfer : TransferStatus → Bool
is_closed_transfer rejected = true
is_closed_transfer cancelled = true
is_closed_transfer completed = true
is_closed_transfer _ = false

abbrev pub review_code : ReviewDecision → String
review_code approve = "APPROVE"
review_code reject = "REJECT"
review_code cancel = "CANCEL"

abbrev pub review_note : Auth → ReviewTransferInput → ℕ → TransferNote
review_note auth input now = record {
  at = now;
  by = auth.sub;
  role = auth.role;
  status = review_code input.decision;
  note = input.note;
}

unfoldable pub rejected_transfer : Auth → ReviewTransferInput → ℕ → Transfer → Transfer
rejected_transfer auth input now t = record t {
  status = rejected;
  notes = t.notes ++ (review_note auth input now ∷ []);
  reviewed_by_id = auth.institution_user_id;
  reviewed_at = some now;
  rejected_at = some now;
}

unfoldable pub cancelled_transfer : Auth → ReviewTransferInput → ℕ → Transfer → Transfer
cancelled_transfer auth input now t = record t {
  status = cancelled;
  notes = t.notes ++ (review_note auth input now ∷ []);
  reviewed_by_id = auth.institution_user_id;
  reviewed_at = some now;
  cancelled_at = some now;
}

unfoldable pub completed_transfer : Auth → ReviewTransferInput → ℕ → String → Transfer → Transfer
completed_transfer auth input now rollover t = record t {
  status = completed;
  rollover_record_id = some rollover;
  reviewed_by_id = auth.institution_user_id;
  reviewed_at = some now;
  completed_at = some now;
  notes = t.notes ++ (review_note auth input now ∷ []);
}

-- `existing.fromSessionId ?? enrolment.academicSessionId!`: the column is required.
abbrev pub session_of : Transfer → Enrolment → Outcome String
session_of t e =
    if_some (or_else t.from_session_id e.academic_session_id)
      (throw (plain_error "Argument fromSessionId is missing.")) ok

unfoldable pub transfer_rollover :
    Auth → ReviewTransferInput → ℕ → String → Transfer → Enrolment → String → RolloverRecord
transfer_rollover auth input now id t e session = record {
  uuid = id;
  institution_id = t.from_institution_id;
  learner_id = t.learner_id;
  enrolment_id = some e.uuid;
  from_session_id = session;
  to_session_id = none;
  from_structure_id = or_else t.from_structure_id e.structure_scope_id;
  to_structure_id = none;
  decision = transfer_out;
  status = approved_record;
  reason = or_else input.note t.reason;
  created_by_id = or_else t.requested_by_id auth.institution_user_id;
  approved_by_id = auth.institution_user_id;
  approved_at = some now;
  dispute_id = none;
  disputed_at = none;
  resolution_note = none;
}

abbrev pub source_enrolment : Register → Transfer → Outcome Enrolment
source_enrolment db t =
    if_some t.from_enrolment_id
      (throw (bad_request "Active source enrolment is no longer available for transfer."))
      (available_enrolment "Active source enrolment is no longer available for transfer."
        t.from_institution_id db)

-- The transaction of an approval.
unfoldable pub complete_transfer :
    Auth → ReviewTransferInput → String → ℕ → Transfer → Register → Outcome Register
complete_transfer auth input fresh now t db = do
  e ← source_enrolment db t
  db ← end_enrolment transfer_out now e.uuid db
  session ← session_of t e
  db ← create_rollover (transfer_rollover auth input now fresh t e session) db
  ok (write_transfer (completed_transfer auth input now fresh t) db)

abbrev pub reviewed_transfer :
    Auth
    → ReviewTransferInput
    → String
    → ℕ
    → Transfer
    → ReviewDecision
    → Register
    → Outcome Register
reviewed_transfer auth input fresh now t reject db = ok (
    audited auth "transfer_request.reject" t.uuid t.from_institution_id
      (write_transfer (rejected_transfer auth input now t) db))
reviewed_transfer auth input fresh now t cancel db = ok (
    audited auth "transfer_request.cancel" t.uuid t.from_institution_id
      (write_transfer (cancelled_transfer auth input now t) db))
reviewed_transfer auth input fresh now t approve db = do
  after ← complete_transfer auth input fresh now t db
  ok (audited auth "transfer_request.complete" t.uuid t.from_institution_id after)

unfoldable pub existing_transfer : Register → String → Outcome Transfer
existing_transfer db id =
    if_some (lookup id db.transfers) (throw (bad_request "Transfer request not found.")) ok

-- `fresh` is the identifier of the rollover record.
unfoldable pub review_transfer_request :
    Auth → String → Option ReviewTransferInput → String → ℕ → Register → Outcome Register
review_transfer_request auth id body fresh now db = do
  input ← parsed_or body
  existing ← existing_transfer db id
  assert_actor_can_operate_institution db.users auth existing.from_institution_id
  refuse (is_closed_transfer existing.status)
      (bad_request "Closed transfer requests cannot be reviewed again.")
  reviewed_transfer auth input fresh now existing input.decision db
