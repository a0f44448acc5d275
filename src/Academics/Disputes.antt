-- ===== src/Academics/Disputes.antt =====
-- `createRolloverDispute` and `resolveRolloverDispute` of
-- apps/api/src/modules/gateway/governance/governance.service.ts.
use acadid.Common.{
  ℕ, String, Option, none, some, coalesce, [], ◌∷◌, ◌++◌, string_Eq, if_some, if◌then◌else◌,
}
use acadid.Common.Assoc.{Assoc, lookup, put}
use acadid.Common.Outcome.{Outcome, ok, throw, bad_request, plain_error, refuse, ◌>>=◌, ◌>>◌}
use acadid.Authority.{Auth, is_some_eq, assert_actor_can_operate_institution}
use acadid.Requests.Guards.{is_some, parsed_or}
use acadid.Academics.{
  Decision, promote, repeat, transfer_out, withdraw, graduate, suspend, seal, TransferStatus,
  completed, disputed, dispute_open, dispute_resolved, RolloverRecord, TransferNote, Transfer,
  Dispute, Priority, Register, audited,
}
use acadid.Academics.Transfers.{write_transfer}

pub record DisputeInput : Type 0 where
  pub title : Option String
  pub reason : String
  pub priority : Priority
  pub reporter_name : Option String
  pub reporter_email : Option String

abbrev pub default_title : Decision → String
default_title promote = "Rollover dispute: PROMOTED"
default_title repeat = "Rollover dispute: REPEATED"
default_title transfer_out = "Rollover dispute: TRANSFERRED_OUT"
default_title withdraw = "Rollover dispute: WITHDRAWN"
default_title graduate = "Rollover dispute: GRADUATED"
default_title suspend = "Rollover dispute: SUSPENDED"
default_title seal = "Rollover dispute: SEALED"

-- `rollover.transferRequest`: the column `rolloverRecordId` is unique.
unfoldable pub transfer_of : String → Assoc String Transfer → Option Transfer
transfer_of rollover [] = none
transfer_of rollover ((k, t) ∷ ts) =
    let rest = transfer_of rollover ts in
    if is_some_eq t.rollover_record_id rollover then some t else rest

unfoldable pub existing_rollover : Register → String → Outcome RolloverRecord
existing_rollover db id =
    if_some (lookup id db.rollovers) (throw (bad_request "Rollover record not found.")) ok

abbrev pub timeline_note : Auth → ℕ → String → String → TransferNote
timeline_note auth now status note = record {
  at = now;
  by = auth.sub;
  role = auth.role;
  status = status;
  note = some note;
}

unfoldable pub disputed_transfer : Auth → DisputeInput → ℕ → String → Transfer → Transfer
disputed_transfer auth input now dispute t = record t {
  status = disputed;
  dispute_id = some dispute;
  notes = t.notes ++ (timeline_note auth now "DISPUTED" input.reason ∷ []);
}

abbrev pub settled_status : TransferStatus → TransferStatus
settled_status disputed = completed
settled_status status = status

unfoldable pub resolved_transfer : Auth → String → ℕ → Transfer → Transfer
resolved_transfer auth note now t = record t {
  status = settled_status t.status;
  notes = t.notes ++ (timeline_note auth now "RESOLVED" note ∷ []);
}

abbrev pub write_rollover : RolloverRecord → Register → Register
write_rollover r db = record db { rollovers = put r.uuid r db.rollovers }

unfoldable pub disputed_rollover : ℕ → String → RolloverRecord → RolloverRecord
disputed_rollover now dispute r = record r { dispute_id = some dispute; disputed_at = some now }

unfoldable pub resolved_rollover : String → RolloverRecord → RolloverRecord
resolved_rollover note r = record r { resolution_note = some note }

unfoldable pub dispute_row : DisputeInput → String → RolloverRecord → Dispute
dispute_row input fresh r = record {
  uuid = fresh;
  title = coalesce input.title (default_title r.decision);
  description = input.reason;
  category = "ROLLOVER";
  priority = input.priority;
  status = dispute_open;
  institution_id = some r.institution_id;
  learner_id = some r.learner_id;
  reporter_name = input.reporter_name;
  reporter_email = input.reporter_email;
  resolved_at = none;
  resolution_note = none;
}

unfoldable pub create_dispute : Dispute → Register → Outcome Register
create_dispute d db =
    if_some (lookup d.uuid db.disputes) (ok (record db { disputes = put d.uuid d db.disputes }))
      (λ row. throw (plain_error "Unique constraint failed on uuid."))

unfoldable pub with_transfer : Option Transfer → (Transfer → Transfer) → Register → Register
with_transfer none f db = db
with_transfer (some t) f db = write_transfer (f t) db

-- `fresh` is the identifier of the dispute.
unfoldable pub create_rollover_dispute :
    Auth → String → Option DisputeInput → String → ℕ → Register → Outcome Register
create_rollover_dispute auth id body fresh now db = do
  input ← parsed_or body
  r ← existing_rollover db id
  assert_actor_can_operate_institution db.users auth r.institution_id
  refuse (is_some r.dispute_id) (bad_request "Rollover record already has an open dispute link.")
  after ← create_dispute (dispute_row input fresh r) db
  ok (
      audited auth "rollover.dispute.create" r.uuid r.institution_id (
        with_transfer (transfer_of r.uuid db.transfers) (disputed_transfer auth input now fresh)
          (write_rollover (disputed_rollover now fresh r) after)))

abbrev pub dispute_of : Register → Option String → Outcome Dispute
dispute_of db none = throw (bad_request "Rollover record does not have a dispute to resolve.")
dispute_of db (some id) =
    if_some (lookup id db.disputes)
      (throw (bad_request "Rollover record does not have a dispute to resolve.")) ok

unfoldable pub resolved_dispute : String → ℕ → Dispute → Dispute
resolved_dispute note now d = record d {
  status = dispute_resolved;
  resolved_at = some now;
  resolution_note = some note;
}

-- `body` is the resolution note.
unfoldable pub resolve_rollover_dispute :
    Auth → String → Option String → ℕ → Register → Outcome Register
resolve_rollover_dispute auth id body now db = do
  note ← parsed_or body
  r ← existing_rollover db id
  assert_actor_can_operate_institution db.users auth r.institution_id
  d ← dispute_of db r.dispute_id
  ok (
      audited auth "rollover.dispute.resolve" r.uuid r.institution_id (
        with_transfer (transfer_of r.uuid db.transfers) (resolved_transfer auth note now) (
          write_rollover (resolved_rollover note r)
            (record db { disputes = put d.uuid (resolved_dispute note now d) db.disputes }))))
