-- ===== src/Batches/Transitions.antt =====
-- `transitionBatch`, `publishBatch` and `rejectBatch`.
use acadid.Common.{
  ℕ, suc, filterb, elem, String, some, List, [], ◌∷◌, ◌++◌, Bool, true, false, not, string_Eq,
  if_some, if◌then◌else◌,
}
use acadid.Common.Assoc.{lookup, put}
use acadid.Common.Outcome.{Outcome, ok, throw, bad_request, refuse, ◌>>=◌, ◌>>◌}
use acadid.Authority.{Auth, is_some_eq, assert_actor_can_operate_institution}
use acadid.Authority.Grants.{assert_institution_can}
use acadid.Requests.{human_actor}
use acadid.Batches.{
  RecordStatus, draft, submitted, reviewed, approved, published, Batch, AcademicRecord, Slip,
  Results,
}
use acadid.Batches.Standings.{recompute_academic_standing}

-- `BatchTransition`
pub data Transition : Type 0 where
  to_submitted to_reviewed to_approved : Transition

abbrev pub transition_action : Transition → String
transition_action to_submitted = "result_batch.submitted"
transition_action to_reviewed = "result_batch.reviewed"
transition_action to_approved = "result_batch.approved"

-- The row with `transitionData`.
abbrev pub transitioned : Transition → ℕ → Batch → Batch
transitioned to_submitted now b = record b { status = submitted; submitted_at = some now }
transitioned to_reviewed now b = record b { status = reviewed; reviewed_at = some now }
transitioned to_approved now b = record b { status = approved; approved_at = some now }

abbrev pub write_batch : Batch → Results → Results
write_batch b db = record db { batches = put b.uuid b db.batches }

unfoldable pub batch_audited : Auth → String → Batch → Results → Results
batch_audited auth action b db = record db {
  audit =
      db.audit
      ++ (record {
        actor_id = human_actor auth;
        action = action;
        target_id = b.uuid;
        institution_id = some b.institution_id;
      }
          ∷ []);
}

unfoldable pub existing_batch : Results → String → Outcome Batch
existing_batch db id =
    if_some (lookup id db.batches) (throw (bad_request "Result batch not found.")) ok

unfoldable pub transition_batch : Auth → String → Transition → ℕ → Results → Outcome Results
transition_batch auth id status now db = do
  b ← existing_batch db id
  assert_actor_can_operate_institution db.users auth b.institution_id
  ok (batch_audited auth (transition_action status) b (write_batch (transitioned status now b) db))

-- The reason stands in the audit event only, and no event of the model holds one.
unfoldable pub reject_batch : Auth → String → Results → Outcome Results
reject_batch auth id db = do
  b ← existing_batch db id
  assert_actor_can_operate_institution db.users auth b.institution_id
  ok (
      batch_audited auth "result_batch.reject" b
        (write_batch (record b { status = draft; rejection_count = suc b.rejection_count }) db))

abbrev pub is_approved : RecordStatus → Bool
is_approved approved = true
is_approved _ = false

abbrev pub of_batch : String → AcademicRecord → Bool
of_batch id r = is_some_eq r.result_batch_id id

-- `tx.academicRecord.updateMany` of the records of a batch
unfoldable pub publish_records : String → ℕ → List AcademicRecord → List AcademicRecord
publish_records id now [] = []
publish_records id now (r ∷ rs) =
    let rest = publish_records id now rs in
    (if of_batch id r then record r { status = published; published_at = some now } else r) ∷ rest

unfoldable pub slips_of : String → (ℕ → String) → ℕ → List AcademicRecord → List Slip
slips_of institution fresh i [] = []
slips_of institution fresh i (r ∷ rs) =
    record {
      credential_ref = fresh i;
      learner_id = r.learner_id;
      institution_id = institution;
      academic_record_id = r.uuid;
    }
    ∷ slips_of institution fresh (suc i) rs

-- `new Set` of the enrolments, in the order of their first record
unfoldable pub enrolment_ids : List String → List AcademicRecord → List String
enrolment_ids seen [] = []
enrolment_ids seen (r ∷ rs) =
    let rest = enrolment_ids (r.enrolment_id ∷ seen) rs in
    if elem r.enrolment_id seen then rest else r.enrolment_id ∷ rest

unfoldable pub recompute_all : ℕ → List String → Results → Results
recompute_all now [] db = db
recompute_all now (id ∷ ids) db = recompute_all now ids (recompute_academic_standing now id db)

abbrev pub published_batch : ℕ → Batch → Batch
published_batch now b = record b { status = published; published_at = some now }

-- The transaction of a publication.
unfoldable pub publish : String → ℕ → (ℕ → String) → Batch → Results → Results
publish id now fresh b db =
    let rows = filterb (of_batch id) db.records in
    recompute_all now (enrolment_ids [] rows) (record (write_batch (published_batch now b) db) {
      records = publish_records id now db.records;
      slips = db.slips ++ slips_of b.institution_id fresh 0 rows;
    })

-- `fresh` numbers the references of the slips.
unfoldable pub publish_batch : Auth → String → ℕ → (ℕ → String) → Results → Outcome Results
publish_batch auth id now fresh db = do
  b ← existing_batch db id
  granted ←
      assert_institution_can db.institutions db.users b.institution_id "publish_credentials"
        (some auth) now
  refuse (not (is_approved b.status)) (bad_request "Only approved batches can be published.")
  ok (batch_audited auth "result_batch.publish" b (publish id now fresh b db))
