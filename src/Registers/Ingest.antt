-- ===== src/Registers/Ingest.antt =====
-- `ingestStudents` of apps/api/src/modules/gateway/ingestion/ingestion.service.ts and `formatAin` of
-- packages/shared/src/identifiers.ts. The year of a time is a parameter, as JavaScript's
-- `getUTCFullYear` gives it.
use Prim.Native.String.{char_at}
use acadid.Common.{
  ℕ, suc, zero, ◌+◌, ◌-◌, ◌/◌, ◌%◌, length, ltb, nat_eq, find, coalesce, String, Option, none, some,
  List, [], ◌∷◌, ◌++◌, Bool, true, false, ◌&&◌, ◌||◌, ◌==◌, string_Eq, if_some, if◌then◌else◌,
}
use acadid.Common.Assoc.{Assoc}
use acadid.Common.Text.{trim, to_upper, length_of}
use acadid.Common.Outcome.{Outcome, ok, plain_error, refuse, ◌>>=◌, ◌>>◌}
use acadid.Authority.{Auth}
use acadid.Authority.Grants.{assert_institution_can}
use acadid.Requests.{human_actor}
use acadid.Requests.Guards.{parsed_or}
use acadid.Uploads.Csv.{text_append}
use acadid.Academics.{is_active, active, Enrolment, Register, create_enrolment}

pub record Learner : Type 0 where
  pub uuid : String
  pub ain : String
  pub full_name : String
  pub date_of_birth : ℕ
  pub phone : Option String

-- Dates are the times that `new Date` makes of them.
pub record StudentRow : Type 0 where
  pub full_name : String
  pub date_of_birth : ℕ
  pub student_number : String
  pub level : String
  pub programme : String
  pub phone : Option String

pub record RegisterInput : Type 0 where
  pub institution_id : String
  pub entry_date : Option ℕ
  pub rows : List StudentRow

-- The identifiers of the rows that one student's row creates.
pub record FreshStudent : Type 0 where
  pub learner_id : String
  pub enrolment_id : String

pub record Report : Type 0 where
  pub student_number : String
  pub ain : Option String
  pub is_new : Bool

-- The variables of the loop, with the tables that it writes.
pub record Progress : Type 0 where
  pub register : Register
  pub learners : List Learner
  pub sequence : ℕ
  pub created_learners : ℕ
  pub linked_learners : ℕ
  pub created_enrolments : ℕ
  pub existing_enrolments : ℕ
  pub reports : List Report

-- `n.toString()`, with fuel for its digits
unfoldable pub digits : ℕ → ℕ → String → String
digits zero n rest = rest
digits (suc fuel) n rest = elim (ltb n 10) [
  | true ↦ String.◌∷◌ (char_at "0123456789" (n % 10)) rest
  | false ↦ digits fuel (n / 10) (String.◌∷◌ (char_at "0123456789" (n % 10)) rest)
]

abbrev pub number_text : ℕ → String
number_text n = digits (suc n) n String.[]

unfoldable pub zeros : ℕ → String → String
zeros zero s = s
zeros (suc n) s = String.◌∷◌ (char_at "0" 0) (zeros n s)

-- `s.padStart(width, "0")`
abbrev pub pad_start : ℕ → String → String
pad_start width s = zeros (width - length_of s) s

unfoldable pub format_ain : String → ℕ → ℕ → String
unfolding digits zeros text_append length_of trim to_upper
format_ain country year sequence = text_append "AIN-" (
    text_append (to_upper (trim country)) (
      text_append "-"
        (text_append (number_text year) (text_append "-" (pad_start 7 (number_text sequence))))))

abbrev pub is_enrolled_as : String → String → Enrolment → Bool
is_enrolled_as institution number e =
    (e.institution_id == institution) && ((e.student_number == number) && is_active e.status)

-- `tx.enrolment.findFirst` of an active enrolment
unfoldable pub active_enrolment : String → String → Assoc String Enrolment → Option Enrolment
active_enrolment institution number [] = none
active_enrolment institution number ((k, e) ∷ rows) =
    let rest = active_enrolment institution number rows in
    if is_enrolled_as institution number e then some e else rest

abbrev pub is_same_person : StudentRow → Learner → Bool
is_same_person row l = (l.full_name == row.full_name) && nat_eq l.date_of_birth row.date_of_birth

abbrev pub has_ain : String → List Learner → Bool
has_ain ain [] = false
has_ain ain (l ∷ ls) = (l.ain == ain) || has_ain ain ls

abbrev pub ain_of : String → List Learner → Option String
ain_of id [] = none
ain_of id (l ∷ ls) = let rest = ain_of id ls in if l.uuid == id then some l.ain else rest

unfoldable pub new_learner : StudentRow → String → ℕ → ℕ → Learner
unfolding format_ain
new_learner row id year sequence = record {
  uuid = id;
  ain = format_ain "NG" year sequence;
  full_name = row.full_name;
  date_of_birth = row.date_of_birth;
  phone = row.phone;
}

-- A learner who is not there is created, under the next number; `ain` is unique.
unfoldable pub created_learner : ℕ → StudentRow → String → Progress → Outcome (Learner × Progress)
unfolding new_learner
created_learner year row id p =
    let l = new_learner row id year (p.sequence + 1) in
    refuse (has_ain l.ain p.learners) (plain_error "Unique constraint failed on ain.")
    >> ok (
      l,
      record p {
        learners = p.learners ++ (l ∷ []);
        sequence = p.sequence + 1;
        created_learners = p.created_learners + 1;
      },
    )

unfoldable pub learner_for : ℕ → StudentRow → String → Progress → Outcome (Learner × Progress)
unfolding created_learner
learner_for year row id p =
    if_some (find (is_same_person row) p.learners) (created_learner year row id p)
      (λ l. ok (l, record p { linked_learners = p.linked_learners + 1 }))

unfoldable pub new_enrolment : String → ℕ → StudentRow → String → Learner → Enrolment
new_enrolment institution entry_date row id l = record {
  uuid = id;
  learner_id = l.uuid;
  institution_id = institution;
  academic_session_id = none;
  structure_scope_id = none;
  student_number = row.student_number;
  level = row.level;
  programme = row.programme;
  entry_date = entry_date;
  exit_date = none;
  exit_type = none;
  status = active;
}

unfoldable pub enrol : String → ℕ → ℕ → StudentRow → FreshStudent → Progress → Outcome Progress
unfolding learner_for new_enrolment
enrol institution entry_date year row fresh p = do
  (l, p) ← learner_for year row fresh.learner_id p
  register ←
      create_enrolment (new_enrolment institution entry_date row fresh.enrolment_id l) p.register
  ok (record p {
    register = register;
    created_enrolments = p.created_enrolments + 1;
    reports =
        p.reports
        ++ (record { student_number = row.student_number; ain = some l.ain; is_new = true } ∷ []);
  })

abbrev pub already_enrolled : StudentRow → Enrolment → Progress → Progress
already_enrolled row e p = record p {
  existing_enrolments = p.existing_enrolments + 1;
  reports =
      p.reports
      ++ (record {
        student_number = row.student_number;
        ain = ain_of e.learner_id p.learners;
        is_new = false;
      }
          ∷ []);
}

unfoldable pub ingest_row : String → ℕ → ℕ → StudentRow → FreshStudent → Progress → Outcome Progress
unfolding enrol
ingest_row institution entry_date year row fresh p =
    if_some (active_enrolment institution row.student_number p.register.enrolments)
      (enrol institution entry_date year row fresh p) (λ e. ok (already_enrolled row e p))

unfoldable pub ingest_rows :
    String → ℕ → ℕ → (ℕ → FreshStudent) → ℕ → List StudentRow → Progress → Outcome Progress
unfolding ingest_row
ingest_rows institution entry_date year fresh i [] p = ok p
ingest_rows institution entry_date year fresh i (row ∷ rows) p = do
  p ← ingest_row institution entry_date year row (fresh i) p
  ingest_rows institution entry_date year fresh (suc i) rows p

abbrev pub begin : Register → List Learner → Progress
begin register learners = record {
  register = register;
  learners = learners;
  sequence = length learners;
  created_learners = 0;
  linked_learners = 0;
  created_enrolments = 0;
  existing_enrolments = 0;
  reports = [];
}

unfoldable pub ingest_audited : Auth → String → Progress → Progress
ingest_audited auth institution p = record p {
  register = record p.register {
    audit =
        p.register.audit
        ++ (record {
          actor_id = human_actor auth;
          action = "ingest.students";
          target_id = institution;
          institution_id = some institution;
        }
            ∷ []);
  };
}

-- The date of the input, or the day that the clock shows.
abbrev pub entry_of : ℕ → RegisterInput → ℕ
entry_of now input = coalesce input.entry_date (now - now % 86400000)

unfoldable pub ingest_students :
    Auth
    → Option RegisterInput
    → ℕ
    → (ℕ → ℕ)
    → (ℕ → FreshStudent)
    → Register
    → List Learner
    → Outcome Progress
ingest_students auth body now year_of fresh register learners = do
  input ← parsed_or body
  granted ←
      assert_institution_can register.institutions register.users input.institution_id
        "ingest_students" (some auth) now
  p ←
      ingest_rows granted.0.uuid (entry_of now input) (year_of (entry_of now input)) fresh 0
        input.rows (begin register learners)
  ok (ingest_audited auth granted.0.uuid p)
