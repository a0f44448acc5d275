-- ===== src/Registers/Again.antt =====
-- A register that is sent in a second time creates nothing.
use acadid.Common.{
  ℕ, suc, ◌+◌, length, find, String, Option, none, some, List, [], ◌∷◌, All, Bool, true, ◌||◌, ◌==◌,
  string_Eq, ◌≡◌, refl, sym, ap, ◌∙◌, subst, inl, inr, Bool-cases, Option-cases, arith,
}
use acadid.Common.Assoc.{Assoc, lookup, put, remove}
use acadid.Common.Outcome.{ok, >>=-eq-ok, guarded-eq-ok, ok-injective}
use acadid.Authority.{Auth}
use acadid.Authority.Grants.{Institution, Grant, assert_institution_can}
use acadid.Requests.Guards.{is_some}
use acadid.Academics.{Enrolment, Register, create_enrolment}
use acadid.Academics.Left.{create_enrolment-eq-ok}
use acadid.Registers.Ingest.{
  Learner, StudentRow, RegisterInput, FreshStudent, Progress, is_enrolled_as, active_enrolment,
  is_same_person, created_learner, learner_for, new_enrolment, enrol, already_enrolled, ingest_row,
  ingest_rows, begin, entry_of, ingest_audited, ingest_students,
}

-- Whether a student number has an active enrolment at the institution.
abbrev has_active : String → String → Assoc String Enrolment → Bool
has_active institution number rows = is_some (active_enrolment institution number rows)

remove_absent :
    (k : String) (rows : Assoc String Enrolment) → lookup k rows ≡ none → remove k rows ≡ rows
unfolding lookup remove
remove_absent k [] h = refl
remove_absent k ((j, e) ∷ rows) h = elim (Bool-cases (j == k)) [
  | inl same ↦ cc (rw same at h)
  | inr other ↦ rw other (ap (λ l. (j, e) ∷ l) (remove_absent k rows (rw other at h)))
]

put_absent :
    (k : String) (e : Enrolment) (rows : Assoc String Enrolment)
    → lookup k rows ≡ none
    → put k e rows ≡ (k, e) ∷ rows
unfolding put
put_absent k e rows h = ap (λ l. (k, e) ∷ l) (remove_absent k rows h)

has_active-cons :
    (institution number k : String) (e : Enrolment) (rows : Assoc String Enrolment)
    → has_active institution number ((k, e) ∷ rows)
      ≡ (is_enrolled_as institution number e || has_active institution number rows)
unfolding active_enrolment
has_active-cons institution number k e rows =
    elim (Bool-cases (is_enrolled_as institution number e)) [
      | inl fits ↦ rw fits refl
      | inr other ↦ rw other refl
    ]

learner_for-register :
    (year : ℕ) (row : StudentRow) (id : String) (p : Progress) {l : Learner} {q : Progress}
    → learner_for year row id p ≡ ok (l, q)
    → q.register ≡ p.register
unfolding learner_for created_learner
learner_for-register year row id p {l} {q} h =
    elim (Option-cases (find (is_same_person row) p.learners)) [
      | inl absent ↦
          ap (λ x. x.1.register) (ok-injective ((guarded-eq-ok _ _ _ (rw absent at h)).1))
      | inr (m, found) ↦ ap (λ x. x.1.register) (ok-injective (rw found at h))
    ]

-- What a row leaves: those who had an active enrolment have one, and so has the student of the row.
record Enrols (institution number : String) (before after : Assoc String Enrolment) : Type 0 where
  keeps :
      (n : String) → has_active institution n before ≡ true → has_active institution n after ≡ true
  enrols : has_active institution number after ≡ true

or_right : (a b : Bool) → b ≡ true → (a || b) ≡ true
or_right a b h = ground arith

cons-Enrols :
    (institution number k : String) (e : Enrolment) (rows : Assoc String Enrolment)
    → is_enrolled_as institution number e ≡ true
    → Enrols institution number rows ((k, e) ∷ rows)
cons-Enrols institution number k e rows fits = record {
  keeps = λ n h.
      has_active-cons institution n k e rows
      ∙ or_right (is_enrolled_as institution n e) (has_active institution n rows) h;
  enrols = has_active-cons institution number k e rows ∙ rw fits refl;
}

new_enrolment-fits :
    (institution : String) (entry : ℕ) (row : StudentRow) (id : String) (l : Learner)
    → is_enrolled_as institution row.student_number (new_enrolment institution entry row id l)
      ≡ true
unfolding new_enrolment
new_enrolment-fits institution entry row id l =
    rw
      (
        (string_Eq.beq_iff institution institution).1 refl,
        (string_Eq.beq_iff row.student_number row.student_number).1 refl,
      )
      refl

enrol-Enrols :
    (institution : String) (entry year : ℕ) (row : StudentRow) (fresh : FreshStudent) (p : Progress)
    {after : Progress}
    → enrol institution entry year row fresh p ≡ ok after
    → Enrols institution row.student_number p.register.enrolments after.register.enrolments
unfolding enrol new_enrolment
enrol-Enrols institution entry year row fresh p {after} h =
    let ((l, q), who, a) = >>=-eq-ok (learner_for year row fresh.learner_id p) _ h in
    let (register, creates, last) =
      >>=-eq-ok
        (create_enrolment (new_enrolment institution entry row fresh.enrolment_id l) q.register) _
        a in
    let (absent, written) =
      create_enrolment-eq-ok (new_enrolment institution entry row fresh.enrolment_id l) q.register
        creates in
    let e = new_enrolment institution entry row fresh.enrolment_id l in
    let same = ap (λ x. x.enrolments) (learner_for-register year row fresh.learner_id p who) in
    let rows =
      ap (λ x. x.register.enrolments) (ok-injective last)
      ∙ ap (λ x. x.enrolments) written
      ∙ put_absent fresh.enrolment_id e q.register.enrolments absent
      ∙ ap (λ m. (fresh.enrolment_id, e) ∷ m) same in
    subst (Enrols institution row.student_number p.register.enrolments) (sym rows) (
      cons-Enrols institution row.student_number fresh.enrolment_id e p.register.enrolments
        (new_enrolment-fits institution entry row fresh.enrolment_id l))

ingest_row-Enrols :
    (institution : String) (entry year : ℕ) (row : StudentRow) (fresh : FreshStudent) (p : Progress)
    {after : Progress}
    → ingest_row institution entry year row fresh p ≡ ok after
    → Enrols institution row.student_number p.register.enrolments after.register.enrolments
unfolding ingest_row
ingest_row-Enrols institution entry year row fresh p h =
    elim (Option-cases (active_enrolment institution row.student_number p.register.enrolments)) [
      | inl absent ↦ enrol-Enrols institution entry year row fresh p (rw absent at h)
      | inr (e, found) ↦
          subst
            (λ q. Enrols institution row.student_number p.register.enrolments q.register.enrolments)
            (sym (ok-injective (rw found at h)))
            (record { keeps = λ n a. a; enrols = ap is_some found })
    ]

-- All rows have an active enrolment after the loop, and so has whoever had one.
ingest_rows-active :
    (institution : String) (entry year : ℕ) (fresh : ℕ → FreshStudent) (i : ℕ)
    (rows : List StudentRow) (p : Progress) {after : Progress}
    → ingest_rows institution entry year fresh i rows p ≡ ok after
    → ((n : String)
        → has_active institution n p.register.enrolments ≡ true
        → has_active institution n after.register.enrolments ≡ true)
      × All (λ row. has_active institution row.student_number after.register.enrolments ≡ true) rows
unfolding ingest_rows
ingest_rows-active institution entry year fresh i [] p h = (
  λ n a.
      subst (λ q. has_active institution n q.register.enrolments ≡ true) (sym (ok-injective h)) a,
  tt,
)
ingest_rows-active institution entry year fresh i (row ∷ rows) p h =
    let (q, one, all) = >>=-eq-ok (ingest_row institution entry year row (fresh i) p) _ h in
    let step = ingest_row-Enrols institution entry year row (fresh i) p one in
    let (keeps, others) = ingest_rows-active institution entry year fresh (suc i) rows q all in
    ((λ n a. keeps n (step.keeps n a)), (keeps row.student_number step.enrols, others))

-- What a pass over enrolled students does: it counts them.
record Counted (rows : List StudentRow) (p after : Progress) : Type 0 where
  same_register : after.register ≡ p.register
  same_learners : after.learners ≡ p.learners
  no_learners : after.created_learners ≡ p.created_learners
  no_enrolments : after.created_enrolments ≡ p.created_enrolments
  counted : after.existing_enrolments ≡ p.existing_enrolments + length rows

is_some-some : (o : Option Enrolment) → is_some o ≡ true → (e : Enrolment) × (o ≡ some e)
is_some-some none h = cc
is_some-some (some e) h = (e, refl)

ingest_rows-again :
    (institution : String) (entry year : ℕ) (fresh : ℕ → FreshStudent) (i : ℕ)
    (rows : List StudentRow) (p : Progress)
    → All (λ row. has_active institution row.student_number p.register.enrolments ≡ true) rows
    → (after : Progress) × (ingest_rows institution entry year fresh i rows p ≡ ok after)
      × Counted rows p after
unfolding ingest_rows ingest_row
ingest_rows-again institution entry year fresh i [] p h = (
  p,
  refl,
  record {
    same_register = refl;
    same_learners = refl;
    no_learners = refl;
    no_enrolments = refl;
    counted = omega arith;
  },
)
ingest_rows-again institution entry year fresh i (row ∷ rows) p (here, others) =
    let (e, found) =
      is_some-some (active_enrolment institution row.student_number p.register.enrolments) here in
    let (after, all, c) =
      ingest_rows-again institution entry year fresh (suc i) rows (already_enrolled row e p)
        others in
    (
      after,
      rw found all,
      record {
        same_register = c.same_register;
        same_learners = c.same_learners;
        no_learners = c.no_learners;
        no_enrolments = c.no_enrolments;
        counted = omega (arith, c.counted);
      },
    )

-- When a register of students is accepted and sent in again, by an actor for whom the institution
-- may still ingest students, it is accepted, no learner or enrolment is created, the tables of both
-- are as they were, and every row counts as enrolled already.
pub ingest_students-again :
    (auth : Auth) (input : RegisterInput) (now later : ℕ) (year_of : ℕ → ℕ)
    (fresh again : ℕ → FreshStudent) (g : Institution × Grant) (register : Register)
    (learners : List Learner) (p : Progress)
    → ingest_students auth (some input) now year_of fresh register learners ≡ ok p
    → assert_institution_can register.institutions register.users input.institution_id
        "ingest_students"
        (some auth)
        now
      ≡ ok g
    → assert_institution_can p.register.institutions p.register.users input.institution_id
        "ingest_students"
        (some auth)
        later
      ≡ ok g
    → (q : Progress) × (ingest_students auth (some input) later year_of again p.register p.learners
        ≡ ok q)
      × (q.learners ≡ p.learners)
      × (q.register.enrolments ≡ p.register.enrolments)
      × (q.created_learners ≡ 0)
      × (q.created_enrolments ≡ 0)
      × (q.existing_enrolments ≡ length input.rows)
unfolding ingest_students ingest_audited
ingest_students-again auth input now later year_of fresh again g register learners p h allowed
      still =
    let (first, rows, last) =
      >>=-eq-ok
        (ingest_rows g.0.uuid (entry_of now input) (year_of (entry_of now input)) fresh 0 input.rows
          (begin register learners))
        _ (rw allowed at h) in
    let (keeps, active_rows) =
      ingest_rows-active g.0.uuid (entry_of now input) (year_of (entry_of now input)) fresh 0
        input.rows (begin register learners) rows in
    let same = ap (λ x. x.register.enrolments) (ok-injective last) in
    let (second, all, c) =
      ingest_rows-again g.0.uuid (entry_of later input) (year_of (entry_of later input)) again 0
        input.rows (begin p.register p.learners)
        (subst (λ m. All (λ row. has_active g.0.uuid row.student_number m ≡ true) input.rows)
          (sym same) active_rows) in
    (
      ingest_audited auth g.0.uuid second,
      rw (still, all) refl,
      c.same_learners,
      ap (λ x. x.enrolments) c.same_register,
      c.no_learners,
      c.no_enrolments,
      omega (arith, c.counted),
    )
