-- ===== src/Academics/Twice.antt =====
-- What the unique key of the enrolments makes of a second decision of the same kind for a student.
use acadid.Common.{
  ℕ, String, some, List, [], ◌∷◌, true, false, ◌≡◌, ◌≢◌, refl, sym, ap, subst, inl, inr, ◌==◌,
  string_Eq, Bool-cases, arith, nat_eq_iff, some-eq-some,
}
use acadid.Common.Assoc.{Assoc, lookup}
use acadid.Common.Outcome.{ok, >>=-eq-ok, guarded-eq-ok}
use acadid.Authority.{Auth}
use acadid.Academics.{
  Decision, Enrolment, Register, status_code, clashes, is_occupied, write_enrolment,
}
use acadid.Academics.Rollover.{
  DecisionInput, RolloverInput, FreshRows, status_for_decision, ended, end_enrolment, confirm_one,
  confirm_all, confirm_rollover,
}
use acadid.Academics.Left.{IsClosed}
use acadid.Academics.Advance.{confirm_rollover-Confirmed}

is_occupied-lookup :
    (e row : Enrolment) (k : String) (rows : Assoc String Enrolment)
    → lookup k rows ≡ some row
    → (k == e.uuid) ≡ false
    → clashes row e ≡ true
    → is_occupied e rows ≡ true
unfolding lookup is_occupied
is_occupied-lookup e row k [] found other clash = cc
is_occupied-lookup e row k ((j, r) ∷ rows) found other clash = elim (Bool-cases (j == k)) [
  | inl same ↦
      (let same_row = some-eq-some (rw same at found) in
        ground (
          arith,
          subst (λ x. clashes x e ≡ true) (sym same_row) clash,
          subst (λ x. (x == e.uuid) ≡ false) (sym ((string_Eq.beq_iff j k).0 same)) other,
        ))
  | inr different ↦
      ground (arith, is_occupied-lookup e row k rows (rw different at found) other clash)
]

end_enrolment-clash :
    (d : Decision) (now : ℕ) (id k : String) (e row : Enrolment) (db : Register) {after : Register}
    → lookup id db.enrolments ≡ some e
    → lookup k db.enrolments ≡ some row
    → (k == e.uuid) ≡ false
    → clashes row (ended d now e) ≡ true
    → end_enrolment d now id db ≢ ok after
unfolding end_enrolment write_enrolment ended
end_enrolment-clash d now id k e row db found there other clash h =
    let (free, done) =
      guarded-eq-ok (is_occupied (ended d now e) db.enrolments) _ _ (rw found at h) in
    cc (is_occupied-lookup (ended d now e) row k db.enrolments there other clash, free)

clashes-same :
    (row e : Enrolment)
    → row.institution_id ≡ e.institution_id
    → row.student_number ≡ e.student_number
    → row.status ≡ e.status
    → clashes row e ≡ true
clashes-same row e a b c =
    rw
      (
        (string_Eq.beq_iff row.institution_id e.institution_id).1 a,
        (string_Eq.beq_iff row.student_number e.student_number).1 b,
        (nat_eq_iff (status_code row.status) (status_code e.status)).1 (ap status_code c),
      )
      refl

confirm_all-clash :
    (auth : Auth) (institution : String) (input : RolloverInput) (now : ℕ) (fresh : ℕ → FreshRows)
    (d : DecisionInput) (ds : List DecisionInput) (e row : Enrolment) (k : String) (db : Register)
    {after : Register}
    → IsClosed db
    → lookup d.enrolment_id db.enrolments ≡ some e
    → lookup k db.enrolments ≡ some row
    → (k == e.uuid) ≡ false
    → clashes row (ended d.decision now e) ≡ true
    → confirm_all auth institution input now db fresh 0 (d ∷ ds) db ≢ ok after
unfolding confirm_all confirm_one
confirm_all-clash auth institution input now fresh d ds e row k db c found there other clash h =
    let (next, one, all) =
      >>=-eq-ok (confirm_one auth institution input now (fresh 0) d e db) _ (rw found at h) in
    let (a, ends, rest) = >>=-eq-ok (end_enrolment d.decision now e.uuid db) _ one in
    let under =
      subst (λ i. lookup i db.enrolments ≡ some e) (sym (c.keyed d.enrolment_id e found)) found in
    end_enrolment-clash d.decision now e.uuid k e row db under there other clash ends

-- Where rows stand under their identifiers, a rollover is refused when its first decision gives its
-- enrolment a status that another enrolment of the same student number at the school already has.
pub confirm_rollover-clash :
    (auth : Auth) (input : RolloverInput) (now : ℕ) (fresh : ℕ → FreshRows) (d : DecisionInput)
    (ds : List DecisionInput) (e row : Enrolment) (k : String) (db : Register) {after : Register}
    → IsClosed db
    → input.decisions ≡ d ∷ ds
    → lookup d.enrolment_id db.enrolments ≡ some e
    → lookup k db.enrolments ≡ some row
    → (k == e.uuid) ≡ false
    → row.institution_id ≡ e.institution_id
    → row.student_number ≡ e.student_number
    → row.status ≡ status_for_decision d.decision
    → confirm_rollover auth (some input) now fresh db ≢ ok after
unfolding ended
confirm_rollover-clash auth input now fresh d ds e row k db c decided found there other at_same
      numbered settled h =
    let r = confirm_rollover-Confirmed auth input now fresh db h in
    let all =
      subst (λ xs. confirm_all auth r.institution.uuid input now db fresh 0 xs db ≡ ok r.written)
        decided r.confirms in
    confirm_all-clash auth r.institution.uuid input now fresh d ds e row k db c found there other
      (clashes-same row (ended d.decision now e) at_same numbered settled) all
