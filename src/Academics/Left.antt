-- ===== src/Academics/Left.antt =====
-- Which enrolments have ended, and what each write of a rollover or a transfer does to that.
use acadid.Common.{
  ℕ, String, none, some, Bool, true, false, not, ◌≡◌, refl, sym, ap, ◌∙◌, subst, inl, inr, ◌==◌,
  string_Eq, if_some, Bool-cases, some-eq-some,
}
use acadid.Common.Assoc.{lookup, put, lookup-put, lookup-put_cases}
use acadid.Common.Outcome.{
  ok, guarded-eq-ok, absent-eq-ok, bad_request, present-eq-ok, ok-injective,
}
use acadid.Academics.{
  Decision, promote, repeat, transfer_out, withdraw, graduate, suspend, seal, is_active, Enrolment,
  RolloverRecord, Register, write_enrolment, create_enrolment, create_rollover,
}
use acadid.Academics.Rollover.{status_for_decision, ended, end_enrolment}

-- The enrolment is there and is no longer active.
unfoldable pub has_left : String → Register → Bool
has_left id db = if_some (lookup id db.enrolments) false (λ e. not (is_active e.status))

-- Each row stands under its identifier, and every rollover record that names an enrolment names one
-- that has ended.
pub record IsClosed (db : Register) : Type 0 where
  pub keyed : (k : String) (e : Enrolment) → lookup k db.enrolments ≡ some e → e.uuid ≡ k
  pub closed :
      (k id : String) (r : RolloverRecord)
      → lookup k db.rollovers ≡ some r
      → r.enrolment_id ≡ some id
      → has_left id db ≡ true

-- No ended enrolment comes back, and the rows stay closed.
pub record Advances (db after : Register) : Type 0 where
  pub keeps : (id : String) → has_left id db ≡ true → has_left id after ≡ true
  pub sound : IsClosed db → IsClosed after

pub Advances-refl : (db : Register) → Advances db db
Advances-refl db = record { keeps = λ id h. h; sound = λ h. h }

pub Advances-trans : {a b c : Register} → Advances a b → Advances b c → Advances a c
Advances-trans f g = record {
  keeps = λ id h. g.keeps id (f.keeps id h);
  sound = λ h. g.sound (f.sound h);
}

pub has_left-same :
    (id : String) (db after : Register)
    → after.enrolments ≡ db.enrolments
    → has_left id after ≡ has_left id db
unfolding has_left
has_left-same id db after es = rw es

-- A change of the other tables, and a rollover record of an ended enrolment.
pub Advances-elsewhere :
    {db after : Register}
    → after.enrolments ≡ db.enrolments
    → after.rollovers ≡ db.rollovers
    → Advances db after
Advances-elsewhere {db} {after} es rs = record {
  keeps = λ id h. has_left-same id db after es ∙ h;
  sound = λ h. record {
    keyed = λ k e found. h.keyed k e (rw es at found);
    closed =
        λ k id r found named. has_left-same id db after es ∙ h.closed k id r (rw rs at found) named;
  };
}

-- What the writes leave when they are not refused.
pub write_enrolment-eq-ok :
    (e : Enrolment) (db : Register) {after : Register}
    → write_enrolment e db ≡ ok after
    → after ≡ record db { enrolments = put e.uuid e db.enrolments }
unfolding write_enrolment
write_enrolment-eq-ok e db h = ok-injective ((guarded-eq-ok _ _ _ h).1)

pub create_enrolment-eq-ok :
    (e : Enrolment) (db : Register) {after : Register}
    → create_enrolment e db ≡ ok after
    → (lookup e.uuid db.enrolments ≡ none)
      × (after ≡ record db { enrolments = put e.uuid e db.enrolments })
unfolding create_enrolment
create_enrolment-eq-ok e db h =
    let (absent, written) = absent-eq-ok _ _ _ h in (absent, write_enrolment-eq-ok e db written)

pub create_rollover-eq-ok :
    (r : RolloverRecord) (db : Register) {after : Register}
    → create_rollover r db ≡ ok after
    → after ≡ record db { rollovers = put r.uuid r db.rollovers }
unfolding create_rollover
create_rollover-eq-ok r db h = ok-injective ((absent-eq-ok _ _ _ h).1)

has_left-put_ended :
    (id : String) (e : Enrolment) (db : Register)
    → is_active e.status ≡ false
    → has_left id db ≡ true
    → has_left id (record db { enrolments = put e.uuid e db.enrolments }) ≡ true
unfolding has_left
has_left-put_ended id e db ended h = elim (Bool-cases (e.uuid == id)) [
  | inl same ↦ rw (lookup-put e.uuid id e db.enrolments, same, ended)
  | inr other ↦ rw (lookup-put e.uuid id e db.enrolments, other, h)
]

has_left-put_new :
    (id : String) (e : Enrolment) (db : Register)
    → lookup e.uuid db.enrolments ≡ none
    → has_left id db ≡ true
    → has_left id (record db { enrolments = put e.uuid e db.enrolments }) ≡ true
unfolding has_left
has_left-put_new id e db absent h = elim (Bool-cases (e.uuid == id)) [
  | inl same ↦
      let gone =
        subst (λ i. lookup i db.enrolments ≡ none) ((string_Eq.beq_iff e.uuid id).0 same) absent in
      cc (rw gone at h)
  | inr other ↦ rw (lookup-put e.uuid id e db.enrolments, other, h)
]

keyed-put :
    (e : Enrolment) (db : Register)
    → IsClosed db
    → (k : String) (row : Enrolment) → lookup k (put e.uuid e db.enrolments) ≡ some row
    → row.uuid ≡ k
keyed-put e db h k row found = elim (lookup-put_cases e.uuid k e db.enrolments found) [
  | inl (same, new) ↦ cc
  | inr (other, old) ↦ h.keyed k row old
]

pub status_for_decision-inactive : (d : Decision) → is_active (status_for_decision d) ≡ false
status_for_decision-inactive promote = refl
status_for_decision-inactive repeat = refl
status_for_decision-inactive transfer_out = refl
status_for_decision-inactive withdraw = refl
status_for_decision-inactive graduate = refl
status_for_decision-inactive suspend = refl
status_for_decision-inactive seal = refl

has_left-put_self :
    (id : String) (e : Enrolment) (db : Register)
    → e.uuid ≡ id
    → is_active e.status ≡ false
    → has_left id (record db { enrolments = put e.uuid e db.enrolments }) ≡ true
unfolding has_left
has_left-put_self id e db same over =
    rw (lookup-put e.uuid id e db.enrolments, (string_Eq.beq_iff e.uuid id).1 same, over)

put_ended-Advances :
    (e : Enrolment) (db : Register)
    → is_active e.status ≡ false
    → Advances db (record db { enrolments = put e.uuid e db.enrolments })
put_ended-Advances e db over = record {
  keeps = λ id h. has_left-put_ended id e db over h;
  sound = λ h. record {
    keyed = keyed-put e db h;
    closed = λ k id r found named. has_left-put_ended id e db over (h.closed k id r found named);
  };
}

pub put_new-Advances :
    (e : Enrolment) (db : Register)
    → lookup e.uuid db.enrolments ≡ none
    → Advances db (record db { enrolments = put e.uuid e db.enrolments })
put_new-Advances e db absent = record {
  keeps = λ id h. has_left-put_new id e db absent h;
  sound = λ h. record {
    keyed = keyed-put e db h;
    closed = λ k id r found named. has_left-put_new id e db absent (h.closed k id r found named);
  };
}

-- What `end_enrolment` finds and writes.
pub end_enrolment-eq-ok :
    (d : Decision) (now : ℕ) (id : String) (db : Register) {after : Register}
    → end_enrolment d now id db ≡ ok after
    → (row : Enrolment) × (lookup id db.enrolments ≡ some row)
      × (after ≡ record db { enrolments = put row.uuid (ended d now row) db.enrolments })
unfolding end_enrolment ended
end_enrolment-eq-ok d now id db {after} h =
    let (row, found, written) =
      present-eq-ok (lookup id db.enrolments) (bad_request "Record to update not found.")
        (λ row. write_enrolment (ended d now row) db) h in
    (row, found, write_enrolment-eq-ok (ended d now row) db written)

pub end_enrolment-Advances :
    (d : Decision) (now : ℕ) (id : String) (db : Register) {after : Register}
    → end_enrolment d now id db ≡ ok after
    → Advances db after
unfolding ended
end_enrolment-Advances d now id db {after} h =
    let (row, found, written) = end_enrolment-eq-ok d now id db h in
    subst (Advances db) (sym written)
      (put_ended-Advances (ended d now row) db (status_for_decision-inactive d))

pub end_enrolment-has_left :
    (d : Decision) (now : ℕ) (id : String) (db : Register) {after : Register}
    → IsClosed db
    → end_enrolment d now id db ≡ ok after
    → has_left id after ≡ true
unfolding ended
end_enrolment-has_left d now id db {after} sound h =
    let (row, found, written) = end_enrolment-eq-ok d now id db h in
    subst (λ db. has_left id db ≡ true) (sym written)
      (has_left-put_self id (ended d now row) db (sound.keyed id row found)
        (status_for_decision-inactive d))

pub create_enrolment-Advances :
    (e : Enrolment) (db : Register) {after : Register}
    → create_enrolment e db ≡ ok after
    → Advances db after
create_enrolment-Advances e db h =
    let (absent, written) = create_enrolment-eq-ok e db h in
    subst (Advances db) (sym written) (put_new-Advances e db absent)

put_rollover-closed :
    (id : String) (r : RolloverRecord) (db : Register)
    → r.enrolment_id ≡ some id
    → has_left id db ≡ true
    → IsClosed db
    → (k j : String) (row : RolloverRecord) → lookup k (put r.uuid r db.rollovers) ≡ some row
    → row.enrolment_id ≡ some j
    → has_left j db ≡ true
put_rollover-closed id r db names left h k j row found named =
    elim (lookup-put_cases r.uuid k r db.rollovers found) [
      | inl (same, new) ↦
          subst (λ i. has_left i db ≡ true)
            (some-eq-some (sym names ∙ ap (λ x. x.enrolment_id) (sym new) ∙ named)) left
      | inr (other, old) ↦ h.closed k j row old named
    ]

pub put_rollover-Advances :
    (id : String) (r : RolloverRecord) (db : Register)
    → r.enrolment_id ≡ some id
    → has_left id db ≡ true
    → Advances db (record db { rollovers = put r.uuid r db.rollovers })
unfolding has_left
put_rollover-Advances id r db names left = record {
  keeps = λ i h. h;
  sound = λ h. record { keyed = h.keyed; closed = put_rollover-closed id r db names left h };
}

-- A record of an enrolment that has ended.
pub create_rollover-Advances :
    (id : String) (r : RolloverRecord) (db : Register) {after : Register}
    → r.enrolment_id ≡ some id
    → has_left id db ≡ true
    → create_rollover r db ≡ ok after
    → Advances db after
create_rollover-Advances id r db names left h =
    subst (Advances db) (sym (create_rollover-eq-ok r db h))
      (put_rollover-Advances id r db names left)
