-- ===== src/Batches/Publication.antt =====
-- What a publication issues and writes.
use acadid.Common.{
  ℕ, suc, ◌+◌, filterb, count, count-append, String, some, List, [], ◌∷◌, ◌++◌, Bool, true, false,
  not, ◌&&◌, ◌≡◌, refl, sym, ap, ◌∙◌, subst, inl, inr, ◌==◌, string_Eq, if◌then◌else◌, Bool-cases,
  Option-cases, some-eq-some, arith,
}
use acadid.Common.Assoc.{lookup, put, lookup-put_self}
use acadid.Common.Outcome.{ok, >>=-eq-ok, guarded-eq-ok, present-eq-ok, ok-injective}
use acadid.Authority.{Auth}
use acadid.Authority.Grants.{assert_institution_can}
use acadid.Batches.{Batch, AcademicRecord, Slip, Results}
use acadid.Batches.Standings.{is_published, recompute_academic_standing}
use acadid.Batches.Transitions.{
  batch_audited, write_batch, existing_batch, is_approved, of_batch, publish_records, slips_of,
  enrolment_ids, recompute_all, published_batch, publish, publish_batch,
}

-- Two databases that differ in the standings at most.
pub record SameRest (db after : Results) : Type 0 where
  pub institutions : after.institutions ≡ db.institutions
  pub users : after.users ≡ db.users
  pub batches : after.batches ≡ db.batches
  pub records : after.records ≡ db.records
  pub slips : after.slips ≡ db.slips

SameRest-refl : (db : Results) → SameRest db db
SameRest-refl db = record {
  institutions = refl;
  users = refl;
  batches = refl;
  records = refl;
  slips = refl;
}

SameRest-trans : {a b c : Results} → SameRest a b → SameRest b c → SameRest a c
SameRest-trans f g = record {
  institutions = g.institutions ∙ f.institutions;
  users = g.users ∙ f.users;
  batches = g.batches ∙ f.batches;
  records = g.records ∙ f.records;
  slips = g.slips ∙ f.slips;
}

recompute-SameRest :
    (now : ℕ) (id : String) (db : Results) → SameRest db (recompute_academic_standing now id db)
unfolding recompute_academic_standing
recompute-SameRest now id db = elim (Option-cases (lookup id db.enrolments)) [
  | inl absent ↦ rw absent (SameRest-refl db)
  | inr (e, found) ↦
      rw found
        (record { institutions = refl; users = refl; batches = refl; records = refl; slips = refl })
]

recompute_all-SameRest :
    (now : ℕ) (ids : List String) (db : Results) → SameRest db (recompute_all now ids db)
unfolding recompute_all
recompute_all-SameRest now [] db = SameRest-refl db
recompute_all-SameRest now (id ∷ ids) db =
    SameRest-trans (recompute-SameRest now id db)
      (recompute_all-SameRest now ids (recompute_academic_standing now id db))

not-eq-false : (b : Bool) → not b ≡ false → b ≡ true
not-eq-false true h = refl
not-eq-false false h = cc

-- What a publication has found and leaves.
pub record Published (id : String) (now : ℕ) (fresh : ℕ → String) (b : Batch) (db after : Results)
    : Type 0 where
  pub institutions : after.institutions ≡ db.institutions
  pub users : after.users ≡ db.users
  pub batches : after.batches ≡ put b.uuid (published_batch now b) db.batches
  pub records : after.records ≡ publish_records id now db.records
  pub slips :
      after.slips ≡ db.slips ++ slips_of b.institution_id fresh 0 (filterb (of_batch id) db.records)

pub publish-Published :
    (auth : Auth) (id : String) (now : ℕ) (fresh : ℕ → String) (b : Batch) (db : Results)
    → Published id now fresh b db
        (batch_audited auth "result_batch.publish" b (publish id now fresh b db))
unfolding publish batch_audited
publish-Published auth id now fresh b db =
    let same =
      recompute_all-SameRest now (enrolment_ids [] (filterb (of_batch id) db.records))
        (record (write_batch (published_batch now b) db) {
          records = publish_records id now db.records;
          slips = db.slips ++ slips_of b.institution_id fresh 0 (filterb (of_batch id) db.records);
        }) in
    record {
      institutions = same.institutions;
      users = same.users;
      batches = same.batches;
      records = same.records;
      slips = same.slips;
    }

pub existing_batch-eq-ok :
    (db : Results) (id : String) {b : Batch}
    → existing_batch db id ≡ ok b
    → lookup id db.batches ≡ some b
unfolding existing_batch
existing_batch-eq-ok db id {b} h =
    let (row, found, same) = present-eq-ok (lookup id db.batches) _ ok h in
    found ∙ ap some (sym (ok-injective same))

pub publish_batch-Published :
    (auth : Auth) (id : String) (now : ℕ) (fresh : ℕ → String) (db : Results) {after : Results}
    → publish_batch auth id now fresh db ≡ ok after
    → (b : Batch) × (lookup id db.batches ≡ some b)
      × (is_approved b.status ≡ true)
      × Published id now fresh b db after
unfolding publish_batch
publish_batch-Published auth id now fresh db {after} h =
    let (b, found, a) = >>=-eq-ok (existing_batch db id) _ h in
    let (g, granted, c) =
      >>=-eq-ok
        (assert_institution_can db.institutions db.users b.institution_id "publish_credentials"
          (some auth) now)
        _ a in
    let (open_now, last) = guarded-eq-ok _ _ _ c in
    (
      b,
      existing_batch-eq-ok db id found,
      not-eq-false (is_approved b.status) open_now,
      subst (Published id now fresh b db) (sym (ok-injective last))
          (publish-Published auth id now fresh b db),
    )

abbrev pub is_slip_of : String → Slip → Bool
is_slip_of j s = s.academic_record_id == j

abbrev pub is_batch_record : String → String → AcademicRecord → Bool
is_batch_record id j r = of_batch id r && r.uuid == j

count-slips_of :
    (institution id j : String) (fresh : ℕ → String) (i : ℕ) (rs : List AcademicRecord)
    → count (is_slip_of j) (slips_of institution fresh i (filterb (of_batch id) rs))
      ≡ count (is_batch_record id j) rs
unfolding slips_of
count-slips_of institution id j fresh i [] = refl
count-slips_of institution id j fresh i (r ∷ rs) = elim (Bool-cases (of_batch id r)) [
  | inl inside ↦ rw inside (
      ap (λ n. (if r.uuid == j then 1 else 0) + n)
        (count-slips_of institution id j fresh (suc i) rs))
  | inr outside ↦ rw outside (omega (arith, count-slips_of institution id j fresh i rs))
]

pub Published-slips :
    (id j : String) (now : ℕ) (fresh : ℕ → String) (b : Batch) (db after : Results)
    → Published id now fresh b db after
    → count (is_slip_of j) after.slips
      ≡ count (is_slip_of j) db.slips + count (is_batch_record id j) db.records
Published-slips id j now fresh b db after p =
    ap (count (is_slip_of j)) p.slips
    ∙ count-append (is_slip_of j) db.slips
        (slips_of b.institution_id fresh 0 (filterb (of_batch id) db.records))
    ∙ ap (λ n. count (is_slip_of j) db.slips + n)
        (count-slips_of b.institution_id id j fresh 0 db.records)

abbrev pub is_unpublished : String → AcademicRecord → Bool
is_unpublished id r = of_batch id r && not (is_published r.status)

count-publish_records :
    (id : String) (now : ℕ) (rs : List AcademicRecord)
    → count (is_unpublished id) (publish_records id now rs) ≡ 0
unfolding publish_records
count-publish_records id now [] = refl
count-publish_records id now (r ∷ rs) = elim (Bool-cases (of_batch id r)) [
  | inl inside ↦ rw (inside, count-publish_records id now rs) (ground arith)
  | inr outside ↦ rw (outside, count-publish_records id now rs) (ground arith)
]

-- A publication that is not refused finds its batch approved and leaves it published, with no record
-- of the batch unpublished, and with one more result slip for each record of the batch.
pub publish_batch-issues :
    (auth : Auth) (id j : String) (now : ℕ) (fresh : ℕ → String) (b : Batch) (db after : Results)
    → lookup id db.batches ≡ some b
    → b.uuid ≡ id
    → publish_batch auth id now fresh db ≡ ok after
    → (is_approved b.status ≡ true)
      × (lookup id after.batches ≡ some (published_batch now b))
      × (count (is_unpublished id) after.records ≡ 0)
      × (count (is_slip_of j) after.slips
          ≡ count (is_slip_of j) db.slips + count (is_batch_record id j) db.records)
publish_batch-issues auth id j now fresh b db after stored keyed h =
    let (row, found, open_now, p) = publish_batch-Published auth id now fresh db h in
    let same = some-eq-some (sym found ∙ stored) in
    let q = subst (λ x. Published id now fresh x db after) same p in
    (
      subst (λ x. is_approved x.status ≡ true) same open_now,
      ap (lookup id) q.batches
          ∙ subst
              (λ k.
                lookup id (put k (published_batch now b) db.batches) ≡ some (published_batch now b))
              (sym keyed) (lookup-put_self id (published_batch now b) db.batches),
      ap (count (is_unpublished id)) q.records ∙ count-publish_records id now db.records,
      Published-slips id j now fresh b db after q,
    )
