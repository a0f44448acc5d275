-- ===== src/Batches/Republished.antt =====
-- A published batch can be approved and published again.
use acadid.Common.{
  ℕ, ◌+◌, ◌*◌, count, String, some, List, [], ◌∷◌, Bool, true, false, ◌≡◌, refl, ap, ◌∙◌, subst,
  string_Eq, if◌then◌else◌, arith,
}
use acadid.Common.Assoc.{lookup, lookup-put_self}
use acadid.Common.Outcome.{ok}
use acadid.Authority.{Auth, assert_actor_can_operate_institution}
use acadid.Authority.Grants.{Institution, Grant, assert_institution_can}
use acadid.Batches.{approved, published, Batch, AcademicRecord, Results}
use acadid.Batches.Transitions.{
  Transition, to_approved, transition_action, transitioned, batch_audited, write_batch,
  existing_batch, transition_batch, of_batch, publish_records, published_batch, publish,
  publish_batch,
}
use acadid.Batches.Publication.{
  publish-Published, publish_batch-Published, Published-slips, publish_batch-issues, is_slip_of,
  is_batch_record,
}

marked-same :
    (id j : String) (now : ℕ) (b : Bool) (r : AcademicRecord)
    → is_batch_record id j
        (if b then record r { status = published; published_at = some now } else r)
      ≡ is_batch_record id j r
marked-same id j now true r = refl
marked-same id j now false r = refl

count-publish_records_same :
    (id j : String) (now : ℕ) (rs : List AcademicRecord)
    → count (is_batch_record id j) (publish_records id now rs) ≡ count (is_batch_record id j) rs
unfolding publish_records
count-publish_records_same id j now [] = refl
count-publish_records_same id j now (r ∷ rs) =
    ap (λ x. (if x then 1 else 0) + count (is_batch_record id j) (publish_records id now rs))
      (marked-same id j now (of_batch id r) r)
    ∙ ap (λ n. (if is_batch_record id j r then 1 else 0) + n)
        (count-publish_records_same id j now rs)

transition-eq-ok :
    (auth : Auth) (id : String) (t : Transition) (at : ℕ) (b : Batch) (db : Results)
    → lookup id db.batches ≡ some b
    → assert_actor_can_operate_institution db.users auth b.institution_id ≡ ok tt
    → transition_batch auth id t at db
      ≡ ok (batch_audited auth (transition_action t) b (write_batch (transitioned t at b) db))
unfolding transition_batch existing_batch
transition-eq-ok auth id t at b db found allowed = rw (found, allowed) refl

publish-eq-ok :
    (auth : Auth) (id : String) (now : ℕ) (fresh : ℕ → String) (b : Batch) (g : Institution × Grant)
    (db : Results)
    → lookup id db.batches ≡ some b
    → assert_institution_can db.institutions db.users b.institution_id "publish_credentials"
        (some auth)
        now
      ≡ ok g
    → b.status ≡ approved
    → publish_batch auth id now fresh db
      ≡ ok (batch_audited auth "result_batch.publish" b (publish id now fresh b db))
unfolding publish_batch existing_batch
publish-eq-ok auth id now fresh b g db found granted status = rw (found, granted, status) refl

-- A batch that was published, by an actor who may act for its institution and while the institution
-- may publish, can be approved again and published again, and each of its records then has gained
-- two result slips.
pub publish_batch-twice :
    (auth : Auth) (id j : String) (now at later : ℕ) (fresh again : ℕ → String)
    (g : Institution × Grant) (b : Batch) (db after : Results)
    → lookup id db.batches ≡ some b
    → b.uuid ≡ id
    → publish_batch auth id now fresh db ≡ ok after
    → assert_actor_can_operate_institution db.users auth b.institution_id ≡ ok tt
    → assert_institution_can db.institutions db.users b.institution_id "publish_credentials"
        (some auth)
        later
      ≡ ok g
    → (mid : Results) × (last : Results) × (transition_batch auth id to_approved at after ≡ ok mid)
      × (publish_batch auth id later again mid ≡ ok last)
      × (count (is_slip_of j) last.slips
          ≡ count (is_slip_of j) db.slips + 2 * count (is_batch_record id j) db.records)
unfolding batch_audited
publish_batch-twice auth id j now at later fresh again g b db after stored keyed h allowed granted =
    let (row, found, was, p) = publish_batch-Published auth id now fresh db h in
    let (approved_before, here, all_published, first) =
      publish_batch-issues auth id j now fresh b db after stored keyed h in
    let open_again = transitioned to_approved at (published_batch now b) in
    let mid =
      batch_audited auth "result_batch.approved" (published_batch now b)
        (write_batch open_again after) in
    let there =
      subst (λ k. lookup k mid.batches ≡ some open_again) keyed
        (lookup-put_self b.uuid open_again after.batches) in
    let last =
      batch_audited auth "result_batch.publish" open_again
        (publish id later again open_again mid) in
    let second =
      Published-slips id j later again open_again mid last
        (publish-Published auth id later again open_again mid) in
    (
      mid,
      last,
      transition-eq-ok auth id to_approved at (published_batch now b) after here
          (rw p.users allowed),
      publish-eq-ok auth id later again open_again g mid there
          (rw (p.institutions, p.users) granted) refl,
      omega (
        arith,
        first,
        second,
        ap (count (is_batch_record id j)) p.records,
        count-publish_records_same id j now db.records,
      ),
    )
