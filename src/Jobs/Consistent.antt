-- ===== src/Jobs/Consistent.antt =====
-- What holds of the jobs and the workers at any time, and that each step keeps it.
use acadid.Common.{
  ℕ, ◌≤◌, ◌<◌, max, String, none, some, true, false, ◌≡◌, refl, ap, sym, subst, ◌∙◌, inl, inr, ◌==◌,
  string_Eq, arith, Bool-cases, some-eq-some,
}
use acadid.Common.Assoc.{
  Assoc, lookup, put, remove, lookup-put, lookup-remove, lookup-put_cases, lookup-put_self, IsTable,
  put-IsTable,
}
use acadid.Jobs.Types.{JobStatus, queued, running, retrying, failed, Job}
use acadid.Jobs.Claim.{is_waiting, claimed_row}
use acadid.Jobs.Finish.{next_max_attempts, requeued_row}
use acadid.Jobs.System.{System}
use acadid.Jobs.Changes.{
  Found, is_running, Change, kept, created, claimed, finished, requeued, dropped,
}

-- The row of a job that a worker is processing.
pub record Held (s : System) (worker : String) (job : Job) : Type 0 where
  pub row : Job
  pub here : Found s job.uuid row
  pub runs : row.status ≡ running
  pub locked : row.locked_by ≡ some worker
  pub same_attempts : row.attempts ≡ job.attempts
  pub same_max : row.max_attempts ≡ job.max_attempts

-- A row has been tried no more often than it may be, and less often while it waits.
pub record IsWithin (row : Job) : Type 0 where
  pub bound : row.attempts ≤ max 1 row.max_attempts
  pub room : is_waiting row.status ≡ true → row.attempts < max 1 row.max_attempts

pub record IsConsistent (s : System) : Type 0 where
  pub table : IsTable s.database.jobs
  pub keyed : (id : String) (row : Job) → Found s id row → row.uuid ≡ id
  pub within : (id : String) (row : Job) → Found s id row → IsWithin row
  pub held : (worker : String) (job : Job) → lookup worker s.active ≡ some job → Held s worker job

-- A row written under its own uuid keeps what holds of the rows.
module _ (s s' : System) (row : Job) (c : IsConsistent s)
    (rows : s'.database.jobs ≡ put row.uuid row s.database.jobs) where
  written-IsTable : IsTable s'.database.jobs
  written-IsTable = rw rows (put-IsTable row.uuid row s.database.jobs c.table)

  written-keyed : (id : String) (r : Job) → Found s' id r → r.uuid ≡ id
  written-keyed id r h = elim (lookup-put_cases row.uuid id row s.database.jobs (rw rows at h)) [
    | inl (same, e) ↦ rw e same
    | inr (other, e) ↦ c.keyed id r e
  ]

  written-IsWithin : IsWithin row → (id : String) (r : Job) → Found s' id r → IsWithin r
  written-IsWithin w id r h =
      elim (lookup-put_cases row.uuid id row s.database.jobs (rw rows at h)) [
        | inl (same, e) ↦ rw e w
        | inr (other, e) ↦ c.within id r e
      ]

  -- A worker whose job stands under another uuid.
  written-Held :
      (worker : String) (job : Job)
      → (row.uuid == job.uuid) ≡ false
      → Held s worker job
      → Held s' worker job
  written-Held worker job other h = record {
    row = h.row;
    here = rw (rows, lookup-put, other) h.here;
    runs = h.runs;
    locked = h.locked;
    same_attempts = h.same_attempts;
    same_max = h.same_max;
  }

  -- A worker that held its job before, when the row is not the one of that job.
  still-Held :
      (worker : String) (job : Job)
      → Held s worker job
      → (row.uuid ≡ job.uuid → Held s' worker job)
      → Held s' worker job
  still-Held worker job h same = elim (Bool-cases (row.uuid == job.uuid)) [
    | inl e ↦ same ((string_Eq.beq_iff row.uuid job.uuid).0 e)
    | inr other ↦ written-Held worker job other h
  ]

-- A row that stands under a uuid, against the one that a worker holds under it.
pub Held-same :
    (s : System) (worker : String) (job row : Job) (h : Held s worker job)
    → Found s job.uuid row
    → row ≡ h.row
Held-same s worker job row h found = some-eq-some (sym found ∙ h.here)

waiting-idle : (status : JobStatus) → is_waiting status ≡ true → is_running status ≡ false
waiting-idle queued h = refl
waiting-idle retrying h = refl
waiting-idle _ h = cc

pub lookup-remove-some :
    (k j : String) (m : Assoc String Job) {job : Job}
    → lookup j (remove k m) ≡ some job
    → ((k == j) ≡ false) × (lookup j m ≡ some job)
lookup-remove-some k j m h = elim (Bool-cases (k == j)) [
  | inl same ↦ cc (rw (lookup-remove, same) at h)
  | inr other ↦ (other, rw (lookup-remove, other) at h)
]

module _ (s s' : System) (c : IsConsistent s) where
  kept-IsConsistent :
      s'.database.jobs ≡ s.database.jobs
      → ((worker : String) (job : Job)
          → lookup worker s'.active ≡ some job
          → lookup worker s.active ≡ some job)
      → IsConsistent s'
  kept-IsConsistent rows active = record {
    table = rw rows c.table;
    keyed = λ id r h. c.keyed id r (rw rows at h);
    within = λ id r h. c.within id r (rw rows at h);
    held = λ worker job h.
        let old : Held s worker job = c.held worker job (active worker job h) in
        record {
          row = old.row;
          here = rw rows old.here;
          runs = old.runs;
          locked = old.locked;
          same_attempts = old.same_attempts;
          same_max = old.same_max;
        };
  }

  written-IsConsistent :
      (row : Job)
      → s'.database.jobs ≡ put row.uuid row s.database.jobs
      → IsWithin row
      → ((worker : String) (job : Job) → lookup worker s'.active ≡ some job → Held s' worker job)
      → IsConsistent s'
  written-IsConsistent row rows within held = record {
    table = written-IsTable s s' row c rows;
    keyed = written-keyed s s' row c rows;
    within = written-IsWithin s s' row c rows within;
    held = held;
  }

  -- No worker holds a row that does not run.
  idle-Held :
      (row : Job) (id : String)
      → Found s id row
      → is_running row.status ≡ false
      → (row' : Job) → row'.uuid ≡ row.uuid
      → s'.database.jobs ≡ put row'.uuid row' s.database.jobs
      → (worker : String) (job : Job) → Held s worker job
      → Held s' worker job
  idle-Held row id found idle row' same rows worker job h =
      still-Held s s' row' c rows worker job h (λ e.
        let e₂ : row ≡ h.row =
          Held-same s worker job row h
            (subst (λ k. Found s k row) (sym (c.keyed id row found) ∙ sym same ∙ e) found) in
        cc (idle, e₂, h.runs))

  requeued-IsConsistent :
      (now : ℕ) (id : String) (row : Job)
      → Found s id row
      → row.status ≡ failed
      → s'.database.jobs ≡ put row.uuid (requeued_row row now row) s.database.jobs
      → s'.active ≡ s.active
      → IsConsistent s'
  unfolding requeued_row next_max_attempts
  requeued-IsConsistent now id row found status rows active =
      written-IsConsistent (requeued_row row now row) rows
        (record {
          bound = omega (arith, (c.within id row found).bound);
          room = λ h. omega (arith, (c.within id row found).bound);
        })
        (λ worker job h.
          idle-Held row id found (cc status) (requeued_row row now row) refl rows worker job
            (c.held worker job (rw active at h)))

  claimed-IsConsistent :
      (worker : String) (now : ℕ) (id : String) (row : Job)
      → Found s id row
      → is_waiting row.status ≡ true
      → s'.database.jobs ≡ put row.uuid (claimed_row worker now row) s.database.jobs
      → s'.active ≡ put worker (claimed_row worker now row) s.active
      → IsConsistent s'
  unfolding claimed_row
  claimed-IsConsistent worker now id row found waiting rows active =
      let new : Job = claimed_row worker now row in
      written-IsConsistent new rows
        (record { bound = omega (arith, (c.within id row found).room waiting); room = λ h. cc })
        (λ w job h. elim (lookup-put_cases worker w new s.active (rw active at h)) [
          | inl (same, e) ↦ record {
            row = new;
            here = rw (rows, e) (lookup-put_self row.uuid new s.database.jobs);
            runs = refl;
            locked = ap (λ x. some x) same;
            same_attempts = rw e refl;
            same_max = rw e refl;
          }
          | inr (other, e) ↦
              idle-Held row id found (waiting-idle row.status waiting) new refl rows w job
                (c.held w job e)
        ])

  finished-IsConsistent :
      (worker : String) (job row row' : Job)
      → lookup worker s.active ≡ some job
      → Found s job.uuid row
      → row'.uuid ≡ row.uuid
      → row'.attempts ≡ row.attempts
      → row'.max_attempts ≡ row.max_attempts
      → (is_waiting row'.status ≡ true → job.attempts < job.max_attempts)
      → s'.database.jobs ≡ put job.uuid row' s.database.jobs
      → s'.active ≡ remove worker s.active
      → IsConsistent s'
  finished-IsConsistent worker job row row' busy found u a m room rows active =
      let mine : Held s worker job = c.held worker job busy in
      let e : row ≡ mine.row = Held-same s worker job row mine found in
      let rows' : s'.database.jobs ≡ put row'.uuid row' s.database.jobs =
        subst (λ k. s'.database.jobs ≡ put k row' s.database.jobs)
          (sym (u ∙ c.keyed job.uuid row found)) rows in
      written-IsConsistent row' rows'
        (record {
          bound = omega (arith, (c.within job.uuid row found).bound, a, m);
          room = λ h. omega (
            arith,
            room h,
            a,
            m,
            ap (λ r. r.attempts) e,
            ap (λ r. r.max_attempts) e,
            mine.same_attempts,
            mine.same_max,
          );
        })
        (λ w job₂ h.
          let (other, old) = lookup-remove-some worker w s.active (rw active at h) in
          let theirs : Held s w job₂ = c.held w job₂ old in
          still-Held s s' row' c rows' w job₂ theirs (λ same.
            let e₂ : row ≡ theirs.row = Held-same s w job₂ row theirs (
              subst (λ k. Found s k row) (sym (c.keyed job.uuid row found) ∙ sym u ∙ same) found) in
            let one : worker ≡ w =
              some-eq-some (sym mine.locked ∙ ap (λ r. r.locked_by) (sym e ∙ e₂) ∙ theirs.locked) in
            cc ((string_Eq.beq_iff worker w).1 one, other)))

  pub Change-IsConsistent : Change s s' → IsConsistent s'
  Change-IsConsistent (kept rows active) = kept-IsConsistent rows (λ worker job h. rw active at h)
  Change-IsConsistent (dropped worker rows active) =
      kept-IsConsistent rows (λ w job h. (lookup-remove-some worker w s.active (rw active at h)).1)
  Change-IsConsistent (created row free status attempts rows active) =
      written-IsConsistent row rows
        (record { bound = omega (arith, attempts); room = λ h. omega (arith, attempts) })
        (λ worker job h.
          let old : Held s worker job = c.held worker job (rw active at h) in
          still-Held s s' row c rows worker job old
            (λ e. cc (subst (λ k. lookup k s.database.jobs ≡ none) e free, old.here)))
  Change-IsConsistent (requeued now id row found status rows active) =
      requeued-IsConsistent now id row found status rows active
  Change-IsConsistent (claimed worker now id row found waiting idle rows active) =
      claimed-IsConsistent worker now id row found waiting rows active
  Change-IsConsistent (finished worker job row row' busy found u a m stopped room rows active) =
      finished-IsConsistent worker job row row' busy found u a m room rows active
