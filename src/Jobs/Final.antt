-- ===== src/Jobs/Final.antt =====
-- Rows that no action changes any more.
use acadid.Common.{
  String, none, some, List, false, ◌≡◌, ap, sym, subst, ◌∙◌, inl, inr, ◌==◌, string_Eq, Bool-cases,
  some-eq-some,
}
use acadid.Common.Assoc.{lookup, put, lookup-put, lookup-put_cases}
use acadid.Jobs.Types.{running, succeeded, Job}
use acadid.Jobs.Claim.{is_waiting, claimed_row}
use acadid.Jobs.Finish.{is_failed}
use acadid.Jobs.System.{System, Action, stop, act, act_all, empty, AllFresh}
use acadid.Jobs.Changes.{
  Found, Change, kept, created, claimed, finished, requeued, dropped, is_running, act-Change,
}
use acadid.Jobs.Consistent.{Held, Held-same, lookup-remove-some, IsConsistent, Change-IsConsistent}
use acadid.Jobs.Exclusive.{act_all_induction, act_all-IsConsistent, workers-exclusive}

-- The row stands under `id`, does not wait, did not fail, and no worker processes it.
record IsLeft (id : String) (row : Job) (s : System) : Type 0 where
  here : Found s id row
  rests : is_waiting row.status ≡ false
  not_failed : is_failed row.status ≡ false
  free :
      (worker : String) (job : Job) → lookup worker s.active ≡ some job → (job.uuid == id) ≡ false

-- A write under another uuid leaves the row.
Found-elsewhere :
    (s s' : System) (id k : String) (row row' : Job)
    → (k ≡ id → (k == id) ≡ false)
    → s'.database.jobs ≡ put k row' s.database.jobs
    → Found s id row
    → Found s' id row
Found-elsewhere s s' id k row row' other rows h = elim (Bool-cases (k == id)) [
  | inl e ↦ rw (rows, lookup-put, other ((string_Eq.beq_iff k id).0 e)) h
  | inr e ↦ rw (rows, lookup-put, e) h
]

module _ (id : String) (row : Job) (s s' : System) (c : IsConsistent s) where
  -- The row of the change would be the one that rests.
  same_row : (k : String) (r : Job) → IsLeft id row s → Found s k r → r.uuid ≡ id → r ≡ row
  same_row k r left found e =
      some-eq-some (sym (subst (λ j. Found s j r) (sym (c.keyed k r found) ∙ e) found) ∙ left.here)

  Change-IsLeft : Change s s' → IsLeft id row s → IsLeft id row s'
  unfolding claimed_row
  Change-IsLeft (kept rows active) left = record {
    here = rw rows left.here;
    rests = left.rests;
    not_failed = left.not_failed;
    free = λ v job h. left.free v job (rw active at h);
  }
  Change-IsLeft (dropped worker rows active) left = record {
    here = rw rows left.here;
    rests = left.rests;
    not_failed = left.not_failed;
    free = λ v job h. left.free v job (lookup-remove-some worker v s.active (rw active at h)).1;
  }
  Change-IsLeft (created r vacant status attempts rows active) left = record {
    here =
        Found-elsewhere s s' id r.uuid row r
          (λ e. cc (subst (λ k. lookup k s.database.jobs ≡ none) e vacant, left.here)) rows
          left.here;
    rests = left.rests;
    not_failed = left.not_failed;
    free = λ v job h. left.free v job (rw active at h);
  }
  Change-IsLeft (requeued now k r found status rows active) left = record {
    here =
        Found-elsewhere s s' id r.uuid row _
          (λ e. cc (status, same_row k r left found e, left.not_failed)) rows left.here;
    rests = left.rests;
    not_failed = left.not_failed;
    free = λ v job h. left.free v job (rw active at h);
  }
  Change-IsLeft (claimed worker now k r found waiting idle rows active) left =
      let other : (r.uuid == id) ≡ false = elim (Bool-cases (r.uuid == id)) [
        | inl e ↦
            cc (waiting, same_row k r left found ((string_Eq.beq_iff r.uuid id).0 e), left.rests)
        | inr e ↦ e
      ] in
      record {
        here = Found-elsewhere s s' id r.uuid row _ (λ e. other) rows left.here;
        rests = left.rests;
        not_failed = left.not_failed;
        free = λ v job h. elim (lookup-put_cases worker v _ s.active (rw active at h)) [
          | inl (same, e) ↦ ap (λ j. j.uuid == id) e ∙ other
          | inr (ne, e) ↦ left.free v job e
        ];
      }
  Change-IsLeft (finished worker job r r' busy found u a m stopped room rows active) left = record {
    here =
        Found-elsewhere s s' id job.uuid row r'
          (λ e. cc ((string_Eq.beq_iff job.uuid id).1 e, left.free worker job busy)) rows left.here;
    rests = left.rests;
    not_failed = left.not_failed;
    free = λ v j h. left.free v j (lookup-remove-some worker v s.active (rw active at h)).1;
  }

left-stays :
    (id : String) (row : Job) (actions : List Action) (s : System)
    → AllFresh actions s
    → IsConsistent s
    → IsLeft id row s
    → Found (act_all actions s) id row
left-stays id row actions s fresh c left =
    (act_all_induction (IsLeft id row) (λ s s' c change h. Change-IsLeft id row s s' c change h)
      actions s fresh c left).1.here

unheld :
    (id : String) (row : Job) (s : System)
    → IsConsistent s
    → Found s id row
    → is_running row.status ≡ false
    → (worker : String) (job : Job) → lookup worker s.active ≡ some job
    → (job.uuid == id) ≡ false
unheld id row s c found idle worker job h = elim (Bool-cases (job.uuid == id)) [
  | inr other ↦ other
  | inl e ↦
      let held : Held s worker job = c.held worker job h in
      let same : row ≡ held.row =
        Held-same s worker job row held
          (subst (λ k. Found s k row) (sym ((string_Eq.beq_iff job.uuid id).0 e)) found) in
      cc (idle, same, held.runs)
]

-- Once a job has succeeded, no actions change its row, where a retry of a failed job writes only
-- while the row is failed and as the retry read it: the job is not run, failed or queued again.
pub succeeded-stays :
    (before after : List Action) (id : String) (row : Job)
    → AllFresh before empty
    → AllFresh after (act_all before empty)
    → Found (act_all before empty) id row
    → row.status ≡ succeeded
    → Found (act_all after (act_all before empty)) id row
succeeded-stays before after id row fresh later found status =
    let s : System = act_all before empty in
    let c : IsConsistent s = act_all-IsConsistent before fresh in
    left-stays id row after s later c (record {
      here = found;
      rests = cc status;
      not_failed = cc status;
      free = unheld id row s c found (cc status);
    })

-- A job whose worker is stopped while it processes the job is running, and its row stays the same
-- whatever actions follow, where a retry of a failed job writes only while the row is failed and
-- as the retry read it: no worker claims the job again and it is not failed.
pub stopped-stays :
    (before after : List Action) (worker : String) (job row : Job)
    → AllFresh before empty
    → AllFresh after (act (stop worker) (act_all before empty))
    → lookup worker (act_all before empty).active ≡ some job
    → Found (act_all before empty) job.uuid row
    → (row.status ≡ running)
      × Found (act_all after (act (stop worker) (act_all before empty))) job.uuid row
unfolding act
stopped-stays before after worker job row fresh later busy found =
    let s : System = act_all before empty in
    let c : IsConsistent s = act_all-IsConsistent before fresh in
    let held : Held s worker job = c.held worker job busy in
    let same : row ≡ held.row = Held-same s worker job row held found in
    let runs : row.status ≡ running = ap (λ r. r.status) same ∙ held.runs in
    let change : Change s (act (stop worker) s) = act-Change s (stop worker) tt c.table in
    (
      runs,
      left-stays job.uuid row after (act (stop worker) s) later (Change-IsConsistent s _ c change)
          (record {
            here = found;
            rests = cc runs;
            not_failed = cc runs;
            free = λ v other h.
                others before fresh worker job busy v other
                  (lookup-remove-some worker v s.active h);
          }),
    )
  where
    others :
        (before : List Action)
        → AllFresh before empty
        → (worker : String) (job : Job) → lookup worker (act_all before empty).active ≡ some job
        → (v : String) (other : Job)
        → ((worker == v) ≡ false) × (lookup v (act_all before empty).active ≡ some other)
        → (other.uuid == job.uuid) ≡ false
    others before fresh worker job busy v other (ne, theirs) =
        elim (Bool-cases (other.uuid == job.uuid)) [
          | inr differs ↦ differs
          | inl same ↦ cc (
            ne,
            (string_Eq.beq_iff worker v).1
                (workers-exclusive before worker v job other fresh busy theirs
                  (sym ((string_Eq.beq_iff other.uuid job.uuid).0 same))).0,
          )
        ]
