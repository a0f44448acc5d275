-- ===== src/Jobs/Order.antt =====
-- The order in which `claimNextJob` takes the jobs.
use acadid.Common.{
  ℕ, ◌+◌, ◌≤◌, ◌<◌, ◌⊎◌, elem, leb, ltb, nat_eq, ◌||◌, String, Option, none, some, [], ◌∷◌, Bool,
  true, false, not, ◌&&◌, ◌≡◌, refl, ap, subst, ◌∙◌, inl, inr, arith, Bool-cases, string_Eq,
}
use mathlib.Core.List.{Memᴰ}
use acadid.Common.Assoc.{Assoc, put, ◌∈◌}
use acadid.Jobs.Types.{
  JobStatus, queued, running, retrying, succeeded, failed, cancelled, Job, Database,
}
use acadid.Jobs.Claim.{
  worker_queues, is_waiting, is_due, precedes, first_of, next_job, claimed_row, claim_next_job,
}
use acadid.Jobs.Changes.{IsCandidate, next_job-IsCandidate}

precedes-irreflexive : (a : Job) → precedes a a ≡ false
precedes-irreflexive a = ground arith

precedes-not_trans :
    (a b c : Job) → precedes a b ≡ false → precedes b c ≡ false → precedes a c ≡ false
precedes-not_trans a b c h k = ground arith

precedes-asymmetric : (a b : Job) → precedes a b ≡ true → precedes b a ≡ false
precedes-asymmetric a b h = ground arith

precedes-first_of : (row : Job) (best : Option Job) → precedes row (first_of row best) ≡ false
precedes-first_of row none = precedes-irreflexive row
precedes-first_of row (some b) = elim (Bool-cases (precedes b row)) [
  | inl e ↦ rw e (precedes-asymmetric b row e)
  | inr e ↦ rw e (precedes-irreflexive row)
]

not_before-first_of :
    (other row b : Job) → precedes other b ≡ false → precedes other (first_of row (some b)) ≡ false
not_before-first_of other row b h = elim (Bool-cases (precedes b row)) [
  | inl e ↦ rw e h
  | inr e ↦ rw e (precedes-not_trans other b row h e)
]

-- Where a row can be taken, one is taken that no such row precedes.
next_job-first :
    (skipped : String → Bool) (now : ℕ) (rows : Assoc String Job) (other : Job)
    → IsCandidate skipped now rows other
    → (next : Job) × (next_job skipped now rows ≡ some next) × (precedes other next ≡ false)
unfolding next_job
next_job-first skipped now [] other (id, there, due) = elim there [ ]
next_job-first skipped now ((k, row) ∷ rows) other (id, Memᴰ.head p, due) =
    let here : other ≡ row = ap (λ e. e.1) p in
    let due' : (is_due now row && not (skipped k)) ≡ true =
      subst (λ e. (is_due now e.1 && not (skipped e.0)) ≡ true) p due in
    (
      first_of row (next_job skipped now rows),
      rw due' refl,
      ap (λ j. precedes j (first_of row (next_job skipped now rows))) here
          ∙ precedes-first_of row (next_job skipped now rows),
    )
next_job-first skipped now ((k, row) ∷ rows) other (id, Memᴰ.tail there, due) =
    let (next, found, least) = next_job-first skipped now rows other (id, there, due) in
    elim (Bool-cases (is_due now row && not (skipped k))) [
      | inl e ↦
          (first_of row (some next), rw (e, found) refl, not_before-first_of other row next least)
      | inr e ↦ (next, rw e found, least)
    ]

-- A job that a claim may take: it waits in one of the workers' queues, its time has come, and no
-- other transaction has locked its row.
pub record IsClaimable (skipped : String → Bool) (now : ℕ) (rows : Assoc String Job) (job : Job)
    : Type 0 where
  pub id : String
  pub listed : (id, job) ∈ rows
  pub waits : (job.status ≡ queued) ⊎ (job.status ≡ retrying)
  pub queue_served : elem job.queue worker_queues ≡ true
  pub due : job.run_after ≤ now
  pub unlocked : skipped id ≡ false

-- The higher priority comes first, then the earlier time to run, then the older job.
abbrev pub IsBefore : Job → Job → Type 0
IsBefore a b =
    (b.priority < a.priority)
    ⊎ ((a.priority ≡ b.priority)
        × ((a.run_after < b.run_after)
            ⊎ ((a.run_after ≡ b.run_after) × (a.created_at ≤ b.created_at))))

waiting_cases : (s : JobStatus) → is_waiting s ≡ true → (s ≡ queued) ⊎ (s ≡ retrying)
waiting_cases queued h = inl refl
waiting_cases retrying h = inr refl
waiting_cases running h = cc
waiting_cases succeeded h = cc
waiting_cases failed h = cc
waiting_cases cancelled h = cc

is_waiting-cases : (s : JobStatus) → (s ≡ queued) ⊎ (s ≡ retrying) → is_waiting s ≡ true
is_waiting-cases s (inl e) = cc e
is_waiting-cases s (inr e) = cc e

claimable-IsCandidate :
    (skipped : String → Bool) (now : ℕ) (rows : Assoc String Job) (job : Job)
    → IsClaimable skipped now rows job
    → IsCandidate skipped now rows job
claimable-IsCandidate skipped now rows job c = (
  c.id,
  c.listed,
  rw (is_waiting-cases job.status c.waits, c.queue_served, c.unlocked) (ground (arith, c.due)),
)

four_cases :
    (w e : Bool) (t now : ℕ) (l : Bool)
    → ((w && (e && leb t now)) && not l) ≡ true
    → (w ≡ true) × (e ≡ true) × (t ≤ now) × (l ≡ false)
four_cases w e t now l h = ground arith

candidate-IsClaimable :
    (skipped : String → Bool) (now : ℕ) (rows : Assoc String Job) (job : Job)
    → IsCandidate skipped now rows job
    → IsClaimable skipped now rows job
candidate-IsClaimable skipped now rows job (id, listed, due) =
    let (waits, served, reached, unlocked) = four_cases _ _ job.run_after now _ due in
    record {
      id = id;
      listed = listed;
      waits = waiting_cases job.status waits;
      queue_served = served;
      due = reached;
      unlocked = unlocked;
    }

lexicographic :
    (p q t u c d : ℕ)
    → (ltb p q || (nat_eq q p && (ltb u t || (nat_eq u t && ltb d c)))) ≡ false
    → (q < p) ⊎ ((p ≡ q) × ((t < u) ⊎ ((t ≡ u) × (c ≤ d))))
lexicographic p q t u c d h = ground arith

precedes-IsBefore : (a b : Job) → precedes b a ≡ false → IsBefore a b
precedes-IsBefore a b h =
    lexicographic a.priority b.priority a.run_after b.run_after a.created_at b.created_at h

-- Where a job can be claimed, a worker's claim takes a job that can be claimed and that comes before
-- that one, or is as urgent: by priority, then by time, then by age. Its row becomes running, locked
-- by the worker and tried once more, and is what the worker gets.
pub claim_next_job-first :
    (skipped : String → Bool) (worker : String) (now : ℕ) (db : Database) (other : Job)
    → IsClaimable skipped now db.jobs other
    → (next row : Job) × IsClaimable skipped now db.jobs next
      × IsBefore next other
      × (claim_next_job skipped worker now db
          ≡ (some row, record db { jobs = put next.uuid row db.jobs }))
      × (row.status ≡ running)
      × (row.locked_by ≡ some worker)
      × (row.attempts ≡ next.attempts + 1)
      × (row.uuid ≡ next.uuid)
unfolding claim_next_job claimed_row
claim_next_job-first skipped worker now db other claimable =
    let (next, found, least) =
      next_job-first skipped now db.jobs other
        (claimable-IsCandidate skipped now db.jobs other claimable) in
    (
      next,
      claimed_row worker now next,
      candidate-IsClaimable skipped now db.jobs next
          (next_job-IsCandidate skipped now db.jobs found),
      precedes-IsBefore next other least,
      rw found refl,
      refl,
      refl,
      refl,
      refl,
    )
