-- ===== src/Idempotency/Once.antt =====
-- Concurrent requests: each looks for a record, creates one and then runs its handler, with steps of
-- others in between, so that more than one can find no record.
use acadid.Common.{
  ℕ, ◌+◌, ◌≤◌, String, Option, none, some, List, [], ◌∷◌, Bool, true, false, ◌≡◌, subst, inl, inr,
  ◌==◌, arith, Bool-cases, Option-cases, if◌then◌else◌,
}
use acadid.Common.Assoc.{lookup, lookup-put}
use acadid.Common.Json.{Json}
use acadid.Common.Outcome.{Outcome, ok, throw}
use acadid.Idempotency.Records.{
  RecordKey, record_key_Eq, Record, Records, IdempotencyInput, create_record, end_record,
}

-- A request that found no record goes on to create one; a handler that was started ends.
pub data Step : Type 0 where
  create : IdempotencyInput → RecordKey → (request_hash : String) → (now : ℕ) → Step
  end : IdempotencyInput → RecordKey → Outcome Json → Step

abbrev pub or_same : Outcome Records → Records → Records
or_same (ok records') records = records'
or_same (throw e) records = records

abbrev pub is_ok {ℓ} : {A : Type ℓ} → Outcome A → Bool
is_ok (ok a) = true
is_ok (throw e) = false

unfoldable pub step : Step → Records → Records
step (create input k request_hash now) records =
    or_same (create_record input k request_hash now records) records
step (end input k result) records = or_same (end_record input k result records) records

-- How many of the steps start a handler for the key: those that create its record.
unfoldable pub starts_of : RecordKey → List Step → Records → ℕ
starts_of k [] records = 0
starts_of k (create input j request_hash now ∷ steps) records =
    (if j == k
      then (if is_ok (create_record input j request_hash now records) then 1 else 0)
      else 0)
    + starts_of k steps (step (create input j request_hash now) records)
starts_of k (end input j result ∷ steps) records =
    starts_of k steps (step (end input j result) records)

abbrev pub taken : Option Record → ℕ
taken none = 0
taken (some r) = 1

taken-create :
    (k : RecordKey) (input : IdempotencyInput) (j : RecordKey) (request_hash : String) (now : ℕ)
    (records : Records)
    → (if j == k
          then (if is_ok (create_record input j request_hash now records) then 1 else 0)
          else 0)
        + taken (lookup k records)
      ≤ taken (lookup k (or_same (create_record input j request_hash now records) records))
unfolding create_record
taken-create k input j request_hash now records = elim (Option-cases (lookup j records)) [
  | inr (r, e) ↦ elim (Bool-cases (j == k)) [
    | inl same ↦ rw (e, same) (omega arith)
    | inr other ↦ rw (e, other) (omega arith)
  ]
  | inl e ↦ elim (Bool-cases (j == k)) [
    | inl same ↦
        rw (e, lookup-put, same)
          (rw (subst (λ i. lookup i records ≡ none) ((record_key_Eq.beq_iff j k).0 same) e)
            (omega arith))
    | inr other ↦ rw (e, lookup-put, other) (omega arith)
  ]
]

taken-end :
    (k : RecordKey) (input : IdempotencyInput) (j : RecordKey) (result : Outcome Json)
    (records : Records)
    → taken (lookup k records)
      ≤ taken (lookup k (or_same (end_record input j result records) records))
unfolding end_record
taken-end k input j result records = elim (Option-cases (lookup j records)) [
  | inl e ↦ rw e (omega arith)
  | inr (r, e) ↦ elim (Bool-cases (j == k)) [
    | inl same ↦
        rw (e, lookup-put, same)
          (rw (subst (λ i. lookup i records ≡ some r) ((record_key_Eq.beq_iff j k).0 same) e)
            (omega arith))
    | inr other ↦ rw (e, lookup-put, other) (omega arith)
  ]
]

-- Of the requests that carry a key, whatever the order of their steps, one at most starts its
-- handler, and none where a record stands behind the key already.
pub starts_of-le :
    (k : RecordKey) (steps : List Step) (records : Records)
    → starts_of k steps records + taken (lookup k records) ≤ 1
unfolding starts_of step
starts_of-le k [] records = elim (Option-cases (lookup k records)) [
  | inl e ↦ rw e (omega arith)
  | inr (r, e) ↦ rw e (omega arith)
]
starts_of-le k (create input j request_hash now ∷ steps) records =
    let rest : starts_of k steps (or_same (create_record input j request_hash now records) records)
          + taken (lookup k (or_same (create_record input j request_hash now records) records))
        ≤ 1 =
      starts_of-le k steps (or_same (create_record input j request_hash now records) records) in
    omega (arith, rest, taken-create k input j request_hash now records)
starts_of-le k (end input j result ∷ steps) records = omega (
  arith,
  starts_of-le k steps (or_same (end_record input j result records) records),
  taken-end k input j result records,
)
