-- ===== src/RateLimit/Admission.antt =====
-- How many requests a window admits, over any sequence of checks of any buckets.
use acadid.Common.{
  ℕ, ◌+◌, min, ltb, String, Option, none, some, List, [], ◌∷◌, Bool, true, false, ◌≡◌, not, inl,
  inr, ap, ◌∙◌, refl, ◌==◌, arith, Bool-cases, if◌then◌else◌,
}
use acadid.Common.Assoc.{lookup, lookup-put}
use acadid.RateLimit.Window.{
  BucketKey, bucket_key_Eq, Bucket, Buckets, CheckInput, Verdict, allowed, too_many, bucket_key,
  next_bucket, verdict, assert_allowed,
}

-- A check with the two readings of the clock that it makes.
pub record Check : Type 0 where
  pub input : CheckInput
  pub now : ℕ
  pub later : ℕ

abbrev pub is_allowed : Verdict → Bool
is_allowed (allowed _ _ _ _ _) = true
is_allowed (too_many _ _ _ _) = false

abbrev pub count_in : Option Bucket → ℕ
count_in none = 0
count_in (some b) = b.count

is_allowed-if :
    (scope : String) (count limit left reset_at retry : ℕ) (b : Bool)
    → is_allowed
        (if b then too_many scope limit retry reset_at else allowed scope count limit left reset_at)
      ≡ not b
is_allowed-if scope count limit left reset_at retry true = refl
is_allowed-if scope count limit left reset_at retry false = refl

-- One more request in a bucket where `n` were counted; `a` of the following `m` are admitted.
admit_one :
    (n limit a m : ℕ)
    → a + min (n + 1) limit ≡ min (n + 1 + m) limit
    → (if not (ltb limit (n + 1)) then 1 else 0) + a + min n limit ≡ min (n + (1 + m)) limit
admit_one n limit a m h = ground arith

module _ (hash : String → String) where
  abbrev pub is_for : BucketKey → Check → Bool
  is_for k c = bucket_key hash c.input c.now == k

  -- The checks of a bucket, and those of them that were allowed, in a run from a table of buckets.
  unfoldable pub checks_of : BucketKey → List Check → ℕ
  checks_of k [] = 0
  checks_of k (c ∷ cs) = (if is_for k c then 1 else 0) + checks_of k cs

  unfoldable pub admitted : BucketKey → Buckets → List Check → ℕ
  admitted k buckets [] = 0
  admitted k buckets (c ∷ cs) =
      let (buckets', v) = assert_allowed hash c.input c.now c.later buckets in
      (if is_for k c then (if is_allowed v then 1 else 0) else 0) + admitted k buckets' cs

  -- Every check of the bucket carries the limit.
  abbrev pub HasLimit : BucketKey → ℕ → List Check → Type 0
  HasLimit k limit [] = Unit
  HasLimit k limit (c ∷ cs) = (is_for k c ≡ true → c.input.limit ≡ limit) × HasLimit k limit cs

  module _ (k : BucketKey) (buckets : Buckets) (c : Check) where
    abbrev after_check : Buckets
    after_check = (assert_allowed hash c.input c.now c.later buckets).0

    -- A check counts in its bucket.
    count_next : (o : Option Bucket) → (next_bucket c.input c.now o).count ≡ count_in o + 1
    unfolding next_bucket
    count_next none = refl
    count_next (some b) = refl

    limit_next : (o : Option Bucket) → (next_bucket c.input c.now o).limit ≡ c.input.limit
    unfolding next_bucket
    limit_next none = refl
    limit_next (some b) = refl

    count_same :
        is_for k c ≡ true → count_in (lookup k after_check) ≡ count_in (lookup k buckets) + 1
    unfolding assert_allowed
    count_same h =
        rw (lookup-put, h)
          (count_next _
            ∙ ap (λ j. count_in (lookup j buckets) + 1) ((bucket_key_Eq.beq_iff _ k).0 h))

    -- It leaves the other buckets.
    count_other : is_for k c ≡ false → lookup k after_check ≡ lookup k buckets
    unfolding assert_allowed
    count_other h = rw (lookup-put, h)

    -- It is allowed exactly while the count does not pass the limit.
    allowed-eq :
        (limit : ℕ)
        → is_for k c ≡ true
        → c.input.limit ≡ limit
        → is_allowed (assert_allowed hash c.input c.now c.later buckets).1
          ≡ not (ltb limit (count_in (lookup k buckets) + 1))
    unfolding assert_allowed verdict
    allowed-eq limit h at_limit =
        rw (count_next, limit_next, (bucket_key_Eq.beq_iff _ k).0 h)
          (is_allowed-if _ _ _ _ _ _ (ltb c.input.limit (count_in (lookup k buckets) + 1))
            ∙ ap (λ l. not (ltb l (count_in (lookup k buckets) + 1))) at_limit)

  -- The requests that a bucket admits are the first ones, up to its limit, whatever else is checked
  -- in between: with `n` counted before, those admitted and those before make the smaller of the
  -- limit and all that came.
  pub admitted-eq :
      (k : BucketKey) (limit : ℕ) (buckets : Buckets) (cs : List Check)
      → HasLimit k limit cs
      → admitted k buckets cs + min (count_in (lookup k buckets)) limit
        ≡ min (count_in (lookup k buckets) + checks_of k cs) limit
  unfolding admitted checks_of
  admitted-eq k limit buckets [] h = omega arith
  admitted-eq k limit buckets (c ∷ cs) (here, rest) = elim (Bool-cases (is_for k c)) [
    | inl same ↦
        rw (same, allowed-eq k buckets c limit same (here same))
          (admit_one (count_in (lookup k buckets)) limit (admitted k (after_check k buckets c) cs)
            (checks_of k cs)
            (rw (← count_same k buckets c same)
              (admitted-eq k limit (after_check k buckets c) cs rest)))
    | inr other ↦ rw other (
        omega (
          arith,
          ap count_in (count_other k buckets c other),
          admitted-eq k limit (after_check k buckets c) cs rest,
        ))
  ]
