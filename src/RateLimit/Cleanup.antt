-- ===== src/RateLimit/Cleanup.antt =====
-- `cleanupExpiredBuckets`, and the times of a window.
use acadid.Common.{
  ℕ, ◌+◌, ◌-◌, ◌*◌, ◌≤◌, ◌<◌, ltb, not, String, Option, none, some, [], ◌∷◌, true, false, ◌≡◌, refl,
  ap, ◌==◌, arith, inl, inr, filterb, Bool, Bool-cases, if◌then◌else◌,
}
use native.Mathlib.Nat.{div-add-mod', mod-lt}
use acadid.Common.Assoc.{lookup}
use acadid.Common.Number.{Number, clamp_number, clamp_number_bounds}
use acadid.RateLimit.Window.{
  BucketKey, bucket_key_Eq, Bucket, Buckets, CheckInput, allowed, too_many, window_seconds_of,
  window_start, bucket_key, next_bucket, verdict, assert_allowed,
}

abbrev pub older_than_hours : Option Number → ℕ
older_than_hours value = clamp_number value 1 720 24

abbrev pub cutoff : Option Number → ℕ → ℕ
cutoff value now = now - older_than_hours value * 60 * 60 * 1000

abbrev pub is_kept : ℕ → BucketKey × Bucket → Bool
is_kept limit (k, b) = not (ltb k.window_start limit)

unfoldable pub cleanup_expired_buckets : Option Number → ℕ → Buckets → Buckets
cleanup_expired_buckets value now buckets = filterb (is_kept (cutoff value now)) buckets

lookup-kept :
    (limit : ℕ) (k : BucketKey) (buckets : Buckets)
    → ltb k.window_start limit ≡ false
    → lookup k (filterb (is_kept limit) buckets) ≡ lookup k buckets
unfolding lookup
lookup-kept limit k [] h = refl
lookup-kept limit k ((j, b) ∷ buckets) h = elim (Bool-cases (ltb j.window_start limit)) [
  | inl expired ↦ elim (Bool-cases (j == k)) [
    | inl same ↦
        let e : j ≡ k = (bucket_key_Eq.beq_iff j k).0 same in
        cc (ap (λ i. ltb i.window_start limit) e, expired, h)
    | inr other ↦ rw (expired, other) (lookup-kept limit k buckets h)
  ]
  | inr kept ↦ rw kept (ap (λ r. if j == k then some b else r) (lookup-kept limit k buckets h))
]

window_start-le :
    (now w : ℕ) → 0 < w → (window_start now w ≤ now) × (now < window_start now w + w * 1000)
window_start-le now w h =
    omega (arith, div-add-mod' now (w * 1000), mod-lt now {m = w * 1000} (omega arith))

-- The window of a request is not before the cutoff of a cleanup that came first.
open_window :
    (value : Option Number) (cleaned now w : ℕ)
    → cleaned ≤ now
    → 0 < w
    → w ≤ 3600
    → ltb (window_start now w) (cutoff value cleaned) ≡ false
open_window value cleaned now w order pos hour = ground (
  arith,
  window_start-le now w pos,
  clamp_number_bounds value 1 720 24 (omega arith) (omega arith) (omega arith),
)

-- A cleanup takes no bucket of a window that is still open, so that no check is answered otherwise
-- after it: with windows of an hour at most, a check made at the cleanup or later gets the same
-- verdict with the cleanup as without.
pub verdict-cleanup :
    (hash : String → String) (value : Option Number) (cleaned now later : ℕ) (input : CheckInput)
    (buckets : Buckets)
    → cleaned ≤ now
    → 0 < window_seconds_of input
    → window_seconds_of input ≤ 3600
    → (assert_allowed hash input now later (cleanup_expired_buckets value cleaned buckets)).1
      ≡ (assert_allowed hash input now later buckets).1
unfolding assert_allowed cleanup_expired_buckets bucket_key
verdict-cleanup hash value cleaned now later input buckets order pos hour = rw (
    lookup-kept (cutoff value cleaned) (bucket_key hash input now) buckets
      (open_window value cleaned now (window_seconds_of input) order pos hour))

too_many-if :
    (b : Bool) (scope scope' : String) (limit limit' retry retry' reset_at reset_at' count left : ℕ)
    → (if b then too_many scope limit retry reset_at else allowed scope count limit left reset_at)
      ≡ too_many scope' limit' retry' reset_at'
    → (retry' ≡ retry) × (reset_at' ≡ reset_at)
too_many-if true _ _ _ _ _ _ _ _ _ _ h = ground arith
too_many-if false _ _ _ _ _ _ _ _ _ _ h = cc

window-next :
    (input : CheckInput) (now : ℕ) (o : Option Bucket)
    → (next_bucket input now o).window_seconds ≡ window_seconds_of input
unfolding next_bucket
window-next input now none = refl
window-next input now (some b) = refl

-- A refused request is told to wait between one second and the length of its window, and its
-- window ends after the request.
pub too_many_bounds :
    (hash : String → String) (input : CheckInput) (now later : ℕ) (buckets : Buckets)
    {scope : String} {limit retry reset_at : ℕ}
    → now ≤ later
    → 0 < window_seconds_of input
    → (assert_allowed hash input now later buckets).1 ≡ too_many scope limit retry reset_at
    → (1 ≤ retry) × (retry ≤ window_seconds_of input) × (now < reset_at)
unfolding assert_allowed verdict bucket_key
too_many_bounds hash input now later buckets order pos h =
    let b : Bucket = next_bucket input now (lookup (bucket_key hash input now) buckets) in
    let (wait, reset) =
      too_many-if (ltb b.limit b.count) input.scope _ b.limit _ _ _ _ _ b.count (b.limit - b.count)
        h in
    omega (
      arith,
      wait,
      reset,
      window-next input now (lookup (bucket_key hash input now) buckets),
      window_start-le now (window_seconds_of input) pos,
    )
