-- ===== src/RateLimit/Window.antt =====
-- `assertAllowed`: fixed windows, counted in the table of buckets. Times are milliseconds; `hash` is
-- the digest of a key.
use acadid.Common.{
  ℕ, ◌+◌, ◌-◌, ◌*◌, ◌/◌, max, ltb, nat_eq_iff, ◌&&◌, ◌≡◌, ◌↔◌, String, Option, none, some, Bool,
  true, Eq, ◌==◌, string_Eq, nat_Eq, arith, coalesce, if◌then◌else◌,
}
use acadid.Common.Assoc.{Assoc, lookup, put}

pub record BucketKey : Type 0 where
  pub scope : String
  pub bucket_key_hash : String
  pub window_start : ℕ

abbrev pub same_key : BucketKey → BucketKey → Bool
same_key a b =
    (a.scope == b.scope)
    && ((a.bucket_key_hash == b.bucket_key_hash) && (a.window_start == b.window_start))

pub same_key_iff : (a b : BucketKey) → (same_key a b ≡ true) ↔ (a ≡ b)
same_key_iff a b = ground (
  arith,
  string_Eq.beq_iff a.scope b.scope,
  string_Eq.beq_iff a.bucket_key_hash b.bucket_key_hash,
  nat_eq_iff a.window_start b.window_start,
)

instance abbrev pub bucket_key_Eq : Eq BucketKey
bucket_key_Eq = record { beq = same_key; beq_iff = same_key_iff }

-- A row of `RateLimitBucket` behind its unique key.
pub record Bucket : Type 0 where
  pub count : ℕ
  pub limit : ℕ
  pub window_seconds : ℕ
  pub first_request_at : ℕ
  pub last_request_at : ℕ

abbrev pub Buckets : Type 0
Buckets = Assoc BucketKey Bucket

pub record CheckInput : Type 0 where
  pub scope : String
  pub key : String
  pub limit : ℕ
  pub window_seconds : Option ℕ

-- What the check returns, or throws as status 429.
pub data Verdict : Type 0 where
  allowed : (scope : String) → (count limit remaining reset_at : ℕ) → Verdict
  too_many : (scope : String) → (limit retry_after_seconds reset_at : ℕ) → Verdict

abbrev pub window_seconds_of : CheckInput → ℕ
window_seconds_of input = coalesce input.window_seconds 60

-- `Math.floor(now / (w * 1000)) * w * 1000`
abbrev pub window_start : ℕ → ℕ → ℕ
window_start now w = now / (w * 1000) * (w * 1000)

unfoldable pub bucket_key : (String → String) → CheckInput → ℕ → BucketKey
bucket_key hash input now = record {
  scope = input.scope;
  bucket_key_hash = hash input.key;
  window_start = window_start now (window_seconds_of input);
}

-- The row that the upsert leaves.
unfoldable pub next_bucket : CheckInput → ℕ → Option Bucket → Bucket
next_bucket input now (some b) = record b {
  count = b.count + 1;
  limit = input.limit;
  window_seconds = window_seconds_of input;
  last_request_at = now;
}
next_bucket input now none = record {
  count = 1;
  limit = input.limit;
  window_seconds = window_seconds_of input;
  first_request_at = now;
  last_request_at = now;
}

-- `Math.ceil(ms / 1000)`
abbrev pub ceil_seconds : ℕ → ℕ
ceil_seconds ms = (ms + 999) / 1000

-- `later` is the clock when the answer is made.
unfoldable pub verdict : CheckInput → BucketKey → Bucket → ℕ → Verdict
verdict input key b later =
    let reset_at = key.window_start + b.window_seconds * 1000 in
    if ltb b.limit b.count
    then too_many input.scope b.limit (max 1 (ceil_seconds (reset_at - later))) reset_at
    else allowed input.scope b.count b.limit (b.limit - b.count) reset_at

module _ (hash : String → String) where
  unfoldable pub assert_allowed : CheckInput → ℕ → ℕ → Buckets → Buckets × Verdict
  assert_allowed input now later buckets =
      let key = bucket_key hash input now in
      let b = next_bucket input now (lookup key buckets) in
      (put key b buckets, verdict input key b later)
