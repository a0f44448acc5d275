-- ===== src/Common/Number.antt =====
-- JavaScript numbers, as far as the services tell them apart: a finite number from 0 is a fraction
-- (its floor is exact), and all that the code asks of one below 0 is that it is.
use Prim.Native.Nat.{ℕ, suc, ◌≤◌, ◌/◌, min, max}
use Prim.Native.String.{String}
use mathlib.Core.Option.{Option, none, some}
use native.Mathlib.Omega.{arith}

pub data Number : Type 0 where
  nan infinite negative : Number
  -- `ratio n d` is n / (d + 1).
  ratio : ℕ → ℕ → Number

-- A field of a JSON value, as the readers of numbers see it.
pub data Field : Type 0 where
  number : Number → Field
  text : String → Field
  other : Field

-- `Math.min(max, Math.max(min, Math.floor(value)))`, or the fallback where there is no finite value
unfoldable pub clamp_number : Option Number → ℕ → ℕ → ℕ → ℕ
clamp_number (some (ratio n d)) least most fallback = min most (max least (n / suc d))
clamp_number (some negative) least most fallback = min most least
clamp_number (some nan) least most fallback = fallback
clamp_number (some infinite) least most fallback = fallback
clamp_number none least most fallback = fallback

-- Whatever the value, the result lies in the range if the fallback does.
pub clamp_number_bounds :
    (value : Option Number) (least most fallback : ℕ)
    → least ≤ most
    → least ≤ fallback
    → fallback ≤ most
    → (least ≤ clamp_number value least most fallback)
      × (clamp_number value least most fallback ≤ most)
unfolding clamp_number
clamp_number_bounds (some (ratio n d)) least most fallback h k l = omega arith
clamp_number_bounds (some negative) least most fallback h k l = omega arith
clamp_number_bounds (some nan) least most fallback h k l = omega arith
clamp_number_bounds (some infinite) least most fallback h k l = omega arith
clamp_number_bounds none least most fallback h k l = omega arith
