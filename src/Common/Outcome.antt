-- ===== src/Common/Outcome.antt =====
-- What a handler returns or throws. The exceptions are the framework's classes that the services
-- throw, each with its message; `non_retryable` is the jobs' own class.
use Prim.Native.String.{String}
use mathlib.Core.Path.{◌≡◌, refl}
use mathlib.Core.Bool.{Bool, true, false}
use mathlib.Core.Option.{Option, none, some}
use acadid.Common.Lists.{if_some}

pub data Exception : Type 0 where
  bad_request forbidden conflict unauthorized : String → Exception
  too_many_requests : String → Exception
  non_retryable plain_error : String → Exception

pub data Outcome {ℓ} (A : Type ℓ) : Type ℓ where
  ok : A → Outcome A
  throw : Exception → Outcome A

infixl 5 ◌>>=◌ ◌>>◌
abbrev pub ◌>>=◌ {ℓ κ} : {R : Type ℓ} {S : Type κ} → Outcome R → (R → Outcome S) → Outcome S
throw e >>= next = throw e
ok r >>= next = next r

abbrev pub ◌>>◌ {ℓ} : {S : Type ℓ} → Outcome (Unit {0}) → Outcome S → Outcome S
first >> next = first >>= λ done. next

-- `if (!b) throw e`
abbrev pub require : Bool → Exception → Outcome (Unit {0})
require true e = ok tt
require false e = throw e

-- `if (b) throw e`
abbrev pub refuse : Bool → Exception → Outcome (Unit {0})
refuse true e = throw e
refuse false e = ok tt

-- Inversion of what did not throw.
pub >>=-eq-ok {ℓ κ} :
    {R : Type ℓ} {S : Type κ} (first : Outcome R) (next : R → Outcome S) {s : S}
    → (first >>= next) ≡ ok s
    → (r : R) × (first ≡ ok r) × (next r ≡ ok s)
>>=-eq-ok (throw e) next h = cc
>>=-eq-ok (ok r) next h = (r, refl, h)

pub refuse-eq-ok : (b : Bool) (e : Exception) {u : Unit {0}} → refuse b e ≡ ok u → b ≡ false
refuse-eq-ok true e h = cc
refuse-eq-ok false e h = refl

pub ok-injective {ℓ} : {A : Type ℓ} {a b : A} → ok a ≡ ok b → b ≡ a
ok-injective h = cc

-- A test that throws, and what comes after it.
pub guarded-eq-ok {ℓ} :
    {S : Type ℓ} (b : Bool) (e : Exception) (next : Outcome S) {s : S}
    → (refuse b e >> next) ≡ ok s
    → (b ≡ false) × (next ≡ ok s)
guarded-eq-ok true e next h = cc
guarded-eq-ok false e next h = (refl, h)

-- A check that throws, and what comes after it.
pub >>-eq-ok {ℓ} :
    {S : Type ℓ} (first : Outcome (Unit {0})) (next : Outcome S) {s : S}
    → (first >> next) ≡ ok s
    → (first ≡ ok tt) × (next ≡ ok s)
>>-eq-ok (throw e) next h = cc
>>-eq-ok (ok tt) next h = (refl, h)

-- A row that has to be there, and one that must not be there.
pub present-eq-ok {ℓ κ} :
    {A : Type ℓ} {S : Type κ} (o : Option A) (e : Exception) (next : A → Outcome S) {s : S}
    → if_some o (throw e) next ≡ ok s
    → (a : A) × (o ≡ some a) × (next a ≡ ok s)
present-eq-ok none e next h = cc
present-eq-ok (some a) e next h = (a, refl, h)

pub absent-eq-ok {ℓ κ} :
    {A : Type ℓ} {S : Type κ} (o : Option A) (e : Exception) (next : Outcome S) {s : S}
    → if_some o next (λ a. throw e) ≡ ok s
    → (o ≡ none) × (next ≡ ok s)
absent-eq-ok none e next h = (refl, h)
absent-eq-ok (some a) e next h = cc

abbrev pub message_of : Exception → String
message_of (bad_request m) = m
message_of (forbidden m) = m
message_of (conflict m) = m
message_of (unauthorized m) = m
message_of (too_many_requests m) = m
message_of (non_retryable m) = m
message_of (plain_error m) = m
