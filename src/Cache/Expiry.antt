-- ===== src/Cache/Expiry.antt =====
-- How long a value that was set is returned.
use acadid.Common.{
  ℕ, ◌+◌, ◌*◌, ◌<◌, ltb, leb, String, none, some, List, true, ◌≡◌, refl, inl, inr, string_Eq, arith,
  Bool-cases, if◌then◌else◌,
}
use acadid.Common.Assoc.{lookup-put_self}
use acadid.Cache.Entries.{Cache, set_local, set_value, get_value}

-- A value that is set with a time to live of seconds is returned from the key until that time is
-- over, whatever the key had before, and not from then on.
pub get_value-set_value {ℓ} :
    {V : Type ℓ} (key : String) (value : V) (ttl_seconds : ℕ) (tags : List String) (now later : ℕ)
    (cache : Cache V)
    → 0 < ttl_seconds
    → (get_value key later (set_value key value ttl_seconds tags now cache)).0
      ≡ (if leb (now + ttl_seconds * 1000) later then none else some value)
unfolding get_value set_value set_local
get_value-set_value key value ttl_seconds tags now later cache positive =
    let lives : ltb 0 ttl_seconds ≡ true = ground (arith, positive) in
    elim (Bool-cases (leb (now + ttl_seconds * 1000) later)) [
      | inl over ↦ rw (lives, lookup-put_self, over) refl
      | inr fresh ↦ rw (lives, lookup-put_self, fresh) refl
    ]
