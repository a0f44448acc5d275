-- ===== src/Academics/References.antt =====
-- What the services' own test of a UUID makes of a reference to an institution.
use acadid.Common.{
  ℕ, suc, ◌+◌, String, Option, none, some, find, List, [], ◌∷◌, All, true, false, ◌≡◌, ◌≢◌, refl,
  subst, inl, inr, ◌==◌, string_Eq, Bool-cases, arith,
}
use acadid.Common.Assoc.{lookup}
use acadid.Common.Text.{length_of, is_uuid, is_uuid_from}
use acadid.Common.Outcome.{ok, refuse, >>=-eq-ok}
use acadid.Authority.{Auth, is_api_key}
use acadid.Authority.Grants.{Institution}
use acadid.Academics.{Session, Register}
use acadid.Academics.Guards.{is_ref_from, is_ref_uuid, is_referenced}
use acadid.Academics.Sessions.{
  SessionChange, update_academic_session, existing_session, resolve_setup_institution,
  resolve_readable_institution,
}

is_ref_from-length : (i : ℕ) (s : String) → is_ref_from i s ≡ true → i + length_of s ≡ 32
unfolding is_ref_from length_of
is_ref_from-length i String.[] h = ground arith
is_ref_from-length i (String.◌∷◌ c s) h = ground (arith, is_ref_from-length (suc i) s)

is_uuid_from-length : (i : ℕ) (s : String) → is_uuid_from i s ≡ true → i + length_of s ≡ 36
unfolding is_uuid_from length_of
is_uuid_from-length i String.[] h = ground arith
is_uuid_from-length i (String.◌∷◌ c s) h = ground (arith, is_uuid_from-length (suc i) s)

absurd_lengths : (n : ℕ) → 0 + n ≡ 32 → 0 + n ≢ 36
absurd_lengths n a b = omega arith

-- A UUID is never taken for one by the services' own test.
pub is_ref_uuid-is_uuid : (s : String) → is_uuid s ≡ true → is_ref_uuid s ≡ false
unfolding is_uuid is_ref_uuid
is_ref_uuid-is_uuid s h = elim (Bool-cases (is_ref_from 0 s)) [
  | inl short ↦
      elim (absurd_lengths (length_of s) (is_ref_from-length 0 s short)
        (is_uuid_from-length 0 s h)) [ ]
  | inr long ↦ long
]

-- No institution has a public identifier that is a UUID.
abbrev pub HasPlainNames : List Institution → Type 0
HasPlainNames institutions = All (λ i. is_uuid i.institution_id ≡ false) institutions

find-is_referenced :
    (ref : String) (is : List Institution)
    → is_uuid ref ≡ true
    → HasPlainNames is
    → find (is_referenced ref) is ≡ none
unfolding is_referenced
find-is_referenced ref [] h p = refl
find-is_referenced ref (i ∷ is) h (p, ps) = elim (Bool-cases (i.institution_id == ref)) [
  | inl same ↦
      cc (subst (λ r. is_uuid r ≡ false) ((string_Eq.beq_iff i.institution_id ref).0 same) p, h)
  | inr other ↦ rw (is_ref_uuid-is_uuid ref h, other) (find-is_referenced ref is h ps)
]

read-by_uuid :
    (db : Register) (auth : Auth) (ref : String) {i : Institution}
    → is_uuid ref ≡ true
    → HasPlainNames db.institutions
    → resolve_readable_institution db auth ref ≢ ok i
unfolding resolve_readable_institution
read-by_uuid db auth ref u p h = cc (rw (find-is_referenced ref db.institutions u p) at h)

resolve-by_uuid :
    (db : Register) (auth : Auth) (ref : String) {i : Institution}
    → is_uuid ref ≡ true
    → HasPlainNames db.institutions
    → resolve_setup_institution db auth ref ≢ ok i
unfolding resolve_setup_institution
resolve-by_uuid db auth ref u p h =
    let (done, allowed, a) = >>=-eq-ok (refuse (is_api_key auth.kind) _) _ h in
    let (i, read, b) = >>=-eq-ok (resolve_readable_institution db auth ref) _ a in
    read-by_uuid db auth ref u p read

-- No update of a stored session is accepted, where the session names its institution by a UUID and
-- no institution has a UUID as its public identifier.
pub update_academic_session-by_uuid :
    (auth : Auth) (id : String) (body : Option SessionChange) (s : Session) (db : Register)
    {after : Register}
    → lookup id db.sessions ≡ some s
    → is_uuid s.institution_id ≡ true
    → HasPlainNames db.institutions
    → update_academic_session auth id body db ≢ ok after
unfolding update_academic_session existing_session
update_academic_session-by_uuid auth id none s db found u p h = cc
update_academic_session-by_uuid auth id (some input) s db found u p h =
    let (i, resolved, a) =
      >>=-eq-ok (resolve_setup_institution db auth s.institution_id) _ (rw found at h) in
    resolve-by_uuid db auth s.institution_id u p resolved
