-- ===== src/Authority/Granted.antt =====
-- What `assertInstitutionCan` of authority.service.ts has checked when it lets an institution do
-- something.
use acadid.Common.{
  ℕ, ◌≤◌, ◌<◌, leb, String, Option, none, some, List, [], ◌∷◌, find, Bool, true, false, not, ◌&&◌,
  ◌≡◌, ◌⊎◌, refl, sym, subst, ap, ◌∙◌, inl, inr, ◌==◌, string_Eq, Bool-cases, arith, some-eq-some,
  if◌then◌else◌,
}
use mathlib.Core.List.{Memᴰ}
use acadid.Common.Json.{Json, null, bool, num, str, arr, obj, Items, nil, cons, Fields, get}
use acadid.Common.Outcome.{
  Outcome, ok, throw, refuse, forbidden, >>=-eq-ok, refuse-eq-ok, ok-injective,
}
use acadid.Authority.{
  Role, acadid_super_admin, registrar, exam_officer, data_entry_officer, departmental_officer,
  read_only, student, guardian, verifier, is_role, Auth, InstitutionUser, api_key, user, Kind,
  is_api_key, is_some_eq, matches_id, is_membership, or_forbidden,
  assert_actor_can_operate_institution,
}
use acadid.Authority.Grants.{
  Grant, Institution, is_true, is_text, includes, lists, or_else_json, permission_allows,
  is_unexpired, grants_at, is_named, found_institution, assert_actor, granted,
  assert_institution_can,
}

find-some {ℓ} :
    {A : Type ℓ} (p : A → Bool) (xs : List A) {a : A}
    → find p xs ≡ some a
    → Memᴰ a xs × (p a ≡ true)
find-some p [] h = cc
find-some p (x ∷ xs) {a} h = elim (Bool-cases (p x)) [
  | inl e ↦
      let same : x ≡ a = some-eq-some (rw e at h) in (Memᴰ.head (sym same), ap p (sym same) ∙ e)
  | inr e ↦ let (there, holds) = find-some p xs (rw e at h) in (Memᴰ.tail there, holds)
]

found_institution-eq-ok :
    (o : Option Institution) {i : Institution} → found_institution o ≡ ok i → o ≡ some i
found_institution-eq-ok none h = cc
found_institution-eq-ok (some i) h = cc

granted-eq-ok : (o : Option Grant) {g : Grant} → granted o ≡ ok g → o ≡ some g
granted-eq-ok none h = cc
granted-eq-ok (some g) h = cc

not-eq-false : (b : Bool) → not b ≡ false → b ≡ true
not-eq-false true h = refl
not-eq-false false h = cc

admin_role : (r : Role) → is_role r acadid_super_admin ≡ true → r ≡ acadid_super_admin
admin_role acadid_super_admin h = refl
admin_role registrar h = cc
admin_role exam_officer h = cc
admin_role data_entry_officer h = cc
admin_role departmental_officer h = cc
admin_role read_only h = cc
admin_role student h = cc
admin_role guardian h = cc
admin_role verifier h = cc

-- A list of texts holds a text.
pub data Lists : Items → String → Type 0 where
  first : (text : String) (xs : Items) → Lists (cons (str text) xs) text
  later : (x : Json) (xs : Items) (text : String) → Lists xs text → Lists (cons x xs) text

-- What the permissions of a grant say: all is allowed, or the permission is, by a field of its name
-- or in a list.
pub data Allows (fs : Fields) (permission : String) : Type 0 where
  all_allowed : get "all" fs ≡ some (bool true) → Allows fs permission
  named_allowed : get permission fs ≡ some (bool true) → Allows fs permission
  in_allowed :
      (xs : Items) → get "allowed" fs ≡ some (arr xs) → Lists xs permission → Allows fs permission
  in_permissions :
      (xs : Items)
      → get "permissions" fs ≡ some (arr xs)
      → Lists xs permission
      → Allows fs permission

is_true-eq : (o : Option Json) → is_true o ≡ true → o ≡ some (bool true)
is_true-eq none h = cc
is_true-eq (some (bool true)) h = refl
is_true-eq (some (bool false)) h = cc
is_true-eq (some null) h = cc
is_true-eq (some (num n)) h = cc
is_true-eq (some (str s)) h = cc
is_true-eq (some (arr xs)) h = cc
is_true-eq (some (obj fs)) h = cc

is_text-Lists :
    (x : Json) (xs : Items) (text : String) → is_text x text ≡ true → Lists (cons x xs) text
is_text-Lists (str s) xs text h =
    subst (λ t. Lists (cons (str t) xs) text) (sym ((string_Eq.beq_iff s text).0 h)) (first text xs)
is_text-Lists null xs text h = cc
is_text-Lists (bool b) xs text h = cc
is_text-Lists (num n) xs text h = cc
is_text-Lists (arr ys) xs text h = cc
is_text-Lists (obj fs) xs text h = cc

includes-Lists : (xs : Items) (text : String) → includes xs text ≡ true → Lists xs text
unfolding includes
includes-Lists nil text h = cc
includes-Lists (cons x xs) text h = elim (Bool-cases (is_text x text)) [
  | inl here ↦ is_text-Lists x xs text here
  | inr other ↦ later x xs text (includes-Lists xs text (rw other at h))
]

lists-Lists :
    (o : Option Json) (text : String)
    → lists o text ≡ true
    → (xs : Items) × (o ≡ some (arr xs)) × Lists xs text
lists-Lists (some (arr xs)) text h = (xs, refl, includes-Lists xs text h)
lists-Lists none text h = cc
lists-Lists (some null) text h = cc
lists-Lists (some (bool b)) text h = cc
lists-Lists (some (num n)) text h = cc
lists-Lists (some (str s)) text h = cc
lists-Lists (some (obj fs)) text h = cc

or_else_json_cases :
    (a b : Option Json) {v : Json} → or_else_json a b ≡ some v → (a ≡ some v) ⊎ (b ≡ some v)
or_else_json_cases none b h = inr h
or_else_json_cases (some null) b h = inr h
or_else_json_cases (some (bool x)) b h = inl h
or_else_json_cases (some (num x)) b h = inl h
or_else_json_cases (some (str x)) b h = inl h
or_else_json_cases (some (arr x)) b h = inl h
or_else_json_cases (some (obj x)) b h = inl h

listed-Allows :
    (fs : Fields) (permission : String)
    → lists (or_else_json (get "allowed" fs) (get "permissions" fs)) permission ≡ true
    → Allows fs permission
listed-Allows fs permission h =
    let (xs, e, l) =
      lists-Lists (or_else_json (get "allowed" fs) (get "permissions" fs)) permission h in
    elim (or_else_json_cases (get "allowed" fs) (get "permissions" fs) e) [
      | inl a ↦ in_allowed xs a l
      | inr p ↦ in_permissions xs p l
    ]

permission-Allows :
    (permissions : Json) (permission : String)
    → permission_allows permissions permission ≡ true
    → (fs : Fields) × (permissions ≡ obj fs) × Allows fs permission
unfolding permission_allows
permission-Allows (obj fs) permission h = (
  fs,
  refl,
  elim (Bool-cases (is_true (get "all" fs))) [
    | inl all ↦ all_allowed (is_true-eq (get "all" fs) all)
    | inr not_all ↦ elim (Bool-cases (is_true (get permission fs))) [
      | inl named ↦ named_allowed (is_true-eq (get permission fs) named)
      | inr unnamed ↦ listed-Allows fs permission (rw (not_all, unnamed) at h)
    ]
  ],
)
permission-Allows null permission h = cc
permission-Allows (bool b) permission h = cc
permission-Allows (num n) permission h = cc
permission-Allows (str s) permission h = cc
permission-Allows (arr xs) permission h = cc

-- Who may act for an institution: nobody is asked, a super admin, an API key of the institution, or
-- a user with an active membership under the same role.
pub data Operates (users : List InstitutionUser) (institution : String) : Option Auth → Type 0 where
  unasked : Operates users institution none
  super_admin :
      (actor : Auth) → actor.role ≡ acadid_super_admin → Operates users institution (some actor)
  key :
      (actor : Auth)
      → actor.kind ≡ api_key
      → actor.institution_uuid ≡ some institution
      → Operates users institution (some actor)
  member :
      (actor : Auth) (row : InstitutionUser)
      → Memᴰ row users
      → row.user_id ≡ actor.sub
      → row.institution_id ≡ institution
      → is_role row.role actor.role ≡ true
      → (actor.institution_user_id ≡ none) ⊎ (actor.institution_user_id ≡ some row.uuid)
      → row.is_active ≡ true
      → row.institution_active ≡ true
      → Operates users institution (some actor)

-- A grant is in force and allows it.
pub record IsGranted (g : Grant) (permission : String) (now : ℕ) : Type 0 where
  pub started : g.effective_from ≤ now
  pub unexpired : (g.expires_at ≡ none) ⊎ ((t : ℕ) × (g.expires_at ≡ some t) × (now < t))
  pub fields : Fields
  pub permissions : g.permissions ≡ obj fields
  pub allows : Allows fields permission

three_cases :
    (a b : ℕ) (o : Option ℕ) (p : Bool)
    → (leb a b && (is_unexpired o b && p)) ≡ true
    → (a ≤ b) × (is_unexpired o b ≡ true) × (p ≡ true)
three_cases a b o p h = ground arith

unexpired_cases :
    (o : Option ℕ) (now : ℕ)
    → is_unexpired o now ≡ true
    → (o ≡ none) ⊎ ((t : ℕ) × (o ≡ some t) × (now < t))
unexpired_cases none now h = inl refl
unexpired_cases (some t) now h = inr (t, refl, ground arith)

grants_at-IsGranted :
    (now : ℕ) (permission : String) (g : Grant)
    → grants_at now permission g ≡ true
    → IsGranted g permission now
grants_at-IsGranted now permission g h =
    let (started, unexpired, allowed) =
      three_cases g.effective_from now g.expires_at (permission_allows g.permissions permission)
        h in
    let (fs, permissions, allows) = permission-Allows g.permissions permission allowed in
    record {
      started = started;
      unexpired = unexpired_cases g.expires_at now unexpired;
      fields = fs;
      permissions = permissions;
      allows = allows;
    }

named_cases :
    (ref : String) (i : Institution)
    → is_named ref i ≡ true
    → (i.institution_id ≡ ref) ⊎ (i.uuid ≡ ref)
named_cases ref i h = elim (Bool-cases (i.institution_id == ref)) [
  | inl e ↦ inl ((string_Eq.beq_iff i.institution_id ref).0 e)
  | inr other ↦ elim (Bool-cases (i.uuid == ref)) [
    | inl e ↦ inr ((string_Eq.beq_iff i.uuid ref).0 e)
    | inr differs ↦ ground arith
  ]
]

some_eq_cases : (o : Option String) (s : String) → is_some_eq o s ≡ true → o ≡ some s
some_eq_cases none s h = cc
some_eq_cases (some a) s h = ap some ((string_Eq.beq_iff a s).0 h)

api_key_cases : (k : Kind) → is_api_key k ≡ true → k ≡ api_key
api_key_cases api_key h = refl
api_key_cases user h = cc

matches_cases : (o : Option String) (s : String) → matches_id o s ≡ true → (o ≡ none) ⊎ (o ≡ some s)
matches_cases none s h = inl refl
matches_cases (some a) s h = inr (ap some (sym ((string_Eq.beq_iff s a).0 h)))

six_cases :
    (a b c d e f : Bool)
    → (a && (b && (c && (d && (e && f))))) ≡ true
    → (a ≡ true) × (b ≡ true) × (c ≡ true) × (d ≡ true) × (e ≡ true) × (f ≡ true)
six_cases a b c d e f h = ground arith

forbidden_cases :
    (o : Option InstitutionUser) → or_forbidden o ≡ ok tt → (row : InstitutionUser) × (o ≡ some row)
forbidden_cases none h = cc
forbidden_cases (some row) h = (row, refl)

member-Operates :
    (users : List InstitutionUser) (actor : Auth) (institution : String)
    → or_forbidden (find (is_membership actor institution) users) ≡ ok tt
    → Operates users institution (some actor)
unfolding is_membership
member-Operates users actor institution h =
    let (row, found) = forbidden_cases (find (is_membership actor institution) users) h in
    let (listed, holds) = find-some (is_membership actor institution) users found in
    let (m, u, i, r, a, b) =
      six_cases (matches_id actor.institution_user_id row.uuid) (row.user_id == actor.sub)
        (row.institution_id == institution) (is_role row.role actor.role) row.is_active
        row.institution_active holds in
    member actor row listed ((string_Eq.beq_iff row.user_id actor.sub).0 u)
      ((string_Eq.beq_iff row.institution_id institution).0 i) r
      (matches_cases actor.institution_user_id row.uuid m) a b

key-Operates :
    (users : List InstitutionUser) (actor : Auth) (institution : String)
    → actor.kind ≡ api_key
    → ◌≡◌ {A = Outcome (Unit {0})}
        (if is_some_eq actor.institution_uuid institution
          then ok tt
          else throw (forbidden "API key is not assigned to this institution."))
        (ok tt)
    → Operates users institution (some actor)
key-Operates users actor institution kind h =
    elim (Bool-cases (is_some_eq actor.institution_uuid institution)) [
      | inl e ↦ key actor kind (some_eq_cases actor.institution_uuid institution e)
      | inr other ↦ cc (rw other at h)
    ]

assert_actor-Operates :
    (users : List InstitutionUser) (actor : Option Auth) (institution : String)
    → assert_actor users actor institution ≡ ok tt
    → Operates users institution actor
unfolding assert_actor_can_operate_institution
assert_actor-Operates users none institution h = unasked
assert_actor-Operates users (some actor) institution h =
    elim (Bool-cases (is_role actor.role acadid_super_admin)) [
      | inl admin ↦ super_admin actor (admin_role actor.role admin)
      | inr other ↦ elim (Bool-cases (is_api_key actor.kind)) [
        | inl k ↦
            key-Operates users actor institution (api_key_cases actor.kind k) (rw (other, k) at h)
        | inr u ↦ member-Operates users actor institution (rw (other, u) at h)
      ]
    ]

-- When an institution is let do something, it is an active institution whose id or uuid the
-- reference is; the actor, if there is one, is a super admin, an API key of the institution, or a
-- user with an active membership in it under the actor's role; and one of its grants has started,
-- has not expired, and allows all or the permission by its field or its lists.
pub assert_institution_can-IsGranted :
    (institutions : List Institution) (users : List InstitutionUser) (ref permission : String)
    (actor : Option Auth) (now : ℕ) (i : Institution) (g : Grant)
    → assert_institution_can institutions users ref permission actor now ≡ ok (i, g)
    → Memᴰ i institutions
      × ((i.institution_id ≡ ref) ⊎ (i.uuid ≡ ref))
      × (i.is_active ≡ true)
      × Operates users i.uuid actor
      × Memᴰ g i.grants
      × IsGranted g permission now
unfolding assert_institution_can
assert_institution_can-IsGranted institutions users ref permission actor now i g h =
    let (j, found, h₁) = >>=-eq-ok (found_institution (find (is_named ref) institutions)) _ h in
    let (u, active, h₂) = >>=-eq-ok (refuse (not j.is_active) _) _ h₁ in
    let (v, acts, h₃) = >>=-eq-ok (assert_actor users actor j.uuid) _ h₂ in
    let (k, grant, h₄) = >>=-eq-ok (granted (find (grants_at now permission) j.grants)) _ h₃ in
    let (named, is_it) =
      find-some (is_named ref) institutions
        (found_institution-eq-ok (find (is_named ref) institutions) found) in
    let (listed, in_force) =
      find-some (grants_at now permission) j.grants
        (granted-eq-ok (find (grants_at now permission) j.grants) grant) in
    subst
      (λ p.
        Memᴰ p.0 institutions
        × ((p.0.institution_id ≡ ref) ⊎ (p.0.uuid ≡ ref))
        × (p.0.is_active ≡ true)
        × Operates users p.0.uuid actor
        × Memᴰ p.1 p.0.grants
        × IsGranted p.1 permission now)
      (sym (ok-injective h₄))
      (
        named,
        named_cases ref j is_it,
        not-eq-false j.is_active (refuse-eq-ok (not j.is_active) _ active),
        assert_actor-Operates users actor j.uuid acts,
        listed,
        grants_at-IsGranted now permission k in_force,
      )
