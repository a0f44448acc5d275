-- ===== src/Authority/Grants.antt =====
-- `assertInstitutionCan`, `permissionAllows` and `institutionIdsForActor` of authority.service.ts.
use acadid.Common.{
  ℕ, ltb, leb, String, Option, none, some, List, [], ◌∷◌, map, filterb, find, Bool, true, false,
  not, ◌&&◌, ◌||◌, ◌==◌, string_Eq, if◌then◌else◌,
}
use acadid.Common.Json.{Json, null, bool, num, str, arr, obj, Items, nil, cons, get}
use acadid.Common.Text.{is_uuid}
use acadid.Common.Outcome.{Outcome, ok, throw, bad_request, ◌>>=◌, ◌>>◌, refuse}
use acadid.Authority.{
  acadid_super_admin, is_role, Auth, InstitutionUser, is_api_key,
  assert_actor_can_operate_institution,
}

-- An active grant, as the query loads it.
pub record Grant : Type 0 where
  pub uuid : String
  pub effective_from : ℕ
  pub expires_at : Option ℕ
  pub permissions : Json

-- The active grants stand in the order of the query, the newest first.
pub record Institution : Type 0 where
  pub uuid : String
  pub institution_id : String
  pub is_active : Bool
  pub grants : List Grant

abbrev pub is_true : Option Json → Bool
is_true (some (bool b)) = b
is_true (some null) = false
is_true (some (num n)) = false
is_true (some (str s)) = false
is_true (some (arr xs)) = false
is_true (some (obj fs)) = false
is_true none = false

abbrev pub is_text : Json → String → Bool
is_text (str s) text = s == text
is_text null text = false
is_text (bool b) text = false
is_text (num n) text = false
is_text (arr xs) text = false
is_text (obj fs) text = false

unfoldable pub includes : Items → String → Bool
includes nil text = false
includes (cons x xs) text = is_text x text || includes xs text

abbrev pub lists : Option Json → String → Bool
lists (some (arr xs)) text = includes xs text
lists (some null) text = false
lists (some (bool b)) text = false
lists (some (num n)) text = false
lists (some (str s)) text = false
lists (some (obj fs)) text = false
lists none text = false

-- `a ?? b`
abbrev pub or_else_json : Option Json → Option Json → Option Json
or_else_json none d = d
or_else_json (some null) d = d
or_else_json (some v) d = some v

unfoldable pub permission_allows : Json → String → Bool
permission_allows (obj record_) permission =
    (is_true (get "all" record_) || is_true (get permission record_))
    || lists (or_else_json (get "allowed" record_) (get "permissions" record_)) permission
permission_allows null permission = false
permission_allows (bool b) permission = false
permission_allows (num n) permission = false
permission_allows (str s) permission = false
permission_allows (arr xs) permission = false

abbrev pub is_unexpired : Option ℕ → ℕ → Bool
is_unexpired none now = true
is_unexpired (some t) now = ltb now t

abbrev pub grants_at : ℕ → String → Grant → Bool
grants_at now permission g =
    leb g.effective_from now
    && (is_unexpired g.expires_at now && permission_allows g.permissions permission)

-- `institutionWhere`
abbrev pub is_named : String → Institution → Bool
is_named ref i = (i.institution_id == ref) || (is_uuid ref && (i.uuid == ref))

abbrev pub found_institution : Option Institution → Outcome Institution
found_institution none = throw (bad_request "Institution not found.")
found_institution (some i) = ok i

abbrev pub assert_actor : List InstitutionUser → Option Auth → String → Outcome (Unit {0})
assert_actor users none institution = ok tt
assert_actor users (some actor) institution =
    assert_actor_can_operate_institution users actor institution

abbrev pub granted : Option Grant → Outcome Grant
granted none = throw (bad_request "Institution does not have authority.")
granted (some g) = ok g

-- The institution and the grant, of which the code returns the ids.
unfoldable pub assert_institution_can :
    List Institution
    → List InstitutionUser
    → String
    → String
    → Option Auth
    → ℕ
    → Outcome (Institution × Grant)
assert_institution_can institutions users ref permission actor now = do
  institution ← found_institution (find (is_named ref) institutions)
  refuse (not institution.is_active) (bad_request "Institution is suspended.")
  assert_actor users actor institution.uuid
  grant ← granted (find (grants_at now permission) institution.grants)
  ok (institution, grant)

abbrev pub is_member : Auth → InstitutionUser → Bool
is_member actor row =
    (row.user_id == actor.sub)
    && (is_role row.role actor.role && (row.is_active && row.institution_active))

abbrev pub one_or_none : Option String → List String
one_or_none none = []
one_or_none (some id) = id ∷ []

-- No list where the actor sees every institution.
unfoldable pub institution_ids_for_actor : List InstitutionUser → Auth → Option (List String)
institution_ids_for_actor users actor =
    if is_role actor.role acadid_super_admin
    then none
    else some (
        if is_api_key actor.kind
        then one_or_none actor.institution_uuid
        else map (λ row. row.institution_id) (filterb (is_member actor) users))
