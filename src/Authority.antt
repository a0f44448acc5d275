-- ===== src/Authority.antt =====
-- apps/api/src/modules/platform/services/authority.service.ts: who may act for an institution. The
-- rows of `InstitutionUser` that a query reads are a list, each with its institution's status.
pub mod Grants
pub mod Granted
use acadid.Common.{
  ℕ, Bool, true, false, ◌&&◌, ◌≡◌, ap, nat_Eq, String, Option, none, some, List, ◌==◌, string_Eq,
  find, if◌then◌else◌,
}
use acadid.Common.Outcome.{Outcome, ok, throw, forbidden}

pub data Role : Type 0 where
  acadid_super_admin registrar exam_officer data_entry_officer departmental_officer read_only
        student guardian verifier :
      Role

abbrev pub role_code : Role → ℕ
role_code acadid_super_admin = 0
role_code registrar = 1
role_code exam_officer = 2
role_code data_entry_officer = 3
role_code departmental_officer = 4
role_code read_only = 5
role_code student = 6
role_code guardian = 7
role_code verifier = 8

-- `a === b`
abbrev pub is_role : Role → Role → Bool
is_role a b = role_code a == role_code b

pub is_role_refl : (a b : Role) → a ≡ b → is_role a b ≡ true
is_role_refl a b e = (nat_Eq.beq_iff (role_code a) (role_code b)).1 (ap role_code e)

-- `kind?: "USER" | "API_KEY"`; a token without it is a user's.
pub data Kind : Type 0 where
  user api_key : Kind

-- The fields of `AuthTokenPayload` that the services read.
pub record Auth : Type 0 where
  pub sub : String
  pub role : Role
  pub kind : Kind
  pub institution_uuid : Option String
  pub institution_user_id : Option String
  pub api_key_id : Option String

pub record InstitutionUser : Type 0 where
  pub uuid : String
  pub user_id : String
  pub institution_id : String
  pub role : Role
  pub is_active : Bool
  pub institution_active : Bool

abbrev pub is_api_key : Kind → Bool
is_api_key api_key = true
is_api_key user = false

-- `a === b` where `a` may be undefined
abbrev pub is_some_eq : Option String → String → Bool
is_some_eq none b = false
is_some_eq (some a) b = a == b

-- `...(id ? { uuid: id } : {})` in a `where`
abbrev pub matches_id : Option String → String → Bool
matches_id none uuid = true
matches_id (some id) uuid = uuid == id

unfoldable pub is_membership : Auth → String → InstitutionUser → Bool
is_membership actor institution_id row =
    matches_id actor.institution_user_id row.uuid
    && (row.user_id == actor.sub
        && (row.institution_id == institution_id
            && (is_role row.role actor.role && (row.is_active && row.institution_active))))

abbrev pub or_forbidden : Option InstitutionUser → Outcome (Unit {0})
or_forbidden none = throw (forbidden "User is not assigned to this institution.")
or_forbidden (some row) = ok tt

unfoldable pub assert_actor_can_operate_institution :
    List InstitutionUser → Auth → String → Outcome (Unit {0})
assert_actor_can_operate_institution users actor institution_id =
    if is_role actor.role acadid_super_admin
    then ok tt
    else if is_api_key actor.kind
    then (if is_some_eq actor.institution_uuid institution_id
        then ok tt
        else throw (forbidden "API key is not assigned to this institution."))
    else or_forbidden (find (is_membership actor institution_id) users)
