-- ===== src/Examples/Authority.antt =====
-- An institution with a grant to publish results (authority.service.ts).
use acadid.Common.{none, some, [], ◌∷◌, true, ◌≡◌, ◌⊎◌, refl, string_Eq}
use mathlib.Core.List.{Memᴰ}
use acadid.Common.Text.{is_uuid}
use acadid.Common.Json.{bool, obj, end, field}
use acadid.Common.Outcome.{ok}
use acadid.Authority.Grants.{Grant, Institution, permission_allows, assert_institution_can}
use acadid.Authority.Granted.{Operates, IsGranted, assert_institution_can-IsGranted}

abbrev publishing : Grant
publishing = record {
  uuid = "g1";
  effective_from = 5;
  expires_at = some 100;
  permissions = obj (field "publish_results" (bool true) end);
}

abbrev school : Institution
school = record {
  uuid = "i1";
  institution_id = "ACI-1";
  is_active = true;
  grants = publishing ∷ [];
}

may_publish :
    assert_institution_can (school ∷ []) [] "ACI-1" "publish_results" none 10
    ≡ ok (school, publishing)
unfolding assert_institution_can permission_allows is_uuid
may_publish = refl

assert_institution_can-IsGranted_example :
    Memᴰ school (school ∷ [])
    × ((school.institution_id ≡ "ACI-1") ⊎ (school.uuid ≡ "ACI-1"))
    × (school.is_active ≡ true)
    × Operates [] school.uuid none
    × Memᴰ publishing school.grants
    × IsGranted publishing "publish_results" 10
assert_institution_can-IsGranted_example =
    assert_institution_can-IsGranted (school ∷ []) [] "ACI-1" "publish_results" none 10 school
      publishing may_publish
