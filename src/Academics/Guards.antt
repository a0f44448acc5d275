-- ===== src/Academics/Guards.antt =====
-- What the handlers check first: `resolveHumanInstitution`, `assertRolloverScope` and
-- `assertDecisionTarget`, and the test of a UUID that governance.service.ts has of its own.
use Prim.Native.Char.{code}
use acadid.Common.{
  ℕ, suc, leb, nat_eq, String, Option, none, some, find, Bool, true, false, not, ◌&&◌, ◌||◌, ◌==◌,
  string_Eq, if_some, if◌then◌else◌,
}
use acadid.Common.Assoc.{lookup}
use acadid.Common.Text.{is_hex}
use acadid.Common.Outcome.{Outcome, ok, throw, bad_request, forbidden, refuse, ◌>>=◌, ◌>>◌}
use acadid.Authority.{Auth, is_api_key, assert_actor_can_operate_institution}
use acadid.Authority.Grants.{Institution}
use acadid.Academics.{Session, is_sealed, Structure, Decision, promote, repeat, Register}

-- What stands at a position of `xxxxxxxx-xxxx-[1-5]xxx-[89ab]xxxxxxxxxxxx`.
unfoldable pub is_ref_char : ℕ → ℕ → Bool
unfolding is_hex
is_ref_char i c =
    if nat_eq i 8 || (nat_eq i 13 || nat_eq i 18)
    then nat_eq c b'-'
    else if nat_eq i 14
    then leb b'1' c && leb c b'5'
    else if nat_eq i 19
    then nat_eq c b'8'
      || (nat_eq c b'9' || (nat_eq c b'a' || (nat_eq c b'b' || (nat_eq c b'A' || nat_eq c b'B'))))
    else is_hex c

unfoldable pub is_ref_from : ℕ → String → Bool
unfolding is_ref_char
is_ref_from i String.[] = nat_eq i 32
is_ref_from i (String.◌∷◌ c s) = is_ref_char i (code c) && is_ref_from (suc i) s

-- `isUuid` of the service
unfoldable pub is_ref_uuid : String → Bool
unfolding is_ref_from
is_ref_uuid s = is_ref_from 0 s

-- `institutionRefWhere`
unfoldable pub is_referenced : String → Institution → Bool
is_referenced ref i = if is_ref_uuid ref then i.uuid == ref else i.institution_id == ref

abbrev pub active_institution : Option Institution → Outcome Institution
active_institution none = throw (bad_request "Active institution not found.")
active_institution (some i) =
    if i.is_active then ok i else throw (bad_request "Active institution not found.")

unfoldable pub resolve_human_institution : Register → Auth → String → Outcome Institution
resolve_human_institution db auth ref = do
  refuse (is_api_key auth.kind)
      (forbidden "Human institution session is required for governance actions.")
  institution ← active_institution (find (is_referenced ref) db.institutions)
  assert_actor_can_operate_institution db.users auth institution.uuid
  ok institution

-- `!session || session.institutionId !== institutionId || session.status === "SEALED"`
abbrev pub bad_session : String → Option Session → Bool
bad_session institution none = true
bad_session institution (some s) = not (s.institution_id == institution) || is_sealed s.status

abbrev pub bad_structure : String → Option Structure → Bool
bad_structure institution none = true
bad_structure institution (some s) = not (s.institution_id == institution) || not s.is_active

abbrev pub bad_session_id : Register → String → Option String → Bool
bad_session_id db institution none = false
bad_session_id db institution (some id) = bad_session institution (lookup id db.sessions)

abbrev pub bad_structure_id : Register → String → Option String → Bool
bad_structure_id db institution none = false
bad_structure_id db institution (some id) = bad_structure institution (lookup id db.structures)

pub record RolloverScope : Type 0 where
  pub from_session_id : String
  pub to_session_id : Option String
  pub from_structure_id : Option String
  pub to_structure_id : Option String

unfoldable pub assert_rollover_scope : Register → String → RolloverScope → Outcome (Unit {0})
assert_rollover_scope db institution input = do
  refuse (bad_session institution (lookup input.from_session_id db.sessions))
      (bad_request "Source academic session must belong to the institution and must not be sealed.")
  refuse (bad_session_id db institution input.to_session_id)
      (bad_request "Target academic session must belong to the institution and must not be sealed.")
  refuse (bad_structure_id db institution input.from_structure_id)
      (bad_request "Source academic structure must be active and belong to the institution.")
  refuse (bad_structure_id db institution input.to_structure_id)
      (bad_request "Target academic structure must be active and belong to the institution.")

-- Whether the learner goes on at the institution.
abbrev pub continues : Decision → Bool
continues promote = true
continues repeat = true
continues _ = false

unfoldable pub assert_decision_target :
    Register → String → Decision → Option String → Option String → Outcome (Unit {0})
assert_decision_target db institution decision to_session to_structure =
    if continues decision
    then if_some to_session
        (throw (bad_request "The rollover decision requires a target academic session."))
        (λ id. assert_rollover_scope db institution (record {
          from_session_id = id;
          to_session_id = some id;
          from_structure_id = none;
          to_structure_id = to_structure;
        }))
    else ok tt
