-- ===== src/Examples/Sessions.antt =====
-- A session created as the current one, and a request to reopen a sealed session
-- (ingestion.service.ts and governance.service.ts).
use acadid.Common.{
  String, none, some, [], true, false, ◌≡◌, refl, sym, subst, inl, inr, string_Eq, arith,
}
use acadid.Common.Assoc.{lookup, put, remove, lookup-put_cases}
use acadid.Common.Text.{trim, trim_start, trim_end, is_space, is_hex}
use acadid.Common.Outcome.{ok}
use acadid.Authority.{assert_actor_can_operate_institution}
use acadid.Academics.{session_active, sealed, term, Session, Register, audited}
use acadid.Academics.Guards.{is_ref_uuid, is_ref_from, is_ref_char, is_referenced}
use acadid.Academics.Reopen.{ReopenInput, active_session, reopen_row, request_sealed_session_reopen}
use acadid.Academics.Sessions.{
  SessionInput, is_current_of, is_taken, clear_current, write_session, create_session, session_row,
  resolve_setup_institution, resolve_readable_institution, create_academic_session,
}
use acadid.Academics.Operations.{creating_session, requesting_reopen, perform, settle}
use acadid.Academics.Current.{IsSingle, put-IsSingle}
use acadid.Academics.Single.{perform-IsSingle}
use acadid.Academics.Reopened.{IsOnce, perform-IsOnce}
use acadid.Examples.Academics.{founder, year, empty}

abbrev this_year : Session
this_year = record (year "s1") { is_current = true }

abbrev last_year : Session
last_year = record (year "s0") { status = sealed }

abbrev calendar : Register
calendar = record empty { sessions = put "s1" this_year (put "s0" last_year []) }

none-IsSingle : IsSingle []
unfolding lookup
none-IsSingle = record { keyed = λ k s h. cc; one_current = λ i j k s t a b p q. cc }

past :
    (k i : String) (t : Session)
    → lookup k (put "s0" last_year []) ≡ some t
    → is_current_of i t ≡ false
unfolding lookup
past k i t h = elim (lookup-put_cases "s0" k last_year [] h) [
  | inl (same, new) ↦ subst (λ x. is_current_of i x ≡ false) (sym new) (ground arith)
  | inr (ne, old) ↦ cc
]

calendar-IsSingle : IsSingle calendar.sessions
unfolding lookup
calendar-IsSingle =
    put-IsSingle this_year (put "s0" last_year [])
      (put-IsSingle last_year [] none-IsSingle (λ k i t h o c. cc)) (λ k i t h o c. past k i t h)

abbrev next_year : SessionInput
next_year = record {
  institution_id = "ACI-1";
  session_label = " 2026/27 ";
  period_type = term;
  period_label = "First";
  start_date = none;
  end_date = none;
  status = session_active;
  is_current = true;
}

abbrev turned : Register
turned = settle calendar (create_academic_session founder (some next_year) "s2" calendar)

turns : perform (creating_session founder (some next_year) "s2") calendar ≡ ok turned
unfolding perform create_academic_session resolve_setup_institution resolve_readable_institution
    is_referenced is_ref_uuid is_ref_from is_ref_char is_hex assert_actor_can_operate_institution
    create_session write_session session_row is_taken clear_current lookup put remove audited trim
    trim_start trim_end is_space
turns = refl

perform-IsSingle_example : IsSingle turned.sessions
perform-IsSingle_example =
    perform-IsSingle (creating_session founder (some next_year) "s2") calendar refl
      calendar-IsSingle turns

abbrev correction : ReopenInput
correction = record { reason = "A grade was wrong."; requested_status = session_active }

abbrev asked : Register
asked =
    settle calendar (request_sealed_session_reopen founder "s0" (some correction) "q1" 50 calendar)

asks : perform (requesting_reopen founder "s0" (some correction) "q1" 50) calendar ≡ ok asked
unfolding perform request_sealed_session_reopen active_session reopen_row
    assert_actor_can_operate_institution lookup put remove audited
asks = refl

calendar-IsOnce : IsOnce calendar
calendar-IsOnce session = omega arith

perform-IsOnce_example : IsOnce asked
perform-IsOnce_example =
    perform-IsOnce (requesting_reopen founder "s0" (some correction) "q1" 50) calendar refl
      calendar-IsOnce asks
