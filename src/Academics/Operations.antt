-- ===== src/Academics/Operations.antt =====
-- All the handlers of the register as operations, sequences of them, and what no sequence undoes.
use acadid.Common.{ℕ, String, Option, List, [], ◌∷◌, ◌≡◌, refl, string_Eq}
use acadid.Common.Outcome.{Outcome, ok, throw}
use acadid.Authority.{Auth}
use acadid.Academics.{Register}
use acadid.Academics.Rollover.{RolloverInput, FreshRows, confirm_rollover}
use acadid.Academics.Transfers.{
  TransferInput, FreshTransfer, ReviewTransferInput, create_transfer_request,
  review_transfer_request,
}
use acadid.Academics.Disputes.{DisputeInput, create_rollover_dispute, resolve_rollover_dispute}
use acadid.Academics.Reopen.{
  ReopenInput, ReviewReopenInput, request_sealed_session_reopen, review_sealed_session_reopen,
}
use acadid.Academics.Sessions.{
  SessionInput, SessionChange, create_academic_session, update_academic_session,
}
use acadid.Academics.Left.{IsClosed, Advances, Advances-refl, Advances-trans}
use acadid.Academics.Advance.{
  confirm_rollover-Advances, create_transfer_request-Advances, review_transfer_request-Advances,
}
use acadid.Academics.Aside.{
  create_rollover_dispute-Advances, resolve_rollover_dispute-Advances,
  request_sealed_session_reopen-Advances, review_sealed_session_reopen-Advances,
  create_academic_session-Advances, update_academic_session-Advances,
}

-- A call of a handler, with the clock and the identifiers that it draws.
pub data Operation : Type 0 where
  confirming : Auth → Option RolloverInput → ℕ → (ℕ → FreshRows) → Operation
  requesting_transfer : Auth → Option TransferInput → FreshTransfer → ℕ → Operation
  reviewing_transfer : Auth → String → Option ReviewTransferInput → String → ℕ → Operation
  disputing : Auth → String → Option DisputeInput → String → ℕ → Operation
  resolving : Auth → String → Option String → ℕ → Operation
  requesting_reopen : Auth → String → Option ReopenInput → String → ℕ → Operation
  reviewing_reopen : Auth → String → Option ReviewReopenInput → ℕ → Operation
  creating_session : Auth → Option SessionInput → String → Operation
  updating_session : Auth → String → Option SessionChange → Operation

unfoldable pub perform : Operation → Register → Outcome Register
perform (confirming auth body now fresh) db = confirm_rollover auth body now fresh db
perform (requesting_transfer auth body fresh now) db =
    create_transfer_request auth body fresh now db
perform (reviewing_transfer auth id body fresh now) db =
    review_transfer_request auth id body fresh now db
perform (disputing auth id body fresh now) db = create_rollover_dispute auth id body fresh now db
perform (resolving auth id body now) db = resolve_rollover_dispute auth id body now db
perform (requesting_reopen auth id body fresh now) db =
    request_sealed_session_reopen auth id body fresh now db
perform (reviewing_reopen auth id body now) db = review_sealed_session_reopen auth id body now db
perform (creating_session auth body fresh) db = create_academic_session auth body fresh db
perform (updating_session auth id body) db = update_academic_session auth id body db

-- An operation that throws leaves the register.
abbrev pub settle : Register → Outcome Register → Register
settle db (ok after) = after
settle db (throw e) = db

unfoldable pub run : List Operation → Register → Register
unfolding perform
run [] db = db
run (op ∷ ops) db = run ops (settle db (perform op db))

perform-Advances :
    (op : Operation) (db : Register) {after : Register}
    → IsClosed db
    → perform op db ≡ ok after
    → Advances db after
unfolding perform
perform-Advances (confirming auth body now fresh) db c h =
    confirm_rollover-Advances auth body now fresh db c h
perform-Advances (requesting_transfer auth body fresh now) db c h =
    create_transfer_request-Advances auth body fresh now db h
perform-Advances (reviewing_transfer auth id body fresh now) db c h =
    review_transfer_request-Advances auth id body fresh now db c h
perform-Advances (disputing auth id body fresh now) db c h =
    create_rollover_dispute-Advances auth id body fresh now db h
perform-Advances (resolving auth id body now) db c h =
    resolve_rollover_dispute-Advances auth id body now db h
perform-Advances (requesting_reopen auth id body fresh now) db c h =
    request_sealed_session_reopen-Advances auth id body fresh now db h
perform-Advances (reviewing_reopen auth id body now) db c h =
    review_sealed_session_reopen-Advances auth id body now db h
perform-Advances (creating_session auth body fresh) db c h =
    create_academic_session-Advances auth body fresh db h
perform-Advances (updating_session auth id body) db c h =
    update_academic_session-Advances auth id body db h

settle-Advances :
    (db : Register) (o : Outcome Register)
    → ((after : Register) → o ≡ ok after → Advances db after)
    → Advances db (settle db o)
settle-Advances db (ok after) h = h after refl
settle-Advances db (throw e) h = Advances-refl db

-- From a register in which each row stands under its identifier and each rollover record names an
-- ended enrolment, any sequence of operations leads to such a register, and every enrolment that had
-- ended is still there and still ended.
pub run-Advances : (ops : List Operation) (db : Register) → IsClosed db → Advances db (run ops db)
unfolding run
run-Advances [] db c = Advances-refl db
run-Advances (op ∷ ops) db c =
    let step = settle-Advances db (perform op db) (λ after h. perform-Advances op db c h) in
    Advances-trans step (run-Advances ops (settle db (perform op db)) (step.sound c))
