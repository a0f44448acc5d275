-- ===== src/Requests/Settled.antt =====
-- What no operation changes any more of a request that names a credential.
use acadid.Common.{
  String, some, List, ◌++◌, false, ◌≡◌, sym, subst, ◌∙◌, ◌⊎◌, inl, inr, ◌==◌, string_Eq, append-nil,
  filterb, filterb-append, Bool-cases,
}
use acadid.Common.Assoc.{lookup-put, lookup-put_self}
use acadid.Common.Number.{Number}
use acadid.Requests.{held, LedgerEntry, RecordRequest, World}
use acadid.Requests.Operations.{Operation, perform_all}
use acadid.Requests.Steps.{Stored, Step}
use acadid.Requests.Ledger.{IsSound, Wrote}
use acadid.Requests.Changes.{Change, Step-Change, Step-IsSound}
use acadid.Requests.History.{perform_all_induction}

-- The ledger's entries of a request.
abbrev pub entries_of : String → World → List LedgerEntry
entries_of id w = filterb (λ e. e.source_id == id) w.ledger

Stored-unique :
    (w : World) (id : String) {r q : RecordRequest} → Stored w id r → Stored w id q → r ≡ q
Stored-unique w id h k = cc (h, k)

Wrote-Stored : {w w' : World} {r q : RecordRequest} → Wrote w w' r q → Stored w' q.uuid q
Wrote-Stored {w} {q} wrote = rw wrote.rows (lookup-put_self q.uuid q w.requests)

entries-Wrote :
    {w w' : World} (id : String) {r q : RecordRequest} (wrote : Wrote w w' r q)
    → entries_of id w' ≡ entries_of id w ++ filterb (λ e. e.source_id == id) wrote.ls
entries-Wrote {w} id wrote = rw wrote.ledger (filterb-append _ w.ledger wrote.ls)

module _ {w w' : World} (id : String) (row : RecordRequest) (sound : IsSound w)
    (here : Stored w id row) where
  -- A change of the row that stands under `id`.
  track_same :
      (c : Change w w')
      → c.before.uuid ≡ id
      → (row' : RecordRequest) × Wrote w w' row row' × Stored w' id row'
  track_same c at =
      let stored : Stored w id c.before =
        subst (λ k. Stored w k c.before) (sym (sound.keyed c.id c.before c.here) ∙ at) c.here in
      (
        c.row,
        subst (λ r. Wrote w w' r c.row) (Stored-unique w id stored here) c.wrote,
        subst (λ k. Stored w' k c.row) (c.wrote.same_uuid ∙ at) (Wrote-Stored c.wrote),
      )

  track_other :
      (c : Change w w')
      → (c.before.uuid == id) ≡ false
      → Stored w' id row × (entries_of id w' ≡ entries_of id w)
  track_other c other = (
    rw (c.wrote.rows, lookup-put, c.wrote.same_uuid, other) here,
    entries-Wrote id c.wrote ∙ rw (c.wrote.elsewhere id other) (append-nil _),
  )

  -- A step leaves a given row and its ledger entries, or writes that row.
  track :
      Step w w'
      → (Stored w' id row × (entries_of id w' ≡ entries_of id w))
        ⊎ ((row' : RecordRequest) × Wrote w w' row row' × Stored w' id row')
  track step =
      let c : Change w w' = Step-Change step sound.table in
      elim (Bool-cases (c.before.uuid == id)) [
        | inl same ↦ inr (track_same c ((string_Eq.beq_iff c.before.uuid id).0 same))
        | inr other ↦ inl (track_other c other)
      ]

-- The request stands under `id`, names the credential, and has these ledger entries.
pub record Settled (id credential : String) (entries : List LedgerEntry) (w : World) : Type 0 where
  pub sound : IsSound w
  pub row : RecordRequest
  pub here : Stored w id row
  pub names : row.fulfilled_credential_id ≡ some credential
  pub history : entries_of id w ≡ entries

Step-Settled :
    {id credential : String} {entries : List LedgerEntry} (w w' : World)
    → Step w w'
    → Settled id credential entries w
    → Settled id credential entries w'
Step-Settled {id} {credential} w w' step h = elim (track id h.row h.sound h.here step) [
  | inl (here, history) ↦ record {
    sound = Step-IsSound step h.sound;
    row = h.row;
    here = here;
    names = h.names;
    history = history ∙ h.history;
  }
  | inr (row', wrote, here) ↦
      let (names, nothing) = wrote.settled credential h.names in
      record {
        sound = Step-IsSound step h.sound;
        row = row';
        here = here;
        names = names;
        history = entries-Wrote id wrote ∙ rw nothing (append-nil _) ∙ h.history;
      }
]

-- Once a request names a credential, no operations change that credential, and the ledger gets no
-- further entry of the request: its payment is not released again and not refunded.
pub perform_all-Settled :
    (number_of : String → Number) (ops : List Operation) (id credential : String)
    (entries : List LedgerEntry) (w : World)
    → Settled id credential entries w
    → Settled id credential entries (perform_all number_of ops w)
perform_all-Settled number_of ops id credential entries w =
    perform_all_induction number_of (Settled id credential entries) (Step-Settled) ops w

-- The same request, with a payment held in escrow.
pub record Stuck (id credential : String) (w : World) : Type 0 where
  pub sound : IsSound w
  pub row : RecordRequest
  pub here : Stored w id row
  pub names : row.fulfilled_credential_id ≡ some credential
  pub in_escrow : row.escrow_status ≡ held

Step-Stuck :
    {id credential : String} (w w' : World)
    → Step w w'
    → Stuck id credential w
    → Stuck id credential w'
Step-Stuck {id} {credential} w w' step h = elim (track id h.row h.sound h.here step) [
  | inl (here, history) ↦ record {
    sound = Step-IsSound step h.sound;
    row = h.row;
    here = here;
    names = h.names;
    in_escrow = h.in_escrow;
  }
  | inr (row', wrote, here) ↦ record {
    sound = Step-IsSound step h.sound;
    row = row';
    here = here;
    names = (wrote.settled credential h.names).0;
    in_escrow = wrote.stays_held credential h.names h.in_escrow;
  }
]

-- A payment that is held in escrow for a request that already names a credential stays held,
-- whatever operations follow: none of them releases or refunds it.
pub perform_all-Stuck :
    (number_of : String → Number) (ops : List Operation) (id credential : String) (w : World)
    → Stuck id credential w
    → Stuck id credential (perform_all number_of ops w)
perform_all-Stuck number_of ops id credential w =
    perform_all_induction number_of (Stuck id credential) (Step-Stuck) ops w
