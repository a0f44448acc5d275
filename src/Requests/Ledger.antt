-- ===== src/Requests/Ledger.antt =====
-- What the credentials and the revenue ledger record of a request, over every sequence of
-- operations.
use acadid.Common.{
  ℕ, ◌+◌, ◌≤◌, String, some, filterb, List, [], ◌++◌, Bool, true, false, ◌&&◌, ◌≡◌, sym, subst, ◌∙◌,
  ◌⊎◌, inl, inr, ◌==◌, string_Eq, arith, count, count-append, if◌then◌else◌,
}
use acadid.Common.Assoc.{put, IsTable, put-IsTable, lookup-put_cases}
use acadid.Requests.{
  EntryKind, release_entry, refund_entry, LedgerEntry, Credential, RecordRequest, World, held,
}
use acadid.Requests.Guards.{is_some}
use acadid.Requests.Steps.{Stored}

abbrev pub is_release : EntryKind → Bool
is_release release_entry = true
is_release refund_entry = false

-- How many credentials were issued for a request, and how many releases the ledger has of it.
abbrev pub credentials_of : String → World → ℕ
credentials_of id w = count (λ c. c.record_request_id == id) w.credentials

abbrev pub releases_of : String → World → ℕ
releases_of id w = count (λ e. is_release e.kind && e.source_id == id) w.ledger

abbrev pub issued : RecordRequest → ℕ
issued r = if is_some r.fulfilled_credential_id then 1 else 0

-- The rows are a table under `uuid`; a request has one credential exactly when it names one, and
-- its payment was released at most then, and once.
pub record IsSound (w : World) : Type 0 where
  pub table : IsTable w.requests
  pub keyed : (id : String) (r : RecordRequest) → Stored w id r → r.uuid ≡ id
  pub one_credential :
      (id : String) (r : RecordRequest) → Stored w id r → credentials_of id w ≡ issued r
  pub one_release : (id : String) (r : RecordRequest) → Stored w id r → releases_of id w ≤ issued r

-- What an operation leaves: one row written, credentials and ledger entries added.
pub record Wrote (w w' : World) (r row : RecordRequest) : Type 0 where
  pub cs : List Credential
  pub ls : List LedgerEntry
  pub same_uuid : row.uuid ≡ r.uuid
  pub rows : w'.requests ≡ put row.uuid row w.requests
  pub credentials : w'.credentials ≡ w.credentials ++ cs
  pub ledger : w'.ledger ≡ w.ledger ++ ls
  pub issue :
      (j : String)
      → count (λ c. c.record_request_id == j) cs + (if r.uuid == j then issued r else 0)
        ≡ (if r.uuid == j then issued row else 0)
  pub release :
      (j : String)
      → count (λ e. is_release e.kind && e.source_id == j) ls
          + (if r.uuid == j then issued r else 0)
        ≤ (if r.uuid == j then issued row else 0)
  pub elsewhere : (j : String) → (r.uuid == j) ≡ false → filterb (λ e. e.source_id == j) ls ≡ []
  -- A request that names a credential keeps it, and its money no longer moves.
  pub settled :
      (c : String)
      → r.fulfilled_credential_id ≡ some c
      → (row.fulfilled_credential_id ≡ some c) × (ls ≡ [])
  pub stays_held :
      (c : String)
      → r.fulfilled_credential_id ≡ some c
      → r.escrow_status ≡ held
      → row.escrow_status ≡ held

module _ {w w' : World} {r row : RecordRequest} (id : String) (sound : IsSound w)
    (here : Stored w id r) (wrote : Wrote w w' r row) where
  pub row_at : row.uuid ≡ id
  row_at = wrote.same_uuid ∙ sound.keyed id r here

  pub Stored-cases :
      (j : String) (q : RecordRequest)
      → Stored w' j q
      → ((r.uuid ≡ j) × (q ≡ row)) ⊎ (((r.uuid == j) ≡ false) × Stored w j q)
  Stored-cases j q h = elim (lookup-put_cases row.uuid j row w.requests (rw wrote.rows at h)) [
    | inl (same, e) ↦ inl (sym wrote.same_uuid ∙ same, e)
    | inr (other, e) ↦ inr (rw wrote.same_uuid at other, e)
  ]

  credentials-wrote :
      (j : String)
      → credentials_of j w' ≡ credentials_of j w + count (λ c. c.record_request_id == j) wrote.cs
  credentials-wrote j = rw wrote.credentials (count-append _ w.credentials wrote.cs)

  releases-wrote :
      (j : String)
      → releases_of j w'
        ≡ releases_of j w + count (λ e. is_release e.kind && e.source_id == j) wrote.ls
  releases-wrote j = rw wrote.ledger (count-append _ w.ledger wrote.ls)

  -- At the row's own key.
  moved : (P : String → Type 0) (j : String) → r.uuid ≡ j → P id → P j
  moved P j same p = subst P (sym (sound.keyed id r here) ∙ same) p

  credentials_new : (j : String) → r.uuid ≡ j → credentials_of j w' ≡ issued row
  credentials_new j same =
      let old : credentials_of j w ≡ issued r =
        moved (λ k. credentials_of k w ≡ issued r) j same (sound.one_credential id r here) in
      omega (
        arith,
        credentials-wrote j,
        old,
        rw ((string_Eq.beq_iff r.uuid j).1 same) at (wrote.issue j),
      )

  releases_new : (j : String) → r.uuid ≡ j → releases_of j w' ≤ issued row
  releases_new j same =
      let old : releases_of j w ≤ issued r =
        moved (λ k. releases_of k w ≤ issued r) j same (sound.one_release id r here) in
      omega (
        arith,
        releases-wrote j,
        old,
        rw ((string_Eq.beq_iff r.uuid j).1 same) at (wrote.release j),
      )

  -- At any other key.
  credentials_old : (j : String) → (r.uuid == j) ≡ false → credentials_of j w' ≡ credentials_of j w
  credentials_old j other = omega (arith, credentials-wrote j, rw other at (wrote.issue j))

  releases_old : (j : String) → (r.uuid == j) ≡ false → releases_of j w' ≡ releases_of j w
  releases_old j other = omega (arith, releases-wrote j, rw other at (wrote.release j))

  pub wrote-IsSound : IsSound w'
  wrote-IsSound = record {
    table = rw wrote.rows (put-IsTable row.uuid row w.requests sound.table);
    keyed = λ j q h. elim (Stored-cases j q h) [
      | inl (same, e) ↦ rw e (wrote.same_uuid ∙ same)
      | inr (other, e) ↦ sound.keyed j q e
    ];
    one_credential = λ j q h. elim (Stored-cases j q h) [
      | inl (same, e) ↦ rw e (credentials_new j same)
      | inr (other, e) ↦ rw (credentials_old j other) (sound.one_credential j q e)
    ];
    one_release = λ j q h. elim (Stored-cases j q h) [
      | inl (same, e) ↦ rw e (releases_new j same)
      | inr (other, e) ↦ rw (releases_old j other) (sound.one_release j q e)
    ];
  }
