-- ===== src/Sync.antt =====
-- backend/app/services/sync_service.py, `push` with `_upsert` and `_delete`, and the statements of
-- backend/app/repositories/cloud_transactions.py that they run.
-- The table `cloud_transactions` is unique in (user_id, client_record_id), so a statement on that key
-- is one on the first such row. The row's columns that a client sends are its field `payload`. The
-- hash of an installation is a number; `new_id` and `now` are what `uuid4` and `utc_now` return.
pub mod Rows
pub mod Merge
pub mod Served
pub mod Correct
pub mod Retry
pub mod Cursor
pub mod Pull
pub mod Paging
pub mod Collect
pub mod Claim
pub mod Idempotent
mod PullTests
mod ClaimTests
mod Tests
use ulutekproje.Common.Result.{Result, ok, err, ◌>>=◌, ◌>>◌, raise_if}
use ulutekproje.Common.{
  ℕ, suc, String, Option, none, some, Bool, true, false, not, ◌&&◌, List, [], ◌∷◌, ◌==◌, ltb,
  is_none, if◌then◌else◌,
}
use ulutekproje.Sync.Rows.{
  TransactionSyncPayload, CloudTransaction, get_for_user, change_row, is_storable, has_id,
  matches_payload, upserted, inserted, tombstone,
}

-- `RuntimeError("Cloud transaction disappeared during upsert")`, and what an insert raises for an
-- amount that the column does not take and for an id that a row has.
pub data SyncError : Type 0 where
  disappeared data_error integrity_error : SyncError

pub data SyncStatus : Type 0 where
  created updated unchanged deleted conflict : SyncStatus

pub record SyncResult : Type 0 where
  pub operation_id : Option String
  pub client_record_id : ℕ
  pub status : SyncStatus
  pub server_updated_at : ℕ

-- `_result`
abbrev pub result_of : CloudTransaction → SyncStatus → Option String → SyncResult
result_of row status operation_id = record {
  operation_id = operation_id;
  client_record_id = (row.payload).client_record_id;
  status = status;
  server_updated_at = row.updated_at;
}

-- `try_insert`: on a conflict of the key nothing happens. The values are checked before that, the
-- primary key behind it.
unfoldable pub try_insert :
    CloudTransaction
    → List CloudTransaction
    → Result SyncError (Option CloudTransaction × List CloudTransaction)
unfolding has_id
try_insert row table = do
  raise_if (not (is_storable row.payload)) data_error
  elim (get_for_user row.user_id (row.payload).client_record_id table) [
    | none ↦ do raise_if (has_id row.id table) integrity_error; ok (some row, row ∷ table)
    | some existing ↦ ok (none, table)
  ]

-- `update ... where client_updated_at < ... returning`, of `update_if_newer` and `delete_if_newer`.
unfoldable pub change_if_newer :
    ℕ
    → ℕ
    → ℕ
    → (CloudTransaction → CloudTransaction)
    → List CloudTransaction
    → Option CloudTransaction × List CloudTransaction
change_if_newer user_id record_id client_updated_at change table =
    elim (get_for_user user_id record_id table) [
      | none ↦ (none, table)
      | some row ↦
          if ltb (row.payload).client_updated_at client_updated_at
          then (some (change row), change_row user_id record_id change table)
          else (none, table)
    ]

-- The status of an upsert that neither inserts nor updates.
abbrev pub kept_status : TransactionSyncPayload → CloudTransaction → SyncStatus
kept_status payload existing =
    if ltb payload.client_updated_at (existing.payload).client_updated_at
    then conflict
    else if payload.client_updated_at == (existing.payload).client_updated_at
    then (if matches_payload existing payload && is_none existing.deleted_at
        then unchanged
        else conflict)
    else conflict

unfoldable pub upsert :
    (new_id now user_id installation : ℕ) (payload : TransactionSyncPayload)
    (operation_id : Option String) (table : List CloudTransaction)
    → Result SyncError (SyncResult × List CloudTransaction)
unfolding try_insert change_if_newer matches_payload
upsert new_id now user_id installation payload operation_id table = do
  insert ← try_insert (inserted new_id now user_id installation payload) table
  let update =
      change_if_newer user_id payload.client_record_id payload.client_updated_at
        (upserted now installation payload) insert.1
  elim insert.0 [
    | some row ↦ ok (result_of row created operation_id, insert.1)
    | none ↦ elim update.0 [
      | some row ↦ ok (result_of row updated operation_id, update.1)
      | none ↦ elim (get_for_user user_id payload.client_record_id update.1) [
        | none ↦ err disappeared
        | some existing ↦
            ok (result_of existing (kept_status payload existing) operation_id, update.1)
      ]
    ]
  ]

-- The status of a delete that changes nothing.
abbrev pub kept_deletion : ℕ → CloudTransaction → SyncStatus
kept_deletion client_updated_at existing =
    if ltb client_updated_at (existing.payload).client_updated_at
    then conflict
    else if client_updated_at == (existing.payload).client_updated_at
    then (if is_none existing.deleted_at then conflict else unchanged)
    else conflict

unfoldable pub delete :
    (now user_id record_id client_updated_at : ℕ) (operation_id : Option String)
    (table : List CloudTransaction)
    → SyncResult × List CloudTransaction
unfolding change_if_newer
delete now user_id record_id client_updated_at operation_id table =
    let change =
      change_if_newer user_id record_id client_updated_at (tombstone now client_updated_at) table in
    elim change.0 [
      | some row ↦ (result_of row deleted operation_id, change.1)
      | none ↦ elim (get_for_user user_id record_id change.1) [
        | none ↦ (
          record {
            operation_id = operation_id;
            client_record_id = record_id;
            status = unchanged;
            server_updated_at = now;
          },
          change.1,
        )
        | some existing ↦
            (result_of existing (kept_deletion client_updated_at existing) operation_id, change.1)
      ]
    ]

-- `PushOperation`, with the id and the instant of its turn in the loop of `push`.
pub data PushOperation : Type 0 where
  upsert_operation :
      (new_id now : ℕ) (operation_id : String) (payload : TransactionSyncPayload) → PushOperation
  delete_operation :
      (now : ℕ) (operation_id : String) (record_id client_updated_at : ℕ) → PushOperation

-- One turn of the loop.
unfoldable pub apply :
    ℕ
    → ℕ
    → PushOperation
    → List CloudTransaction
    → Result SyncError (SyncResult × List CloudTransaction)
unfolding upsert delete
apply user_id installation (upsert_operation new_id now operation_id payload) table =
    upsert new_id now user_id installation payload (some operation_id) table
apply user_id installation (delete_operation now operation_id record_id client_updated_at) table =
    ok (delete now user_id record_id client_updated_at (some operation_id) table)

-- The loop of `push`, with the results in the order of the operations.
unfoldable pub push :
    ℕ
    → ℕ
    → List PushOperation
    → List CloudTransaction
    → Result SyncError (List SyncResult × List CloudTransaction)
unfolding apply
push user_id installation [] table = ok ([], table)
push user_id installation (operation ∷ operations) table = do
  turn ← apply user_id installation operation table
  rest ← push user_id installation operations turn.1
  ok (turn.0 ∷ rest.0, rest.1)
