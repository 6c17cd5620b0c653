-- ===== src/Sync/Served.antt =====
-- When a `push` returns: what its inserts need of the amounts and of the ids that the server draws.
use ulutekproje.Common.Result.{ok}
use ulutekproje.Common.{ℕ, ◌≡◌, refl, sym, some, Bool, true, false, List, [], ◌∷◌, ◌==◌, All}
use ulutekproje.Sync.Rows.{CloudTransaction, is_storable, has_id}
use ulutekproje.Sync.Merge.{upsert-ChangesTo, upsert-has_id, delete-has_id}
use ulutekproje.Sync.{
  SyncResult, PushOperation, upsert_operation, delete_operation, delete, apply, push,
}

-- An operation whose amount is stored and whose id no row has.
abbrev pub IsAdmitted : PushOperation → List CloudTransaction → Type 0
IsAdmitted (upsert_operation new_id now operation_id p) rows =
    (is_storable p ≡ true) × (has_id new_id rows ≡ false)
IsAdmitted (delete_operation now operation_id record_id stamp) rows = Unit

abbrev pub draws : ℕ → PushOperation → Bool
draws id (upsert_operation new_id now operation_id p) = new_id == id
draws id (delete_operation now operation_id record_id stamp) = false

-- Two operations that draw different ids, if both draw one.
abbrev pub IsApart : PushOperation → PushOperation → Type 0
IsApart o (upsert_operation new_id now operation_id p) = draws new_id o ≡ false
IsApart o (delete_operation now operation_id record_id stamp) = Unit

-- Amounts that are stored, and ids that neither a row nor another operation has.
abbrev pub IsServed : List PushOperation → List CloudTransaction → Type 0
IsServed [] rows = Unit
IsServed (o ∷ os) rows = IsAdmitted o rows × (All (IsApart o) os × IsServed os rows)

-- A table with no other new id than that of `o`.
pub IsServed-after :
    (o : PushOperation) (os : List PushOperation) (rows rows' : List CloudTransaction)
    → ((id : ℕ) → has_id id rows ≡ false → draws id o ≡ false → has_id id rows' ≡ false)
    → All (IsApart o) os
    → IsServed os rows
    → IsServed os rows'
IsServed-after o [] rows rows' keeps apart served = tt
IsServed-after o (upsert_operation n t i p ∷ os) rows rows' keeps apart ((stored, fresh), rest) =
    ((stored, keeps n fresh apart.0), (rest.0, IsServed-after o os rows rows' keeps apart.1 rest.1))
IsServed-after o (delete_operation t i c stamp ∷ os) rows rows' keeps apart (_, rest) =
    (tt, (rest.0, IsServed-after o os rows rows' keeps apart.1 rest.1))

apply-has_id :
    (u installation : ℕ) (o : PushOperation) (rows rows' : List CloudTransaction) (r : SyncResult)
    (id : ℕ)
    → apply u installation o rows ≡ ok (r, rows')
    → has_id id rows ≡ false
    → draws id o ≡ false
    → has_id id rows' ≡ false
unfolding apply
apply-has_id u installation (upsert_operation n t i p) rows rows' r id h absent other =
    upsert-has_id id n t u installation p (some i) rows rows' r h absent other
apply-has_id u installation (delete_operation t i c stamp) rows rows' r id h absent other =
    let same : (delete t u c stamp (some i) rows).1 ≡ rows' = cc h in
    rw (sym same) (delete-has_id id t u c stamp (some i) rows absent)

apply_returns :
    (u installation : ℕ) (o : PushOperation) (rows : List CloudTransaction)
    → IsAdmitted o rows
    → (r : SyncResult) × (rows' : List CloudTransaction) × (apply u installation o rows
        ≡ ok (r, rows'))
unfolding apply
apply_returns u installation (upsert_operation n t i p) rows (stored, fresh) =
    let (r, rows', e, _) =
      upsert-ChangesTo n t u installation p (some i) rows
        (record { stored = stored; fresh = λ _. fresh }) in
    (r, rows', e)
apply_returns u installation (delete_operation t i c stamp) rows admitted =
    ((delete t u c stamp (some i) rows).0, (delete t u c stamp (some i) rows).1, refl)

pub push_returns :
    (u installation : ℕ) (os : List PushOperation) (rows : List CloudTransaction)
    → IsServed os rows
    → (results : List SyncResult) × (rows' : List CloudTransaction) × (push u installation os rows
        ≡ ok (results, rows'))
unfolding push
push_returns u installation [] rows served = ([], rows, refl)
push_returns u installation (o ∷ os) rows (admitted, (apart, served)) =
    let (r, rows₁, e₁) = apply_returns u installation o rows admitted in
    let served₁ =
      IsServed-after o os rows rows₁
        (λ id absent other. apply-has_id u installation o rows rows₁ r id e₁ absent other) apart
        served in
    let (rs, rows₂, e₂) = push_returns u installation os rows₁ served₁ in
    (r ∷ rs, rows₂, cc (e₁, e₂))
