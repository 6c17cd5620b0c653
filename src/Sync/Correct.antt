-- ===== src/Sync/Correct.antt =====
-- The rows that a `push` leaves, by the merge of its operations.
use ulutekproje.Common.Result.{ok, Result-cases}
use ulutekproje.Common.{
  ℕ, suc, String, ◌≤◌, ◌<◌, ◌≡◌, refl, sym, ap, subst, ◌∙◌, ◌⊎◌, inl, inr, Option, none, some, Bool,
  true, false, List, [], ◌∷◌, arith, ◌==◌, ltb, length, All, Bool-cases, if◌then◌else◌,
}
use ulutekproje.Sync.Rows.{
  TransactionSyncPayload, CloudTransaction, get_for_user, upserted, tombstone,
}
use ulutekproje.Sync.Merge.{
  newer, merge_upsert, merge, merge_all, upsert-Admits, upsert-ChangesTo, delete-ChangesTo,
}
use ulutekproje.Sync.Served.{IsServed, push_returns}
use ulutekproje.Sync.{SyncResult, PushOperation, upsert_operation, delete_operation, apply, push}

-- The rows of a table into which operations of the user `u` were merged.
abbrev pub IsMerged :
    ℕ
    → (ℕ → Option CloudTransaction → Option CloudTransaction)
    → List CloudTransaction
    → List CloudTransaction
    → Type 0
IsMerged u change rows rows' =
    (u' c : ℕ)
    → get_for_user u' c rows'
      ≡ (if u' == u then change c (get_for_user u' c rows) else get_for_user u' c rows)

apply-IsMerged :
    (u installation : ℕ) (o : PushOperation) (rows rows₁ : List CloudTransaction) (r : SyncResult)
    → apply u installation o rows ≡ ok (r, rows₁)
    → IsMerged u (merge u installation o) rows rows₁
unfolding apply merge
apply-IsMerged u installation (upsert_operation new_id now operation_id p) rows rows₁ r h =
    let admits = upsert-Admits new_id now u installation p (some operation_id) rows rows₁ r h in
    let (r', rows', e, changes) =
      upsert-ChangesTo new_id now u installation p (some operation_id) rows admits in
    let same : rows' ≡ rows₁ = cc (e, h) in rw (sym same) (λ u' c. changes u' c ∙ ground arith)
apply-IsMerged u installation (delete_operation now operation_id record_id stamp) rows rows₁ r h =
    let (r', rows', e, changes) = delete-ChangesTo now u record_id stamp (some operation_id) rows in
    let same : rows' ≡ rows₁ = cc (e, h) in rw (sym same) (λ u' c. changes u' c ∙ ground arith)

-- A push that returns.
push_merges :
    (u installation : ℕ) (os : List PushOperation) (rows rows' : List CloudTransaction)
    (results : List SyncResult)
    → push u installation os rows ≡ ok (results, rows')
    → (length results ≡ length os) × IsMerged u (merge_all u installation os) rows rows'
unfolding push merge_all
push_merges u installation [] rows rows' results h =
    let none_done : [] ≡ results = cc h in
    let same : rows ≡ rows' = cc h in rw (sym none_done, sym same) (refl, λ u' c. ground arith)
push_merges u installation (o ∷ os) rows rows' results h =
    elim (Result-cases (apply u installation o rows)) [
      | inr (x, raised) ↦ absurd (cc (raised, h))
      | inl ((r, rows₁), e₁) ↦ elim (Result-cases (push u installation os rows₁)) [
        | inr (x, raised) ↦ absurd (cc (e₁, raised, h))
        | inl ((rs, rows₂), e₂) ↦
            let merged₁ = apply-IsMerged u installation o rows rows₁ r e₁ in
            let (count, merged₂) = push_merges u installation os rows₁ rows₂ rs e₂ in
            let all_done : r ∷ rs ≡ results = cc (e₁, e₂, h) in
            let same : rows₂ ≡ rows' = cc (e₁, e₂, h) in
            rw (sym all_done, sym same)
              (ap suc count, λ u' c. merged₂ u' c ∙ ground (arith, merged₁ u' c))
      ]
    ]

-- A push of amounts that are stored, for which the server draws ids that no row has and no two of
-- which are equal, does not raise, gives one result for each operation, and leaves in every row of
-- the user what the operations, one after the other, merge into it; rows of other users stay.
pub push-IsMerged :
    (u installation : ℕ) (os : List PushOperation) (rows : List CloudTransaction)
    → IsServed os rows
    → (results : List SyncResult) × (rows' : List CloudTransaction) × (push u installation os rows
        ≡ ok (results, rows'))
      × (length results ≡ length os)
      × IsMerged u (merge_all u installation os) rows rows'
push-IsMerged u installation os rows served =
    let (results, rows', e) = push_returns u installation os rows served in
    let (count, merged) = push_merges u installation os rows rows' results e in
    (results, rows', e, count, merged)

-- The client's instant of an operation, and its record.
abbrev pub stamp_of : PushOperation → ℕ
stamp_of (upsert_operation new_id now operation_id p) = p.client_updated_at
stamp_of (delete_operation now operation_id record_id stamp) = stamp

-- Whether an operation is an upsert of the record `c`.
abbrev pub upserts : ℕ → PushOperation → Bool
upserts c (upsert_operation new_id now operation_id p) = c == p.client_record_id
upserts c (delete_operation now operation_id record_id stamp) = false

-- A row that is at least as new as an instant.
abbrev pub IsSince : ℕ → Option CloudTransaction → Type 0
IsSince t none = ⊥
IsSince t (some row) = t ≤ (row.payload).client_updated_at

newer_since :
    (t stamp : ℕ) (change : CloudTransaction → CloudTransaction) (row : CloudTransaction)
    → ((change row).payload).client_updated_at ≡ stamp
    → t ≤ (row.payload).client_updated_at
    → t ≤ ((newer stamp change row).payload).client_updated_at
newer_since t stamp change row e h = elim (Bool-cases (ltb (row.payload).client_updated_at stamp)) [
  | inl older ↦ rw older (ground (arith, older, e, h))
  | inr kept ↦ rw kept h
]

-- No operation makes a row older.
merge-IsSince :
    (u installation t c : ℕ) (o : PushOperation) (row : Option CloudTransaction)
    → IsSince t row
    → IsSince t (merge u installation o c row)
unfolding merge
merge-IsSince u installation t c o none h = absurd h
merge-IsSince u installation t c (upsert_operation new_id now operation_id p) (some row) h =
    elim (Bool-cases (c == p.client_record_id)) [
      | inl same ↦
          rw same (newer_since t p.client_updated_at (upserted now installation p) row refl h)
      | inr other ↦ rw other h
    ]
merge-IsSince u installation t c (delete_operation now operation_id record_id stamp) (some row) h =
    elim (Bool-cases (c == record_id)) [
      | inl same ↦ rw same (newer_since t stamp (tombstone now stamp) row refl h)
      | inr other ↦ rw other h
    ]

merge_all-IsSince :
    (u installation t c : ℕ) (os : List PushOperation) (row : Option CloudTransaction)
    → IsSince t row
    → IsSince t (merge_all u installation os c row)
unfolding merge_all
merge_all-IsSince u installation t c [] row h = h
merge_all-IsSince u installation t c (o ∷ os) row h =
    merge_all-IsSince u installation t c os (merge u installation o c row)
      (merge-IsSince u installation t c o row h)

-- An upsert leaves a row that is at least as new as itself.
merge-upserts :
    (u installation c : ℕ) (o : PushOperation) (row : Option CloudTransaction)
    → upserts c o ≡ true
    → IsSince (stamp_of o) (merge u installation o c row)
unfolding merge
merge-upserts u installation c (delete_operation now operation_id record_id stamp) row h = cc
merge-upserts u installation c (upsert_operation new_id now operation_id p) none h =
    rw h (omega arith)
merge-upserts u installation c (upsert_operation new_id now operation_id p) (some row) h =
    rw h (elim (Bool-cases (ltb (row.payload).client_updated_at p.client_updated_at)) [
      | inl older ↦ rw older (omega arith)
      | inr kept ↦ rw kept (ground (arith, kept))
    ])

-- An operation that is no upsert of the record `c`, or that the row is at least as new as.
abbrev pub IsHeeded : ℕ → Option CloudTransaction → PushOperation → Type 0
IsHeeded c row o = (upserts c o ≡ false) ⊎ IsSince (stamp_of o) row

merge_all-IsHeeded :
    (u installation c : ℕ) (os : List PushOperation) (row : Option CloudTransaction)
    → All (IsHeeded c (merge_all u installation os c row)) os
unfolding merge_all
merge_all-IsHeeded u installation c [] row = tt
merge_all-IsHeeded u installation c (o ∷ os) row = (
  elim (Bool-cases (upserts c o)) [
    | inl h ↦ inr (
        merge_all-IsSince u installation (stamp_of o) c os (merge u installation o c row)
          (merge-upserts u installation c o row h))
    | inr h ↦ inl h
  ],
  merge_all-IsHeeded u installation c os (merge u installation o c row),
)

-- After a push the row of every record that it upserts is there, at least as new as each of these
-- upserts by the clients' clocks; and no row of the user has become older than it was.
pub push_newest :
    (u installation : ℕ) (os : List PushOperation) (rows rows' : List CloudTransaction)
    (results : List SyncResult) (c : ℕ)
    → push u installation os rows ≡ ok (results, rows')
    → All (IsHeeded c (get_for_user u c rows')) os
      × ((t : ℕ) → IsSince t (get_for_user u c rows) → IsSince t (get_for_user u c rows'))
push_newest u installation os rows rows' results c h =
    let (count, merged) = push_merges u installation os rows rows' results h in
    let self : (u == u) ≡ true = ground arith in
    let row : get_for_user u c rows' ≡ merge_all u installation os c (get_for_user u c rows) =
      merged u c ∙ cc self in
    (
      subst (λ r. All (IsHeeded c r) os) (sym row)
          (merge_all-IsHeeded u installation c os (get_for_user u c rows)),
      λ t since.
          subst (IsSince t) (sym row)
            (merge_all-IsSince u installation t c os (get_for_user u c rows) since),
    )

-- The payload of a row, and whether it is deleted.
abbrev pub content : Option CloudTransaction → Option (TransactionSyncPayload × Option ℕ)
content none = none
content (some row) = some (row.payload, row.deleted_at)

upserts_commute :
    (u i n₁ n₂ t₁ t₂ : ℕ) (p q : TransactionSyncPayload) (row : Option CloudTransaction)
    → p.client_updated_at < q.client_updated_at
    → content (merge_upsert n₂ t₂ u i q (merge_upsert n₁ t₁ u i p row))
      ≡ content (merge_upsert n₁ t₁ u i p (merge_upsert n₂ t₂ u i q row))
upserts_commute u i n₁ n₂ t₁ t₂ p q none lt =
    let a : ltb p.client_updated_at q.client_updated_at ≡ true = ground (arith, lt) in
    let b : ltb q.client_updated_at p.client_updated_at ≡ false = ground (arith, lt) in cc (a, b)
upserts_commute u i n₁ n₂ t₁ t₂ p q (some row) lt =
    let a : ltb p.client_updated_at q.client_updated_at ≡ true = ground (arith, lt) in
    let b : ltb q.client_updated_at p.client_updated_at ≡ false = ground (arith, lt) in
    elim (Bool-cases (ltb (row.payload).client_updated_at p.client_updated_at)) [
      | inl older ↦
          let older' : ltb (row.payload).client_updated_at q.client_updated_at ≡ true =
            ground (arith, older, lt) in
          cc (a, b, older, older')
      | inr kept ↦ elim (Bool-cases (ltb (row.payload).client_updated_at q.client_updated_at)) [
        | inl older ↦ cc (b, kept, older)
        | inr kept' ↦ cc (kept, kept')
      ]
    ]

-- Two upserts of one record with different instants leave the same rows, up to the server's own
-- fields, in whichever order they are pushed: the arrival order does not matter.
pub push_order :
    (u i n₁ n₂ t₁ t₂ : ℕ) (o₁ o₂ : String) (p q : TransactionSyncPayload)
    (rows rows₁ rows₂ : List CloudTransaction) (r₁ r₂ : List SyncResult) (c : ℕ)
    → p.client_record_id ≡ q.client_record_id
    → p.client_updated_at < q.client_updated_at
    → push u i (upsert_operation n₁ t₁ o₁ p ∷ upsert_operation n₂ t₂ o₂ q ∷ []) rows
      ≡ ok (r₁, rows₁)
    → push u i (upsert_operation n₂ t₂ o₂ q ∷ upsert_operation n₁ t₁ o₁ p ∷ []) rows
      ≡ ok (r₂, rows₂)
    → content (get_for_user u c rows₁) ≡ content (get_for_user u c rows₂)
unfolding merge merge_all
push_order u i n₁ n₂ t₁ t₂ o₁ o₂ p q rows rows₁ rows₂ r₁ r₂ c same_record lt h₁ h₂ =
    let first = upsert_operation n₁ t₁ o₁ p in
    let second = upsert_operation n₂ t₂ o₂ q in
    let row = get_for_user u c rows in
    let (_, m₁) = push_merges u i (first ∷ second ∷ []) rows rows₁ r₁ h₁ in
    let (_, m₂) = push_merges u i (second ∷ first ∷ []) rows rows₂ r₂ h₂ in
    let self : (u == u) ≡ true = ground arith in
    let key : (c == p.client_record_id) ≡ (c == q.client_record_id) =
      ap (λ k. c == k) same_record in
    let l : get_for_user u c rows₁ ≡ merge_all u i (first ∷ second ∷ []) c row = m₁ u c ∙ cc self in
    let r : get_for_user u c rows₂ ≡ merge_all u i (second ∷ first ∷ []) c row = m₂ u c ∙ cc self in
    ap content l
    ∙ (elim (Bool-cases (c == q.client_record_id)) [
      | inl here ↦ cc (here, key, upserts_commute u i n₁ n₂ t₁ t₂ p q row lt)
      | inr other ↦ cc (other, key)
    ]
        ∙ ap content (sym r))
