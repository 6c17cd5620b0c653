-- ===== src/Sync/Merge.antt =====
-- The row of one key as a value into which the operations of `push` merge.
use ulutekproje.Common.Result.{ok}
use ulutekproje.Common.{
  ℕ, String, ◌≡◌, refl, sym, ap, ◌∙◌, inl, inr, Option, none, some, true, false, ◌&&◌, List, [],
  ◌∷◌, arith, ◌==◌, ==_iff, ltb, Bool-cases, Option-cases, if◌then◌else◌,
}
use ulutekproje.Sync.Rows.{
  TransactionSyncPayload, CloudTransaction, is_key, get_for_user, change_row, is_storable, has_id,
  upserted, inserted, tombstone,
}
use ulutekproje.Sync.{
  SyncResult, created, updated, unchanged, deleted, result_of, kept_status, kept_deletion,
  PushOperation, upsert_operation, delete_operation, try_insert, change_if_newer, upsert, delete,
}

-- The later client wins: the change of a row that is older than `client_updated_at`.
abbrev pub newer : ℕ → (CloudTransaction → CloudTransaction) → CloudTransaction → CloudTransaction
newer client_updated_at change row =
    if ltb (row.payload).client_updated_at client_updated_at then change row else row

abbrev pub merge_upsert :
    (new_id now user_id installation : ℕ)
    → TransactionSyncPayload
    → Option CloudTransaction
    → Option CloudTransaction
merge_upsert new_id now user_id installation p none =
    some (inserted new_id now user_id installation p)
merge_upsert new_id now user_id installation p (some row) =
    some (newer p.client_updated_at (upserted now installation p) row)

abbrev pub merge_delete :
    (now client_updated_at : ℕ) → Option CloudTransaction → Option CloudTransaction
merge_delete now stamp none = none
merge_delete now stamp (some row) = some (newer stamp (tombstone now stamp) row)

-- What an operation does to the row of the record `c` of its user.
unfoldable pub merge : ℕ → ℕ → PushOperation → ℕ → Option CloudTransaction → Option CloudTransaction
merge user_id installation (upsert_operation new_id now operation_id p) c row =
    if c == p.client_record_id then merge_upsert new_id now user_id installation p row else row
merge user_id installation (delete_operation now operation_id record_id stamp) c row =
    if c == record_id then merge_delete now stamp row else row

unfoldable pub merge_all :
    ℕ → ℕ → List PushOperation → ℕ → Option CloudTransaction → Option CloudTransaction
unfolding merge
merge_all user_id installation [] c row = row
merge_all user_id installation (o ∷ os) c row =
    merge_all user_id installation os c (merge user_id installation o c row)

pub get_for_user-key :
    (u c : ℕ) (rows : List CloudTransaction) (row : CloudTransaction)
    → get_for_user u c rows ≡ some row
    → is_key u c row ≡ true
unfolding get_for_user
get_for_user-key u c [] row h = cc
get_for_user-key u c (k ∷ ks) row h = elim (Bool-cases (is_key u c k)) [
  | inl e ↦ let same : k ≡ row = cc (e, h) in ap (is_key u c) (sym same) ∙ e
  | inr e ↦ get_for_user-key u c ks row (cc (e, h))
]

get_for_user-change_row :
    (u c : ℕ) (f : CloudTransaction → CloudTransaction) (rows : List CloudTransaction)
    (row : CloudTransaction)
    → get_for_user u c rows ≡ some row
    → is_key u c (f row) ≡ true
    → get_for_user u c (change_row u c f rows) ≡ some (f row)
unfolding get_for_user change_row
get_for_user-change_row u c f [] row h k = cc
get_for_user-change_row u c f (r ∷ rs) row h k = elim (Bool-cases (is_key u c r)) [
  | inl e ↦
      let same : r ≡ row = cc (e, h) in
      let k' : is_key u c (f r) ≡ true = ap (λ x. is_key u c (f x)) same ∙ k in
      cc (e, k', ap f same)
  | inr e ↦ cc (e, get_for_user-change_row u c f rs row (cc (e, h)) k)
]

get_for_user-change_other :
    (u c u' c' : ℕ) (f : CloudTransaction → CloudTransaction) (rows : List CloudTransaction)
    → (u' == u && c' == c) ≡ false
    → ((r : CloudTransaction) → is_key u c r ≡ true → is_key u c (f r) ≡ true)
    → get_for_user u' c' (change_row u c f rows) ≡ get_for_user u' c' rows
unfolding get_for_user change_row
get_for_user-change_other u c u' c' f [] apart keeps = refl
get_for_user-change_other u c u' c' f (r ∷ rs) apart keeps =
    let ih = get_for_user-change_other u c u' c' f rs apart keeps in
    elim (Bool-cases (is_key u c r)) [
      | inl e ↦
          let here : is_key u' c' r ≡ false = ground (arith, e, apart) in
          let there : is_key u' c' (f r) ≡ false = ground (arith, keeps r e, apart) in
          cc (e, here, there)
      | inr e ↦ cc (e, ih)
    ]

-- The rows of a table of which only the row of one key has changed.
abbrev pub ChangesTo :
    ℕ
    → ℕ
    → (Option CloudTransaction → Option CloudTransaction)
    → List CloudTransaction
    → List CloudTransaction
    → Type 0
ChangesTo u c change rows rows' =
    (u' c' : ℕ)
    → get_for_user u' c' rows'
      ≡ (if u' == u && c' == c then change (get_for_user u' c' rows) else get_for_user u' c' rows)

changed_row :
    (u c : ℕ) (f : CloudTransaction → CloudTransaction)
    (change : Option CloudTransaction → Option CloudTransaction) (rows : List CloudTransaction)
    (row : CloudTransaction)
    → get_for_user u c rows ≡ some row
    → change (some row) ≡ some (f row)
    → ((r : CloudTransaction) → is_key u c r ≡ true → is_key u c (f r) ≡ true)
    → ChangesTo u c change rows (change_row u c f rows)
changed_row u c f change rows row found e keeps u' c' = elim (Bool-cases (u' == u && c' == c)) [
  | inl here ↦
      let same_user : u' ≡ u = (==_iff u' u).0 (ground (arith, here)) in
      let same_record : c' ≡ c = (==_iff c' c).0 (ground (arith, here)) in
      let found' : get_for_user u' c' rows ≡ some row = rw (same_user, same_record) found in
      let after : get_for_user u' c' (change_row u c f rows) ≡ some (f row) =
        rw (same_user, same_record)
          (get_for_user-change_row u c f rows row found
            (keeps row (get_for_user-key u c rows row found))) in
      after ∙ cc (here, found', e)
  | inr apart ↦ get_for_user-change_other u c u' c' f rows apart keeps ∙ cc apart
]

kept_rows :
    (u c : ℕ) (change : Option CloudTransaction → Option CloudTransaction)
    (rows : List CloudTransaction)
    → change (get_for_user u c rows) ≡ get_for_user u c rows
    → ChangesTo u c change rows rows
kept_rows u c change rows e u' c' = elim (Bool-cases (u' == u && c' == c)) [
  | inl here ↦
      let same_user : u' ≡ u = (==_iff u' u).0 (ground (arith, here)) in
      let same_record : c' ≡ c = (==_iff c' c).0 (ground (arith, here)) in
      cc (here, same_user, same_record, e)
  | inr apart ↦ cc apart
]

inserted_row :
    (u c : ℕ) (change : Option CloudTransaction → Option CloudTransaction)
    (rows : List CloudTransaction) (row : CloudTransaction)
    → get_for_user u c rows ≡ none
    → change none ≡ some row
    → is_key u c row ≡ true
    → ChangesTo u c change rows (row ∷ rows)
unfolding get_for_user
inserted_row u c change rows row missing e key u' c' = elim (Bool-cases (u' == u && c' == c)) [
  | inl here ↦
      let same_user : u' ≡ u = (==_iff u' u).0 (ground (arith, here)) in
      let same_record : c' ≡ c = (==_iff c' c).0 (ground (arith, here)) in
      let key' : is_key u' c' row ≡ true = ground (arith, key, same_user, same_record) in
      cc (here, same_user, same_record, missing, e, key')
  | inr apart ↦ let key' : is_key u' c' row ≡ false = ground (arith, key, apart) in cc (apart, key')
]

-- What the flush of an upsert needs: an amount that is stored, and for a new row an id of its own.
pub record Admits (new_id u : ℕ) (p : TransactionSyncPayload) (rows : List CloudTransaction)
    : Type 0 where
  pub stored : is_storable p ≡ true
  pub fresh : get_for_user u p.client_record_id rows ≡ none → has_id new_id rows ≡ false

pub upsert-Admits :
    (new_id now u installation : ℕ) (p : TransactionSyncPayload) (operation_id : Option String)
    (rows rows' : List CloudTransaction) (r : SyncResult)
    → upsert new_id now u installation p operation_id rows ≡ ok (r, rows')
    → Admits new_id u p rows
unfolding upsert try_insert
upsert-Admits new_id now u installation p operation_id rows rows' r h =
    elim (Bool-cases (is_storable p)) [
      | inr wide ↦ absurd (cc (wide, h))
      | inl stored ↦ record {
        stored = stored;
        fresh = λ missing. elim (Bool-cases (has_id new_id rows)) [
          | inl taken ↦ absurd (cc (stored, missing, taken, h))
          | inr free ↦ free
        ];
      }
    ]

pub upsert-ChangesTo :
    (new_id now u installation : ℕ) (p : TransactionSyncPayload) (operation_id : Option String)
    (rows : List CloudTransaction)
    → Admits new_id u p rows
    → (r : SyncResult) × (rows' : List CloudTransaction) × (upsert new_id now u installation p
          operation_id rows
        ≡ ok (r, rows'))
      × ChangesTo u p.client_record_id (merge_upsert new_id now u installation p) rows rows'
unfolding upsert try_insert change_if_newer
upsert-ChangesTo new_id now u installation p operation_id rows admits =
    let stored = admits.stored in
    let c = p.client_record_id in
    let new = inserted new_id now u installation p in
    let change = upserted now installation p in
    let key : is_key u c new ≡ true = ground arith in
    let spec = merge_upsert new_id now u installation p in
    elim (Option-cases (get_for_user u c rows)) [
      | inl missing ↦ (
        result_of new created operation_id,
        new ∷ rows,
        (let free = admits.fresh missing in cc (stored, missing, free)),
        inserted_row u c spec rows new missing refl key,
      )
      | inr (row, found) ↦
          elim (Bool-cases (ltb (row.payload).client_updated_at p.client_updated_at)) [
            | inl older ↦ (
              result_of (change row) updated operation_id,
              change_row u c change rows,
              cc (stored, found, older),
              changed_row u c change spec rows row found (cc older) (λ r k. ground (arith, k)),
            )
            | inr kept ↦ (
              result_of row (kept_status p row) operation_id,
              rows,
              cc (stored, found, kept),
              kept_rows u c spec rows (cc (found, kept)),
            )
          ]
    ]

pub delete-ChangesTo :
    (now u c stamp : ℕ) (operation_id : Option String) (rows : List CloudTransaction)
    → (r : SyncResult) × (rows' : List CloudTransaction) × (delete now u c stamp operation_id rows
        ≡ (r, rows'))
      × ChangesTo u c (merge_delete now stamp) rows rows'
unfolding delete change_if_newer
delete-ChangesTo now u c stamp operation_id rows =
    let change = tombstone now stamp in
    elim (Option-cases (get_for_user u c rows)) [
      | inl missing ↦ (
        record {
          operation_id = operation_id;
          client_record_id = c;
          status = unchanged;
          server_updated_at = now;
        },
        rows,
        cc missing,
        kept_rows u c (merge_delete now stamp) rows (cc missing),
      )
      | inr (row, found) ↦ elim (Bool-cases (ltb (row.payload).client_updated_at stamp)) [
        | inl older ↦ (
          result_of (change row) deleted operation_id,
          change_row u c change rows,
          cc (found, older),
          changed_row u c change (merge_delete now stamp) rows row found (cc older)
              (λ r k. ground (arith, k)),
        )
        | inr kept ↦ (
          result_of row (kept_deletion stamp row) operation_id,
          rows,
          cc (found, kept),
          kept_rows u c (merge_delete now stamp) rows (cc (found, kept)),
        )
      ]
    ]

has_id-change_row :
    (id u c : ℕ) (f : CloudTransaction → CloudTransaction) (rows : List CloudTransaction)
    → ((r : CloudTransaction) → (f r).id ≡ r.id)
    → has_id id (change_row u c f rows) ≡ has_id id rows
unfolding has_id change_row
has_id-change_row id u c f [] keeps = refl
has_id-change_row id u c f (r ∷ rs) keeps = elim (Bool-cases (is_key u c r)) [
  | inl e ↦ cc (e, keeps r)
  | inr e ↦ cc (e, has_id-change_row id u c f rs keeps)
]

-- No operation brings in another id than the one that it draws.
pub upsert-has_id :
    (id new_id now u installation : ℕ) (p : TransactionSyncPayload) (operation_id : Option String)
    (rows rows' : List CloudTransaction) (r : SyncResult)
    → upsert new_id now u installation p operation_id rows ≡ ok (r, rows')
    → has_id id rows ≡ false
    → (new_id == id) ≡ false
    → has_id id rows' ≡ false
unfolding upsert try_insert change_if_newer has_id
upsert-has_id id new_id now u installation p operation_id rows rows' r h absent other =
    let c = p.client_record_id in
    let new = inserted new_id now u installation p in
    let change = upserted now installation p in
    let admits = upsert-Admits new_id now u installation p operation_id rows rows' r h in
    let stored = admits.stored in
    elim (Option-cases (get_for_user u c rows)) [
      | inl missing ↦
          let free = admits.fresh missing in
          let same : new ∷ rows ≡ rows' = cc (stored, missing, free, h) in
          rw (sym same) (cc (absent, other))
      | inr (row, found) ↦
          elim (Bool-cases (ltb (row.payload).client_updated_at p.client_updated_at)) [
            | inl older ↦
                let same : change_row u c change rows ≡ rows' = cc (stored, found, older, h) in
                rw (sym same) (has_id-change_row id u c change rows (λ x. refl) ∙ absent)
            | inr kept ↦
                let same : rows ≡ rows' = cc (stored, found, kept, h) in rw (sym same) absent
          ]
    ]

pub delete-has_id :
    (id now u c stamp : ℕ) (operation_id : Option String) (rows : List CloudTransaction)
    → has_id id rows ≡ false
    → has_id id (delete now u c stamp operation_id rows).1 ≡ false
unfolding delete change_if_newer
delete-has_id id now u c stamp operation_id rows absent =
    let change = tombstone now stamp in
    elim (Option-cases (get_for_user u c rows)) [
      | inl missing ↦
          let same : (delete now u c stamp operation_id rows).1 ≡ rows = cc missing in
          rw same absent
      | inr (row, found) ↦ elim (Bool-cases (ltb (row.payload).client_updated_at stamp)) [
        | inl older ↦
            let same : (delete now u c stamp operation_id rows).1 ≡ change_row u c change rows =
              cc (found, older) in
            rw same (has_id-change_row id u c change rows (λ x. refl) ∙ absent)
        | inr kept ↦
            let same : (delete now u c stamp operation_id rows).1 ≡ rows = cc (found, kept) in
            rw same absent
      ]
    ]
