-- ===== src/Sync/Retry.antt =====
-- A client that repeats an upsert because the answer was lost.
use text.Mathlib.TextEquality.{eq_iff}
use ulutekproje.Common.Int.{eqb_ℤ_iff}
use ulutekproje.Common.Result.{ok}
use ulutekproje.Common.{
  ℕ, String, ◌<◌, ◌≡◌, refl, sym, ap, ◌∙◌, Option, none, some, true, false, ◌&&◌, List, arith, ◌==◌,
  ltb, is_none,
}
use ulutekproje.Sync.Rows.{
  TransactionSyncPayload, CloudTransaction, get_for_user, is_storable, upserted, inserted,
  same_option, matches_payload,
}
use ulutekproje.Sync.Merge.{merge_upsert, upsert-Admits, upsert-ChangesTo}
use ulutekproje.Sync.{SyncResult, unchanged, result_of, try_insert, change_if_newer, upsert}

same_option_refl : (s : Option String) → same_option s s ≡ true
same_option_refl none = refl
same_option_refl (some s) = (eq_iff s s).1 refl

same_number : (n : ℕ) → (n == n) ≡ true
same_number n = ground arith

matches_payload_refl : (x : CloudTransaction) → matches_payload x x.payload ≡ true
unfolding matches_payload
matches_payload_refl x =
    let p = x.payload in
    rw
      (
        same_number p.client_record_id,
        (eq_iff p.transaction_type p.transaction_type).1 refl,
        (eqb_ℤ_iff p.amount_in_minor p.amount_in_minor).1 refl,
        (eq_iff p.category p.category).1 refl,
        same_number p.transaction_date,
        same_option_refl p.merchant_name,
        (eq_iff p.source p.source).1 refl,
        same_option_refl p.raw_ocr_text,
        same_option_refl p.note,
        same_number p.client_created_at,
        same_number p.client_updated_at,
      )
      refl

-- An upsert of the version that the live row already has changes nothing.
upsert_same :
    (new_id now u installation : ℕ) (operation_id : Option String) (rows : List CloudTransaction)
    (x : CloudTransaction)
    → get_for_user u (x.payload).client_record_id rows ≡ some x
    → is_none x.deleted_at ≡ true
    → is_storable x.payload ≡ true
    → upsert new_id now u installation x.payload operation_id rows
      ≡ ok (result_of x unchanged operation_id, rows)
unfolding upsert try_insert change_if_newer
upsert_same new_id now u installation operation_id rows x found live stored =
    let t = (x.payload).client_updated_at in
    let equal : (t == t) ≡ true = ground arith in
    let not_less : ltb t t ≡ false = ground arith in
    cc (stored, found, live, equal, not_less, matches_payload_refl x)

-- The row that an upsert is accepted over: none, or an older one.
abbrev pub IsOutdated : ℕ → Option CloudTransaction → Type 0
IsOutdated t none = Unit
IsOutdated t (some x) = (x.payload).client_updated_at < t

accepted :
    (new_id now u i : ℕ) (p : TransactionSyncPayload) (before : Option CloudTransaction)
    → IsOutdated p.client_updated_at before
    → (x : CloudTransaction) × (merge_upsert new_id now u i p before ≡ some x)
      × (x.payload ≡ p)
      × (is_none x.deleted_at ≡ true)
accepted new_id now u i p none h = (inserted new_id now u i p, refl, refl, refl)
accepted new_id now u i p (some x) h =
    let older : ltb (x.payload).client_updated_at p.client_updated_at ≡ true = ground (arith, h) in
    (upserted now i p x, cc older, refl, refl)

-- An upsert over no row or an older one, sent once more on the table that it has left, is answered
-- "unchanged" and leaves the table as it is, whatever ids and instants the server draws.
pub upsert_retry :
    (n₁ n₂ t₁ t₂ u i : ℕ) (p : TransactionSyncPayload) (o₁ o₂ : Option String)
    (rows rows' : List CloudTransaction) (r : SyncResult)
    → IsOutdated p.client_updated_at (get_for_user u p.client_record_id rows)
    → upsert n₁ t₁ u i p o₁ rows ≡ ok (r, rows')
    → (r' : SyncResult) × (upsert n₂ t₂ u i p o₂ rows' ≡ ok (r', rows')) × (r'.status ≡ unchanged)
upsert_retry n₁ n₂ t₁ t₂ u i p o₁ o₂ rows rows' r outdated h =
    let c = p.client_record_id in
    let admits = upsert-Admits n₁ t₁ u i p o₁ rows rows' r h in
    let (_, rows₁, e, changes) = upsert-ChangesTo n₁ t₁ u i p o₁ rows admits in
    let same : rows₁ ≡ rows' = cc (e, h) in
    let (x, stored, payload, live) = accepted n₁ t₁ u i p (get_for_user u c rows) outdated in
    let here : (u == u && c == c) ≡ true = ground arith in
    let found : get_for_user u c rows' ≡ some x =
      ap (get_for_user u c) (sym same) ∙ (changes u c ∙ cc (here, stored)) in
    let found' : get_for_user u (x.payload).client_record_id rows' ≡ some x =
      ap (λ (q : TransactionSyncPayload). get_for_user u q.client_record_id rows') payload
      ∙ found in
    (
      result_of x unchanged o₂,
      ap (λ q. upsert n₂ t₂ u i q o₂ rows') (sym payload)
          ∙ upsert_same n₂ t₂ u i o₂ rows' x found' live (ap is_storable payload ∙ admits.stored),
      refl,
    )
