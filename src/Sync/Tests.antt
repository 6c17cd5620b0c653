-- ===== src/Sync/Tests.antt =====
-- A phone and a tablet of user 1 push versions of one record.
use ulutekproje.Common.Int.{ℤ, pos}
use ulutekproje.Common.Result.{ok}
use ulutekproje.Common.{ℕ, ◌≡◌, refl, none, some, List, [], ◌∷◌, arith, All, length}
use ulutekproje.Sync.Rows.{
  TransactionSyncPayload, CloudTransaction, has_id, get_for_user, change_row, inserted, upserted,
}
use ulutekproje.Sync.Merge.{merge_all}
use ulutekproje.Sync.Correct.{
  IsMerged, IsSince, IsHeeded, content, push-IsMerged, push_newest, push_order,
}
use ulutekproje.Sync.Retry.{upsert_retry}
use ulutekproje.Sync.{
  upsert, unchanged, SyncResult, created, updated, conflict, result_of, PushOperation,
  upsert_operation, delete_operation, push,
}

abbrev bread : ℤ → ℕ → TransactionSyncPayload
bread amount stamp = record {
  client_record_id = 5;
  transaction_type = "expense";
  amount_in_minor = amount;
  category = "market";
  transaction_date = 3;
  merchant_name = none;
  source = "manual";
  raw_ocr_text = none;
  note = none;
  client_created_at = 3;
  client_updated_at = stamp;
}

abbrev phone : PushOperation
phone = upsert_operation 70 20 "phone-01" (bread (pos 100) 10)

abbrev tablet : PushOperation
tablet = upsert_operation 71 21 "tablet-1" (bread (pos 150) 12)

abbrev new_phone : CloudTransaction
new_phone = inserted 70 20 1 9 (bread (pos 100) 10)

abbrev new_tablet : CloudTransaction
new_tablet = inserted 71 21 1 9 (bread (pos 150) 12)

abbrev after_tablet : CloudTransaction
after_tablet = upserted 21 9 (bread (pos 150) 12) new_phone

abbrev answers : List SyncResult
answers =
    result_of new_phone created (some "phone-01")
    ∷ result_of after_tablet updated (some "tablet-1")
    ∷ []

abbrev answers_late : List SyncResult
answers_late =
    result_of new_tablet created (some "tablet-1")
    ∷ result_of new_tablet conflict (some "phone-01")
    ∷ []

push-in_order : push 1 9 (phone ∷ tablet ∷ []) [] ≡ ok (answers, after_tablet ∷ [])
unfolding push get_for_user change_row has_id
push-in_order = refl

push-late : push 1 9 (tablet ∷ phone ∷ []) [] ≡ ok (answers_late, new_tablet ∷ [])
unfolding push get_for_user change_row has_id
push-late = refl

push-IsMerged_example :
    (results : List SyncResult) × (rows' : List CloudTransaction) × (push 1 9
        (phone ∷ delete_operation 22 "phone-02" 5 11 ∷ [])
        []
      ≡ ok (results, rows'))
    × (length results ≡ 2)
    × IsMerged 1 (merge_all 1 9 (phone ∷ delete_operation 22 "phone-02" 5 11 ∷ [])) [] rows'
unfolding has_id
push-IsMerged_example =
    push-IsMerged 1 9 (phone ∷ delete_operation 22 "phone-02" 5 11 ∷ []) []
      ((refl, refl), ((tt, tt), (tt, (tt, tt))))

push_newest_example :
    All (IsHeeded 5 (get_for_user 1 5 (after_tablet ∷ []))) (phone ∷ tablet ∷ [])
    × ((t : ℕ) → IsSince t (get_for_user 1 5 []) → IsSince t (get_for_user 1 5 (after_tablet ∷ [])))
push_newest_example =
    push_newest 1 9 (phone ∷ tablet ∷ []) [] (after_tablet ∷ []) answers 5 push-in_order

push_order_example :
    content (get_for_user 1 5 (after_tablet ∷ [])) ≡ content (get_for_user 1 5 (new_tablet ∷ []))
push_order_example =
    push_order 1 9 70 71 20 21 "phone-01" "tablet-1" (bread (pos 100) 10) (bread (pos 150) 12) []
      (after_tablet ∷ []) (new_tablet ∷ []) answers answers_late 5 refl (omega arith) push-in_order
      push-late

upsert_retry_example :
    (r' : SyncResult) × (upsert 72 23 1 9 (bread (pos 100) 10) (some "phone-03") (new_phone ∷ [])
      ≡ ok (r', new_phone ∷ []))
    × (r'.status ≡ unchanged)
unfolding upsert get_for_user
upsert_retry_example =
    upsert_retry 70 72 20 23 1 9 (bread (pos 100) 10) (some "phone-01") (some "phone-03") []
      (new_phone ∷ []) (result_of new_phone created (some "phone-01")) tt refl
