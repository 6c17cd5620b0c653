-- ===== src/Sync/Rows.antt =====
-- The rows of `cloud_transactions`, and reading and changing the row of a key.
use text.Mathlib.Text.{◌==◌ as str_eq}
use ulutekproje.Common.Int.{ℤ, negsuc, max_bigint, eqb_ℤ, leb_ℤ}
use ulutekproje.Common.{
  ℕ, String, Option, none, some, Bool, true, false, ◌&&◌, ◌||◌, List, [], ◌∷◌, ◌==◌, if◌then◌else◌,
}

-- backend/app/sync_schemas.py, the fields that `_payload_values` reads.
pub record TransactionSyncPayload : Type 0 where
  pub client_record_id : ℕ
  pub transaction_type : String
  pub amount_in_minor : ℤ
  pub category : String
  pub transaction_date : ℕ
  pub merchant_name : Option String
  pub source : String
  pub raw_ocr_text : Option String
  pub note : Option String
  pub client_created_at : ℕ
  pub client_updated_at : ℕ

-- backend/app/models/cloud_transaction.py
pub record CloudTransaction : Type 0 where
  pub id : ℕ
  pub user_id : ℕ
  pub installation_id_hash : ℕ
  pub payload : TransactionSyncPayload
  pub created_at : ℕ
  pub updated_at : ℕ
  pub deleted_at : Option ℕ

abbrev pub is_key : ℕ → ℕ → CloudTransaction → Bool
is_key user_id record_id row = row.user_id == user_id && (row.payload).client_record_id == record_id

unfoldable pub get_for_user : ℕ → ℕ → List CloudTransaction → Option CloudTransaction
get_for_user user_id record_id [] = none
get_for_user user_id record_id (row ∷ rows) =
    if is_key user_id record_id row then some row else get_for_user user_id record_id rows

-- Whether the BIGINT column of the amount takes it.
abbrev pub is_storable : TransactionSyncPayload → Bool
is_storable p =
    leb_ℤ (negsuc 9_223_372_036_854_775_807) p.amount_in_minor && leb_ℤ p.amount_in_minor max_bigint

-- Whether a row has the primary key.
unfoldable pub has_id : ℕ → List CloudTransaction → Bool
has_id id [] = false
has_id id (row ∷ rows) = row.id == id || has_id id rows

unfoldable pub change_row :
    ℕ → ℕ → (CloudTransaction → CloudTransaction) → List CloudTransaction → List CloudTransaction
change_row user_id record_id change [] = []
change_row user_id record_id change (row ∷ rows) =
    if is_key user_id record_id row
    then change row ∷ rows
    else row ∷ change_row user_id record_id change rows

-- The values of `update_if_newer` in `_upsert`.
abbrev pub upserted : ℕ → ℕ → TransactionSyncPayload → CloudTransaction → CloudTransaction
upserted now installation payload row = record {
  id = row.id;
  user_id = row.user_id;
  installation_id_hash = installation;
  payload = payload;
  created_at = row.created_at;
  updated_at = now;
  deleted_at = none;
}

-- The `insert_values` of `_upsert`.
abbrev pub inserted : ℕ → ℕ → ℕ → ℕ → TransactionSyncPayload → CloudTransaction
inserted new_id now user_id installation payload = record {
  id = new_id;
  user_id = user_id;
  installation_id_hash = installation;
  payload = payload;
  created_at = now;
  updated_at = now;
  deleted_at = none;
}

abbrev pub with_updated_at : ℕ → TransactionSyncPayload → TransactionSyncPayload
with_updated_at client_updated_at p = record {
  client_record_id = p.client_record_id;
  transaction_type = p.transaction_type;
  amount_in_minor = p.amount_in_minor;
  category = p.category;
  transaction_date = p.transaction_date;
  merchant_name = p.merchant_name;
  source = p.source;
  raw_ocr_text = p.raw_ocr_text;
  note = p.note;
  client_created_at = p.client_created_at;
  client_updated_at = client_updated_at;
}

-- The values of `delete_if_newer`.
abbrev pub tombstone : ℕ → ℕ → CloudTransaction → CloudTransaction
tombstone now client_updated_at row = record {
  id = row.id;
  user_id = row.user_id;
  installation_id_hash = row.installation_id_hash;
  payload = with_updated_at client_updated_at row.payload;
  created_at = row.created_at;
  updated_at = now;
  deleted_at = some now;
}

abbrev pub same_option : Option String → Option String → Bool
same_option none none = true
same_option none (some t) = false
same_option (some s) none = false
same_option (some s) (some t) = str_eq s t

-- `_matches_payload`
unfoldable pub matches_payload : CloudTransaction → TransactionSyncPayload → Bool
matches_payload row p =
    let q = row.payload in
    q.client_record_id == p.client_record_id
    && (str_eq q.transaction_type p.transaction_type
        && (eqb_ℤ q.amount_in_minor p.amount_in_minor
            && (str_eq q.category p.category
                && (q.transaction_date == p.transaction_date
                    && (same_option q.merchant_name p.merchant_name
                        && (str_eq q.source p.source
                            && (same_option q.raw_ocr_text p.raw_ocr_text
                                && (same_option q.note p.note
                                    && (q.client_created_at == p.client_created_at
                                        && q.client_updated_at == p.client_updated_at)))))))))
