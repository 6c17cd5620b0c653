-- ===== src/Sync/ClaimTests.antt =====
-- A device of user 1 claims a record and a value that is no payload, and repeats the claim after a
-- push.
use ulutekproje.Common.Int.{pos}
use ulutekproje.Common.Result.{ok, err}
use ulutekproje.Common.{ℕ, ◌≡◌, refl, Option, none, some, List, [], ◌∷◌, length}
use ulutekproje.Sync.Rows.{TransactionSyncPayload, get_for_user, has_id, inserted}
use ulutekproje.Sync.{upsert_operation, upsert, try_insert}
use ulutekproje.Sync.Claim.{
  ClaimResponse, ClaimItem, Claim, Reading, SyncStore, SyncRequest, get_claim, has_claim_id,
  new_claim, accepted, rejected, idempotency_conflict, claim, claim_one, claim_items, pushes,
  claims_by, serve_all,
}
use ulutekproje.Sync.Idempotent.{claim_once}

abbrev tea : TransactionSyncPayload
tea = record {
  client_record_id = 5;
  transaction_type = "expense";
  amount_in_minor = pos 100;
  category = "market";
  transaction_date = 3;
  merchant_name = none;
  source = "manual";
  raw_ocr_text = none;
  note = none;
  client_created_at = 3;
  client_updated_at = 10;
}

-- The values of a request are payloads or nothing of use; the hash of a request is its length.
abbrev sized : Reading (Option TransactionSyncPayload) ClaimResponse
sized = record {
  key_hash = λ key. 3;
  installation_hash = λ installation. 9;
  claim_request_hash = λ installation raws. length raws;
  model_validate = λ raw. raw;
  extract_client_record_id = λ raw. none;
  dump_response = λ response. response;
  load_response = λ json. some json;
}

abbrev item : Option TransactionSyncPayload → ℕ → ClaimItem (Option TransactionSyncPayload)
item raw new_id = record { raw = raw; new_id = new_id; now = 20 }

abbrev first : Claim (Option TransactionSyncPayload)
first = record {
  claim_id = 90;
  user_id = 1;
  idempotency_key = "claim-01";
  installation_id = "phone";
  items = item (some tea) 70 ∷ item none 71 ∷ [];
}

-- The same values, with what the server draws for them later.
abbrev repeated : Claim (Option TransactionSyncPayload)
repeated = record first { items = item (some tea) 80 ∷ item none 81 ∷ [] }

abbrev shorter : Claim (Option TransactionSyncPayload)
shorter = record first { items = item (some tea) 80 ∷ [] }

abbrev empty : SyncStore ClaimResponse
empty = record { claims = []; transactions = [] }

abbrev answer : ClaimResponse
answer = record {
  owner = 1;
  results =
      record { client_record_id = some 5; status = accepted; error = none }
      ∷ record {
        client_record_id = none;
        status = rejected;
        error = some "Invalid transaction payload.";
      }
      ∷ [];
}

abbrev answered : SyncStore ClaimResponse
answered = record {
  claims = record (new_claim 90 1 3 2) { response_json = some answer } ∷ [];
  transactions = inserted 70 20 1 9 tea ∷ [];
}

abbrev between : List (SyncRequest sized)
between =
    pushes 1 9 (upsert_operation 72 21 "phone-01" (record tea { client_updated_at = 12 }) ∷ [])
    ∷ claims_by shorter
    ∷ []

claim-first_test : claim sized first empty ≡ ok (answer, answered)
unfolding claim claim_items claim_one get_claim has_claim_id has_id upsert try_insert get_for_user
claim-first_test = refl

claim-shorter_test : claim sized shorter answered ≡ err idempotency_conflict
unfolding claim get_claim
claim-shorter_test = refl

claim_once_example :
    (response : ClaimResponse) × (store' : SyncStore ClaimResponse) × (claim sized first empty
      ≡ ok (response, store'))
    × (length response.results ≡ 2)
    × (claim sized repeated (serve_all sized store' between)
        ≡ ok (response, serve_all sized store' between))
unfolding get_claim has_claim_id has_id
claim_once_example =
    claim_once sized first repeated empty between (λ r. refl) refl refl ((refl, refl), (tt, tt))
      refl refl
