-- ===== src/Sync/Claim.antt =====
-- `SyncService.claim` of backend/app/services/sync_service.py: the records that a device kept before
-- its user signed in, upserted once per idempotency key, with
-- backend/app/repositories/sync_claim_requests.py. `transactions` is a list of any JSON values, so
-- their type, the validation of a payload and the reading of an id are parameters, as the two hashes,
-- the digest of a request, and the JSON value of a response with its `model_dump` and
-- `model_validate` are.
use ulutekproje.Common.Result.{Result, ok, err, ◌>>=◌, ◌>>◌, raise_if}
use ulutekproje.Common.{
  ℕ, String, Option, none, some, Bool, false, not, ◌&&◌, ◌||◌, List, [], ◌∷◌, ◌==◌, map,
  if◌then◌else◌,
}
use ulutekproje.Sync.Rows.{TransactionSyncPayload, CloudTransaction}
use ulutekproje.Sync.{
  SyncError, SyncStatus, created, updated, unchanged, deleted, conflict, SyncResult, PushOperation,
  upsert, push,
}

pub data ClaimStatus : Type 0 where
  accepted duplicate rejected : ClaimStatus

pub record ClaimResult : Type 0 where
  pub client_record_id : Option ℕ
  pub status : ClaimStatus
  pub error : Option String

-- `owner_key` is the text `user:` and this id.
pub record ClaimResponse : Type 0 where
  pub owner : ℕ
  pub results : List ClaimResult

-- backend/app/models/sync_claim_request.py
pub record SyncClaimRequest (Json : Type 0) : Type 0 where
  pub id : ℕ
  pub user_id : ℕ
  pub idempotency_key_hash : ℕ
  pub request_hash : ℕ
  pub response_json : Option Json

pub record SyncStore (Json : Type 0) : Type 0 where
  pub claims : List (SyncClaimRequest Json)
  pub transactions : List CloudTransaction

-- `ClaimIdempotencyConflict`; the `RuntimeError` for a record without a response; the errors of a
-- response that is not valid, of an id that a claim has, and of an upsert.
pub data ClaimError : Type 0 where
  idempotency_conflict claim_request_unavailable invalid_response : ClaimError
  claim_id_taken : ClaimError
  lost : SyncError → ClaimError

pub record Reading (Raw Json : Type 0) : Type 0 where
  pub key_hash : String → ℕ
  pub installation_hash : String → ℕ
  pub claim_request_hash : String → List Raw → ℕ
  pub model_validate : Raw → Option TransactionSyncPayload
  pub extract_client_record_id : Raw → Option ℕ
  pub dump_response : ClaimResponse → Json
  pub load_response : Json → Option ClaimResponse

-- A value of the request, with the id and the instant of its turn in the loop.
pub record ClaimItem (Raw : Type 0) : Type 0 where
  pub raw : Raw
  pub new_id : ℕ
  pub now : ℕ

-- The arguments of `claim`, with the id that is drawn for its record.
pub record Claim (Raw : Type 0) : Type 0 where
  pub claim_id : ℕ
  pub user_id : ℕ
  pub idempotency_key : String
  pub installation_id : String
  pub items : List (ClaimItem Raw)

module _ {Json : Type 0} where
  abbrev pub is_claim : ℕ → ℕ → SyncClaimRequest Json → Bool
  is_claim user_id key_hash c = c.user_id == user_id && c.idempotency_key_hash == key_hash

  unfoldable pub get_claim : ℕ → ℕ → List (SyncClaimRequest Json) → Option (SyncClaimRequest Json)
  get_claim user_id key_hash [] = none
  get_claim user_id key_hash (c ∷ cs) =
      if is_claim user_id key_hash c then some c else get_claim user_id key_hash cs

  unfoldable pub has_claim_id : ℕ → List (SyncClaimRequest Json) → Bool
  has_claim_id id [] = false
  has_claim_id id (c ∷ cs) = c.id == id || has_claim_id id cs

  abbrev pub new_claim : ℕ → ℕ → ℕ → ℕ → SyncClaimRequest Json
  new_claim claim_id user_id key_hash request_hash = record {
    id = claim_id;
    user_id = user_id;
    idempotency_key_hash = key_hash;
    request_hash = request_hash;
    response_json = none;
  }

  -- `try_create`: on a conflict of the key nothing happens. The row is written with its response at
  -- the end of the claim, in the same transaction.
  unfoldable pub try_create :
      ℕ
      → ℕ
      → ℕ
      → ℕ
      → List (SyncClaimRequest Json)
      → Result ClaimError (Option (SyncClaimRequest Json))
  unfolding get_claim has_claim_id
  try_create claim_id user_id key_hash request_hash claims =
      elim (get_claim user_id key_hash claims) [
        | none ↦ do
          raise_if (has_claim_id claim_id claims) claim_id_taken
          ok (some (new_claim claim_id user_id key_hash request_hash))
        | some previous ↦ ok none
      ]

abbrev pub claim_status : SyncStatus → ClaimStatus
claim_status created = accepted
claim_status updated = accepted
claim_status unchanged = duplicate
claim_status deleted = rejected
claim_status conflict = rejected

abbrev pub claim_error : ClaimStatus → Option String
claim_error accepted = none
claim_error duplicate = none
claim_error rejected = some "A newer or different version already exists."

abbrev pub claim_result : ℕ → SyncStatus → ClaimResult
claim_result record_id status = record {
  client_record_id = some record_id;
  status = claim_status status;
  error = claim_error (claim_status status);
}

abbrev pub invalid_result : Option ℕ → ClaimResult
invalid_result record_id = record {
  client_record_id = record_id;
  status = rejected;
  error = some "Invalid transaction payload.";
}

abbrev pub lift_sync : {A : Type 0} → Result SyncError A → Result ClaimError A
lift_sync (ok a) = ok a
lift_sync (err e) = err (lost e)

module _ {Raw Json : Type 0} (reading : Reading Raw Json) where
  -- One turn of the loop of `claim`.
  unfoldable pub claim_one :
      ℕ
      → ℕ
      → ClaimItem Raw
      → List CloudTransaction
      → Result ClaimError (ClaimResult × List CloudTransaction)
  claim_one user_id installation item table = elim (reading.model_validate item.raw) [
    | none ↦ ok (invalid_result (reading.extract_client_record_id item.raw), table)
    | some payload ↦ do
      turn ← lift_sync (upsert item.new_id item.now user_id installation payload none table)
      ok (claim_result payload.client_record_id (turn.0).status, turn.1)
  ]

  unfoldable pub claim_items :
      ℕ
      → ℕ
      → List (ClaimItem Raw)
      → List CloudTransaction
      → Result ClaimError (List ClaimResult × List CloudTransaction)
  unfolding claim_one
  claim_items user_id installation [] table = ok ([], table)
  claim_items user_id installation (item ∷ items) table = do
    turn ← claim_one user_id installation item table
    rest ← claim_items user_id installation items turn.1
    ok (turn.0 ∷ rest.0, rest.1)

  abbrev pub request_hash : Claim Raw → ℕ
  request_hash c = reading.claim_request_hash c.installation_id (map (λ i. i.raw) c.items)

  -- The answer from the row of an earlier claim with the key.
  abbrev pub replay : ℕ → Option (SyncClaimRequest Json) → Result ClaimError ClaimResponse
  replay hash none = err claim_request_unavailable
  replay hash (some previous) = elim previous.response_json [
    | none ↦ err claim_request_unavailable
    | some json ↦ do
      raise_if (not (previous.request_hash == hash)) idempotency_conflict
      elim (reading.load_response json) [
        | none ↦ err invalid_response
        | some response ↦ ok response
      ]
  ]

  unfoldable pub claim :
      Claim Raw → SyncStore Json → Result ClaimError (ClaimResponse × SyncStore Json)
  unfolding try_create claim_items
  claim c store = do
    let key = reading.key_hash c.idempotency_key
    claim_request ← try_create c.claim_id c.user_id key (request_hash c) store.claims
    elim claim_request [
      | none ↦ do
        response ← replay (request_hash c) (get_claim c.user_id key store.claims)
        ok (response, store)
      | some row ↦ do
        done ←
            claim_items c.user_id (reading.installation_hash c.installation_id) c.items
              store.transactions
        let response : ClaimResponse = record { owner = c.user_id; results = done.0 }
        ok (
          response,
          record {
            claims =
                record row { response_json = some (reading.dump_response response) } ∷ store.claims;
            transactions = done.1;
          },
        )
    ]

  pub data SyncRequest : Type 0 where
    claims_by : Claim Raw → SyncRequest
    pushes : (user_id installation : ℕ) (operations : List PushOperation) → SyncRequest

  -- The store after a request: a raised exception rolls it back.
  abbrev pub after_claim :
      SyncStore Json → Result ClaimError (ClaimResponse × SyncStore Json) → SyncStore Json
  after_claim store (ok r) = r.1
  after_claim store (err e) = store

  abbrev pub after_push :
      SyncStore Json → Result SyncError (List SyncResult × List CloudTransaction) → SyncStore Json
  after_push store (ok r) = record store { transactions = r.1 }
  after_push store (err e) = store

  unfoldable pub serve : SyncStore Json → SyncRequest → SyncStore Json
  serve store (claims_by c) = after_claim store (claim c store)
  serve store (pushes user_id installation operations) =
      after_push store (push user_id installation operations store.transactions)

  unfoldable pub serve_all : SyncStore Json → List SyncRequest → SyncStore Json
  serve_all store [] = store
  serve_all store (q ∷ qs) = serve_all (serve store q) qs
