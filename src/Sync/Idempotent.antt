-- ===== src/Sync/Idempotent.antt =====
-- A claim that a device sends more than once under one idempotency key.
use ulutekproje.Common.Result.{ok, err, Result-cases}
use ulutekproje.Common.{
  ℕ, ◌≡◌, refl, sym, subst, inl, inr, none, some, true, false, List, [], ◌∷◌, arith, ◌==◌, ==_iff,
  Bool-cases, Option-cases, length, if◌then◌else◌,
}
use ulutekproje.Sync.Rows.{TransactionSyncPayload, CloudTransaction}
use ulutekproje.Sync.Merge.{upsert-ChangesTo, upsert-has_id}
use ulutekproje.Sync.Served.{IsServed, IsServed-after}
use ulutekproje.Sync.{SyncResult, upsert, push, PushOperation, upsert_operation}
use ulutekproje.Sync.Claim.{
  ClaimResult, ClaimResponse, SyncClaimRequest, SyncStore, idempotency_conflict, Reading, ClaimItem,
  Claim, is_claim, get_claim, has_claim_id, new_claim, try_create, claim_result, invalid_result,
  claim_one, claim_items, request_hash, claim, SyncRequest, claims_by, pushes, after_claim, serve,
  serve_all,
}

module _ {Raw Json : Type 0} (reading : Reading Raw Json) where
  -- The upserts that a claim makes.
  abbrev pub upserts : List (ClaimItem Raw) → List PushOperation
  upserts [] = []
  upserts (item ∷ items) = elim (reading.model_validate item.raw) [
    | none ↦ upserts items
    | some p ↦ upsert_operation item.new_id item.now "" p ∷ upserts items
  ]

  claim_items-upsert :
      (u i : ℕ) (item : ClaimItem Raw) (items : List (ClaimItem Raw))
      (table table₁ table' : List CloudTransaction) (p : TransactionSyncPayload) (r : SyncResult)
      (rs : List ClaimResult)
      → reading.model_validate item.raw ≡ some p
      → upsert item.new_id item.now u i p none table ≡ ok (r, table₁)
      → claim_items reading u i items table₁ ≡ ok (rs, table')
      → claim_items reading u i (item ∷ items) table
        ≡ ok (claim_result p.client_record_id r.status ∷ rs, table')
  unfolding claim_items claim_one
  claim_items-upsert u i item items table table₁ table' p r rs valid e rest = cc (valid, e, rest)

  claim_items_return :
      (user_id installation : ℕ) (items : List (ClaimItem Raw)) (table : List CloudTransaction)
      → IsServed (upserts items) table
      → (rs : List ClaimResult) × (table' : List CloudTransaction) × (claim_items reading user_id
            installation items table
          ≡ ok (rs, table'))
        × (length rs ≡ length items)
  unfolding claim_items claim_one
  claim_items_return u i [] table served = ([], table, refl, refl)
  claim_items_return u i (item ∷ items) table served =
      elim (Option-cases (reading.model_validate item.raw)) [
        | inl invalid ↦
            let skipped : upserts (item ∷ items) ≡ upserts items = cc invalid in
            let served' : IsServed (upserts items) table =
              subst (λ (o : List PushOperation). IsServed o table) skipped served in
            let r = invalid_result (reading.extract_client_record_id item.raw) in
            let (rs, table', rest, same) = claim_items_return u i items table served' in
            (r ∷ rs, table', cc (invalid, rest), omega (arith, same))
        | inr (p, valid) ↦
            let o = upsert_operation item.new_id item.now "" p in
            let taken : upserts (item ∷ items) ≡ o ∷ upserts items = cc valid in
            let served' : IsServed (o ∷ upserts items) table =
              subst (λ (o : List PushOperation). IsServed o table) taken served in
            let ((stored, fresh), (apart, later)) = served' in
            let (r, table₁, e, _) =
              upsert-ChangesTo item.new_id item.now u i p none table
                (record { stored = stored; fresh = λ _. fresh }) in
            let later₁ =
              IsServed-after o (upserts items) table table₁
                (λ id absent other.
                  upsert-has_id id item.new_id item.now u i p none table table₁ r e absent other)
                apart later in
            let (rs, table', rest, same) = claim_items_return u i items table₁ later₁ in
            (
              claim_result p.client_record_id r.status ∷ rs,
              table',
              claim_items-upsert u i item items table table₁ table' p r rs valid e rest,
              omega (arith, same),
            )
      ]

  -- The row of another key, or of a key without a row, does not hide a row that is there.
  get_claim-new :
      (u k : ℕ) (new row : SyncClaimRequest Json) (claims : List (SyncClaimRequest Json))
      → get_claim new.user_id new.idempotency_key_hash claims ≡ none
      → get_claim u k claims ≡ some row
      → get_claim u k (new ∷ claims) ≡ some row
  unfolding get_claim
  get_claim-new u k new row claims free found = elim (Bool-cases (is_claim u k new)) [
    | inl same ↦
        let same_user : new.user_id ≡ u = (==_iff new.user_id u).0 (ground (arith, same)) in
        let same_key : new.idempotency_key_hash ≡ k =
          (==_iff new.idempotency_key_hash k).0 (ground (arith, same)) in
        cc (free, found, same_user, same_key)
    | inr other ↦ cc (other, found)
  ]

  first_row :
      (u k : ℕ) (row : SyncClaimRequest Json) (claims : List (SyncClaimRequest Json))
      → row.user_id ≡ u
      → row.idempotency_key_hash ≡ k
      → get_claim u k (row ∷ claims) ≡ some row
  unfolding get_claim
  first_row u k row claims same_user same_key =
      let here : is_claim u k row ≡ true = ground (arith, same_user, same_key) in cc here

  -- The record that a claim leaves.
  abbrev pub answered_claim : Claim Raw → ClaimResponse → SyncClaimRequest Json
  answered_claim c response =
      record (new_claim c.claim_id c.user_id (reading.key_hash c.idempotency_key)
        (request_hash reading c)) { response_json = some (reading.dump_response response) }

  -- What a claim with a new key does.
  claim-first :
      (c : Claim Raw) (store : SyncStore Json)
      → get_claim c.user_id (reading.key_hash c.idempotency_key) store.claims ≡ none
      → has_claim_id c.claim_id store.claims ≡ false
      → IsServed (upserts c.items) store.transactions
      → (response : ClaimResponse) × (table : List CloudTransaction) × (claim reading c store
          ≡ ok (
            response,
            record { claims = answered_claim c response ∷ store.claims; transactions = table },
          ))
        × (length response.results ≡ length c.items)
  unfolding claim try_create
  claim-first c store free fresh served =
      let (rs, table, e, same) =
        claim_items_return c.user_id (reading.installation_hash c.installation_id) c.items
          store.transactions served in
      (record { owner = c.user_id; results = rs }, table, cc (free, fresh, e), same)

  -- A claim with a key that has a row with a response.
  claim-again :
      (c : Claim Raw) (store : SyncStore Json) (row : SyncClaimRequest Json) (json : Json)
      (response : ClaimResponse)
      → get_claim c.user_id (reading.key_hash c.idempotency_key) store.claims ≡ some row
      → row.response_json ≡ some json
      → reading.load_response json ≡ some response
      → claim reading c store ≡ (
          if row.request_hash == request_hash reading c
          then ok (response, store)
          else err idempotency_conflict)
  unfolding claim try_create
  claim-again c store row json response found answered valid =
      elim (Bool-cases (row.request_hash == request_hash reading c)) [
        | inl same ↦ cc (found, answered, same, valid)
        | inr other ↦ cc (found, answered, other)
      ]

  claim-kept :
      (c : Claim Raw) (store : SyncStore Json) (row : SyncClaimRequest Json)
      → get_claim c.user_id (reading.key_hash c.idempotency_key) store.claims ≡ some row
      → after_claim reading store (claim reading c store) ≡ store
  unfolding claim try_create
  claim-kept c store row found = elim (Option-cases row.response_json) [
    | inl lost ↦ cc (found, lost)
    | inr (json, answered) ↦ elim (Bool-cases (row.request_hash == request_hash reading c)) [
      | inr other ↦ cc (found, answered, other)
      | inl same ↦ elim (Option-cases (reading.load_response json)) [
        | inl invalid ↦ cc (found, answered, same, invalid)
        | inr (response, valid) ↦ cc (found, answered, same, valid)
      ]
    ]
  ]

  -- A claim with a new key hides no row, whether it returns or raises.
  claim-new :
      (u k : ℕ) (row : SyncClaimRequest Json) (c : Claim Raw) (store : SyncStore Json)
      → get_claim c.user_id (reading.key_hash c.idempotency_key) store.claims ≡ none
      → get_claim u k store.claims ≡ some row
      → get_claim u k (after_claim reading store (claim reading c store)).claims ≡ some row
  unfolding claim try_create
  claim-new u k row c store free found = elim (Bool-cases (has_claim_id c.claim_id store.claims)) [
    | inl taken ↦
        let same : after_claim reading store (claim reading c store) ≡ store = cc (free, taken) in
        rw same found
    | inr fresh ↦
        elim (Result-cases (
          claim_items reading c.user_id (reading.installation_hash c.installation_id) c.items
            store.transactions)) [
              | inr (x, raised) ↦
                  let same : after_claim reading store (claim reading c store) ≡ store =
                    cc (free, fresh, raised) in
                  rw same found
              | inl ((rs, table), e) ↦
                  let response : ClaimResponse = record { owner = c.user_id; results = rs } in
                  let after : SyncStore Json = record {
                    claims = answered_claim c response ∷ store.claims;
                    transactions = table;
                  } in
                  let same : after_claim reading store (claim reading c store) ≡ after =
                    cc (free, fresh, e) in
                  rw same
                    (get_claim-new u k (answered_claim c response) row store.claims free found)
            ]
  ]

  serve-claimed :
      (u k : ℕ) (row : SyncClaimRequest Json) (store : SyncStore Json) (q : SyncRequest reading)
      → get_claim u k store.claims ≡ some row
      → get_claim u k (serve reading store q).claims ≡ some row
  unfolding serve
  serve-claimed u k row store (claims_by c) found =
      elim (Option-cases (get_claim c.user_id (reading.key_hash c.idempotency_key) store.claims)) [
        | inl free ↦ claim-new u k row c store free found
        | inr (row', taken) ↦ rw (claim-kept c store row' taken) found
      ]
  serve-claimed u k row store (pushes user installation operations) found =
      elim (Result-cases (push user installation operations store.transactions)) [
        | inl (r, e) ↦ rw e found
        | inr (x, e) ↦ rw e found
      ]

  serve_all-claimed :
      (u k : ℕ) (row : SyncClaimRequest Json) (store : SyncStore Json)
      (qs : List (SyncRequest reading))
      → get_claim u k store.claims ≡ some row
      → get_claim u k (serve_all reading store qs).claims ≡ some row
  unfolding serve_all
  serve_all-claimed u k row store [] found = found
  serve_all-claimed u k row store (q ∷ qs) found =
      serve_all-claimed u k row (serve reading store q) qs (serve-claimed u k row store q found)

  -- A claim with a key that its user has not used returns, with one result for each transaction, if
  -- the amounts of its payloads are stored and the ids that the server draws, for its record and for
  -- the transactions, are those of no row and all different. If the user claims with a key of the same
  -- hash again, after whatever pushes and claims, whether they succeed or fail, and a response is read
  -- back from JSON as it was written, then a request of the same hash is answered with the first
  -- response and changes nothing, and every other request is refused as a conflict of the key.
  pub claim_once :
      (c again : Claim Raw) (store : SyncStore Json) (qs : List (SyncRequest reading))
      (reads : (r : ClaimResponse) → reading.load_response (reading.dump_response r) ≡ some r)
      → get_claim c.user_id (reading.key_hash c.idempotency_key) store.claims ≡ none
      → has_claim_id c.claim_id store.claims ≡ false
      → IsServed (upserts c.items) store.transactions
      → again.user_id ≡ c.user_id
      → reading.key_hash again.idempotency_key ≡ reading.key_hash c.idempotency_key
      → (response : ClaimResponse) × (store' : SyncStore Json) × (claim reading c store
          ≡ ok (response, store'))
        × (length response.results ≡ length c.items)
        × (claim reading again (serve_all reading store' qs) ≡ (
            if request_hash reading c == request_hash reading again
            then ok (response, serve_all reading store' qs)
            else err idempotency_conflict))
  claim_once c again store qs reads free fresh served same_user same_key =
      let (response, table, e, counted) = claim-first c store free fresh served in
      let row = answered_claim c response in
      let store' : SyncStore Json = record { claims = row ∷ store.claims; transactions = table } in
      let k = reading.key_hash again.idempotency_key in
      let found =
        serve_all-claimed again.user_id k row store' qs
          (first_row again.user_id k row store.claims (sym same_user) (sym same_key)) in
      (
        response,
        store',
        e,
        counted,
        claim-again again (serve_all reading store' qs) row (reading.dump_response response)
            response found refl (reads response),
      )
