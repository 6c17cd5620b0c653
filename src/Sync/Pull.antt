-- ===== src/Sync/Pull.antt =====
-- `pull` of backend/app/services/sync_service.py with the `list_changes` of its two repositories, and
-- the loop of a client that follows the cursors of one of the two tables.
use ulutekproje.Common.Result.{Result, ok, err, ◌>>=◌}
use ulutekproje.Common.{
  ℕ, zero, suc, Option, none, some, Bool, true, ◌&&◌, ◌||◌, List, [], ◌∷◌, ◌++◌, ◌==◌, ltb, length,
  if◌then◌else◌,
}
use ulutekproje.Sync.Cursor.{Text, Codec, CursorError, out_of_rounds, encode_cursor, decode_cursor}

-- A row of `cloud_transactions` or `cloud_receipts`, as far as the page is concerned: what it is
-- ordered and selected by, and the rest of it. `selected` holds of every transaction, and of a
-- receipt that is approved and belongs to no expense.
pub record Change (A : Type 0) : Type 0 where
  pub user_id : ℕ
  pub updated_at : ℕ
  pub id : ℕ
  pub selected : Bool
  pub content : A

-- `next_cursor`, the records and `has_more` of one table.
pub record Page (A : Type 0) : Type 0 where
  pub records : List (Change A)
  pub next_cursor : Option Text
  pub has_more : Bool

module _ {A : Type 0} where
  -- The order of `order_by(updated_at, id)`.
  abbrev pub before : Change A → Change A → Bool
  before x y = ltb x.updated_at y.updated_at || (x.updated_at == y.updated_at && ltb x.id y.id)

  -- The `where` on the cursor.
  abbrev pub is_after : Option (ℕ × ℕ) → Change A → Bool
  is_after none x = true
  is_after (some (t, i)) x = ltb t x.updated_at || (x.updated_at == t && ltb i x.id)

  unfoldable pub of_user : ℕ → List (Change A) → List (Change A)
  of_user user_id [] = []
  of_user user_id (x ∷ xs) =
      if x.user_id == user_id && x.selected then x ∷ of_user user_id xs else of_user user_id xs

  unfoldable pub insert_change : Change A → List (Change A) → List (Change A)
  insert_change x [] = x ∷ []
  insert_change x (y ∷ ys) = if before x y then x ∷ y ∷ ys else y ∷ insert_change x ys

  unfoldable pub sort_changes : List (Change A) → List (Change A)
  unfolding insert_change
  sort_changes [] = []
  sort_changes (x ∷ xs) = insert_change x (sort_changes xs)

  unfoldable pub after_cursor : Option (ℕ × ℕ) → List (Change A) → List (Change A)
  after_cursor c [] = []
  after_cursor c (x ∷ xs) = if is_after c x then x ∷ after_cursor c xs else after_cursor c xs

  -- `limit(n)`, and `records[:n]`.
  unfoldable pub take : ℕ → List (Change A) → List (Change A)
  take zero xs = []
  take (suc n) [] = []
  take (suc n) (x ∷ xs) = x ∷ take n xs

  unfoldable pub list_changes : ℕ → ℕ → Option (ℕ × ℕ) → List (Change A) → List (Change A)
  unfolding of_user sort_changes after_cursor take
  list_changes user_id limit cursor table =
      take limit (after_cursor cursor (sort_changes (of_user user_id table)))

  -- `encode_cursor(page[-1]...) if page else cursor`
  unfoldable pub next_cursor : Codec → Option Text → List (Change A) → Option Text
  unfolding encode_cursor
  next_cursor codec cursor [] = cursor
  next_cursor codec cursor (x ∷ []) = some (encode_cursor codec x.updated_at x.id)
  next_cursor codec cursor (x ∷ y ∷ ys) = next_cursor codec cursor (y ∷ ys)

  -- The part of `pull` for one of the two tables.
  unfoldable pub page_of :
      Codec → ℕ → Option Text → ℕ → List (Change A) → Result CursorError (Page A)
  unfolding decode_cursor list_changes take next_cursor
  page_of codec user_id cursor limit table = do
    after ← decode_cursor codec cursor
    let records = list_changes user_id (suc limit) after table
    let page = take limit records
    ok (record {
      records = page;
      next_cursor = next_cursor codec cursor page;
      has_more = ltb limit (length records);
    })

  abbrev pub join :
      List (Change A) → Result CursorError (List (Change A)) → Result CursorError (List (Change A))
  join xs (ok ys) = ok (xs ++ ys)
  join xs (err e) = err e

  -- A client that asks for the next page while there is more, with at most `rounds` requests.
  unfoldable pub pull_all :
      ℕ → Codec → ℕ → Option Text → ℕ → List (Change A) → Result CursorError (List (Change A))
  unfolding page_of
  pull_all zero codec user_id cursor limit table = err out_of_rounds
  pull_all (suc rounds) codec user_id cursor limit table = do
    page ← page_of codec user_id cursor limit table
    let rest = pull_all rounds codec user_id page.next_cursor limit table
    if page.has_more then join page.records rest else ok page.records

-- `pull` answers with a page of each table, each with its own cursor and limit.
unfoldable pub pull :
    {A B : Type 0}
    → Codec
    → ℕ
    → Option Text
    → ℕ
    → Option Text
    → ℕ
    → List (Change A)
    → List (Change B)
    → Result CursorError (Page A × Page B)
unfolding page_of
pull codec user_id cursor limit receipts_cursor receipts_limit transactions receipts = do
  page ← page_of codec user_id cursor limit transactions
  receipts_page ← page_of codec user_id receipts_cursor receipts_limit receipts
  ok (page, receipts_page)
