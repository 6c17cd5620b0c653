-- ===== src/Summary/Aggregate.antt =====
-- `get_group_net_balances` of backend/app/services/debt_summary_service.py: one user's balance in
-- many groups, by grouped sums. A `select ... group by group_id` is the dict of its rows.
pub mod Agree
use ulutekproje.Common.Int.{ℤ, pos, ◌-ℤ◌}
use ulutekproje.Common.Dict.{Dict, add_default}
use ulutekproje.Common.{ℕ, Bool, ◌&&◌, List, [], ◌∷◌, ◌==◌, contains, is_none, if◌then◌else◌}
use ulutekproje.Records.{GroupExpense, Settlement, Database}

module _ (user_id : ℕ) (group_ids : List ℕ) where
  -- `select group_id, sum(total_amount_in_minor)` over the expenses that the user has paid.
  unfoldable pub paid_rows : List GroupExpense → Dict → Dict
  paid_rows [] rows = rows
  paid_rows (e ∷ es) rows = paid_rows es (
      if contains e.group_id group_ids && (e.payer_user_id == user_id && is_none e.deleted_at)
      then add_default e.group_id e.total_amount_in_minor rows
      else rows)

  -- The user's shares of one expense, joined with it.
  unfoldable pub joined_shares : ℕ → List (ℕ × ℤ) → Dict → Dict
  joined_shares group_id [] rows = rows
  joined_shares group_id ((u, v) ∷ ss) rows =
      joined_shares group_id ss (if u == user_id then add_default group_id v rows else rows)

  unfoldable pub share_rows : List GroupExpense → Dict → Dict
  unfolding joined_shares
  share_rows [] rows = rows
  share_rows (e ∷ es) rows = share_rows es (
      if contains e.group_id group_ids && is_none e.deleted_at
      then joined_shares e.group_id e.shares rows
      else rows)

  unfoldable pub settlement_paid_rows : List Settlement → Dict → Dict
  settlement_paid_rows [] rows = rows
  settlement_paid_rows (s ∷ ss) rows = settlement_paid_rows ss (
      if contains s.group_id group_ids && s.from_user_id == user_id
      then add_default s.group_id s.amount_in_minor rows
      else rows)

  unfoldable pub settlement_received_rows : List Settlement → Dict → Dict
  settlement_received_rows [] rows = rows
  settlement_received_rows (s ∷ ss) rows = settlement_received_rows ss (
      if contains s.group_id group_ids && s.to_user_id == user_id
      then add_default s.group_id s.amount_in_minor rows
      else rows)

-- `for group_id, amount in rows: totals[group_id] += amount`, and with `-=`.
unfoldable pub add_rows : Dict → Dict → Dict
add_rows totals [] = totals
add_rows totals ((g, amount) ∷ rows) = add_rows (add_default g amount totals) rows

unfoldable pub subtract_rows : Dict → Dict → Dict
subtract_rows totals [] = totals
subtract_rows totals ((g, amount) ∷ rows) =
    subtract_rows (add_default g (pos 0 -ℤ amount) totals) rows

unfoldable pub get_group_net_balances : ℕ → List ℕ → Database → Dict
unfolding paid_rows share_rows settlement_paid_rows settlement_received_rows add_rows subtract_rows
get_group_net_balances user_id [] db = []
get_group_net_balances user_id (g ∷ gs) db =
    let ids = g ∷ gs in
    let paid = add_rows [] (paid_rows user_id ids db.expenses []) in
    let shared = subtract_rows paid (share_rows user_id ids db.expenses []) in
    let sent = add_rows shared (settlement_paid_rows user_id ids db.settlements []) in
    subtract_rows sent (settlement_received_rows user_id ids db.settlements [])
