-- ===== src/Summary/Correct.antt =====
-- The summary of a group whose expenses are split and whose settlements are payable.
use ulutekproje.Common.Int.{pos, ◌+ℤ◌, int_laws, parts_of_eq}
use ulutekproje.Common.Dict.{Dict, value, value-absent}
use ulutekproje.Common.Sums.{sum_over-zero, sum_over-add_eq}
use ulutekproje.Common.Result.{ok}
use ulutekproje.Common.{
  ℕ, suc, ◌≡◌, refl, ap, ◌∙◌, Option, some, inl, inr, true, false, List, [], contains, IsDistinct,
  All, Bool-cases,
}
use ulutekproje.Debts.{DebtBalance, DebtTransfer, entries}
use ulutekproje.Debts.Matching.{sent, received}
use ulutekproje.Debts.Validate.{ids, IsClosed}
use ulutekproje.Debts.Plan.{net_of, debt_of, credit_of, IsNamed}
use ulutekproje.Debts.Correct.{simplify_settles, apply_settlements_moves}
use ulutekproje.Records.{
  Database, Group, GroupMember, GroupExpense, Settlement, list_expenses, list_settlements,
  get_group,
}
use ulutekproje.Records.Members.{active_ids}
use ulutekproje.Summary.{
  add_ids, add_expense_ids, add_settlement_ids, sort_ids, book_expenses, summarize, get_for_group,
  DebtSummary, or_else,
}
use ulutekproje.Summary.Ids.{
  IsExpenseOf, IsSettlementOf, add_ids-IsDistinct, add_expense_ids-IsDistinct,
  add_settlement_ids-IsDistinct, add_settlement_ids_mono, expenses_covered, settlements_covered,
  contains-sort_ids, sort_ids-IsDistinct,
}
use ulutekproje.Summary.Net.{
  paid_by, owed_by, group_net, IsSplit, IsPayable, value-book_expenses, paid-eq-owed,
  expenses-outside, settlements-outside,
}
use ulutekproje.Summary.Rows.{
  rows, expense_balances-rows, contains-rows, rows-IsNamed, rows-IsDistinct, net_total-rows,
  net_of-rows, transfers, settlement_transfers-ok, sent-transfers, received-transfers,
  transfers-IsWithin,
}

-- What a summary says of a group's rows.
pub record IsSummary (es : List GroupExpense) (ss : List Settlement) (balances : List DebtBalance)
    (plan : List DebtTransfer) : Type 0 where
  pub closed : IsClosed balances
  pub shows : (u : ℕ) → net_of (suc u) balances ≡ group_net u es ss
  pub pays : (k : ℕ) → sent k plan ≡ debt_of (net_of k balances)
  pub gets : (k : ℕ) → received k plan ≡ credit_of (net_of k balances)

module _ (members : List GroupMember) (es : List GroupExpense) (ss : List Settlement)
    (split : All IsSplit es) (payable : All IsPayable ss) where
  abbrev involved : List ℕ
  involved = add_settlement_ids ss (add_expense_ids es (add_ids (active_ids members) []))

  abbrev users : List ℕ
  users = sort_ids involved

  abbrev amounts : Dict
  amounts = book_expenses [] es

  abbrev start : List DebtBalance
  start = rows members amounts users

  users-IsDistinct : IsDistinct users
  users-IsDistinct = sort_ids-IsDistinct involved (
      add_settlement_ids-IsDistinct ss _
        (add_expense_ids-IsDistinct es _ (add_ids-IsDistinct (active_ids members) [] tt)))

  expenses_in : All (IsExpenseOf users) es
  expenses_in =
      expenses_covered users es (add_ids (active_ids members) [])
        λ u h. contains-sort_ids u involved ∙ add_settlement_ids_mono u ss _ h

  settlements_in : All (IsSettlementOf users) ss
  settlements_in =
      settlements_covered users ss (add_expense_ids es (add_ids (active_ids members) []))
        λ u h. contains-sort_ids u involved ∙ h

  amount_of : (u : ℕ) → value u amounts +ℤ owed_by u es ≡ pos 0 +ℤ paid_by u es
  amount_of u = value-book_expenses u es [] ∙ ap (λ z. z +ℤ paid_by u es) (value-absent u [] refl)

  start-IsClosed : IsClosed start
  start-IsClosed = (
    rows-IsDistinct members amounts users users-IsDistinct,
    net_total-rows members amounts users
        ∙ omega (
          int_laws,
          parts_of_eq (paid-eq-owed users es users-IsDistinct expenses_in split),
          parts_of_eq (sum_over-zero users),
          parts_of_eq (
              sum_over-add_eq users (λ k. value k amounts) (λ k. owed_by k es) (λ k. pos 0)
                (λ k. paid_by k es) amount_of),
        ),
  )

  moved_net :
      (u : ℕ) (after : List DebtBalance)
      → contains u users ≡ true
      → net_of (suc u) after +ℤ received (suc u) (transfers ss [])
        ≡ net_of (suc u) start +ℤ sent (suc u) (transfers ss [])
      → net_of (suc u) after ≡ group_net u es ss
  unfolding sent received
  moved_net u after h moved = omega (
    int_laws,
    parts_of_eq moved,
    parts_of_eq (amount_of u),
    parts_of_eq (net_of-rows members amounts u users h),
    parts_of_eq (sent-transfers u ss []),
    parts_of_eq (received-transfers u ss []),
  )

  -- Someone who takes no part has no balance, and no row.
  outside_net :
      (u : ℕ) (after : List DebtBalance)
      → contains u users ≡ false
      → ids after ≡ ids start
      → net_of (suc u) after ≡ group_net u es ss
  outside_net u after out same =
      let (paid, owed) = expenses-outside u users out es expenses_in in
      let (sent, received) = settlements-outside u users out ss settlements_in in
      value-absent (suc u) (entries after) (rw same (contains-rows members amounts u users ∙ out))
      ∙ omega (int_laws, parts_of_eq paid, parts_of_eq owed, parts_of_eq sent, parts_of_eq received)

  pub summarize-IsSummary :
      (balances : List DebtBalance) × (plan : List DebtTransfer) × (summarize members es ss
        ≡ ok (balances, plan))
      × IsSummary es ss balances plan
  unfolding summarize
  summarize-IsSummary =
      let (after, e, same, closed, moved) =
        apply_settlements_moves start (transfers ss []) (rows-IsNamed members amounts users)
          start-IsClosed
          (transfers-IsWithin (ids start) users ss [] (λ u. contains-rows members amounts u users)
            settlements_in tt) in
      let named : IsNamed after = rw same (rows-IsNamed members amounts users) in
      let (plan, e', pays, gets) = simplify_settles after closed named in
      (
        after,
        plan,
        rw (
          expense_balances-rows members amounts users,
          settlement_transfers-ok ss [] payable,
          e,
          e',
        ),
        record {
          closed = closed;
          shows = λ u. elim (Bool-cases (contains u users)) [
            | inl h ↦
                moved_net u after h (moved (suc u) (contains-rows members amounts u users ∙ h))
            | inr out ↦ outside_net u after out same
          ];
          pays = pays;
          gets = gets;
        },
      )

-- For a group that is given, or found by its id, whose listed expenses add up to their totals and
-- whose settlements are positive payments between two users, `get_for_group` returns a summary. It
-- shows for every user the sum paid less the shares, settlements applied; the balances add up to
-- zero; and under the suggested transfers every user pays and receives exactly that balance.
pub get_for_group-IsSummary :
    (now : ℕ) (db : Database) (group_id : ℕ) (given : Option Group) (g : Group)
    → or_else given (get_group group_id db.groups) ≡ some g
    → All IsSplit (list_expenses group_id db.expenses)
    → All IsPayable (list_settlements group_id db.settlements)
    → (s : DebtSummary) × (get_for_group now db group_id given ≡ ok s)
      × IsSummary
          (list_expenses group_id db.expenses)
          (list_settlements group_id db.settlements)
          s.balances
          s.suggested_transfers
unfolding get_for_group
get_for_group-IsSummary now db group_id given g found split payable =
    let es = list_expenses group_id db.expenses in
    let ss = list_settlements group_id db.settlements in
    let (balances, plan, e, summary) = summarize-IsSummary g.members es ss split payable in
    (
      record {
        group_id = g.id;
        currency = g.currency;
        balances = balances;
        suggested_transfers = plan;
        generated_at = now;
      },
      rw (found, get_for_group, e),
      summary,
    )
