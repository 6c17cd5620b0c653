-- ===== src/Expenses/Receipt.antt =====
-- What `create_itemized` promises of the expense that it adds.
use ulutekproje.Common.Int.{◌+ℤ◌}
use ulutekproje.Common.Result.{ok, Result-cases}
use ulutekproje.Common.{
  ℕ, ◌≡◌, refl, sym, subst, inl, inr, some, true, ◌&&◌, List, [], ◌∷◌, arith, ◌==◌, All, IsDistinct,
  Bool-cases, is_none,
}
use ulutekproje.Records.{Group, GroupExpense, list_expenses, list_settlements}
use ulutekproje.Records.Members.{active_ids}
use ulutekproje.Shares.{Share}
use ulutekproje.Summary.Net.{share_in, group_net, IsSplit}
use ulutekproje.Expenses.Rows.{CloudReceipt, Ledger, get_receipt, violates}
use ulutekproje.Expenses.Itemized.{
  ItemizedRequest, line_ids, assigned_ids, is_subset, check_itemized, itemize, itemized_expense,
  record_itemized, create_itemized,
}
use ulutekproje.Expenses.Totals.{prices_total, extras_total, assigned_to, extra_to}
use ulutekproje.Expenses.Reconcile.{Reconciled, itemize-Reconciled}
use ulutekproje.Expenses.Effect.{expense_effect, group_net-insert_expense, insert_expense-All}

-- The ids of a receipt's lines are a primary key.
abbrev pub HasDistinctLines : CloudReceipt → Type 0
HasDistinctLines receipt = IsDistinct (line_ids receipt.line_items)

get_receipt-All :
    (P : CloudReceipt → Type 0) (id user : ℕ) (rs : List CloudReceipt) (rc : CloudReceipt)
    → get_receipt id user rs ≡ some rc
    → All P rs
    → P rc
unfolding get_receipt
get_receipt-All P id user [] rc found ps = absurd cc
get_receipt-All P id user (k ∷ ks) rc found ps =
    elim (Bool-cases (k.id == id && k.user_id == user && is_none k.deleted_at)) [
      | inl e ↦ let same : k ≡ rc = cc (e, found) in subst P same ps.0
      | inr e ↦ get_receipt-All P id user ks rc (cc (e, found)) ps.1
    ]

check_itemized-returns :
    (l : Ledger) (r : ItemizedRequest) (g : Group) (rc : CloudReceipt)
    → check_itemized l r ≡ ok (g, rc)
    → (get_receipt r.receipt_id r.actor_user_id l.receipts ≡ some rc)
      × (is_subset (assigned_ids r.assignments) (line_ids rc.line_items) ≡ true)
unfolding check_itemized
check_itemized-returns l r g rc h = (ground arith, ground arith)

-- What a successful `create_itemized` has checked and done.
pub record Itemizes (new_id now : ℕ) (l : Ledger) (r : ItemizedRequest) (e : GroupExpense)
    (l' : Ledger) : Type 0 where
  pub receipt : CloudReceipt
  pub shares : List Share
  pub found : get_receipt r.receipt_id r.actor_user_id l.receipts ≡ some receipt
  pub reconciled : HasDistinctLines receipt → Reconciled receipt.line_items r shares
  pub row : itemized_expense new_id now r shares ≡ e
  pub result : record_itemized new_id l r e ≡ l'

pub create_itemized-Itemizes :
    (new_id now : ℕ) (l : Ledger) (r : ItemizedRequest) (e : GroupExpense) (l' : Ledger)
    → create_itemized new_id now l r ≡ ok (e, l')
    → Itemizes new_id now l r e l'
unfolding create_itemized
create_itemized-Itemizes new_id now l r e l' h = elim (Result-cases (check_itemized l r)) [
  | inr (x, raised) ↦ absurd (cc (raised, h))
  | inl ((g, rc), checked) ↦
      let (found, sub) = check_itemized-returns l r g rc checked in
      elim (Result-cases (itemize rc.line_items (active_ids g.members) r)) [
        | inr (x, raised) ↦ absurd (cc (checked, raised, h))
        | inl (ss, shared) ↦
            let row = itemized_expense new_id now r ss in
            elim (Bool-cases (violates row l.tables.expenses)) [
              | inl bad ↦ absurd (cc (checked, shared, bad, h))
              | inr fits ↦
                  let done : create_itemized new_id now l r
                      ≡ ok (row, record_itemized new_id l r row) =
                    rw (checked, shared, fits) refl in
                  let same : row ≡ e = cc (done, h) in
                  record {
                    receipt = rc;
                    shares = ss;
                    found = found;
                    reconciled = λ distinct.
                        itemize-Reconciled rc.line_items (active_ids g.members) r ss distinct sub
                          shared;
                    row = same;
                    result = rw (sym same) (cc (done, h));
                  }
            ]
      ]
]

-- An expense that `create_itemized` adds, from a receipt whose lines have distinct ids, is worth the
-- prices of the receipt's lines and the extra amounts together. Its shares add up to that total, and
-- the share of each user is what the assignments and the extra amounts give to the user. In its
-- group alone each user's net balance changes, by the total for the payer less the own share.
pub create_itemized_reconciles :
    (new_id now : ℕ) (l : Ledger) (r : ItemizedRequest) (e : GroupExpense) (l' : Ledger)
    → All HasDistinctLines l.receipts
    → create_itemized new_id now l r ≡ ok (e, l')
    → (receipt : CloudReceipt) × (get_receipt r.receipt_id r.actor_user_id l.receipts
        ≡ some receipt)
      × (e.total_amount_in_minor ≡ prices_total receipt.line_items +ℤ extras_total r.extra_amounts)
      × IsSplit e
      × ((u : ℕ) → share_in u e.shares ≡ assigned_to u r.assignments +ℤ extra_to u r.extra_amounts)
      × ((u gid : ℕ)
          → group_net u
              (list_expenses gid l'.tables.expenses)
              (list_settlements gid l'.tables.settlements)
            ≡ group_net u
                (list_expenses gid l.tables.expenses)
                (list_settlements gid l.tables.settlements)
              +ℤ expense_effect u gid e)
unfolding record_itemized
create_itemized_reconciles new_id now l r e l' distinct h =
    let i = create_itemized-Itemizes new_id now l r e l' h in
    let receipt = i.receipt in
    let lines =
      get_receipt-All HasDistinctLines r.receipt_id r.actor_user_id l.receipts receipt i.found
        distinct in
    let ok_lines = i.reconciled lines in
    rw (sym i.result, sym i.row)
      (
        receipt,
        i.found,
        ok_lines.receipt,
        ok_lines.split,
        ok_lines.of_user,
        λ u gid.
            group_net-insert_expense u gid (itemized_expense new_id now r i.shares)
              l.tables.expenses (list_settlements gid l.tables.settlements) refl,
      )

pub create_itemized-IsSplit :
    (new_id now : ℕ) (l : Ledger) (r : ItemizedRequest) (e : GroupExpense) (l' : Ledger)
    → All HasDistinctLines l.receipts
    → All IsSplit l.tables.expenses
    → create_itemized new_id now l r ≡ ok (e, l')
    → All IsSplit l'.tables.expenses
      × (l'.tables.settlements ≡ l.tables.settlements)
      × (l'.receipts ≡ l.receipts)
unfolding record_itemized
create_itemized-IsSplit new_id now l r e l' distinct split h =
    let i = create_itemized-Itemizes new_id now l r e l' h in
    let lines =
      get_receipt-All HasDistinctLines r.receipt_id r.actor_user_id l.receipts i.receipt i.found
        distinct in
    let ok_lines = i.reconciled lines in
    rw (sym i.result, sym i.row)
      (
        insert_expense-All IsSplit (itemized_expense new_id now r i.shares) l.tables.expenses
            ok_lines.split split,
        refl,
        refl,
      )
