-- ===== src/Expenses/Effect.antt =====
-- What an added expense changes in the balances of its group, and what the same request does later.
use ulutekproje.Common.Int.{ℤ, pos, ◌+ℤ◌, ◌-ℤ◌, int_laws, parts_of_eq}
use ulutekproje.Common.Result.{ok, err, Result-cases}
use ulutekproje.Common.{
  ℕ, ◌≡◌, refl, sym, subst, inl, inr, some, Bool, true, false, ◌&&◌, ◌||◌, List, [], ◌∷◌, arith,
  ◌==◌, leb, ltb, All, Bool-cases, Option-cases, is_none, if◌then◌else◌,
}
use ulutekproje.Records.{
  Group, GroupExpense, Settlement, get_group, list_expenses, list_settlements,
}
use ulutekproje.Shares.{idempotency_key_reused, Share, shares_total}
use ulutekproje.Summary.Net.{share_in, paid_by, owed_by, group_net, IsSplit}
use ulutekproje.Expenses.{
  refused, Ledger, CreateExpense, check_fast_split, new_expense, create_new, find_existing,
  create_fast_split, get_by_idempotency_key, insert_expense, key_taken, same_key, violates,
  bad_shares,
}
use ulutekproje.Expenses.Correct.{Created, create_fast_split-Created, calculate_shares-total}

paid_by-insert_expense :
    (u gid : ℕ) (e : GroupExpense) (es : List GroupExpense)
    → paid_by u (list_expenses gid (insert_expense e es)) ≡ paid_by u (list_expenses gid (e ∷ es))
unfolding paid_by list_expenses insert_expense
paid_by-insert_expense u gid e [] = refl
paid_by-insert_expense u gid e (k ∷ ks) = grind (int_laws, paid_by-insert_expense u gid e ks)

owed_by-insert_expense :
    (u gid : ℕ) (e : GroupExpense) (es : List GroupExpense)
    → owed_by u (list_expenses gid (insert_expense e es)) ≡ owed_by u (list_expenses gid (e ∷ es))
unfolding owed_by list_expenses insert_expense
owed_by-insert_expense u gid e [] = refl
owed_by-insert_expense u gid e (k ∷ ks) = grind (int_laws, owed_by-insert_expense u gid e ks)

-- What a new expense adds to the net balance of `u` in the group `gid`.
unfoldable pub expense_effect : ℕ → ℕ → GroupExpense → ℤ
unfolding share_in
expense_effect u gid e =
    if e.group_id == gid
    then (if u == e.payer_user_id then e.total_amount_in_minor else pos 0) -ℤ share_in u e.shares
    else pos 0

pub group_net-insert_expense :
    (u gid : ℕ) (e : GroupExpense) (es : List GroupExpense) (ss : List Settlement)
    → is_none e.deleted_at ≡ true
    → group_net u (list_expenses gid (insert_expense e es)) ss
      ≡ group_net u (list_expenses gid es) ss +ℤ expense_effect u gid e
unfolding expense_effect list_expenses paid_by owed_by
group_net-insert_expense u gid e es ss kept = omega (
  int_laws,
  parts_of_eq (paid_by-insert_expense u gid e es),
  parts_of_eq (owed_by-insert_expense u gid e es),
  parts_of_eq changed,
)
  where
    changed :
        paid_by u (list_expenses gid (e ∷ es)) -ℤ owed_by u (list_expenses gid (e ∷ es))
        ≡ paid_by u (list_expenses gid es)
          -ℤ owed_by u (list_expenses gid es)
          +ℤ expense_effect u gid e
    changed = grind (int_laws, kept)

pub insert_expense-All :
    (P : GroupExpense → Type 0) (e : GroupExpense) (es : List GroupExpense)
    → P e
    → All P es
    → All P (insert_expense e es)
unfolding insert_expense
insert_expense-All P e [] p ps = (p, tt)
insert_expense-All P e (k ∷ ks) p ps =
    go (ltb k.expense_date e.expense_date || (k.expense_date == e.expense_date && leb k.id e.id))
      (insert_expense-All P e ks p ps.1)
  where
    go :
        (b : Bool)
        → All P (insert_expense e ks)
        → All P (if b then e ∷ k ∷ ks else k ∷ insert_expense e ks)
    go true rest = (p, ps)
    go false rest = (ps.0, rest)

checked-total :
    (g : Group) (l : Ledger) (r : CreateExpense) (ss : List Share)
    → check_fast_split g l.receipts r ≡ ok ss
    → bad_shares ss ≡ false
    → shares_total ss ≡ r.total_amount_in_minor
unfolding check_fast_split
checked-total g l r ss h fine =
    calculate_shares-total r.split_type r.total_amount_in_minor r.participants ss (ground arith)
      fine

Created-total :
    (new_id now : ℕ) (l : Ledger) (r : CreateExpense) (e : GroupExpense) (l' : Ledger)
    (c : Created new_id now l r e l')
    → shares_total c.shares ≡ r.total_amount_in_minor
unfolding violates
Created-total new_id now l r e l' c =
    let fits : violates (new_expense new_id now r c.shares) l.tables.expenses ≡ false =
      subst (λ x. violates x l.tables.expenses ≡ false) (sym c.row) c.fits in
    let fine : bad_shares c.shares ≡ false = ground (arith, fits) in
    checked-total c.group l r c.shares c.checked fine

-- An expense that `create_fast_split` adds has the payer and the total of the request, and shares
-- that add up to it. In its group alone each user's net balance changes, by the total for the payer
-- less the user's own share; settlements and groups stay as they are.
pub create_fast_split_adds :
    (new_id now : ℕ) (l : Ledger) (r : CreateExpense) (e : GroupExpense) (l' : Ledger)
    → create_fast_split new_id now l r ≡ ok ((e, false), l')
    → IsSplit e
      × (e.total_amount_in_minor ≡ r.total_amount_in_minor)
      × (e.payer_user_id ≡ r.payer_user_id)
      × (l'.tables.groups ≡ l.tables.groups)
      × (l'.tables.settlements ≡ l.tables.settlements)
      × ((u gid : ℕ)
          → group_net u
              (list_expenses gid l'.tables.expenses)
              (list_settlements gid l'.tables.settlements)
            ≡ group_net u
                (list_expenses gid l.tables.expenses)
                (list_settlements gid l.tables.settlements)
              +ℤ expense_effect u gid e)
create_fast_split_adds new_id now l r e l' h =
    let c = create_fast_split-Created new_id now l r e l' h in
    let total = Created-total new_id now l r e l' c in
    rw (sym c.result, sym c.row)
      (
        total,
        refl,
        refl,
        refl,
        refl,
        λ u gid.
            group_net-insert_expense u gid (new_expense new_id now r c.shares) l.tables.expenses
              (list_settlements gid l.tables.settlements) refl,
      )

create_fast_split-replay :
    (new_id now : ℕ) (l : Ledger) (r : CreateExpense) (e : GroupExpense) (l' : Ledger)
    → create_fast_split new_id now l r ≡ ok ((e, true), l')
    → l ≡ l'
unfolding create_fast_split create_new
create_fast_split-replay new_id now l r e l' h =
    elim (Option-cases (find_existing r l.tables.expenses)) [
      | inr (x, existing) ↦
          elim (Bool-cases (same_key x.idempotency_request_hash r.idempotency_request_hash)) [
            | inl same ↦ cc (existing, same, h)
            | inr reused ↦ absurd (cc (existing, reused, h))
          ]
      | inl fresh ↦ elim (Option-cases (get_group r.group_id l.tables.groups)) [
        | inl missing ↦ absurd (cc (fresh, missing, h))
        | inr (g, found) ↦ elim (Result-cases (check_fast_split g l.receipts r)) [
          | inr (x, raised) ↦ absurd (cc (fresh, found, raised, h))
          | inl (ss, checked) ↦
              elim (Bool-cases (violates (new_expense new_id now r ss) l.tables.expenses)) [
                | inl bad ↦ absurd (cc (fresh, found, checked, bad, h))
                | inr fits ↦ absurd (cc (fresh, found, checked, fits, h))
              ]
        ]
      ]
    ]

pub create_fast_split-IsSplit :
    (new_id now : ℕ) (l : Ledger) (r : CreateExpense) (e : GroupExpense) (b : Bool) (l' : Ledger)
    → All IsSplit l.tables.expenses
    → create_fast_split new_id now l r ≡ ok ((e, b), l')
    → All IsSplit l'.tables.expenses
      × (l'.tables.settlements ≡ l.tables.settlements)
      × (l'.receipts ≡ l.receipts)
unfolding create_fast_split
create_fast_split-IsSplit new_id now l r e true l' split h =
    let same = create_fast_split-replay new_id now l r e l' h in rw (sym same) (split, refl, refl)
create_fast_split-IsSplit new_id now l r e false l' split h =
    let c = create_fast_split-Created new_id now l r e l' h in
    let total = Created-total new_id now l r e l' c in
    let row = new_expense new_id now r c.shares in
    rw (sym c.result, sym c.row)
      (insert_expense-All IsSplit row l.tables.expenses total split, refl, refl)

find-insert_expense :
    (e : GroupExpense) (key : ℕ) (es : List GroupExpense)
    → key_taken e es ≡ false
    → e.idempotency_key ≡ some key
    → is_none e.deleted_at ≡ true
    → get_by_idempotency_key e.group_id e.created_by_id key (insert_expense e es) ≡ some e
unfolding get_by_idempotency_key insert_expense key_taken
find-insert_expense e key [] free has kept = ground (arith, has, kept)
find-insert_expense e key (k ∷ ks) free has kept =
    grind (arith, has, kept, free, find-insert_expense e key ks)

-- A request with the group, the actor and the key of one that has added an expense is answered with
-- that expense, marked as a repetition, and changes nothing, if it has the same hash; with another
-- hash it is refused.
pub create_fast_split_retry :
    (new_id now : ℕ) (l : Ledger) (r : CreateExpense) (e : GroupExpense) (l' : Ledger)
    (key new_id' now' : ℕ) (r' : CreateExpense)
    → create_fast_split new_id now l r ≡ ok ((e, false), l')
    → r.idempotency_key ≡ some key
    → r'.idempotency_key ≡ some key
    → r'.group_id ≡ r.group_id
    → r'.actor_user_id ≡ r.actor_user_id
    → create_fast_split new_id' now' l' r' ≡ (
        if same_key r.idempotency_request_hash r'.idempotency_request_hash
        then ok ((e, true), l')
        else err (refused idempotency_key_reused))
unfolding create_fast_split find_existing violates
create_fast_split_retry new_id now l r e l' key new_id' now' r' h has has' group actor =
    let c = create_fast_split-Created new_id now l r e l' h in
    let row = new_expense new_id now r c.shares in
    let fits : violates row l.tables.expenses ≡ false =
      subst (λ x. violates x l.tables.expenses ≡ false) (sym c.row) c.fits in
    let free : key_taken row l.tables.expenses ≡ false = ground (arith, fits) in
    let seen : get_by_idempotency_key r.group_id r.actor_user_id key
          (insert_expense row l.tables.expenses)
        ≡ some row =
      find-insert_expense row key l.tables.expenses free has refl in
    let existing : find_existing r' (insert_expense row l.tables.expenses) ≡ some row =
      rw (find_existing, has', group, actor) seen in
    rw (sym c.result, sym c.row) (rw (existing, create_fast_split) refl)
