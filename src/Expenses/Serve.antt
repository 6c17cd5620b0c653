-- ===== src/Expenses/Serve.antt =====
-- Expenses, settlements and changes of members, in any order, on the same tables, and the debt summary
-- afterwards.
use ulutekproje.Common.Result.{Result, ok, err}
use ulutekproje.Common.{
  ℕ, ◌≡◌, refl, none, some, Bool, true, false, ◌&&◌, List, [], ◌∷◌, ◌==◌, All, is_none,
  if◌then◌else◌,
}
use ulutekproje.Records.{
  Database, Group, GroupExpense, Settlement, get_group, list_expenses, list_settlements,
}
use ulutekproje.Settlements.{SettlementError, CreateSettlement}
use ulutekproje.Settlements as Payments
use ulutekproje.Settlements.Correct.{create-IsPayable}
use ulutekproje.Groups.Requests.{GroupRequest, adds, removes, changes_role, archives}
use ulutekproje.Groups.Requests as Members
use ulutekproje.Summary.{DebtSummary, get_for_group}
use ulutekproje.Summary.Net.{IsSplit, IsPayable}
use ulutekproje.Summary.Correct.{IsSummary, get_for_group-IsSummary}
use ulutekproje.Expenses.{ExpenseError, CreateExpense, Ledger, create_fast_split}
use ulutekproje.Expenses.Itemized.{ItemizedError, ItemizedRequest, create_itemized}
use ulutekproje.Expenses.Effect.{create_fast_split-IsSplit}
use ulutekproje.Expenses.Keeps.{serve-KeepsMoney, create-expenses}
use ulutekproje.Expenses.Receipt.{HasDistinctLines, create_itemized-IsSplit}

-- One call of a service, with the id and the instant that its new row gets.
pub data LedgerRequest : Type 0 where
  splits : (new_id now : ℕ) (request : CreateExpense) → LedgerRequest
  itemizes : (new_id now : ℕ) (request : ItemizedRequest) → LedgerRequest
  pays : (new_id now : ℕ) (request : CreateSettlement) → LedgerRequest
  changes : (request : GroupRequest) → LedgerRequest

-- The tables after a call: a raised exception rolls them back.
abbrev pub kept : {E A : Type 0} → Ledger → (A → Ledger) → Result E A → Ledger
kept l f (ok a) = f a
kept l f (err e) = l

unfoldable pub serve : Ledger → LedgerRequest → Ledger
serve l (splits new_id now r) = kept l (λ a. a.1) (create_fast_split new_id now l r)
serve l (itemizes new_id now r) = kept l (λ a. a.1) (create_itemized new_id now l r)
serve l (pays new_id now r) =
    kept l (λ a. record l { tables = a.1 }) (Payments.create new_id now l.tables r)
serve l (changes r) = record l { tables = Members.serve l.tables r }

unfoldable pub serve_all : Ledger → List LedgerRequest → Ledger
unfolding serve
serve_all l [] = l
serve_all l (q ∷ qs) = serve_all (serve l q) qs

-- Every expense is divided without a rest, every settlement is a payment between two users, and the
-- lines of a receipt have distinct ids.
pub record IsBalanced (l : Ledger) : Type 0 where
  pub split : All IsSplit l.tables.expenses
  pub payable : All IsPayable l.tables.settlements
  pub lines : All HasDistinctLines l.receipts

serve-IsBalanced : (l : Ledger) (q : LedgerRequest) → IsBalanced l → IsBalanced (serve l q)
unfolding serve
serve-IsBalanced l (splits new_id now r) b = go (create_fast_split new_id now l r) refl
  where
    go :
        (m : Result ExpenseError ((GroupExpense × Bool) × Ledger))
        → create_fast_split new_id now l r ≡ m
        → IsBalanced (kept l (λ a. a.1) m)
    go (ok ((x, seen), l')) e =
        let (split, settlements, receipts) =
          create_fast_split-IsSplit new_id now l r x seen l' b.split e in
        record {
          split = split;
          payable = rw settlements (b.payable);
          lines = rw receipts (b.lines);
        }
    go (err x) e = b
serve-IsBalanced l (itemizes new_id now r) b = go (create_itemized new_id now l r) refl
  where
    go :
        (m : Result ItemizedError (GroupExpense × Ledger))
        → create_itemized new_id now l r ≡ m
        → IsBalanced (kept l (λ a. a.1) m)
    go (ok (x, l')) e =
        let (split, settlements, receipts) =
          create_itemized-IsSplit new_id now l r x l' b.lines b.split e in
        record {
          split = split;
          payable = rw settlements (b.payable);
          lines = rw receipts (b.lines);
        }
    go (err x) e = b
serve-IsBalanced l (pays new_id now r) b = go (Payments.create new_id now l.tables r) refl
  where
    go :
        (m : Result SettlementError (Settlement × Database))
        → Payments.create new_id now l.tables r ≡ m
        → IsBalanced (kept l (λ a. record l { tables = a.1 }) m)
    go (ok (s, db')) e = record {
      split = rw (create-expenses new_id now l.tables r s db' e) (b.split);
      payable = create-IsPayable new_id now l.tables r s db' b.payable e;
      lines = b.lines;
    }
    go (err x) e = b
serve-IsBalanced l (changes r) b =
    let k = serve-KeepsMoney l.tables r in
    record {
      split = rw (k.expenses) (b.split);
      payable = rw (k.settlements) (b.payable);
      lines = b.lines;
    }

pub serve_all-IsBalanced :
    (l : Ledger) (qs : List LedgerRequest) → IsBalanced l → IsBalanced (serve_all l qs)
unfolding serve_all
serve_all-IsBalanced l [] b = b
serve_all-IsBalanced l (q ∷ qs) b = serve_all-IsBalanced (serve l q) qs (serve-IsBalanced l q b)

list_expenses-All :
    (gid : ℕ) (es : List GroupExpense) → All IsSplit es → All IsSplit (list_expenses gid es)
unfolding list_expenses
list_expenses-All gid [] ps = tt
list_expenses-All gid (e ∷ es) ps =
    go (e.group_id == gid && is_none e.deleted_at) (list_expenses-All gid es ps.1)
  where
    go :
        (b : Bool)
        → All IsSplit (list_expenses gid es)
        → All IsSplit (if b then e ∷ list_expenses gid es else list_expenses gid es)
    go true rest = (ps.0, rest)
    go false rest = rest

list_settlements-All :
    (gid : ℕ) (ss : List Settlement) → All IsPayable ss → All IsPayable (list_settlements gid ss)
unfolding list_settlements
list_settlements-All gid [] ps = tt
list_settlements-All gid (s ∷ ss) ps = go (s.group_id == gid) (list_settlements-All gid ss ps.1)
  where
    go :
        (b : Bool)
        → All IsPayable (list_settlements gid ss)
        → All IsPayable (if b then s ∷ list_settlements gid ss else list_settlements gid ss)
    go true rest = (ps.0, rest)
    go false rest = rest

-- Whatever expenses, payments and changes of members are asked for, in any order and whether they
-- succeed or fail, from balanced tables: afterwards the debt summary of every group that exists is
-- returned without an exception, and its balances and suggested transfers are right.
pub serve_all_summarizes :
    (l : Ledger) (qs : List LedgerRequest) (now gid : ℕ) (g : Group)
    → IsBalanced l
    → get_group gid (serve_all l qs).tables.groups ≡ some g
    → (s : DebtSummary) × (get_for_group now (serve_all l qs).tables gid none ≡ ok s)
      × IsSummary
          (list_expenses gid (serve_all l qs).tables.expenses)
          (list_settlements gid (serve_all l qs).tables.settlements)
          s.balances
          s.suggested_transfers
serve_all_summarizes l qs now gid g balanced found =
    let l' = serve_all l qs in
    let b = serve_all-IsBalanced l qs balanced in
    get_for_group-IsSummary now l'.tables gid none g found
      (list_expenses-All gid l'.tables.expenses b.split)
      (list_settlements-All gid l'.tables.settlements b.payable)
