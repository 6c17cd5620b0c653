-- ===== src/Lib.antt =====
-- Verification of the backend of a shared-expense application (backend/app): how an expense is
-- split, what the members of a group owe each other and how they settle it, who belongs to a group
-- in which role, how the devices of a user synchronise their transactions, and how a user stays
-- signed in.
--
-- The program. A group has members, expenses with shares, and settlements (recorded payments).
-- `GroupExpenseService` (services/group_expense_service.py) adds an expense, whose shares come from
-- one of three pure functions or from the lines of a receipt. `DebtSummaryService`
-- (services/debt_summary_service.py) reads the group's rows through the repositories, computes
-- everyone's net balance, applies the settlements and asks `DebtSimplificationService`
-- (domain/debts.py) for a plan of few payments that settles the group. `SettlementService`
-- (services/settlement_service.py) records a payment, and `GroupService`
-- (services/group_service.py) asks for the debt summary before a member leaves or a group is
-- archived. `SyncService` (services/sync_service.py) is apart from these: it merges the
-- transactions that a user's devices push into one table, where the version of the later client
-- clock wins. `SessionService` (services/session_service.py) issues the refresh tokens and access
-- tokens that `get_current_user` (api/dependencies.py) asks for.
--
-- The files.
-- Common: names of the libraries passed on, Boolean tests on the native numbers, integers over the
--   native numbers with the rule set `int_laws` for omega, dicts as association lists, sums over a
--   list of keys, and `Result` for calls that raise.
-- Debts: backend/app/domain/debts.py. `simplify`, `apply_settlements`, `validate` (`_validate`) and
--   `validate_result` (`_validate_result`) are the methods of `DebtSimplificationService`;
--   `make_balance`, `make_transfer` and `from_totals` construct `DebtBalance` and `DebtTransfer`
--   with their checks. Debts.Heap is the heap of heapq, Debts.Validate the checks, Debts.Queue and
--   Debts.Matching the loop, Debts.Booking the dict of amounts, Debts.Plan and Debts.Settle the two
--   methods, Debts.Correct what they promise.
-- Shares: `calculate_equal_shares`, `calculate_percentage_shares` and `validate_exact_shares` of
--   backend/app/services/group_expense_service.py, one child for each, with Shares.Decimal about
--   the rounding of products.
-- Records: the rows of backend/app/models, the state `Database` that the group services pass on,
--   and the queries of backend/app/repositories on it.
-- Summary: backend/app/services/debt_summary_service.py, `get_for_group`, and in Summary.Aggregate
--   `get_group_net_balances`, in Summary.Activity `get_groups_with_activity` with `_group_status`
--   of the group service. Summary.Ids is about the set of users, Summary.Net about the amounts,
--   Summary.Rows about the lists handed to the debts module.
-- Settlements: `create` of backend/app/services/settlement_service.py. Settlements.Text has the
--   string methods, Settlements.Correct when a payment is accepted and what it changes.
-- Groups: `add_member`, `remove_member`, `update_member_role` and `archive` of
--   backend/app/services/group_service.py; Groups.Create has `create`, `update` and
--   `get_or_create_direct_group`, Groups.Deletion is `prepare_for_user_deletion` of
--   backend/app/repositories/groups.py with the foreign keys on a deleted user, Groups.Requests has
--   them all as requests, Groups.Grow and Groups.Successor are about the money and the owners under
--   the last four, Groups.Direct about two friends who ask again. Groups.Rows has the changes of
--   rows, Groups.Owners counts the owners over them, Groups.Returns and Groups.Changes say what a
--   call that returns has checked, Groups.Keep is the invariant per method, Groups.Correct the
--   invariant over requests, Groups.Role how roles change, over the rows of Groups.Entered.
-- Expenses: `create_fast_split`, `is_financially_locked` and the flushes of
--   backend/app/repositories/group_expenses.py; Expenses.Itemized is `create_itemized` with its
--   loops `take_assignments`, `take_extra_amounts` and `check_lines`. Expenses.Totals adds up what
--   the loops collect, Expenses.Reconcile and Expenses.Receipt compare it with the receipt,
--   Expenses.Correct and Expenses.Effect are about `create_fast_split`, and Expenses.Serve about
--   requests to all services of a group, one after another, on the state `Ledger`.
-- Sessions: `issue`, `rotate`, `logout` and `revoke_all_for_user` of
--   backend/app/services/session_service.py, and `get_current_user` of
--   backend/app/api/dependencies.py, on the state `AuthStore`. Sessions.Later compares tables
--   before and after, Sessions.Live counts the sessions in use, Sessions.Steps is each call as a
--   step, Sessions.Correct the steps of many requests, Sessions.Spent, Sessions.Reuse and
--   Sessions.Usable what holds of a token.
-- Invitations: backend/app/services/group_invitation_service.py on the state `InvitationStore`;
--   `accept` is `_accept_invitation` behind both ways to find an invitation. Invitations.Accept
--   says who may accept, Invitations.Once and Invitations.Owned what holds over many requests.
-- Sync: `push`, `upsert` (`_upsert`) and `delete` (`_delete`) of
--   backend/app/services/sync_service.py over the statements of
--   backend/app/repositories/cloud_transactions.py. Sync.Merge is the row of a key as a value into
--   which operations merge, Sync.Served what its inserts need, Sync.Correct what a push promises,
--   Sync.Retry what a repeated upsert does. Sync.Pull is `pull` for one table at a time, with the
--   loop of a client that follows the cursors of Sync.Cursor; Sync.Paging is about the order of the
--   rows, Sync.Collect about the loop. Sync.Claim is `claim` on the state `SyncStore`, with
--   backend/app/repositories/sync_claim_requests.py, and Sync.Idempotent about a claim that is sent
--   again.
--
-- Conventions. A UUID is a natural number and its text, which has a fixed width, sorts as the
-- number does; the text of the UUID n is the text number `suc n`, and 0 is the empty text. An
-- instant is a natural number, in UTC. A Python int is an unbounded integer. A dict is an
-- association list in insertion order. heapq is kept as the list of its items in the order in which
-- they are popped: its pop returns the least item, and items are compared as tuples. A table is the
-- list of its rows in the order that the list query returns, and a `select ... group by` is the
-- dict of its sums. A currency is the list of its code points, ASCII for `strip` and `upper`. An
-- exception is the `err` of a result, and rolls back what the call has changed. Ids and instants
-- that the program draws (`uuid4`, `utc_now`, the defaults of a column) are arguments, and so is
-- the row that a query without an order returns. The id of a new session, invitation, claim or
-- cloud transaction may be one that a row has, and the flush then raises; that of a new group,
-- expense, payment or log entry is taken to be new.
--
-- Bounds and fuel. The matching loop runs on fuel, one round for each item of the two heaps: every
-- round closes a debtor or a creditor, so the rounds are enough; the model's own error
-- `out_of_rounds` stands for their end. The products of the percentage split are rounded to the 28
-- digits of Decimal, and `index_error` is the IndexError that a remainder larger than the shares
-- raises; a flush raises for numbers beyond BIGINT. The loop of a client that pulls the pages,
-- `pull_all`, runs on the number of requests that it may make.
--
-- Not modelled. The type tests (`isinstance`, `_require_minor_unit`) pass by typing. Database
-- sessions, locks and transactions, HTTP routers and schemas, Redis, email, OAuth and language
-- model calls are input and output. Of the services above, the lists of groups, the expense from a
-- receipt draft, sign-in itself and the invitations of friends are not modelled.
pub mod Common
pub mod Debts
pub mod Shares
pub mod Records
pub mod Summary
pub mod Settlements
pub mod Groups
pub mod Sync
pub mod Sessions
pub mod Expenses
pub mod Invitations
