-- ===== src/Summary/Activity.antt =====
-- `get_groups_with_activity` of backend/app/services/debt_summary_service.py, and `_group_status` of
-- backend/app/services/group_service.py, which tells a settled group from one without history.
use ulutekproje.Common.Dict.{value}
use ulutekproje.Common.Int.{ℤ, pos, ◌<ℤ◌, ltb_ℤ, int_laws, eq_of_parts}
use ulutekproje.Common.{
  ℕ, ◌≡◌, refl, sym, subst, ◌∙◌, Bool, true, false, not, ◌&&◌, ◌||◌, List, [], ◌∷◌, arith, ◌==◌,
  ==_iff, contains, is_none, Bool-cases, inl, inr, if◌then◌else◌,
}
use ulutekproje.Records.{GroupExpense, Settlement, Database, list_expenses, list_settlements}
use ulutekproje.Summary.{add_id}
use ulutekproje.Summary.Aggregate.{get_group_net_balances}
use ulutekproje.Summary.Aggregate.Agree.{get_group_net_balances-eq-group_net}
use ulutekproje.Summary.Ids.{contains-add_id}
use ulutekproje.Summary.Net.{paid_by, owed_by, sent_by, received_by, group_net}

-- The set of `select group_id ... distinct` over the expenses, and then over the settlements.
unfoldable pub expense_groups : List ℕ → List GroupExpense → List ℕ → List ℕ
expense_groups ids [] groups = groups
expense_groups ids (e ∷ es) groups =
    expense_groups ids es
      (if contains e.group_id ids && is_none e.deleted_at then add_id e.group_id groups else groups)

unfoldable pub settlement_groups : List ℕ → List Settlement → List ℕ → List ℕ
settlement_groups ids [] groups = groups
settlement_groups ids (s ∷ ss) groups =
    settlement_groups ids ss (if contains s.group_id ids then add_id s.group_id groups else groups)

unfoldable pub get_groups_with_activity : List ℕ → Database → List ℕ
unfolding expense_groups settlement_groups
get_groups_with_activity [] db = []
get_groups_with_activity (g ∷ gs) db =
    settlement_groups (g ∷ gs) db.settlements (expense_groups (g ∷ gs) db.expenses [])

pub data GroupStatus : Type 0 where
  no_expenses you_are_owed you_owe settled_up : GroupStatus

unfoldable pub group_status : ℤ → Bool → GroupStatus
group_status net has_activity =
    if not has_activity
    then no_expenses
    else if ltb_ℤ (pos 0) net
    then you_are_owed
    else if ltb_ℤ net (pos 0)
    then you_owe
    else settled_up

-- What a status says of the net balance.
abbrev pub IsStatus : ℤ → GroupStatus → Type 0
IsStatus net no_expenses = net ≡ pos 0
IsStatus net you_are_owed = pos 0 <ℤ net
IsStatus net you_owe = net <ℤ pos 0
IsStatus net settled_up = net ≡ pos 0

abbrev pub has_rows : {A : Type 0} → List A → Bool
has_rows [] = false
has_rows (x ∷ xs) = true

module _ (g : ℕ) (ids : List ℕ) (asked : contains g ids ≡ true) where
  asked_group : (k : ℕ) → (k == g) ≡ true → contains k ids ≡ true
  asked_group k e = rw ((==_iff k g).0 e) asked

  -- A row that is read adds its own group.
  contains-added :
      (k : ℕ) (wanted : Bool) (groups : List ℕ)
      → contains g (if contains k ids && wanted then add_id k groups else groups)
        ≡ ((k == g && wanted) || contains g groups)
  contains-added k wanted groups = ground (arith, contains-add_id g k groups, asked_group k)

  contains-expense_groups :
      (es : List GroupExpense) (groups : List ℕ)
      → contains g (expense_groups ids es groups)
        ≡ (has_rows (list_expenses g es) || contains g groups)
  unfolding expense_groups list_expenses
  contains-expense_groups [] groups = refl
  contains-expense_groups (e ∷ es) groups =
      contains-expense_groups es (
        if contains e.group_id ids && is_none e.deleted_at
        then add_id e.group_id groups
        else groups)
      ∙ ground (arith, contains-added e.group_id (is_none e.deleted_at) groups)

  contains-settlement_groups :
      (ss : List Settlement) (groups : List ℕ)
      → contains g (settlement_groups ids ss groups)
        ≡ (has_rows (list_settlements g ss) || contains g groups)
  unfolding settlement_groups list_settlements
  contains-settlement_groups [] groups = refl
  contains-settlement_groups (s ∷ ss) groups =
      contains-settlement_groups ss
        (if contains s.group_id ids then add_id s.group_id groups else groups)
      ∙ ground (arith, contains-added s.group_id true groups)

-- Of the groups that are asked for, exactly those are reported to have activity that the debt summary
-- finds an expense or a settlement of.
pub get_groups_with_activity-eq :
    (g : ℕ) (ids : List ℕ) (db : Database)
    → contains g ids ≡ true
    → contains g (get_groups_with_activity ids db)
      ≡ (has_rows (list_settlements g db.settlements) || has_rows (list_expenses g db.expenses))
unfolding get_groups_with_activity
get_groups_with_activity-eq g [] db asked = cc
get_groups_with_activity-eq g (k ∷ ks) db asked =
    contains-settlement_groups g (k ∷ ks) asked db.settlements
      (expense_groups (k ∷ ks) db.expenses [])
    ∙ ground (arith, contains-expense_groups g (k ∷ ks) asked db.expenses [])

empty_net :
    (u : ℕ) (es : List GroupExpense) (ss : List Settlement)
    → (has_rows ss || has_rows es) ≡ false
    → group_net u es ss ≡ pos 0
unfolding paid_by owed_by sent_by received_by
empty_net u [] [] h = omega int_laws
empty_net u [] (s ∷ ss) h = cc
empty_net u (e ∷ es) [] h = cc
empty_net u (e ∷ es) (s ∷ ss) h = cc

group_status-IsStatus :
    (net : ℤ) (active : Bool)
    → (active ≡ false → net ≡ pos 0)
    → IsStatus net (group_status net active)
unfolding group_status
group_status-IsStatus net false quiet = quiet refl
group_status-IsStatus net true quiet = elim (Bool-cases (ltb_ℤ (pos 0) net)) [
  | inl positive ↦ rw positive (ground (arith, positive))
  | inr low ↦ elim (Bool-cases (ltb_ℤ net (pos 0))) [
    | inl negative ↦ rw (low, negative) (ground (arith, negative))
    | inr high ↦ rw (low, high) (eq_of_parts net (pos 0) (ground (arith, low, high)))
  ]
]

-- The status that a user sees of a group that is asked for, which is that of the balance and the
-- activity that the two queries give, is right about the net balance over the rows of the group:
-- "you_are_owed" and "you_owe" are shown for one above and below zero, "settled_up" and "no_expenses"
-- only for zero.
pub get_groups_with_activity-IsStatus :
    (u g : ℕ) (ids : List ℕ) (db : Database)
    → contains g ids ≡ true
    → IsStatus (group_net u (list_expenses g db.expenses) (list_settlements g db.settlements)) (
        group_status
          (value g (get_group_net_balances u ids db))
          (contains g (get_groups_with_activity ids db)))
get_groups_with_activity-IsStatus u g ids db asked =
    let net = group_net u (list_expenses g db.expenses) (list_settlements g db.settlements) in
    let active = contains g (get_groups_with_activity ids db) in
    subst (λ shown. IsStatus net (group_status shown active))
      (sym (get_group_net_balances-eq-group_net u g ids db asked))
      (group_status-IsStatus net active λ silent.
        empty_net u (list_expenses g db.expenses) (list_settlements g db.settlements)
          (sym (get_groups_with_activity-eq g ids db asked) ∙ silent))
