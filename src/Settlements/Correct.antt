-- ===== src/Settlements/Correct.antt =====
-- When `create` accepts a payment, and what the payment changes.
use ulutekproje.Common.Int.{
  ℤ, pos, max_bigint, ◌+ℤ◌, ◌-ℤ◌, ◌≤ℤ◌, leb_ℤ, ltb_ℤ, int_laws, parts_of_eq,
}
use ulutekproje.Common.Result.{ok, err, Result-cases}
use ulutekproje.Common.{
  ℕ, ◌≡◌, ◌≢◌, refl, ap, ◌∙◌, subst, ◌↔◌, none, some, inl, inr, Bool, true, false, ◌&&◌, ◌||◌, List,
  [], ◌∷◌, arith, ◌==◌, ==_iff, contains, All, Option-cases, is_none, leb, ltb, if◌then◌else◌,
}
use ulutekproje.Records.{
  Database, Group, Settlement, ActivityLog, get_group, list_expenses, list_settlements,
  insert_settlement,
}
use ulutekproje.Records.Members.{active_ids}
use ulutekproje.Settlements.Text.{strip, upper, same_text_iff}
use ulutekproje.Settlements.{
  SettlementError, aware, CreateSettlement, check_settlement, new_settlement, record_settlement,
  create,
}
use ulutekproje.Summary.Net.{sent_by, received_by, group_net, IsPayable}

-- The payments that a group takes, with the instant of `settled_at`.
pub record Accepts (g : Group) (r : CreateSettlement) (settled_at : ℕ) : Type 0 where
  pub unarchived : is_none g.archived_at ≡ true
  pub own : r.from_user_id ≡ r.actor_user_id
  pub other : r.from_user_id ≢ r.to_user_id
  pub positive : pos 1 ≤ℤ r.amount_in_minor
  pub bounded : r.amount_in_minor ≤ℤ max_bigint
  pub currency : upper (strip r.currency) ≡ upper g.currency
  pub zoned : r.settled_at ≡ aware settled_at
  pub sender : contains r.from_user_id (active_ids g.members) ≡ true
  pub receiver : contains r.to_user_id (active_ids g.members) ≡ true

check_settlement_lem :
    (g : Group) (r : CreateSettlement) (t : ℕ) → Accepts g r t → check_settlement g r ≡ ok t
unfolding check_settlement
check_settlement_lem g r t a = rw (
  a.unarchived,
  (==_iff _ _).1 a.own,
  differs,
  small,
  (same_text_iff _ _).1 a.currency,
  a.zoned,
  a.sender,
  a.receiver,
)
  where
    differs : (r.from_user_id == r.to_user_id) ≡ false
    differs = ground (arith, a.other)

    small : (leb_ℤ r.amount_in_minor (pos 0) || ltb_ℤ max_bigint r.amount_in_minor) ≡ false
    small = ground (arith, a.positive, a.bounded)

check_settlement-Accepts :
    (g : Group) (r : CreateSettlement) (t : ℕ) → check_settlement g r ≡ ok t → Accepts g r t
unfolding check_settlement
check_settlement-Accepts g r t h = record {
  unarchived = ground arith;
  own = ground arith;
  other = ground arith;
  positive = ground arith;
  bounded = ground arith;
  currency = (same_text_iff _ _).0 (ground arith);
  zoned = ground arith;
  sender = ground arith;
  receiver = ground arith;
}

-- The settlements of a group with a new row among them.
sent_by-insert :
    (u gid : ℕ) (s : Settlement) (ss : List Settlement)
    → sent_by u (list_settlements gid (insert_settlement s ss))
      ≡ sent_by u (list_settlements gid (s ∷ ss))
unfolding sent_by list_settlements insert_settlement
sent_by-insert u gid s [] = refl
sent_by-insert u gid s (t ∷ ts) = grind (int_laws, sent_by-insert u gid s ts)

received_by-insert :
    (u gid : ℕ) (s : Settlement) (ss : List Settlement)
    → received_by u (list_settlements gid (insert_settlement s ss))
      ≡ received_by u (list_settlements gid (s ∷ ss))
unfolding received_by list_settlements insert_settlement
received_by-insert u gid s [] = refl
received_by-insert u gid s (t ∷ ts) = grind (int_laws, received_by-insert u gid s ts)

insert-IsPayable :
    (s : Settlement) (ss : List Settlement)
    → IsPayable s
    → All IsPayable ss
    → All IsPayable (insert_settlement s ss)
unfolding insert_settlement
insert-IsPayable s [] p ps = (p, tt)
insert-IsPayable s (t ∷ ts) p ps =
    go (ltb t.settled_at s.settled_at || (t.settled_at == s.settled_at && leb t.id s.id))
      (insert-IsPayable s ts p ps.1)
  where
    go :
        (b : Bool)
        → All IsPayable (insert_settlement s ts)
        → All IsPayable (if b then s ∷ t ∷ ts else t ∷ insert_settlement s ts)
    go true rest = (p, ps)
    go false rest = (ps.0, rest)

-- What a recorded payment of the group `gid` adds to the net balance of the user `u`.
unfoldable pub effect : ℕ → ℕ → CreateSettlement → ℤ
effect u gid r =
    if gid == r.group_id
    then (if u == r.from_user_id then r.amount_in_minor else pos 0)
      -ℤ (if u == r.to_user_id then r.amount_in_minor else pos 0)
    else pos 0

group_net-record_settlement :
    (u gid : ℕ) (db : Database) (r : CreateSettlement) (new_id now t : ℕ)
    → group_net u
        (list_expenses gid db.expenses)
        (list_settlements gid (insert_settlement (new_settlement new_id now r t) db.settlements))
      ≡ group_net u (list_expenses gid db.expenses) (list_settlements gid db.settlements)
        +ℤ effect u gid r
unfolding effect sent_by received_by list_settlements
group_net-record_settlement u gid db r new_id now t =
    let s = new_settlement new_id now r t in
    omega (
      int_laws,
      parts_of_eq (sent_by-insert u gid s db.settlements),
      parts_of_eq (received_by-insert u gid s db.settlements),
      parts_of_eq changed,
    )
  where
    changed :
        sent_by u (list_settlements gid (new_settlement new_id now r t ∷ db.settlements))
          -ℤ received_by u (list_settlements gid (new_settlement new_id now r t ∷ db.settlements))
        ≡ sent_by u (list_settlements gid db.settlements)
          -ℤ received_by u (list_settlements gid db.settlements)
          +ℤ effect u gid r
    changed = grind int_laws

upper_twice : (cs : List ℕ) → upper (upper cs) ≡ upper cs
unfolding upper
upper_twice [] = refl
upper_twice (c ∷ cs) = grind (arith, upper_twice cs)

-- The row of a request.
abbrev pub Pays : CreateSettlement → Settlement → Type 0
Pays r s =
    (s.group_id ≡ r.group_id)
    × (s.from_user_id ≡ r.from_user_id)
    × (s.to_user_id ≡ r.to_user_id)
    × (s.amount_in_minor ≡ r.amount_in_minor)

-- A log with one entry more, of a group and an actor.
abbrev pub Logged : ℕ → ℕ → List ActivityLog → List ActivityLog → Type 0
Logged gid actor before after =
    (entry : ActivityLog) × (after ≡ entry ∷ before)
    × (entry.group_id ≡ gid)
    × (entry.actor_user_id ≡ actor)

-- A payment that the group accepts is recorded: the new row joins the settlements and is the positive
-- payment of the request between two users, at the instant that the request names and in the currency
-- of the group, in capitals; one entry of the group and the actor joins the log; users, groups and
-- expenses stay; and in this group alone the sender's net balance grows by the amount and the
-- receiver's shrinks by it.
pub create_records :
    (new_id now : ℕ) (db : Database) (r : CreateSettlement) (g : Group) (t : ℕ)
    → get_group r.group_id db.groups ≡ some g
    → Accepts g r t
    → (s : Settlement) × (db' : Database) × (create new_id now db r ≡ ok (s, db'))
      × IsPayable s
      × Pays r s
      × (s.settled_at ≡ t)
      × (s.currency ≡ upper g.currency)
      × (db'.settlements ≡ insert_settlement s db.settlements)
      × Logged r.group_id r.actor_user_id db.activities db'.activities
      × (db'.users ≡ db.users)
      × (db'.expenses ≡ db.expenses)
      × (db'.groups ≡ db.groups)
      × ((u gid : ℕ)
          → group_net u (list_expenses gid db'.expenses) (list_settlements gid db'.settlements)
            ≡ group_net u (list_expenses gid db.expenses) (list_settlements gid db.settlements)
              +ℤ effect u gid r)
unfolding create
create_records new_id now db r g t found accepts =
    let s = new_settlement new_id now r t in
    (
      s,
      record_settlement db r s,
      rw (found, create, check_settlement_lem g r t accepts),
      (accepts.other, accepts.positive),
      (refl, refl, refl, refl),
      refl,
      ap upper accepts.currency ∙ upper_twice g.currency,
      refl,
      (_, refl, refl, refl),
      refl,
      refl,
      refl,
      λ u gid. group_net-record_settlement u gid db r new_id now t,
    )

-- `create` returns exactly for a payment that the group of the request accepts; otherwise it raises.
pub create_returns_iff :
    (new_id now : ℕ) (db : Database) (r : CreateSettlement)
    → ((result : Settlement × Database) × (create new_id now db r ≡ ok result))
      ↔ ((g : Group) × (t : ℕ) × (get_group r.group_id db.groups ≡ some g) × Accepts g r t)
unfolding create
create_returns_iff new_id now db r = (
  (λ (result, e). elim (Option-cases (get_group r.group_id db.groups)) [
    | inl none_found ↦ absurd (refused none_found e)
    | inr (g, found) ↦ elim (Result-cases (check_settlement g r)) [
      | inl (t, passed) ↦ (g, t, found, check_settlement-Accepts g r t passed)
      | inr (x, raised) ↦ absurd (raises g x found raised e)
    ]
  ]),
  λ (g, t, found, accepts). (
    (new_settlement new_id now r t, record_settlement db r (new_settlement new_id now r t)),
    rw (found, create, check_settlement_lem g r t accepts),
  ),
)
  where
    refused :
        {x : Settlement × Database}
        → get_group r.group_id db.groups ≡ none
        → create new_id now db r ≡ ok x
        → ⊥
    refused none_found e = cc (none_found, e)

    raises :
        {x : Settlement × Database} (g : Group) (y : SettlementError)
        → get_group r.group_id db.groups ≡ some g
        → check_settlement g r ≡ err y
        → create new_id now db r ≡ ok x
        → ⊥
    raises g y found raised e = cc (found, raised, e)

-- Every recorded payment leaves all settlements positive payments between two users.
pub create-IsPayable :
    (new_id now : ℕ) (db : Database) (r : CreateSettlement) (s : Settlement) (db' : Database)
    → All IsPayable db.settlements
    → create new_id now db r ≡ ok (s, db')
    → All IsPayable db'.settlements
unfolding create
create-IsPayable new_id now db r s db' payable e =
    let (g, t, found, accepts) = (create_returns_iff new_id now db r).0 ((s, db'), e) in
    let row = new_settlement new_id now r t in
    let recorded : create new_id now db r ≡ ok (row, record_settlement db r row) =
      rw (found, create, check_settlement_lem g r t accepts) in
    let same : record_settlement db r row ≡ db' = cc (recorded, e) in
    subst (λ (d : Database). All IsPayable d.settlements) same
      (insert-IsPayable row db.settlements (accepts.other, accepts.positive) payable)
