-- ===== src/Settlements/Tests.antt =====
-- User 2 pays user 1 back 100 of a dinner; text that is typed sloppily is read as TRY.
use ulutekproje.Common.Int.{pos, ◌+ℤ◌}
use ulutekproje.Common.Result.{ok, err}
use ulutekproje.Common.{
  ℕ, ◌≡◌, refl, ◌↔◌, none, some, false, List, [], ◌∷◌, arith, All, if◌then◌else◌, ◌==◌,
}
use ulutekproje.Records.{
  Group, GroupMember, owner, member, Settlement, Database, get_group, list_expenses,
  list_settlements, insert_settlement,
}
use ulutekproje.Records.Members.{active_ids}
use ulutekproje.Summary.Net.{group_net, IsPayable}
use ulutekproje.Settlements.Text.{strip, upper, same_text}
use ulutekproje.Settlements.Correct.{
  Pays, Logged, Accepts, effect, create_records, create_returns_iff, create-IsPayable,
}
use ulutekproje.Settlements.{
  CreateSettlement, aware, create, self_settlement, new_settlement, record_settlement,
}

abbrev row : ℕ → GroupMember
row u = record {
  user_id = u;
  role = if u == 1 then owner else member;
  joined_at = 5;
  left_at = none;
  user = none;
}

abbrev flat : Group
flat = record {
  id = 10;
  name = "Ev";
  description = none;
  currency = 84 ∷ 82 ∷ 89 ∷ [];
  is_direct = false;
  created_by = some 1;
  updated_at = 5;
  archived_at = none;
  members = row 1 ∷ row 2 ∷ [];
}

abbrev db : Database
db = record { users = []; groups = flat ∷ []; expenses = []; settlements = []; activities = [] }

-- " try"
abbrev typed : List ℕ
typed = 32 ∷ 116 ∷ 114 ∷ 121 ∷ []

abbrev pays : ℕ → CreateSettlement
pays receiver = record {
  group_id = 10;
  actor_user_id = 2;
  from_user_id = 2;
  to_user_id = receiver;
  amount_in_minor = pos 100;
  currency = typed;
  settled_at = aware 7;
  note = none;
}

create_self : create 30 8 db (pays 2) ≡ err self_settlement
unfolding create get_group
create_self = refl

upper-strip-typed : upper (strip typed) ≡ 84 ∷ 82 ∷ 89 ∷ []
unfolding upper strip
upper-strip-typed = refl

pays-Accepts : Accepts flat (pays 1) 7
unfolding upper strip active_ids
pays-Accepts = record {
  unarchived = refl;
  own = refl;
  other = λ e. omega (arith, e);
  positive = omega arith;
  bounded = omega arith;
  currency = refl;
  zoned = refl;
  sender = refl;
  receiver = refl;
}

create_records_example :
    (s : Settlement) × (db' : Database) × (create 30 8 db (pays 1) ≡ ok (s, db'))
    × IsPayable s
    × Pays (pays 1) s
    × (s.settled_at ≡ 7)
    × (s.currency ≡ upper flat.currency)
    × (db'.settlements ≡ insert_settlement s db.settlements)
    × Logged 10 2 db.activities db'.activities
    × (db'.users ≡ db.users)
    × (db'.expenses ≡ [])
    × (db'.groups ≡ flat ∷ [])
    × ((u gid : ℕ)
        → group_net u (list_expenses gid db'.expenses) (list_settlements gid db'.settlements)
          ≡ group_net u (list_expenses gid db.expenses) (list_settlements gid db.settlements)
            +ℤ effect u gid (pays 1))
unfolding get_group
create_records_example = create_records 30 8 db (pays 1) flat 7 refl pays-Accepts

create_returns_iff_example :
    ((result : Settlement × Database) × (create 30 8 db (pays 2) ≡ ok result))
    ↔ ((g : Group) × (t : ℕ) × (get_group 10 db.groups ≡ some g) × Accepts g (pays 2) t)
create_returns_iff_example = create_returns_iff 30 8 db (pays 2)

abbrev paid : Settlement
paid = new_settlement 30 8 (pays 1) 7

create-IsPayable_example : All IsPayable (insert_settlement paid [])
unfolding create get_group insert_settlement same_text upper strip active_ids
create-IsPayable_example =
    create-IsPayable 30 8 db (pays 1) paid (record_settlement db (pays 1) paid) tt refl
