-- ===== src/Settlements.antt =====
-- backend/app/services/settlement_service.py: recording a payment between two members of a group.
-- `create` takes the id and the instant that the database gives to the new row. Texts are ASCII here:
-- `strip` and `upper` treat the code points below 128 as Python does, and keep the others.
pub mod Text
pub mod Correct
mod Tests
use ulutekproje.Common.Int.{ℤ, pos, max_bigint, ltb_ℤ, leb_ℤ}
use ulutekproje.Common.Result.{Result, ok, err, ◌>>=◌, ◌>>◌, raise_if}
use ulutekproje.Common.{
  ℕ, String, Option, none, some, not, ◌&&◌, ◌||◌, List, [], ◌∷◌, ◌==◌, contains, is_none,
}
use ulutekproje.Records.{
  Database, Group, Settlement, settlement_created, get_group, get_user, insert_settlement,
}
use ulutekproje.Records.Members.{active_ids, actor_name}
use ulutekproje.Settlements.Text.{strip, upper, same_text}

-- The codes of a `SettlementValidationError`.
pub data SettlementError : Type 0 where
  group_not_found group_forbidden sender_must_match_actor self_settlement : SettlementError
  invalid_amount currency_mismatch invalid_settled_at member_not_found : SettlementError

-- A `datetime` without and with a time zone; the latter as its instant.
pub data Datetime : Type 0 where
  naive aware : ℕ → Datetime

-- The keyword arguments of `create`.
pub record CreateSettlement : Type 0 where
  pub group_id : ℕ
  pub actor_user_id : ℕ
  pub from_user_id : ℕ
  pub to_user_id : ℕ
  pub amount_in_minor : ℤ
  pub currency : List ℕ
  pub settled_at : Datetime
  pub note : Option String

-- `if settled_at.tzinfo is None or settled_at.utcoffset() is None`
abbrev pub require_zone : Datetime → Result SettlementError ℕ
require_zone (naive t) = err invalid_settled_at
require_zone (aware t) = ok t

-- The guards of `create` on the group; the instant of `settled_at` once they pass.
unfoldable pub check_settlement : Group → CreateSettlement → Result SettlementError ℕ
check_settlement g r = do
  raise_if (not (is_none g.archived_at)) group_forbidden
  raise_if (not (r.from_user_id == r.actor_user_id)) sender_must_match_actor
  raise_if (r.from_user_id == r.to_user_id) self_settlement
  raise_if (leb_ℤ r.amount_in_minor (pos 0) || ltb_ℤ max_bigint r.amount_in_minor) invalid_amount
  raise_if (not (same_text (upper (strip r.currency)) (upper g.currency))) currency_mismatch
  settled_at ← require_zone r.settled_at
  raise_if
      (not (
        contains r.from_user_id (active_ids g.members)
        && contains r.to_user_id (active_ids g.members)))
      member_not_found
  ok settled_at

-- The row that the repository adds, which upper-cases the currency once more.
abbrev pub new_settlement : ℕ → ℕ → CreateSettlement → ℕ → Settlement
new_settlement new_id now r settled_at = record {
  id = new_id;
  group_id = r.group_id;
  from_user_id = r.from_user_id;
  to_user_id = r.to_user_id;
  amount_in_minor = r.amount_in_minor;
  currency = upper (upper (strip r.currency));
  settled_at = settled_at;
  note = r.note;
  created_at = now;
}

-- The flushed rows: the settlement and its entry of the activity log.
abbrev pub record_settlement : Database → CreateSettlement → Settlement → Database
record_settlement db r s = record {
  users = db.users;
  groups = db.groups;
  expenses = db.expenses;
  settlements = insert_settlement s db.settlements;
  activities =
      record {
        group_id = r.group_id;
        actor_user_id = r.actor_user_id;
        payload =
            settlement_created (actor_name (get_user r.actor_user_id db.users)) s.id r.from_user_id
              r.to_user_id r.amount_in_minor (upper (strip r.currency));
      }
      ∷ db.activities;
}

unfoldable pub create :
    ℕ → ℕ → Database → CreateSettlement → Result SettlementError (Settlement × Database)
unfolding check_settlement
create new_id now db r = elim (get_group r.group_id db.groups) [
  | none ↦ err group_not_found
  | some g ↦ do
    settled_at ← check_settlement g r
    let s = new_settlement new_id now r settled_at
    ok (s, record_settlement db r s)
]
