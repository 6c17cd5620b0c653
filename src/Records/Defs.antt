-- ===== src/Records/Defs.antt =====
-- The rows themselves.
use ulutekproje.Common.Int.{ℤ}
use ulutekproje.Common.{ℕ, String, Option, Bool, List}

-- backend/app/models/user.py, the fields that the modelled services read.
pub record User : Type 0 where
  pub id : ℕ
  pub email : String
  pub display_name : Option String

-- backend/app/models/group.py
pub data GroupRole : Type 0 where
  owner admin member : GroupRole

-- `user` is the loaded relationship: absent once the user is deleted.
pub record GroupMember : Type 0 where
  pub user_id : ℕ
  pub role : GroupRole
  pub joined_at : ℕ
  pub left_at : Option ℕ
  pub user : Option User

pub record Group : Type 0 where
  pub id : ℕ
  pub name : String
  pub description : Option String
  pub currency : List ℕ
  pub is_direct : Bool
  pub created_by : Option ℕ
  pub updated_at : ℕ
  pub archived_at : Option ℕ
  pub members : List GroupMember

-- backend/app/models/group_expense.py; a share is a user with an amount.
pub data ExpenseSplitType : Type 0 where
  equal percentage fixed_amount itemized : ExpenseSplitType

pub record GroupExpense : Type 0 where
  pub id : ℕ
  pub group_id : ℕ
  pub receipt_id : Option ℕ
  pub payer_user_id : ℕ
  pub created_by_id : ℕ
  pub title : String
  pub note : Option String
  pub expense_date : ℕ
  pub total_amount_in_minor : ℤ
  pub currency : List ℕ
  pub split_type : ExpenseSplitType
  pub shares : List (ℕ × ℤ)
  pub idempotency_key : Option ℕ
  pub idempotency_request_hash : Option ℕ
  pub created_at : ℕ
  pub deleted_at : Option ℕ

-- backend/app/models/settlement.py
pub record Settlement : Type 0 where
  pub id : ℕ
  pub group_id : ℕ
  pub from_user_id : ℕ
  pub to_user_id : ℕ
  pub amount_in_minor : ℤ
  pub currency : List ℕ
  pub settled_at : ℕ
  pub note : Option String
  pub created_at : ℕ

-- backend/app/models/activity_log.py: `type` and `payload_json`, whose keys depend on the type.
pub data ActivityPayload : Type 0 where
  settlement_created :
      (actor_display_name : String) (settlement_id from_user_id to_user_id : ℕ)
      (amount_in_minor : ℤ) (currency : List ℕ)
      → ActivityPayload
  member_joined :
      (actor_display_name : String) (member_user_id : ℕ) (member_display_name : String)
      → ActivityPayload
  expense_created :
      (actor_display_name : String) (expense_id : ℕ) (title : String) (total_amount_in_minor : ℤ)
      (currency : List ℕ) (payer_user_id : ℕ) (shares : List (ℕ × ℤ))
      → ActivityPayload

pub record ActivityLog : Type 0 where
  pub group_id : ℕ
  pub actor_user_id : ℕ
  pub payload : ActivityPayload

-- The tables that the group services read and write; the log has its oldest entry last.
pub record Database : Type 0 where
  pub users : List User
  pub groups : List Group
  pub expenses : List GroupExpense
  pub settlements : List Settlement
  pub activities : List ActivityLog
