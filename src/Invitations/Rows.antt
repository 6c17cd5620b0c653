-- ===== src/Invitations/Rows.antt =====
-- backend/app/models/group_invitation.py and backend/app/repositories/group_invitations.py.
use text.Mathlib.Text.{◌==◌ as str_eq}
use ulutekproje.Common.{
  ℕ, String, Option, none, some, Bool, false, ◌&&◌, ◌||◌, List, [], ◌∷◌, ◌==◌, ltb, leb, is_none,
  if◌then◌else◌,
}
use ulutekproje.Records.{Database, GroupRole, User}

pub record GroupInvitation : Type 0 where
  pub id : ℕ
  pub group_id : ℕ
  pub invited_email : String
  pub role : GroupRole
  pub invited_by_user_id : Option ℕ
  pub token_hash : ℕ
  pub expires_at : ℕ
  pub accepted_at : Option ℕ
  pub accepted_by_user_id : Option ℕ
  pub created_at : ℕ

pub record InvitationStore : Type 0 where
  pub tables : Database
  pub invitations : List GroupInvitation

-- The signed-in user, as `_accept_invitation` sees it.
pub record Guest : Type 0 where
  pub user : User
  pub is_email_verified : Bool

-- What an invitation is looked up by.
pub data InvitationKey : Type 0 where
  by_token_hash by_id : ℕ → InvitationKey

abbrev pub selects : InvitationKey → GroupInvitation → Bool
selects (by_token_hash h) i = i.token_hash == h
selects (by_id k) i = i.id == k

-- `get_by_token_hash` and `get_by_id`
unfoldable pub get_invitation : InvitationKey → List GroupInvitation → Option GroupInvitation
get_invitation key [] = none
get_invitation key (i ∷ is) = if selects key i then some i else get_invitation key is

-- `accepted_at` and `accepted_by_user_id` of the object that `get_invitation` returns.
abbrev pub accepted : ℕ → ℕ → GroupInvitation → GroupInvitation
accepted now user_id i = record i { accepted_at = some now; accepted_by_user_id = some user_id }

unfoldable pub change_invitation :
    InvitationKey
    → (GroupInvitation → GroupInvitation)
    → List GroupInvitation
    → List GroupInvitation
change_invitation key change [] = []
change_invitation key change (i ∷ is) =
    if selects key i then change i ∷ is else i ∷ change_invitation key change is

-- The primary key and the unique token hash of a new row.
unfoldable pub collides : GroupInvitation → List GroupInvitation → Bool
collides new [] = false
collides new (i ∷ is) = i.token_hash == new.token_hash || i.id == new.id || collides new is

-- The `where` of `list_pending_for_email`.
abbrev pub is_pending : String → ℕ → GroupInvitation → Bool
is_pending email now i =
    str_eq i.invited_email email && is_none i.accepted_at && ltb now i.expires_at

unfoldable pub insert_latest : GroupInvitation → List GroupInvitation → List GroupInvitation
insert_latest i [] = i ∷ []
insert_latest i (j ∷ js) =
    if leb j.created_at i.created_at then i ∷ j ∷ js else j ∷ insert_latest i js

unfoldable pub list_pending_for_email : String → ℕ → List GroupInvitation → List GroupInvitation
unfolding insert_latest
list_pending_for_email email now [] = []
list_pending_for_email email now (i ∷ is) =
    let rest = list_pending_for_email email now is in
    if is_pending email now i then insert_latest i rest else rest
