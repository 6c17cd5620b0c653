-- ===== src/Invitations.antt =====
-- backend/app/services/group_invitation_service.py: inviting an email address into a group, and the
-- acceptance of an invitation. SHA-256 and the normal form of an address
-- (`strip().casefold()`) are parameters, random draws are arguments. A raised exception rolls back.
mod Rows
pub mod Accept
pub mod Once
pub mod Owned
mod Tests
unfoldable pub use Rows.*
use text.Mathlib.Text.{◌==◌ as str_eq}
use ulutekproje.Common.Result.{Result, ok, err, ◌>>=◌, ◌>>◌, raise_if}
use ulutekproje.Common.{
  ℕ, ◌+◌, ◌*◌, String, Option, none, some, Bool, true, false, not, ◌&&◌, ◌||◌, List, [], ◌∷◌, ◌++◌,
  ◌==◌, leb, is_none, if◌then◌else◌,
}
use ulutekproje.Records.{
  Database, Group, GroupMember, GroupRole, owner, admin, member, User, get_group, get_user,
  put_group,
}
use ulutekproje.Records.Members.{or_default}
use ulutekproje.Groups.{
  GroupError, MemberResponse, is_owner, is_admin, same_role, with_members, with_groups,
  enter_member,
}

-- The codes of a `GroupInvitationError`, and the `IntegrityError` of a flush.
pub data InvitationError : Type 0 where
  group_forbidden group_not_found invitation_expired_or_used : InvitationError
  invitation_email_mismatch member_already_exists integrity_error : InvitationError

-- `hash_token` and `normalize_email`
pub record Identity : Type 0 where
  pub hash_token : ℕ → ℕ
  pub normalize_email : String → String

-- `GROUP_INVITATION_LIFETIME`, in seconds.
abbrev pub invitation_lifetime : ℕ
invitation_lifetime = 86400

-- `if x is None: raise e`
abbrev pub demand : {A : Type 0} → InvitationError → Option A → Result InvitationError A
demand e none = err e
demand e (some a) = ok a

-- The roles that an actor may not give by an invitation.
abbrev pub forbidden_role : GroupRole → GroupRole → Bool
forbidden_role actor_role role =
    not (is_owner actor_role || is_admin actor_role)
    || is_owner role
    || (is_admin actor_role && not (same_role role member))

abbrev pub new_invitation : Identity → ℕ → ℕ → ℕ → ℕ → ℕ → String → GroupRole → GroupInvitation
new_invitation identity new_id now token group_id actor_user_id invited_email role = record {
  id = new_id;
  group_id = group_id;
  invited_email = identity.normalize_email invited_email;
  role = role;
  invited_by_user_id = some actor_user_id;
  token_hash = identity.hash_token token;
  expires_at = now + invitation_lifetime;
  accepted_at = none;
  accepted_by_user_id = none;
  created_at = now;
}

-- The token and the name of the group.
unfoldable pub create_invitation :
    Identity
    → ℕ
    → ℕ
    → ℕ
    → InvitationStore
    → ℕ
    → ℕ
    → GroupRole
    → String
    → GroupRole
    → Result InvitationError ((ℕ × String) × InvitationStore)
unfolding collides
create_invitation identity new_id now token store group_id actor_user_id actor_role invited_email
      role =
    do
      raise_if (forbidden_role actor_role role) group_forbidden
      g ← demand group_not_found (get_group group_id (store.tables).groups)
      raise_if (not (is_none g.archived_at)) group_not_found
      let i = new_invitation identity new_id now token group_id actor_user_id invited_email role
      raise_if (collides i store.invitations) integrity_error
      ok ((token, g.name), record store { invitations = store.invitations ++ (i ∷ []) })

-- `except GroupMemberAlreadyExists`
abbrev pub lift_member : {A : Type 0} → Result GroupError A → Result InvitationError A
lift_member (ok a) = ok a
lift_member (err e) = err member_already_exists

abbrev pub joined_response : ℕ → ℕ → User → GroupRole → MemberResponse
joined_response now group_id user role = record {
  group_id = group_id;
  user_id = user.id;
  display_name = or_default user.display_name "Kullanıcı";
  role = role;
  joined_at = now;
  left_at = none;
}

-- The committed tables: the new membership and the invitation that is used.
abbrev pub admitted :
    ℕ → InvitationKey → Guest → Group → List GroupMember → InvitationStore → InvitationStore
admitted now key guest g members store = record {
  tables = with_groups store.tables (put_group (with_members g members) (store.tables).groups);
  invitations = change_invitation key (accepted now (guest.user).id) store.invitations;
}

-- `accept` and `accept_by_id` with `_accept_invitation`.
unfoldable pub accept :
    Identity
    → ℕ
    → InvitationKey
    → Guest
    → InvitationStore
    → Result InvitationError (MemberResponse × InvitationStore)
unfolding get_invitation change_invitation enter_member
accept identity now key guest store = do
  i ← demand invitation_expired_or_used (get_invitation key store.invitations)
  raise_if (not (is_none i.accepted_at) || leb i.expires_at now) invitation_expired_or_used
  raise_if
      (not guest.is_email_verified
        || not (str_eq (identity.normalize_email (guest.user).email) i.invited_email))
      invitation_email_mismatch
  g ← demand invitation_expired_or_used (get_group i.group_id (store.tables).groups)
  raise_if (not (is_none g.archived_at)) invitation_expired_or_used
  members ← lift_member (enter_member now guest.user i.role g.members)
  ok (joined_response now i.group_id guest.user i.role, admitted now key guest g members store)

abbrev pub accept_token :
    Identity
    → ℕ
    → ℕ
    → Guest
    → InvitationStore
    → Result InvitationError (MemberResponse × InvitationStore)
accept_token identity now token guest store =
    accept identity now (by_token_hash (identity.hash_token token)) guest store

-- `_inviter_display_name`, and the inviter that `list_pending` looks up.
abbrev pub inviter_display_name : Option ℕ → List User → String
inviter_display_name none us = "Silinmiş kullanıcı"
inviter_display_name (some k) us = elim (get_user k us) [
  | none ↦ "Silinmiş kullanıcı"
  | some u ↦ or_default u.display_name u.email
]

pub record PendingGroupInvitation : Type 0 where
  pub id : ℕ
  pub group_id : ℕ
  pub group_name : String
  pub role : GroupRole
  pub inviter_display_name : String
  pub created_at : ℕ
  pub expires_at : ℕ

abbrev pub pending_item : GroupInvitation → Group → List User → PendingGroupInvitation
pending_item i g us = record {
  id = i.id;
  group_id = i.group_id;
  group_name = g.name;
  role = i.role;
  inviter_display_name = inviter_display_name i.invited_by_user_id us;
  created_at = i.created_at;
  expires_at = i.expires_at;
}

unfoldable pub pending_items : Database → List GroupInvitation → List PendingGroupInvitation
pending_items db [] = []
pending_items db (i ∷ is) =
    let rest = pending_items db is in
    elim (get_group i.group_id db.groups) [
      | none ↦ rest
      | some g ↦ if is_none g.archived_at then pending_item i g db.users ∷ rest else rest
    ]

unfoldable pub list_pending : Identity → ℕ → String → InvitationStore → List PendingGroupInvitation
unfolding list_pending_for_email pending_items
list_pending identity now email store =
    pending_items store.tables
      (list_pending_for_email (identity.normalize_email email) now store.invitations)
