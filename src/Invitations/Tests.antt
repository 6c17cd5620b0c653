-- ===== src/Invitations/Tests.antt =====
-- An owner 1 and an invited user 4; the normal form of an address is the address.
use ulutekproje.Common.Result.{ok, err}
use ulutekproje.Common.{
  ℕ, suc, ◌≡◌, ◌↔◌, refl, inr, none, some, true, false, List, [], ◌∷◌, arith, All,
}
use ulutekproje.Records.{Group, GroupMember, owner, member, User, get_group}
use ulutekproje.Groups.{
  MemberResponse, owner_count, get_member, insert_row, enter_member, joining_row,
}
use ulutekproje.Groups.Owners.{IsOwned}
use ulutekproje.Groups.Requests.{removes}
use ulutekproje.Invitations.{
  GroupInvitation, InvitationStore, by_token_hash, by_id, Guest, Identity, get_invitation, accept,
  admitted, joined_response, invitation_expired_or_used, PendingGroupInvitation, list_pending,
}
use ulutekproje.Invitations.Accept.{MayAccept, accept_lem, accept_iff}
use ulutekproje.Invitations.Once.{
  InvitationRequest, invites, accepts, changes, serve_all, accept_once,
}
use ulutekproje.Invitations.Owned.{serve_invited-IsOwned}

abbrev person : ℕ → User
person u = record { id = u; email = "a@example.com"; display_name = some "Ali" }

abbrev flat : Group
flat = record {
  id = 10;
  name = "Ev";
  description = none;
  currency = [];
  is_direct = false;
  created_by = some 1;
  updated_at = 5;
  archived_at = none;
  members =
      record { user_id = 1; role = owner; joined_at = 1; left_at = none; user = some (person 1) }
      ∷ [];
}

abbrev invitation : GroupInvitation
invitation = record {
  id = 50;
  group_id = 10;
  invited_email = "a@example.com";
  role = member;
  invited_by_user_id = some 1;
  token_hash = 61;
  expires_at = 86405;
  accepted_at = none;
  accepted_by_user_id = none;
  created_at = 5;
}

abbrev start : InvitationStore
start = record {
  tables = record {
    users = person 1 ∷ person 4 ∷ [];
    groups = flat ∷ [];
    expenses = [];
    settlements = [];
    activities = [];
  };
  invitations = invitation ∷ [];
}

abbrev identity : Identity
identity = record { hash_token = λ t. suc t; normalize_email = λ s. s }

abbrev guest : Guest
guest = record { user = person 4; is_email_verified = true }

abbrev members : List GroupMember
members =
    record { user_id = 1; role = owner; joined_at = 1; left_at = none; user = some (person 1) }
    ∷ joining_row 9 (person 4) member
    ∷ []

allowed : MayAccept identity 9 (by_id 50) guest start invitation flat
unfolding get_invitation get_group get_member
allowed = record {
  found = refl;
  unused = refl;
  valid = omega arith;
  verified = refl;
  addressed = refl;
  group = refl;
  unarchived = refl;
  outside = λ m h. cc h;
}

entered : enter_member 9 (person 4) member flat.members ≡ ok members
unfolding enter_member get_member insert_row
entered = refl

accept_iff_example :
    ((result : MemberResponse × InvitationStore) × (accept identity 9 (by_id 50) guest start
        ≡ ok result))
    ↔ ((i : GroupInvitation) × (g : Group) × MayAccept identity 9 (by_id 50) guest start i g)
accept_iff_example = accept_iff identity 9 (by_id 50) guest start

accept_once_example :
    accept identity 12 (by_token_hash 61) guest (
      serve_all identity
        (admitted 9 (by_id 50) guest flat members start)
        (changes (removes 11 10 4 4) ∷ []))
    ≡ err invitation_expired_or_used
unfolding get_invitation
accept_once_example =
    accept_once identity 9 (by_id 50) (by_token_hash 61) guest start
      (joined_response 9 10 (person 4) member) (admitted 9 (by_id 50) guest flat members start)
      (changes (removes 11 10 4 4) ∷ []) 12 guest
      (accept_lem identity 9 (by_id 50) guest start invitation flat members allowed entered) refl

abbrev requests : List InvitationRequest
requests = accepts 9 (by_id 50) guest ∷ invites 51 10 70 10 1 owner "b@example.com" member ∷ []

serve_invited-IsOwned_example : All IsOwned (serve_all identity start requests).tables.groups
unfolding owner_count
serve_invited-IsOwned_example =
    serve_invited-IsOwned identity start requests (inr (omega arith), tt)

abbrev pending : List PendingGroupInvitation
pending = list_pending identity 9 "a@example.com" start
