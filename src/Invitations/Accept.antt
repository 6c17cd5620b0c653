-- ===== src/Invitations/Accept.antt =====
-- When an invitation is accepted, and what that changes.
use text.Mathlib.Text.{◌==◌ as str_eq}
use text.Mathlib.TextEquality.{eq_iff}
use ulutekproje.Common.Result.{ok, Result-cases}
use ulutekproje.Common.{
  ℕ, ◌<◌, ◌≡◌, refl, ◌↔◌, inl, inr, some, true, false, not, ◌||◌, List, arith, leb, Bool-cases,
  Option-cases, is_none,
}
use ulutekproje.Records.{Group, GroupMember, User, get_group}
use ulutekproje.Groups.{MemberResponse, get_member, insert_row, drop_row, joining_row, enter_member}
use ulutekproje.Invitations.{
  GroupInvitation, InvitationStore, InvitationKey, Guest, Identity, get_invitation, accept,
  admitted, joined_response,
}

-- The user has no row of the group, or one of a former membership.
abbrev pub IsOutsider : User → Group → Type 0
IsOutsider u g = (m : GroupMember) → get_member u.id g.members ≡ some m → is_none m.left_at ≡ false

-- Who may use which invitation, and when.
pub record MayAccept (identity : Identity) (now : ℕ) (key : InvitationKey) (guest : Guest)
    (store : InvitationStore) (i : GroupInvitation) (g : Group) : Type 0 where
  pub found : get_invitation key store.invitations ≡ some i
  pub unused : is_none i.accepted_at ≡ true
  pub valid : now < i.expires_at
  pub verified : guest.is_email_verified ≡ true
  pub addressed : identity.normalize_email (guest.user).email ≡ i.invited_email
  pub group : get_group i.group_id (store.tables).groups ≡ some g
  pub unarchived : is_none g.archived_at ≡ true
  pub outside : IsOutsider guest.user g

enter_member_lem :
    (now : ℕ) (i : GroupInvitation) (u : User) (g : Group)
    → IsOutsider u g
    → (ms : List GroupMember) × (enter_member now u i.role g.members ≡ ok ms)
unfolding enter_member
enter_member_lem now i u g outside = elim (Option-cases (get_member u.id g.members)) [
  | inl new ↦ (insert_row (joining_row now u i.role) g.members, cc new)
  | inr (m, found) ↦
      let left = outside m found in
      (insert_row (joining_row now u i.role) (drop_row u.id g.members), cc (found, left))
]

enter_member-IsOutsider :
    (now : ℕ) (i : GroupInvitation) (u : User) (g : Group) (ms : List GroupMember)
    → enter_member now u i.role g.members ≡ ok ms
    → IsOutsider u g
unfolding enter_member
enter_member-IsOutsider now i u g ms h = λ m found. elim (Bool-cases (is_none m.left_at)) [
  | inl active ↦ absurd (cc (found, active, h))
  | inr left ↦ left
]

pub accept_lem :
    (identity : Identity) (now : ℕ) (key : InvitationKey) (guest : Guest) (store : InvitationStore)
    (i : GroupInvitation) (g : Group) (ms : List GroupMember)
    → MayAccept identity now key guest store i g
    → enter_member now guest.user i.role g.members ≡ ok ms
    → accept identity now key guest store
      ≡ ok (joined_response now i.group_id guest.user i.role, admitted now key guest g ms store)
unfolding accept
accept_lem identity now key guest store i g ms a entered =
    let fresh : leb i.expires_at now ≡ false = ground (arith, a.valid) in
    let same : str_eq (identity.normalize_email (guest.user).email) i.invited_email ≡ true =
      (eq_iff _ _).1 a.addressed in
    rw (a.found, a.unused, fresh, a.verified, same, a.group, a.unarchived, entered) refl

-- What a successful `accept` has checked and done.
pub record Accepted (identity : Identity) (now : ℕ) (key : InvitationKey) (guest : Guest)
    (store : InvitationStore) (r : MemberResponse) (store' : InvitationStore) : Type 0 where
  pub invitation : GroupInvitation
  pub room : Group
  pub members : List GroupMember
  pub allowed : MayAccept identity now key guest store invitation room
  pub entered : enter_member now guest.user invitation.role room.members ≡ ok members
  pub result : admitted now key guest room members store ≡ store'

pub accept-Accepted :
    (identity : Identity) (now : ℕ) (key : InvitationKey) (guest : Guest) (store : InvitationStore)
    (r : MemberResponse) (store' : InvitationStore)
    → accept identity now key guest store ≡ ok (r, store')
    → Accepted identity now key guest store r store'
unfolding accept
accept-Accepted identity now key guest store r store' h =
    elim (Option-cases (get_invitation key store.invitations)) [
      | inl unknown ↦ absurd (cc (unknown, h))
      | inr (i, found) ↦
          let used_up = not (is_none i.accepted_at) || leb i.expires_at now in
          let stranger =
            not guest.is_email_verified
            || not (str_eq (identity.normalize_email (guest.user).email) i.invited_email) in
          elim (Bool-cases used_up) [
            | inl used ↦ absurd (cc (found, used, h))
            | inr fresh ↦ elim (Bool-cases stranger) [
              | inl other ↦ absurd (cc (found, fresh, other, h))
              | inr same ↦ elim (Option-cases (get_group i.group_id (store.tables).groups)) [
                | inl gone ↦ absurd (cc (found, fresh, same, gone, h))
                | inr (g, group) ↦ elim (Bool-cases (is_none g.archived_at)) [
                  | inr archived ↦ absurd (cc (found, fresh, same, group, archived, h))
                  | inl unarchived ↦
                      elim (Result-cases (enter_member now guest.user i.role g.members)) [
                        | inr (e, raised) ↦
                            absurd (cc (found, fresh, same, group, unarchived, raised, h))
                        | inl (ms, entered) ↦
                            let allowed : MayAccept identity now key guest store i g = record {
                              found = found;
                              unused = ground (arith, fresh);
                              valid = ground (arith, fresh);
                              verified = ground (arith, same);
                              addressed = (eq_iff _ _).0 (ground (arith, same));
                              group = group;
                              unarchived = unarchived;
                              outside = enter_member-IsOutsider now i guest.user g ms entered;
                            } in
                            let done =
                              accept_lem identity now key guest store i g ms allowed entered in
                            record {
                              invitation = i;
                              room = g;
                              members = ms;
                              allowed = allowed;
                              entered = entered;
                              result = cc (done, h);
                            }
                      ]
                ]
              ]
            ]
          ]
    ]

-- `accept` returns exactly for an invitation that is known, not used and not expired, and a user
-- whose verified address is the invited one, while the invitation's group exists, is not archived and
-- does not have the user as an active member; otherwise it raises.
pub accept_iff :
    (identity : Identity) (now : ℕ) (key : InvitationKey) (guest : Guest) (store : InvitationStore)
    → ((result : MemberResponse × InvitationStore) × (accept identity now key guest store
          ≡ ok result))
      ↔ ((i : GroupInvitation) × (g : Group) × MayAccept identity now key guest store i g)
accept_iff identity now key guest store = (
  (λ ((r, store'), h).
      let a = accept-Accepted identity now key guest store r store' h in
      (a.invitation, a.room, a.allowed)),
  (λ (i, g, allowed).
      let (ms, entered) = enter_member_lem now i guest.user g allowed.outside in
      (
        (joined_response now i.group_id guest.user i.role, admitted now key guest g ms store),
        accept_lem identity now key guest store i g ms allowed entered,
      )),
)
