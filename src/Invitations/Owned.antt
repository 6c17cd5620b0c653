-- ===== src/Invitations/Owned.antt =====
-- The owners of groups under invitations and changes of members together.
use ulutekproje.Common.Result.{Result, ok, err}
use ulutekproje.Common.{ℕ, ◌≡◌, refl, subst, inl, inr, String, List, [], ◌∷◌, arith, All}
use ulutekproje.Groups.{MemberResponse, with_members}
use ulutekproje.Groups.Owners.{IsOwned, get_group-All, put_group-All}
use ulutekproje.Groups.Keep.{enter_member-owner_count}
use ulutekproje.Groups.Requests.{serve-IsOwned}
use ulutekproje.Invitations.{
  InvitationStore, InvitationKey, Guest, Identity, InvitationError, create_invitation, accept,
}
use ulutekproje.Invitations.Accept.{accept-Accepted}
use ulutekproje.Invitations.Once.{
  InvitationRequest, invites, accepts, changes, settled, serve, serve_all,
  create_invitation-appends,
}

accept-IsOwned :
    (identity : Identity) (now : ℕ) (key : InvitationKey) (guest : Guest) (store : InvitationStore)
    (r : MemberResponse) (store' : InvitationStore)
    → All IsOwned (store.tables).groups
    → accept identity now key guest store ≡ ok (r, store')
    → All IsOwned (store'.tables).groups
accept-IsOwned identity now key guest store r store' owned h =
    let a = accept-Accepted identity now key guest store r store' h in
    let i = a.invitation in
    let g = a.room in
    let before = get_group-All IsOwned i.group_id (store.tables).groups g (a.allowed).group owned in
    let after : IsOwned (with_members g (a.members)) = elim before [
      | inl archived ↦ inl archived
      | inr one ↦ inr (
          omega (
            arith,
            one,
            enter_member-owner_count now guest.user i.role g.members (a.members) (a.entered),
          ))
    ] in
    subst (λ (s : InvitationStore). All IsOwned (s.tables).groups) (a.result)
      (put_group-All IsOwned (with_members g (a.members)) (store.tables).groups after owned)

serve_one-IsOwned :
    (identity : Identity) (store : InvitationStore) (q : InvitationRequest)
    → All IsOwned (store.tables).groups
    → All IsOwned ((serve identity store q).tables).groups
unfolding serve
serve_one-IsOwned identity store (invites new_id now token gid actor actor_role email role) owned =
    go (create_invitation identity new_id now token store gid actor actor_role email role) refl
  where
    go :
        (m : Result InvitationError ((ℕ × String) × InvitationStore))
        → create_invitation identity new_id now token store gid actor actor_role email role ≡ m
        → All IsOwned ((settled store m).tables).groups
    go (ok (r, store')) e =
        let (_, same) =
          create_invitation-appends identity new_id now token store gid actor actor_role email role
            r store' e in
        rw same owned
    go (err x) e = owned
serve_one-IsOwned identity store (accepts now key guest) owned =
    go (accept identity now key guest store) refl
  where
    go :
        (m : Result InvitationError (MemberResponse × InvitationStore))
        → accept identity now key guest store ≡ m
        → All IsOwned ((settled store m).tables).groups
    go (ok (r, store')) e = accept-IsOwned identity now key guest store r store' owned e
    go (err x) e = owned
serve_one-IsOwned identity store (changes r) owned = serve-IsOwned store.tables r owned

-- Whatever invitations are sent and accepted and whatever changes of members are asked for, in any
-- order and by any actors, every group that is not archived keeps an active owner, if it had one.
pub serve_invited-IsOwned :
    (identity : Identity) (store : InvitationStore) (qs : List InvitationRequest)
    → All IsOwned (store.tables).groups
    → All IsOwned ((serve_all identity store qs).tables).groups
unfolding serve_all
serve_invited-IsOwned identity store [] owned = owned
serve_invited-IsOwned identity store (q ∷ qs) owned =
    serve_invited-IsOwned identity (serve identity store q) qs
      (serve_one-IsOwned identity store q owned)
