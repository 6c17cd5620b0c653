-- ===== src/Invitations/Once.antt =====
-- An accepted invitation over later requests to the services of groups and invitations.
use ulutekproje.Common.Result.{Result, ok, err}
use ulutekproje.Common.{
  ℕ, ◌≡◌, refl, sym, ap, subst, true, ◌∙◌, inl, inr, Option, none, some, false, map, List, [], ◌∷◌,
  ◌++◌, arith, Bool-cases, is_none, String,
}
use ulutekproje.Records.{GroupRole}
use ulutekproje.Groups.{MemberResponse}
use ulutekproje.Groups.Requests.{GroupRequest, deleted_user}
use ulutekproje.Groups.Deletion.{set_null}
use ulutekproje.Groups.Requests as Members
use ulutekproje.Invitations.{
  GroupInvitation, InvitationStore, InvitationKey, Guest, Identity, InvitationError, selects,
  accepted, get_invitation, change_invitation, new_invitation, create_invitation, accept,
  invitation_expired_or_used,
}
use ulutekproje.Invitations.Accept.{accept-Accepted}

-- A call of the invitation service, or of the group service.
pub data InvitationRequest : Type 0 where
  invites :
      (new_id now token group_id actor_user_id : ℕ) (actor_role : GroupRole) (email : String)
      (role : GroupRole)
      → InvitationRequest
  accepts : (now : ℕ) (key : InvitationKey) (guest : Guest) → InvitationRequest
  changes : (request : GroupRequest) → InvitationRequest

-- The tables after a call: a raised exception rolls them back.
abbrev pub settled :
    {A : Type 0} → InvitationStore → Result InvitationError (A × InvitationStore) → InvitationStore
settled store (ok (a, store')) = store'
settled store (err e) = store

-- `ON DELETE SET NULL` of the two users of an invitation.
abbrev pub unlink : ℕ → GroupInvitation → GroupInvitation
unlink user_id i = record i {
  invited_by_user_id = set_null user_id i.invited_by_user_id;
  accepted_by_user_id = set_null user_id i.accepted_by_user_id;
}

abbrev pub unlinked : Option ℕ → List GroupInvitation → List GroupInvitation
unlinked none is = is
unlinked (some user_id) is = map (unlink user_id) is

unfoldable pub serve : Identity → InvitationStore → InvitationRequest → InvitationStore
serve identity store (invites new_id now token gid actor actor_role email role) =
    settled store
      (create_invitation identity new_id now token store gid actor actor_role email role)
serve identity store (accepts now key guest) = settled store (accept identity now key guest store)
serve identity store (changes r) = record {
  tables = Members.serve store.tables r;
  invitations = unlinked (deleted_user r) store.invitations;
}

unfoldable pub serve_all : Identity → InvitationStore → List InvitationRequest → InvitationStore
unfolding serve
serve_all identity store [] = store
serve_all identity store (q ∷ qs) = serve_all identity (serve identity store q) qs

-- The key finds an invitation that was accepted.
abbrev pub IsUsed : InvitationKey → List GroupInvitation → Type 0
IsUsed key is =
    (i : GroupInvitation) × (get_invitation key is ≡ some i) × (is_none i.accepted_at ≡ false)

selects-accepted :
    (key : InvitationKey) (now user : ℕ) (i : GroupInvitation)
    → selects key (accepted now user i) ≡ selects key i
selects-accepted (InvitationKey.by_token_hash h) now user i = refl
selects-accepted (InvitationKey.by_id k) now user i = refl

-- Another acceptance leaves a used invitation used.
change_invitation-IsUsed :
    (key other : InvitationKey) (now user : ℕ) (is : List GroupInvitation)
    → IsUsed key is
    → IsUsed key (change_invitation other (accepted now user) is)
unfolding get_invitation change_invitation
change_invitation-IsUsed key other now user [] (i, found, used) = absurd (cc found)
change_invitation-IsUsed key other now user (j ∷ js) (i, found, used) =
    elim (Bool-cases (selects key j)) [
      | inl mine ↦
          let same : j ≡ i = cc (mine, found) in
          let mine' = selects-accepted key now user j ∙ mine in
          elim (Bool-cases (selects other j)) [
            | inl hit ↦ rw hit (accepted now user j, cc mine', refl)
            | inr miss ↦ rw miss (j, cc mine, rw same used)
          ]
      | inr not_mine ↦ elim (Bool-cases (selects other j)) [
        | inl hit ↦
            let not_mine' = selects-accepted key now user j ∙ not_mine in
            rw hit (i, cc (not_mine', not_mine, found), used)
        | inr miss ↦
            let (i', found', used') =
              change_invitation-IsUsed key other now user js (i, cc (not_mine, found), used) in
            rw miss (i', cc (not_mine, found'), used')
      ]
    ]

append-IsUsed :
    (key : InvitationKey) (new : GroupInvitation) (is : List GroupInvitation)
    → IsUsed key is
    → IsUsed key (is ++ (new ∷ []))
unfolding get_invitation
append-IsUsed key new [] (i, found, used) = absurd (cc found)
append-IsUsed key new (j ∷ js) (i, found, used) = elim (Bool-cases (selects key j)) [
  | inl mine ↦ (i, cc (mine, found), used)
  | inr not_mine ↦
      let (i', found', used') = append-IsUsed key new js (i, cc (not_mine, found), used) in
      (i', cc (not_mine, found'), used')
]

get_invitation-selects :
    (key : InvitationKey) (is : List GroupInvitation) (i : GroupInvitation)
    → get_invitation key is ≡ some i
    → selects key i ≡ true
unfolding get_invitation
get_invitation-selects key [] i found = absurd (cc found)
get_invitation-selects key (j ∷ js) i found = elim (Bool-cases (selects key j)) [
  | inl mine ↦ let same : j ≡ i = cc (mine, found) in ap (selects key) (sym same) ∙ mine
  | inr not_mine ↦ get_invitation-selects key js i (cc (not_mine, found))
]

-- The acceptance uses the invitation, by whichever key it is looked up afterwards.
accepted-IsUsed :
    (key other : InvitationKey) (now user : ℕ) (is : List GroupInvitation) (i : GroupInvitation)
    → get_invitation key is ≡ some i
    → get_invitation other is ≡ some i
    → IsUsed other (change_invitation key (accepted now user) is)
unfolding get_invitation change_invitation
accepted-IsUsed key other now user [] i found seen = absurd (cc found)
accepted-IsUsed key other now user (j ∷ js) i found seen = elim (Bool-cases (selects key j)) [
  | inl mine ↦
      let same : j ≡ i = cc (mine, found) in
      let hit : selects other j ≡ true =
        ap (selects other) same ∙ get_invitation-selects other (j ∷ js) i seen in
      let hit' = selects-accepted other now user j ∙ hit in
      rw mine (accepted now user j, cc hit', refl)
  | inr not_mine ↦ elim (Bool-cases (selects other j)) [
    | inl hit ↦
        let same : j ≡ i = cc (hit, seen) in
        let mine : selects key j ≡ true =
          ap (selects key) same ∙ get_invitation-selects key js i (cc (not_mine, found)) in
        absurd (cc (not_mine, mine))
    | inr miss ↦
        let (i', found', used') =
          accepted-IsUsed key other now user js i (cc (not_mine, found)) (cc (miss, seen)) in
        rw not_mine (i', cc (miss, found'), used')
  ]
]

pub create_invitation-appends :
    (identity : Identity) (new_id now token : ℕ) (store : InvitationStore) (gid actor : ℕ)
    (actor_role : GroupRole) (email : String) (role : GroupRole) (r : ℕ × String)
    (store' : InvitationStore)
    → create_invitation identity new_id now token store gid actor actor_role email role
      ≡ ok (r, store')
    → (store'.invitations
        ≡ store.invitations ++ (new_invitation identity new_id now token gid actor email role ∷ []))
      × (store'.tables ≡ store.tables)
unfolding create_invitation
create_invitation-appends identity new_id now token store gid actor actor_role email role r store'
      h =
    (ground arith, ground arith)

selects-unlink :
    (key : InvitationKey) (user : ℕ) (i : GroupInvitation)
    → selects key (unlink user i) ≡ selects key i
selects-unlink (InvitationKey.by_token_hash h) user i = refl
selects-unlink (InvitationKey.by_id k) user i = refl

unlinked-IsUsed :
    (key : InvitationKey) (user : Option ℕ) (is : List GroupInvitation)
    → IsUsed key is
    → IsUsed key (unlinked user is)
unfolding get_invitation
unlinked-IsUsed key none is used = used
unlinked-IsUsed key (some user) is (i, found, gone) = (unlink user i, go is found, gone)
  where
    go :
        (js : List GroupInvitation)
        → get_invitation key js ≡ some i
        → get_invitation key (map (unlink user) js) ≡ some (unlink user i)
    go [] h = cc
    go (j ∷ js) h = elim (Bool-cases (selects key j)) [
      | inl e ↦
          let same : j ≡ i = cc (e, h) in cc (selects-unlink key user j, e, ap (unlink user) same)
      | inr e ↦ cc (selects-unlink key user j, e, go js (cc (e, h)))
    ]

serve-IsUsed :
    (identity : Identity) (key : InvitationKey) (store : InvitationStore) (q : InvitationRequest)
    → IsUsed key store.invitations
    → IsUsed key (serve identity store q).invitations
unfolding serve
serve-IsUsed identity key store (invites new_id now token gid actor actor_role email role) used =
    go (create_invitation identity new_id now token store gid actor actor_role email role) refl
  where
    go :
        (m : Result InvitationError ((ℕ × String) × InvitationStore))
        → create_invitation identity new_id now token store gid actor actor_role email role ≡ m
        → IsUsed key (settled store m).invitations
    go (ok (r, store')) e =
        let (appended, _) =
          create_invitation-appends identity new_id now token store gid actor actor_role email role
            r store' e in
        rw appended (
          append-IsUsed key (new_invitation identity new_id now token gid actor email role)
            store.invitations used)
    go (err x) e = used
serve-IsUsed identity key store (accepts now other guest) used =
    go (accept identity now other guest store) refl
  where
    go :
        (m : Result InvitationError (MemberResponse × InvitationStore))
        → accept identity now other guest store ≡ m
        → IsUsed key (settled store m).invitations
    go (ok (r, store')) e =
        let a = accept-Accepted identity now other guest store r store' e in
        subst (λ (s : InvitationStore). IsUsed key s.invitations) (a.result)
          (change_invitation-IsUsed key other now (guest.user).id store.invitations used)
    go (err x) e = used
serve-IsUsed identity key store (changes r) used =
    unlinked-IsUsed key (deleted_user r) store.invitations used

serve_all-IsUsed :
    (identity : Identity) (key : InvitationKey) (store : InvitationStore)
    (qs : List InvitationRequest)
    → IsUsed key store.invitations
    → IsUsed key (serve_all identity store qs).invitations
unfolding serve_all
serve_all-IsUsed identity key store [] used = used
serve_all-IsUsed identity key store (q ∷ qs) used =
    serve_all-IsUsed identity key (serve identity store q) qs
      (serve-IsUsed identity key store q used)

-- Once an invitation was accepted, by its token or by its id, both are refused to everybody as expired
-- or used, and so is every key that found this invitation, whatever was asked of invitations and
-- groups in between.
pub accept_once :
    (identity : Identity) (now : ℕ) (key other : InvitationKey) (guest : Guest)
    (store : InvitationStore) (r : MemberResponse) (store' : InvitationStore)
    (qs : List InvitationRequest) (later : ℕ) (guest' : Guest)
    → accept identity now key guest store ≡ ok (r, store')
    → get_invitation other store.invitations ≡ get_invitation key store.invitations
    → accept identity later other guest' (serve_all identity store' qs)
      ≡ err invitation_expired_or_used
unfolding accept
accept_once identity now key other guest store r store' qs later guest' h same =
    let a = accept-Accepted identity now key guest store r store' h in
    let found = (a.allowed).found in
    let used : IsUsed other store'.invitations =
      subst (λ (s : InvitationStore). IsUsed other s.invitations) (a.result)
        (accepted-IsUsed key other now (guest.user).id store.invitations a.invitation found
          (same ∙ found)) in
    let (i, seen, gone) = serve_all-IsUsed identity other store' qs used in rw (seen, gone) refl
