-- ===== src/Groups/Requests.antt =====
-- The requests that `GroupService` serves, and the owners of the groups under them.
use ulutekproje.Common.Result.{Result, ok, err}
use ulutekproje.Common.{ℕ, String, Option, none, some, ◌≡◌, refl, List, [], ◌∷◌, All}
use ulutekproje.Records.{Database, Group, GroupRole}
use ulutekproje.Groups.Owners.{IsOwned}
use ulutekproje.Groups.Create.{GroupChanges, create_group, update_group, get_or_create_direct_group}
use ulutekproje.Groups.Grow.{
  create_group-Grows, update_group-Grows, get_or_create_direct_group-Grows,
}
use ulutekproje.Groups.Deletion.{delete_user}
use ulutekproje.Groups.Successor.{delete_user-Grows}
use ulutekproje.Groups.Keep.{
  add_member-IsOwned, remove_member-IsOwned, update_member_role-IsOwned, archive-IsOwned,
}
use ulutekproje.Groups.{
  GroupError, MemberResponse, archive, add_member, remove_member, update_member_role,
}

-- One call of the service, by the actor that it names, or the deletion of a user.
pub data GroupRequest : Type 0 where
  adds : (now group_id actor_user_id user_id : ℕ) (role : GroupRole) → GroupRequest
  removes : (now group_id actor_user_id user_id : ℕ) → GroupRequest
  changes_role : (group_id actor_user_id user_id : ℕ) (role : GroupRole) → GroupRequest
  archives : (now group_id actor_user_id : ℕ) → GroupRequest
  creates :
      (new_id now actor_user_id : ℕ) (name : String) (description : Option String)
      (currency : List ℕ)
      → GroupRequest
  updates : (now group_id actor_user_id : ℕ) (texts : GroupChanges) → GroupRequest
  befriends : (new_id now choice user_a_id user_b_id : ℕ) → GroupRequest
  deletes : (user_id archived_at : ℕ) → GroupRequest

-- The user whose row a request deletes.
abbrev pub deleted_user : GroupRequest → Option ℕ
deleted_user (adds now gid actor user role) = none
deleted_user (removes now gid actor user) = none
deleted_user (changes_role gid actor user role) = none
deleted_user (archives now gid actor) = none
deleted_user (creates new_id now actor name description currency) = none
deleted_user (updates now gid actor texts) = none
deleted_user (befriends new_id now choice a b) = none
deleted_user (deletes user_id archived_at) = some user_id

-- The database after a call: a raised exception rolls it back.
abbrev pub committed : {A : Type 0} → Database → (A → Database) → Result GroupError A → Database
committed db f (ok a) = f a
committed db f (err e) = db

unfoldable pub serve : Database → GroupRequest → Database
serve db (adds now gid actor user role) =
    committed db (λ r. r.1) (add_member now db gid actor user role)
serve db (removes now gid actor user) = committed db (λ d. d) (remove_member now db gid actor user)
serve db (changes_role gid actor user role) =
    committed db (λ r. r.1) (update_member_role db gid actor user role)
serve db (archives now gid actor) = committed db (λ d. d) (archive now db gid actor)
serve db (creates new_id now actor name description currency) =
    (create_group new_id now db actor name description currency).1
serve db (updates now gid actor texts) =
    committed db (λ r. r.1) (update_group now db gid actor texts)
serve db (befriends new_id now choice a b) =
    committed db (λ r. r.1) (get_or_create_direct_group new_id now choice db a b)
serve db (deletes user_id archived_at) = (delete_user user_id archived_at db).1

unfoldable pub serve_all : Database → List GroupRequest → Database
unfolding serve
serve_all db [] = db
serve_all db (q ∷ qs) = serve_all (serve db q) qs

pub serve-IsOwned :
    (db : Database) (q : GroupRequest) → All IsOwned db.groups → All IsOwned (serve db q).groups
unfolding serve
serve-IsOwned db (adds now gid actor user role) owned =
    go (add_member now db gid actor user role) refl
  where
    go :
        (m : Result GroupError (MemberResponse × Database))
        → add_member now db gid actor user role ≡ m
        → All IsOwned (committed db (λ r. r.1) m).groups
    go (ok (r, db')) e = add_member-IsOwned now db gid actor user role r db' owned e
    go (err x) e = owned
serve-IsOwned db (removes now gid actor user) owned = go (remove_member now db gid actor user) refl
  where
    go :
        (m : Result GroupError Database)
        → remove_member now db gid actor user ≡ m
        → All IsOwned (committed db (λ d. d) m).groups
    go (ok db') e = remove_member-IsOwned now db gid actor user db' owned e
    go (err x) e = owned
serve-IsOwned db (changes_role gid actor user role) owned =
    go (update_member_role db gid actor user role) refl
  where
    go :
        (m : Result GroupError (MemberResponse × Database))
        → update_member_role db gid actor user role ≡ m
        → All IsOwned (committed db (λ r. r.1) m).groups
    go (ok (r, db')) e = update_member_role-IsOwned db gid actor user role r db' owned e
    go (err x) e = owned
serve-IsOwned db (archives now gid actor) owned = go (archive now db gid actor) refl
  where
    go :
        (m : Result GroupError Database)
        → archive now db gid actor ≡ m
        → All IsOwned (committed db (λ d. d) m).groups
    go (ok db') e = archive-IsOwned now db gid actor db' owned e
    go (err x) e = owned
serve-IsOwned db (creates new_id now actor name description currency) owned =
    (create_group-Grows new_id now db actor name description currency).owned owned
serve-IsOwned db (updates now gid actor texts) owned = go (update_group now db gid actor texts) refl
  where
    go :
        (m : Result GroupError (Group × Database))
        → update_group now db gid actor texts ≡ m
        → All IsOwned (committed db (λ r. r.1) m).groups
    go (ok (g, db')) e = (update_group-Grows now db gid actor texts g db' e).owned owned
    go (err x) e = owned
serve-IsOwned db (befriends new_id now choice a b) owned =
    go (get_or_create_direct_group new_id now choice db a b) refl
  where
    go :
        (m : Result GroupError (Group × Database))
        → get_or_create_direct_group new_id now choice db a b ≡ m
        → All IsOwned (committed db (λ r. r.1) m).groups
    go (ok (g, db')) e =
        (get_or_create_direct_group-Grows new_id now choice db a b g db' e).owned owned
    go (err x) e = owned
serve-IsOwned db (deletes user_id archived_at) owned =
    (delete_user-Grows user_id archived_at db).owned owned
