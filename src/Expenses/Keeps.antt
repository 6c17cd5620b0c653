-- ===== src/Expenses/Keeps.antt =====
-- The expenses under the services of groups and settlements.
use ulutekproje.Common.Result.{Result, ok, err}
use ulutekproje.Common.{ℕ, ◌≡◌, refl, sym, subst, inl, inr}
use ulutekproje.Records.{Database, Group, Settlement}
use ulutekproje.Settlements.{SettlementError, CreateSettlement}
use ulutekproje.Settlements as Payments
use ulutekproje.Settlements.Correct.{create_records, create_returns_iff}
use ulutekproje.Groups.{
  GroupError, MemberResponse, add_member, remove_member, update_member_role, archive,
}
use ulutekproje.Groups.Returns.{add_member-Added, remove_member-Removed}
use ulutekproje.Groups.Changes.{update_member_role-Reroled, archive-Archived}
use ulutekproje.Groups.Create.{update_group, get_or_create_direct_group}
use ulutekproje.Groups.Grow.{
  Grows, create_group-Grows, update_group-Grows, get_or_create_direct_group-Grows,
}
use ulutekproje.Groups.Requests.{
  GroupRequest, adds, removes, changes_role, archives, creates, updates, befriends, deletes,
}
use ulutekproje.Groups.Successor.{delete_user-Grows}
use ulutekproje.Groups.Requests as Members

-- The requests on groups leave expenses and settlements alone.
pub record KeepsMoney (db db' : Database) : Type 0 where
  pub expenses : db'.expenses ≡ db.expenses
  pub settlements : db'.settlements ≡ db.settlements

same-KeepsMoney : (db : Database) → KeepsMoney db db
same-KeepsMoney db = record { expenses = refl; settlements = refl }

KeepsMoney-of_Grows : {db db' : Database} → Grows db db' → KeepsMoney db db'
KeepsMoney-of_Grows g = record { expenses = g.expenses; settlements = g.settlements }

pub serve-KeepsMoney : (db : Database) (r : GroupRequest) → KeepsMoney db (Members.serve db r)
unfolding Members.serve
serve-KeepsMoney db (adds now gid actor user role) = go (add_member now db gid actor user role) refl
  where
    go :
        (m : Result GroupError (MemberResponse × Database))
        → add_member now db gid actor user role ≡ m
        → KeepsMoney db (Members.committed db (λ r. r.1) m)
    go (ok (r, db')) e =
        let a = add_member-Added now db gid actor user role r db' e in
        subst (KeepsMoney db) (a.result) (record { expenses = refl; settlements = refl })
    go (err x) e = same-KeepsMoney db
serve-KeepsMoney db (removes now gid actor user) = go (remove_member now db gid actor user) refl
  where
    go :
        (m : Result GroupError Database)
        → remove_member now db gid actor user ≡ m
        → KeepsMoney db (Members.committed db (λ d. d) m)
    go (ok db') e =
        let a = remove_member-Removed now db gid actor user db' e in
        subst (KeepsMoney db) (a.result) (record { expenses = refl; settlements = refl })
    go (err x) e = same-KeepsMoney db
serve-KeepsMoney db (changes_role gid actor user role) =
    go (update_member_role db gid actor user role) refl
  where
    go :
        (m : Result GroupError (MemberResponse × Database))
        → update_member_role db gid actor user role ≡ m
        → KeepsMoney db (Members.committed db (λ r. r.1) m)
    go (ok (r, db')) e =
        let a = update_member_role-Reroled db gid actor user role r db' e in
        elim a.change [
          | inl same ↦ subst (KeepsMoney db) same (same-KeepsMoney db)
          | inr (_, _, result) ↦
              subst (KeepsMoney db) result (record { expenses = refl; settlements = refl })
        ]
    go (err x) e = same-KeepsMoney db
serve-KeepsMoney db (archives now gid actor) = go (archive now db gid actor) refl
  where
    go :
        (m : Result GroupError Database)
        → archive now db gid actor ≡ m
        → KeepsMoney db (Members.committed db (λ d. d) m)
    go (ok db') e =
        let a = archive-Archived now db gid actor db' e in
        elim a.change [
          | inl (_, same) ↦ subst (KeepsMoney db) same (same-KeepsMoney db)
          | inr (_, s, _, _, result) ↦
              subst (KeepsMoney db) result (record { expenses = refl; settlements = refl })
        ]
    go (err x) e = same-KeepsMoney db
serve-KeepsMoney db (creates new_id now actor name description currency) =
    KeepsMoney-of_Grows (create_group-Grows new_id now db actor name description currency)
serve-KeepsMoney db (updates now gid actor texts) = go (update_group now db gid actor texts) refl
  where
    go :
        (m : Result GroupError (Group × Database))
        → update_group now db gid actor texts ≡ m
        → KeepsMoney db (Members.committed db (λ r. r.1) m)
    go (ok (g, db')) e = KeepsMoney-of_Grows (update_group-Grows now db gid actor texts g db' e)
    go (err x) e = same-KeepsMoney db
serve-KeepsMoney db (befriends new_id now choice a b) =
    go (get_or_create_direct_group new_id now choice db a b) refl
  where
    go :
        (m : Result GroupError (Group × Database))
        → get_or_create_direct_group new_id now choice db a b ≡ m
        → KeepsMoney db (Members.committed db (λ r. r.1) m)
    go (ok (g, db')) e =
        KeepsMoney-of_Grows (get_or_create_direct_group-Grows new_id now choice db a b g db' e)
    go (err x) e = same-KeepsMoney db
serve-KeepsMoney db (deletes user_id archived_at) =
    KeepsMoney-of_Grows (delete_user-Grows user_id archived_at db)

pub create-expenses :
    (new_id now : ℕ) (db : Database) (r : CreateSettlement) (s : Settlement) (db' : Database)
    → Payments.create new_id now db r ≡ ok (s, db')
    → db'.expenses ≡ db.expenses
create-expenses new_id now db r s db' e =
    let (g, t, found, accepts) = (create_returns_iff new_id now db r).0 ((s, db'), e) in
    let (s', db'', done, _, _, _, _, _, _, _, expenses, _, _) =
      create_records new_id now db r g t found accepts in
    let same : db'' ≡ db' = cc (done, e) in rw (sym same) expenses
