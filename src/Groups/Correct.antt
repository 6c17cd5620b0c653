-- ===== src/Groups/Correct.antt =====
-- What the methods promise over any course of requests, and what leaving and archiving mean for debts.
use ulutekproje.Common.Int.{pos, eqb_ℤ_iff}
use ulutekproje.Common.Dict.{value}
use ulutekproje.Common.Result.{ok}
use ulutekproje.Common.{
  ℕ, suc, ◌≡◌, refl, sym, ap, subst, ◌∙◌, inl, inr, some, true, false, not, ◌&&◌, List, [], ◌∷◌,
  arith, ◌==◌, All, is_none,
}
use ulutekproje.Debts.{DebtBalance}
use ulutekproje.Debts.Plan.{net_of}
use ulutekproje.Records.{Database, Group, GroupMember, get_group, list_expenses, list_settlements}
use ulutekproje.Records.Members.{find_active}
use ulutekproje.Summary.{DebtSummary, get_for_group}
use ulutekproje.Summary.Net.{group_net, IsSplit, IsPayable}
use ulutekproje.Summary.Correct.{get_for_group-IsSummary}
use ulutekproje.Groups.Owners.{IsOwned}
use ulutekproje.Groups.Changes.{archive-Archived}
use ulutekproje.Groups.{is_owner, owner_count, archive, outranked, any_unsettled}
use ulutekproje.Groups.Requests.{GroupRequest, serve, serve_all, serve-IsOwned}

-- Whatever requests (create, change the texts, find or make the group of two friends, add, remove,
-- change a role, archive, delete a user) are served, in any order and by any actors, every group that
-- is not archived keeps an active owner, if every such group had one before.
pub serve_all-IsOwned :
    (db : Database) (qs : List GroupRequest)
    → All IsOwned db.groups
    → All IsOwned (serve_all db qs).groups
unfolding serve_all
serve_all-IsOwned db [] owned = owned
serve_all-IsOwned db (q ∷ qs) owned = serve_all-IsOwned (serve db q) qs (serve-IsOwned db q owned)

-- The members who may be removed, and by whom.
pub record MayRemove (db : Database) (g : Group) (actor user : ℕ) : Type 0 where
  pub actor_row : GroupMember
  pub target : GroupMember
  pub active : find_active actor g.members ≡ some actor_row
  pub present : find_active user g.members ≡ some target
  pub ranked : (not (actor == user) && outranked (some actor_row) target) ≡ false
  pub guarded : (is_owner target.role && owner_count g.members == 1) ≡ false
  pub settled :
      group_net user (list_expenses g.id db.expenses) (list_settlements g.id db.settlements) ≡ pos 0

any_unsettled-net_of :
    (u : ℕ) (bs : List DebtBalance) → any_unsettled bs ≡ false → net_of u bs ≡ pos 0
unfolding any_unsettled value
any_unsettled-net_of u [] h = refl
any_unsettled-net_of u (b ∷ bs) h =
    let zero_balance : b.net_amount_in_minor ≡ pos 0 =
      (eqb_ℤ_iff b.net_amount_in_minor (pos 0)).0 (ground (arith, h)) in
    let rest = any_unsettled-net_of u bs (ground (arith, h)) in ground (arith, zero_balance, rest)

-- A group whose expenses are split and whose settlements are payable is archived only by an active
-- owner, and only when the net balance of every user is zero.
pub archive_settled :
    (now : ℕ) (db : Database) (gid actor : ℕ) (g : Group) (db' : Database)
    → get_group gid db.groups ≡ some g
    → is_none g.archived_at ≡ true
    → All IsSplit (list_expenses g.id db.expenses)
    → All IsPayable (list_settlements g.id db.settlements)
    → archive now db gid actor ≡ ok db'
    → ((row : GroupMember) × (find_active actor g.members ≡ some row) × (is_owner row.role ≡ true))
      × ((u : ℕ)
          → group_net u (list_expenses g.id db.expenses) (list_settlements g.id db.settlements)
            ≡ pos 0)
archive_settled now db gid actor g db' found in_use split payable h =
    let a = archive-Archived now db gid actor db' h in
    let same : a.group ≡ g = cc (found, a.found) in
    let active = a.active in
    let by_owner = a.by_owner in
    (
      (a.actor_row, ap (λ (x : Group). find_active actor x.members) (sym same) ∙ active, by_owner),
      elim a.change [
        | inl (closed, _) ↦
            absurd (cc (ap (λ (x : Group). is_none x.archived_at) same, closed, in_use))
        | inr (_, s, e, settled, _) ↦
            let (s', e', facts) =
              get_for_group-IsSummary now db g.id (some g) g refl split payable in
            let e₁ : get_for_group now db g.id (some g) ≡ ok s =
              subst (λ (x : Group). get_for_group now db x.id (some x) ≡ ok s) same e in
            let s-eq-s' : s ≡ s' = cc (e₁, e') in
            λ u.
              sym (facts.shows u)
              ∙ (ap (λ (x : DebtSummary). net_of (suc u) x.balances) (sym s-eq-s')
                  ∙ any_unsettled-net_of (suc u) s.balances settled)
      ],
    )
