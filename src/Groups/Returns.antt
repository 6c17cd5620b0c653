-- ===== src/Groups/Returns.antt =====
-- What `_get_authorized_group`, `add_member` and `remove_member` have checked when they return.
use ulutekproje.Common.Int.{pos, eqb_ℤ}
use ulutekproje.Common.Result.{ok, Result-cases}
use ulutekproje.Common.{
  ℕ, suc, ◌≡◌, sym, ap, ◌∙◌, inl, inr, some, Bool, true, false, not, ◌&&◌, ◌||◌, List, ◌==◌,
  Bool-cases, Option-cases,
}
use ulutekproje.Records.{
  Database, Group, GroupMember, GroupRole, User, get_group, get_user, put_group,
}
use ulutekproje.Records.Members.{find_active, active_membership}
use ulutekproje.Summary.{get_for_group, DebtSummary}
use ulutekproje.Groups.{
  MemberResponse, member_response, is_owner, is_admin, owner_count, change_active, with_left_at,
  with_members, with_groups, log_joined, get_authorized_group, joining_row, enter_member,
  add_member, outranked, balance_of, remove_member,
}

-- A group found for an actor with an active membership, an owner's if one is required.
pub get_authorized_group-returns :
    (db : Database) (gid actor : ℕ) (required : Bool) (g : Group)
    → get_authorized_group db gid actor required ≡ ok g
    → (m : GroupMember) × (get_group gid db.groups ≡ some g)
      × (find_active actor g.members ≡ some m)
      × ((required && not (is_owner m.role)) ≡ false)
unfolding get_authorized_group active_membership
get_authorized_group-returns db gid actor required g h =
    elim (Option-cases (get_group gid db.groups)) [
      | inl missing ↦ absurd (cc (missing, h))
      | inr (g', found) ↦ elim (Option-cases (find_active actor g'.members)) [
        | inl stranger ↦ absurd (cc (found, stranger, h))
        | inr (m, active) ↦ elim (Bool-cases (required && not (is_owner m.role))) [
          | inl low ↦ absurd (cc (found, active, low, h))
          | inr high ↦
              let same : g' ≡ g = cc (found, active, high, h) in
              (
                m,
                found ∙ ap some same,
                ap (λ (x : Group). find_active actor x.members) (sym same) ∙ active,
                high,
              )
        ]
      ]
    ]

-- What a successful `add_member` has checked and done.
pub record Added (now : ℕ) (db : Database) (gid actor user : ℕ) (role : GroupRole) (db' : Database)
    : Type 0 where
  pub group : Group
  pub actor_row : GroupMember
  pub joined : User
  pub members : List GroupMember
  pub found : get_group gid db.groups ≡ some group
  pub active : find_active actor group.members ≡ some actor_row
  pub staff : (is_admin actor_row.role || is_owner actor_row.role) ≡ true
  pub below : (is_owner role || (is_admin role && not (is_owner actor_row.role))) ≡ false
  pub known : get_user user db.users ≡ some joined
  pub entered : enter_member now joined role group.members ≡ ok members
  pub result :
      log_joined
        (with_groups db (put_group (with_members group members) db.groups))
        gid
        actor
        joined
      ≡ db'

pub add_member-Added :
    (now : ℕ) (db : Database) (gid actor user : ℕ) (role : GroupRole) (r : MemberResponse)
    (db' : Database)
    → add_member now db gid actor user role ≡ ok (r, db')
    → Added now db gid actor user role db'
unfolding add_member active_membership
add_member-Added now db gid actor user role r db' h =
    elim (Result-cases (get_authorized_group db gid actor false)) [
      | inr (e, raised) ↦ absurd (cc (raised, h))
      | inl (g, authorized) ↦
          let (m, found, active, _) =
            get_authorized_group-returns db gid actor false g authorized in
          elim (Bool-cases (is_admin m.role || is_owner m.role)) [
            | inr low ↦ absurd (cc (authorized, active, low, h))
            | inl staff ↦
                elim (Bool-cases (is_owner role || (is_admin role && not (is_owner m.role)))) [
                  | inl high ↦ absurd (cc (authorized, active, staff, high, h))
                  | inr below ↦ elim (Option-cases (get_user user db.users)) [
                    | inl unknown ↦ absurd (cc (authorized, active, staff, below, unknown, h))
                    | inr (u, known) ↦ elim (Result-cases (enter_member now u role g.members)) [
                      | inr (e, raised) ↦
                          absurd (cc (authorized, active, staff, below, known, raised, h))
                      | inl (ms, entered) ↦
                          let after =
                            log_joined (with_groups db (put_group (with_members g ms) db.groups))
                              gid actor u in
                          let done : add_member now db gid actor user role
                              ≡ ok (member_response g.id (joining_row now u role), after) =
                            rw (authorized, active, staff, below, known, entered) in
                          record {
                            group = g;
                            actor_row = m;
                            joined = u;
                            members = ms;
                            found = found;
                            active = active;
                            staff = staff;
                            below = below;
                            known = known;
                            entered = entered;
                            result = cc (done, h);
                          }
                    ]
                  ]
                ]
          ]
    ]

-- What a successful `remove_member` has checked and done.
pub record Removed (now : ℕ) (db : Database) (gid actor user : ℕ) (db' : Database) : Type 0 where
  pub group : Group
  pub actor_row : GroupMember
  pub target : GroupMember
  pub debt_summary : DebtSummary
  pub found : get_group gid db.groups ≡ some group
  pub active : find_active actor group.members ≡ some actor_row
  pub present : find_active user group.members ≡ some target
  pub ranked : (not (actor == user) && outranked (some actor_row) target) ≡ false
  pub guarded : (is_owner target.role && owner_count group.members == 1) ≡ false
  pub summarized : get_for_group now db group.id (some group) ≡ ok debt_summary
  pub settled : eqb_ℤ (balance_of (suc target.user_id) debt_summary.balances) (pos 0) ≡ true
  pub result :
      with_groups db (
        put_group
          (with_members group (change_active user (with_left_at now) group.members))
          db.groups)
      ≡ db'

pub remove_member-Removed :
    (now : ℕ) (db : Database) (gid actor user : ℕ) (db' : Database)
    → remove_member now db gid actor user ≡ ok db'
    → Removed now db gid actor user db'
unfolding remove_member active_membership
remove_member-Removed now db gid actor user db' h =
    elim (Result-cases (get_authorized_group db gid actor false)) [
      | inr (e, raised) ↦ absurd (cc (raised, h))
      | inl (g, authorized) ↦
          let (m, found, active, _) =
            get_authorized_group-returns db gid actor false g authorized in
          elim (Option-cases (find_active user g.members)) [
            | inl missing ↦ absurd (cc (authorized, missing, h))
            | inr (t, present) ↦ elim (Bool-cases (not (actor == user) && outranked (some m) t)) [
              | inl low ↦ absurd (cc (authorized, active, present, low, h))
              | inr ranked ↦ elim (Bool-cases (is_owner t.role && owner_count g.members == 1)) [
                | inl sole ↦ absurd (cc (authorized, active, present, ranked, sole, h))
                | inr guarded ↦ elim (Result-cases (get_for_group now db g.id (some g))) [
                  | inr (e, raised) ↦
                      absurd (cc (authorized, active, present, ranked, guarded, raised, h))
                  | inl (s, summarized) ↦
                      elim (Bool-cases (eqb_ℤ (balance_of (suc t.user_id) s.balances) (pos 0))) [
                        | inr due ↦
                            absurd (
                              cc (authorized, active, present, ranked, guarded, summarized, due, h))
                        | inl settled ↦ record {
                          group = g;
                          actor_row = m;
                          target = t;
                          debt_summary = s;
                          found = found;
                          active = active;
                          present = present;
                          ranked = ranked;
                          guarded = guarded;
                          summarized = summarized;
                          settled = settled;
                          result = cc (
                            authorized, active, present, ranked, guarded, summarized, settled, h,
                          );
                        }
                      ]
                ]
              ]
            ]
          ]
    ]
