-- ===== src/Groups/Grow.antt =====
-- The money and the owners of groups under the methods of Groups.Create.
use ulutekproje.Common.Result.{ok, Result-cases}
use ulutekproje.Common.{
  ℕ, ◌≤◌, ◌≡◌, refl, subst, inl, inr, String, Option, Bool, true, false, List, [], ◌∷◌, ◌++◌, arith,
  ◌==◌, All, Bool-cases, Option-cases,
}
use ulutekproje.Records.{Database, Group, member, User, get_user, put_group}
use ulutekproje.Groups.{owner_count, with_members, enter_member, get_authorized_group}
use ulutekproje.Groups.Owners.{IsOwned, get_group-All, put_group-All}
use ulutekproje.Groups.Keep.{enter_member-owner_count}
use ulutekproje.Groups.Returns.{get_authorized_group-returns}
use ulutekproje.Groups.Create.{
  new_group, lira, create_group, GroupChanges, changed_group, update_group, get_direct_group,
  create_direct, get_or_create_direct_group,
}

pub record Grows (db db' : Database) : Type 0 where
  pub expenses : db'.expenses ≡ db.expenses
  pub settlements : db'.settlements ≡ db.settlements
  pub owned : All IsOwned db.groups → All IsOwned db'.groups

pub same-Grows : (db : Database) → Grows db db
same-Grows db = record { expenses = refl; settlements = refl; owned = λ o. o }

append-All :
    (P : Group → Type 0) (gs : List Group) (g : Group) → All P gs → P g → All P (gs ++ (g ∷ []))
append-All P [] g ps p = (p, tt)
append-All P (k ∷ ks) g ps p = (ps.0, append-All P ks g ps.1 p)

new_group-IsOwned :
    (new_id now : ℕ) (u : Option User) (actor : ℕ) (name : String) (description : Option String)
    (currency : List ℕ) (is_direct : Bool)
    → 1 ≤ owner_count (new_group new_id now u actor name description currency is_direct).members
unfolding owner_count
new_group-IsOwned new_id now u actor name description currency is_direct = omega arith

pub create_group-Grows :
    (new_id now : ℕ) (db : Database) (actor : ℕ) (name : String) (description : Option String)
    (currency : List ℕ)
    → Grows db (create_group new_id now db actor name description currency).1
unfolding create_group
create_group-Grows new_id now db actor name description currency =
    let u = get_user actor db.users in
    record {
      expenses = refl;
      settlements = refl;
      owned = λ o.
          append-All IsOwned db.groups
            (new_group new_id now u actor name description currency false) o
            (inr (new_group-IsOwned new_id now u actor name description currency false));
    }

pub update_group-Grows :
    (now : ℕ) (db : Database) (gid actor : ℕ) (changes : GroupChanges) (g : Group) (db' : Database)
    → update_group now db gid actor changes ≡ ok (g, db')
    → Grows db db'
unfolding update_group
update_group-Grows now db gid actor changes g db' h =
    elim (Result-cases (get_authorized_group db gid actor true)) [
      | inr (e, raised) ↦ absurd (cc (raised, h))
      | inl (k, authorized) ↦
          let (m, found, _, _) = get_authorized_group-returns db gid actor true k authorized in
          let after : Database = record db {
            groups = put_group (changed_group now changes k) db.groups;
          } in
          let same : after ≡ db' = cc (authorized, h) in
          subst (Grows db) same (record {
            expenses = refl;
            settlements = refl;
            owned = λ o.
                put_group-All IsOwned (changed_group now changes k) db.groups
                  (get_group-All IsOwned gid db.groups k found o) o;
          })
    ]

create_direct-Grows :
    (new_id now : ℕ) (db : Database) (a : ℕ) (b : User) (g : Group) (db' : Database)
    → create_direct new_id now db a b ≡ ok (g, db')
    → Grows db db'
unfolding create_direct
create_direct-Grows new_id now db a b g db' h =
    let u = get_user a db.users in
    let fresh = new_group new_id now u a "" Option.none lira true in
    elim (Result-cases (enter_member now b member fresh.members)) [
      | inr (e, raised) ↦ absurd (cc (raised, h))
      | inl (ms, entered) ↦
          let k = with_members fresh ms in
          let after : Database = record db { groups = db.groups ++ (k ∷ []) } in
          let same : after ≡ db' = cc (entered, h) in
          let one : 1 ≤ owner_count ms = omega (
            arith,
            new_group-IsOwned new_id now u a "" Option.none lira true,
            enter_member-owner_count now b member fresh.members ms entered,
          ) in
          subst (Grows db) same (record {
            expenses = refl;
            settlements = refl;
            owned = λ o. append-All IsOwned db.groups k o (inr one);
          })
    ]

pub get_or_create_direct_group-Grows :
    (new_id now choice : ℕ) (db : Database) (a b : ℕ) (g : Group) (db' : Database)
    → get_or_create_direct_group new_id now choice db a b ≡ ok (g, db')
    → Grows db db'
unfolding get_or_create_direct_group
get_or_create_direct_group-Grows new_id now choice db a b g db' h = elim (Bool-cases (a == b)) [
  | inl self ↦ absurd (cc (self, h))
  | inr apart ↦ elim (Option-cases (get_user b db.users)) [
    | inl unknown ↦ absurd (cc (apart, unknown, h))
    | inr (u, known) ↦ elim (Option-cases (get_direct_group choice a b db.groups)) [
      | inr (k, existing) ↦
          let same : db ≡ db' = cc (apart, known, existing, h) in
          subst (Grows db) same (same-Grows db)
      | inl new ↦ create_direct-Grows new_id now db a u g db' (cc (apart, known, new, h))
    ]
  ]
]
