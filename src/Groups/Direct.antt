-- ===== src/Groups/Direct.antt =====
-- `get_or_create_direct_group`, called again by one of the two friends.
use ulutekproje.Common.Result.{ok}
use ulutekproje.Common.{
  ℕ, zero, suc, ◌≤◌, ◌⊎◌, length, ◌≡◌, refl, sym, ap, ◌∙◌, inl, inr, Option, none, some, Bool, true,
  false, not, ◌&&◌, List, [], ◌∷◌, ◌++◌, arith, ◌==◌, ==_iff, leb, is_none, Bool-cases,
}
use ulutekproje.Records.{Database, Group, GroupMember, member, User, get_user}
use ulutekproje.Records.Members.{find_active}
use ulutekproje.Groups.{with_members, enter_member, joining_row, get_member, insert_row}
use ulutekproje.Groups.Create.{
  owner_row, new_group, lira, is_member, direct_groups, any_row, get_direct_group, create_direct,
  get_or_create_direct_group,
}

-- The group that `get_direct_group` looks for.
abbrev pub joins : ℕ → ℕ → Group → Bool
joins a b g = g.is_direct && (is_member a g && is_member b g)

joins_comm : (a b : ℕ) (g : Group) → joins a b g ≡ joins b a g
joins_comm a b g = ground arith

direct_groups_comm : (a b : ℕ) (gs : List Group) → direct_groups a b gs ≡ direct_groups b a gs
unfolding direct_groups
direct_groups_comm a b [] = refl
direct_groups_comm a b (g ∷ gs) = cc (joins_comm a b g, direct_groups_comm a b gs)

direct_groups-joins :
    (a b : ℕ) (gs ks : List Group) (g : Group) → direct_groups a b gs ≡ g ∷ ks → joins a b g ≡ true
unfolding direct_groups
direct_groups-joins a b [] ks g h = absurd cc
direct_groups-joins a b (k ∷ gs) ks g h = elim (Bool-cases (joins a b k)) [
  | inl e ↦ let same : k ≡ g = cc (e, h) in ap (joins a b) (sym same) ∙ e
  | inr e ↦ direct_groups-joins a b gs ks g (cc (e, h))
]

direct_groups-append :
    (a b : ℕ) (gs : List Group) (g : Group)
    → joins a b g ≡ true
    → direct_groups a b (gs ++ (g ∷ [])) ≡ direct_groups a b gs ++ (g ∷ [])
unfolding direct_groups
direct_groups-append a b [] g e = cc e
direct_groups-append a b (k ∷ ks) g e = elim (Bool-cases (joins a b k)) [
  | inl here ↦ cc (here, direct_groups-append a b ks g e)
  | inr other ↦ cc (other, direct_groups-append a b ks g e)
]

-- Of a single row the choice does not matter.
any_row-single : (choice : ℕ) (g : Group) → any_row choice (g ∷ []) ≡ some g
unfolding any_row
any_row-single zero g = refl
any_row-single (suc choice) g = refl

at_most_one : (gs : List Group) → length gs ≤ 1 → (gs ≡ []) ⊎ ((g : Group) × (gs ≡ g ∷ []))
at_most_one [] h = inl refl
at_most_one (g ∷ []) h = inr (g, refl)
at_most_one (g ∷ k ∷ ks) h = absurd (omega (arith, h))

get_user-id : (u : ℕ) (us : List User) (x : User) → get_user u us ≡ some x → x.id ≡ u
unfolding get_user
get_user-id u [] x h = cc
get_user-id u (y ∷ ys) x h = elim (Bool-cases (y.id == u)) [
  | inl e ↦ let same : y ≡ x = cc (e, h) in ap (λ (z : User). z.id) (sym same) ∙ (==_iff y.id u).0 e
  | inr e ↦ get_user-id u ys x (cc (e, h))
]

-- The rows of a new direct group.
entered :
    (now a : ℕ) (ua : Option User) (b : User)
    → (a == b.id) ≡ false
    → (ms : List GroupMember) × (enter_member now b member (owner_row now a ua ∷ []) ≡ ok ms)
      × (not (is_none (find_active a ms)) ≡ true)
      × (not (is_none (find_active b.id ms)) ≡ true)
unfolding enter_member get_member insert_row find_active
entered now a ua b apart =
    let later : leb now now ≡ true = ground arith in
    let self : (a == a) ≡ true = ground arith in
    let other : (b.id == b.id) ≡ true = ground arith in
    (
      owner_row now a ua ∷ joining_row now b member ∷ [],
      cc (apart, later),
      cc (apart, self),
      cc (apart, other),
    )

direct_found :
    (new_id now choice : ℕ) (db : Database) (a b : ℕ) (ub : User) (g : Group)
    → (a == b) ≡ false
    → get_user b db.users ≡ some ub
    → direct_groups a b db.groups ≡ g ∷ []
    → get_or_create_direct_group new_id now choice db a b ≡ ok (g, db)
unfolding get_or_create_direct_group get_direct_group
direct_found new_id now choice db a b ub g apart known found =
    let row : get_direct_group choice a b db.groups ≡ some g = rw found (any_row-single choice g) in
    cc (apart, known, row)

direct_made :
    (new_id now choice : ℕ) (db : Database) (a b : ℕ) (ub : User)
    → (a == b) ≡ false
    → get_user b db.users ≡ some ub
    → length (direct_groups a b db.groups) ≤ 1
    → (g : Group) × (db' : Database) × (get_or_create_direct_group new_id now choice db a b
        ≡ ok (g, db'))
      × (direct_groups a b db'.groups ≡ g ∷ [])
      × (db'.users ≡ db.users)
unfolding get_or_create_direct_group create_direct get_direct_group any_row
direct_made new_id now choice db a b ub apart known few =
    elim (at_most_one (direct_groups a b db.groups) few) [
      | inr (g, found) ↦
          (g, db, direct_found new_id now choice db a b ub g apart known found, found, refl)
      | inl empty ↦
          let free : get_direct_group choice a b db.groups ≡ none = rw empty refl in
          let id : ub.id ≡ b = get_user-id b db.users ub known in
          let ua = get_user a db.users in
          let (ms, e, first, second) = entered now a ua ub (cc (apart, id)) in
          let g = with_members (new_group new_id now ua a "" none lira true) ms in
          let both : joins a b g ≡ true = cc (first, second, id) in
          let db' : Database = record db { groups = db.groups ++ (g ∷ []) } in
          (
            g,
            db',
            cc (apart, known, free, e),
            direct_groups-append a b db.groups g both ∙ cc empty,
            refl,
          )
    ]

-- Two different users of the store, of whom at most one direct group is stored, are given a direct
-- group that has both as active members, and whoever of them asks again is given the same group and
-- nothing changes.
pub direct_group_once :
    (new_id now choice new_id' now' choice' : ℕ) (db : Database) (a b : ℕ) (ua ub : User)
    → (a == b) ≡ false
    → get_user a db.users ≡ some ua
    → get_user b db.users ≡ some ub
    → length (direct_groups a b db.groups) ≤ 1
    → (g : Group) × (db' : Database) × (get_or_create_direct_group new_id now choice db a b
        ≡ ok (g, db'))
      × (joins a b g ≡ true)
      × (get_or_create_direct_group new_id' now' choice' db' a b ≡ ok (g, db'))
      × (get_or_create_direct_group new_id' now' choice' db' b a ≡ ok (g, db'))
direct_group_once new_id now choice new_id' now' choice' db a b ua ub apart known_a known_b few =
    let (g, db', made, found, users) = direct_made new_id now choice db a b ub apart known_b few in
    let apart' : (b == a) ≡ false = ground (arith, apart) in
    let found' : direct_groups b a db'.groups ≡ g ∷ [] =
      direct_groups_comm b a db'.groups ∙ found in
    let known_b' = ap (get_user b) users ∙ known_b in
    let known_a' = ap (get_user a) users ∙ known_a in
    (
      g,
      db',
      made,
      direct_groups-joins a b db'.groups [] g found,
      direct_found new_id' now' choice' db' a b ub g apart known_b' found,
      direct_found new_id' now' choice' db' b a ua g apart' known_a' found',
    )
