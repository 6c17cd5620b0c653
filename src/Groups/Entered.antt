-- ===== src/Groups/Entered.antt =====
-- The rows of a group that a user enters, and reading the group afterwards.
use ulutekproje.Common.Result.{ok}
use ulutekproje.Common.{
  ℕ, ◌≡◌, refl, sym, ap, ◌∙◌, ◌⊎◌, inl, inr, Bool, some, true, false, ◌||◌, List, [], ◌∷◌, arith,
  ◌==◌, ==_iff, leb, Bool-cases, Option-cases,
}
use ulutekproje.Records.{
  Group, GroupMember, GroupRole, owner, admin, member, User, get_group, put_group,
}
use ulutekproje.Groups.Owners.{owner_count-insert_row, owner_count-drop_row}
use ulutekproje.Groups.{
  is_owner, owner_weight, owner_count, get_member, drop_row, insert_row, joining_row, enter_member,
}

pub plain_role :
    (role : GroupRole) (b : Bool) → (is_owner role || b) ≡ false → is_owner role ≡ false
plain_role owner b h = absurd cc
plain_role admin b h = refl
plain_role member b h = refl

-- A row among others.
abbrev pub HasRow : GroupMember → List GroupMember → Type 0
HasRow m [] = ⊥
HasRow m (k ∷ ks) = (k ≡ m) ⊎ HasRow m ks

insert_row-HasRow : (m : GroupMember) (ms : List GroupMember) → HasRow m (insert_row m ms)
unfolding insert_row
insert_row-HasRow m [] = inl refl
insert_row-HasRow m (k ∷ ks) = elim (Bool-cases (leb k.joined_at m.joined_at)) [
  | inl e ↦ rw e (inr (insert_row-HasRow m ks))
  | inr e ↦ rw e (inl refl)
]

-- A row that is let in has the new role, and the owners stay as many as they were.
pub enter_member-enters :
    (now : ℕ) (u : User) (role : GroupRole) (ms ms' : List GroupMember)
    → is_owner role ≡ false
    → enter_member now u role ms ≡ ok ms'
    → HasRow (joining_row now u role) ms' × (owner_count ms' ≡ owner_count ms)
unfolding enter_member
enter_member-enters now u role ms ms' plain h =
    let row = joining_row now u role in
    let weightless : owner_weight row ≡ 0 = cc plain in
    elim (Option-cases (get_member u.id ms)) [
      | inl new ↦
          let same : insert_row row ms ≡ ms' = cc (new, h) in
          rw (sym same)
            (insert_row-HasRow row ms, omega (arith, owner_count-insert_row row ms, weightless))
      | inr (existing, found) ↦ elim (Option-cases existing.left_at) [
        | inl active ↦ absurd (cc (found, active, h))
        | inr (t, left) ↦
            let rest = drop_row u.id ms in
            let same : insert_row row rest ≡ ms' = cc (found, left, h) in
            let light : owner_weight existing ≡ 0 = ground (arith, left) in
            rw (sym same) (
              insert_row-HasRow row rest,
              omega (
                arith,
                owner_count-insert_row row rest,
                weightless,
                light,
                owner_count-drop_row u.id ms existing found,
              ),
            )
      ]
    ]

pub get_group-id : (gid : ℕ) (gs : List Group) (g : Group) → get_group gid gs ≡ some g → g.id ≡ gid
unfolding get_group
get_group-id gid [] g h = absurd cc
get_group-id gid (k ∷ ks) g h = elim (Bool-cases (k.id == gid)) [
  | inl e ↦
      let same : k ≡ g = cc (e, h) in ap (λ (x : Group). x.id) (sym same) ∙ (==_iff k.id gid).0 e
  | inr e ↦ get_group-id gid ks g (cc (e, h))
]

pub get_group-put_group :
    (gid : ℕ) (new : Group) (gs : List Group) (g : Group)
    → get_group gid gs ≡ some g
    → new.id ≡ gid
    → get_group gid (put_group new gs) ≡ some new
unfolding get_group put_group
get_group-put_group gid new [] g h id = absurd cc
get_group-put_group gid new (k ∷ ks) g h id =
    let self : (gid == gid) ≡ true = ground arith in
    elim (Bool-cases (k.id == gid)) [
      | inl e ↦ cc (e, id, self)
      | inr e ↦ cc (e, id, get_group-put_group gid new ks g (cc (e, h)) id)
    ]
