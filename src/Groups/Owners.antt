-- ===== src/Groups/Owners.antt =====
-- Counting the active owners of a group over the changes of its rows.
use ulutekproje.Common.{
  ℕ, ◌+◌, ◌≤◌, ◌≡◌, refl, sym, ap, subst, ◌⊎◌, inl, inr, some, Bool, true, false, ◌&&◌, List, [],
  ◌∷◌, arith, ◌==◌, All, Bool-cases, is_none, if◌then◌else◌,
}
use ulutekproje.Records.{Group, GroupMember, GroupRole, get_group, put_group}
use ulutekproje.Records.Members.{find_active}
use ulutekproje.Groups.{
  owner_weight, owner_count, change_active, get_member, drop_row, insert_row, with_role,
}

-- A group that is in use has an active owner.
abbrev pub IsOwned : Group → Type 0
IsOwned g = (is_none g.archived_at ≡ false) ⊎ (1 ≤ owner_count g.members)

pub owner_weight_le : (m : GroupMember) → owner_weight m ≤ 1
owner_weight_le m = ground arith

pub find_active-eq-some :
    (u : ℕ) (ms : List GroupMember) (m : GroupMember)
    → find_active u ms ≡ some m
    → (m.user_id ≡ u) × (is_none m.left_at ≡ true)
unfolding find_active
find_active-eq-some u [] m h = cc
find_active-eq-some u (k ∷ ks) m h = elim (Bool-cases (k.user_id == u && is_none k.left_at)) [
  | inl e ↦ let same : k ≡ m = cc (e, h) in rw (sym same) (ground (arith, e), ground (arith, e))
  | inr e ↦ find_active-eq-some u ks m (cc (e, h))
]

pub owner_count-change_active :
    (u : ℕ) (f : GroupMember → GroupMember) (ms : List GroupMember) (m : GroupMember)
    → find_active u ms ≡ some m
    → owner_count (change_active u f ms) + owner_weight m ≡ owner_count ms + owner_weight (f m)
unfolding find_active owner_count change_active
owner_count-change_active u f [] m h = cc
owner_count-change_active u f (k ∷ ks) m h = grind (arith, owner_count-change_active u f ks m)

pub owner_count-insert_row :
    (m : GroupMember) (ms : List GroupMember)
    → owner_count (insert_row m ms) ≡ owner_weight m + owner_count ms
unfolding insert_row owner_count
owner_count-insert_row m [] = refl
owner_count-insert_row m (k ∷ ks) = grind (arith, owner_count-insert_row m ks)

pub owner_count-drop_row :
    (u : ℕ) (ms : List GroupMember) (m : GroupMember)
    → get_member u ms ≡ some m
    → owner_count (drop_row u ms) + owner_weight m ≡ owner_count ms
unfolding drop_row owner_count get_member
owner_count-drop_row u [] m h = cc
owner_count-drop_row u (k ∷ ks) m h = grind (arith, owner_count-drop_row u ks m)

pub get_group-All :
    (P : Group → Type 0) (gid : ℕ) (gs : List Group) (g : Group)
    → get_group gid gs ≡ some g
    → All P gs
    → P g
unfolding get_group
get_group-All P gid [] g h ps = cc
get_group-All P gid (k ∷ ks) g h ps = elim (Bool-cases (k.id == gid)) [
  | inl e ↦ let same : k ≡ g = cc (e, h) in subst P same ps.0
  | inr e ↦ get_group-All P gid ks g (cc (e, h)) ps.1
]

pub put_group-All :
    (P : Group → Type 0) (g : Group) (gs : List Group) → P g → All P gs → All P (put_group g gs)
unfolding put_group
put_group-All P g [] p ps = tt
put_group-All P g (k ∷ ks) p ps = go (k.id == g.id) (put_group-All P g ks p ps.1)
  where
    go : (b : Bool) → All P (put_group g ks) → All P (if b then g ∷ ks else k ∷ put_group g ks)
    go true rest = (p, ps.1)
    go false rest = (ps.0, rest)

-- The change of one member's row is not seen by another user.
pub find_active-change_other :
    (a u : ℕ) (f : GroupMember → GroupMember) (ms : List GroupMember)
    → ((m : GroupMember) → (f m).user_id ≡ m.user_id)
    → (a == u) ≡ false
    → find_active a (change_active u f ms) ≡ find_active a ms
unfolding find_active change_active
find_active-change_other a u f [] keeps d = refl
find_active-change_other a u f (k ∷ ks) keeps d =
    grind (arith, keeps k, find_active-change_other a u f ks keeps d)

-- The user of the row sees the new role.
pub find_active-change_same :
    (u : ℕ) (role : GroupRole) (ms : List GroupMember) (m : GroupMember)
    → find_active u ms ≡ some m
    → find_active u (change_active u (with_role role) ms) ≡ some (with_role role m)
unfolding find_active change_active
find_active-change_same u role [] m h = cc
find_active-change_same u role (k ∷ ks) m h =
    elim (Bool-cases (k.user_id == u && is_none k.left_at)) [
      | inl e ↦ let same : k ≡ m = cc (e, h) in rw (e, e) (ap (λ x. some (with_role role x)) same)
      | inr e ↦ rw (e, e) (find_active-change_same u role ks m (cc (e, h)))
    ]
