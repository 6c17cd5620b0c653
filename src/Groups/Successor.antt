-- ===== src/Groups/Successor.antt =====
-- The owners of the groups of a user who is deleted.
use ulutekproje.Common.{
  ℕ, ◌≤◌, ◌≡◌, refl, ap, ◌∙◌, inl, inr, none, some, true, false, not, ◌&&◌, List, [], ◌∷◌, map,
  arith, ◌==◌, All, Bool-cases, Option-cases, is_none,
}
use ulutekproje.Records.{Database, Group, GroupMember, owner}
use ulutekproje.Records.Members.{find_active}
use ulutekproje.Groups.{
  is_owner, owner_weight, owner_count, change_active, with_role, get_member, drop_row,
}
use ulutekproje.Groups.Owners.{IsOwned, find_active-change_same, owner_count-drop_row}
use ulutekproje.Groups.Grow.{Grows}
use ulutekproje.Groups.Deletion.{
  candidates, least, precedes, successor, promote, deleting_membership, prepared,
  prepare_for_user_deletion, without_user, delete_user,
}

-- A successor is another active member of the group.
abbrev pub Succeeds : ℕ → List GroupMember → GroupMember → Type 0
Succeeds u ms s = ((s.user_id == u) ≡ false) × (is_none (find_active s.user_id ms) ≡ false)

candidates-Succeeds :
    (u : ℕ) (ms all : List GroupMember)
    → ((v : ℕ) → is_none (find_active v ms) ≡ false → is_none (find_active v all) ≡ false)
    → All (Succeeds u all) (candidates u ms)
unfolding candidates find_active
candidates-Succeeds u [] all within = tt
candidates-Succeeds u (m ∷ ms) all within =
    let rest = candidates-Succeeds u ms all (λ v h. within v (later v h)) in
    elim (Bool-cases (not (m.user_id == u) && is_none m.left_at)) [
      | inl e ↦
          let other : (m.user_id == u) ≡ false = ground (arith, e) in
          let here : is_none (find_active m.user_id (m ∷ ms)) ≡ false =
            let self : (m.user_id == m.user_id) ≡ true = ground arith in
            let active : is_none m.left_at ≡ true = ground (arith, e) in cc (self, active) in
          rw e ((other, within m.user_id here), rest)
      | inr e ↦ rw e rest
    ]
  where
    later : (v : ℕ) → is_none (find_active v ms) ≡ false → is_none (find_active v (m ∷ ms)) ≡ false
    later v h = elim (Bool-cases (m.user_id == v && is_none m.left_at)) [
      | inl e ↦ cc e
      | inr e ↦ cc (e, h)
    ]

least-All :
    (P : GroupMember → Type 0) (m : GroupMember) (ms : List GroupMember)
    → P m
    → All P ms
    → P (least m ms)
unfolding least
least-All P m [] p ps = p
least-All P m (k ∷ ks) p ps = elim (Bool-cases (precedes k m)) [
  | inl e ↦ rw e (least-All P k ks ps.0 ps.1)
  | inr e ↦ rw e (least-All P m ks p ps.1)
]

find_active-drop_other :
    (u v : ℕ) (ms : List GroupMember)
    → (v == u) ≡ false
    → find_active v (drop_row u ms) ≡ find_active v ms
unfolding find_active drop_row
find_active-drop_other u v [] other = refl
find_active-drop_other u v (k ∷ ks) other = grind (arith, find_active-drop_other u v ks other)

owner_count-find_active :
    (u : ℕ) (ms : List GroupMember) (m : GroupMember)
    → find_active u ms ≡ some m
    → is_owner m.role ≡ true
    → 1 ≤ owner_count ms
unfolding find_active owner_count
owner_count-find_active u [] m h o = cc
owner_count-find_active u (k ∷ ks) m h o = elim (Bool-cases (k.user_id == u && is_none k.left_at)) [
  | inl e ↦
      let same : k ≡ m = cc (e, h) in
      let active : is_none k.left_at ≡ true = ground (arith, e) in
      let owns : is_owner k.role ≡ true = ap (λ (x : GroupMember). is_owner x.role) same ∙ o in
      let heavy : owner_weight k ≡ 1 = cc (active, owns) in omega (arith, heavy)
  | inr e ↦ let rest = owner_count-find_active u ks m (cc (e, h)) o in omega (arith, rest)
]

get_member-active :
    (u : ℕ) (ms : List GroupMember) (m : GroupMember)
    → get_member u ms ≡ some m
    → is_none m.left_at ≡ true
    → find_active u ms ≡ some m
unfolding get_member find_active
get_member-active u [] m h active = cc
get_member-active u (k ∷ ks) m h active = elim (Bool-cases (k.user_id == u)) [
  | inl e ↦
      let same : k ≡ m = cc (e, h) in
      let here : is_none k.left_at ≡ true =
        ap (λ (x : GroupMember). is_none x.left_at) same ∙ active in
      cc (e, here, same)
  | inr e ↦ cc (e, get_member-active u ks m (cc (e, h)) active)
]

drop_row-missing : (u : ℕ) (ms : List GroupMember) → get_member u ms ≡ none → drop_row u ms ≡ ms
unfolding get_member drop_row
drop_row-missing u [] h = refl
drop_row-missing u (k ∷ ks) h = elim (Bool-cases (k.user_id == u)) [
  | inl e ↦ cc (e, h)
  | inr e ↦ cc (e, drop_row-missing u ks (cc (e, h)))
]

-- The row of a user who is no active owner weighs nothing.
owner_count-drop_light :
    (u : ℕ) (ms : List GroupMember)
    → ((m : GroupMember) → find_active u ms ≡ some m → is_owner m.role ≡ false)
    → owner_count (drop_row u ms) ≡ owner_count ms
owner_count-drop_light u ms light = elim (Option-cases (get_member u ms)) [
  | inl missing ↦ ap owner_count (drop_row-missing u ms missing)
  | inr (m, found) ↦
      let dropped = owner_count-drop_row u ms m found in
      elim (Bool-cases (is_none m.left_at)) [
        | inl active ↦
            let lower : is_owner m.role ≡ false = light m (get_member-active u ms m found active) in
            let none_lost : owner_weight m ≡ 0 = cc lower in omega (arith, dropped, none_lost)
        | inr left ↦
            let none_lost : owner_weight m ≡ 0 = ground (arith, left) in
            omega (arith, dropped, none_lost)
      ]
]

promote-IsOwned :
    (u t : ℕ) (g : Group)
    → IsOwned (without_user u (promote t g (successor (candidates u g.members))))
promote-IsOwned u t g =
    go (candidates u g.members) (candidates-Succeeds u g.members g.members (λ v h. h))
  where
    go :
        (cs : List GroupMember)
        → All (Succeeds u g.members) cs
        → IsOwned (without_user u (promote t g (successor cs)))
    go [] ok = inl refl
    go (c ∷ cs) ok =
        let s = least c cs in
        let (other, there) = least-All (Succeeds u g.members) c cs ok.0 ok.1 in
        let ms = change_active s.user_id (with_role owner) g.members in
        elim (Option-cases (find_active s.user_id g.members)) [
          | inl gone ↦ absurd (cc (gone, there))
          | inr (x, found) ↦
              let owns =
                find_active-drop_other u s.user_id ms other
                ∙ find_active-change_same s.user_id owner g.members x found in
              inr (owner_count-find_active s.user_id (drop_row u ms) (with_role owner x) owns refl)
        ]

kept-IsOwned :
    (u : ℕ) (g : Group)
    → ((m : GroupMember) → find_active u g.members ≡ some m → is_owner m.role ≡ false)
    → IsOwned g
    → IsOwned (without_user u g)
kept-IsOwned u g light (inl archived) = inl archived
kept-IsOwned u g light (inr owned) =
    inr (omega (arith, owner_count-drop_light u g.members light, owned))

departed-IsOwned :
    (u t : ℕ) (g : Group)
    → IsOwned g
    → IsOwned (without_user u (prepared u t g (deleting_membership u g)))
departed-IsOwned u t g owned = elim (Bool-cases (is_none g.archived_at)) [
  | inr archived ↦
      let none_left : deleting_membership u g ≡ none = cc archived in rw none_left (inl archived)
  | inl used ↦ elim (Option-cases (find_active u g.members)) [
    | inl absent ↦
        let none_left : deleting_membership u g ≡ none = cc (used, absent) in
        rw none_left (kept-IsOwned u g (λ m h. absurd (cc (absent, h))) owned)
    | inr (m, present) ↦
        let leaves : deleting_membership u g ≡ some m = cc (used, present) in
        elim (Bool-cases (is_owner m.role)) [
          | inl owns ↦ rw (leaves, owns) (promote-IsOwned u t g)
          | inr lower ↦
              rw (leaves, lower)
                (kept-IsOwned u g
                  (λ k h.
                    let same : k ≡ m = cc (h, present) in
                    ap (λ (x : GroupMember). is_owner x.role) same ∙ lower)
                  owned)
        ]
  ]
]

pub delete_user-Grows : (u t : ℕ) (db : Database) → Grows db (delete_user u t db).1
unfolding delete_user prepare_for_user_deletion
delete_user-Grows u t db = record { expenses = refl; settlements = refl; owned = go db.groups }
  where
    go :
        (gs : List Group)
        → All IsOwned gs
        → All IsOwned
            (map (without_user u) (map (λ g. prepared u t g (deleting_membership u g)) gs))
    go [] owned = tt
    go (g ∷ gs) owned = (departed-IsOwned u t g owned.0, go gs owned.1)
