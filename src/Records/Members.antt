-- ===== src/Records/Members.antt =====
-- Reading the members of a group (the private functions of backend/app/services/group_service.py).
use text.Mathlib.Text.{◌==◌ as str_eq}
use ulutekproje.Common.{
  ℕ, String, Option, none, some, ◌&&◌, List, [], ◌∷◌, ◌==◌, is_none, if◌then◌else◌,
}
use ulutekproje.Records.Defs.{User, Group, GroupMember}

-- `text or default`, for a text that may be absent or empty.
abbrev pub or_default : Option String → String → String
or_default none default = default
or_default (some text) default = if str_eq text "" then default else text

-- `_display_name`, which `DebtSummaryService` writes out again.
unfoldable pub display_name : GroupMember → String
display_name m = elim m.user [
  | none ↦ "Silinmiş kullanıcı"
  | some u ↦ or_default u.display_name "Kullanıcı"
]

-- `((actor.display_name or actor.email) if actor is not None else None) or "Silinmiş kullanıcı"`
unfoldable pub actor_name : Option User → String
actor_name none = "Silinmiş kullanıcı"
actor_name (some u) = or_default (some (or_default u.display_name u.email)) "Silinmiş kullanıcı"

-- `next((member for member in group.members if ...), None)` of `_active_membership`.
unfoldable pub find_active : ℕ → List GroupMember → Option GroupMember
find_active user_id [] = none
find_active user_id (m ∷ ms) =
    if m.user_id == user_id && is_none m.left_at then some m else find_active user_id ms

unfoldable pub active_membership : Group → ℕ → Option GroupMember
unfolding find_active
active_membership g user_id = find_active user_id g.members

-- The users with an active membership, in the order of the rows.
unfoldable pub active_ids : List GroupMember → List ℕ
active_ids [] = []
active_ids (m ∷ ms) = if is_none m.left_at then m.user_id ∷ active_ids ms else active_ids ms
