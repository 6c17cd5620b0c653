-- ===== src/Sessions/Rows.antt =====
-- backend/app/models/{user,refresh_session}.py, as far as sessions read them, and the queries of
-- backend/app/repositories/{sessions,users}.py. A token, a digest and an id are numbers, and so is
-- an instant, in seconds.
use ulutekproje.Common.{
  ℕ, suc, String, Option, none, some, Bool, true, false, ◌&&◌, ◌||◌, List, [], ◌∷◌, ◌==◌, is_none,
  if◌then◌else◌,
}

pub data UserStatus : Type 0 where
  active suspended deletion_pending : UserStatus

abbrev pub is_active : UserStatus → Bool
is_active active = true
is_active suspended = false
is_active deletion_pending = false

-- `User`, as the session service sees it.
pub record Account : Type 0 where
  pub id : ℕ
  pub status : UserStatus
  pub auth_version : ℕ
  pub last_login_at : Option ℕ

pub record RefreshSession : Type 0 where
  pub id : ℕ
  pub user_id : ℕ
  pub family_id : ℕ
  pub parent_session_id : Option ℕ
  pub replaced_by_session_id : Option ℕ
  pub token_hash : ℕ
  pub issued_at : ℕ
  pub expires_at : ℕ
  pub last_used_at : Option ℕ
  pub revoked_at : Option ℕ
  pub reuse_detected_at : Option ℕ
  pub device_id_hash : Option ℕ
  pub device_name : Option String
  pub ip_hash : ℕ
  pub user_agent : Option String

-- The tables `users` and `refresh_sessions`.
pub record AuthStore : Type 0 where
  pub users : List Account
  pub sessions : List RefreshSession

unfoldable pub get_by_hash_for_update : ℕ → List RefreshSession → Option RefreshSession
get_by_hash_for_update token_hash [] = none
get_by_hash_for_update token_hash (s ∷ ss) =
    if s.token_hash == token_hash then some s else get_by_hash_for_update token_hash ss

-- A change of the object that `get_by_hash_for_update` returns.
unfoldable pub change_session :
    ℕ → (RefreshSession → RefreshSession) → List RefreshSession → List RefreshSession
change_session token_hash change [] = []
change_session token_hash change (s ∷ ss) =
    if s.token_hash == token_hash then change s ∷ ss else s ∷ change_session token_hash change ss

-- `session.get(RefreshSession, session_id)`
unfoldable pub get_session : ℕ → List RefreshSession → Option RefreshSession
get_session session_id [] = none
get_session session_id (s ∷ ss) = if s.id == session_id then some s else get_session session_id ss

-- `session.get(User, user_id)`
unfoldable pub get_account : ℕ → List Account → Option Account
get_account user_id [] = none
get_account user_id (u ∷ us) = if u.id == user_id then some u else get_account user_id us

-- A change of the object that `get_account` returns.
unfoldable pub change_account : ℕ → (Account → Account) → List Account → List Account
change_account user_id change [] = []
change_account user_id change (u ∷ us) =
    if u.id == user_id then change u ∷ us else u ∷ change_account user_id change us

-- `user.auth_version += 1`
abbrev pub bump : Account → Account
bump u = record u { auth_version = suc u.auth_version }

abbrev pub with_last_login : ℕ → Account → Account
with_last_login now u = record u { last_login_at = some now }

-- `current.revoked_at = now`
abbrev pub with_revoked : ℕ → RefreshSession → RefreshSession
with_revoked now s = record s { revoked_at = some now }

-- `revoked_at` and `last_used_at` of a token that is rotated.
abbrev pub spent : ℕ → RefreshSession → RefreshSession
spent now s = record s { revoked_at = some now; last_used_at = some now }

abbrev pub with_reuse : ℕ → RefreshSession → RefreshSession
with_reuse now s = record s { reuse_detected_at = some now }

abbrev pub with_replaced : ℕ → RefreshSession → RefreshSession
with_replaced session_id s = record s { replaced_by_session_id = some session_id }

-- The values of `revoke_family`, which its caller gives both.
abbrev pub with_revoked_reuse : ℕ → RefreshSession → RefreshSession
with_revoked_reuse now s = record s { revoked_at = some now; reuse_detected_at = some now }

unfoldable pub revoke_family : ℕ → ℕ → List RefreshSession → List RefreshSession
revoke_family now family_id [] = []
revoke_family now family_id (s ∷ ss) =
    (if s.family_id == family_id && is_none s.revoked_at then with_revoked_reuse now s else s)
    ∷ revoke_family now family_id ss

unfoldable pub revoke_user_sessions : ℕ → ℕ → List RefreshSession → List RefreshSession
revoke_user_sessions now user_id [] = []
revoke_user_sessions now user_id (s ∷ ss) =
    (if s.user_id == user_id && is_none s.revoked_at then with_revoked now s else s)
    ∷ revoke_user_sessions now user_id ss

-- Whether the flush of a new row meets a row with its primary key or its unique token hash.
unfoldable pub collides : RefreshSession → List RefreshSession → Bool
collides new [] = false
collides new (s ∷ ss) = s.token_hash == new.token_hash || s.id == new.id || collides new ss
