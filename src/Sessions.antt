-- ===== src/Sessions.antt =====
-- backend/app/services/session_service.py, and `get_current_user` of backend/app/api/dependencies.py.
-- A refresh token is used once: `rotate` replaces it by a token of the same family, and a token that
-- comes a second time ends its family. `rotate` commits before it raises some of its exceptions, so
-- it returns the tables with the error; the tables of a call that raises without a commit are those
-- of before. SHA-256, HMAC and the lifetimes of the settings are parameters; the random draws of a
-- call are its argument; a signed access token is its claims. `rotate` and its `issue` read the clock
-- once.
mod Rows
pub mod Later
pub mod Live
pub mod Steps
pub mod Correct
pub mod Spent
pub mod Reuse
pub mod Usable
mod Tests
unfoldable pub use Rows.*
use text.Mathlib.Text.{◌==◌ as str_eq}
use ulutekproje.Common.Result.{Result, ok, err}
use ulutekproje.Common.{
  ℕ, ◌+◌, ◌*◌, String, Option, none, some, Bool, true, false, not, ◌&&◌, ◌||◌, List, [], ◌∷◌, ◌==◌,
  leb, is_none, if◌then◌else◌,
}

-- `hash_token`, `privacy_hash` and the settings.
pub record Security : Type 0 where
  pub hash_token : ℕ → ℕ
  pub privacy_hash : String → ℕ
  pub refresh_token_days : ℕ
  pub access_token_minutes : ℕ

-- What one call takes from `generate_opaque_token` and `uuid4`.
pub record Draw : Type 0 where
  pub plaintext : ℕ
  pub session_id : ℕ
  pub family_id : ℕ

pub record SessionMetadata : Type 0 where
  pub ip_address : String
  pub user_agent : Option String
  pub device_id : Option String
  pub device_name : Option String

-- The claims `sub`, `sid`, `av`, `iat` and `exp` of an access token.
pub record AccessToken : Type 0 where
  pub sub : ℕ
  pub sid : ℕ
  pub av : ℕ
  pub iat : ℕ
  pub exp : ℕ

pub record IssuedSession : Type 0 where
  pub access_token : AccessToken
  pub refresh_token : ℕ
  pub expires_in : ℕ
  pub user : Account

-- `InvalidRefreshToken` with its two texts, `RefreshTokenReuseDetected`, the `IntegrityError` of a
-- flush and the `RuntimeError`.
pub data SessionError : Type 0 where
  invalid_refresh_token expired_refresh_token refresh_token_reuse_detected : SessionError
  integrity_error replacement_not_persisted : SessionError

abbrev pub create_access_token : Security → ℕ → ℕ → ℕ → ℕ → AccessToken
create_access_token sec now user_id session_id auth_version = record {
  sub = user_id;
  sid = session_id;
  av = auth_version;
  iat = now;
  exp = now + sec.access_token_minutes * 60;
}

abbrev pub or_draw : Option ℕ → ℕ → ℕ
or_draw none drawn = drawn
or_draw (some given) drawn = given

abbrev pub hash_option : Security → Option String → Option ℕ
hash_option sec none = none
hash_option sec (some s) = if str_eq s "" then none else some (sec.privacy_hash s)

-- The row that `issue` writes.
abbrev pub new_session :
    Security → ℕ → Draw → Account → SessionMetadata → Option ℕ → Option ℕ → RefreshSession
new_session sec now draw user metadata family_id parent_session_id = record {
  id = draw.session_id;
  user_id = user.id;
  family_id = or_draw family_id draw.family_id;
  parent_session_id = parent_session_id;
  replaced_by_session_id = none;
  token_hash = sec.hash_token draw.plaintext;
  issued_at = now;
  expires_at = now + sec.refresh_token_days * 86400;
  last_used_at = none;
  revoked_at = none;
  reuse_detected_at = none;
  device_id_hash = hash_option sec metadata.device_id;
  device_name = metadata.device_name;
  ip_hash = sec.privacy_hash metadata.ip_address;
  user_agent = metadata.user_agent;
}

abbrev pub issued_session : Security → ℕ → Draw → Account → IssuedSession
issued_session sec now draw user = record {
  access_token = create_access_token sec now user.id draw.session_id user.auth_version;
  refresh_token = draw.plaintext;
  expires_in = sec.access_token_minutes * 60;
  user = user;
}

unfoldable pub issue :
    Security
    → ℕ
    → Draw
    → Account
    → SessionMetadata
    → Option ℕ
    → Option ℕ
    → AuthStore
    → Result SessionError (IssuedSession × AuthStore)
unfolding collides
issue sec now draw user metadata family_id parent_session_id db =
    let row = new_session sec now draw user metadata family_id parent_session_id in
    if collides row db.sessions
    then err integrity_error
    else ok (issued_session sec now draw user, record db { sessions = row ∷ db.sessions })

-- The committed tables after the reuse of a token that is revoked.
unfoldable pub detect_reuse : ℕ → RefreshSession → AuthStore → AuthStore
unfolding change_session change_account revoke_family
detect_reuse now current db =
    if is_none current.reuse_detected_at
    then record {
      users = change_account current.user_id bump db.users;
      sessions =
          revoke_family now current.family_id
            (change_session current.token_hash (with_reuse now) db.sessions);
    }
    else record db { sessions = revoke_family now current.family_id db.sessions }

-- `rotate` behind its checks.
unfoldable pub replace :
    Security
    → ℕ
    → Draw
    → RefreshSession
    → Account
    → SessionMetadata
    → AuthStore
    → Result SessionError IssuedSession × AuthStore
unfolding issue change_session change_account get_by_hash_for_update
replace sec now draw current user metadata db =
    elim (issue sec now draw user metadata (some current.family_id) (some current.id)
      (record db { sessions = change_session current.token_hash (spent now) db.sessions })) [
        | err e ↦ (err e, db)
        | ok (issued, db') ↦
            elim (get_by_hash_for_update (sec.hash_token issued.refresh_token) db'.sessions) [
              | none ↦ (err replacement_not_persisted, db)
              | some replacement ↦ (
                ok (record issued { user = with_last_login now user }),
                record {
                  users = change_account user.id (with_last_login now) db'.users;
                  sessions =
                      change_session current.token_hash (with_replaced replacement.id) db'.sessions;
                },
              )
            ]
      ]

unfoldable pub rotate :
    Security
    → ℕ
    → Draw
    → ℕ
    → SessionMetadata
    → AuthStore
    → Result SessionError IssuedSession × AuthStore
unfolding get_by_hash_for_update get_account change_session detect_reuse replace
rotate sec now draw refresh_token metadata db =
    elim (get_by_hash_for_update (sec.hash_token refresh_token) db.sessions) [
      | none ↦ (err invalid_refresh_token, db)
      | some current ↦ elim (get_account current.user_id db.users) [
        | none ↦ (err invalid_refresh_token, db)
        | some user ↦
            if not (is_active user.status)
            then (err invalid_refresh_token, db)
            else if not (is_none current.revoked_at)
            then (err refresh_token_reuse_detected, detect_reuse now current db)
            else if leb current.expires_at now
            then (
              err expired_refresh_token,
              record db {
                sessions = change_session current.token_hash (with_revoked now) db.sessions;
              },
            )
            else replace sec now draw current user metadata db
      ]
    ]

unfoldable pub logout : Security → ℕ → ℕ → Bool → AuthStore → AuthStore
unfolding get_by_hash_for_update change_session change_account revoke_user_sessions
logout sec now refresh_token all_devices db =
    elim (get_by_hash_for_update (sec.hash_token refresh_token) db.sessions) [
      | none ↦ db
      | some current ↦
          if all_devices
          then record {
            users = change_account current.user_id bump db.users;
            sessions = revoke_user_sessions now current.user_id db.sessions;
          }
          else if is_none current.revoked_at
          then record db {
            sessions = change_session current.token_hash (with_revoked now) db.sessions;
          }
          else db
    ]

unfoldable pub revoke_all_for_user : ℕ → Account → AuthStore → AuthStore
unfolding change_account revoke_user_sessions
revoke_all_for_user now user db = record {
  users = change_account user.id bump db.users;
  sessions = revoke_user_sessions now user.id db.sessions;
}

abbrev pub accepts : AccessToken → Option Account → Option RefreshSession → Bool
accepts payload none refresh_session = false
accepts payload (some user) none = false
accepts payload (some user) (some s) =
    is_active user.status
    && user.auth_version == payload.av
    && (s.user_id == user.id && is_none s.revoked_at)

-- `get_current_user` for the claims of a token that `decode_access_token` accepts; `none` is the
-- answer 401.
unfoldable pub get_current_user : AccessToken → AuthStore → Option Account
unfolding get_account get_session
get_current_user payload db =
    if accepts payload (get_account payload.sub db.users) (get_session payload.sid db.sessions)
    then get_account payload.sub db.users
    else none
