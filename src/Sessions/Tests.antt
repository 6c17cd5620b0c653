-- ===== src/Sessions/Tests.antt =====
-- The sessions of two users; a digest is the token's number plus one.
use ulutekproje.Common.Result.{err}
use ulutekproje.Common.{ℕ, suc, ◌≡◌, refl, none, some, true, [], ◌∷◌, arith}
use ulutekproje.Sessions.{
  Security, Draw, SessionMetadata, AccessToken, SessionError, active, Account, RefreshSession,
  AuthStore, rotate, logout, get_current_user, get_by_hash_for_update, get_account, change_session,
  change_account, collides, replace, issue, bump, refresh_token_reuse_detected, with_last_login,
}
use ulutekproje.Sessions.Live.{live_in, live_of, IsRotating}
use ulutekproje.Sessions.Steps.{rotated, rotation}
use ulutekproje.Sessions.Correct.{
  signs_in, rotates, logs_out, serve_all, has_family, serve_all-IsRotating,
}
use ulutekproje.Sessions.Spent.{rotate_once}
use ulutekproje.Sessions.Reuse.{rotate_reuse, logout_signs_out}

abbrev sec : Security
sec = record {
  hash_token = λ t. suc t;
  privacy_hash = λ s. 0;
  refresh_token_days = 30;
  access_token_minutes = 15;
}

abbrev phone : SessionMetadata
phone = record { ip_address = "10.0.0.1"; user_agent = none; device_id = none; device_name = none }

abbrev draw : ℕ → Draw
draw n = record { plaintext = n; session_id = n; family_id = n }

abbrev ali : Account
ali = record { id = 1; status = active; auth_version = 4; last_login_at = none }

abbrev session : ℕ → RefreshSession
session n = record {
  id = n;
  user_id = 1;
  family_id = 70;
  parent_session_id = none;
  replaced_by_session_id = none;
  token_hash = suc n;
  issued_at = 0;
  expires_at = 1000;
  last_used_at = none;
  revoked_at = none;
  reuse_detected_at = none;
  device_id_hash = none;
  device_name = none;
  ip_hash = 0;
  user_agent = none;
}

abbrev db : AuthStore
db = record { users = ali ∷ []; sessions = session 20 ∷ [] }

abbrev after : AuthStore
after = rotated sec 9 (draw 21) (session 20) ali phone db

rotate-twice : (rotate sec 12 (draw 22) 20 phone after).0 ≡ err refresh_token_reuse_detected
unfolding rotate get_by_hash_for_update get_account change_session change_account
rotate-twice = refl

one_live : IsRotating db
unfolding live_in
one_live = λ f. ground arith

serve_all-IsRotating_example : IsRotating (
    serve_all sec db (
      signs_in 5 (draw 30) 1 phone
      ∷ rotates 9 (draw 21) 20 phone
      ∷ rotates 11 (draw 22) 20 phone
      ∷ logs_out 12 30 true
      ∷ []))
unfolding has_family
serve_all-IsRotating_example =
    serve_all-IsRotating sec db
      (signs_in 5 (draw 30) 1 phone
        ∷ rotates 9 (draw 21) 20 phone
        ∷ rotates 11 (draw 22) 20 phone
        ∷ logs_out 12 30 true
        ∷ [])
      one_live (refl, (tt, (tt, (tt, tt))))

rotate_once_example :
    (e : SessionError) × ((rotate sec 12
        (draw 22)
        20
        phone
        (serve_all sec after (logs_out 11 21 true ∷ []))).0
      ≡ err e)
unfolding rotate replace issue collides get_by_hash_for_update get_account change_session
    change_account
rotate_once_example =
    rotate_once sec 9 (draw 21) 20 phone db (rotation sec 9 (draw 21) ali) after
      (logs_out 11 21 true ∷ []) 12 (draw 22) phone refl

rotate_reuse_example :
    (db' : AuthStore) × (rotate sec 12 (draw 22) 20 phone after
      ≡ (err refresh_token_reuse_detected, db'))
    × (live_in 70 db'.sessions ≡ 0)
    × (get_account 1 db'.users ≡ some (bump (with_last_login 9 ali)))
unfolding get_by_hash_for_update get_account change_session change_account
rotate_reuse_example =
    rotate_reuse sec 12 (draw 22) 20 phone after
      record (session 20) {
        revoked_at = some 9;
        last_used_at = some 9;
        replaced_by_session_id = some 21;
      }
      (with_last_login 9 ali) 70 refl refl refl refl

abbrev held : AccessToken
held = record { sub = 1; sid = 20; av = 4; iat = 0; exp = 900 }

logout_signs_out_example :
    (live_of 1 (logout sec 12 20 true db).sessions ≡ 0)
    × (get_current_user held
          (serve_all sec (logout sec 12 20 true db) (signs_in 13 (draw 40) 1 phone ∷ []))
        ≡ none)
unfolding get_by_hash_for_update get_account
logout_signs_out_example =
    logout_signs_out sec 12 20 db (session 20) ali held (signs_in 13 (draw 40) 1 phone ∷ []) refl
      refl refl (omega arith)
