-- ===== src/Sessions/Steps.antt =====
-- What a request does to the tables, as a step.
use ulutekproje.Common.Result.{ok, err}
use ulutekproje.Common.{
  ℕ, ◌≡◌, refl, ◌∙◌, ap, inl, inr, some, Bool, true, false, ◌∷◌, arith, ◌==◌, leb, Bool-cases,
  Option-cases, is_none, if◌then◌else◌,
}
use ulutekproje.Sessions.{
  Security, Draw, SessionMetadata, IssuedSession, SessionError, Account, RefreshSession, AuthStore,
  new_session, issued_session, issue, detect_reuse, replace, rotate, logout, is_active, collides,
  get_by_hash_for_update, get_account, change_session, change_account, bump, with_last_login,
  with_revoked, spent, with_reuse, with_replaced, revoke_family,
}
use ulutekproje.Sessions.Later.{
  IsLater, sessions_refl, sessions_trans, users_refl, change_session-SessionsLater,
  revoke_family-SessionsLater, revoke_user_sessions-SessionsLater, change_account-UsersLater,
  bump_up, login_up, with_revoked-Kept, spent-Kept, with_reuse-Kept, with_replaced-Kept,
}
use ulutekproje.Sessions.Live.{live_in, IsRotating, live_in-spent, get_by_hash-eq}

abbrev pub with_row : RefreshSession → AuthStore → AuthStore
with_row row db = record db { sessions = row ∷ db.sessions }

-- `Fresh` is what a new family needs to be empty.
pub data Step (Fresh : Type 0) (db db' : AuthStore) : Type 0 where
  revised : IsLater db db' → Step Fresh db db'
  added :
      (row : RefreshSession) (mid : AuthStore)
      → IsLater db mid
      → collides row mid.sessions ≡ false
      → (Fresh → IsRotating db → live_in row.family_id mid.sessions ≡ 0)
      → IsLater (with_row row mid) db'
      → Step Fresh db db'

pub IsLater-refl : (db : AuthStore) → IsLater db db
IsLater-refl db = (users_refl db.users, sessions_refl db.sessions)

pub detect_reuse-IsLater :
    (now : ℕ) (c : RefreshSession) (db : AuthStore) → IsLater db (detect_reuse now c db)
unfolding detect_reuse
detect_reuse-IsLater now c db = elim (Bool-cases (is_none c.reuse_detected_at)) [
  | inl fresh ↦
      let marked = change_session c.token_hash (with_reuse now) db.sessions in
      rw fresh (
        change_account-UsersLater c.user_id bump db.users bump_up,
        sessions_trans db.sessions marked (revoke_family now c.family_id marked)
            (change_session-SessionsLater c.token_hash (with_reuse now) db.sessions
              (with_reuse-Kept now))
            (revoke_family-SessionsLater now c.family_id marked),
      )
  | inr seen ↦
      rw seen (users_refl db.users, revoke_family-SessionsLater now c.family_id db.sessions)
]

-- The tables after a successful rotation.
abbrev pub rotated :
    Security → ℕ → Draw → RefreshSession → Account → SessionMetadata → AuthStore → AuthStore
rotated sec now draw c u metadata db =
    let row = new_session sec now draw u metadata (some c.family_id) (some c.id) in
    record {
      users = change_account u.id (with_last_login now) db.users;
      sessions =
          change_session c.token_hash (with_replaced draw.session_id)
            (row ∷ change_session c.token_hash (spent now) db.sessions);
    }

abbrev pub rotation : Security → ℕ → Draw → Account → IssuedSession
rotation sec now draw u = record (issued_session sec now draw u) { user = with_last_login now u }

-- The row that a rotation would flush, among the others.
abbrev pub draw_collides :
    Security → ℕ → Draw → RefreshSession → Account → SessionMetadata → AuthStore → Bool
draw_collides sec now draw c u metadata db =
    collides (new_session sec now draw u metadata (some c.family_id) (some c.id))
      (change_session c.token_hash (spent now) db.sessions)

pub replace-eq :
    (sec : Security) (now : ℕ) (draw : Draw) (c : RefreshSession) (u : Account)
    (metadata : SessionMetadata) (db : AuthStore)
    → replace sec now draw c u metadata db ≡ (
        if draw_collides sec now draw c u metadata db
        then (err SessionError.integrity_error, db)
        else (ok (rotation sec now draw u), rotated sec now draw c u metadata db))
unfolding replace issue get_by_hash_for_update
replace-eq sec now draw c u metadata db =
    elim (Bool-cases (draw_collides sec now draw c u metadata db)) [
      | inl clash ↦ rw (clash, replace, issue) refl
      | inr free ↦
          let self : (sec.hash_token draw.plaintext == sec.hash_token draw.plaintext) ≡ true =
            ground arith in
          rw (free, replace, issue, self) refl
    ]

module _ (sec : Security) (now : ℕ) (draw : Draw) (metadata : SessionMetadata)
    (db : AuthStore) where
  pub rotate-replace :
      (token : ℕ) (c : RefreshSession) (u : Account)
      → get_by_hash_for_update (sec.hash_token token) db.sessions ≡ some c
      → get_account c.user_id db.users ≡ some u
      → is_active u.status ≡ true
      → is_none c.revoked_at ≡ true
      → leb c.expires_at now ≡ false
      → rotate sec now draw token metadata db ≡ replace sec now draw c u metadata db
  unfolding rotate
  rotate-replace token c u found user working live valid =
      rw (found, rotate, user, working, live, valid) refl

module _ (sec : Security) (now : ℕ) (draw : Draw) (metadata : SessionMetadata) (db : AuthStore)
    (Fresh : Type 0) where
  rotated-Step :
      (h : ℕ) (c : RefreshSession) (u : Account)
      → get_by_hash_for_update h db.sessions ≡ some c
      → is_none c.revoked_at ≡ true
      → draw_collides sec now draw c u metadata db ≡ false
      → Step Fresh db (rotated sec now draw c u metadata db)
  rotated-Step h c u found live free =
      let hash = get_by_hash-eq h db.sessions c found in
      let row = new_session sec now draw u metadata (some c.family_id) (some c.id) in
      let mid : AuthStore = record db {
        sessions = change_session c.token_hash (spent now) db.sessions;
      } in
      let found' : get_by_hash_for_update c.token_hash db.sessions ≡ some c =
        ap (λ k. get_by_hash_for_update k db.sessions) hash ∙ found in
      let count = live_in-spent now c.token_hash db.sessions c found' live in
      added row mid
        (
          users_refl db.users,
          change_session-SessionsLater c.token_hash (spent now) db.sessions (spent-Kept now),
        )
        free
        (λ (fresh : Fresh) (rotating : IsRotating db).
          let one = rotating c.family_id in omega (arith, one, count))
        (
          change_account-UsersLater u.id (with_last_login now) db.users (login_up now),
          change_session-SessionsLater c.token_hash (with_replaced draw.session_id)
              (row ∷ mid.sessions) (with_replaced-Kept draw.session_id),
        )

  replace-Step :
      (h : ℕ) (c : RefreshSession) (u : Account)
      → get_by_hash_for_update h db.sessions ≡ some c
      → is_none c.revoked_at ≡ true
      → Step Fresh db (replace sec now draw c u metadata db).1
  replace-Step h c u found live = elim (Bool-cases (draw_collides sec now draw c u metadata db)) [
    | inl clash ↦ rw (replace-eq sec now draw c u metadata db, clash) (revised (IsLater-refl db))
    | inr free ↦
        rw (replace-eq sec now draw c u metadata db, free) (rotated-Step h c u found live free)
  ]

  pub rotate-Step : (token : ℕ) → Step Fresh db (rotate sec now draw token metadata db).1
  unfolding rotate
  rotate-Step token =
      let h = sec.hash_token token in
      elim (Option-cases (get_by_hash_for_update h db.sessions)) [
        | inl unknown ↦ rw (unknown, rotate) (revised (IsLater-refl db))
        | inr (c, found) ↦ elim (Option-cases (get_account c.user_id db.users)) [
          | inl gone ↦ rw (found, rotate, gone) (revised (IsLater-refl db))
          | inr (u, user) ↦ elim (Bool-cases (is_active u.status)) [
            | inr idle ↦ rw (found, rotate, user, idle) (revised (IsLater-refl db))
            | inl working ↦ elim (Bool-cases (is_none c.revoked_at)) [
              | inr used ↦
                  rw (found, rotate, user, working, used) (revised (detect_reuse-IsLater now c db))
              | inl live ↦ elim (Bool-cases (leb c.expires_at now)) [
                | inl old ↦
                    rw (found, rotate, user, working, live, old)
                      (revised (
                        users_refl db.users,
                        change_session-SessionsLater c.token_hash (with_revoked now) db.sessions
                            (with_revoked-Kept now),
                      ))
                | inr valid ↦
                    rw
                      (rotate-replace sec now draw metadata db token c u found user working live
                        valid)
                      (replace-Step (sec.hash_token token) c u found live)
              ]
            ]
          ]
        ]
      ]

pub logout-IsLater :
    (sec : Security) (now token : ℕ) (all_devices : Bool) (db : AuthStore)
    → IsLater db (logout sec now token all_devices db)
unfolding logout
logout-IsLater sec now token all_devices db =
    elim (Option-cases (get_by_hash_for_update (sec.hash_token token) db.sessions)) [
      | inl unknown ↦ rw (unknown, logout) (IsLater-refl db)
      | inr (c, found) ↦ elim (Bool-cases all_devices) [
        | inl all ↦
            rw (found, logout, all)
              (
                change_account-UsersLater c.user_id bump db.users bump_up,
                revoke_user_sessions-SessionsLater now c.user_id db.sessions,
              )
        | inr one ↦ elim (Bool-cases (is_none c.revoked_at)) [
          | inl live ↦
              rw (found, logout, one, live)
                (
                  users_refl db.users,
                  change_session-SessionsLater c.token_hash (with_revoked now) db.sessions
                      (with_revoked-Kept now),
                )
          | inr used ↦ rw (found, logout, one, used) (IsLater-refl db)
        ]
      ]
    ]
