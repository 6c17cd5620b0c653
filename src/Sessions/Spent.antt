-- ===== src/Sessions/Spent.antt =====
-- A token that was rotated, under later requests.
use ulutekproje.Common.Result.{ok, err}
use ulutekproje.Common.{
  ℕ, ◌≡◌, refl, sym, ap, subst, ◌∙◌, inl, inr, some, true, false, List, [], ◌∷◌, ◌==◌, leb,
  Bool-cases, Option-cases, is_none,
}
use ulutekproje.Sessions.{
  Security, Draw, SessionMetadata, IssuedSession, SessionError, refresh_token_reuse_detected,
  invalid_refresh_token, Account, RefreshSession, AuthStore, new_session, rotate, is_active,
  collides, get_by_hash_for_update, get_account, change_session, spent, with_replaced,
}
use ulutekproje.Sessions.Later.{
  IsLater, with_replaced-Kept, change_session-SessionsLater, get_by_hash-later,
}
use ulutekproje.Sessions.Live.{get_by_hash-collides, get_by_hash-eq}
use ulutekproje.Sessions.Steps.{
  Step, revised, added, with_row, rotate-replace, replace-eq, draw_collides, rotated, rotation,
}
use ulutekproje.Sessions.Correct.{AuthRequest, serve, serve_all, serve-Step, IsFresh}

-- The token has a row, which is revoked.
abbrev pub IsSpent : ℕ → AuthStore → Type 0
IsSpent h db =
    (s : RefreshSession) × (get_by_hash_for_update h db.sessions ≡ some s)
    × (is_none s.revoked_at ≡ false)

later-IsSpent : (h : ℕ) (db db' : AuthStore) → IsLater db db' → IsSpent h db → IsSpent h db'
later-IsSpent h db db' later (s, found, gone) =
    let (t, found', kept) = get_by_hash-later h db.sessions db'.sessions s later.1 found in
    (t, found', kept.revoked gone)

with_row-IsSpent :
    (h : ℕ) (row : RefreshSession) (db : AuthStore)
    → collides row db.sessions ≡ false
    → IsSpent h db
    → IsSpent h (with_row row db)
unfolding get_by_hash_for_update
with_row-IsSpent h row db free (s, found, gone) =
    (s, cc (get_by_hash-collides h row db.sessions s free found, found), gone)

Step-IsSpent :
    (h : ℕ) (Fresh : Type 0) (db db' : AuthStore) → Step Fresh db db' → IsSpent h db → IsSpent h db'
Step-IsSpent h Fresh db db' (revised later) p = later-IsSpent h db db' later p
Step-IsSpent h Fresh db db' (added row mid before free empty after) p =
    later-IsSpent h (with_row row mid) db' after
      (with_row-IsSpent h row mid free (later-IsSpent h db mid before p))

serve_all-IsSpent :
    (sec : Security) (h : ℕ) (db : AuthStore) (rs : List AuthRequest)
    → IsSpent h db
    → IsSpent h (serve_all sec db rs)
unfolding serve_all
serve_all-IsSpent sec h db [] p = p
serve_all-IsSpent sec h db (r ∷ rs) p =
    serve_all-IsSpent sec h (serve sec r db) rs
      (Step-IsSpent h (IsFresh r db) db (serve sec r db) (serve-Step sec r db) p)

pub get_by_hash-spent :
    (now h : ℕ) (ss : List RefreshSession) (c : RefreshSession)
    → get_by_hash_for_update h ss ≡ some c
    → get_by_hash_for_update h (change_session h (spent now) ss) ≡ some (spent now c)
unfolding get_by_hash_for_update change_session
get_by_hash-spent now h [] c found = absurd cc
get_by_hash-spent now h (k ∷ ks) c found = elim (Bool-cases (k.token_hash == h)) [
  | inl e ↦ let same : k ≡ c = cc (e, found) in rw (e, e) (ap (λ x. some (spent now x)) same)
  | inr e ↦ rw (e, e) (get_by_hash-spent now h ks c (cc (e, found)))
]

-- What a successful `rotate` has checked and done.
pub record Rotates (sec : Security) (now : ℕ) (draw : Draw) (token : ℕ) (metadata : SessionMetadata)
    (db : AuthStore) (issued : IssuedSession) (db' : AuthStore) : Type 0 where
  pub current : RefreshSession
  pub user : Account
  pub found : get_by_hash_for_update (sec.hash_token token) db.sessions ≡ some current
  pub known : get_account current.user_id db.users ≡ some user
  pub working : is_active user.status ≡ true
  pub live : is_none current.revoked_at ≡ true
  pub free : draw_collides sec now draw current user metadata db ≡ false
  pub issues : rotation sec now draw user ≡ issued
  pub result : rotated sec now draw current user metadata db ≡ db'

pub rotate-Rotates :
    (sec : Security) (now : ℕ) (draw : Draw) (token : ℕ) (metadata : SessionMetadata)
    (db : AuthStore) (issued : IssuedSession) (db' : AuthStore)
    → rotate sec now draw token metadata db ≡ (ok issued, db')
    → Rotates sec now draw token metadata db issued db'
unfolding rotate
rotate-Rotates sec now draw token metadata db issued db' h =
    elim (Option-cases (get_by_hash_for_update (sec.hash_token token) db.sessions)) [
      | inl unknown ↦ absurd (cc (unknown, h))
      | inr (c, found) ↦ elim (Option-cases (get_account c.user_id db.users)) [
        | inl gone ↦ absurd (cc (found, gone, h))
        | inr (u, known) ↦ elim (Bool-cases (is_active u.status)) [
          | inr idle ↦ absurd (cc (found, known, idle, h))
          | inl working ↦ elim (Bool-cases (is_none c.revoked_at)) [
            | inr used ↦ absurd (cc (found, known, working, used, h))
            | inl live ↦ elim (Bool-cases (leb c.expires_at now)) [
              | inl old ↦ absurd (cc (found, known, working, live, old, h))
              | inr valid ↦
                  let there =
                    rotate-replace sec now draw metadata db token c u found known working live
                      valid in
                  let eq = there ∙ replace-eq sec now draw c u metadata db in
                  elim (Bool-cases (draw_collides sec now draw c u metadata db)) [
                    | inl clash ↦ absurd (cc (eq, clash, h))
                    | inr free ↦ record {
                      current = c;
                      user = u;
                      found = found;
                      known = known;
                      working = working;
                      live = live;
                      free = free;
                      issues = cc (eq, free, h);
                      result = cc (eq, free, h);
                    }
                  ]
            ]
          ]
        ]
      ]
    ]

rotate-IsSpent :
    (sec : Security) (now : ℕ) (draw : Draw) (token : ℕ) (metadata : SessionMetadata)
    (db : AuthStore) (issued : IssuedSession) (db' : AuthStore)
    → rotate sec now draw token metadata db ≡ (ok issued, db')
    → IsSpent (sec.hash_token token) db'
rotate-IsSpent sec now draw token metadata db issued db' h =
    let r = rotate-Rotates sec now draw token metadata db issued db' h in
    let c = r.current in
    let k = sec.hash_token token in
    let same : c.token_hash ≡ k = get_by_hash-eq k db.sessions c r.found in
    let row = new_session sec now draw r.user metadata (some c.family_id) (some c.id) in
    let mid = change_session c.token_hash (spent now) db.sessions in
    let mid_found : get_by_hash_for_update k mid ≡ some (spent now c) =
      subst
        (λ x.
          get_by_hash_for_update k (change_session x (spent now) db.sessions) ≡ some (spent now c))
        (sym same) (get_by_hash-spent now k db.sessions c r.found) in
    let there : IsSpent k (record db { sessions = row ∷ mid }) =
      with_row-IsSpent k row (record db { sessions = mid }) r.free (spent now c, mid_found, refl) in
    let (s, found, gone) = there in
    let (t, found', kept) =
      get_by_hash-later k (row ∷ mid)
        (change_session c.token_hash (with_replaced draw.session_id) (row ∷ mid)) s
        (change_session-SessionsLater c.token_hash (with_replaced draw.session_id) (row ∷ mid)
          (with_replaced-Kept draw.session_id))
        found in
    subst (IsSpent k) r.result (t, found', kept.revoked gone)

rotate_refuses :
    (sec : Security) (now : ℕ) (draw : Draw) (token : ℕ) (metadata : SessionMetadata)
    (db : AuthStore)
    → IsSpent (sec.hash_token token) db
    → (e : SessionError) × ((rotate sec now draw token metadata db).0 ≡ err e)
unfolding rotate
rotate_refuses sec now draw token metadata db (c, found, gone) =
    elim (Option-cases (get_account c.user_id db.users)) [
      | inl missing ↦ (invalid_refresh_token, cc (found, missing))
      | inr (u, known) ↦ elim (Bool-cases (is_active u.status)) [
        | inr idle ↦ (invalid_refresh_token, cc (found, known, idle))
        | inl working ↦ (refresh_token_reuse_detected, cc (found, known, working, gone))
      ]
    ]

-- A refresh token that was rotated with success is never accepted again, whatever requests were
-- served since, and whatever the instant and the draws are.
pub rotate_once :
    (sec : Security) (now : ℕ) (draw : Draw) (token : ℕ) (metadata : SessionMetadata)
    (db : AuthStore) (issued : IssuedSession) (db' : AuthStore) (rs : List AuthRequest) (later : ℕ)
    (draw' : Draw) (metadata' : SessionMetadata)
    → rotate sec now draw token metadata db ≡ (ok issued, db')
    → (e : SessionError) × ((rotate sec later draw' token metadata' (serve_all sec db' rs)).0
        ≡ err e)
rotate_once sec now draw token metadata db issued db' rs later draw' metadata' h =
    rotate_refuses sec later draw' token metadata' (serve_all sec db' rs) (
      serve_all-IsSpent sec (sec.hash_token token) db' rs
        (rotate-IsSpent sec now draw token metadata db issued db' h))
