-- ===== src/Sessions/Reuse.antt =====
-- The reuse of a revoked token, and the logout from all devices.
use ulutekproje.Common.Result.{err}
use ulutekproje.Common.{
  ℕ, ◌≤◌, ◌<◌, ◌≡◌, refl, sym, ap, subst, ◌∙◌, inl, inr, Option, none, some, true, false, List, [],
  ◌∷◌, arith, ◌==◌, Bool-cases, is_none, if◌then◌else◌,
}
use ulutekproje.Sessions.{
  Security, Draw, SessionMetadata, AccessToken, refresh_token_reuse_detected, Account,
  RefreshSession, AuthStore, detect_reuse, rotate, logout, is_active, accepts, get_current_user,
  get_by_hash_for_update, get_session, get_account, change_session, change_account, bump,
  with_reuse, revoke_user_sessions,
}
use ulutekproje.Sessions.Later.{IsLater, get_account-later}
use ulutekproje.Sessions.Live.{
  live_in, live_in-revoke_family, live_in-change_session, live_of, live_of-revoke_user_sessions,
}
use ulutekproje.Sessions.Steps.{Step, revised, added, with_row}
use ulutekproje.Sessions.Correct.{AuthRequest, serve, serve_all, serve-Step, IsFresh}

pub get_account-change :
    (k : ℕ) (f : Account → Account) (us : List Account) (u : Account)
    → ((v : Account) → (f v).id ≡ v.id)
    → get_account k us ≡ some u
    → get_account k (change_account k f us) ≡ some (f u)
unfolding get_account change_account
get_account-change k f [] u keeps found = absurd cc
get_account-change k f (v ∷ vs) u keeps found = elim (Bool-cases (v.id == k)) [
  | inl e ↦
      let same : v ≡ u = cc (e, found) in
      let still : ((f v).id == k) ≡ true = ground (arith, keeps v, e) in
      rw (e, still) (ap (λ x. some (f x)) same)
  | inr e ↦ rw (e, e) (get_account-change k f vs u keeps (cc (e, found)))
]

-- An active user's token that is revoked raises `RefreshTokenReuseDetected`. The committed tables
-- have no session in use in the token's family and as many as before in every other one. The user's
-- auth version is greater by one if the reuse had not been seen at this token, and else the same.
pub rotate_reuse :
    (sec : Security) (now : ℕ) (draw : Draw) (token : ℕ) (metadata : SessionMetadata)
    (db : AuthStore) (c : RefreshSession) (u : Account) (f : ℕ)
    → get_by_hash_for_update (sec.hash_token token) db.sessions ≡ some c
    → get_account c.user_id db.users ≡ some u
    → is_active u.status ≡ true
    → is_none c.revoked_at ≡ false
    → (db' : AuthStore) × (rotate sec now draw token metadata db
        ≡ (err refresh_token_reuse_detected, db'))
      × (live_in f db'.sessions ≡ (if f == c.family_id then 0 else live_in f db.sessions))
      × (get_account c.user_id db'.users ≡ some (if is_none c.reuse_detected_at then bump u else u))
unfolding rotate detect_reuse
rotate_reuse sec now draw token metadata db c u f found known working gone =
    elim (Bool-cases (is_none c.reuse_detected_at)) [
      | inl fresh ↦
          let marked = change_session c.token_hash (with_reuse now) db.sessions in
          (
            detect_reuse now c db,
            cc (found, known, working, gone),
            rw (detect_reuse, fresh)
                (live_in-revoke_family f now c.family_id marked
                  ∙ ap (λ n. if f == c.family_id then 0 else n)
                      (live_in-change_session f c.token_hash (with_reuse now) db.sessions
                        (λ s. refl))),
            rw (detect_reuse, fresh)
                (get_account-change c.user_id bump db.users u (λ v. refl) known),
          )
      | inr seen ↦ (
        detect_reuse now c db,
        cc (found, known, working, gone),
        rw (detect_reuse, seen) (live_in-revoke_family f now c.family_id db.sessions),
        rw (detect_reuse, seen) known,
      )
    ]

-- Whether the account of a user exists, with an auth version above `v`.
abbrev pub IsAbove : ℕ → ℕ → AuthStore → Type 0
IsAbove v k db = (u : Account) × (get_account k db.users ≡ some u) × (v < u.auth_version)

later-IsAbove : (v k : ℕ) (db db' : AuthStore) → IsLater db db' → IsAbove v k db → IsAbove v k db'
later-IsAbove v k db db' later (u, known, above) =
    let (u', known', up) = get_account-later k db.users db'.users u later.0 known in
    (u', known', omega (arith, above, up))

Step-IsAbove :
    (v k : ℕ) (Fresh : Type 0) (db db' : AuthStore)
    → Step Fresh db db'
    → IsAbove v k db
    → IsAbove v k db'
Step-IsAbove v k Fresh db db' (revised later) p = later-IsAbove v k db db' later p
Step-IsAbove v k Fresh db db' (added row mid before free empty after) p =
    later-IsAbove v k (with_row row mid) db' after (later-IsAbove v k db mid before p)

serve_all-IsAbove :
    (sec : Security) (v k : ℕ) (db : AuthStore) (rs : List AuthRequest)
    → IsAbove v k db
    → IsAbove v k (serve_all sec db rs)
unfolding serve_all
serve_all-IsAbove sec v k db [] p = p
serve_all-IsAbove sec v k db (r ∷ rs) p =
    serve_all-IsAbove sec v k (serve sec r db) rs
      (Step-IsAbove v k (IsFresh r db) db (serve sec r db) (serve-Step sec r db) p)

get_current_user-below :
    (payload : AccessToken) (db : AuthStore)
    → IsAbove payload.av payload.sub db
    → get_current_user payload db ≡ none
unfolding get_current_user
get_current_user-below payload db (u, known, above) =
    let differs : (u.auth_version == payload.av) ≡ false = ground (arith, above) in
    let refused : (o : Option RefreshSession) → accepts payload (some u) o ≡ false =
      λ (o : Option RefreshSession). ground (arith, differs) in
    rw (known, get_current_user, refused (get_session payload.sid db.sessions)) refl

-- After a logout from all devices with a token of an existing user, the user has no session that is
-- not revoked, and an access token that bears the user's auth version of before, or a smaller one,
-- is refused whatever requests are served next.
pub logout_signs_out :
    (sec : Security) (now token : ℕ) (db : AuthStore) (c : RefreshSession) (u : Account)
    (payload : AccessToken) (rs : List AuthRequest)
    → get_by_hash_for_update (sec.hash_token token) db.sessions ≡ some c
    → get_account c.user_id db.users ≡ some u
    → payload.sub ≡ c.user_id
    → payload.av ≤ u.auth_version
    → (live_of c.user_id (logout sec now token true db).sessions ≡ 0)
      × (get_current_user payload (serve_all sec (logout sec now token true db) rs) ≡ none)
unfolding logout
logout_signs_out sec now token db c u payload rs found known sub old =
    let db' : AuthStore = record {
      users = change_account c.user_id bump db.users;
      sessions = revoke_user_sessions now c.user_id db.sessions;
    } in
    let done : logout sec now token true db ≡ db' = rw (found, logout) refl in
    let self : (c.user_id == c.user_id) ≡ true = ground arith in
    let above : IsAbove payload.av c.user_id db' = (
      bump u,
      get_account-change c.user_id bump db.users u (λ v. refl) known,
      omega (arith, old),
    ) in
    rw done (
      live_of-revoke_user_sessions c.user_id now c.user_id db.sessions
          ∙ ap (λ b. if b then 0 else live_of c.user_id db.sessions) self,
      get_current_user-below payload (serve_all sec db' rs) (
          serve_all-IsAbove sec payload.av payload.sub db' rs
            (subst (λ k. IsAbove payload.av k db') (sym sub) above)),
    )
