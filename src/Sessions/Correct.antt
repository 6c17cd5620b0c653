-- ===== src/Sessions/Correct.antt =====
-- What the requests of many clients, served one after another, do to the sessions.
use ulutekproje.Common.Result.{Result, ok, err}
use ulutekproje.Common.{
  ℕ, ◌≤◌, ◌≡◌, refl, sym, ap, ◌∙◌, inl, inr, none, some, Bool, false, ◌||◌, List, [], ◌∷◌, arith,
  ◌==◌, ==_iff, Bool-cases, Option-cases,
}
use ulutekproje.Sessions.{
  Security, Draw, SessionMetadata, IssuedSession, SessionError, Account, RefreshSession, AuthStore,
  new_session, issue, rotate, logout, revoke_all_for_user, collides, get_account, bump,
}
use ulutekproje.Sessions.Later.{
  IsLater, change_account-UsersLater, revoke_user_sessions-SessionsLater, bump_up,
}
use ulutekproje.Sessions.Live.{live_in, live_in-later, IsRotating}
use ulutekproje.Sessions.Steps.{
  Step, revised, added, with_row, IsLater-refl, rotate-Step, logout-IsLater,
}

-- A request with the instant and the draws of its call. `signs_in` is the `issue` of a sign-in.
pub data AuthRequest : Type 0 where
  signs_in : (now : ℕ) (draw : Draw) (user_id : ℕ) (metadata : SessionMetadata) → AuthRequest
  rotates : (now : ℕ) (draw : Draw) (token : ℕ) (metadata : SessionMetadata) → AuthRequest
  logs_out : (now token : ℕ) (all_devices : Bool) → AuthRequest
  revokes_all : (now user_id : ℕ) → AuthRequest

-- The tables that a sign-in commits; a raised `IntegrityError` rolls it back.
abbrev pub committed : AuthStore → Result SessionError (IssuedSession × AuthStore) → AuthStore
committed db (ok (issued, db')) = db'
committed db (err e) = db

unfoldable pub serve : Security → AuthRequest → AuthStore → AuthStore
unfolding get_account issue rotate logout revoke_all_for_user
serve sec (signs_in now draw user_id metadata) db = elim (get_account user_id db.users) [
  | none ↦ db
  | some user ↦ committed db (issue sec now draw user metadata none none db)
]
serve sec (rotates now draw token metadata) db = (rotate sec now draw token metadata db).1
serve sec (logs_out now token all_devices) db = logout sec now token all_devices db
serve sec (revokes_all now user_id) db = elim (get_account user_id db.users) [
  | none ↦ db
  | some user ↦ revoke_all_for_user now user db
]

unfoldable pub serve_all : Security → AuthStore → List AuthRequest → AuthStore
unfolding serve
serve_all sec db [] = db
serve_all sec db (r ∷ rs) = serve_all sec (serve sec r db) rs

unfoldable pub has_family : ℕ → List RefreshSession → Bool
has_family k [] = false
has_family k (s ∷ ss) = s.family_id == k || has_family k ss

-- The family that a sign-in draws is no row's, as `uuid4` promises.
abbrev pub IsFresh : AuthRequest → AuthStore → Type 0
IsFresh (signs_in now draw user_id metadata) db = has_family draw.family_id db.sessions ≡ false
IsFresh (rotates now draw token metadata) db = Unit
IsFresh (logs_out now token all_devices) db = Unit
IsFresh (revokes_all now user_id) db = Unit

abbrev pub AreFresh : Security → AuthStore → List AuthRequest → Type 0
AreFresh sec db [] = Unit
AreFresh sec db (r ∷ rs) = IsFresh r db × AreFresh sec (serve sec r db) rs

live_in-absent : (k : ℕ) (ss : List RefreshSession) → has_family k ss ≡ false → live_in k ss ≡ 0
unfolding has_family live_in
live_in-absent k [] h = refl
live_in-absent k (s ∷ ss) h = ground (arith, live_in-absent k ss)

revoke_all-IsLater :
    (now : ℕ) (user : Account) (db : AuthStore) → IsLater db (revoke_all_for_user now user db)
unfolding revoke_all_for_user
revoke_all-IsLater now user db = (
  change_account-UsersLater user.id bump db.users bump_up,
  revoke_user_sessions-SessionsLater now user.id db.sessions,
)

pub serve-Step :
    (sec : Security) (r : AuthRequest) (db : AuthStore) → Step (IsFresh r db) db (serve sec r db)
unfolding serve issue
serve-Step sec (signs_in now draw user_id metadata) db =
    elim (Option-cases (get_account user_id db.users)) [
      | inl gone ↦ rw (serve, gone) (revised (IsLater-refl db))
      | inr (u, user) ↦
          let row = new_session sec now draw u metadata none none in
          elim (Bool-cases (collides row db.sessions)) [
            | inl clash ↦ rw (serve, user, issue, clash) (revised (IsLater-refl db))
            | inr free ↦
                rw (serve, user, issue, free)
                  (added row db (IsLater-refl db) free
                    (λ fresh rotating. live_in-absent draw.family_id db.sessions fresh)
                    (IsLater-refl (with_row row db)))
          ]
    ]
serve-Step sec (rotates now draw token metadata) db =
    rotate-Step sec now draw metadata db Unit token
serve-Step sec (logs_out now token all_devices) db =
    revised (logout-IsLater sec now token all_devices db)
serve-Step sec (revokes_all now user_id) db = elim (Option-cases (get_account user_id db.users)) [
  | inl gone ↦ rw (serve, gone) (revised (IsLater-refl db))
  | inr (u, user) ↦ rw (serve, user) (revised (revoke_all-IsLater now u db))
]

Step-IsRotating :
    (Fresh : Type 0) (db db' : AuthStore)
    → Fresh
    → IsRotating db
    → Step Fresh db db'
    → IsRotating db'
unfolding live_in
Step-IsRotating Fresh db db' fresh rotating (revised later) =
    λ f. omega (arith, rotating f, live_in-later f db.sessions db'.sessions later.1)
Step-IsRotating Fresh db db' fresh rotating (added row mid before free empty after) = λ f.
    bound f (empty fresh rotating) (live_in-later f db.sessions mid.sessions before.1)
      (live_in-later f (row ∷ mid.sessions) db'.sessions after.1) (rotating f)
  where
    bound :
        (f : ℕ)
        → live_in row.family_id mid.sessions ≡ 0
        → live_in f mid.sessions ≤ live_in f db.sessions
        → live_in f db'.sessions ≤ live_in f (row ∷ mid.sessions)
        → live_in f db.sessions ≤ 1
        → live_in f db'.sessions ≤ 1
    bound f none_in a b c = elim (Bool-cases (row.family_id == f)) [
      | inl e ↦
          let same : row.family_id ≡ f = (==_iff row.family_id f).0 e in
          let empty' : live_in f mid.sessions ≡ 0 =
            ap (λ k. live_in k mid.sessions) (sym same) ∙ none_in in
          ground (arith, empty', a, b, c)
      | inr e ↦ ground (arith, e, a, b, c)
    ]

-- However the requests follow each other, whether they succeed or fail, no family has two sessions
-- that are not revoked, if none had before and every sign-in draws a new family.
pub serve_all-IsRotating :
    (sec : Security) (db : AuthStore) (rs : List AuthRequest)
    → IsRotating db
    → AreFresh sec db rs
    → IsRotating (serve_all sec db rs)
unfolding serve_all
serve_all-IsRotating sec db [] rotating fresh = rotating
serve_all-IsRotating sec db (r ∷ rs) rotating fresh =
    serve_all-IsRotating sec (serve sec r db) rs
      (Step-IsRotating (IsFresh r db) db (serve sec r db) fresh.0 rotating (serve-Step sec r db))
      fresh.1
