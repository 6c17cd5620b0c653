-- ===== src/Sessions/Live.antt =====
-- Counting the sessions of a family that are not revoked.
use ulutekproje.Common.{
  ℕ, suc, ◌+◌, ◌≤◌, ◌≡◌, refl, sym, inl, inr, some, true, false, ◌&&◌, List, [], ◌∷◌, arith, ◌==◌,
  Bool-cases, is_none, if◌then◌else◌,
}
use ulutekproje.Sessions.Rows.{
  RefreshSession, AuthStore, get_by_hash_for_update, change_session, spent, revoke_family,
  revoke_user_sessions, collides,
}
use ulutekproje.Sessions.Later.{Kept, SessionsLater}

abbrev pub live_weight : ℕ → RefreshSession → ℕ
live_weight f s = if s.family_id == f && is_none s.revoked_at then 1 else 0

unfoldable pub live_in : ℕ → List RefreshSession → ℕ
live_in f [] = 0
live_in f (s ∷ ss) = live_weight f s + live_in f ss

-- No family has two sessions in use.
abbrev pub IsRotating : AuthStore → Type 0
IsRotating db = (f : ℕ) → live_in f db.sessions ≤ 1

Kept-weight : (f : ℕ) (s t : RefreshSession) → Kept s t → live_weight f t ≤ live_weight f s
Kept-weight f s t k =
    let family = k.family in
    elim (Bool-cases (is_none s.revoked_at)) [
      | inl live ↦ ground (arith, family, live)
      | inr gone ↦ let gone' = k.revoked gone in ground (arith, family, gone, gone')
    ]

pub live_in-later :
    (f : ℕ) (ss ts : List RefreshSession) → SessionsLater ss ts → live_in f ts ≤ live_in f ss
unfolding live_in
live_in-later f [] ts p = rw p (omega arith)
live_in-later f (s ∷ ss) [] p = cc
live_in-later f (s ∷ ss) (t ∷ ts) p =
    omega (arith, Kept-weight f s t p.0, live_in-later f ss ts p.1)

-- The token that is rotated leaves its family.
pub live_in-spent :
    (now h : ℕ) (ss : List RefreshSession) (c : RefreshSession)
    → get_by_hash_for_update h ss ≡ some c
    → is_none c.revoked_at ≡ true
    → suc (live_in c.family_id (change_session h (spent now) ss)) ≡ live_in c.family_id ss
unfolding get_by_hash_for_update change_session live_in
live_in-spent now h [] c found live = cc
live_in-spent now h (k ∷ ks) c found live = elim (Bool-cases (k.token_hash == h)) [
  | inl e ↦ let same : k ≡ c = cc (e, found) in rw (e, sym same) (rw same (ground (arith, live)))
  | inr e ↦ rw e (omega (arith, live_in-spent now h ks c (cc (e, found)) live))
]

pub live_in-revoke_family :
    (f now k : ℕ) (ss : List RefreshSession)
    → live_in f (revoke_family now k ss) ≡ (if f == k then 0 else live_in f ss)
unfolding live_in revoke_family
live_in-revoke_family f now k [] = ground arith
live_in-revoke_family f now k (s ∷ ss) = ground (arith, live_in-revoke_family f now k ss)

-- A change of one row that keeps its family and does not revoke it.
pub live_in-change_session :
    (f h : ℕ) (change : RefreshSession → RefreshSession) (ss : List RefreshSession)
    → ((s : RefreshSession) → live_weight f (change s) ≡ live_weight f s)
    → live_in f (change_session h change ss) ≡ live_in f ss
unfolding live_in change_session
live_in-change_session f h change [] keeps = refl
live_in-change_session f h change (s ∷ ss) keeps =
    ground (arith, keeps s, live_in-change_session f h change ss keeps)

-- A user's sessions that are not revoked.
unfoldable pub live_of : ℕ → List RefreshSession → ℕ
live_of u [] = 0
live_of u (s ∷ ss) = (if s.user_id == u && is_none s.revoked_at then 1 else 0) + live_of u ss

pub live_of-revoke_user_sessions :
    (u now k : ℕ) (ss : List RefreshSession)
    → live_of u (revoke_user_sessions now k ss) ≡ (if u == k then 0 else live_of u ss)
unfolding live_of revoke_user_sessions
live_of-revoke_user_sessions u now k [] = ground arith
live_of-revoke_user_sessions u now k (s ∷ ss) =
    ground (arith, live_of-revoke_user_sessions u now k ss)

-- A new row has a hash that no other row has.
pub get_by_hash-collides :
    (h : ℕ) (new : RefreshSession) (ss : List RefreshSession) (s : RefreshSession)
    → collides new ss ≡ false
    → get_by_hash_for_update h ss ≡ some s
    → (new.token_hash == h) ≡ false
unfolding get_by_hash_for_update collides
get_by_hash-collides h new [] s free found = cc
get_by_hash-collides h new (k ∷ ks) s free found = elim (Bool-cases (k.token_hash == h)) [
  | inl e ↦ ground (arith, e, free)
  | inr e ↦ get_by_hash-collides h new ks s (ground (arith, free)) (cc (e, found))
]

pub get_by_hash-eq :
    (h : ℕ) (ss : List RefreshSession) (s : RefreshSession)
    → get_by_hash_for_update h ss ≡ some s
    → s.token_hash ≡ h
unfolding get_by_hash_for_update
get_by_hash-eq h [] s found = cc
get_by_hash-eq h (k ∷ ks) s found = elim (Bool-cases (k.token_hash == h)) [
  | inl e ↦ let same : k ≡ s = cc (e, found) in rw (sym same) (ground (arith, e))
  | inr e ↦ get_by_hash-eq h ks s (cc (e, found))
]
