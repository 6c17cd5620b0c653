-- ===== src/Sessions/Later.antt =====
-- A table of sessions or users after changes that add no row.
use ulutekproje.Common.{
  ℕ, ◌≤◌, ◌≡◌, refl, subst, ◌∙◌, inl, inr, some, true, false, List, [], ◌∷◌, arith, ◌==◌,
  Bool-cases, is_none,
}
use ulutekproje.Sessions.Rows.{
  Account, RefreshSession, AuthStore, get_by_hash_for_update, change_session, get_account,
  change_account, bump, with_last_login, with_revoked, spent, with_reuse, with_replaced,
  revoke_family, revoke_user_sessions,
}

-- One row before and after.
pub record Kept (s t : RefreshSession) : Type 0 where
  pub hash : t.token_hash ≡ s.token_hash
  pub family : t.family_id ≡ s.family_id
  pub revoked : is_none s.revoked_at ≡ false → is_none t.revoked_at ≡ false

abbrev pub SessionsLater : List RefreshSession → List RefreshSession → Type 0
SessionsLater [] ts = ts ≡ []
SessionsLater (s ∷ ss) [] = (true ≡ false)
SessionsLater (s ∷ ss) (t ∷ ts) = Kept s t × SessionsLater ss ts

abbrev pub UsersLater : List Account → List Account → Type 0
UsersLater [] vs = vs ≡ []
UsersLater (u ∷ us) [] = (true ≡ false)
UsersLater (u ∷ us) (v ∷ vs) = (v.id ≡ u.id) × (u.auth_version ≤ v.auth_version) × UsersLater us vs

abbrev pub IsLater : AuthStore → AuthStore → Type 0
IsLater db db' = UsersLater db.users db'.users × SessionsLater db.sessions db'.sessions

pub Kept-refl : (s : RefreshSession) → Kept s s
Kept-refl s = record { hash = refl; family = refl; revoked = λ h. h }

Kept-trans : (s t u : RefreshSession) → Kept s t → Kept t u → Kept s u
Kept-trans s t u a b = record {
  hash = b.hash ∙ a.hash;
  family = b.family ∙ a.family;
  revoked = λ h. b.revoked (a.revoked h);
}

pub sessions_refl : (ss : List RefreshSession) → SessionsLater ss ss
sessions_refl [] = refl
sessions_refl (s ∷ ss) = (Kept-refl s, sessions_refl ss)

pub sessions_trans :
    (ss ts us : List RefreshSession)
    → SessionsLater ss ts
    → SessionsLater ts us
    → SessionsLater ss us
sessions_trans [] [] us p q = q
sessions_trans [] (t ∷ ts) us p q = cc
sessions_trans (s ∷ ss) [] us p q = cc
sessions_trans (s ∷ ss) (t ∷ ts) [] p q = q
sessions_trans (s ∷ ss) (t ∷ ts) (u ∷ us) p q =
    (Kept-trans s t u p.0 q.0, sessions_trans ss ts us p.1 q.1)

pub users_refl : (us : List Account) → UsersLater us us
users_refl [] = refl
users_refl (u ∷ us) = (refl, omega arith, users_refl us)

pub change_session-SessionsLater :
    (h : ℕ) (f : RefreshSession → RefreshSession) (ss : List RefreshSession)
    → ((s : RefreshSession) → Kept s (f s))
    → SessionsLater ss (change_session h f ss)
unfolding change_session
change_session-SessionsLater h f [] k = refl
change_session-SessionsLater h f (s ∷ ss) k = elim (Bool-cases (s.token_hash == h)) [
  | inl e ↦ rw e (k s, sessions_refl ss)
  | inr e ↦ rw e (Kept-refl s, change_session-SessionsLater h f ss k)
]

pub revoke_family-SessionsLater :
    (now k : ℕ) (ss : List RefreshSession) → SessionsLater ss (revoke_family now k ss)
unfolding revoke_family
revoke_family-SessionsLater now k [] = refl
revoke_family-SessionsLater now k (s ∷ ss) = (
  record { hash = ground arith; family = ground arith; revoked = λ h. ground arith },
  revoke_family-SessionsLater now k ss,
)

pub revoke_user_sessions-SessionsLater :
    (now k : ℕ) (ss : List RefreshSession) → SessionsLater ss (revoke_user_sessions now k ss)
unfolding revoke_user_sessions
revoke_user_sessions-SessionsLater now k [] = refl
revoke_user_sessions-SessionsLater now k (s ∷ ss) = (
  record { hash = ground arith; family = ground arith; revoked = λ h. ground arith },
  revoke_user_sessions-SessionsLater now k ss,
)

pub change_account-UsersLater :
    (k : ℕ) (f : Account → Account) (us : List Account)
    → ((u : Account) → ((f u).id ≡ u.id) × (u.auth_version ≤ (f u).auth_version))
    → UsersLater us (change_account k f us)
unfolding change_account
change_account-UsersLater k f [] keeps = refl
change_account-UsersLater k f (u ∷ us) keeps = elim (Bool-cases (u.id == k)) [
  | inl e ↦ rw e ((keeps u).0, (keeps u).1, users_refl us)
  | inr e ↦ rw e (refl, omega arith, change_account-UsersLater k f us keeps)
]

pub bump_up : (u : Account) → ((bump u).id ≡ u.id) × (u.auth_version ≤ (bump u).auth_version)
bump_up u = (refl, omega arith)

pub login_up :
    (now : ℕ) (u : Account)
    → ((with_last_login now u).id ≡ u.id) × (u.auth_version ≤ (with_last_login now u).auth_version)
login_up now u = (refl, omega arith)

pub with_revoked-Kept : (now : ℕ) (s : RefreshSession) → Kept s (with_revoked now s)
with_revoked-Kept now s = record { hash = refl; family = refl; revoked = λ h. refl }

pub spent-Kept : (now : ℕ) (s : RefreshSession) → Kept s (spent now s)
spent-Kept now s = record { hash = refl; family = refl; revoked = λ h. refl }

pub with_reuse-Kept : (now : ℕ) (s : RefreshSession) → Kept s (with_reuse now s)
with_reuse-Kept now s = record { hash = refl; family = refl; revoked = λ h. h }

pub with_replaced-Kept : (k : ℕ) (s : RefreshSession) → Kept s (with_replaced k s)
with_replaced-Kept k s = record { hash = refl; family = refl; revoked = λ h. h }

-- A revoked token stays revoked.
pub get_by_hash-later :
    (h : ℕ) (ss ts : List RefreshSession) (s : RefreshSession)
    → SessionsLater ss ts
    → get_by_hash_for_update h ss ≡ some s
    → (t : RefreshSession) × (get_by_hash_for_update h ts ≡ some t) × Kept s t
unfolding get_by_hash_for_update
get_by_hash-later h [] ts s p e = absurd cc
get_by_hash-later h (k ∷ ks) [] s p e = absurd cc
get_by_hash-later h (k ∷ ks) (t ∷ ts) s p e = elim (Bool-cases (k.token_hash == h)) [
  | inl same ↦
      let it : k ≡ s = cc (same, e) in
      let kept = p.0 in
      let same' : (t.token_hash == h) ≡ true = ground (arith, kept.hash, same) in
      (t, cc same', subst (λ x. Kept x t) it kept)
  | inr other ↦
      let kept = p.0 in
      let other' : (t.token_hash == h) ≡ false = ground (arith, kept.hash, other) in
      let (r, found, k') = get_by_hash-later h ks ts s p.1 (cc (other, e)) in
      (r, cc (other', found), k')
]

pub get_account-later :
    (k : ℕ) (us vs : List Account) (u : Account)
    → UsersLater us vs
    → get_account k us ≡ some u
    → (v : Account) × (get_account k vs ≡ some v) × (u.auth_version ≤ v.auth_version)
unfolding get_account
get_account-later k [] vs u p e = absurd cc
get_account-later k (x ∷ xs) [] u p e = absurd cc
get_account-later k (x ∷ xs) (v ∷ vs) u (id, version, p) e = elim (Bool-cases (x.id == k)) [
  | inl same ↦
      let it : x ≡ u = cc (same, e) in
      let same' : (v.id == k) ≡ true = ground (arith, id, same) in
      (v, cc same', subst (λ (y : Account). y.auth_version ≤ v.auth_version) it version)
  | inr other ↦
      let other' : (v.id == k) ≡ false = ground (arith, id, other) in
      let (r, found, up) = get_account-later k xs vs u p (cc (other, e)) in
      (r, cc (other', found), up)
]
