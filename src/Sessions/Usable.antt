-- ===== src/Sessions/Usable.antt =====
-- What a rotation issues, when it is used.
use ulutekproje.Common.{ℕ, none, Bool}
use ulutekproje.Sessions.{
  Security, Draw, SessionMetadata, Account, AuthStore, new_session, collides,
}

-- Whether the id or the token that a call draws is one of a session.
abbrev pub draw_taken : Security → ℕ → Draw → Account → SessionMetadata → AuthStore → Bool
draw_taken sec now draw u metadata db =
    collides (new_session sec now draw u metadata none none) db.sessions
