-- ===== src/Session.antt =====
-- The SSU2 session (ssu2/session).
pub mod Fragments
