-- ===== src/Auth.antt =====
-- internal/auth: who may call what, and the sessions and roles of the users.
pub mod Oidc
pub mod Tokens
pub mod Middleware
