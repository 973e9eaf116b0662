-- ===== src/Auth.antt =====
-- internal/auth: who a caller is, and what a caller may do.
pub mod Authorizer
pub mod ApiKey
pub mod Oidc
pub mod Middleware
