-- ===== src/OAuth.antt =====
-- The OAuth server of the worker (ui/worker/lib/oauth.ts): client registration, authorization with
-- PKCE, tokens, bearer authentication and revocation.
pub mod Store
pub mod Platform
pub mod Clients
pub mod Authorize
pub mod Tokens
pub mod Bearer
pub mod Service
mod Tests
