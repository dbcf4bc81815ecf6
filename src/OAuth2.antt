-- ===== src/OAuth2.antt =====
-- src/extras/oauth2: the authorization server.
pub mod RedisClientStore
pub mod Types
pub mod ClientStore
pub mod Pkce
pub mod Oidc
pub mod Controller
