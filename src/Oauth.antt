-- ===== src/Oauth.antt =====
-- internal/oauth/oauth.go and agent_auth.go: the authorization server behind its handlers. Times
-- are natural numbers; a random text is an argument, `none` where the generator fails. Hashing is a
-- parameter. An error is a constructor; `message` is its text.
pub mod Types
pub mod Redirects
pub mod Codes
pub mod Agents
pub mod Clients
pub mod Registered
pub mod Registry
pub mod Confidential
pub mod Exchange
pub mod Stored
pub mod Verified
pub mod Redeem
pub mod Once
pub mod Grant
pub mod Purge
pub mod Claims
pub mod Errors
