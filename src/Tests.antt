-- ===== src/Tests.antt =====
-- Theorems at concrete inputs that meet their hypotheses.
mod Uploads
mod Results
mod Scopes
mod Stores
mod Previews
mod Assets
mod Limits
mod Oauth
mod Registry
mod Changes
mod Calls
