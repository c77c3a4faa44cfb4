-- ===== src/Lib.antt =====
-- mcp-hugo-server-go: an MCP server that lets agents read and edit a Hugo site.
--
-- A request comes with a bearer token, which the authorization server of internal/oauth issued. Its
-- scope decides which tools are in the catalogue of get_capabilities and which the caller may call; its principal is the identity under which
-- mutations are counted, remembered and attributed. Tools that write take an idempotency key, under
-- which their results are kept, and a change set, which has one owner. Files come in chunks, which
-- the upload store stages before they are committed. These parts are modelled, file by file:
--   * Scope.antt: internal/tools/registry.go, internal/oauth/scope_alias.go and
--     internal/oauth/scope_config.go (ScopeRank, CanonicalScope, requestedScope,
--     normalizeConfiguredScopes, Register, ForScope)
--   * Acl.antt: internal/oauth/acl.go (AllowRequest, DenyReason), over Scope
--   * Tokens.antt: internal/storage/store.go (the token store in memory)
--   * JsonTokens.antt: internal/storage/json.go (the token store in a file), over Tokens
--   * Previews.antt, Previews/Manage, Previews/Serve and Previews/Restart:
--     internal/previewstore/store.go (Put, Lookup, GetBySession, EstablishSession, SweepPersistent,
--     ListOwned, RevokeOwnedPersistent, HTTPHandler, NewPersistent)
--   * Oauth/Redirects: internal/oauth/redirects.go (validateRegisteredRedirectURI,
--     matchRedirectURI), with sourceAllowed and validateClientRedirectURL of internal/oauth/oauth.go
--   * Oauth/Types, Oauth/Clients, Oauth/Codes, Oauth/Exchange and Oauth/Agents:
--     internal/oauth/oauth.go and internal/oauth/agent_auth.go (registerClient, issueAuthCode,
--     exchangeAuthorizationCode, exchangeRefreshToken, ValidateBearer, PurgeExpired,
--     registerAgentAnonymous, verifyAgentClaim), over Scope and Tokens
--   * Oauth/Registry: internal/oauth/client_registry.go, with LoadClientRegistry of
--     internal/oauth/oauth.go
--   * Limits.antt: internal/oauth/ratelimit.go (callerKey, limiterFor, gc, evictOldest, Middleware)
--   * Caller.antt: internal/caller/caller.go (Key, MutationKey, Source)
--   * Changes.antt: internal/changeset/changeset.go (Create, Resolve, Peek, RecordMutation,
--     OwnerOfSourceKey), over Caller
--   * Idempotency.antt: internal/tools/write/idempotency.go (replay, remember)
--   * Upload.antt: internal/tools/write/chunked_upload_store.go (begin, appendChunk, get, consume,
--     abandon) with the staging files
--   * Assets.antt, Assets/Begin, Assets/Chunk, Assets/Commit and Assets/Publish:
--     internal/tools/write/page_assets.go and
--     internal/tools/write/chunked_upload_tools.go (validateAssetFilename, validateAssetBytes,
--     validateExpectedSha256, begin_asset_upload, upload_asset_chunk, commit_asset_upload), over
--     Upload, Changes and Idempotency
-- The modules below each of these prove theorems on it, named for what they prove; Tests applies the
-- theorems to concrete inputs. Base holds what all share.
--
-- A text is the list of its code points, and stands for valid UTF-8; its length in bytes is computed
-- from them. A Go map is an association list with one entry for a key, and an arbitrary list stands
-- for an arbitrary order of iteration. An operation is one step, a function from a state to a state
-- and a result; only a commit of an asset is two, around the content lock. Some operations hold
-- their lock for a part of their work or take it twice (GetBySession, the test of ownership in
-- Resolve and Peek, the exchange of a code), and what another call does in between is not modelled.
-- The clock is read once in an operation, also where the code reads it again, and the time is an
-- argument. Times are natural numbers. A random text is an argument, `none` where the generator
-- fails. An error is a constructor, with its text where a caller reads it; logging is left out.
--
-- Parameters stand for what is not in the repository: JSON, SHA-256 and its encodings, Go's parsers
-- of addresses, YAML, the token buckets, the database, and the writes to the file system. Assets takes
-- the path guard, the index of the pages and the check of SVG files, which are in the repository, as an
-- interface too. The loop of trimLocked runs on fuel, the number of entries, since each step removes
-- one; every other function is structural.
--
-- Not modelled: the other HTTP and MCP handlers, the token store in SQLite, the site index and the
-- tools that read and edit it, the database, and clients of outside services.
pub mod Base
pub mod Scope
pub mod Acl
pub mod Upload
pub mod Idempotency
pub mod Caller
pub mod Changes
pub mod Tokens
pub mod JsonTokens
pub mod Previews
pub mod Assets
pub mod Limits
pub mod Oauth
pub mod Tests
