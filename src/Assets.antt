-- ===== src/Assets.antt =====
-- internal/tools/write/page_assets.go and internal/tools/write/chunked_upload_tools.go: the assets of
-- a page that come in chunks. The path guard, the index of the pages, the sniffing of content types
-- (`http.DetectContentType`), the check of SVG files (`validateSVGContent`) and the hashes are an
-- interface. A message of an error is its constructor.
pub mod Begin
pub mod Started
pub mod Chunk
pub mod Complete
pub mod Commit
pub mod Publish
pub mod Ready
pub mod Verified
pub mod Finish
pub mod Committed
pub mod Retry
use mcp_hugo_server_go.Base.{
  ℕ, ◌*◌, ◌+◌, Bool, true, false, not, ◌&&◌, ◌||◌, List, [], ◌∷◌, Option, none, some, ltb, leb,
  nat_beq, length, take, if◌then◌else◌,
}
use mcp_hugo_server_go.Base.Keys.{text_eq, ◌==◌}
use mcp_hugo_server_go.Base.Map.{Map, lookup}
use mcp_hugo_server_go.Base.Result.{Result, ok, err}
use mcp_hugo_server_go.Base.Text.{
  Text, codes, trim_space, has_prefix, trim_prefix, before_first, byte_length,
}
use mcp_hugo_server_go.Caller.{Context, token_key, key, text_of}
use mcp_hugo_server_go.Upload.{Bytes}

-- `maxAssetBytes`
abbrev pub max_asset_bytes : ℕ
max_asset_bytes = 10485760

abbrev is_upper : ℕ → Bool
is_upper c = leb b'A' c && leb c b'Z'

abbrev is_alphanumeric : ℕ → Bool
is_alphanumeric c = is_upper c || (leb b'a' c && leb c b'z') || (leb b'0' c && leb c b'9')

-- The character class of the rest of `assetFilenamePattern`
abbrev is_name_char : ℕ → Bool
is_name_char c = is_alphanumeric c || nat_beq c b'.' || nat_beq c b'_' || nat_beq c b'-'

unfoldable pub all_name_chars : Text → Bool
all_name_chars [] = true
all_name_chars (c ∷ s) = is_name_char c && all_name_chars s

-- `assetFilenamePattern.MatchString`
unfoldable pub is_asset_name : Text → Bool
is_asset_name [] = false
is_asset_name (c ∷ s) = is_alphanumeric c && (leb (length s) 119 && all_name_chars s)

-- `filepath.Ext` of a name without `/`
unfoldable pub extension : Text → Text
extension [] = []
extension (c ∷ s) =
    let later = extension s in if later == [] then if nat_beq c b'.' then c ∷ s else [] else later

-- `strings.ToLower` of a name in ASCII
unfoldable pub to_lower : Text → Text
to_lower [] = []
to_lower (c ∷ s) = (if is_upper c then c + 32 else c) ∷ to_lower s

-- `allowedAssetTypes`
abbrev pub allowed_asset_types : Map Text Text
allowed_asset_types =
    (codes ".png", codes "image/png")
    ∷ (codes ".jpg", codes "image/jpeg")
    ∷ (codes ".jpeg", codes "image/jpeg")
    ∷ (codes ".gif", codes "image/gif")
    ∷ (codes ".webp", codes "image/webp")
    ∷ (codes ".svg", codes "image/svg+xml")
    ∷ []

pub data AssetError : Type 0 where
  bad_filename type_not_allowed empty_asset too_large bad_svg type_mismatch bad_sha256 : AssetError
  page_not_found not_a_bundle : AssetError

abbrev named_type : Text → Text → Option Text → Result AssetError (Text × Text × Text)
named_type name ext none = err type_not_allowed
named_type name ext (some mime) = ok (name, ext, mime)

-- `validateAssetFilename`: the clean name, its extension and its type
unfoldable pub validate_asset_filename : Text → Result AssetError (Text × Text × Text)
validate_asset_filename name =
    if is_asset_name (trim_space name)
    then named_type (trim_space name) (to_lower (extension (trim_space name)))
        (lookup (to_lower (extension (trim_space name))) allowed_asset_types)
    else err bad_filename

-- A digit of `[0-9a-f]`
abbrev is_hex : ℕ → Bool
is_hex c = (leb b'0' c && leb c b'9') || (leb b'a' c && leb c b'f')

unfoldable pub all_hex : Text → Bool
all_hex [] = true
all_hex (c ∷ s) = is_hex c && all_hex s

-- `validateExpectedSha256`
unfoldable pub validate_expected_sha256 : Text → Result AssetError Text
validate_expected_sha256 v =
    let s = trim_space v in
    if s == []
    then ok []
    else if not (nat_beq (byte_length s) 71) || not (has_prefix s (codes "sha256:"))
    then err bad_sha256
    else if all_hex (trim_prefix s (codes "sha256:"))
    then ok s
    else err bad_sha256

-- What the handlers use of the rest of the program
pub record AssetEnv : Type 0 where
  -- `contentmodel.SourceRevisionBytes`
  pub revision : Bytes → Text
  pub detect_content_type : Bytes → Text
  pub is_safe_svg : Bytes → Bool
  -- `requestHash` of slug, filename and hash
  pub request_hash : Text → Text → Text → Option Text
  -- `pg.SafeJoin(filepath.Join(slug, filename))`
  pub safe_join : Text → Text → Option Text
  -- `pg.SafeJoin(slug)`
  pub safe_dir : Text → Option Text
  -- `pg.RevalidateForWrite`
  pub is_writable : Text → Bool
  -- `validateBundleSlug`
  pub bundle_error : Text → Option AssetError

-- `validateAssetBytes`; `none` is the nil error.
unfoldable pub validate_asset_bytes : AssetEnv → Bytes → Text → Text → Option AssetError
validate_asset_bytes env bytes ext mime =
    if nat_beq (length bytes) 0
    then some empty_asset
    else if ltb max_asset_bytes (length bytes)
    then some too_large
    else if ext == codes ".svg"
    then if env.is_safe_svg bytes then none else some bad_svg
    else if trim_space (before_first b';' (env.detect_content_type (take 512 bytes))) == mime
    then none
    else some type_mismatch

-- `isolationCallerKey`
unfoldable pub isolation_caller_key : Context → Text
isolation_caller_key ctx = if token_key ctx == [] then codes "unknown" else token_key ctx

-- `mutationCallerKey`
unfoldable pub mutation_caller_key : Context → Text
mutation_caller_key ctx = if key ctx == [] then codes "unknown" else key ctx

-- `idempotencyCallerKey`
unfoldable pub idempotency_caller_key : Context → Text
idempotency_caller_key ctx =
    if text_of ctx.ctx_token_id == [] then codes "local" else text_of ctx.ctx_token_id
