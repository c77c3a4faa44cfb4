-- ===== src/Assets/Begin.antt =====
-- `begin_asset_upload` of internal/tools/write/chunked_upload_tools.go, with `normalizeInputSlug` of
-- internal/tools/write/tools.go. A size of 0 stands for one that is not positive. The advice on the
-- size of chunks and the rate limit are left out of the answer.
use mathlib.Core.List.{reverse}
use mcp_hugo_server_go.Base.{
  ℕ, Bool, ◌&&◌, [], ◌∷◌, Option, none, some, ltb, nat_beq, if◌then◌else◌,
}
use mcp_hugo_server_go.Base.Keys.{text_eq, nat_eq, ◌==◌}
use mcp_hugo_server_go.Base.Result.{Result, ok, err}
use mcp_hugo_server_go.Base.Text.{Text, codes, trim_space, has_prefix}
use mcp_hugo_server_go.Caller.{Context}
use mcp_hugo_server_go.Upload.{UploadStore, UploadError, BeginRequest, begin}
use mcp_hugo_server_go.Assets.{
  AssetEnv, AssetError, max_asset_bytes, validate_asset_filename, validate_expected_sha256,
  isolation_caller_key,
}

-- `strings.TrimLeft(s, "/")`
unfoldable pub trim_left_slashes : Text → Text
trim_left_slashes [] = []
trim_left_slashes (c ∷ s) = let rest = trim_left_slashes s in if nat_beq c b'/' then rest else c ∷ s

-- `strings.TrimRight(s, "/")`
abbrev pub trim_right_slashes : Text → Text
trim_right_slashes s = reverse (trim_left_slashes (reverse s))

-- `strings.HasSuffix(s, "/")`
abbrev pub ends_in_slash : Text → Bool
ends_in_slash s = has_prefix (reverse s) (codes "/")

abbrev pub normalized : Text → Text
normalized s =
    if s == codes "/"
    then codes "/"
    else if has_prefix s (codes "/") && ends_in_slash s
    then trim_right_slashes (trim_left_slashes s)
    else if has_prefix s (codes "/")
    then s
    else trim_right_slashes s

-- `normalizeInputSlug`
unfoldable pub normalize_input_slug : Text → Text
normalize_input_slug s = normalized (trim_space s)

-- `beginPageAssetUploadInput`
pub record BeginInput : Type 0 where
  pub in_slug : Text
  pub in_filename : Text
  pub in_size : ℕ
  pub in_sha256 : Text

-- `beginPageAssetUploadData`
pub record BeginOutput : Type 0 where
  pub begun_id : Text
  pub begun_slug : Text
  pub begun_filename : Text
  pub begun_type : Text

pub data BeginError : Type 0 where
  empty_slug size_not_positive size_too_large begin_limited begin_path begin_symlink : BeginError
  begin_asset : AssetError → BeginError
  begin_store : UploadError → BeginError

module _ (env : AssetEnv) (ctx : Context) (r : BeginInput) (allowed : Bool) (random : Option Text)
    (can_create : Bool) (now : ℕ) where
  abbrev pub slug : Text
  slug = normalize_input_slug r.in_slug

  abbrev pub begin_request : Text → Text → Text → Text → Text → BeginRequest
  begin_request dir name ext mime expected = record {
    caller_key = isolation_caller_key ctx;
    slug = slug;
    dir = dir;
    filename = name;
    ext = ext;
    want_mime = mime;
    expected_sha256 = expected;
    size_bytes = r.in_size;
  }

  abbrev pub begun :
      Text
      → Text
      → UploadStore × Result UploadError Text
      → UploadStore × Result BeginError BeginOutput
  begun name mime (s, err x) = (s, err (begin_store x))
  begun name mime (s, ok id) = (
    s,
    ok (record { begun_id = id; begun_slug = slug; begun_filename = name; begun_type = mime }),
  )

  abbrev pub begin_in :
      UploadStore
      → Text
      → Text
      → Text
      → Text
      → Option Text
      → UploadStore × Result BeginError BeginOutput
  begin_in s name ext mime expected none = (s, err begin_path)
  begin_in s name ext mime expected (some dir) =
      if env.is_writable dir
      then begun name mime
          (begin s (begin_request dir name ext mime expected) random can_create now)
      else (s, err begin_symlink)

  abbrev pub begin_bundle :
      UploadStore
      → Text
      → Text
      → Text
      → Text
      → Option AssetError
      → UploadStore × Result BeginError BeginOutput
  begin_bundle s name ext mime expected (some x) = (s, err (begin_asset x))
  begin_bundle s name ext mime expected none =
      if allowed
      then begin_in s name ext mime expected (env.safe_dir slug)
      else (s, err begin_limited)

  abbrev pub begin_hashed :
      UploadStore
      → Text
      → Text
      → Text
      → Result AssetError Text
      → UploadStore × Result BeginError BeginOutput
  begin_hashed s name ext mime (err x) = (s, err (begin_asset x))
  begin_hashed s name ext mime (ok expected) =
      begin_bundle s name ext mime expected (env.bundle_error slug)

  abbrev pub begin_named :
      UploadStore
      → Result AssetError (Text × Text × Text)
      → UploadStore × Result BeginError BeginOutput
  begin_named s (err x) = (s, err (begin_asset x))
  begin_named s (ok (name, ext, mime)) =
      if nat_beq r.in_size 0
      then (s, err size_not_positive)
      else if ltb max_asset_bytes r.in_size
      then (s, err size_too_large)
      else begin_hashed s name ext mime (validate_expected_sha256 r.in_sha256)

  -- `begin_asset_upload`, by whether the limiter allows it and the staging file can be created
  unfoldable pub begin_upload : UploadStore → UploadStore × Result BeginError BeginOutput
  begin_upload s =
      if slug == []
      then (s, err empty_slug)
      else begin_named s (validate_asset_filename r.in_filename)
