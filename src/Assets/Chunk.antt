-- ===== src/Assets/Chunk.antt =====
-- `upload_asset_chunk` of internal/tools/write/chunked_upload_tools.go, with `decodeAssetBase64` of
-- internal/tools/write/page_assets.go. The decoding of base64 is a parameter. Offsets are natural
-- numbers: the refusal of a negative one is left out.
use mcp_hugo_server_go.Base.{
  ℕ, ◌*◌, Bool, true, false, ◌&&◌, [], Option, none, some, ltb, nat_beq, length, if◌then◌else◌,
}
use mcp_hugo_server_go.Base.Keys.{text_eq, ◌==◌}
use mcp_hugo_server_go.Base.Result.{Result, ok, err}
use mcp_hugo_server_go.Base.Text.{Text, trim_space, byte_length}
use mcp_hugo_server_go.Caller.{Context}
use mcp_hugo_server_go.Upload.{
  Bytes, UploadEntry, UploadStore, UploadError, WriteOutcome, ChunkResult, accepted, replayed,
  append_chunk, get,
}
use mcp_hugo_server_go.Assets.{max_asset_bytes, isolation_caller_key}

pub data ChunkError : Type 0 where
  no_chunk_id empty_content content_too_large not_base64 zero_bytes : ChunkError
  chunk_store : UploadError → ChunkError

-- `uploadPageAssetChunkData`
pub record ChunkOutput : Type 0 where
  pub chunk_id : Text
  pub next_offset : ℕ
  pub total_bytes : ℕ
  pub complete : Bool
  pub was_replayed : Bool

abbrev decoded_as : Option Bytes → Result ChunkError Bytes
decoded_as none = err not_base64
decoded_as (some bytes) = ok bytes

-- `decodeAssetBase64`
unfoldable pub decode_asset_base64 : (Text → Option Bytes) → Text → Result ChunkError Bytes
decode_asset_base64 decode b64 =
    if trim_space b64 == []
    then err empty_content
    else if ltb (max_asset_bytes * 2) (byte_length b64)
    then err content_too_large
    else decoded_as (decode b64)

abbrev pub size_of : Option UploadEntry → ℕ
size_of none = 0
size_of (some e) = e.size_bytes

abbrev pub is_replay : ChunkResult → Bool
is_replay accepted = false
is_replay replayed = true

module _ (revision : Bytes → Text) (decode : Text → Option Bytes) (ctx : Context) (id : Text)
    (offset : ℕ) (now : ℕ) (io : WriteOutcome) where
  abbrev pub reported :
      ChunkResult
      → ℕ
      → UploadStore × Option UploadEntry
      → UploadStore × Result ChunkError ChunkOutput
  reported result next (s, e) = (
    s,
    ok (record {
      chunk_id = id;
      next_offset = next;
      total_bytes = size_of e;
      complete = ltb 0 (size_of e) && nat_beq next (size_of e);
      was_replayed = is_replay result;
    }),
  )

  abbrev pub appended :
      UploadStore × Result UploadError (ChunkResult × ℕ)
      → UploadStore × Result ChunkError ChunkOutput
  appended (s, err x) = (s, err (chunk_store x))
  appended (s, ok (result, next)) = reported result next (get s id (isolation_caller_key ctx) now)

  abbrev pub chunk_bytes :
      UploadStore → Result ChunkError Bytes → UploadStore × Result ChunkError ChunkOutput
  chunk_bytes s (err x) = (s, err x)
  chunk_bytes s (ok bytes) =
      if nat_beq (length bytes) 0
      then (s, err zero_bytes)
      else appended (append_chunk revision s id (isolation_caller_key ctx) offset bytes now io)

  abbrev pub chunk_for : UploadStore → Text → UploadStore × Result ChunkError ChunkOutput
  chunk_for s content =
      if id == [] then (s, err no_chunk_id) else chunk_bytes s (decode_asset_base64 decode content)

-- `upload_asset_chunk`
unfoldable pub upload_chunk :
    (Bytes → Text)
    → (Text → Option Bytes)
    → Context
    → UploadStore
    → Text
    → ℕ
    → Text
    → ℕ
    → WriteOutcome
    → UploadStore × Result ChunkError ChunkOutput
upload_chunk revision decode ctx s id offset content now io =
    chunk_for revision decode ctx (trim_space id) offset now io s content
