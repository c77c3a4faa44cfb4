-- ===== src/Upload.antt =====
-- internal/tools/write/chunked_upload_store.go: chunked uploads of page assets. The staging files
-- are part of the state. The hash of the bytes (`contentmodel.SourceRevisionBytes`) is a parameter.
-- Removing a staging file is taken to succeed, and offsets and sizes are natural numbers: the
-- handlers refuse negative ones.
pub mod Disk
pub mod Slice
pub mod Chunks
pub mod Replay
pub mod Assemble
pub mod Begin
pub mod Reach
use mcp_hugo_server_go.Base.{
  ℕ, ◌+◌, Bool, true, false, not, ◌&&◌, List, [], ◌∷◌, ◌++◌, Option, none, some, ltb, nat_beq,
  length, take, if◌then◌else◌,
}
use mcp_hugo_server_go.Base.Keys.{text_eq, nat_eq, ◌==◌}
use mcp_hugo_server_go.Base.Map.{Map, lookup, insert, remove, keep}
use mcp_hugo_server_go.Base.Result.{Result, ok, err}
use mcp_hugo_server_go.Base.Text.{Text, codes}

abbrev pub Bytes : Type 0
Bytes = List ℕ

pub record ChunkRecord : Type 0 where
  pub size : ℕ
  pub sha256 : Text

-- `chunkedUploadEntry`
pub record UploadEntry : Type 0 where
  pub caller_key : Text
  pub slug : Text
  pub dir : Text
  pub filename : Text
  pub ext : Text
  pub want_mime : Text
  pub size_bytes : ℕ
  pub expected_sha256 : Text
  pub staging_path : Text
  pub received_bytes : ℕ
  pub chunks : Map ℕ ChunkRecord
  pub created_at : ℕ
  pub expires_at : ℕ

-- `chunkedUploadStore`, with the files of the staging paths
pub record UploadStore : Type 0 where
  pub ttl : ℕ
  pub entries : Map Text UploadEntry
  pub files : Map Text Bytes

abbrev pub new_store : ℕ → UploadStore
new_store ttl = record { ttl = ttl; entries = []; files = [] }

pub data UploadError : Type 0 where
  internal_error write_error not_found chunk_conflict out_of_order invalid_params : UploadError

-- How the write of a chunk to its staging file ends.
pub data WriteOutcome : Type 0 where
  open_failed : WriteOutcome
  written : WriteOutcome
  -- `Write` or `Close` reports an error after so many bytes have reached the file.
  write_failed : ℕ → WriteOutcome

pub data ChunkResult : Type 0 where
  accepted replayed : ChunkResult

abbrev pub is_expired : ℕ → UploadEntry → Bool
is_expired now e = ltb e.expires_at now

-- `os.Remove(entry.StagingPath)` for each expired entry
unfoldable pub remove_expired_files : ℕ → Map Text UploadEntry → Map Text Bytes → Map Text Bytes
remove_expired_files now [] files = files
remove_expired_files now ((id, e) ∷ m) files =
    let rest = remove_expired_files now m files in
    if is_expired now e then remove e.staging_path rest else rest

-- `pruneExpiredLocked`
unfoldable pub prune_expired : ℕ → UploadStore → UploadStore
prune_expired now s = record s {
  entries = keep (λ _ e. not (is_expired now e)) s.entries;
  files = remove_expired_files now s.entries s.files;
}

-- `filepath.Join(dir, uploadStagingName(id))`, for a clean directory
unfoldable pub staging_path_of : Text → Text → Text
staging_path_of dir id = dir ++ (codes "/.upload-" ++ (id ++ codes ".part"))

-- What the caller of `begin` asks for.
pub record BeginRequest : Type 0 where
  pub caller_key : Text
  pub slug : Text
  pub dir : Text
  pub filename : Text
  pub ext : Text
  pub want_mime : Text
  pub expected_sha256 : Text
  pub size_bytes : ℕ

abbrev pub new_entry : UploadStore → BeginRequest → Text → ℕ → UploadEntry
new_entry s r path now = record {
  caller_key = r.caller_key;
  slug = r.slug;
  dir = r.dir;
  filename = r.filename;
  ext = r.ext;
  want_mime = r.want_mime;
  size_bytes = r.size_bytes;
  expected_sha256 = r.expected_sha256;
  staging_path = path;
  received_bytes = 0;
  chunks = [];
  created_at = now;
  expires_at = now + s.ttl;
}

-- `O_CREATE|O_EXCL` fails where the file is there; `can_create` is false where it fails otherwise.
unfoldable pub begin_at :
    UploadStore
    → BeginRequest
    → Text
    → Bool
    → ℕ
    → Option Bytes
    → UploadStore × Result UploadError Text
begin_at s r id can_create now (some _) = (s, err write_error)
begin_at s r id can_create now none =
    if can_create
    then (let path = staging_path_of r.dir id in
        let created = prune_expired now (record s { files = insert path [] s.files }) in
        (record created { entries = insert id (new_entry s r path now) created.entries }, ok id))
    else (s, err write_error)

-- `begin`; the identifier comes from the random source, which may fail.
unfoldable pub begin :
    UploadStore → BeginRequest → Option Text → Bool → ℕ → UploadStore × Result UploadError Text
begin s r none can_create now = (s, err internal_error)
begin s r (some id) can_create now =
    begin_at s r id can_create now (lookup (staging_path_of r.dir id) s.files)

-- The entry of a caller, after the expired ones are gone.
abbrev pub owned : Text → Option UploadEntry → Option UploadEntry
owned caller none = none
owned caller (some e) = if e.caller_key == caller then some e else none

unfoldable pub find_owned : UploadStore → Text → Text → Option UploadEntry
find_owned s id caller = owned caller (lookup id s.entries)

module _ (revision : Bytes → Text) where
  abbrev pub chunk_record : Bytes → ChunkRecord
  chunk_record bytes = record { size = length bytes; sha256 = revision bytes }

  abbrev pub received : ℕ → Bytes → UploadEntry → UploadEntry
  received offset bytes e = record e {
    received_bytes = e.received_bytes + length bytes;
    chunks = insert offset (chunk_record bytes) e.chunks;
  }

  -- The write of a new chunk: `O_APPEND` to a file that has to be there, by the outcome.
  unfoldable pub store_chunk :
      UploadStore
      → Text
      → UploadEntry
      → ℕ
      → Bytes
      → Option Bytes
      → WriteOutcome
      → UploadStore × Result UploadError (ChunkResult × ℕ)
  store_chunk s id e offset bytes none io = (s, err write_error)
  store_chunk s id e offset bytes (some file) open_failed = (s, err write_error)
  store_chunk s id e offset bytes (some file) (write_failed k) =
      (record s { files = insert e.staging_path (file ++ take k bytes) s.files }, err write_error)
  store_chunk s id e offset bytes (some file) written = (
    record s {
      entries = insert id (received offset bytes e) s.entries;
      files = insert e.staging_path (file ++ bytes) s.files;
    },
    ok (accepted, e.received_bytes + length bytes),
  )

  abbrev pub same_chunk : Bytes → ChunkRecord → Bool
  same_chunk bytes rec = nat_beq rec.size (length bytes) && rec.sha256 == revision bytes

  unfoldable pub append_new :
      UploadStore
      → Text
      → UploadEntry
      → ℕ
      → Bytes
      → WriteOutcome
      → UploadStore × Result UploadError (ChunkResult × ℕ)
  append_new s id e offset bytes io =
      if not (nat_beq offset e.received_bytes)
      then (s, err out_of_order)
      else if ltb e.size_bytes (e.received_bytes + length bytes)
      then (s, err invalid_params)
      else store_chunk s id e offset bytes (lookup e.staging_path s.files) io

  unfoldable pub append_owned :
      UploadStore
      → Text
      → Option UploadEntry
      → ℕ
      → Bytes
      → WriteOutcome
      → UploadStore × Result UploadError (ChunkResult × ℕ)
  append_owned s id none offset bytes io = (s, err not_found)
  append_owned s id (some e) offset bytes io = elim (lookup offset e.chunks) [
    | some rec ↦
        if same_chunk bytes rec
        then (s, ok (replayed, e.received_bytes))
        else (s, err chunk_conflict)
    | none ↦ append_new s id e offset bytes io
  ]

  -- `appendChunk`
  unfoldable pub append_chunk :
      UploadStore
      → Text
      → Text
      → ℕ
      → Bytes
      → ℕ
      → WriteOutcome
      → UploadStore × Result UploadError (ChunkResult × ℕ)
  append_chunk s id caller offset bytes now io =
      let s' = prune_expired now s in append_owned s' id (find_owned s' id caller) offset bytes io

-- `get`
unfoldable pub get : UploadStore → Text → Text → ℕ → UploadStore × Option UploadEntry
get s id caller now = let s' = prune_expired now s in (s', find_owned s' id caller)

-- `consume`: the staging file has been renamed by the caller.
abbrev consume_owned : UploadStore → Text → Option UploadEntry → UploadStore × Option UploadEntry
consume_owned s id none = (s, none)
consume_owned s id (some e) = (record s { entries = remove id s.entries }, some e)

unfoldable pub consume : UploadStore → Text → Text → ℕ → UploadStore × Option UploadEntry
consume s id caller now =
    let s' = prune_expired now s in consume_owned s' id (find_owned s' id caller)

-- `abandon`
abbrev abandon_owned : UploadStore → Text → Option UploadEntry → UploadStore
abandon_owned s id none = s
abandon_owned s id (some e) = record s {
  entries = remove id s.entries;
  files = remove e.staging_path s.files;
}

unfoldable pub abandon : UploadStore → Text → Text → ℕ → UploadStore
abandon s id caller now =
    let s' = prune_expired now s in abandon_owned s' id (find_owned s' id caller)
