-- ===== src/Assets/Commit.antt =====
-- `commit_asset_upload` of internal/tools/write/chunked_upload_tools.go, before the content lock. The
-- part under the lock is a second step, so that other calls can come between the two. What the file
-- system, the limiter and the lock answer are arguments. The fields of an answer that show the public
-- slug, the path and the rate limit are left out.
use mcp_hugo_server_go.Base.{
  ℕ, Bool, true, false, not, ◌&&◌, ◌||◌, [], Option, none, some, nat_beq, length, if◌then◌else◌,
}
use mcp_hugo_server_go.Base.Keys.{text_eq, ◌==◌}
use mcp_hugo_server_go.Base.Map.{Map, lookup}
use mcp_hugo_server_go.Base.Result.{Result, ok, err}
use mcp_hugo_server_go.Base.Text.{Text, codes, trim_space}
use mcp_hugo_server_go.Caller.{Context}
use mcp_hugo_server_go.Upload.{Bytes, UploadEntry, UploadStore, get, abandon}
use mcp_hugo_server_go.Changes.{Registry, Database, ChangeError, resolve}
use mcp_hugo_server_go.Idempotency.{KeyError, IdemError, Journal, Json, Store, validate_key, replay}
use mcp_hugo_server_go.Assets.{
  AssetEnv, AssetError, validate_asset_bytes, validate_expected_sha256, isolation_caller_key,
  idempotency_caller_key,
}

-- What the handler shares with others: the uploads, the change sets, the remembered results and the
-- files of the bundles
pub record World (D J : Type 0) : Type 0 where
  pub uploads : UploadStore
  pub registry : Registry D
  pub results : Store J
  pub assets : Map Text Bytes

-- `commitPageAssetUploadInput`
pub record CommitRequest : Type 0 where
  pub upload_id : Text
  pub commit_sha256 : Text
  pub idempotency_key : Text
  pub change_set : Text
  pub dry_run : Bool

pub data CommitError : Type 0 where
  no_upload_id unknown_upload incomplete_upload rate_limited unreadable_staging sha256_mismatch :
      CommitError
  hash_failed bad_path already_exists stat_failed build_in_progress symlink_found rename_failed :
      CommitError
  bad_key : KeyError → CommitError
  bad_change_set : ChangeError → CommitError
  bad_asset : AssetError → CommitError
  bad_replay : IdemError → CommitError

-- `uploadPageAssetData`; the status is "would_create" where `is_dry_run`, and else "created".
pub record CommitOutput : Type 0 where
  pub source_key : Text
  pub out_filename : Text
  pub content_type : Text
  pub out_bytes : ℕ
  pub out_sha256 : Text
  pub duplicate_of : Text
  pub is_dry_run : Bool

-- What the first part hands to the second
pub record Pending : Type 0 where
  pub set_id : Text
  pub entry : UploadEntry
  pub staged : Bytes
  pub idem_hash : Text
  pub dest : Text
  pub at : ℕ

pub data Prepared : Type 0 where
  failed : CommitError → Prepared
  answered : CommitOutput → Prepared
  pending : Pending → Prepared

-- What the limiter, `os.ReadFile` and `os.Stat` answer before the lock
pub record Before : Type 0 where
  pub allowed : Bool
  pub can_read : Bool
  pub can_stat : Bool

-- Whether the lock is taken in time, what `os.Stat` and `os.Rename` answer under it, and what
-- `findDuplicateAsset` finds
pub record Locked : Type 0 where
  pub locked : Bool
  pub stat_works : Bool
  pub rename_works : Bool
  pub found_duplicate : Text

-- `os.Stat(destPath)`: the file must not be there, and the error must say so.
abbrev pub check_free : Bool → Option Bytes → Option CommitError
check_free works (some bytes) = some already_exists
check_free true none = none
check_free false none = some stat_failed

abbrev pub readable : Bool → Option Bytes → Option Bytes
readable false file = none
readable true file = file

abbrev pub output : AssetEnv → UploadEntry → Bytes → Text → Bool → CommitOutput
output env e bytes duplicate dry = record {
  source_key = e.slug;
  out_filename = e.filename;
  content_type = e.want_mime;
  out_bytes = length bytes;
  out_sha256 = env.revision bytes;
  duplicate_of = duplicate;
  is_dry_run = dry;
}

abbrev pub tool_name : Text
tool_name = codes "commit_asset_upload"

module _ {D J : Type 0} (env : AssetEnv) (database : Database D) (journal : Journal J)
    (json : Json CommitOutput) (ctx : Context) where
  -- `uploads.abandon`, with the error that follows it
  abbrev pub give_up : World D J → Text → ℕ → CommitError → World D J × Prepared
  give_up w id now e =
      (record w { uploads = abandon w.uploads id (isolation_caller_key ctx) now }, failed e)

  abbrev pub is_other : Text → Text → Bool
  is_other expected actual = not (expected == []) && not (expected == actual)

  module _ (r : CommitRequest) (id : Text) (b : Before) (now : ℕ) where
    abbrev pub prepared_free : World D J → Pending → Option CommitError → World D J × Prepared
    prepared_free w p (some e) = (w, failed e)
    prepared_free w p none =
        if r.dry_run then (w, answered (output env p.entry p.staged [] true)) else (w, pending p)

    abbrev pub prepare_dest :
        World D J → Text → UploadEntry → Bytes → Text → Option Text → World D J × Prepared
    prepare_dest w cs e bytes hash none = (w, failed bad_path)
    prepare_dest w cs e bytes hash (some dest) =
        prepared_free w
          (record {
            set_id = cs;
            entry = e;
            staged = bytes;
            idem_hash = hash;
            dest = dest;
            at = now;
          })
          (check_free b.can_stat (lookup dest w.assets))

    abbrev pub replayed :
        World D J
        → Text
        → UploadEntry
        → Bytes
        → Text
        → Store J × Result IdemError (Option CommitOutput)
        → World D J × Prepared
    replayed w cs e bytes hash (s, err x) = (record w { results = s }, failed (bad_replay x))
    replayed w cs e bytes hash (s, ok (some out)) = (record w { results = s }, answered out)
    replayed w cs e bytes hash (s, ok none) =
        prepare_dest (record w { results = s }) cs e bytes hash (env.safe_join e.slug e.filename)

    abbrev pub prepare_replay :
        World D J → Text → UploadEntry → Bytes → Option Text → World D J × Prepared
    prepare_replay w cs e bytes none = (w, failed hash_failed)
    prepare_replay w cs e bytes (some hash) = replayed w cs e bytes hash (
        replay journal json w.results (idempotency_caller_key ctx) tool_name r.idempotency_key hash
          now)

    -- The part after the checks of the hashes
    unfoldable pub prepare_checked : World D J → Text → UploadEntry → Bytes → World D J × Prepared
    prepare_checked w cs e bytes =
        if not r.dry_run && not (trim_space r.idempotency_key == [])
        then prepare_replay w cs e bytes (env.request_hash e.slug e.filename (env.revision bytes))
        else prepare_dest w cs e bytes [] (env.safe_join e.slug e.filename)

    abbrev pub check_commit_sha256 :
        World D J → Text → UploadEntry → Bytes → Result AssetError Text → World D J × Prepared
    check_commit_sha256 w cs e bytes (err x) = (w, failed (bad_asset x))
    check_commit_sha256 w cs e bytes (ok expected) =
        if is_other expected (env.revision bytes)
        then give_up w id now sha256_mismatch
        else prepare_checked w cs e bytes

    abbrev pub check_bytes :
        World D J → Text → UploadEntry → Bytes → Option AssetError → World D J × Prepared
    check_bytes w cs e bytes (some x) = give_up w id now (bad_asset x)
    check_bytes w cs e bytes none =
        if is_other e.expected_sha256 (env.revision bytes)
        then give_up w id now sha256_mismatch
        else check_commit_sha256 w cs e bytes (validate_expected_sha256 r.commit_sha256)

    abbrev pub check_staged : World D J → Text → UploadEntry → Option Bytes → World D J × Prepared
    check_staged w cs e none = give_up w id now unreadable_staging
    check_staged w cs e (some bytes) =
        check_bytes w cs e bytes (validate_asset_bytes env bytes e.ext e.want_mime)

    unfoldable pub check_entry : World D J → Text → UploadEntry → World D J × Prepared
    check_entry w cs e =
        if not (nat_beq e.received_bytes e.size_bytes)
        then (w, failed incomplete_upload)
        else if not r.dry_run && not b.allowed
        then (w, failed rate_limited)
        else check_staged w cs e (readable b.can_read (lookup e.staging_path w.uploads.files))

    abbrev pub found_upload :
        World D J → Text → UploadStore × Option UploadEntry → World D J × Prepared
    found_upload w cs (s, none) = (record w { uploads = s }, failed unknown_upload)
    found_upload w cs (s, some e) = check_entry (record w { uploads = s }) cs e

    abbrev pub resolved : World D J → Registry D × Result ChangeError Text → World D J × Prepared
    resolved w (g, err x) = (record w { registry = g }, failed (bad_change_set x))
    resolved w (g, ok cs) =
        found_upload (record w { registry = g }) cs
          (get w.uploads id (isolation_caller_key ctx) now)

    abbrev pub check_key : World D J → Option KeyError → World D J × Prepared
    check_key w (some x) = (w, failed (bad_key x))
    check_key w none = resolved w (resolve database w.registry ctx r.change_set now)

    unfoldable pub prepare_as : World D J → World D J × Prepared
    prepare_as w =
        if id == [] then (w, failed no_upload_id) else check_key w (validate_key r.idempotency_key)

  -- `commit_asset_upload` before the content lock; `force` is `cfg.ForceDryRunAll`.
  unfoldable pub prepare : World D J → Bool → CommitRequest → Before → ℕ → World D J × Prepared
  prepare w force r b now =
      prepare_as (record r { dry_run = force || r.dry_run }) (trim_space r.upload_id) b now w
