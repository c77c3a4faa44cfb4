-- ===== src/Assets/Publish.antt =====
-- `commit_asset_upload` of internal/tools/write/chunked_upload_tools.go, under the content lock.
use mcp_hugo_server_go.Base.{ℕ, false, [], Option, none, some, if◌then◌else◌}
use mcp_hugo_server_go.Base.Keys.{text_eq, ◌==◌}
use mcp_hugo_server_go.Base.Map.{lookup, insert, remove}
use mcp_hugo_server_go.Base.Result.{Result, ok, err}
use mcp_hugo_server_go.Base.Text.{Text, codes, trim_space}
use mcp_hugo_server_go.Caller.{Context}
use mcp_hugo_server_go.Upload.{Bytes, consume, abandon}
use mcp_hugo_server_go.Changes.{Database, Mutation, record_mutation}
use mcp_hugo_server_go.Idempotency.{IdemError, Journal, Json, Store, remember}
use mcp_hugo_server_go.Assets.{
  AssetEnv, AssetError, isolation_caller_key, mutation_caller_key, idempotency_caller_key,
}
use mcp_hugo_server_go.Assets.Commit.{
  World, CommitRequest, CommitError, CommitOutput, Pending, Locked, build_in_progress,
  symlink_found, rename_failed, bad_asset, check_free, output, tool_name,
}

module _ {D J : Type 0} (env : AssetEnv) (database : Database D) (journal : Journal J)
    (json : Json CommitOutput) (ctx : Context) where
  -- `idem.remember`, whose error is only logged
  abbrev pub kept_results : Store J → Result IdemError (Store J) → Store J
  kept_results s (err x) = s
  kept_results s (ok s') = s'

  abbrev pub remembered : Store J → CommitRequest → Pending → CommitOutput → ℕ → Store J
  remembered s r p out later =
      if p.idem_hash == []
      then s
      else kept_results s (
          remember journal json s (idempotency_caller_key ctx) tool_name r.idempotency_key
            p.idem_hash out later)

  abbrev pub mutation : Pending → ℕ → Mutation
  mutation p later = record {
    change_set_id = p.set_id;
    principal = mutation_caller_key ctx;
    tool = tool_name;
    source_key = p.entry.slug;
    mutation_type = codes "create";
    recorded_at = later;
  }

  module _ (r : CommitRequest) (id : Text) (p : Pending) (l : Locked) (later : ℕ) where
    -- The bytes go from the staging file to the destination.
    abbrev pub created : World D J → Bytes → World D J × Result CommitError CommitOutput
    created w bytes =
        let out = output env p.entry p.staged l.found_duplicate false in
        (
          record {
            uploads =
                (consume (record w.uploads { files = remove p.entry.staging_path w.uploads.files })
                  id (isolation_caller_key ctx) p.at).0;
            registry = record_mutation database w.registry (mutation p later);
            results = remembered w.results r p out later;
            assets = insert p.dest bytes w.assets;
          },
          ok out,
        )

    abbrev pub renamed : World D J → Option Bytes → World D J × Result CommitError CommitOutput
    renamed w none = (w, err rename_failed)
    renamed w (some bytes) = if l.rename_works then created w bytes else (w, err rename_failed)

    abbrev pub finish_free :
        World D J → Option CommitError → World D J × Result CommitError CommitOutput
    finish_free w (some x) = (w, err x)
    finish_free w none = renamed w (lookup p.entry.staging_path w.uploads.files)

    abbrev pub finish_bundle :
        World D J → Option AssetError → World D J × Result CommitError CommitOutput
    finish_bundle w (some x) = (
      record w { uploads = abandon w.uploads id (isolation_caller_key ctx) p.at },
      err (bad_asset x),
    )
    finish_bundle w none =
        if env.is_writable p.dest
        then finish_free w (check_free l.stat_works (lookup p.dest w.assets))
        else (w, err symlink_found)

  -- `commit_asset_upload` under the content lock
  unfoldable pub finish :
      World D J → CommitRequest → Pending → Locked → ℕ → World D J × Result CommitError CommitOutput
  finish w r p l later =
      if l.locked
      then finish_bundle r (trim_space r.upload_id) p l later w (env.bundle_error p.entry.slug)
      else (w, err build_in_progress)
