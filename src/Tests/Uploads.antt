-- ===== src/Tests/Uploads.antt =====
-- A chunked upload of three bytes in two chunks. The hash of a list of bytes is the list.
use mcp_hugo_server_go.Base.{List, Option, none, false, ◌≡◌, ◌≢◌, refl, true, [], ◌∷◌, some, arith}
use mcp_hugo_server_go.Base.Keys.{text_eq, nat_eq}
use mcp_hugo_server_go.Base.Map.{lookup, insert, keep}
use mcp_hugo_server_go.Base.Result.{Result, ok, err}
use mcp_hugo_server_go.Base.Text.{Text, codes, text_beq, byte_length, trim_space}
use mcp_hugo_server_go.Upload.{
  get, append_owned, append_new, store_chunk, find_owned, Bytes, UploadEntry, UploadStore,
  BeginRequest, written, write_failed, open_failed, accepted, not_found, new_store, begin, begin_at,
  prune_expired, remove_expired_files, append_chunk, staging_path_of, new_entry,
}
use mcp_hugo_server_go.Upload.Disk.{IsValid}
use mcp_hugo_server_go.Upload.Replay.{IsLive, append_chunk_retry}
use mcp_hugo_server_go.Upload.Assemble.{send_assembles, foreign_upload, Holds, send}
use mcp_hugo_server_go.Upload.Reach.{
  UploadCall, call_begin, call_chunk, call_get, after_calls, calls-IsValid,
}
use mcp_hugo_server_go.Assets.{isolation_caller_key}
use mcp_hugo_server_go.Caller.{Context, token_key}
use mcp_hugo_server_go.Assets.Chunk.{ChunkOutput, ChunkError, upload_chunk, decode_asset_base64}
use mcp_hugo_server_go.Assets.Complete.{IsWhole, upload_chunk-IsWhole}
use mcp_hugo_server_go.Upload.Begin.{begin-IsValid, failed_write_corrupts}

abbrev hash : Bytes → Text
hash b = b

abbrev logo : BeginRequest
logo = record {
  caller_key = codes "alice";
  slug = codes "post";
  dir = codes "/c/post";
  filename = codes "a.png";
  ext = codes ".png";
  want_mime = codes "image/png";
  expected_sha256 = [];
  size_bytes = 3;
}

abbrev id : Text
id = codes "u1"

empty-IsValid : IsValid hash (new_store 900)
unfolding lookup
empty-IsValid = record {
  keyed = record { unique = tt; separate = λ i j e f h. absurd (cc) };
  each = λ i e h. absurd (cc);
}

abbrev begun : UploadStore
begun = (begin (new_store 900) logo (some id) true 10).0

abbrev entry : UploadEntry
entry = new_entry (new_store 900) logo (staging_path_of (codes "/c/post") id) 10

begun-IsValid : IsValid hash begun
begun-IsValid = begin-IsValid hash (new_store 900) logo (some id) true 10 empty-IsValid

found : lookup id begun.entries ≡ some entry
unfolding begin begin_at prune_expired keep lookup insert staging_path_of text_beq
found = refl

on_disk : lookup entry.staging_path begun.files ≡ some []
unfolding begin begin_at prune_expired remove_expired_files lookup insert staging_path_of text_beq
on_disk = refl

live : IsLive begun id (codes "alice") 20 entry
live = record { found = found; mine = refl; fresh = omega arith }

append_chunk_retry_example :
    (append_chunk hash begun id (codes "alice") 0 (7 ∷ 8 ∷ []) 20 written).1 ≡ ok (accepted, 2)
append_chunk_retry_example =
    (append_chunk_retry hash begun id (codes "alice") (7 ∷ 8 ∷ []) 20 30 open_failed entry
      begun-IsValid live (omega arith) (omega arith) (omega arith)).0

send_assembles_example :
    Holds hash
      (send hash begun id (codes "alice") 0 ((20, 7 ∷ 8 ∷ []) ∷ (30, 9 ∷ []) ∷ []))
      id
      entry.staging_path
      3
      (7 ∷ 8 ∷ 9 ∷ [])
send_assembles_example =
    send_assembles hash ((20, 7 ∷ 8 ∷ []) ∷ (30, 9 ∷ []) ∷ []) begun id (codes "alice") entry
      begun-IsValid found on_disk refl (omega arith) (omega arith)

alice_only : (e : UploadEntry) → lookup id begun.entries ≡ some e → e.caller_key ≢ codes "mallory"
alice_only e h same = cc (found)

foreign_upload_example :
    append_chunk hash begun id (codes "mallory") 0 (1 ∷ []) 20 written
    ≡ (prune_expired 20 begun, err not_found)
foreign_upload_example =
    (foreign_upload hash begun id (codes "mallory") 20 0 (1 ∷ []) written begun-IsValid.keyed
      alice_only).0

failed_write_corrupts_example :
    (append_chunk hash
      (append_chunk hash begun id (codes "alice") 0 (7 ∷ 8 ∷ []) 20 (write_failed 1)).0
      id
      (codes "alice")
      0
      (7 ∷ 8 ∷ [])
      20
      written).1
    ≡ ok (accepted, 2)
failed_write_corrupts_example =
    (failed_write_corrupts hash begun id (codes "alice") (7 ∷ 8 ∷ []) 20 1 entry begun-IsValid live
      (omega arith)).0

abbrev calls : List UploadCall
calls =
    call_begin logo (some id) true 10
    ∷ call_chunk id (codes "alice") 0 (7 ∷ 8 ∷ []) 20 written
    ∷ call_get id (codes "alice") 30
    ∷ []

calls-IsValid_example : IsValid hash (after_calls hash (new_store 900) calls)
calls-IsValid_example = calls-IsValid hash 900 calls (tt, ((omega arith, tt), (tt, tt)))

abbrev alice : Context
alice = record { ctx_principal = none; ctx_token_id = some (codes "alice"); ctx_caller_ip = none }

abbrev three_bytes : Text → Option Bytes
three_bytes text = some (7 ∷ 8 ∷ 9 ∷ [])

abbrev sent : UploadStore × Result ChunkError ChunkOutput
sent = upload_chunk hash three_bytes alice begun id 0 (codes "BwgJ") 20 written

abbrev all_sent : ChunkOutput
all_sent = record {
  chunk_id = id;
  next_offset = 3;
  total_bytes = 3;
  complete = true;
  was_replayed = false;
}

sent_whole : sent ≡ (sent.0, ok all_sent)
unfolding upload_chunk decode_asset_base64 byte_length trim_space isolation_caller_key token_key
    append_chunk append_owned append_new store_chunk find_owned get begin begin_at prune_expired
    remove_expired_files keep lookup insert staging_path_of text_beq
sent_whole = refl

upload_chunk-IsWhole_example : IsWhole hash three_bytes alice (trim_space id) 0 20 written sent.0
upload_chunk-IsWhole_example =
    upload_chunk-IsWhole hash three_bytes alice begun sent.0 id 0 (codes "BwgJ") 20 written all_sent
      begun-IsValid tt sent_whole refl
