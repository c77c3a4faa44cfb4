-- ===== src/Assets/Complete.antt =====
-- An upload that is reported complete is complete.
use mathlib.Core.Path.{subst}
use mcp_hugo_server_go.Base.{
  ℕ, ◌+◌, ◌<◌, ◌≡◌, refl, sym, ap, ◌∙◌, inl, inr, true, false, ◌&&◌, [], Option, none, some, ltb,
  nat_beq, arith, length, Bool-cases, Option-cases,
}
use mcp_hugo_server_go.Base.Keys.{text_eq, nat_eq, ◌==◌}
use mcp_hugo_server_go.Base.Map.{lookup, lookup-insert_self}
use mcp_hugo_server_go.Base.Result.{Result, ok, err}
use mcp_hugo_server_go.Base.Text.{Text, trim_space}
use mcp_hugo_server_go.Caller.{Context}
use mcp_hugo_server_go.Upload.{
  Bytes, UploadEntry, UploadStore, UploadError, WriteOutcome, open_failed, written, write_failed,
  ChunkResult, append_chunk, append_owned, append_new, store_chunk, same_chunk, prune_expired,
  find_owned, get,
}
use mcp_hugo_server_go.Upload.Disk.{IsValid, lookup-prune, survivor}
use mcp_hugo_server_go.Upload.Chunks.{IsClean, append_chunk-IsValid}
use mcp_hugo_server_go.Assets.{isolation_caller_key}
use mcp_hugo_server_go.Assets.Chunk.{
  ChunkError, ChunkOutput, decode_asset_base64, reported, appended, chunk_bytes, chunk_for,
  upload_chunk,
}
use mcp_hugo_server_go.Assets.Committed.{owned-some}

module _ (revision : Bytes → Text) where
  -- The entry has received as much as is answered.
  abbrev Counted : Text → UploadStore × Result UploadError (ChunkResult × ℕ) → Type 0
  Counted id (s, err x) = Unit
  Counted id (s, ok (result, next)) =
      (e : UploadEntry) × (lookup id s.entries ≡ some e) × (e.received_bytes ≡ next)

  store_chunk-Counted :
      (s : UploadStore) (id : Text) (e : UploadEntry) (offset : ℕ) (bytes : Bytes)
      (file : Option Bytes) (io : WriteOutcome)
      → Counted id (store_chunk revision s id e offset bytes file io)
  unfolding store_chunk
  store_chunk-Counted s id e offset bytes none io = tt
  store_chunk-Counted s id e offset bytes (some file) open_failed = tt
  store_chunk-Counted s id e offset bytes (some file) (write_failed k) = tt
  store_chunk-Counted s id e offset bytes (some file) written =
      (_, lookup-insert_self id _ s.entries, refl)

  append_new-Counted :
      (s : UploadStore) (id : Text) (e : UploadEntry) (offset : ℕ) (bytes : Bytes)
      (io : WriteOutcome)
      → Counted id (append_new revision s id e offset bytes io)
  unfolding append_new
  append_new-Counted s id e offset bytes io = elim (Bool-cases (nat_beq offset e.received_bytes)) [
    | inr x ↦ rw x tt
    | inl x ↦ elim (Bool-cases (ltb e.size_bytes (e.received_bytes + length bytes))) [
      | inl y ↦ rw (x, y) tt
      | inr y ↦ rw (x, y) (store_chunk-Counted s id e offset bytes _ io)
    ]
  ]

  append_owned-Counted :
      (s : UploadStore) (id : Text) (o : Option UploadEntry) (offset : ℕ) (bytes : Bytes)
      (io : WriteOutcome)
      → ((e : UploadEntry) → o ≡ some e → lookup id s.entries ≡ some e)
      → Counted id (append_owned revision s id o offset bytes io)
  unfolding append_owned
  append_owned-Counted s id none offset bytes io h = tt
  append_owned-Counted s id (some e) offset bytes io h =
      elim (Option-cases (lookup offset e.chunks)) [
        | inl x ↦ rw (x, append_owned) (append_new-Counted s id e offset bytes io)
        | inr (rec, x) ↦ elim (Bool-cases (same_chunk revision bytes rec)) [
          | inl y ↦ rw (x, y, append_owned) (e, h e refl, refl)
          | inr y ↦ rw (x, y, append_owned) tt
        ]
      ]

  append_chunk-Counted :
      (s : UploadStore) (id caller : Text) (offset : ℕ) (bytes : Bytes) (now : ℕ)
      (io : WriteOutcome)
      → Counted id (append_chunk revision s id caller offset bytes now io)
  unfolding append_chunk find_owned
  append_chunk-Counted s id caller offset bytes now io =
      append_owned-Counted (prune_expired now s) id _ offset bytes io
        (λ e h. (owned-some caller (lookup id (prune_expired now s).entries) e h).0)

  module _ (decode : Text → Option Bytes) (ctx : Context) (id : Text) (offset : ℕ) (now : ℕ)
      (io : WriteOutcome) where
    -- The caller's upload, with all its bytes
    abbrev pub IsWhole : UploadStore → Type 0
    IsWhole s =
        (e : UploadEntry) × (lookup id s.entries ≡ some e)
        × (e.caller_key ≡ isolation_caller_key ctx)
        × (e.received_bytes ≡ e.size_bytes)

    abbrev WholeIf : UploadStore × Result ChunkError ChunkOutput → Type 0
    WholeIf (s, err x) = Unit
    WholeIf (s, ok out) = out.complete ≡ true → IsWhole s

    counts_size : (next n : ℕ) → (ltb 0 n && nat_beq next n) ≡ true → next ≡ n
    counts_size next n h = ground arith

    reported-WholeIf :
        (s : UploadStore) (result : ChunkResult) (next : ℕ) (e : UploadEntry)
        (o : Option UploadEntry)
        → IsValid revision s
        → lookup id s.entries ≡ some e
        → e.received_bytes ≡ next
        → find_owned (prune_expired now s) id (isolation_caller_key ctx) ≡ o
        → WholeIf
            (reported revision decode ctx id offset now io result next (prune_expired now s, o))
    unfolding find_owned
    reported-WholeIf s result next e none v found same h full = absurd (cc full)
    reported-WholeIf s result next e (some f) v found same h full =
        let (kept, mine) =
          owned-some (isolation_caller_key ctx) (lookup id (prune_expired now s).entries) f h in
        let before =
          (survivor now (lookup id s.entries) f
            (sym (lookup-prune now s id v.keyed.unique) ∙ kept)).0 in
        let one : e ≡ f = cc (found, before) in
        (
          f,
          kept,
          mine,
          ap (λ (t : UploadEntry). t.received_bytes) (sym one)
              ∙ same
              ∙ counts_size next f.size_bytes full,
        )

    appended-WholeIf :
        (x : UploadStore × Result UploadError (ChunkResult × ℕ))
        → IsValid revision x.0
        → Counted id x
        → WholeIf (appended revision decode ctx id offset now io x)
    unfolding get
    appended-WholeIf (s, err x) v c = tt
    appended-WholeIf (s, ok (result, next)) v (e, found, same) =
        reported-WholeIf s result next e _ v found same refl

    chunk_bytes-WholeIf :
        (s : UploadStore) (x : Result ChunkError Bytes)
        → IsValid revision s
        → IsClean io
        → WholeIf (chunk_bytes revision decode ctx id offset now io s x)
    chunk_bytes-WholeIf s (err x) v clean = tt
    chunk_bytes-WholeIf s (ok bytes) v clean = elim (Bool-cases (nat_beq (length bytes) 0)) [
      | inl x ↦ rw x tt
      | inr x ↦ rw x (
          appended-WholeIf _
            (append_chunk-IsValid revision s id (isolation_caller_key ctx) offset bytes now io v
              (filled x) clean)
            (append_chunk-Counted s id (isolation_caller_key ctx) offset bytes now io))
    ]
      where
        filled : nat_beq (length bytes) 0 ≡ false → 0 < length bytes
        filled x = ground arith

    chunk_for-WholeIf :
        (s : UploadStore) (content : Text)
        → IsValid revision s
        → IsClean io
        → WholeIf (chunk_for revision decode ctx id offset now io s content)
    chunk_for-WholeIf s content v clean = elim (Bool-cases (id == [])) [
      | inl x ↦ rw x tt
      | inr x ↦ rw x (chunk_bytes-WholeIf s (decode_asset_base64 decode content) v clean)
    ]

  -- When a chunk is answered with complete, on a well-formed store whose write did not break off, the
  -- caller's upload is on record and has received as many bytes as it declared, which is what the
  -- commit asks for.
  pub upload_chunk-IsWhole :
      (decode : Text → Option Bytes) (ctx : Context) (s s' : UploadStore) (id : Text) (offset : ℕ)
      (content : Text) (now : ℕ) (io : WriteOutcome) (out : ChunkOutput)
      → IsValid revision s
      → IsClean io
      → upload_chunk revision decode ctx s id offset content now io ≡ (s', ok out)
      → out.complete ≡ true
      → IsWhole decode ctx (trim_space id) offset now io s'
  unfolding upload_chunk
  upload_chunk-IsWhole decode ctx s s' id offset content now io out v clean done full =
      subst (WholeIf decode ctx (trim_space id) offset now io) done
        (chunk_for-WholeIf decode ctx (trim_space id) offset now io s content v clean) full
