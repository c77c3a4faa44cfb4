-- ===== src/Upload/Assemble.antt =====
-- A whole upload, and who may touch it.
use mathlib.Core.Path.{subst}
use mathlib.Core.List.{append_assoc, append-nil}
use mcp_hugo_server_go.Base.{
  ℕ, ◌+◌, ◌≤◌, ◌≡◌, ◌≢◌, refl, sym, ap, ◌∙◌, not, List, [], ◌∷◌, ◌++◌, Option, none, some, arith,
  length, length-append,
}
use mcp_hugo_server_go.Base.Keys.{text_eq, nat_eq}
use mcp_hugo_server_go.Base.Map.{lookup, lookup-insert_self, keep_if}
use mcp_hugo_server_go.Base.Result.{Result, err}
use mcp_hugo_server_go.Base.Text.{Text, text_beq_iff}
use mcp_hugo_server_go.Upload.{
  Bytes, UploadEntry, UploadStore, UploadError, WriteOutcome, written, ChunkResult, not_found,
  prune_expired, owned, find_owned, received, append_owned, append_chunk, get, consume, abandon,
  is_expired,
}
use mcp_hugo_server_go.Upload.Disk.{IsKeyed, IsValid, lookup-prune}
use mcp_hugo_server_go.Upload.Chunks.{append_chunk-IsValid}
use mcp_hugo_server_go.Upload.Replay.{IsLive, append_next, grown, grown_found, total, AllInTime}

module _ (revision : Bytes → Text) where
  -- A client that sends chunk after chunk, each at the offset behind the one before.
  abbrev pub send : UploadStore → Text → Text → ℕ → List (ℕ × Bytes) → UploadStore
  send s id caller offset [] = s
  send s id caller offset ((now, bytes) ∷ rest) =
      send (append_chunk revision s id caller offset bytes now written).0 id caller
        (offset + length bytes) rest

  -- The upload has come to these bytes, in its staging file and by its count.
  pub record Holds (s : UploadStore) (id path : Text) (size : ℕ) (file : Bytes) : Type 0 where
    pub entry : UploadEntry
    pub found : lookup id s.entries ≡ some entry
    pub count : entry.received_bytes ≡ length file
    pub declared : entry.size_bytes ≡ size
    pub same_path : entry.staging_path ≡ path
    pub on_disk : lookup path s.files ≡ some file

  known_file :
      (s : UploadStore) (id : Text) (e : UploadEntry) (file : Bytes) (v : IsValid revision s)
      (found : lookup id s.entries ≡ some e)
      → lookup e.staging_path s.files ≡ some file
      → (v.each id e found).file ≡ file
  known_file s id e file v found on_disk = cc ((v.each id e found).on_disk)

  send_from :
      (chunks : List (ℕ × Bytes)) (s : UploadStore) (id caller : Text) (e : UploadEntry)
      (file : Bytes)
      → IsValid revision s
      → lookup id s.entries ≡ some e
      → lookup e.staging_path s.files ≡ some file
      → e.caller_key ≡ caller
      → AllInTime e.expires_at chunks
      → length file + length (total chunks) ≤ e.size_bytes
      → Holds
          (send s id caller e.received_bytes chunks)
          id
          e.staging_path
          e.size_bytes
          (file ++ total chunks)
  send_from [] s id caller e file v found on_disk mine a fits = record {
    entry = e;
    found = found;
    count = omega (
      arith,
      (v.each id e found).exact,
      ap length (known_file s id e file v found on_disk),
      ap length (append-nil file),
    );
    declared = refl;
    same_path = refl;
    on_disk = on_disk ∙ ap some (sym (append-nil file));
  }
  send_from ((now, bytes) ∷ rest) s id caller e file v found on_disk mine (fresh, pos, a) fits =
      let k = v.each id e found in
      let known = known_file s id e file v found on_disk in
      let l : IsLive s id caller now e = record { found = found; mine = mine; fresh = fresh } in
      let room : e.received_bytes + length bytes ≤ e.size_bytes =
        omega (arith, k.exact, ap length known, length-append bytes (total rest)) in
      let step : (append_chunk revision s id caller e.received_bytes bytes now written).0
          ≡ grown revision s id e file bytes now =
        ap (λ (r : UploadStore × Result UploadError (ChunkResult × ℕ)). r.0)
          (append_next revision s id caller bytes now e v l room)
        ∙ ap (λ (f : Bytes). grown revision s id e f bytes now) known in
      let v' =
        subst (IsValid revision) step
          (append_chunk-IsValid revision s id caller e.received_bytes bytes now written v pos tt) in
      let ih =
        send_from rest (grown revision s id e file bytes now) id caller
          (received revision e.received_bytes bytes e) (file ++ bytes) v'
          (grown_found revision s id e file bytes now)
          (lookup-insert_self e.staging_path (file ++ bytes) (prune_expired now s).files) mine a
          (omega (arith, length-append file bytes, length-append bytes (total rest))) in
      subst
        (λ (t : UploadStore).
          Holds (send t id caller (e.received_bytes + length bytes) rest) id e.staging_path
            e.size_bytes (file ++ (bytes ++ total rest)))
        (sym step)
        (subst
          (Holds
            (send (grown revision s id e file bytes now) id caller (e.received_bytes + length bytes)
              rest)
            id e.staging_path e.size_bytes)
          (append_assoc file bytes (total rest)) ih)

  -- Chunks that are sent in order and in time to an upload with an empty staging file, none of them
  -- empty and together as long as declared, leave exactly their concatenation in the staging file,
  -- and the upload is complete.
  pub send_assembles :
      (chunks : List (ℕ × Bytes)) (s : UploadStore) (id caller : Text) (e : UploadEntry)
      → IsValid revision s
      → lookup id s.entries ≡ some e
      → lookup e.staging_path s.files ≡ some []
      → e.caller_key ≡ caller
      → AllInTime e.expires_at chunks
      → length (total chunks) ≡ e.size_bytes
      → Holds (send s id caller 0 chunks) id e.staging_path e.size_bytes (total chunks)
  send_assembles chunks s id caller e v found on_disk mine a exact =
      let zero_received : e.received_bytes ≡ 0 =
        omega
          (arith, (v.each id e found).exact, ap length (known_file s id e [] v found on_disk)) in
      subst
        (λ (n : ℕ). Holds (send s id caller n chunks) id e.staging_path e.size_bytes (total chunks))
        zero_received (send_from chunks s id caller e [] v found on_disk mine a (omega arith))

  -- An upload of another caller is as good as no upload: every operation on it answers as for an
  -- unknown identifier, and only prunes expired uploads.
  pub foreign_upload :
      (s : UploadStore) (id caller : Text) (now offset : ℕ) (bytes : Bytes) (io : WriteOutcome)
      → IsKeyed s
      → ((e : UploadEntry) → lookup id s.entries ≡ some e → e.caller_key ≢ caller)
      → let p = prune_expired now s in
        (append_chunk revision s id caller offset bytes now io ≡ (p, err not_found))
        × (get s id caller now ≡ (p, none))
        × (consume s id caller now ≡ (p, none))
        × (abandon s id caller now ≡ p)
  unfolding append_chunk append_owned get consume abandon
  foreign_upload s id caller now offset bytes io v h =
      let absent : find_owned (prune_expired now s) id caller ≡ none = not_owned in
      (rw (absent, append_owned), rw absent, rw absent, rw absent)
    where
      owned_none :
          (o : Option UploadEntry)
          → ((e : UploadEntry) → o ≡ some e → e.caller_key ≢ caller)
          → owned caller (keep_if (λ e. not (is_expired now e)) o) ≡ none
      owned_none none k = refl
      owned_none (some e) k = ground (arith, text_beq_iff e.caller_key caller, k e refl)

      not_owned : find_owned (prune_expired now s) id caller ≡ none
      not_owned =
          unfold find_owned in
          rw (lookup-prune now s id v.unique) (owned_none (lookup id s.entries) h)
