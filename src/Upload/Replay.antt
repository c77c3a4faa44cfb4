-- ===== src/Upload/Replay.antt =====
-- What a caller of `appendChunk` may rely on.
use mathlib.Core.Path.{subst}
use mcp_hugo_server_go.Base.{
  ℕ, ◌+◌, ◌≤◌, ◌<◌, ◌≡◌, refl, ap, ◌∙◌, inl, inr, List, [], ◌∷◌, ◌++◌, none, some, arith,
  Option-cases, length, nat_beq_iff, le→ltb,
}
use mcp_hugo_server_go.Base.Keys.{text_eq, nat_eq}
use mcp_hugo_server_go.Base.Map.{Map, lookup, insert, lookup-insert_self}
use mcp_hugo_server_go.Base.Result.{Result, ok}
use mcp_hugo_server_go.Base.Text.{Text, text_beq_refl}
use mcp_hugo_server_go.Upload.{
  Bytes, UploadEntry, UploadStore, UploadError, WriteOutcome, written, ChunkResult, accepted,
  replayed, prune_expired, find_owned, chunk_record, received, append_owned, append_chunk,
}
use mcp_hugo_server_go.Upload.Disk.{EntryOk, IsKeyed, IsValid, lookup-prune, prune_keeps_file}
use mcp_hugo_server_go.Upload.Chunks.{store_chunk_lem, append_chunk-IsValid}

-- The caller has the upload, and it has not expired.
pub record IsLive (s : UploadStore) (id caller : Text) (now : ℕ) (e : UploadEntry) : Type 0 where
  pub found : lookup id s.entries ≡ some e
  pub mine : e.caller_key ≡ caller
  pub fresh : now ≤ e.expires_at

module _ (revision : Bytes → Text) where
  pub live_prune :
      (s : UploadStore) (id caller : Text) (now : ℕ) (e : UploadEntry)
      → IsKeyed s
      → IsLive s id caller now e
      → find_owned (prune_expired now s) id caller ≡ some e
  unfolding find_owned
  live_prune s id caller now e v l = rw (
    lookup-prune now s id v.unique,
    l.found,
    le→ltb e.expires_at now l.fresh,
    l.mine,
    text_beq_refl caller,
  )

  pub live_file :
      (s : UploadStore) (id caller : Text) (now : ℕ) (e : UploadEntry) (v : IsValid revision s)
      → (l : IsLive s id caller now e)
      → lookup e.staging_path (prune_expired now s).files ≡ some (v.each id e l.found).file
  live_file s id caller now e v l =
      prune_keeps_file now s id e v.keyed l.found (le→ltb e.expires_at now l.fresh)
      ∙ (v.each id e l.found).on_disk

  -- No chunk is on record at the end of the file.
  pub no_chunk :
      (files : Map Text Bytes) (e : UploadEntry)
      → EntryOk revision files e
      → lookup e.received_bytes e.chunks ≡ none
  no_chunk files e k = elim (Option-cases (lookup e.received_bytes e.chunks)) [
    | inl absent ↦ absent
    | inr (rec, found) ↦
        let st = k.stored e.received_bytes rec found in
        absurd (omega (arith, st.positive, st.inside, k.exact))
  ]

  -- The store after a chunk of a live upload has been written.
  abbrev pub grown : UploadStore → Text → UploadEntry → Bytes → Bytes → ℕ → UploadStore
  grown s id e file bytes now =
      let p = prune_expired now s in
      record p {
        entries = insert id (received revision e.received_bytes bytes e) p.entries;
        files = insert e.staging_path (file ++ bytes) p.files;
      }

  -- The next chunk of a live upload that fits is accepted, and its bytes go to the end of the
  -- staging file.
  pub append_next :
      (s : UploadStore) (id caller : Text) (bytes : Bytes) (now : ℕ) (e : UploadEntry)
      (v : IsValid revision s) (l : IsLive s id caller now e)
      → e.received_bytes + length bytes ≤ e.size_bytes
      → append_chunk revision s id caller e.received_bytes bytes now written ≡ (
        grown s id e (v.each id e l.found).file bytes now,
        ok (accepted, e.received_bytes + length bytes),
      )
  unfolding append_chunk append_owned
  append_next s id caller bytes now e v l fits =
      rw (live_prune s id caller now e v.keyed l, append_owned)
        (rw (no_chunk s.files e (v.each id e l.found), append_owned)
          (store_chunk_lem revision (prune_expired now s) id e (v.each id e l.found).file bytes
            (live_file s id caller now e v l) fits))

  -- A chunk on record is acknowledged once more, and nothing is written.
  replay_lem :
      (s : UploadStore) (id caller : Text) (offset : ℕ) (bytes : Bytes) (now : ℕ)
      (io : WriteOutcome) (e : UploadEntry)
      → IsValid revision s
      → IsLive s id caller now e
      → lookup offset e.chunks ≡ some (chunk_record revision bytes)
      → append_chunk revision s id caller offset bytes now io
        ≡ (prune_expired now s, ok (replayed, e.received_bytes))
  unfolding append_chunk append_owned
  replay_lem s id caller offset bytes now io e v l found =
      rw (live_prune s id caller now e v.keyed l, append_owned)
        (rw (found, append_owned)
          (ground
            (arith, text_beq_refl (revision bytes), nat_beq_iff (length bytes) (length bytes))))

  pub grown_found :
      (s : UploadStore) (id : Text) (e : UploadEntry) (file bytes : Bytes) (now : ℕ)
      → lookup id (grown s id e file bytes now).entries
        ≡ some (received revision e.received_bytes bytes e)
  grown_found s id e file bytes now = lookup-insert_self id _ (prune_expired now s).entries

  pub grown-IsLive :
      (s : UploadStore) (id caller : Text) (e : UploadEntry) (file bytes : Bytes) (now later : ℕ)
      → e.caller_key ≡ caller
      → later ≤ e.expires_at
      → IsLive
          (grown s id e file bytes now)
          id
          caller
          later
          (received revision e.received_bytes bytes e)
  grown-IsLive s id caller e file bytes now later mine fresh = record {
    found = grown_found s id e file bytes now;
    mine = mine;
    fresh = fresh;
  }

  -- A live upload's next chunk, not empty and within the declared size, is accepted when it is
  -- written; its bytes are appended to the staging file. When the same call is made again before
  -- the
  -- upload expires, it is answered as a replay with the same next offset, and nothing changes but
  -- that expired uploads are pruned.
  pub append_chunk_retry :
      (s : UploadStore) (id caller : Text) (bytes : Bytes) (now later : ℕ) (io : WriteOutcome)
      (e : UploadEntry) (v : IsValid revision s) (l : IsLive s id caller now e)
      → 0 < length bytes
      → e.received_bytes + length bytes ≤ e.size_bytes
      → later ≤ e.expires_at
      → let n = e.received_bytes + length bytes in
        let s' = (append_chunk revision s id caller e.received_bytes bytes now written).0 in
        ((append_chunk revision s id caller e.received_bytes bytes now written).1
          ≡ ok (accepted, n))
        × (lookup e.staging_path s'.files ≡ some ((v.each id e l.found).file ++ bytes))
        × (append_chunk revision s' id caller e.received_bytes bytes later io
            ≡ (prune_expired later s', ok (replayed, n)))
  append_chunk_retry s id caller bytes now later io e v l pos fits fresh =
      let file = (v.each id e l.found).file in
      let step = append_next s id caller bytes now e v l fits in
      let v' =
        subst (IsValid revision)
          (ap (λ (r : UploadStore × Result UploadError (ChunkResult × ℕ)). r.0) step)
          (append_chunk-IsValid revision s id caller e.received_bytes bytes now written v pos tt) in
      rw step (
        refl,
        lookup-insert_self e.staging_path (file ++ bytes) (prune_expired now s).files,
        replay_lem (grown s id e file bytes now) id caller e.received_bytes bytes later io
            (received revision e.received_bytes bytes e) v'
            (grown-IsLive s id caller e file bytes now later l.mine fresh)
            (lookup-insert_self e.received_bytes (chunk_record revision bytes) e.chunks),
      )

-- Chunks, each with the time at which it is sent, one after the other.
abbrev pub total : List (ℕ × Bytes) → Bytes
total [] = []
total ((now, bytes) ∷ rest) = bytes ++ total rest

abbrev pub AllInTime : ℕ → List (ℕ × Bytes) → Type 0
AllInTime deadline [] = Unit
AllInTime deadline ((now, bytes) ∷ rest) =
    (now ≤ deadline) × (0 < length bytes) × AllInTime deadline rest
