-- ===== src/Upload/Chunks.antt =====
-- `appendChunk`: order, replays and the invariant of the store.
use mathlib.Core.Path.{subst}
use mcp_hugo_server_go.Base.{
  ℕ, ◌+◌, ◌≤◌, ◌<◌, ◌≡◌, refl, ap, inl, inr, ◌++◌, some, arith, Bool-cases, Option-cases, length,
  length-append, nat_beq, ltb, nat_beq_iff,
}
use mcp_hugo_server_go.Base.Keys.{text_eq, nat_eq}
use mcp_hugo_server_go.Base.Map.{Map, lookup, insert, lookup-insert, lookup-insert_self}
use mcp_hugo_server_go.Base.Result.{ok}
use mcp_hugo_server_go.Base.Text.{Text, text_beq_iff}
use mcp_hugo_server_go.Upload.{
  Bytes, ChunkRecord, UploadEntry, UploadStore, WriteOutcome, open_failed, written, write_failed,
  accepted, prune_expired, find_owned, chunk_record, received, store_chunk, same_chunk, append_new,
  append_owned, append_chunk,
}
use mcp_hugo_server_go.Upload.Disk.{IsStored, EntryOk, IsValid, prune-IsValid, update-IsValid}
use mcp_hugo_server_go.Upload.Slice.{slice_old, slice_new}

-- The write did not break off: it did not start, or it put the whole chunk into the file.
abbrev pub IsClean : WriteOutcome → Type 0
IsClean open_failed = Unit
IsClean written = Unit
IsClean (write_failed k) = ⊥

module _ (revision : Bytes → Text) where
  IsStored-append :
      (file bytes : Bytes) (o : ℕ) (rec : ChunkRecord)
      → IsStored revision file o rec
      → IsStored revision (file ++ bytes) o rec
  IsStored-append file bytes o rec k = record {
    positive = k.positive;
    inside = omega (arith, length-append file bytes, k.inside);
    hashed = rw (slice_old o rec.size file bytes k.inside) k.hashed;
  }

  IsStored-new :
      (file bytes : Bytes)
      → 0 < length bytes
      → IsStored revision (file ++ bytes) (length file) (chunk_record revision bytes)
  IsStored-new file bytes h = record {
    positive = h;
    inside = omega (arith, length-append file bytes);
    hashed = ap revision (slice_new file bytes);
  }

  pub received-EntryOk :
      (files : Map Text Bytes) (e : UploadEntry) (k : EntryOk revision files e) (bytes : Bytes)
      → 0 < length bytes
      → e.received_bytes + length bytes ≤ e.size_bytes
      → EntryOk revision
          (insert e.staging_path (k.file ++ bytes) files)
          (received revision e.received_bytes bytes e)
  received-EntryOk files e k bytes h fits = record {
    file = k.file ++ bytes;
    on_disk = lookup-insert_self e.staging_path (k.file ++ bytes) files;
    exact = omega (arith, length-append k.file bytes, k.exact);
    bounded = fits;
    stored = λ o rec found. elim (Bool-cases (nat_beq e.received_bytes o)) [
      | inl same ↦
          let at : length k.file ≡ o =
            omega (arith, k.exact, (nat_beq_iff e.received_bytes o).0 same) in
          let this : chunk_record revision bytes ≡ rec =
            ground
              (arith, lookup-insert e.received_bytes o (chunk_record revision bytes) e.chunks) in
          subst (IsStored revision (k.file ++ bytes) o) this (
            subst (λ (n : ℕ). IsStored revision (k.file ++ bytes) n (chunk_record revision bytes))
              at (IsStored-new k.file bytes h))
      | inr other ↦ IsStored-append k.file bytes o rec (
          k.stored o rec (
            ground
              (arith, lookup-insert e.received_bytes o (chunk_record revision bytes) e.chunks)))
    ];
  }

  -- The next chunk of an entry goes to the end of its file.
  pub store_chunk_lem :
      (s : UploadStore) (id : Text) (e : UploadEntry) (file bytes : Bytes)
      → lookup e.staging_path s.files ≡ some file
      → e.received_bytes + length bytes ≤ e.size_bytes
      → append_new revision s id e e.received_bytes bytes written ≡ (
        record s {
          entries = insert id (received revision e.received_bytes bytes e) s.entries;
          files = insert e.staging_path (file ++ bytes) s.files;
        },
        ok (accepted, e.received_bytes + length bytes),
      )
  unfolding append_new store_chunk
  store_chunk_lem s id e file bytes on_disk fits = ground arith

  module _ (s : UploadStore) (id : Text) (e : UploadEntry) (bytes : Bytes) where
    append_new-IsValid :
        (offset : ℕ) (io : WriteOutcome)
        → IsValid revision s
        → lookup id s.entries ≡ some e
        → 0 < length bytes
        → IsClean io
        → IsValid revision (append_new revision s id e offset bytes io).0
    append_new-IsValid offset io v found h clean =
        elim (Bool-cases (nat_beq offset e.received_bytes)) [
          | inr gap ↦ unfold append_new in rw gap v
          | inl next ↦ elim (Bool-cases (ltb e.size_bytes (e.received_bytes + length bytes))) [
            | inl over ↦ unfold append_new in rw (next, over) v
            | inr fits ↦
                unfold append_new in rw (next, fits) (stored io clean (ground arith) (ground arith))
          ]
        ]
      where
        k : EntryOk revision s.files e
        k = v.each id e found

        stored :
            (io : WriteOutcome)
            → IsClean io
            → offset ≡ e.received_bytes
            → e.received_bytes + length bytes ≤ e.size_bytes
            → IsValid revision
                (store_chunk revision s id e offset bytes (lookup e.staging_path s.files) io).0
        stored open_failed c at fits = unfold store_chunk in rw k.on_disk v
        stored (write_failed n) c at fits = elim c [ ]
        stored written c at fits =
            unfold store_chunk in
            rw (k.on_disk, at)
              (update-IsValid revision s id e _ (k.file ++ bytes) v found refl
                (received-EntryOk s.files e k bytes h fits))

  pub owned_lem :
      (s : UploadStore) (id caller : Text) (e : UploadEntry)
      → find_owned s id caller ≡ some e
      → (lookup id s.entries ≡ some e) × (e.caller_key ≡ caller)
  unfolding find_owned
  owned_lem s id caller e h = elim (Option-cases (lookup id s.entries)) [
    | inl absent ↦ absurd (ground arith)
    | inr (f, found) ↦ ground (arith, text_beq_iff f.caller_key caller)
  ]

  append_owned-IsValid :
      (s : UploadStore) (id caller : Text) (offset : ℕ) (bytes : Bytes) (io : WriteOutcome)
      → IsValid revision s
      → 0 < length bytes
      → IsClean io
      → IsValid revision (append_owned revision s id (find_owned s id caller) offset bytes io).0
  append_owned-IsValid s id caller offset bytes io v h clean =
      elim (Option-cases (find_owned s id caller)) [
        | inl e ↦ unfold append_owned in rw e v
        | inr (e, mine) ↦ elim (Option-cases (lookup offset e.chunks)) [
          | inl new ↦
              unfold append_owned in
              rw (mine, append_owned)
                (rw (new, append_owned)
                  (append_new-IsValid s id e bytes offset io v (owned_lem s id caller e mine).0 h
                    clean))
          | inr (rec, old) ↦ elim (Bool-cases (same_chunk revision bytes rec)) [
            | inl same ↦
                unfold append_owned in rw (mine, append_owned) (rw (old, append_owned) (rw same v))
            | inr differs ↦
                unfold append_owned in
                rw (mine, append_owned) (rw (old, append_owned) (rw differs v))
          ]
        ]
      ]

  -- A chunk that is not empty keeps the store valid, whatever its offset, its caller and the time
  -- are, unless the write to the staging file breaks off.
  pub append_chunk-IsValid :
      (s : UploadStore) (id caller : Text) (offset : ℕ) (bytes : Bytes) (now : ℕ)
      (io : WriteOutcome)
      → IsValid revision s
      → 0 < length bytes
      → IsClean io
      → IsValid revision (append_chunk revision s id caller offset bytes now io).0
  unfolding append_chunk
  append_chunk-IsValid s id caller offset bytes now io v h clean =
      append_owned-IsValid (prune_expired now s) id caller offset bytes io
        (prune-IsValid revision now s v) h clean
