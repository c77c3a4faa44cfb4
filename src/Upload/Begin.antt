-- ===== src/Upload/Begin.antt =====
-- `begin`, `get`, `consume` and `abandon` keep the store well-formed; a write that breaks off does
-- not.
use mathlib.Core.Path.{subst}
use mcp_hugo_server_go.Base.{
  ℕ, ◌+◌, ◌≤◌, ◌≡◌, ◌≢◌, refl, sym, ap, ◌∙◌, inl, inr, Bool, true, false, [], ◌++◌, Option, none,
  some, arith, Bool-cases, Option-cases, length, take, le→ltb,
}
use mcp_hugo_server_go.Base.Keys.{text_eq, nat_eq}
use mcp_hugo_server_go.Base.Map.{
  lookup, insert, remove, lookup-insert, lookup-remove, lookup-insert_self, insert-Unique,
  remove-Unique,
}
use mcp_hugo_server_go.Base.Result.{ok, err}
use mcp_hugo_server_go.Base.Text.{Text, text_beq, text_beq_iff}
use mcp_hugo_server_go.Upload.{
  Bytes, UploadEntry, UploadStore, written, write_failed, BeginRequest, accepted, write_error,
  prune_expired, find_owned, received, store_chunk, append_new, append_owned, append_chunk, get,
  consume, abandon, staging_path_of, new_entry, begin, begin_at, consume_owned, abandon_owned,
}
use mcp_hugo_server_go.Upload.Disk.{
  EntryOk, IsKeyed, IsValid, lookup-prune, lookup-prune_files, prune_keeps_file, prune-IsKeyed,
  prune-IsValid, EntryOk-files, survivor,
}
use mcp_hugo_server_go.Upload.Chunks.{owned_lem, store_chunk_lem}
use mcp_hugo_server_go.Upload.Replay.{IsLive, live_prune, no_chunk, live_file}

module _ (revision : Bytes → Text) where
  -- A write that breaks off after some bytes.
  abbrev torn : UploadStore → UploadEntry → Bytes → Bytes → ℕ → ℕ → UploadStore
  torn s e file bytes now k =
      let p = prune_expired now s in
      record p { files = insert e.staging_path (file ++ take k bytes) p.files }

  torn_lem :
      (s : UploadStore) (id caller : Text) (bytes : Bytes) (now k : ℕ) (e : UploadEntry)
      (v : IsValid revision s) (l : IsLive s id caller now e)
      → e.received_bytes + length bytes ≤ e.size_bytes
      → append_chunk revision s id caller e.received_bytes bytes now (write_failed k)
        ≡ (torn s e (v.each id e l.found).file bytes now k, err write_error)
  unfolding append_chunk append_owned append_new
  torn_lem s id caller bytes now k e v l fits =
      rw (live_prune revision s id caller now e v.keyed l, append_owned)
        (rw (no_chunk revision s.files e (v.each id e l.found), append_owned)
          (rw (live_file revision s id caller now e v l) (unfold store_chunk in ground arith)))

  -- A write that breaks off leaves its first bytes in the staging file, while the count of received
  -- bytes stays: the retry at the same offset is accepted, and the staging file holds the first
  -- bytes twice.
  pub failed_write_corrupts :
      (s : UploadStore) (id caller : Text) (bytes : Bytes) (now k : ℕ) (e : UploadEntry)
      (v : IsValid revision s) (l : IsLive s id caller now e)
      → e.received_bytes + length bytes ≤ e.size_bytes
      → let s' =
          (append_chunk revision s id caller e.received_bytes bytes now (write_failed k)).0 in
        let r = append_chunk revision s' id caller e.received_bytes bytes now written in
        (r.1 ≡ ok (accepted, e.received_bytes + length bytes))
        × (lookup e.staging_path r.0.files
            ≡ some (((v.each id e l.found).file ++ take k bytes) ++ bytes))
  failed_write_corrupts s id caller bytes now k e v l fits =
      rw (torn_lem s id caller bytes now k e v l fits, retry_lem) (refl, lookup-insert_self _ _ _)
    where
      file : Bytes
      file = (v.each id e l.found).file

      s' : UploadStore
      s' = torn s e file bytes now k

      keyed : IsKeyed s'
      keyed = record {
        unique = (prune-IsKeyed now s v.keyed).unique;
        separate = (prune-IsKeyed now s v.keyed).separate;
      }

      found : lookup id s'.entries ≡ some e
      found = rw (lookup-prune now s id v.keyed.unique, l.found, le→ltb e.expires_at now l.fresh)

      live : IsLive s' id caller now e
      live = record { found = found; mine = l.mine; fresh = l.fresh }

      on_disk : lookup e.staging_path (prune_expired now s').files ≡ some (file ++ take k bytes)
      on_disk =
          prune_keeps_file now s' id e keyed found (le→ltb e.expires_at now l.fresh)
          ∙ lookup-insert_self e.staging_path (file ++ take k bytes) (prune_expired now s).files

      retry_lem : append_chunk revision s' id caller e.received_bytes bytes now written ≡ (
        (let p = prune_expired now s' in
            record p {
              entries = insert id (received revision e.received_bytes bytes e) p.entries;
              files = insert e.staging_path ((file ++ take k bytes) ++ bytes) p.files;
            }),
        ok (accepted, e.received_bytes + length bytes),
      )
      retry_lem =
          unfold append_chunk append_owned in
          rw (live_prune revision s' id caller now e keyed live, append_owned)
            (rw (no_chunk revision s.files e (v.each id e l.found), append_owned)
              (store_chunk_lem revision (prune_expired now s') id e (file ++ take k bytes) bytes
                on_disk fits))

  -- A file at a path that no entry uses changes nothing for the entries.
  stray-IsValid :
      (s : UploadStore) (path : Text) (file : Bytes)
      → lookup path s.files ≡ none
      → IsValid revision s
      → IsValid revision (record s { files = insert path file s.files })
  stray-IsValid s path file free v = record {
    keyed = record { unique = v.keyed.unique; separate = v.keyed.separate };
    each = λ id e h.
        let k = v.each id e h in
        let ne : text_beq path e.staging_path ≡ false =
          ground (arith, text_beq_iff path e.staging_path, k.on_disk) in
        EntryOk-files revision s.files _ e (rw (lookup-insert, ne)) k;
  }

  -- A new entry with an empty file that no other entry uses.
  fresh-IsValid :
      (s : UploadStore) (id : Text) (e : UploadEntry)
      → IsValid revision s
      → lookup e.staging_path s.files ≡ some []
      → e.received_bytes ≡ 0
      → e.chunks ≡ []
      → ((j : Text) (f : UploadEntry)
          → lookup j s.entries ≡ some f
          → f.staging_path ≢ e.staging_path)
      → IsValid revision (record s { entries = insert id e s.entries })
  fresh-IsValid s id e v on_disk zero_bytes no_chunks own = record {
    keyed = record {
      unique = insert-Unique id e s.entries v.keyed.unique;
      separate = λ i j f g h k shared. ground (
        arith,
        lookup-insert id i e s.entries,
        lookup-insert id j e s.entries,
        text_beq_iff id i,
        text_beq_iff id j,
        v.keyed.separate i j f g,
        own i f,
        own j g,
      );
    };
    each = λ j f h. elim (Bool-cases (text_beq id j)) [
      | inl same ↦
          let this : e ≡ f = ground (arith, lookup-insert id j e s.entries) in
          subst (EntryOk revision s.files) this (record {
            file = [];
            on_disk = on_disk;
            exact = omega arith;
            bounded = omega arith;
            stored = λ o rec found. absurd (nothing_stored o rec found);
          })
      | inr other ↦
          let h' : lookup j s.entries ≡ some f = ground (arith, lookup-insert id j e s.entries) in
          EntryOk-files revision s.files s.files f refl (v.each j f h')
    ];
  }
    where
      nothing_stored : (o : ℕ) (rec : _) → lookup o e.chunks ≡ some rec → ⊥
      nothing_stored o rec found =
          let gone : none ≡ some rec = unfold lookup in rw no_chunks at found in cc

  begin_at-IsValid :
      (s : UploadStore) (r : BeginRequest) (id : Text) (can_create : Bool) (now : ℕ)
      → IsValid revision s
      → lookup (staging_path_of r.dir id) s.files ≡ none
      → IsValid revision (begin_at s r id can_create now none).0
  unfolding begin_at
  begin_at-IsValid s r id false now v free = v
  begin_at-IsValid s r id true now v free =
      let path = staging_path_of r.dir id in
      let s' : UploadStore = record s { files = insert path [] s.files } in
      let v' = stray-IsValid s path [] free v in
      let own : (j : Text) (f : UploadEntry) → lookup j s.entries ≡ some f → f.staging_path ≢ path =
        λ j f h same. cc ((v.each j f h).on_disk, ap (λ (p : Text). lookup p s.files) same) in
      fresh-IsValid (prune_expired now s') id (new_entry s r path now)
        (prune-IsValid revision now s' v')
        (lookup-prune_files now s' path v.keyed.unique (λ j f h gone. own j f h)
          ∙ lookup-insert_self path [] s.files)
        refl refl
        (λ j f h. own j f (survivor now _ f (rw (lookup-prune now s' j v.keyed.unique) at h)).0)

  -- `begin` keeps the store valid, whether the random source and the creation of the staging file
  -- succeed or not, and also if the identifier was in use.
  pub begin-IsValid :
      (s : UploadStore) (r : BeginRequest) (id : Option Text) (can_create : Bool) (now : ℕ)
      → IsValid revision s
      → IsValid revision (begin s r id can_create now).0
  unfolding begin
  begin-IsValid s r none can_create now v = v
  begin-IsValid s r (some id) can_create now v =
      elim (Option-cases (lookup (staging_path_of r.dir id) s.files)) [
        | inl free ↦ rw free (begin_at-IsValid s r id can_create now v free)
        | inr (file, taken) ↦ rw taken (unfold begin_at in v)
      ]

  forget-IsValid :
      (s : UploadStore) (id : Text)
      → IsValid revision s
      → IsValid revision (record s { entries = remove id s.entries })
  forget-IsValid s id v = record {
    keyed = record {
      unique = remove-Unique id s.entries v.keyed.unique;
      separate = λ i j f g h k. v.keyed.separate i j f g (kept i f h) (kept j g k);
    };
    each = λ j f h. EntryOk-files revision s.files s.files f refl (v.each j f (kept j f h));
  }
    where
      kept :
          (j : Text) (f : UploadEntry)
          → lookup j (remove id s.entries) ≡ some f
          → lookup j s.entries ≡ some f
      kept j f h = ground (arith, lookup-remove id j s.entries)

  discard-IsValid :
      (s : UploadStore) (id : Text) (e : UploadEntry)
      → IsValid revision s
      → lookup id s.entries ≡ some e
      → IsValid revision
          (record s { entries = remove id s.entries; files = remove e.staging_path s.files })
  discard-IsValid s id e v found =
      let w = forget-IsValid s id v in
      record {
        keyed = record { unique = w.keyed.unique; separate = w.keyed.separate };
        each = λ j f h.
            let (ne_id, old) = kept j f h in
            let ne : text_beq e.staging_path f.staging_path ≡ false = ground (
              arith,
              text_beq_iff e.staging_path f.staging_path,
              text_beq_iff id j,
              v.keyed.separate id j e f found old,
            ) in
            EntryOk-files revision s.files _ f (rw (lookup-remove, ne)) (w.each j f h);
      }
    where
      kept :
          (j : Text) (f : UploadEntry)
          → lookup j (remove id s.entries) ≡ some f
          → (text_beq id j ≡ false) × (lookup j s.entries ≡ some f)
      kept j f h = ground (arith, lookup-remove id j s.entries)

  -- `get`, `consume` and `abandon` keep the store valid, for every identifier and caller.
  pub settle-IsValid :
      (s : UploadStore) (id caller : Text) (now : ℕ)
      → IsValid revision s
      → IsValid revision (get s id caller now).0
        × IsValid revision (consume s id caller now).0
        × IsValid revision (abandon s id caller now)
  settle-IsValid s id caller now v =
      let w = prune-IsValid revision now s v in
      let p = prune_expired now s in
      elim (Option-cases (find_owned p id caller)) [
        | inl absent ↦ (
          unfold get in w,
          unfold consume in
              subst (λ (o : Option UploadEntry). IsValid revision (consume_owned p id o).0)
                (sym absent) w,
          unfold abandon in
              subst (λ (o : Option UploadEntry). IsValid revision (abandon_owned p id o))
                (sym absent) w,
        )
        | inr (e, mine) ↦
            let found = (owned_lem revision p id caller e mine).0 in
            (
              unfold get in w,
              unfold consume in
                  subst (λ (o : Option UploadEntry). IsValid revision (consume_owned p id o).0)
                    (sym mine) (forget-IsValid p id w),
              unfold abandon in
                  subst (λ (o : Option UploadEntry). IsValid revision (abandon_owned p id o))
                    (sym mine) (discard-IsValid p id e w found),
            )
      ]
