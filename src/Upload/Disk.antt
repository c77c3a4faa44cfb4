-- ===== src/Upload/Disk.antt =====
-- Which staging files the store keeps, and the well-formedness invariant of the store.
use mathlib.Core.Path.{subst}
use mcp_hugo_server_go.Base.{
  ℕ, ◌+◌, ◌≤◌, ◌<◌, ◌≡◌, ◌≢◌, refl, sym, ap, ◌∙◌, inl, inr, true, false, not, [], ◌∷◌, Option, none,
  some, arith, Bool-cases, All, length, take, drop,
}
use mcp_hugo_server_go.Base.Keys.{text_eq, nat_eq}
use mcp_hugo_server_go.Base.Map.{
  Map, lookup, insert, keep_if, Unique, lookup-insert, lookup-remove, lookup-keep, keep-Unique,
  insert-Unique, All-of_lookup,
}
use mcp_hugo_server_go.Base.Text.{Text, text_beq, text_beq_iff}
use mcp_hugo_server_go.Upload.{
  Bytes, ChunkRecord, UploadEntry, UploadStore, is_expired, remove_expired_files, prune_expired,
}

-- The bytes of the file from an offset on, so many of them.
abbrev pub slice : ℕ → ℕ → Bytes → Bytes
slice o n b = take n (drop o b)

-- Identifiers are unique, and no two entries share a staging file.
pub record IsKeyed (s : UploadStore) : Type 0 where
  pub unique : Unique s.entries
  pub separate :
      (i j : Text) (e f : UploadEntry)
      → lookup i s.entries ≡ some e
      → lookup j s.entries ≡ some f
      → e.staging_path ≡ f.staging_path
      → i ≡ j

module _ (revision : Bytes → Text) where
  -- The chunk on record stands in the file at its offset.
  pub record IsStored (file : Bytes) (o : ℕ) (rec : ChunkRecord) : Type 0 where
    pub positive : 0 < rec.size
    pub inside : o + rec.size ≤ length file
    pub hashed : revision (slice o rec.size file) ≡ rec.sha256

  -- The staging file of an entry holds what was received, which is at most what was declared.
  pub record EntryOk (files : Map Text Bytes) (e : UploadEntry) : Type 0 where
    pub file : Bytes
    pub on_disk : lookup e.staging_path files ≡ some file
    pub exact : length file ≡ e.received_bytes
    pub bounded : e.received_bytes ≤ e.size_bytes
    pub stored : (o : ℕ) (rec : ChunkRecord) → lookup o e.chunks ≡ some rec → IsStored file o rec

  -- Every entry has its file, and no other has it.
  pub record IsValid (s : UploadStore) : Type 0 where
    pub keyed : IsKeyed s
    pub each : (id : Text) (e : UploadEntry) → lookup id s.entries ≡ some e → EntryOk s.files e

  pub EntryOk-files :
      (files files' : Map Text Bytes) (e : UploadEntry)
      → lookup e.staging_path files' ≡ lookup e.staging_path files
      → EntryOk files e
      → EntryOk files' e
  EntryOk-files files files' e same k = record {
    file = k.file;
    on_disk = same ∙ k.on_disk;
    exact = k.exact;
    bounded = k.bounded;
    stored = k.stored;
  }

-- An expired entry's file is another one.
abbrev Spares : ℕ → Text → Text × UploadEntry → Type 0
Spares now p (id, e) = is_expired now e ≡ true → e.staging_path ≢ p

lookup-remove_expired_files :
    (now : ℕ) (p : Text) (m : Map Text UploadEntry) (files : Map Text Bytes)
    → All (Spares now p) m
    → lookup p (remove_expired_files now m files) ≡ lookup p files
unfolding remove_expired_files
lookup-remove_expired_files now p [] files a = refl
lookup-remove_expired_files now p ((id, e) ∷ m) files (h, a) =
    let ih = lookup-remove_expired_files now p m files a in
    elim (Bool-cases (is_expired now e)) [
      | inl gone ↦
          let ne : text_beq e.staging_path p ≡ false =
            ground (arith, h gone, text_beq_iff e.staging_path p) in
          rw (gone, lookup-remove, ne) ih
      | inr stays ↦ rw stays ih
    ]

-- Entries that have not expired, and only they, survive.
pub lookup-prune :
    (now : ℕ) (s : UploadStore) (id : Text)
    → Unique s.entries
    → lookup id (prune_expired now s).entries
      ≡ keep_if (λ e. not (is_expired now e)) (lookup id s.entries)
unfolding prune_expired
lookup-prune now s id u = lookup-keep (λ _ e. not (is_expired now e)) id s.entries u

pub survivor :
    (now : ℕ) (o : Option UploadEntry) (e : UploadEntry)
    → keep_if (λ e. not (is_expired now e)) o ≡ some e
    → (o ≡ some e) × (is_expired now e ≡ false)
survivor now none e h = absurd (cc)
survivor now (some x) e h = ground arith

-- A path that no expired entry uses keeps its file.
pub lookup-prune_files :
    (now : ℕ) (s : UploadStore) (p : Text)
    → Unique s.entries
    → ((id : Text) (e : UploadEntry) → lookup id s.entries ≡ some e → Spares now p (id, e))
    → lookup p (prune_expired now s).files ≡ lookup p s.files
unfolding prune_expired
lookup-prune_files now s p u h =
    lookup-remove_expired_files now p s.entries s.files (All-of_lookup (Spares now p) s.entries u h)

clash :
    (now : ℕ) (s : UploadStore)
    → IsKeyed s
    → (i j : Text) (e f : UploadEntry) → lookup i s.entries ≡ some e
    → is_expired now e ≡ false
    → lookup j s.entries ≡ some f
    → is_expired now f ≡ true
    → f.staging_path ≢ e.staging_path
clash now s v i j e f old fresh k gone shared =
    let same = v.separate j i f e k old shared in
    let found : some f ≡ some e = sym k ∙ ap (λ (t : Text). lookup t s.entries) same ∙ old in cc

-- The file of an entry that has not expired stays as it is.
pub prune_keeps_file :
    (now : ℕ) (s : UploadStore) (id : Text) (e : UploadEntry)
    → IsKeyed s
    → lookup id s.entries ≡ some e
    → is_expired now e ≡ false
    → lookup e.staging_path (prune_expired now s).files ≡ lookup e.staging_path s.files
prune_keeps_file now s id e v old fresh =
    lookup-prune_files now s e.staging_path v.unique
      λ j f k gone shared. clash now s v id j e f old fresh k gone shared

pub prune-IsKeyed : (now : ℕ) (s : UploadStore) → IsKeyed s → IsKeyed (prune_expired now s)
prune-IsKeyed now s v = record {
  unique = unfold prune_expired in keep-Unique _ s.entries v.unique;
  separate = λ i j e f h k.
      v.separate i j e f (survivor now _ e (rw (lookup-prune now s i v.unique) at h)).0
        (survivor now _ f (rw (lookup-prune now s j v.unique) at k)).0;
}

pub update-IsKeyed :
    (s : UploadStore) (id : Text) (e e' : UploadEntry) (files : Map Text Bytes)
    → IsKeyed s
    → lookup id s.entries ≡ some e
    → e'.staging_path ≡ e.staging_path
    → IsKeyed (record s { entries = insert id e' s.entries; files = files })
update-IsKeyed s id e e' files v old path = record {
  unique = insert-Unique id e' s.entries v.unique;
  separate = λ i j f g h k' shared. ground (
    arith,
    lookup-insert id i e' s.entries,
    lookup-insert id j e' s.entries,
    text_beq_iff id i,
    text_beq_iff id j,
    v.separate i j f g,
    v.separate i id f e,
    v.separate id j e g,
  );
}

module _ (revision : Bytes → Text) where
  pub prune-IsValid :
      (now : ℕ) (s : UploadStore) → IsValid revision s → IsValid revision (prune_expired now s)
  prune-IsValid now s v = record {
    keyed = prune-IsKeyed now s v.keyed;
    each = λ id e h.
        let (old, fresh) = survivor now _ e (rw (lookup-prune now s id v.keyed.unique) at h) in
        EntryOk-files revision s.files _ e (prune_keeps_file now s id e v.keyed old fresh)
          (v.each id e old);
  }

  -- An entry gets new contents, and its file with it; the other entries keep theirs.
  pub update-IsValid :
      (s : UploadStore) (id : Text) (e e' : UploadEntry) (file : Bytes)
      → IsValid revision s
      → lookup id s.entries ≡ some e
      → e'.staging_path ≡ e.staging_path
      → EntryOk revision (insert e.staging_path file s.files) e'
      → IsValid revision (record s {
        entries = insert id e' s.entries;
        files = insert e.staging_path file s.files;
      })
  update-IsValid s id e e' file v old path k = record {
    keyed = update-IsKeyed s id e e' _ v.keyed old path;
    each = λ j f h. elim (Bool-cases (text_beq id j)) [
      | inl same ↦
          let found : e' ≡ f = ground (arith, lookup-insert id j e' s.entries) in
          subst (EntryOk revision (insert e.staging_path file s.files)) found k
      | inr other ↦
          let h' : lookup j s.entries ≡ some f = ground (arith, lookup-insert id j e' s.entries) in
          let ne : text_beq e.staging_path f.staging_path ≡ false = ground (
            arith,
            text_beq_iff id j,
            text_beq_iff e.staging_path f.staging_path,
            v.keyed.separate id j e f old h',
          ) in
          EntryOk-files revision s.files _ f (rw (lookup-insert, ne)) (v.each j f h')
    ];
  }
