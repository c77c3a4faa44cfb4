-- ===== src/Assets/Ready.antt =====
-- What the first part of a commit has checked when it hands over to the second.
use mcp_hugo_server_go.Base.{
  ℕ, ◌≡◌, refl, inl, inr, Bool, true, false, not, ◌&&◌, [], Option, none, some, Bool-cases,
}
use mcp_hugo_server_go.Base.Keys.{text_eq, ◌==◌}
use mcp_hugo_server_go.Base.Map.{Map, lookup}
use mcp_hugo_server_go.Base.Result.{Result, ok, err}
use mcp_hugo_server_go.Base.Text.{Text, trim_space}
use mcp_hugo_server_go.Caller.{Context}
use mcp_hugo_server_go.Upload.{Bytes, UploadEntry, UploadStore}
use mcp_hugo_server_go.Changes.{Database}
use mcp_hugo_server_go.Idempotency.{IdemError, Journal, Json, Store}
use mcp_hugo_server_go.Assets.{AssetEnv, validate_asset_bytes, validate_expected_sha256}
use mcp_hugo_server_go.Assets.Commit.{
  World, CommitRequest, CommitError, CommitOutput, Pending, Prepared, failed, answered, pending,
  Before, check_free, readable, is_other, prepared_free, prepare_dest, replayed, prepare_replay,
  prepare_checked,
}

module _ {D J : Type 0} (env : AssetEnv) (database : Database D) (journal : Journal J)
    (json : Json CommitOutput) (ctx : Context) where
  -- The destination is free, and the rest is handed over as it was found.
  pub record IsHanded (now : ℕ) (before : Map Text Bytes) (staging : UploadStore) (cs : Text)
      (e : UploadEntry) (bytes : Bytes) (p : Pending) (w' : World D J) : Type 0 where
    pub same_set : p.set_id ≡ cs
    pub same_entry : p.entry ≡ e
    pub same_bytes : p.staged ≡ bytes
    pub taken_at : p.at ≡ now
    pub joined : env.safe_join e.slug e.filename ≡ some p.dest
    pub free : lookup p.dest before ≡ none
    pub assets_stay : w'.assets ≡ before
    pub uploads_stay : w'.uploads ≡ staging

  -- The bytes are what the caller declared.
  pub record IsVerified (declared : Text) (e : UploadEntry) (bytes : Bytes) : Type 0 where
    pub valid : validate_asset_bytes env bytes e.ext e.want_mime ≡ none
    pub as_begun :
        is_other env database journal json ctx e.expected_sha256 (env.revision bytes) ≡ false
    pub asked : Text
    pub asked_valid : validate_expected_sha256 declared ≡ ok asked
    pub as_asked : is_other env database journal json ctx asked (env.revision bytes) ≡ false

  -- What the world and the hand-over satisfy, where there is one
  abbrev pub OnPending : (Pending → World D J → Type 0) → World D J × Prepared → Type 0
  OnPending Q (w, failed x) = Unit
  OnPending Q (w, answered out) = Unit
  OnPending Q (w, pending p) = Q p w

  pub check_free-none : (works : Bool) (o : Option Bytes) → check_free works o ≡ none → o ≡ none
  check_free-none works (some b) h = absurd (cc h)
  check_free-none works none h = refl

  pub readable-some :
      (can : Bool) (o : Option Bytes) (b : Bytes) → readable can o ≡ some b → o ≡ some b
  readable-some true o b h = h
  readable-some false o b h = absurd (cc h)

  module _ (r : CommitRequest) (id : Text) (b : Before) (now : ℕ) where
    abbrev pub Free : World D J → Text → UploadEntry → Bytes → Pending → World D J → Type 0
    Free w cs e bytes p w' = (r.dry_run ≡ false) × IsHanded now w.assets w.uploads cs e bytes p w'

    prepared_free-Free :
        (w : World D J) (cs : Text) (e : UploadEntry) (bytes : Bytes) (hash dest : Text)
        → env.safe_join e.slug e.filename ≡ some dest
        → (o : Option CommitError) → (o ≡ none → lookup dest w.assets ≡ none)
        → OnPending (Free w cs e bytes) (
            prepared_free env database journal json ctx r id b now w
              (record {
                set_id = cs;
                entry = e;
                staged = bytes;
                idem_hash = hash;
                dest = dest;
                at = now;
              })
              o)
    prepared_free-Free w cs e bytes hash dest j (some x) free = tt
    prepared_free-Free w cs e bytes hash dest j none free = elim (Bool-cases r.dry_run) [
      | inl dry ↦ rw dry tt
      | inr wet ↦ rw wet (
        refl,
        record {
          same_set = refl;
          same_entry = refl;
          same_bytes = refl;
          taken_at = refl;
          joined = j;
          free = free refl;
          assets_stay = refl;
          uploads_stay = refl;
        },
      )
    ]

    prepare_dest-Free :
        (w : World D J) (cs : Text) (e : UploadEntry) (bytes : Bytes) (hash : Text)
        (o : Option Text)
        → env.safe_join e.slug e.filename ≡ o
        → OnPending
            (Free w cs e bytes)
            (prepare_dest env database journal json ctx r id b now w cs e bytes hash o)
    prepare_dest-Free w cs e bytes hash none j = tt
    prepare_dest-Free w cs e bytes hash (some dest) j =
        prepared_free-Free w cs e bytes hash dest j _
          (check_free-none b.can_stat (lookup dest w.assets))

    replayed-Free :
        (w : World D J) (cs : Text) (e : UploadEntry) (bytes : Bytes) (hash : Text)
        (x : Store J × Result IdemError (Option CommitOutput))
        → OnPending
            (Free w cs e bytes)
            (replayed env database journal json ctx r id b now w cs e bytes hash x)
    replayed-Free w cs e bytes hash (s, err x) = tt
    replayed-Free w cs e bytes hash (s, ok (some out)) = tt
    replayed-Free w cs e bytes hash (s, ok none) =
        prepare_dest-Free (record w { results = s }) cs e bytes hash
          (env.safe_join e.slug e.filename) refl

    prepare_replay-Free :
        (w : World D J) (cs : Text) (e : UploadEntry) (bytes : Bytes) (o : Option Text)
        → OnPending
            (Free w cs e bytes)
            (prepare_replay env database journal json ctx r id b now w cs e bytes o)
    prepare_replay-Free w cs e bytes none = tt
    prepare_replay-Free w cs e bytes (some hash) = replayed-Free w cs e bytes hash _

    pub prepare_checked-Free :
        (w : World D J) (cs : Text) (e : UploadEntry) (bytes : Bytes)
        → OnPending
            (Free w cs e bytes)
            (prepare_checked env database journal json ctx r id b now w cs e bytes)
    unfolding prepare_checked
    prepare_checked-Free w cs e bytes =
        elim (Bool-cases (not r.dry_run && not (trim_space r.idempotency_key == []))) [
          | inl x ↦ rw x (prepare_replay-Free w cs e bytes _)
          | inr x ↦ rw x (prepare_dest-Free w cs e bytes [] _ refl)
        ]
