-- ===== src/Assets/Committed.antt =====
-- A commit from begin to end: what it takes to succeed, and what a retry gets.
use mathlib.Core.Path.{subst}
use mcp_hugo_server_go.Base.{
  ℕ, ◌≡◌, refl, sym, ap, ◌∙◌, inl, inr, Bool, not, ◌||◌, List, [], ◌∷◌, ◌++◌, Option, none, some,
  Bool-cases, arith,
}
use mcp_hugo_server_go.Base.Keys.{text_eq, ◌==◌, ==_refl}
use mcp_hugo_server_go.Base.Map.{
  Map, lookup, remove, keep_if, Unique, lookup-insert_self, lookup-remove_self, keep-Unique,
}
use mcp_hugo_server_go.Base.Result.{Result, ok}
use mcp_hugo_server_go.Base.Text.{Text, trim_space}
use mcp_hugo_server_go.Caller.{Context}
use mcp_hugo_server_go.Upload.{
  Bytes, UploadEntry, UploadStore, get, consume, is_expired, prune_expired, find_owned, owned,
}
use mcp_hugo_server_go.Upload.Disk.{lookup-prune}
use mcp_hugo_server_go.Changes.Latest.{mutations_for-record_mutation}
use mcp_hugo_server_go.Changes.{Registry, Database, ChangeError, Mutation, resolve, mutations_for}
use mcp_hugo_server_go.Idempotency.{Journal, Json}
use mcp_hugo_server_go.Assets.{AssetEnv, isolation_caller_key}
use mcp_hugo_server_go.Assets.Commit.{
  World, CommitRequest, CommitOutput, Pending, pending, Before, Locked, prepare,
}
use mcp_hugo_server_go.Assets.Publish.{finish, mutation}
use mcp_hugo_server_go.Assets.Ready.{IsVerified, OnPending}
use mcp_hugo_server_go.Assets.Verified.{WasChecked, prepare_as-Checked}
use mcp_hugo_server_go.Assets.Finish.{Writes, finish-Writes}

still_kept :
    (now : ℕ) (o : Option UploadEntry) (e : UploadEntry)
    → keep_if (λ f. not (is_expired now f)) o ≡ some e
    → keep_if (λ f. not (is_expired now f)) (some e) ≡ some e
still_kept now none e h = absurd (cc h)
still_kept now (some f) e h = ground arith

prune-Unique : (now : ℕ) (s : UploadStore) → Unique s.entries → Unique (prune_expired now s).entries
unfolding prune_expired
prune-Unique now s u = keep-Unique _ s.entries u

pub owned-some :
    (caller : Text) (o : Option UploadEntry) (e : UploadEntry)
    → owned caller o ≡ some e
    → (o ≡ some e) × (e.caller_key ≡ caller)
owned-some caller none e h = absurd (cc h)
owned-some caller (some f) e h = elim (Bool-cases (f.caller_key == caller)) [
  | inl x ↦
      (let q : f ≡ e = cc (rw x at h) in
        (
          ap some q,
          ap (λ (t : UploadEntry). t.caller_key) (sym q)
              ∙ (text_eq.same_iff f.caller_key caller).0 x,
        ))
  | inr x ↦ absurd (cc (rw x at h))
]

found_again :
    (s : UploadStore) (id caller : Text) (now : ℕ) (files : Map Text Bytes) (e : UploadEntry)
    → Unique s.entries
    → find_owned (prune_expired now s) id caller ≡ some e
    → find_owned (prune_expired now (record (prune_expired now s) { files = files })) id caller
      ≡ some e
unfolding find_owned
found_again s id caller now files e u h =
    let (found, mine) = owned-some caller (lookup id (prune_expired now s).entries) e h in
    let kept : keep_if (λ f. not (is_expired now f)) (some e) ≡ some e =
      still_kept now (lookup id s.entries) e (sym (lookup-prune now s id u) ∙ found) in
    let again =
      lookup-prune now (record (prune_expired now s) { files = files }) id (prune-Unique now s u) in
    ap (owned caller) (again ∙ ap (keep_if (λ f. not (is_expired now f))) found ∙ kept)
    ∙ rw (mine, ==_refl caller) refl

-- An upload that is found is gone once it is consumed, also where its file has been moved.
consume_gone :
    (s : UploadStore) (id caller : Text) (now : ℕ) (files : Map Text Bytes) (e : UploadEntry)
    → Unique s.entries
    → find_owned (prune_expired now s) id caller ≡ some e
    → lookup id (consume (record (prune_expired now s) { files = files }) id caller now).0.entries
      ≡ none
unfolding consume
consume_gone s id caller now files e u h =
    rw (found_again s id caller now files e u h) (lookup-remove_self id _)

module _ {D J : Type 0} (env : AssetEnv) (database : Database D) (journal : Journal J)
    (json : Json CommitOutput) (ctx : Context) where
  -- What a commit from `w` to `w'` with the hand-over `p` means
  pub record IsCommitted (w w' : World D J) (r : CommitRequest) (p : Pending) (now : ℕ)
      (out : CommitOutput) : Type 0 where
    pub usable : (resolve database w.registry ctx r.change_set now).1 ≡ ok p.set_id
    pub own :
        (get w.uploads (trim_space r.upload_id) (isolation_caller_key ctx) now).1 ≡ some p.entry
    pub complete : p.entry.received_bytes ≡ p.entry.size_bytes
    pub staged : lookup p.entry.staging_path (prune_expired now w.uploads).files ≡ some p.staged
    pub verified : IsVerified env database journal json ctx r.commit_sha256 p.entry p.staged
    pub joined : env.safe_join p.entry.slug p.entry.filename ≡ some p.dest
    pub was_free : lookup p.dest w.assets ≡ none
    pub stored : lookup p.dest w'.assets ≡ some p.staged
    pub reported : out.out_sha256 ≡ env.revision p.staged
    pub gone : lookup (trim_space r.upload_id) w'.uploads.entries ≡ none
    pub recorded :
        (earlier : List Mutation) × (at : ℕ) × (mutations_for database w'.registry p.set_id
          ≡ earlier ++ (mutation env database journal json ctx p at ∷ []))

  module _ (w w1 : World D J) (force : Bool) (r : CommitRequest) (b : Before) (now : ℕ)
      (p : Pending) where
    abbrev asked : CommitRequest
    asked = record r { dry_run = force || r.dry_run }

    checked :
        prepare env database journal json ctx w force r b now ≡ (w1, pending p)
        → WasChecked env database journal json ctx asked (trim_space r.upload_id) b now w p w1
    unfolding prepare
    checked h =
        subst
          (OnPending env database journal json ctx
            (WasChecked env database journal json ctx asked (trim_space r.upload_id) b now w))
          h
          (prepare_as-Checked env database journal json ctx asked (trim_space r.upload_id) b now w)

    module _ (known : prepare env database journal json ctx w force r b now ≡ (w1, pending p)) where
      c : WasChecked env database journal json ctx asked (trim_space r.upload_id) b now w p w1
      c = checked known

      pruned : c.staging ≡ prune_expired now w.uploads
      unfolding get
      pruned = sym (ap (λ (x : UploadStore × Option UploadEntry). x.0) c.own_upload)

      on_disk : lookup p.entry.staging_path (prune_expired now w.uploads).files ≡ some p.staged
      on_disk =
          subst
            (λ (e : UploadEntry).
              lookup e.staging_path (prune_expired now w.uploads).files ≡ some p.staged)
            (sym c.ready.handed.same_entry)
            (subst (λ (u : UploadStore). lookup c.upload.staging_path u.files ≡ some p.staged)
              pruned c.ready.on_disk)

      uploads_now : w1.uploads ≡ prune_expired now w.uploads
      uploads_now = c.ready.handed.uploads_stay ∙ pruned

      own_upload :
          (get w.uploads (trim_space r.upload_id) (isolation_caller_key ctx) now).1 ≡ some p.entry
      own_upload =
          ap (λ (x : UploadStore × Option UploadEntry). x.1) c.own_upload
          ∙ ap some (sym c.ready.handed.same_entry)

      consumed :
          (files : Map Text Bytes)
          → Unique w.uploads.entries
          → lookup
              (trim_space r.upload_id)
              (consume
                (record w1.uploads { files = files })
                (trim_space r.upload_id)
                (isolation_caller_key ctx)
                p.at).0.entries
            ≡ none
      consumed files u =
          subst
            (λ (at : ℕ).
              lookup (trim_space r.upload_id)
                (consume (record w1.uploads { files = files }) (trim_space r.upload_id)
                  (isolation_caller_key ctx) at).0.entries
              ≡ none)
            (sym c.ready.handed.taken_at)
            (subst
              (λ (s : UploadStore).
                lookup (trim_space r.upload_id)
                  (consume (record s { files = files }) (trim_space r.upload_id)
                    (isolation_caller_key ctx) now).0.entries
                ≡ none)
              (sym uploads_now)
              (consume_gone w.uploads (trim_space r.upload_id) (isolation_caller_key ctx) now files
                p.entry u (unfold get in own_upload)))

      same_staged :
          (bytes : Bytes)
          → lookup p.entry.staging_path w1.uploads.files ≡ some bytes
          → bytes ≡ p.staged
      same_staged bytes h =
          let there : lookup p.entry.staging_path w1.uploads.files ≡ some p.staged =
            subst (λ (s : UploadStore). lookup p.entry.staging_path s.files ≡ some p.staged)
              (sym uploads_now) on_disk in
          cc (h, there)

  -- A commit succeeds only for a complete upload of the caller, into a change set that the caller may
  -- use, whose staged bytes pass the checks of an asset and have the hashes that were declared. When
  -- it does, and no call comes between its two parts, the destination, which was free, holds the
  -- staged bytes, the upload is gone, and the mutation is on record for the change set; where each
  -- upload has one entry.
  pub commit_sound :
      (w w1 w2 : World D J) (force : Bool) (r : CommitRequest) (b : Before) (now : ℕ) (p : Pending)
      (l : Locked) (later : ℕ) (out : CommitOutput)
      → Unique w.uploads.entries
      → prepare env database journal json ctx w force r b now ≡ (w1, pending p)
      → finish env database journal json ctx w1 r p l later ≡ (w2, ok out)
      → IsCommitted w w2 r p now out
  commit_sound w w1 w2 force r b now p l later out u known done =
      let k : WasChecked env database journal json ctx (asked w w1 force r b now p)
          (trim_space r.upload_id) b now w p w1 =
        checked w w1 force r b now p known in
      let hand = k.ready.handed in
      let (bytes, disk, _, same, shown) : Writes env database journal json ctx r
          (trim_space r.upload_id) p l later w1 (w2, ok out) =
        subst (Writes env database journal json ctx r (trim_space r.upload_id) p l later w1) done
          (finish-Writes env database journal json ctx w1 r p l later) in
      let whole = same_staged w w1 force r b now p known bytes disk in
      record {
        usable =
            ap (λ (x : Registry D × Result ChangeError Text). x.1) k.allowed_set
            ∙ ap ok (sym hand.same_set);
        own = own_upload w w1 force r b now p known;
        complete =
            subst (λ (e : UploadEntry). e.received_bytes ≡ e.size_bytes) (sym hand.same_entry)
              k.ready.complete;
        staged = on_disk w w1 force r b now p known;
        verified =
            subst
              (λ (e : UploadEntry).
                IsVerified env database journal json ctx r.commit_sha256 e p.staged)
              (sym hand.same_entry) k.ready.verified;
        joined =
            subst (λ (e : UploadEntry). env.safe_join e.slug e.filename ≡ some p.dest)
              (sym hand.same_entry) hand.joined;
        was_free = hand.free;
        stored =
            ap (λ (t : World D J). lookup p.dest t.assets) same
            ∙ lookup-insert_self p.dest bytes w1.assets
            ∙ ap some whole;
        reported = ap (λ (o : CommitOutput). o.out_sha256) shown;
        gone =
            ap (λ (t : World D J). lookup (trim_space r.upload_id) t.uploads.entries) same
            ∙ consumed w w1 force r b now p known (remove p.entry.staging_path w1.uploads.files) u;
        recorded = (
          mutations_for database w1.registry p.set_id,
          later,
          ap (λ (t : World D J). mutations_for database t.registry p.set_id) same
              ∙ mutations_for-record_mutation database w1.registry
                  (mutation env database journal json ctx p later) p.set_id
              ∙ rw (==_refl p.set_id) refl,
        );
      }
