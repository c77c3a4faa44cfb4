-- ===== src/Assets/Verified.antt =====
-- The chain of checks of the first part of a commit, up to the hand-over.
use mathlib.Core.Path.{subst}
use mcp_hugo_server_go.Base.{
  ℕ, ◌≡◌, refl, sym, ap, ◌∙◌, inl, inr, false, not, ◌&&◌, [], Option, none, some, nat_beq,
  Bool-cases, nat_beq_iff,
}
use mcp_hugo_server_go.Base.Keys.{text_eq, ◌==◌}
use mcp_hugo_server_go.Base.Map.{Map, lookup}
use mcp_hugo_server_go.Base.Result.{Result, ok, err}
use mcp_hugo_server_go.Base.Text.{Text}
use mcp_hugo_server_go.Caller.{Context}
use mcp_hugo_server_go.Upload.{Bytes, UploadEntry, UploadStore, get}
use mcp_hugo_server_go.Changes.{Registry, Database, ChangeError, resolve}
use mcp_hugo_server_go.Idempotency.{KeyError, Journal, Json, validate_key}
use mcp_hugo_server_go.Assets.{
  AssetEnv, AssetError, validate_asset_bytes, validate_expected_sha256, isolation_caller_key,
}
use mcp_hugo_server_go.Assets.Commit.{
  World, CommitRequest, CommitOutput, Pending, Prepared, failed, answered, pending, Before,
  is_other, check_commit_sha256, check_bytes, check_staged, check_entry, found_upload, resolved,
  check_key, prepare_as,
}
use mcp_hugo_server_go.Assets.Ready.{
  IsHanded, IsVerified, OnPending, Free, prepare_checked-Free, readable-some,
}

module _ {D J : Type 0} (env : AssetEnv) (database : Database D) (journal : Journal J)
    (json : Json CommitOutput) (ctx : Context) where
  module _ (r : CommitRequest) (id : Text) (b : Before) (now : ℕ) where
    -- What is known of the entry, its bytes and the world, where there is a hand-over
    pub record IsReady (before : Map Text Bytes) (staging : UploadStore) (cs : Text)
        (e : UploadEntry) (p : Pending) (w' : World D J) : Type 0 where
      pub complete : e.received_bytes ≡ e.size_bytes
      pub wet : r.dry_run ≡ false
      pub on_disk : lookup e.staging_path staging.files ≡ some p.staged
      pub verified : IsVerified env database journal json ctx r.commit_sha256 e p.staged
      pub handed : IsHanded env database journal json ctx now before staging cs e p.staged p w'

    Known : World D J → Text → UploadEntry → Bytes → Pending → World D J → Type 0
    Known w cs e bytes p w' =
        (p.staged ≡ bytes)
        × (r.dry_run ≡ false)
        × IsVerified env database journal json ctx r.commit_sha256 e p.staged
        × IsHanded env database journal json ctx now w.assets w.uploads cs e p.staged p w'

    Known-of :
        (w : World D J) (cs : Text) (e : UploadEntry) (bytes : Bytes) (out : World D J × Prepared)
        → IsVerified env database journal json ctx r.commit_sha256 e bytes
        → OnPending env database journal json ctx
            (Free env database journal json ctx r id b now w cs e bytes)
            out
        → OnPending env database journal json ctx (Known w cs e bytes) out
    unfolding Known
    Known-of w cs e bytes (w', failed x) v h = tt
    Known-of w cs e bytes (w', answered x) v h = tt
    Known-of w cs e bytes (w', pending p) v (wet, h) =
        subst
          (λ t.
            (p.staged ≡ bytes)
            × (r.dry_run ≡ false)
            × IsVerified env database journal json ctx r.commit_sha256 e t
            × IsHanded env database journal json ctx now w.assets w.uploads cs e t p w')
          (sym h.same_bytes) (h.same_bytes, wet, v, h)

    check_commit-Known :
        (w : World D J) (cs : Text) (e : UploadEntry) (bytes : Bytes)
        → validate_asset_bytes env bytes e.ext e.want_mime ≡ none
        → is_other env database journal json ctx e.expected_sha256 (env.revision bytes) ≡ false
        → (x : Result AssetError Text) → validate_expected_sha256 r.commit_sha256 ≡ x
        → OnPending env database journal json ctx
            (Known w cs e bytes)
            (check_commit_sha256 env database journal json ctx r id b now w cs e bytes x)
    check_commit-Known w cs e bytes valid begun (err x) v = tt
    check_commit-Known w cs e bytes valid begun (ok asked) v =
        elim (Bool-cases (is_other env database journal json ctx asked (env.revision bytes))) [
          | inl x ↦ rw x tt
          | inr x ↦ rw x (
              Known-of w cs e bytes _
                (record {
                  valid = valid;
                  as_begun = begun;
                  asked = asked;
                  asked_valid = v;
                  as_asked = x;
                })
                (prepare_checked-Free env database journal json ctx r id b now w cs e bytes))
        ]

    check_bytes-Known :
        (w : World D J) (cs : Text) (e : UploadEntry) (bytes : Bytes) (o : Option AssetError)
        → validate_asset_bytes env bytes e.ext e.want_mime ≡ o
        → OnPending env database journal json ctx
            (Known w cs e bytes)
            (check_bytes env database journal json ctx r id b now w cs e bytes o)
    check_bytes-Known w cs e bytes (some x) v = tt
    check_bytes-Known w cs e bytes none v =
        elim (Bool-cases
          (is_other env database journal json ctx e.expected_sha256 (env.revision bytes))) [
            | inl x ↦ rw x tt
            | inr x ↦ rw x (check_commit-Known w cs e bytes v x _ refl)
          ]

    abbrev Ready : World D J → Text → UploadEntry → Pending → World D J → Type 0
    Ready w cs e = IsReady w.assets w.uploads cs e

    Ready-of :
        (w : World D J) (cs : Text) (e : UploadEntry) (bytes : Bytes) (out : World D J × Prepared)
        → e.received_bytes ≡ e.size_bytes
        → lookup e.staging_path w.uploads.files ≡ some bytes
        → OnPending env database journal json ctx (Known w cs e bytes) out
        → OnPending env database journal json ctx (Ready w cs e) out
    unfolding Known
    Ready-of w cs e bytes (w', failed x) full disk h = tt
    Ready-of w cs e bytes (w', answered x) full disk h = tt
    Ready-of w cs e bytes (w', pending p) full disk (same, wet, v, h) = record {
      complete = full;
      wet = wet;
      on_disk = disk ∙ ap some (sym same);
      verified = v;
      handed = h;
    }

    check_staged-Ready :
        (w : World D J) (cs : Text) (e : UploadEntry) (o : Option Bytes)
        → e.received_bytes ≡ e.size_bytes
        → ((bytes : Bytes) → o ≡ some bytes → lookup e.staging_path w.uploads.files ≡ some bytes)
        → OnPending env database journal json ctx
            (Ready w cs e)
            (check_staged env database journal json ctx r id b now w cs e o)
    check_staged-Ready w cs e none full disk = tt
    check_staged-Ready w cs e (some bytes) full disk =
        Ready-of w cs e bytes _ full (disk bytes refl) (check_bytes-Known w cs e bytes _ refl)

    check_entry-Ready :
        (w : World D J) (cs : Text) (e : UploadEntry)
        → OnPending env database journal json ctx
            (Ready w cs e)
            (check_entry env database journal json ctx r id b now w cs e)
    unfolding check_entry
    check_entry-Ready w cs e = elim (Bool-cases (nat_beq e.received_bytes e.size_bytes)) [
      | inr x ↦ rw x tt
      | inl x ↦ elim (Bool-cases (not r.dry_run && not b.allowed)) [
        | inl y ↦ rw (x, y) tt
        | inr y ↦
            rw (x, y)
              (check_staged-Ready w cs e _ ((nat_beq_iff e.received_bytes e.size_bytes).0 x) (
                readable-some env database journal json ctx b.can_read
                  (lookup e.staging_path w.uploads.files)))
      ]
    ]

    -- The change set, the upload and what was checked of them
    pub record WasChecked (w : World D J) (p : Pending) (w' : World D J) : Type 0 where
      pub set : Text
      pub new_registry : Registry D
      pub allowed_set : resolve database w.registry ctx r.change_set now ≡ (new_registry, ok set)
      pub upload : UploadEntry
      pub staging : UploadStore
      pub own_upload : get w.uploads id (isolation_caller_key ctx) now ≡ (staging, some upload)
      pub ready : IsReady w.assets staging set upload p w'

    checked_of :
        (w : World D J) (g : Registry D) (cs : Text) (u : UploadStore) (e : UploadEntry)
        (out : World D J × Prepared)
        → resolve database w.registry ctx r.change_set now ≡ (g, ok cs)
        → get w.uploads id (isolation_caller_key ctx) now ≡ (u, some e)
        → OnPending env database journal json ctx (IsReady w.assets u cs e) out
        → OnPending env database journal json ctx (WasChecked w) out
    checked_of w g cs u e (w', failed x) rs gt h = tt
    checked_of w g cs u e (w', answered x) rs gt h = tt
    checked_of w g cs u e (w', pending p) rs gt h = record {
      set = cs;
      new_registry = g;
      allowed_set = rs;
      upload = e;
      staging = u;
      own_upload = gt;
      ready = h;
    }

    found_upload-Checked :
        (w : World D J) (g : Registry D) (cs : Text) (x : UploadStore × Option UploadEntry)
        → resolve database w.registry ctx r.change_set now ≡ (g, ok cs)
        → get w.uploads id (isolation_caller_key ctx) now ≡ x
        → OnPending env database journal json ctx
            (WasChecked w)
            (found_upload env database journal json ctx r id b now (record w { registry = g }) cs x)
    found_upload-Checked w g cs (u, none) rs gt = tt
    found_upload-Checked w g cs (u, some e) rs gt =
        checked_of w g cs u e _ rs gt
          (check_entry-Ready (record w { registry = g; uploads = u }) cs e)

    resolved-Checked :
        (w : World D J) (x : Registry D × Result ChangeError Text)
        → resolve database w.registry ctx r.change_set now ≡ x
        → OnPending env database journal json ctx
            (WasChecked w)
            (resolved env database journal json ctx r id b now w x)
    resolved-Checked w (g, err x) rs = tt
    resolved-Checked w (g, ok cs) rs = found_upload-Checked w g cs _ rs refl

    check_key-Checked :
        (w : World D J) (o : Option KeyError)
        → OnPending env database journal json ctx
            (WasChecked w)
            (check_key env database journal json ctx r id b now w o)
    check_key-Checked w (some x) = tt
    check_key-Checked w none = resolved-Checked w _ refl

    pub prepare_as-Checked :
        (w : World D J)
        → OnPending env database journal json ctx
            (WasChecked w)
            (prepare_as env database journal json ctx r id b now w)
    unfolding prepare_as
    prepare_as-Checked w = elim (Bool-cases (id == [])) [
      | inl x ↦ rw x tt
      | inr x ↦ rw x (check_key-Checked w (validate_key r.idempotency_key))
    ]
