-- ===== src/Assets/Retry.antt =====
-- A commit that is sent again.
use mathlib.Core.Path.{subst}
use mcp_hugo_server_go.Base.{
  ℕ, ◌≡◌, refl, sym, ap, inl, inr, Bool, ◌||◌, [], Option, none, some, Bool-cases,
}
use mcp_hugo_server_go.Base.Keys.{text_eq, ◌==◌}
use mcp_hugo_server_go.Base.Map.{lookup, Unique, lookup-keep_absent}
use mcp_hugo_server_go.Base.Result.{Result, ok, err}
use mcp_hugo_server_go.Base.Text.{Text, trim_space}
use mcp_hugo_server_go.Caller.{Context}
use mcp_hugo_server_go.Upload.{UploadStore, UploadEntry, get, prune_expired, find_owned, owned}
use mcp_hugo_server_go.Changes.{Registry, Database, ChangeError}
use mcp_hugo_server_go.Idempotency.{KeyError, Journal, Json, validate_key}
use mcp_hugo_server_go.Assets.{AssetEnv, isolation_caller_key}
use mcp_hugo_server_go.Assets.Commit.{
  World, CommitRequest, CommitError, CommitOutput, Pending, Prepared, failed, answered, pending,
  Before, Locked, prepare, prepare_as, check_key, resolved, found_upload,
}
use mcp_hugo_server_go.Assets.Publish.{finish}
use mcp_hugo_server_go.Assets.Committed.{commit_sound}

prune-absent :
    (now : ℕ) (s : UploadStore) (id : Text)
    → lookup id s.entries ≡ none
    → lookup id (prune_expired now s).entries ≡ none
unfolding prune_expired
prune-absent now s id h = lookup-keep_absent _ id s.entries h

get-absent :
    (s : UploadStore) (id caller : Text) (now : ℕ)
    → lookup id s.entries ≡ none
    → (get s id caller now).1 ≡ none
unfolding get find_owned
get-absent s id caller now h = ap (owned caller) (prune-absent now s id h)

module _ {D J : Type 0} (env : AssetEnv) (database : Database D) (journal : Journal J)
    (json : Json CommitOutput) (ctx : Context) where
  abbrev Fails : World D J × Prepared → Type 0
  Fails (w, failed x) = Unit
  Fails (w, answered out) = ⊥
  Fails (w, pending p) = ⊥

  module _ (r : CommitRequest) (id : Text) (b : Before) (now : ℕ) where
    found-Fails :
        (w : World D J) (cs : Text) (x : UploadStore × Option UploadEntry)
        → x.1 ≡ none
        → Fails (found_upload env database journal json ctx r id b now w cs x)
    found-Fails w cs (s, none) h = tt
    found-Fails w cs (s, some e) h = absurd (cc h)

    resolved-Fails :
        (w : World D J) (x : Registry D × Result ChangeError Text)
        → lookup id w.uploads.entries ≡ none
        → Fails (resolved env database journal json ctx r id b now w x)
    resolved-Fails w (g, err x) h = tt
    resolved-Fails w (g, ok cs) h =
        found-Fails (record w { registry = g }) cs _
          (get-absent w.uploads id (isolation_caller_key ctx) now h)

    key-Fails :
        (w : World D J) (o : Option KeyError)
        → lookup id w.uploads.entries ≡ none
        → Fails (check_key env database journal json ctx r id b now w o)
    key-Fails w (some x) h = tt
    key-Fails w none h = resolved-Fails w _ h

    prepare_as-Fails :
        (w : World D J)
        → lookup id w.uploads.entries ≡ none
        → Fails (prepare_as env database journal json ctx r id b now w)
    unfolding prepare_as
    prepare_as-Fails w h = elim (Bool-cases (id == [])) [
      | inl x ↦ rw x tt
      | inr x ↦ rw x (key-Fails w (validate_key r.idempotency_key) h)
    ]

  failure : (out : World D J × Prepared) → Fails out → (e : CommitError) × (out.1 ≡ failed e)
  failure (w, failed x) h = (x, refl)
  failure (w, answered x) h = absurd h
  failure (w, pending x) h = absurd h

  -- After a commit that succeeded without a call between its two parts, a commit of the same upload
  -- fails, whatever its idempotency key is: the result that was remembered under the key is never
  -- answered; where each upload has one entry.
  pub commit_retry_fails :
      (w w1 w2 : World D J) (force : Bool) (r : CommitRequest) (b : Before) (now : ℕ) (p : Pending)
      (l : Locked) (later : ℕ) (out : CommitOutput) (again : CommitRequest) (b' : Before) (at : ℕ)
      → Unique w.uploads.entries
      → prepare env database journal json ctx w force r b now ≡ (w1, pending p)
      → finish env database journal json ctx w1 r p l later ≡ (w2, ok out)
      → trim_space again.upload_id ≡ trim_space r.upload_id
      → (e : CommitError) × ((prepare env database journal json ctx w2 force again b' at).1
          ≡ failed e)
  unfolding prepare
  commit_retry_fails w w1 w2 force r b now p l later out again b' at u known done same =
      let k =
        commit_sound env database journal json ctx w w1 w2 force r b now p l later out u known
          done in
      failure (prepare env database journal json ctx w2 force again b' at) (
        prepare_as-Fails (record again { dry_run = force || again.dry_run })
          (trim_space again.upload_id) b' at w2
          (subst (λ (id : Text). lookup id w2.uploads.entries ≡ none) (sym same) k.gone))
