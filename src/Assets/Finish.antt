-- ===== src/Assets/Finish.antt =====
-- The second part of a commit: what it writes.
use mcp_hugo_server_go.Base.{
  ℕ, ◌≡◌, refl, ap, ◌∙◌, inl, inr, false, Option, none, some, Bool-cases, arith,
}
use mcp_hugo_server_go.Base.Keys.{text_eq}
use mcp_hugo_server_go.Base.Map.{Map, lookup, insert, lookup-insert}
use mcp_hugo_server_go.Base.Result.{Result, ok, err}
use mcp_hugo_server_go.Base.Text.{Text, trim_space, text_beq_iff}
use mcp_hugo_server_go.Caller.{Context}
use mcp_hugo_server_go.Upload.{Bytes}
use mcp_hugo_server_go.Changes.{Database}
use mcp_hugo_server_go.Idempotency.{Journal, Json}
use mcp_hugo_server_go.Assets.{AssetEnv, AssetError}
use mcp_hugo_server_go.Assets.Commit.{
  World, CommitRequest, CommitError, CommitOutput, Pending, Locked, check_free, output,
}
use mcp_hugo_server_go.Assets.Publish.{created, renamed, finish_free, finish_bundle, finish}
use mcp_hugo_server_go.Assets.Ready.{check_free-none}

insert_free :
    (k q : Text) (v a : Bytes) (m : Map Text Bytes)
    → lookup k m ≡ none
    → lookup q m ≡ some a
    → lookup q (insert k v m) ≡ some a
insert_free k q v a m free old = ground (arith, lookup-insert k q v m, text_beq_iff k q)

module _ {D J : Type 0} (env : AssetEnv) (database : Database D) (journal : Journal J)
    (json : Json CommitOutput) (ctx : Context) where
  module _ (r : CommitRequest) (id : Text) (p : Pending) (l : Locked) (later : ℕ) where
    -- An error writes no asset; a success found the destination free, and the staging file there.
    abbrev pub Writes : World D J → World D J × Result CommitError CommitOutput → Type 0
    Writes w (w', err x) = w'.assets ≡ w.assets
    Writes w (w', ok out) =
        (bytes : Bytes) × (lookup p.entry.staging_path w.uploads.files ≡ some bytes)
        × (lookup p.dest w.assets ≡ none)
        × (w' ≡ (created env database journal json ctx r id p l later w bytes).0)
        × (out ≡ output env p.entry p.staged l.found_duplicate false)

    renamed-Writes :
        (w : World D J) (o : Option Bytes)
        → lookup p.entry.staging_path w.uploads.files ≡ o
        → lookup p.dest w.assets ≡ none
        → Writes w (renamed env database journal json ctx r id p l later w o)
    renamed-Writes w none h free = refl
    renamed-Writes w (some bytes) h free = elim (Bool-cases l.rename_works) [
      | inl x ↦ rw x (bytes, h, free, refl, refl)
      | inr x ↦ rw x refl
    ]

    finish_free-Writes :
        (w : World D J) (o : Option CommitError)
        → (o ≡ none → lookup p.dest w.assets ≡ none)
        → Writes w (finish_free env database journal json ctx r id p l later w o)
    finish_free-Writes w (some x) free = refl
    finish_free-Writes w none free =
        renamed-Writes w (lookup p.entry.staging_path w.uploads.files) refl (free refl)

    pub finish_bundle-Writes :
        (w : World D J) (o : Option AssetError)
        → Writes w (finish_bundle env database journal json ctx r id p l later w o)
    finish_bundle-Writes w (some x) = refl
    finish_bundle-Writes w none = elim (Bool-cases (env.is_writable p.dest)) [
      | inl x ↦ rw x (
          finish_free-Writes w (check_free l.stat_works (lookup p.dest w.assets))
            (check_free-none env database journal json ctx l.stat_works (lookup p.dest w.assets)))
      | inr x ↦ rw x refl
    ]

    keeps :
        (w : World D J) (q : Text) (a : Bytes) (out : World D J × Result CommitError CommitOutput)
        → Writes w out
        → lookup q w.assets ≡ some a
        → lookup q out.0.assets ≡ some a
    keeps w q a (w', err x) h old = rw h old
    keeps w q a (w', ok out) (bytes, disk, free, same, _) old =
        ap (λ (t : World D J). lookup q t.assets) same
        ∙ insert_free p.dest q bytes a w.assets free old

  pub finish-Writes :
      (w : World D J) (r : CommitRequest) (p : Pending) (l : Locked) (later : ℕ)
      → Writes r
          (trim_space r.upload_id)
          p
          l
          later
          w
          (finish env database journal json ctx w r p l later)
  unfolding finish
  finish-Writes w r p l later = elim (Bool-cases l.locked) [
    | inl x ↦ rw x (
        finish_bundle-Writes r (trim_space r.upload_id) p l later w (env.bundle_error p.entry.slug))
    | inr x ↦ rw x refl
  ]

  -- A commit never overwrites: a file of a bundle that exists when the content lock is taken has the
  -- same bytes afterwards, whatever other calls came between the checks and the lock.
  pub commit_overwrites_nothing :
      (w : World D J) (r : CommitRequest) (p : Pending) (l : Locked) (later : ℕ) (q : Text)
      (a : Bytes)
      → lookup q w.assets ≡ some a
      → lookup q (finish env database journal json ctx w r p l later).0.assets ≡ some a
  commit_overwrites_nothing w r p l later q a old =
      keeps r (trim_space r.upload_id) p l later w q a _ (finish-Writes w r p l later) old
