-- ===== src/Previews/Spent.antt =====
-- Sessions that are refused: of a preview in use, until it is registered again or reset.
use mathlib.Core.Path.{subst}
use mcp_hugo_server_go.Base.{
  All, ℕ, ◌≡◌, ◌≢◌, ◌⊎◌, refl, sym, inl, inr, true, not, ◌&&◌, List, [], ◌++◌, Option, none, some,
  Bool-cases,
}
use mcp_hugo_server_go.Base.Keys.{text_eq, ◌==◌}
use mcp_hugo_server_go.Base.Map.{Unique, lookup-insert_self, insert-Unique}
use mcp_hugo_server_go.Base.Text.{Text, codes, has_prefix, text_ne, text_beq_ne}
use mcp_hugo_server_go.Previews.{
  PreviewEntry, PreviewStore, LeaseDb, LookupStatus, missing, expired, active, establish_active,
  establish_session, activate,
}
use mcp_hugo_server_go.Previews.Serve.{
  serve, clean_path, path_asset, handle, find_session, reply_to, session_reply, path_id, path_token,
  unavailable, redirect, redirect_with_session, serve_files,
}
use mcp_hugo_server_go.Previews.Events.{Event, run, Leaves}
use mcp_hugo_server_go.Previews.Kept.{Lasting, Kept, Looked, lookup_preview-Looked}
use mcp_hugo_server_go.Previews.Steps.{find_session-Kept, run-Kept}
use mcp_hugo_server_go.Previews.Sessions.{either, handle_serves}

-- An entry with the property gets no session for a token that is not empty.
abbrev pub Refused : (PreviewEntry → Type 0) → Type 0
Refused P =
    (e : PreviewEntry) (token : Text)
    → token ≢ []
    → P e
    → (e.token ≢ token) ⊎ ((e.session_token ≢ []) × (e.session_activated ≡ true))

module _ {D : Type 0} (database : LeaseDb D) (P : PreviewEntry → Type 0) (lasting : Lasting P)
    (refused : Refused P) where
  pub establish_active_refused :
      (s : PreviewStore D) (id token : Text) (random : Option Text)
      (r : PreviewStore D × LookupStatus)
      → token ≢ []
      → Looked database P lasting id s id r
      → (establish_active database id token random r).1 ≡ none
  unfolding establish_active
  establish_active_refused s id token random (s', missing) t l = refl
  establish_active_refused s id token random (s', expired) t l = refl
  establish_active_refused s id token random (s', active e) t (k, on) =
      elim (refused e token t (k.1 e on)) [
        | inl other ↦ rw (text_beq_ne e.token token other) refl
        | inr (session, used) ↦ elim (Bool-cases (e.token == token)) [
          | inl x ↦ rw (x, text_beq_ne e.session_token [] session, used) refl
          | inr x ↦ rw x refl
        ]
      ]

  pub no_session :
      (path : Text) (r : PreviewStore D × Option (PreviewEntry × Text))
      → r.1 ≡ none
      → (session_reply database path r).1 ≡ unavailable
  unfolding session_reply
  no_session path (s, none) h = refl
  no_session path (s, some x) h = cc

  serve_redirects :
      (e : PreviewEntry) (id path target session : Text) (at : ℕ)
      → serve e id path ≢ redirect_with_session target session at
  serve_redirects e id path target session at h =
      elim (Bool-cases (has_prefix path (codes "/preview/" ++ id))) [
        | inl x ↦ cc (rw x at h)
        | inr x ↦ cc (rw x at h)
      ]

  reply_to_redirects :
      (s : PreviewStore D) (path target session : Text) (now at : ℕ) (random : Option Text)
      (r : PreviewStore D × Option PreviewEntry)
      → Kept database P lasting (path_id path) r.0
      → (reply_to database path now random r).1 ≢ redirect_with_session target session at
  unfolding reply_to establish_session
  reply_to_redirects s path target session now at random (s', none) k h =
      elim (Bool-cases (path_token path == [])) [
        | inl x ↦ cc (rw x at h)
        | inr x ↦ cc (
          no_session path
              (establish_session database s' (path_id path) (path_token path) now random)
              (establish_active_refused s' (path_id path) (path_token path) random _
                (text_ne (path_token path) [] x)
                (lookup_preview-Looked database P lasting (path_id path) s' (path_id path) now k)),
          rw x at h,
        )
      ]
  reply_to_redirects s path target session now at random (s', some f) k h =
      elim (either (not (path_token path == []) && (f.token == path_token path))
        (redirect (clean_path (path_id path) (path_asset path))) (serve f (path_id path) path)
        (redirect_with_session target session at) h) [
          | inl q ↦ cc q
          | inr q ↦ serve_redirects f (path_id path) path target session at q
        ]

  pub handle_redirects :
      (s : PreviewStore D) (path target session : Text) (cookie : Option Text) (now at : ℕ)
      (random : Option Text)
      → Kept database P lasting (path_id path) s
      → (handle database s path cookie now random).1 ≢ redirect_with_session target session at
  unfolding handle
  handle_redirects s path target session cookie now at random k h =
      elim (Bool-cases (path_id path == [])) [
        | inl x ↦ cc (rw x at h)
        | inr x ↦
            reply_to_redirects s path target session now at random
              (find_session database s (path_id path) cookie now)
              (find_session-Kept database P lasting (path_id path) s (path_id path) cookie now k)
              (rw x at h)
      ]

-- In use: the session exists and has fetched content.
abbrev pub IsSpent : PreviewEntry → Type 0
IsSpent e = (e.session_token ≢ []) × (e.session_activated ≡ true)

IsSpent-lasts : Lasting IsSpent
IsSpent-lasts = record {
  activated = λ e n p. (p.0, refl);
  minted = λ e fresh t empty p. absurd (p.0 empty);
}

module _ {D : Type 0} (database : LeaseDb D) where
  activate-Kept :
      (s : PreviewStore D) (id : Text) (e : PreviewEntry)
      → Unique s.entries
      → e.session_token ≢ []
      → Kept database IsSpent IsSpent-lasts id (activate database s id e)
  activate-Kept s id e u n = (
    insert-Unique id _ s.entries u,
    λ f h.
        let same : (record e { session_activated = true }) ≡ f =
          cc (lookup-insert_self id (record e { session_activated = true }) s.entries, h) in
        subst IsSpent same (n, refl),
  )

  -- Once files of a preview have been sent, no request gets a session of that preview any more, for
  -- any token, after any events that neither register the preview again nor reset its session.
  pub spent_link :
      (s : PreviewStore D) (path dir file : Text) (cookie : Option Text) (now : ℕ)
      (random : Option Text) (evs : List Event) (path' target session : Text)
      (cookie' : Option Text) (now' at : ℕ) (random' : Option Text)
      → Unique s.entries
      → (handle database s path cookie now random).1 ≡ serve_files dir file
      → All (Leaves (path_id path)) evs
      → path_id path' ≡ path_id path
      → (handle database
          (run database (handle database s path cookie now random).0 evs)
          path'
          cookie'
          now'
          random').1
        ≢ redirect_with_session target session at
  spent_link s path dir file cookie now random evs path' target session cookie' now' at random' u
        served leaves same =
      let (e, opens, _, state) = handle_serves database s path dir file cookie now random served in
      let start =
        subst (Kept database IsSpent IsSpent-lasts (path_id path)) (sym state)
          (activate-Kept s (path_id path) e u opens.1) in
      let kept =
        run-Kept database IsSpent IsSpent-lasts (path_id path)
          (handle database s path cookie now random).0 evs leaves start in
      handle_redirects database IsSpent IsSpent-lasts (λ e token n p. inr p)
        (run database (handle database s path cookie now random).0 evs) path' target session cookie'
        now' at random'
        (subst
          (λ id.
            Kept database IsSpent IsSpent-lasts id
              (run database (handle database s path cookie now random).0 evs))
          (sym same) kept)
