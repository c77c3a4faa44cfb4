-- ===== src/Previews/Sessions.antt =====
-- Who is served the files of a preview, and that the link of a preview in use is spent.
use mcp_hugo_server_go.Base.{
  ℕ, ◌≡◌, ◌≢◌, ◌⊎◌, refl, sym, ap, ◌∙◌, inl, inr, Bool, true, false, not, ◌&&◌, [], ◌++◌, Option,
  none, some, Bool-cases, if◌then◌else◌,
}
use mcp_hugo_server_go.Base.Keys.{text_eq, ◌==◌}
use mcp_hugo_server_go.Base.Map.{lookup}
use mcp_hugo_server_go.Base.Text.{Text, codes, trim_space, has_prefix}
use mcp_hugo_server_go.Previews.{
  PreviewEntry, PreviewStore, LeaseDb, find_active, lookup_preview, is_expired, by_session,
  get_by_session, activate,
}
use mcp_hugo_server_go.Previews.Serve.{
  clean_path, path_asset, serve, handle, find_session, reply_to, session_reply, path_id, path_token,
  redirect, serve_files,
}
use mcp_hugo_server_go.Previews.Steps.{not_blank}

pub either : {A : Type 0} (b : Bool) (x y z : A) → (if b then x else y) ≡ z → (x ≡ z) ⊎ (y ≡ z)
either true x y z h = inl h
either false x y z h = inr h

module _ {D : Type 0} (database : LeaseDb D) where
  -- The entry that a cookie opens
  abbrev pub Opens : PreviewStore D → Text → Option Text → ℕ → PreviewEntry → Type 0
  Opens s id cookie now e =
      (cookie ≡ some e.session_token)
      × (e.session_token ≢ [])
      × (lookup id s.entries ≡ some e)
      × (is_expired now e ≡ false)

  -- What is found is an entry that the cookie opens, and it is marked.
  abbrev pub SessionFound :
      PreviewStore D → Text → Option Text → ℕ → PreviewStore D × Option PreviewEntry → Type 0
  SessionFound s id cookie now (s', none) = Unit
  SessionFound s id cookie now (s', some f) =
      (e : PreviewEntry) × Opens s id cookie now e
      × (f ≡ record e { session_activated = true })
      × (s' ≡ activate database s id e)

  by_session-SessionFound :
      (s : PreviewStore D) (id c : Text) (now : ℕ) (o : Option PreviewEntry)
      → c ≢ []
      → lookup id s.entries ≡ o
      → SessionFound s id (some c) now (by_session database id c (find_active database s id now o))
  unfolding by_session find_active
  by_session-SessionFound s id c now none n h = tt
  by_session-SessionFound s id c now (some e) n h = elim (Bool-cases (is_expired now e)) [
    | inl x ↦ rw x tt
    | inr x ↦ elim (Bool-cases (e.session_token == c)) [
      | inr y ↦ rw (x, y) tt
      | inl y ↦
          let same = (text_eq.same_iff e.session_token c).0 y in
          rw (x, y) (e, (ap some (sym same), λ empty. n (sym same ∙ empty), h, x), refl, refl)
    ]
  ]

  pub find_session-SessionFound :
      (s : PreviewStore D) (id : Text) (cookie : Option Text) (now : ℕ)
      → SessionFound s id cookie now (find_session database s id cookie now)
  unfolding find_session get_by_session lookup_preview
  find_session-SessionFound s id none now = tt
  find_session-SessionFound s id (some c) now = elim (Bool-cases (trim_space c == [])) [
    | inl x ↦ rw x tt
    | inr x ↦ rw x (by_session-SessionFound s id c now (lookup id s.entries) (not_blank c x) refl)
  ]

  -- The files that are served belong to the entry that the cookie opens.
  abbrev pub ServedTo : PreviewStore D → Text → Option Text → ℕ → Text → PreviewStore D → Type 0
  ServedTo s id cookie now dir s' =
      (e : PreviewEntry) × Opens s id cookie now e × (dir ≡ e.dir) × (s' ≡ activate database s id e)

  serve-dir :
      (e : PreviewEntry) (id path dir file : Text)
      → serve e id path ≡ serve_files dir file
      → dir ≡ e.dir
  serve-dir e id path dir file h = elim (Bool-cases (has_prefix path (codes "/preview/" ++ id))) [
    | inl x ↦ cc (rw x at h)
    | inr x ↦ cc (rw x at h)
  ]

  session_reply_serves :
      (path dir file : Text) (r : PreviewStore D × Option (PreviewEntry × Text))
      → (session_reply database path r).1 ≢ serve_files dir file
  unfolding session_reply
  session_reply_serves path dir file (s, none) h = cc
  session_reply_serves path dir file (s, some (e, session)) h = cc

  reply_to_serves :
      (s : PreviewStore D) (id path dir file : Text) (cookie : Option Text) (now : ℕ)
      (random : Option Text) (r : PreviewStore D × Option PreviewEntry)
      → SessionFound s id cookie now r
      → (reply_to database path now random r).1 ≡ serve_files dir file
      → ServedTo s id cookie now dir (reply_to database path now random r).0
  unfolding reply_to
  reply_to_serves s id path dir file cookie now random (s', none) found h =
      elim (Bool-cases (path_token path == [])) [
        | inl x ↦ absurd (cc (rw x at h))
        | inr x ↦ absurd (session_reply_serves path dir file _ (rw x at h))
      ]
  reply_to_serves s id path dir file cookie now random (s', some f) (e, opens, same, state) h =
      elim (either (not (path_token path == []) && (f.token == path_token path))
        (redirect (clean_path (path_id path) (path_asset path))) (serve f (path_id path) path)
        (serve_files dir file) h) [
          | inl q ↦ absurd (cc q)
          | inr q ↦
              (e, opens, serve-dir f (path_id path) path dir file q ∙ ap (λ g. g.dir) same, state)
        ]

  -- Files of a preview are sent only to a request whose cookie is the session of the entry that the
  -- path names, while that entry has not expired; they are the files of the entry's own directory,
  -- and the entry is marked as in use.
  pub handle_serves :
      (s : PreviewStore D) (path dir file : Text) (cookie : Option Text) (now : ℕ)
      (random : Option Text)
      → (handle database s path cookie now random).1 ≡ serve_files dir file
      → ServedTo s (path_id path) cookie now dir (handle database s path cookie now random).0
  unfolding handle
  handle_serves s path dir file cookie now random h = elim (Bool-cases (path_id path == [])) [
    | inl x ↦ absurd (cc (rw x at h))
    | inr x ↦ rw x (
        reply_to_serves s (path_id path) path dir file cookie now random _
          (find_session-SessionFound s (path_id path) cookie now) (rw x at h))
  ]
