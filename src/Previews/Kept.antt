-- ===== src/Previews/Kept.antt =====
-- What the operations keep of an entry.
use mathlib.Core.Path.{subst}
use mcp_hugo_server_go.Base.{
  ℕ, ◌≡◌, ◌≢◌, ◌⊎◌, refl, sym, ◌∙◌, inl, inr, Bool, true, false, [], Option, none, some, arith,
  Bool-cases, if◌then◌else◌,
}
use mcp_hugo_server_go.Base.Keys.{text_eq, ◌==◌}
use mcp_hugo_server_go.Base.Map.{
  Map, lookup, insert, remove, keep, lookup-insert, lookup-remove, lookup-keep, Unique,
  insert-Unique, remove-Unique, keep-Unique, keep_if,
}
use mcp_hugo_server_go.Base.Text.{Text}
use mcp_hugo_server_go.Previews.{
  PreviewEntry, PreviewStore, LeaseDb, LookupStatus, missing, expired, active, lookup_preview,
  find_active, remove_expired, delete_lease, expire_with, is_expired, by_session, establish_active,
  mint,
}

-- A map of entries in which the entry of the id, if there is one, has the property
abbrev pub Holds : (PreviewEntry → Type 0) → Text → Map Text PreviewEntry → Type 0
Holds P id m = Unique m × ((e : PreviewEntry) → lookup id m ≡ some e → P e)

-- What an `if` in a lookup says
written :
    (b : Bool) (new e : PreviewEntry) (o : Option PreviewEntry)
    → (if b then some new else o) ≡ some e
    → ((b ≡ true) × (new ≡ e)) ⊎ (o ≡ some e)
written true new e o h = inl (refl, cc)
written false new e o h = inr h

unwritten :
    (b : Bool) (e : PreviewEntry) (o : Option PreviewEntry)
    → (if b then none else o) ≡ some e
    → o ≡ some e
unwritten true e o h = cc
unwritten false e o h = h

module _ (P : PreviewEntry → Type 0) (id : Text) where
  -- A write at the id writes an entry with the property.
  pub insert-Holds :
      (j : Text) (e : PreviewEntry) (m : Map Text PreviewEntry)
      → (j ≡ id → P e)
      → Holds P id m
      → Holds P id (insert j e m)
  insert-Holds j e m new (u, old) = (
    insert-Unique j e m u,
    λ f h. elim (written (j == id) e f (lookup id m) (sym (lookup-insert j id e m) ∙ h)) [
      | inl (same, q) ↦ subst P q (new ((text_eq.same_iff j id).0 same))
      | inr q ↦ old f q
    ],
  )

  pub remove-Holds : (j : Text) (m : Map Text PreviewEntry) → Holds P id m → Holds P id (remove j m)
  remove-Holds j m (u, old) = (
    remove-Unique j m u,
    λ f h. old f (unwritten (j == id) f (lookup id m) (sym (lookup-remove j id m) ∙ h)),
  )

  kept_from :
      (p : PreviewEntry → Bool) (o : Option PreviewEntry) (e : PreviewEntry)
      → keep_if p o ≡ some e
      → o ≡ some e
  kept_from p none e h = cc
  kept_from p (some f) e h = ground arith

  pub keep-Holds :
      (p : Text → PreviewEntry → Bool) (m : Map Text PreviewEntry)
      → Holds P id m
      → Holds P id (keep p m)
  keep-Holds p m (u, old) = (
    keep-Unique p m u,
    λ f h. old f (kept_from (p id) (lookup id m) f (sym (lookup-keep p id m u) ∙ h)),
  )

-- The property of an entry that is found
pub found-Holds :
    (P : PreviewEntry → Type 0) (id j : Text) (e : PreviewEntry) (m : Map Text PreviewEntry)
    → Holds P id m
    → lookup j m ≡ some e
    → j ≡ id
    → P e
found-Holds P id j e m (u, old) h same = old e (subst (λ i. lookup i m ≡ some e) same h)

-- The conditions under which the property lasts: an activation by a session that is not empty, and a
-- session that is made for a token that is not empty.
pub record Lasting (P : PreviewEntry → Type 0) : Type 0 where
  pub activated :
      (e : PreviewEntry) → e.session_token ≢ [] → P e → P (record e { session_activated = true })
  pub minted :
      (e : PreviewEntry) (fresh : Text)
      → e.token ≢ []
      → e.session_token ≡ []
      → P e
      → P (record e { session_token = fresh })

module _ {D : Type 0} (database : LeaseDb D) (P : PreviewEntry → Type 0) (lasting : Lasting P)
    (id : Text) where
  abbrev pub Kept : PreviewStore D → Type 0
  Kept s = Holds P id s.entries

  expire_with-Kept :
      (s : PreviewStore D) (j : Text) (e : PreviewEntry) (db : Option (Option D))
      → Kept s
      → Kept (expire_with database s j e db)
  expire_with-Kept s j e none h = h
  expire_with-Kept s j e (some db) h = remove-Holds P id j s.entries h

  pub remove_expired-Kept :
      (s : PreviewStore D) (j : Text) (e : PreviewEntry)
      → Kept s
      → Kept (remove_expired database s j e)
  unfolding remove_expired
  remove_expired-Kept s j e h = expire_with-Kept s j e (delete_lease database s.state_db j) h

  -- A lookup keeps the property, and it finds an entry of the map.
  abbrev pub Looked : PreviewStore D → Text → PreviewStore D × LookupStatus → Type 0
  Looked s j (s', missing) = Kept s'
  Looked s j (s', expired) = Kept s'
  Looked s j (s', active e) = Kept s' × (lookup j s'.entries ≡ some e)

  pub find_active-Looked :
      (s : PreviewStore D) (j : Text) (now : ℕ) (o : Option PreviewEntry)
      → lookup j s.entries ≡ o
      → Kept s
      → Looked s j (find_active database s j now o)
  unfolding find_active
  find_active-Looked s j now none h k = k
  find_active-Looked s j now (some e) h k = elim (Bool-cases (is_expired now e)) [
    | inl x ↦ rw x (remove_expired-Kept s j e k)
    | inr x ↦ rw x (k, h)
  ]

  pub lookup_preview-Looked :
      (s : PreviewStore D) (j : Text) (now : ℕ)
      → Kept s
      → Looked s j (lookup_preview database s j now)
  unfolding lookup_preview
  lookup_preview-Looked s j now k = find_active-Looked s j now (lookup j s.entries) refl k

  pub by_session-Kept :
      (s : PreviewStore D) (j session : Text) (r : PreviewStore D × LookupStatus)
      → session ≢ []
      → Looked s j r
      → Kept (by_session database j session r).0
  unfolding by_session
  by_session-Kept s j session (s', missing) n h = h
  by_session-Kept s j session (s', expired) n h = h
  by_session-Kept s j session (s', active e) n (k, on) =
      elim (Bool-cases (e.session_token == session)) [
        | inl x ↦ rw x (
            insert-Holds P id j _ s'.entries
              (λ same.
                lasting.activated e
                  (λ empty. n (sym ((text_eq.same_iff e.session_token session).0 x) ∙ empty))
                  (found-Holds P id j e s'.entries k on same))
              k)
        | inr x ↦ rw x k
      ]

  mint-Kept :
      (s : PreviewStore D) (j : Text) (e : PreviewEntry) (random : Option Text)
      → e.token ≢ []
      → e.session_token ≡ []
      → Kept s
      → lookup j s.entries ≡ some e
      → Kept (mint database s j e random).0
  mint-Kept s j e none t n k on = k
  mint-Kept s j e (some fresh) t n k on =
      insert-Holds P id j _ s.entries
        (λ same. lasting.minted e fresh t n (found-Holds P id j e s.entries k on same)) k

  pub establish_active-Kept :
      (s : PreviewStore D) (j token : Text) (random : Option Text)
      (r : PreviewStore D × LookupStatus)
      → token ≢ []
      → Looked s j r
      → Kept (establish_active database j token random r).0
  unfolding establish_active
  establish_active-Kept s j token random (s', missing) t h = h
  establish_active-Kept s j token random (s', expired) t h = h
  establish_active-Kept s j token random (s', active e) t (k, on) =
      elim (Bool-cases (e.token == token)) [
        | inr x ↦ rw x k
        | inl x ↦ elim (Bool-cases (e.session_token == [])) [
          | inl y ↦
              rw (x, y)
                (mint-Kept s' j e random
                  (λ empty. t (sym ((text_eq.same_iff e.token token).0 x) ∙ empty))
                  ((text_eq.same_iff e.session_token []).0 y) k on)
          | inr y ↦ elim (Bool-cases e.session_activated) [
            | inl z ↦ rw (x, y, z) k
            | inr z ↦ rw (x, y, z) k
          ]
        ]
      ]
