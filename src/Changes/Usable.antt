-- ===== src/Changes/Usable.antt =====
-- Who may use a change set, and who is refused.
use mcp_hugo_server_go.Base.{
  ℕ, ◌≡◌, ◌≢◌, refl, sym, ap, ◌⊎◌, inl, inr, false, [], ◌∙◌, Option, none, some, arith, Bool-cases,
  Option-cases, if◌then◌else◌,
}
use mcp_hugo_server_go.Base.Keys.{text_eq, ◌==◌}
use mcp_hugo_server_go.Base.Map.{lookup, lookup-insert_self}
use mcp_hugo_server_go.Base.Result.{Result, ok, err}
use mcp_hugo_server_go.Base.Text.{Text, text_beq, text_beq_ne, text_ne}
use mcp_hugo_server_go.Caller.{Context, mutation_key}
use mcp_hugo_server_go.Changes.{
  from_database, Owner, ChangeError, not_usable, Database, Registry, new_id, create, fresh_owner,
  find_owner, owned_by, check_ownership, resolve, resolve_checked, peek,
}
use mcp_hugo_server_go.Changes.Owners.{Owned, Run, Run-Owned, find_owner_known, find_owner_missing}

module _ {D : Type 0} (database : Database D) where
  check_known :
      (r : Registry D) (ctx : Context) (k : Text) (o : Owner)
      → text_beq k [] ≡ false
      → lookup k r.owners ≡ some o
      → check_ownership database r ctx k ≡ (r, owned_by database (mutation_key ctx) k (some o))
  unfolding check_ownership
  check_known r ctx k o some_id l = rw (some_id, find_owner_known database r k o l)

  resolve_checked_result :
      (k : Text) (now : ℕ) (q : Registry D × Result ChangeError Text)
      → (resolve_checked database k now q).1 ≡ q.1
  resolve_checked_result k now (r, err e) = refl
  resolve_checked_result k now (r, ok out) = ground arith

  from_none :
      (r : Registry D) (k : Text) (db : Option D)
      → db ≡ none
      → from_database database r k db ≡ (r, ok none)
  from_none r k none e = refl
  from_none r k (some d) e = cc

  find_owner_unsaved :
      (r : Registry D) (k : Text)
      → r.persistent ≡ none
      → find_owner database r k ≡ (r, ok (lookup k r.owners))
  find_owner_unsaved r k no_db = elim (Option-cases (lookup k r.owners)) [
    | inr (o, l) ↦ find_owner_known database r k o l ∙ ap (λ x. (r, ok x)) (sym l)
    | inl l ↦
        find_owner_missing database r k l
        ∙ from_none r k r.persistent no_db
        ∙ ap (λ x. (r, ok x)) (sym l)
  ]

  check_unchanged :
      (r : Registry D) (ctx : Context) (k : Text)
      → (r.persistent ≡ none) ⊎ (lookup k r.owners ≢ none)
      → (check_ownership database r ctx k).0 ≡ r
  unfolding check_ownership
  check_unchanged r ctx k h = elim (Bool-cases (text_beq k [])) [
    | inl blank ↦ rw blank
    | inr more ↦ elim (Option-cases (lookup k r.owners)) [
      | inr (o, l) ↦ rw (more, find_owner_known database r k o l)
      | inl l ↦ elim h [
        | inl no_db ↦ rw (more, find_owner_unsaved r k no_db)
        | inr known ↦ absurd (known l)
      ]
    ]
  ]

  resolve_refused :
      (r : Registry D) (ctx : Context) (k : Text) (now : ℕ) (e : ChangeError)
      → check_ownership database r ctx k ≡ (r, err e)
      → resolve database r ctx k now ≡ (r, err e)
  unfolding resolve
  resolve_refused r ctx k now e h = rw h

  check_foreign :
      (r : Registry D) (ctx : Context) (k : Text) (o : Owner)
      → k ≢ []
      → lookup k r.owners ≡ some o
      → o.principal_id ≢ mutation_key ctx
      → check_ownership database r ctx k ≡ (r, err not_usable)
  check_foreign r ctx k o some_id l foreign =
      check_known r ctx k o (text_beq_ne k [] some_id) l
      ∙ rw (text_beq_ne o.principal_id (mutation_key ctx) foreign)

  check_unknown :
      (r : Registry D) (ctx : Context) (k : Text)
      → k ≢ []
      → r.persistent ≡ none
      → lookup k r.owners ≡ none
      → check_ownership database r ctx k ≡ (r, err not_usable)
  unfolding check_ownership
  check_unknown r ctx k some_id no_db l =
      rw (text_beq_ne k [] some_id, find_owner_unsaved r k no_db, l)

  check_unusable :
      (r : Registry D) (ctx : Context) (k : Text)
      → k ≢ []
      → r.persistent ≡ none
      → ((o : Owner) → lookup k r.owners ≡ some o → o.principal_id ≢ mutation_key ctx)
      → check_ownership database r ctx k ≡ (r, err not_usable)
  check_unusable r ctx k some_id no_db foreign = elim (Option-cases (lookup k r.owners)) [
    | inl l ↦ check_unknown r ctx k some_id no_db l
    | inr (o, l) ↦ check_foreign r ctx k o some_id l (foreign o l)
  ]

  resolve_known :
      (r : Registry D) (ctx : Context) (k : Text) (now : ℕ) (o : Owner)
      → text_beq k [] ≡ false
      → lookup k r.owners ≡ some o
      → (resolve database r ctx k now).1
        ≡ (if o.principal_id == mutation_key ctx then ok k else err not_usable)
  unfolding resolve
  resolve_known r ctx k now o some_id l =
      resolve_checked_result k now (check_ownership database r ctx k)
      ∙ rw (check_known r ctx k o some_id l)

  new_id_some : (hex : Text) → text_beq (new_id hex) [] ≡ false
  unfolding new_id text_beq
  new_id_some hex = refl

  created-Owned :
      (r : Registry D) (hex p : Text) (now : ℕ)
      → p ≢ []
      → Owned p (new_id hex) (create database r (some hex) p now).0
  unfolding create
  created-Owned r hex p now some_p =
      rw (text_beq_ne p [] some_p) (fresh_owner database p now, lookup-insert_self _ _ _, refl)

  -- Resolve and Peek answer alike, and Peek leaves the registry as it is where the memory holds the
  -- identifier or there is no database.
  pub resolve-peek :
      (r : Registry D) (ctx : Context) (k : Text) (now : ℕ)
      → ((resolve database r ctx k now).1 ≡ (peek database r ctx k).1)
        × ((r.persistent ≡ none) ⊎ (lookup k r.owners ≢ none) → (peek database r ctx k).0 ≡ r)
  unfolding resolve peek
  resolve-peek r ctx k now =
      (resolve_checked_result k now (check_ownership database r ctx k), check_unchanged r ctx k)

  -- After a principal that is not empty created a change set, whatever calls follow, as long as
  -- none mints an identifier that is in use, the creator can use it and nobody else: for any other
  -- caller it is refused and the registry is unchanged.
  pub create_usable :
      (r r' : Registry D) (hex p : Text) (now now' : ℕ) (ctx : Context)
      → p ≢ []
      → Run database (create database r (some hex) p now).0 r'
      → ((resolve database r' ctx (new_id hex) now').1
          ≡ (if p == mutation_key ctx then ok (new_id hex) else err not_usable))
        × (p ≢ mutation_key ctx → (resolve database r' ctx (new_id hex) now').0 ≡ r')
  create_usable r r' hex p now now' ctx some_p run =
      let (o, l, e) = Run-Owned database p (new_id hex) run (created-Owned r hex p now some_p) in
      (
        resolve_known r' ctx (new_id hex) now' o (new_id_some hex) l ∙ rw e,
        λ foreign.
            ap (λ (q : Registry D × Result ChangeError Text). q.0)
              (resolve_refused r' ctx (new_id hex) now' not_usable (
                check_foreign r' ctx (new_id hex) o (text_ne _ _ (new_id_some hex)) l
                  (rw e foreign))),
      )

  -- An identifier that the memory does not hold as the caller's is refused alike whether another
  -- caller owns it or nobody, where there is no database, and the registry is unchanged.
  pub resolve_hides :
      (r : Registry D) (ctx : Context) (k : Text) (now : ℕ)
      → k ≢ []
      → r.persistent ≡ none
      → ((o : Owner) → lookup k r.owners ≡ some o → o.principal_id ≢ mutation_key ctx)
      → (resolve database r ctx k now ≡ (r, err not_usable))
        × (peek database r ctx k ≡ (r, err not_usable))
  resolve_hides r ctx k now some_id no_db foreign =
      let refused = check_unusable r ctx k some_id no_db foreign in
      (resolve_refused r ctx k now not_usable refused, unfold peek in refused)
