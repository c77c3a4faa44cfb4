-- ===== src/Changes/Owners.antt =====
-- The owner of a change set decides who may use it.
use mcp_hugo_server_go.Base.{
  ℕ, ◌≡◌, refl, sym, ap, inl, inr, Bool, [], ◌∙◌, Option, none, some, Bool-cases, Option-cases,
}
use mcp_hugo_server_go.Base.Keys.{text_eq}
use mcp_hugo_server_go.Base.Map.{Map, lookup, insert, lookup-insert}
use mcp_hugo_server_go.Base.Result.{Result, ok, err}
use mcp_hugo_server_go.Base.Text.{Text, text_beq, text_beq_iff}
use mcp_hugo_server_go.Caller.{Context}
use mcp_hugo_server_go.Changes.{
  from_database, Owner, Mutation, Persisted, ChangeError, Database, Registry, new_id, restored,
  touched, create, fresh_owner, set_declared, declare_owner, find_owner, check_ownership, touch,
  resolve, resolve_checked, peek, record_mutation, rehydrated,
}

-- The memory holds the identifier as the principal's.
abbrev pub OwnedIn : Text → Text → Map Text Owner → Type 0
OwnedIn p id owners = (o : Owner) × (lookup id owners ≡ some o) × (o.principal_id ≡ p)

abbrev pub Owned : {D : Type 0} → Text → Text → Registry D → Type 0
Owned p id r = OwnedIn p id r.owners

-- The new identifier, if any, is not in use.
abbrev pub Fresh : {D : Type 0} → Registry D → Option Text → Type 0
Fresh r random = (hex : Text) → random ≡ some hex → lookup (new_id hex) r.owners ≡ none

insert-Owned :
    (p id k : Text) (o : Owner) (m : Map Text Owner)
    → OwnedIn p id m
    → (k ≡ id → o.principal_id ≡ p)
    → OwnedIn p id (insert k o m)
insert-Owned p id k o m (o', l, q) h = elim (Bool-cases (text_beq k id)) [
  | inl same ↦ (o, rw (lookup-insert, same), h ((text_beq_iff k id).0 same))
  | inr other ↦ (o', rw (lookup-insert, other) l, q)
]

known_principal :
    (p k : Text) (o : Owner) (m : Map Text Owner)
    → lookup k m ≡ some o
    → OwnedIn p k m
    → o.principal_id ≡ p
known_principal p k o m l (o', l', e) =
    let same : o' ≡ o = cc (l, l') in ap (λ (x : Owner). x.principal_id) (sym same) ∙ e

module _ {D : Type 0} (database : Database D) where
  -- One call on the registry.
  pub data Step : Registry D → Registry D → Type 0 where
    created :
        {r : Registry D} (random : Option Text) (p : Text) (now : ℕ)
        → Fresh r random
        → Step r (create database r random p now).0
    declared :
        {r : Registry D} (id : Text) (b : Bool) (note : Text)
        → Step r (set_declared database r id b note)
    resolved :
        {r : Registry D} (ctx : Context) (id : Text) (now : ℕ)
        → Step r (resolve database r ctx id now).0
    peeked : {r : Registry D} (ctx : Context) (id : Text) → Step r (peek database r ctx id).0
    recorded : {r : Registry D} (e : Mutation) → Step r (record_mutation database r e)

  pub data Run : Registry D → Registry D → Type 0 where
    done : {r : Registry D} → Run r r
    next : {r r' r'' : Registry D} → Step r r' → Run r' r'' → Run r r''

  create-Owned :
      (p id : Text) (r : Registry D) (random : Option Text) (q : Text) (now : ℕ)
      → Fresh r random
      → Owned p id r
      → Owned p id (create database r random q now).0
  unfolding create
  create-Owned p id r random q now f h = elim (Bool-cases (text_beq q [])) [
    | inl blank ↦ rw blank h
    | inr more ↦ elim (Option-cases random) [
      | inl absent ↦ rw (more, absent) h
      | inr (hex, e) ↦
          rw (more, e)
            (insert-Owned p id (new_id hex) (fresh_owner database q now) r.owners h
              (λ same. absurd (cc (f hex e, h.1, same))))
    ]
  ]

  pub find_owner_known :
      (r : Registry D) (id : Text) (o : Owner)
      → lookup id r.owners ≡ some o
      → find_owner database r id ≡ (r, ok (some o))
  unfolding find_owner
  find_owner_known r id o l = rw (l, find_owner)

  pub find_owner_missing :
      (r : Registry D) (id : Text)
      → lookup id r.owners ≡ none
      → find_owner database r id ≡ from_database database r id r.persistent
  unfolding find_owner
  find_owner_missing r id l = rw (l, find_owner)

  rehydrated-Owned :
      (p id k : Text) (r : Registry D) (answer : Result ChangeError (Option Persisted))
      → lookup k r.owners ≡ none
      → Owned p id r
      → Owned p id (rehydrated database r k answer).0
  rehydrated-Owned p id k r (err e) l h = h
  rehydrated-Owned p id k r (ok none) l h = h
  rehydrated-Owned p id k r (ok (some q)) l h =
      insert-Owned p id k (restored q) r.owners h (λ same. absurd (cc (l, h.1, same)))

  from_database-Owned :
      (p id k : Text) (r : Registry D) (db : Option D)
      → lookup k r.owners ≡ none
      → Owned p id r
      → Owned p id (from_database database r k db).0
  from_database-Owned p id k r none l h = h
  from_database-Owned p id k r (some d) l h =
      rehydrated-Owned p id k r (database.get_change_set_owner d k) l h

  find_owner-Owned :
      (p id : Text) (r : Registry D) (k : Text)
      → Owned p id r
      → Owned p id (find_owner database r k).0
  find_owner-Owned p id r k h = elim (Option-cases (lookup k r.owners)) [
    | inr (o, l) ↦ rw (find_owner_known r k o l) h
    | inl l ↦ rw (find_owner_missing r k l) (from_database-Owned p id k r r.persistent l h)
  ]

  check-Owned :
      (p id : Text) (r : Registry D) (ctx : Context) (k : Text)
      → Owned p id r
      → Owned p id (check_ownership database r ctx k).0
  unfolding check_ownership
  check-Owned p id r ctx k h = elim (Bool-cases (text_beq k [])) [
    | inl blank ↦ rw blank h
    | inr more ↦ rw more (find_owner-Owned p id r k h)
  ]

  touched_principal :
      (now : ℕ) (m : Option Owner) (o : Owner)
      → m ≡ some o
      → (touched now m).principal_id ≡ o.principal_id
  unfolding touched
  touched_principal now m o e = rw (e, touched)

  touch-Owned :
      (p id : Text) (r : Registry D) (k : Text) (now : ℕ)
      → Owned p id r
      → Owned p id (touch database r k now)
  unfolding touch
  touch-Owned p id r k now h =
      insert-Owned p id k (touched now (lookup k r.owners)) r.owners h
        (λ same. touched_principal now _ h.0 (rw same h.1) ∙ h.2)

  resolve_checked-Owned :
      (p id k : Text) (now : ℕ) (q : Registry D × Result ChangeError Text)
      → Owned p id q.0
      → Owned p id (resolve_checked database k now q).0
  resolve_checked-Owned p id k now (r, err e) h = h
  resolve_checked-Owned p id k now (r, ok out) h = elim (Bool-cases (text_beq k [])) [
    | inl blank ↦ rw blank h
    | inr more ↦ rw more (touch-Owned p id r k now h)
  ]

  resolve-Owned :
      (p id : Text) (r : Registry D) (ctx : Context) (k : Text) (now : ℕ)
      → Owned p id r
      → Owned p id (resolve database r ctx k now).0
  unfolding resolve
  resolve-Owned p id r ctx k now h =
      resolve_checked-Owned p id k now (check_ownership database r ctx k)
        (check-Owned p id r ctx k h)

  declare_owner-Owned :
      (p id k : Text) (r : Registry D) (b : Bool) (note : Text) (m : Option Owner)
      → lookup k r.owners ≡ m
      → Owned p id r
      → Owned p id (declare_owner database r k b note m)
  declare_owner-Owned p id k r b note none l h = h
  declare_owner-Owned p id k r b note (some o) l h =
      insert-Owned p id k (record o { declared_untrusted = b; declared_note = note }) r.owners h
        (λ same. known_principal p k o r.owners l (rw same h))

  set_declared-Owned :
      (p id : Text) (r : Registry D) (k : Text) (b : Bool) (note : Text)
      → Owned p id r
      → Owned p id (set_declared database r k b note)
  unfolding set_declared
  set_declared-Owned p id r k b note h = declare_owner-Owned p id k r b note _ refl h

  Step-Owned : (p id : Text) {r r' : Registry D} → Step r r' → Owned p id r → Owned p id r'
  Step-Owned p id (created random q now f) h = create-Owned p id _ random q now f h
  Step-Owned p id (declared k b note) h = set_declared-Owned p id _ k b note h
  Step-Owned p id (resolved ctx k now) h = resolve-Owned p id _ ctx k now h
  Step-Owned p id (peeked ctx k) h = unfold peek in check-Owned p id _ ctx k h
  Step-Owned p id (recorded e) h = unfold record_mutation in h

  pub Run-Owned : (p id : Text) {r r' : Registry D} → Run r r' → Owned p id r → Owned p id r'
  Run-Owned p id done h = h
  Run-Owned p id (next s run) h = Run-Owned p id run (Step-Owned p id s h)
