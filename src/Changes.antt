-- ===== src/Changes.antt =====
-- internal/changeset/changeset.go: who owns a change set, and which mutations belong to it. The
-- database is an interface, whose state is `D`; its errors on writing are logged and ignored by the
-- program, so a write yields a state. The random part of an identifier is an argument, `none` where
-- the generator fails. The zero `time.Time` of a restored owner is 0.

pub mod Owners
pub mod Usable
pub mod Latest
use mathlib.Core.Option
use mcp_hugo_server_go.Base.{
  ℕ, Bool, true, false, not, ◌||◌, List, [], ◌∷◌, ◌++◌, Option, none, some, ltb, if◌then◌else◌,
}
use mcp_hugo_server_go.Base.Keys.{text_eq, ◌==◌}
use mcp_hugo_server_go.Base.Map.{Map, lookup, insert}
use mcp_hugo_server_go.Base.Result.{Result, ok, err, ◌>>=◌}
use mcp_hugo_server_go.Base.Text.{Text, codes}
use mcp_hugo_server_go.Caller.{Context, mutation_key}

-- `NewID`, after the random bytes are written in hexadecimal
unfoldable pub new_id : Text → Text
new_id hex = codes "cs_" ++ hex

-- `DefaultID`
unfoldable pub default_id : Text → Text
default_id principal = codes "default:" ++ principal

-- `owner`
pub record Owner : Type 0 where
  pub principal_id : Text
  pub created_at : ℕ
  pub last_used_at : ℕ
  pub declared_untrusted : Bool
  pub declared_note : Text

-- `db.ChangeSetMutation`
pub record Mutation : Type 0 where
  pub change_set_id : Text
  pub principal : Text
  pub tool : Text
  pub source_key : Text
  pub mutation_type : Text
  pub recorded_at : ℕ

-- What `GetChangeSetOwner` returns for an identifier it finds
pub record Persisted : Type 0 where
  pub persisted_principal : Text
  pub persisted_declared : Bool
  pub persisted_note : Text

pub data ChangeError : Type 0 where
  no_identity no_random lookup_failed not_usable : ChangeError

-- What the registry uses of the database.
pub record Database (D : Type 0) : Type 0 where
  pub get_change_set_owner : D → Text → Result ChangeError (Option Persisted)
  pub create_change_set : D → Text → Text → ℕ → D
  pub set_declared_untrusted : D → Text → Bool → Text → D
  pub touch_change_set : D → Text → ℕ → D
  pub record_change_set_mutation : D → Mutation → D

-- `Registry`
pub record Registry (D : Type 0) : Type 0 where
  pub owners : Map Text Owner
  pub mutations : Map Text (List Mutation)
  pub persistent : Option D

-- `NewRegistry`
unfoldable pub new_registry : {D : Type 0} → Option D → Registry D
new_registry db = record { owners = []; mutations = []; persistent = db }

-- An owner restored from the database
unfoldable pub restored : Persisted → Owner
restored p = record {
  principal_id = p.persisted_principal;
  created_at = 0;
  last_used_at = 0;
  declared_untrusted = p.persisted_declared;
  declared_note = p.persisted_note;
}

-- `updated.LastUsedAt = now`, where a missing entry is Go's zero value
unfoldable pub touched : ℕ → Option Owner → Owner
touched now none = record {
  principal_id = [];
  created_at = 0;
  last_used_at = now;
  declared_untrusted = false;
  declared_note = [];
}
touched now (some o) = record o { last_used_at = now }

-- `r.mutations[id]`, nil where the key is missing
unfoldable pub mutations_at : Map Text (List Mutation) → Text → List Mutation
mutations_at m id = elim (lookup id m) [ none ↦ [] | some es ↦ es ]

module _ {D : Type 0} (database : Database D) where
  open database use {
    get_change_set_owner, create_change_set, set_declared_untrusted, touch_change_set,
    record_change_set_mutation,
  }

  -- The owner that `Create` stores
  abbrev pub fresh_owner : Text → ℕ → Owner
  fresh_owner principal now = record {
    principal_id = principal;
    created_at = now;
    last_used_at = now;
    declared_untrusted = false;
    declared_note = [];
  }

  abbrev pub create_as : Registry D → Text → Text → ℕ → Registry D × Result ChangeError Text
  create_as r principal id now = (
    record {
      owners = insert id (fresh_owner principal now) r.owners;
      mutations = r.mutations;
      persistent = Option.map (λ d. create_change_set d id principal now) r.persistent;
    },
    ok id,
  )

  abbrev pub create_random :
      Registry D → Option Text → Text → ℕ → Registry D × Result ChangeError Text
  create_random r none principal now = (r, err no_random)
  create_random r (some hex) principal now = create_as r principal (new_id hex) now

  -- `Create`
  unfoldable pub create : Registry D → Option Text → Text → ℕ → Registry D × Result ChangeError Text
  create r random principal now =
      if principal == [] then (r, err no_identity) else create_random r random principal now

  abbrev pub declare_owner : Registry D → Text → Bool → Text → Option Owner → Registry D
  declare_owner r id declared note none = r
  declare_owner r id declared note (some o) = record {
    owners = insert id (record o { declared_untrusted = declared; declared_note = note }) r.owners;
    mutations = r.mutations;
    persistent = Option.map (λ d. set_declared_untrusted d id declared note) r.persistent;
  }

  -- `SetDeclaredUntrustedDerivation`
  unfoldable pub set_declared : Registry D → Text → Bool → Text → Registry D
  set_declared r id declared note = declare_owner r id declared note (lookup id r.owners)

  -- `DeclaredUntrustedDerivation`
  unfoldable pub declared_untrusted_derivation : Registry D → Text → Bool × Text
  declared_untrusted_derivation r id = elim (lookup id r.owners) [
    | none ↦ (false, [])
    | some o ↦ (o.declared_untrusted, o.declared_note)
  ]

  -- The answer of the database, put in the memory where it found an owner
  abbrev pub rehydrated :
      Registry D
      → Text
      → Result ChangeError (Option Persisted)
      → Registry D × Result ChangeError (Option Owner)
  rehydrated r id (err e) = (r, err lookup_failed)
  rehydrated r id (ok none) = (r, ok none)
  rehydrated r id (ok (some p)) =
      (record r { owners = insert id (restored p) r.owners }, ok (some (restored p)))

  abbrev pub from_database :
      Registry D → Text → Option D → Registry D × Result ChangeError (Option Owner)
  from_database r id none = (r, ok none)
  from_database r id (some d) = rehydrated r id (get_change_set_owner d id)

  -- The owner of an identifier, from the memory or the database
  unfoldable pub find_owner : Registry D → Text → Registry D × Result ChangeError (Option Owner)
  find_owner r id = elim (lookup id r.owners) [
    | some o ↦ (r, ok (some o))
    | none ↦ from_database r id r.persistent
  ]

  -- `if !ok || o.PrincipalID != principalID`
  abbrev pub owned_by : Text → Text → Option Owner → Result ChangeError Text
  owned_by principal id none = err not_usable
  owned_by principal id (some o) = if o.principal_id == principal then ok id else err not_usable

  -- `checkOwnership`
  unfoldable pub check_ownership :
      Registry D → Context → Text → Registry D × Result ChangeError Text
  check_ownership r ctx requested =
      if requested == [] then (r, ok (default_id (mutation_key ctx))) else (
        (find_owner r requested).0,
        ((find_owner r requested).1 >>= owned_by (mutation_key ctx) requested),
      )

  -- The bookkeeping of `Resolve`
  unfoldable pub touch : Registry D → Text → ℕ → Registry D
  touch r id now = record {
    owners = insert id (touched now (lookup id r.owners)) r.owners;
    mutations = r.mutations;
    persistent = Option.map (λ d. touch_change_set d id now) r.persistent;
  }

  abbrev pub resolve_checked :
      Text → ℕ → Registry D × Result ChangeError Text → Registry D × Result ChangeError Text
  resolve_checked requested now (r, err e) = (r, err e)
  resolve_checked requested now (r, ok id) =
      if requested == [] then (r, ok id) else (touch r requested now, ok id)

  -- `Resolve`
  unfoldable pub resolve : Registry D → Context → Text → ℕ → Registry D × Result ChangeError Text
  resolve r ctx requested now = resolve_checked requested now (check_ownership r ctx requested)

  -- `Peek`
  unfoldable pub peek : Registry D → Context → Text → Registry D × Result ChangeError Text
  peek r ctx requested = check_ownership r ctx requested

  -- `RecordMutation`
  unfoldable pub record_mutation : Registry D → Mutation → Registry D
  record_mutation r e = record {
    owners = r.owners;
    mutations =
        insert e.change_set_id (mutations_at r.mutations e.change_set_id ++ (e ∷ [])) r.mutations;
    persistent = Option.map (λ d. record_change_set_mutation d e) r.persistent;
  }

  -- `MutationsFor`
  unfoldable pub mutations_for : Registry D → Text → List Mutation
  mutations_for r id = mutations_at r.mutations id

-- The state of the loops of `OwnerOfSourceKey`: the change set found so far, with its time
abbrev pub Latest : Type 0
Latest = Option (Text × ℕ)

-- `!ok || e.CreatedAt.After(latest)`
abbrev pub is_later : ℕ → Latest → Bool
is_later t none = true
is_later t (some (id, u)) = ltb u t

-- The inner loop
unfoldable pub latest_in : Text → Text → List Mutation → Latest → Latest
latest_in key id [] best = best
latest_in key id (e ∷ es) best = latest_in key id es (
    if e.source_key == key
    then if is_later e.recorded_at best then some (id, e.recorded_at) else best
    else best)

-- The outer loop
unfoldable pub latest_of : Text → Map Text (List Mutation) → Latest → Latest
latest_of key [] best = best
latest_of key ((id, es) ∷ m) best = latest_of key m (latest_in key id es best)

-- `OwnerOfSourceKey`
unfoldable pub owner_of_source_key : {D : Type 0} → Registry D → Text → Option Text
owner_of_source_key r key = Option.map (λ (p : Text × ℕ). p.0) (latest_of key r.mutations none)
