-- ===== src/Previews.antt =====
-- internal/previewstore/store.go: the previews that are served, their sessions and their leases. The
-- database is an interface, whose state is `D`; a write of it that fails gives `none`. The state has
-- the directories that exist; `os.RemoveAll` removes one. A random text is an argument, `none` where
-- the generator fails. Entries are not nil.
pub mod Manage
pub mod Serve
pub mod Restart
pub mod Events
pub mod Kept
pub mod Steps
pub mod Sessions
pub mod Spent
pub mod Recovered
pub mod Lockout
pub mod Owned
pub mod Sweeps
use mathlib.Core.Option
use mcp_hugo_server_go.Base.{
  ℕ, ◌+◌, zero, suc, Bool, true, false, not, ◌&&◌, ◌||◌, List, [], ◌∷◌, ◌++◌, Option, none, some,
  ltb, length, if◌then◌else◌,
}
use mcp_hugo_server_go.Base.Keys.{text_eq, ◌==◌}
use mcp_hugo_server_go.Base.Map.{Map, lookup, insert, remove, keep}
use mcp_hugo_server_go.Base.Text.{Text, codes}

-- `Entry`
pub record PreviewEntry : Type 0 where
  pub dir : Text
  pub token : Text
  pub session_token : Text
  pub expires_at : ℕ
  pub build_status : Text
  pub created_at : ℕ
  pub owner : Text
  pub recovered : Bool
  pub session_activated : Bool

-- `Snapshot`
pub record Snapshot : Type 0 where
  pub snapshot_id : Text
  pub snapshot_expires : ℕ
  pub snapshot_status : Text
  pub snapshot_created : ℕ
  pub snapshot_owner : Text
  pub access_status : Text

-- `db.PreviewLease`, where the state is "active"
pub record Lease : Type 0 where
  pub lease_id : Text
  pub lease_owner : Text
  pub dir_name : Text
  pub lease_status : Text
  pub lease_created : ℕ
  pub lease_expires : ℕ

-- What the store uses of the database.
pub record LeaseDb (D : Type 0) : Type 0 where
  pub list_preview_leases : D → Option (List Lease)
  pub put_preview_lease : D → Lease → Option D
  pub delete_preview_lease : D → Text → Option D
  pub delete_leases_by_owner : D → Text → Option D

-- `Store`
pub record PreviewStore (D : Type 0) : Type 0 where
  pub entries : Map Text PreviewEntry
  pub state_db : Option D
  pub dirs : List Text

-- `os.RemoveAll`
unfoldable pub remove_dir : Text → List Text → List Text
remove_dir d [] = []
remove_dir d (e ∷ ds) = if e == d then remove_dir d ds else e ∷ remove_dir d ds

unfoldable pub remove_dirs : List Text → List Text → List Text
remove_dirs [] ds = ds
remove_dirs (d ∷ gone) ds = remove_dirs gone (remove_dir d ds)

-- What `Lookup` answers: `LookupMissing`, `LookupExpired` or the entry
pub data LookupStatus : Type 0 where
  missing expired : LookupStatus
  active : PreviewEntry → LookupStatus

-- `time.Now().After(entry.ExpiresAt)`
abbrev pub is_expired : ℕ → PreviewEntry → Bool
is_expired now e = ltb e.expires_at now

-- `previewAccessStatus`
unfoldable pub preview_access_status : PreviewEntry → Text
preview_access_status e = if e.recovered then codes "restart_invalidated" else codes "active"

abbrev pub snapshot : Text → PreviewEntry → Snapshot
snapshot id e = record {
  snapshot_id = id;
  snapshot_expires = e.expires_at;
  snapshot_status = e.build_status;
  snapshot_created = e.created_at;
  snapshot_owner = e.owner;
  access_status = preview_access_status e;
}

module _ {D : Type 0} (database : LeaseDb D) where
  open database use {put_preview_lease, delete_preview_lease}

  -- `PutPreviewLease` with the lease that `persistedLease` makes, `none` where it refuses the entry
  abbrev pub put_lease : Option D → Option Lease → Option (Option D)
  put_lease none lease = some none
  put_lease (some d) none = none
  put_lease (some d) (some lease) = Option.map some (put_preview_lease d lease)

  abbrev pub put_with :
      PreviewStore D → Text → PreviewEntry → Option (Option D) → PreviewStore D × Bool
  put_with s id e none = (s, false)
  put_with s id e (some db) = (record s { entries = insert id e s.entries; state_db = db }, true)

  -- `Put` of an entry whose time of creation is set; `false` is the error.
  unfoldable pub put : PreviewStore D → Text → PreviewEntry → Option Lease → PreviewStore D × Bool
  put s id e lease = put_with s id e (put_lease s.state_db lease)

  -- `deleteLease`: the database afterwards, `none` where it fails
  unfoldable pub delete_lease : Option D → Text → Option (Option D)
  delete_lease none id = some none
  delete_lease (some d) id = Option.map some (delete_preview_lease d id)

  abbrev pub expire_with : PreviewStore D → Text → PreviewEntry → Option (Option D) → PreviewStore D
  expire_with s id e none = s
  expire_with s id e (some db) = record {
    entries = remove id s.entries;
    state_db = db;
    dirs = remove_dir e.dir s.dirs;
  }

  -- `removeExpiredLocked`, with the removal of the directory that follows it
  unfoldable pub remove_expired : PreviewStore D → Text → PreviewEntry → PreviewStore D
  remove_expired s id e = expire_with s id e (delete_lease s.state_db id)

  unfoldable pub find_active :
      PreviewStore D → Text → ℕ → Option PreviewEntry → PreviewStore D × LookupStatus
  find_active s id now none = (s, missing)
  find_active s id now (some e) =
      if is_expired now e then (remove_expired s id e, expired) else (s, active e)

  -- `Lookup`
  unfoldable pub lookup_preview : PreviewStore D → Text → ℕ → PreviewStore D × LookupStatus
  lookup_preview s id now = find_active s id now (lookup id s.entries)

  unfoldable pub by_token :
      Text → PreviewStore D × LookupStatus → PreviewStore D × Option PreviewEntry
  by_token token (s, missing) = (s, none)
  by_token token (s, expired) = (s, none)
  by_token token (s, active e) = (s, if e.token == token then some e else none)

  -- `GetByToken`, and `Get`
  unfoldable pub get_by_token :
      PreviewStore D → Text → Text → ℕ → PreviewStore D × Option PreviewEntry
  get_by_token s id token now = by_token token (lookup_preview s id now)

  -- `entry.sessionActivated = true`
  abbrev pub activate : PreviewStore D → Text → PreviewEntry → PreviewStore D
  activate s id e = record s {
    entries = insert id (record e { session_activated = true }) s.entries;
  }

  unfoldable pub by_session :
      Text → Text → PreviewStore D × LookupStatus → PreviewStore D × Option PreviewEntry
  by_session id session (s, missing) = (s, none)
  by_session id session (s, expired) = (s, none)
  by_session id session (s, active e) =
      if e.session_token == session
      then (activate s id e, some (record e { session_activated = true }))
      else (s, none)

  -- `GetBySession`
  unfoldable pub get_by_session :
      PreviewStore D → Text → Text → ℕ → PreviewStore D × Option PreviewEntry
  get_by_session s id session now = by_session id session (lookup_preview s id now)

  abbrev pub mint :
      PreviewStore D
      → Text
      → PreviewEntry
      → Option Text
      → PreviewStore D × Option (PreviewEntry × Text)
  mint s id e none = (s, none)
  mint s id e (some fresh) = (
    record s { entries = insert id (record e { session_token = fresh }) s.entries },
    some (record e { session_token = fresh }, fresh),
  )

  unfoldable pub establish_active :
      Text
      → Text
      → Option Text
      → PreviewStore D × LookupStatus
      → PreviewStore D × Option (PreviewEntry × Text)
  establish_active id token random (s, missing) = (s, none)
  establish_active id token random (s, expired) = (s, none)
  establish_active id token random (s, active e) =
      if not (e.token == token)
      then (s, none)
      else if not (e.session_token == []) && e.session_activated
      then (s, none)
      else if e.session_token == []
      then mint s id e random
      else (s, some (e, e.session_token))

  -- `EstablishSession`
  unfoldable pub establish_session :
      PreviewStore D → Text → Text → ℕ → Option Text → PreviewStore D × Option (PreviewEntry × Text)
  establish_session s id token now random =
      establish_active id token random (lookup_preview s id now)

  abbrev pub reset_entry : PreviewStore D → Text → Option PreviewEntry → PreviewStore D × Bool
  reset_entry s id none = (s, false)
  reset_entry s id (some e) = (
    record s {
      entries = insert id (record e { session_token = []; session_activated = false }) s.entries;
    },
    true,
  )

  -- `ResetSessionForProbe`
  unfoldable pub reset_session_for_probe : PreviewStore D → Text → PreviewStore D × Bool
  reset_session_for_probe s id = reset_entry s id (lookup id s.entries)
