-- ===== src/Previews/Manage.antt =====
-- Sweep, lists, counts and revocation of internal/previewstore/store.go.
use mathlib.Core.Option
use mcp_hugo_server_go.Base.{
  ℕ, ◌+◌, Bool, true, false, not, ◌&&◌, ◌||◌, List, [], ◌∷◌, ◌++◌, Option, none, some, length,
  if◌then◌else◌,
}
use mcp_hugo_server_go.Base.Keys.{text_eq, ◌==◌}
use mcp_hugo_server_go.Base.Map.{Map, lookup, remove, keep}
use mcp_hugo_server_go.Base.Text.{Text}
use mcp_hugo_server_go.Previews.{
  PreviewEntry, Snapshot, snapshot, LeaseDb, PreviewStore, is_expired, remove_dir, remove_dirs,
  delete_lease, remove_expired,
}

module _ {D : Type 0} (database : LeaseDb D) where
  open database use {delete_leases_by_owner}

  -- The loop of `SweepPersistent`, with the directories of the entries it removed; `false` where the
  -- database failed and the loop returned.
  unfoldable pub sweep_loop :
      ℕ → Map Text PreviewEntry → PreviewStore D → List Text → PreviewStore D × List Text × Bool
  sweep_loop now [] s gone = (s, gone, true)
  sweep_loop now ((id, e) ∷ todo) s gone = elim (is_expired now e) [
    | false ↦ sweep_loop now todo s gone
    | true ↦ elim (delete_lease database s.state_db id) [
      | none ↦ (s, gone, false)
      | some db ↦
          sweep_loop now todo (record s { entries = remove id s.entries; state_db = db })
            (gone ++ (e.dir ∷ []))
    ]
  ]

  abbrev pub swept : PreviewStore D × List Text × Bool → PreviewStore D × Bool
  swept (s, gone, false) = (s, false)
  swept (s, gone, true) = (record s { dirs = remove_dirs gone s.dirs }, true)

  -- `SweepPersistent`, and `Sweep`; `false` is the error.
  unfoldable pub sweep : PreviewStore D → ℕ → PreviewStore D × Bool
  sweep s now = swept (sweep_loop now s.entries s [])

  -- The loop of `List` and of `ListOwned`; every entry passes `wanted` in `List`.
  unfoldable pub list_loop :
      (PreviewEntry → Bool)
      → ℕ
      → Map Text PreviewEntry
      → PreviewStore D
      → PreviewStore D × List Snapshot
  list_loop wanted now [] s = (s, [])
  list_loop wanted now ((id, e) ∷ todo) s = elim (is_expired now e) [
    | true ↦ list_loop wanted now todo (remove_expired database s id e)
    | false ↦
        let rest = list_loop wanted now todo s in
        (rest.0, if wanted e then snapshot id e ∷ rest.1 else rest.1)
  ]

  -- `ListOwned`, and `List` where the owner is empty
  unfoldable pub list_owned : PreviewStore D → Text → ℕ → PreviewStore D × List Snapshot
  list_owned s owner now = list_loop (λ e. owner == [] || e.owner == owner) now s.entries s

  unfoldable pub count_loop : Text → ℕ → Map Text PreviewEntry → ℕ
  count_loop owner now [] = 0
  count_loop owner now ((id, e) ∷ m) =
      (if is_expired now e then 0 else if e.owner == owner then 1 else 0) + count_loop owner now m

  -- `CountByOwner`
  unfoldable pub count_by_owner : PreviewStore D → Text → ℕ → ℕ
  count_by_owner s owner now = count_loop owner now s.entries

  unfoldable pub active_dirs_loop : ℕ → Map Text PreviewEntry → List Text
  active_dirs_loop now [] = []
  active_dirs_loop now ((id, e) ∷ m) =
      if e.dir == [] || is_expired now e
      then active_dirs_loop now m
      else e.dir ∷ active_dirs_loop now m

  -- `ActiveDirs`, as a list
  unfoldable pub active_dirs : PreviewStore D → ℕ → List Text
  active_dirs s now = active_dirs_loop now s.entries

  abbrev pub revoke_with :
      PreviewStore D → Text → PreviewEntry → Option (Option D) → PreviewStore D × Option Bool
  revoke_with s id e none = (s, none)
  revoke_with s id e (some db) = (
    record { entries = remove id s.entries; state_db = db; dirs = remove_dir e.dir s.dirs },
    some true,
  )

  unfoldable pub revoke_entry :
      PreviewStore D → Text → Text → Option PreviewEntry → PreviewStore D × Option Bool
  revoke_entry s id owner none = (s, some false)
  revoke_entry s id owner (some e) =
      if not (owner == []) && not (e.owner == owner)
      then (s, some false)
      else revoke_with s id e (delete_lease database s.state_db id)

  -- `RevokeOwnedPersistent`, with `RevokeOwned`, and `Revoke` where the owner is empty; `none` is the
  -- error of the database.
  unfoldable pub revoke_owned : PreviewStore D → Text → Text → PreviewStore D × Option Bool
  revoke_owned s id owner = revoke_entry s id owner (lookup id s.entries)

  -- The directories of the entries that `RevokeAllOwnedPersistent` selects
  unfoldable pub selected_dirs : Text → Map Text PreviewEntry → List Text
  selected_dirs owner [] = []
  selected_dirs owner ((id, e) ∷ m) =
      if owner == [] || e.owner == owner
      then e.dir ∷ selected_dirs owner m
      else selected_dirs owner m

  abbrev pub delete_by_owner : Option D → Text → Option (Option D)
  delete_by_owner none owner = some none
  delete_by_owner (some d) owner = Option.map some (delete_leases_by_owner d owner)

  abbrev pub revoke_all_with : PreviewStore D → Text → Option (Option D) → PreviewStore D × Option ℕ
  revoke_all_with s owner none = (s, none)
  revoke_all_with s owner (some db) = (
    record {
      entries = keep (λ _ e. not (owner == [] || e.owner == owner)) s.entries;
      state_db = db;
      dirs = remove_dirs (selected_dirs owner s.entries) s.dirs;
    },
    some (length (selected_dirs owner s.entries)),
  )

  -- `RevokeAllOwnedPersistent`, with `RevokeAllOwned`, and `RevokeAll` where the owner is empty
  unfoldable pub revoke_all_owned : PreviewStore D → Text → PreviewStore D × Option ℕ
  revoke_all_owned s owner = revoke_all_with s owner (delete_by_owner s.state_db owner)
