-- ===== src/Previews/Restart.antt =====
-- `NewPersistent` and `reconcile` of internal/previewstore/store.go. The root is clean and absolute;
-- the directories that exist are those of the state; what `os.ReadDir` lists of the root (with
-- `IsDir`), and whether a directory can be removed, are arguments.
use mcp_hugo_server_go.Base.{
  ℕ, ◌+◌, Bool, true, false, not, ◌&&◌, ◌||◌, List, [], ◌∷◌, ◌++◌, Option, none, some, ltb,
  if◌then◌else◌,
}
use mcp_hugo_server_go.Base.Keys.{text_eq, nat_eq, ◌==◌}
use mcp_hugo_server_go.Base.Map.{insert}
use mcp_hugo_server_go.Base.Text.{Text, codes, trim_space, has_prefix}
use mcp_hugo_server_go.Previews.{PreviewEntry, PreviewStore, Lease, LeaseDb, remove_dir}

-- `ReconcileReport`
pub record ReconcileReport : Type 0 where
  pub restored : ℕ
  pub expired_leases : ℕ
  pub missing_dirs : ℕ
  pub unsafe_leases : ℕ
  pub orphans_removed : ℕ

abbrev pub empty_report : ReconcileReport
empty_report = record {
  restored = 0;
  expired_leases = 0;
  missing_dirs = 0;
  unsafe_leases = 0;
  orphans_removed = 0;
}

unfoldable pub has_slash : Text → Bool
has_slash [] = false
has_slash (c ∷ s) = (c == 0x2F) || has_slash s

-- `safeDirName`; a name with the prefix is its own `filepath.Base` where it has no `/`.
abbrev pub safe_dir_name : Text → Bool
safe_dir_name name =
    not (has_slash name)
    && (has_prefix name (codes "mcp-preview-") && not (name == codes "mcp-preview-"))

-- `filepath.Join(root, name)` of a clean root and a safe name
abbrev pub join_root : Text → Text → Text
join_root root name = if root == codes "/" then root ++ name else root ++ (codes "/" ++ name)

unfoldable pub elem : Text → List Text → Bool
elem d [] = false
elem d (e ∷ ds) = (e == d) || elem d ds

-- The entry of a lease: without a token and without a session
abbrev pub recovered_entry : Text → Lease → PreviewEntry
recovered_entry root l = record {
  dir = join_root root l.dir_name;
  token = [];
  session_token = [];
  expires_at = l.lease_expires;
  build_status = l.lease_status;
  created_at = l.lease_created;
  owner = l.lease_owner;
  recovered = true;
  session_activated = false;
}

-- What `reconcile` has: the store, the report and the names of the active directories
pub record Progress (D : Type 0) : Type 0 where
  pub store : PreviewStore D
  pub report : ReconcileReport
  pub active_names : List Text

module _ {D : Type 0} (database : LeaseDb D) (root : Text) (now : ℕ) where
  open database use {list_preview_leases, delete_preview_lease}

  abbrev pub drop_with : Progress D → ReconcileReport → List Text → Option D → Option (Progress D)
  drop_with p counted left none = none
  drop_with p counted left (some d) = some (record p {
    store = record { entries = p.store.entries; state_db = some d; dirs = left };
    report = counted;
  })

  -- `DeletePreviewLease`, with the directories that are left
  abbrev pub drop_lease : Progress D → D → Lease → ReconcileReport → List Text → Option (Progress D)
  drop_lease p d l counted left = drop_with p counted left (delete_preview_lease d l.lease_id)

  abbrev pub restore : Progress D → Lease → Progress D
  restore p l = record {
    store = record p.store { entries = insert l.lease_id (recovered_entry root l) p.store.entries };
    report = record p.report { restored = p.report.restored + 1 };
    active_names = l.dir_name ∷ p.active_names;
  }

  -- One turn of the loop over the leases
  unfoldable pub reconcile_lease : Progress D → D → Lease → Option (Progress D)
  reconcile_lease p d l =
      if not (safe_dir_name l.dir_name) || (trim_space l.lease_id == [])
      then drop_lease p d l (record p.report { unsafe_leases = p.report.unsafe_leases + 1 })
          p.store.dirs
      else if not (ltb now l.lease_expires)
      then drop_lease p d l (record p.report { expired_leases = p.report.expired_leases + 1 })
          (remove_dir (join_root root l.dir_name) p.store.dirs)
      else if not (elem (join_root root l.dir_name) p.store.dirs)
      then drop_lease p d l (record p.report { missing_dirs = p.report.missing_dirs + 1 })
          p.store.dirs
      else some (restore p l)

  abbrev pub lease_turn : Lease → Progress D → Option D → Option (Progress D)
  lease_turn l p none = none
  lease_turn l p (some d) = reconcile_lease p d l

  unfoldable pub reconcile_leases : List Lease → Option (Progress D) → Option (Progress D)
  reconcile_leases [] p = p
  reconcile_leases (l ∷ ls) none = none
  reconcile_leases (l ∷ ls) (some p) = reconcile_leases ls (lease_turn l p p.store.state_db)

  abbrev pub remove_orphan : Progress D → Text → Progress D
  remove_orphan p name = record p {
    store = record p.store { dirs = remove_dir (join_root root name) p.store.dirs };
    report = record p.report { orphans_removed = p.report.orphans_removed + 1 };
  }

  -- The loop over the directories of the root
  unfoldable pub remove_orphans :
      (Text → Bool) → List (Text × Bool) → Progress D → Option (Progress D)
  remove_orphans removable [] p = some p
  remove_orphans removable ((name, is_dir) ∷ rest) p =
      elim (not is_dir || not (safe_dir_name name) || elem name p.active_names) [
        | true ↦ remove_orphans removable rest p
        | false ↦ elim (removable (join_root root name)) [
          | true ↦ remove_orphans removable rest (remove_orphan p name)
          | false ↦ none
        ]
      ]

  abbrev pub scan_root :
      (Text → Bool) → Option (List (Text × Bool)) → Option (Progress D) → Option (Progress D)
  scan_root removable listing none = none
  scan_root removable none (some p) = none
  scan_root removable (some names) (some p) = remove_orphans removable names p

  abbrev pub reconcile :
      PreviewStore D
      → (Text → Bool)
      → Option (List (Text × Bool))
      → Option (List Lease)
      → Option (Progress D)
  reconcile s removable listing none = none
  reconcile s removable listing (some leases) = scan_root removable listing (
      reconcile_leases leases
        (some (record { store = s; report = empty_report; active_names = [] })))

  -- `NewPersistent` with a database, from the directories that exist; `none` is an error.
  unfoldable pub new_persistent :
      D → List Text → (Text → Bool) → Option (List (Text × Bool)) → Option (Progress D)
  new_persistent d existing removable listing =
      reconcile (record { entries = []; state_db = some d; dirs = existing }) removable listing
        (list_preview_leases d)
