-- ===== src/Previews/Recovered.antt =====
-- After a restart the previews of earlier runs are listed, but nobody gets at them.
use mcp_hugo_server_go.Base.{
  ℕ, ◌≡◌, refl, sym, ◌∙◌, inl, inr, Bool, true, not, ◌||◌, List, [], ◌∷◌, Option, none, some,
  Bool-cases, ltb,
}
use mcp_hugo_server_go.Base.Keys.{text_eq, ◌==◌}
use mcp_hugo_server_go.Base.Map.{Map, lookup}
use mcp_hugo_server_go.Base.Text.{Text, trim_space}
use mcp_hugo_server_go.Previews.{PreviewEntry, Lease, LeaseDb}
use mcp_hugo_server_go.Previews.Restart.{
  Progress, safe_dir_name, join_root, recovered_entry, drop_with, restore, reconcile_lease,
  lease_turn, reconcile_leases, remove_orphan, remove_orphans, scan_root, reconcile, elem,
  ReconcileReport,
}
use mcp_hugo_server_go.Previews.Kept.{Holds, Lasting, insert-Holds}
use mcp_hugo_server_go.Previews.Spent.{Refused}

-- An entry that was restored at `now`: without secrets, marked, and not expired
abbrev pub IsRestored : ℕ → PreviewEntry → Type 0
IsRestored now e =
    (e.token ≡ []) × (e.session_token ≡ []) × (e.recovered ≡ true) × (ltb now e.expires_at ≡ true)

pub IsRestored-lasts : (now : ℕ) → Lasting (IsRestored now)
IsRestored-lasts now = record {
  activated = λ e n p. absurd (n p.1);
  minted = λ e fresh t empty p. absurd (t p.0);
}

pub IsRestored-refused : (now : ℕ) → Refused (IsRestored now)
IsRestored-refused now e token n p = inl (λ same. n (sym same ∙ p.0))

abbrev pub AllRestored : ℕ → Map Text PreviewEntry → Type 0
AllRestored now m = (id : Text) → Holds (IsRestored now) id m

module _ {D : Type 0} (database : LeaseDb D) (root : Text) (now : ℕ) where
  -- What the loops keep of the store, where they go on
  abbrev pub Goes : Option (Progress D) → Type 0
  Goes none = Unit
  Goes (some p) = AllRestored now p.store.entries

  drop_with-Goes :
      (p : Progress D) (counted : ReconcileReport) (left : List Text) (d : Option D)
      → AllRestored now p.store.entries
      → Goes (drop_with database root now p counted left d)
  drop_with-Goes p counted left none h = tt
  drop_with-Goes p counted left (some d) h = h

  restore-Goes :
      (p : Progress D) (l : Lease)
      → ltb now l.lease_expires ≡ true
      → AllRestored now p.store.entries
      → Goes (some (restore database root now p l))
  restore-Goes p l current h id =
      insert-Holds (IsRestored now) id l.lease_id (recovered_entry root l) p.store.entries
        (λ same. (refl, refl, refl, current)) (h id)

  reconcile_lease-Goes :
      (p : Progress D) (d : D) (l : Lease)
      → AllRestored now p.store.entries
      → Goes (reconcile_lease database root now p d l)
  unfolding reconcile_lease
  reconcile_lease-Goes p d l h =
      elim (Bool-cases (not (safe_dir_name l.dir_name) || (trim_space l.lease_id == []))) [
        | inl x ↦ rw x (drop_with-Goes p _ _ _ h)
        | inr x ↦ elim (Bool-cases (ltb now l.lease_expires)) [
          | inr y ↦ rw (x, y) (drop_with-Goes p _ _ _ h)
          | inl y ↦ elim (Bool-cases (elem (join_root root l.dir_name) p.store.dirs)) [
            | inl z ↦ rw (x, y, z) (restore-Goes p l y h)
            | inr z ↦ rw (x, y, z) (drop_with-Goes p _ _ _ h)
          ]
        ]
      ]

  lease_turn-Goes :
      (l : Lease) (p : Progress D) (d : Option D)
      → AllRestored now p.store.entries
      → Goes (lease_turn database root now l p d)
  lease_turn-Goes l p none h = tt
  lease_turn-Goes l p (some d) h = reconcile_lease-Goes p d l h

  reconcile_leases-Goes :
      (ls : List Lease) (p : Option (Progress D))
      → Goes p
      → Goes (reconcile_leases database root now ls p)
  unfolding reconcile_leases
  reconcile_leases-Goes [] p h = h
  reconcile_leases-Goes (l ∷ ls) none h = tt
  reconcile_leases-Goes (l ∷ ls) (some p) h =
      reconcile_leases-Goes ls _ (lease_turn-Goes l p p.store.state_db h)

  remove_orphans-Goes :
      (removable : Text → Bool) (names : List (Text × Bool)) (p : Progress D)
      → AllRestored now p.store.entries
      → Goes (remove_orphans database root now removable names p)
  unfolding remove_orphans
  remove_orphans-Goes removable [] p h = h
  remove_orphans-Goes removable ((name, is_dir) ∷ rest) p h =
      elim (Bool-cases (not is_dir || not (safe_dir_name name) || elem name p.active_names)) [
        | inl x ↦ rw (x, remove_orphans) (remove_orphans-Goes removable rest p h)
        | inr x ↦ elim (Bool-cases (removable (join_root root name))) [
          | inl y ↦
              rw (x, y, remove_orphans)
                (remove_orphans-Goes removable rest (remove_orphan database root now p name) h)
          | inr y ↦ rw (x, y, remove_orphans) tt
        ]
      ]

  scan_root-Goes :
      (removable : Text → Bool) (listing : Option (List (Text × Bool))) (p : Option (Progress D))
      → Goes p
      → Goes (scan_root database root now removable listing p)
  scan_root-Goes removable listing none h = tt
  scan_root-Goes removable none (some p) h = tt
  scan_root-Goes removable (some names) (some p) h = remove_orphans-Goes removable names p h

  pub reconcile-Goes :
      (d : D) (existing : List Text) (removable : Text → Bool)
      (listing : Option (List (Text × Bool))) (leases : Option (List Lease))
      → Goes (
          reconcile database root now
            (record { entries = []; state_db = some d; dirs = existing })
            removable
            listing
            leases)
  unfolding lookup
  reconcile-Goes d existing removable listing none = tt
  reconcile-Goes d existing removable listing (some ls) =
      scan_root-Goes removable listing _
        (reconcile_leases-Goes ls _ (λ id. (tt, λ e h. absurd (cc h))))
