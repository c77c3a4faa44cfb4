-- ===== src/Previews/Owned.antt =====
-- The limit on a caller's previews counts what the caller is shown.
use mcp_hugo_server_go.Base.{
  All, ℕ, ◌+◌, ◌≡◌, ◌≢◌, refl, inl, inr, Bool, false, List, [], ◌∷◌, length, arith, Bool-cases,
  if◌then◌else◌, ltb,
}
use mcp_hugo_server_go.Base.Keys.{text_eq, ◌==◌}
use mcp_hugo_server_go.Base.Map.{Map}
use mcp_hugo_server_go.Base.Text.{Text, text_beq_ne}
use mcp_hugo_server_go.Previews.{
  PreviewEntry, PreviewStore, Snapshot, snapshot, LeaseDb, is_expired, remove_expired,
}
use mcp_hugo_server_go.Previews.Manage.{list_loop, list_owned, count_loop, count_by_owner}

-- A listed preview belongs to the owner and has not expired.
abbrev pub IsOwn : Text → ℕ → Snapshot → Type 0
IsOwn owner now n = (n.snapshot_owner ≡ owner) × (ltb n.snapshot_expires now ≡ false)

module _ {D : Type 0} (database : LeaseDb D) (owner : Text) (now : ℕ) where
  abbrev Agrees : ℕ → List Snapshot → Type 0
  Agrees n list = (n ≡ length list) × All (IsOwn owner now) list

  add_own :
      (n : ℕ) (id : Text) (e : PreviewEntry) (list : List Snapshot)
      → is_expired now e ≡ false
      → Agrees n list
      → Agrees
          ((if e.owner == owner then 1 else 0) + n)
          (if e.owner == owner then snapshot id e ∷ list else list)
  add_own n id e list x (same, own) = elim (Bool-cases (e.owner == owner)) [
    | inl y ↦ rw y (omega arith, (((text_eq.same_iff e.owner owner).0 y, x), own))
    | inr y ↦ rw y (omega arith, own)
  ]

  none_added : (n : ℕ) (list : List Snapshot) → Agrees n list → Agrees (0 + n) list
  none_added n list (same, own) = (omega arith, own)

  loop-Agrees :
      (wanted : PreviewEntry → Bool) (m : Map Text PreviewEntry) (s : PreviewStore D)
      → ((e : PreviewEntry) → wanted e ≡ (e.owner == owner))
      → Agrees (count_loop database owner now m) (list_loop database wanted now m s).1
  unfolding count_loop list_loop
  loop-Agrees wanted [] s w = (refl, tt)
  loop-Agrees wanted ((id, e) ∷ m) s w = elim (Bool-cases (is_expired now e)) [
    | inl x ↦
        rw (x, list_loop) (none_added _ _ (loop-Agrees wanted m (remove_expired database s id e) w))
    | inr x ↦ rw (x, list_loop, w e) (add_own _ id e _ x (loop-Agrees wanted m s w))
  ]

  -- The previews of a caller that are counted for the limit are as many as the caller's list shows,
  -- and each of the list belongs to the caller and has not expired, where the caller has a name.
  pub count_by_owner-list_owned :
      (s : PreviewStore D)
      → owner ≢ []
      → (count_by_owner database s owner now ≡ length (list_owned database s owner now).1)
        × All (IsOwn owner now) (list_owned database s owner now).1
  unfolding count_by_owner list_owned
  count_by_owner-list_owned s named =
      loop-Agrees _ s.entries s (λ e. rw (text_beq_ne owner [] named) refl)
