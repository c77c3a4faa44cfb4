-- ===== src/Previews/Lockout.antt =====
-- No request gets at a preview that a restart has restored.
use mcp_hugo_server_go.Base.{
  All, ℕ, ◌≡◌, ◌⊎◌, refl, inl, inr, Bool, List, [], Option, none, some, Bool-cases,
}
use mcp_hugo_server_go.Base.Keys.{text_eq, ◌==◌}
use mcp_hugo_server_go.Base.Text.{Text, text_ne}
use mathlib.Core.Path.{subst}
use mcp_hugo_server_go.Previews.{PreviewEntry, PreviewStore, LeaseDb, establish_session}
use mcp_hugo_server_go.Previews.Serve.{
  handle, reply_to, path_id, path_token, not_found, unavailable,
}
use mcp_hugo_server_go.Previews.Restart.{Progress, new_persistent}
use mcp_hugo_server_go.Previews.Events.{Event, run, Leaves}
use mcp_hugo_server_go.Previews.Kept.{Kept, lookup_preview-Looked}
use mcp_hugo_server_go.Previews.Steps.{find_session-Kept, run-Kept}
use mcp_hugo_server_go.Previews.Sessions.{SessionFound, find_session-SessionFound}
use mcp_hugo_server_go.Previews.Spent.{establish_active_refused, no_session}
use mcp_hugo_server_go.Previews.Recovered.{
  IsRestored, IsRestored-lasts, IsRestored-refused, AllRestored, Goes, reconcile-Goes,
}

module _ {D : Type 0} (database : LeaseDb D) (now : ℕ) where
  Shut : Text → PreviewStore D → Type 0
  Shut = Kept database (IsRestored now) (IsRestored-lasts now)

  none_opens :
      (s : PreviewStore D) (id : Text) (cookie : Option Text) (at : ℕ)
      (r : PreviewStore D × Option PreviewEntry)
      → Shut id s
      → SessionFound database s id cookie at r
      → r.1 ≡ none
  unfolding Shut
  none_opens s id cookie at (s', none) k found = refl
  none_opens s id cookie at (s', some f) k (e, opens, _, _) = absurd (opens.1 (k.1 e opens.2).1)

  reply_to-Shut :
      (path : Text) (at : ℕ) (random : Option Text) (r : PreviewStore D × Option PreviewEntry)
      → r.1 ≡ none
      → Shut (path_id path) r.0
      → (reply_to database path at random r).1 ≡ unavailable
  unfolding reply_to establish_session Shut
  reply_to-Shut path at random (s, some e) h k = cc
  reply_to-Shut path at random (s, none) h k = elim (Bool-cases (path_token path == [])) [
    | inl x ↦ rw x refl
    | inr x ↦ rw x (
        no_session database (IsRestored now) (IsRestored-lasts now) (IsRestored-refused now) path _
          (establish_active_refused database (IsRestored now) (IsRestored-lasts now)
            (IsRestored-refused now) s (path_id path) (path_token path) random _
            (text_ne (path_token path) [] x)
            (lookup_preview-Looked database (IsRestored now) (IsRestored-lasts now) (path_id path) s
              (path_id path) at k)))
  ]

  handle-Shut :
      (s : PreviewStore D) (path : Text) (cookie : Option Text) (at : ℕ) (random : Option Text)
      → Shut (path_id path) s
      → ((handle database s path cookie at random).1 ≡ not_found)
        ⊎ ((handle database s path cookie at random).1 ≡ unavailable)
  unfolding handle Shut
  handle-Shut s path cookie at random k = elim (Bool-cases (path_id path == [])) [
    | inl x ↦ inl (rw x refl)
    | inr x ↦ inr (
        rw x (
          reply_to-Shut path at random _
            (none_opens s (path_id path) cookie at _ k
              (find_session-SessionFound database s (path_id path) cookie at))
            (find_session-Kept database (IsRestored now) (IsRestored-lasts now) (path_id path) s
              (path_id path) cookie at k)))
  ]

-- After a restart, and after any events that neither register the preview again nor reset its session,
-- every request for a preview is answered with an error, whatever its token and its cookie are.
pub restart_locks_out :
    {D : Type 0} (database : LeaseDb D) (root : Text) (now : ℕ) (d : D) (existing : List Text)
    (removable : Text → Bool) (listing : Option (List (Text × Bool))) (p : Progress D)
    (evs : List Event) (path : Text) (cookie : Option Text) (at : ℕ) (random : Option Text)
    → new_persistent database root now d existing removable listing ≡ some p
    → All (Leaves (path_id path)) evs
    → ((handle database (run database p.store evs) path cookie at random).1 ≡ not_found)
      ⊎ ((handle database (run database p.store evs) path cookie at random).1 ≡ unavailable)
unfolding new_persistent Shut
restart_locks_out database root now d existing removable listing p evs path cookie at random made
      leaves =
    let all : AllRestored now p.store.entries = subst (Goes database root now) made (
      reconcile-Goes database root now d existing removable listing
        (database.list_preview_leases d)) in
    handle-Shut database now (run database p.store evs) path cookie at random (
      run-Kept database (IsRestored now) (IsRestored-lasts now) (path_id path) p.store evs leaves
        (all (path_id path)))
