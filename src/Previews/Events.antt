-- ===== src/Previews/Events.antt =====
-- Runs of the preview store: requests of browsers and the operations of the tools and of the sweep.
use mcp_hugo_server_go.Base.{ℕ, ◌≢◌, List, [], ◌∷◌, Option}
use mcp_hugo_server_go.Base.Keys.{text_eq}
use mcp_hugo_server_go.Base.Text.{Text}
use mcp_hugo_server_go.Previews.{
  PreviewEntry, PreviewStore, Lease, LeaseDb, put, lookup_preview, reset_session_for_probe,
}
use mcp_hugo_server_go.Previews.Manage.{sweep, list_owned, revoke_owned, revoke_all_owned}
use mcp_hugo_server_go.Previews.Serve.{handle}

pub data Event : Type 0 where
  request : Text → Option Text → ℕ → Option Text → Event
  put_entry : Text → PreviewEntry → Option Lease → Event
  look_up : Text → ℕ → Event
  reset_probe : Text → Event
  sweep_expired : ℕ → Event
  list_entries : Text → ℕ → Event
  revoke_all : Text → Event
  revoke_one : Text → Text → Event

module _ {D : Type 0} (database : LeaseDb D) where
  unfoldable pub step : PreviewStore D → Event → PreviewStore D
  step s (request path cookie now random) = (handle database s path cookie now random).0
  step s (put_entry id e lease) = (put database s id e lease).0
  step s (look_up id now) = (lookup_preview database s id now).0
  step s (reset_probe id) = (reset_session_for_probe database s id).0
  step s (sweep_expired now) = (sweep database s now).0
  step s (list_entries owner now) = (list_owned database s owner now).0
  step s (revoke_one id owner) = (revoke_owned database s id owner).0
  step s (revoke_all owner) = (revoke_all_owned database s owner).0

  unfoldable pub run : PreviewStore D → List Event → PreviewStore D
  run s [] = s
  run s (ev ∷ evs) = run (step s ev) evs

-- No event registers the preview again or resets its session.
unfoldable pub Leaves : Text → Event → Type 0
Leaves id (put_entry j e lease) = j ≢ id
Leaves id (reset_probe j) = j ≢ id
Leaves id (request path cookie now random) = Unit
Leaves id (look_up j now) = Unit
Leaves id (sweep_expired now) = Unit
Leaves id (list_entries owner now) = Unit
Leaves id (revoke_all owner) = Unit
Leaves id (revoke_one j owner) = Unit
