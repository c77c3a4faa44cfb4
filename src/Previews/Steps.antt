-- ===== src/Previews/Steps.antt =====
-- Every event that leaves a preview alone keeps a lasting property of its entry.
use mathlib.Core.Path.{subst}
use mcp_hugo_server_go.Base.{
  All, ℕ, ◌≡◌, ◌≢◌, refl, sym, inl, inr, Bool, true, false, not, ◌&&◌, List, [], ◌∷◌, Option, none,
  some, Bool-cases, Option-cases,
}
use mcp_hugo_server_go.Base.Keys.{text_eq, ◌==◌}
use mcp_hugo_server_go.Base.Map.{Map, lookup}
use mcp_hugo_server_go.Base.Text.{Text, trim_space, text_beq, text_ne}
use mcp_hugo_server_go.Previews.{
  PreviewEntry, PreviewStore, LeaseDb, LookupStatus, put, put_with, put_lease, lookup_preview,
  delete_lease, is_expired, get_by_session, establish_session, reset_session_for_probe, reset_entry,
  missing, expired, active,
}
use mcp_hugo_server_go.Previews.Manage.{
  sweep, sweep_loop, swept, list_owned, list_loop, revoke_owned, revoke_entry, revoke_with,
  revoke_all_owned, revoke_all_with, delete_by_owner,
}
use mcp_hugo_server_go.Previews.Serve.{
  handle, find_session, reply_to, session_reply, path_id, path_token,
}
use mcp_hugo_server_go.Previews.Events.{
  Event, request, put_entry, look_up, reset_probe, sweep_expired, list_entries, revoke_all,
  revoke_one, step, run, Leaves,
}
use mcp_hugo_server_go.Previews.Kept.{
  Lasting, Kept, insert-Holds, remove-Holds, keep-Holds, remove_expired-Kept, Looked,
  lookup_preview-Looked, by_session-Kept, establish_active-Kept,
}

-- A cookie that is not blank is not empty.
pub not_blank : (c : Text) → (trim_space c == []) ≡ false → c ≢ []
unfolding trim_space text_beq
not_blank c x empty = cc (x, subst (λ t. (trim_space t == []) ≡ true) (sym empty) refl)

module _ {D : Type 0} (database : LeaseDb D) (P : PreviewEntry → Type 0) (lasting : Lasting P)
    (id : Text) where
  abbrev Still : PreviewStore D → Type 0
  Still = Kept database P lasting id

  sweep_loop-Kept :
      (now : ℕ) (todo : Map Text PreviewEntry) (s : PreviewStore D) (gone : List Text)
      → Still s
      → Still (sweep_loop database now todo s gone).0
  unfolding sweep_loop
  sweep_loop-Kept now [] s gone k = k
  sweep_loop-Kept now ((j, e) ∷ todo) s gone k = elim (Bool-cases (is_expired now e)) [
    | inr x ↦ rw (x, sweep_loop) (sweep_loop-Kept now todo s gone k)
    | inl x ↦ elim (Option-cases (delete_lease database s.state_db j)) [
      | inl y ↦ rw (x, y, sweep_loop) k
      | inr (db, y) ↦
          rw (x, y, sweep_loop) (sweep_loop-Kept now todo _ _ (remove-Holds P id j s.entries k))
    ]
  ]

  swept-Kept : (r : PreviewStore D × List Text × Bool) → Still r.0 → Still (swept database r).0
  swept-Kept (s, gone, true) k = k
  swept-Kept (s, gone, false) k = k

  list_loop-Kept :
      (wanted : PreviewEntry → Bool) (now : ℕ) (todo : Map Text PreviewEntry) (s : PreviewStore D)
      → Still s
      → Still (list_loop database wanted now todo s).0
  unfolding list_loop
  list_loop-Kept wanted now [] s k = k
  list_loop-Kept wanted now ((j, e) ∷ todo) s k = elim (Bool-cases (is_expired now e)) [
    | inr x ↦ rw (x, list_loop) (list_loop-Kept wanted now todo s k)
    | inl x ↦
        rw (x, list_loop)
          (list_loop-Kept wanted now todo _ (remove_expired-Kept database P lasting id s j e k))
  ]

  revoke_with-Kept :
      (s : PreviewStore D) (j : Text) (e : PreviewEntry) (db : Option (Option D))
      → Still s
      → Still (revoke_with database s j e db).0
  revoke_with-Kept s j e none k = k
  revoke_with-Kept s j e (some db) k = remove-Holds P id j s.entries k

  revoke_entry-Kept :
      (s : PreviewStore D) (j owner : Text) (o : Option PreviewEntry)
      → Still s
      → Still (revoke_entry database s j owner o).0
  unfolding revoke_entry
  revoke_entry-Kept s j owner none k = k
  revoke_entry-Kept s j owner (some e) k =
      elim (Bool-cases (not (owner == []) && not (e.owner == owner))) [
        | inl x ↦ rw x k
        | inr x ↦ rw x (revoke_with-Kept s j e (delete_lease database s.state_db j) k)
      ]

  revoke_all_with-Kept :
      (s : PreviewStore D) (owner : Text) (db : Option (Option D))
      → Still s
      → Still (revoke_all_with database s owner db).0
  revoke_all_with-Kept s owner none k = k
  revoke_all_with-Kept s owner (some db) k = keep-Holds P id _ s.entries k

  put_with-Kept :
      (s : PreviewStore D) (j : Text) (e : PreviewEntry) (db : Option (Option D))
      → j ≢ id
      → Still s
      → Still (put_with database s j e db).0
  put_with-Kept s j e none other k = k
  put_with-Kept s j e (some db) other k =
      insert-Holds P id j e s.entries (λ same. absurd (other same)) k

  reset_entry-Kept :
      (s : PreviewStore D) (j : Text) (o : Option PreviewEntry)
      → j ≢ id
      → Still s
      → Still (reset_entry database s j o).0
  reset_entry-Kept s j none other k = k
  reset_entry-Kept s j (some e) other k =
      insert-Holds P id j _ s.entries (λ same. absurd (other same)) k

  by_lookup-Kept :
      (s : PreviewStore D) (j : Text) (r : PreviewStore D × LookupStatus)
      → Looked database P lasting id s j r
      → Still r.0
  by_lookup-Kept s j (s', missing) h = h
  by_lookup-Kept s j (s', expired) h = h
  by_lookup-Kept s j (s', active e) h = h.0

  pub find_session-Kept :
      (s : PreviewStore D) (j : Text) (cookie : Option Text) (now : ℕ)
      → Still s
      → Still (find_session database s j cookie now).0
  unfolding find_session get_by_session
  find_session-Kept s j none now k = k
  find_session-Kept s j (some c) now k = elim (Bool-cases (trim_space c == [])) [
    | inl x ↦ rw x k
    | inr x ↦ rw x (
        by_session-Kept database P lasting id s j c _ (not_blank c x)
          (lookup_preview-Looked database P lasting id s j now k))
  ]

  session_reply-Kept :
      (path : Text) (r : PreviewStore D × Option (PreviewEntry × Text))
      → Still r.0
      → Still (session_reply database path r).0
  unfolding session_reply
  session_reply-Kept path (s, none) k = k
  session_reply-Kept path (s, some (e, session)) k = k

  reply_to-Kept :
      (path : Text) (now : ℕ) (random : Option Text) (r : PreviewStore D × Option PreviewEntry)
      → Still r.0
      → Still (reply_to database path now random r).0
  unfolding reply_to establish_session
  reply_to-Kept path now random (s, some e) k = k
  reply_to-Kept path now random (s, none) k = elim (Bool-cases (path_token path == [])) [
    | inl x ↦ rw x k
    | inr x ↦ rw x (
        session_reply-Kept path _ (
          establish_active-Kept database P lasting id s (path_id path) (path_token path) random _
            (text_ne (path_token path) [] x)
            (lookup_preview-Looked database P lasting id s (path_id path) now k)))
  ]

  handle-Kept :
      (s : PreviewStore D) (path : Text) (cookie : Option Text) (now : ℕ) (random : Option Text)
      → Still s
      → Still (handle database s path cookie now random).0
  unfolding handle
  handle-Kept s path cookie now random k = elim (Bool-cases (path_id path == [])) [
    | inl x ↦ rw x k
    | inr x ↦
        rw x (reply_to-Kept path now random _ (find_session-Kept s (path_id path) cookie now k))
  ]

  pub step-Kept :
      (s : PreviewStore D) (ev : Event) → Leaves id ev → Still s → Still (step database s ev)
  unfolding step Leaves put lookup_preview reset_session_for_probe sweep list_owned revoke_owned
      revoke_all_owned
  step-Kept s (request path cookie now random) l k = handle-Kept s path cookie now random k
  step-Kept s (put_entry j e lease) l k =
      put_with-Kept s j e (put_lease database s.state_db lease) l k
  step-Kept s (look_up j now) l k =
      by_lookup-Kept s j (lookup_preview database s j now)
        (lookup_preview-Looked database P lasting id s j now k)
  step-Kept s (reset_probe j) l k = reset_entry-Kept s j (lookup j s.entries) l k
  step-Kept s (sweep_expired now) l k = swept-Kept _ (sweep_loop-Kept now s.entries s [] k)
  step-Kept s (list_entries owner now) l k = list_loop-Kept _ now s.entries s k
  step-Kept s (revoke_one j owner) l k = revoke_entry-Kept s j owner (lookup j s.entries) k
  step-Kept s (revoke_all owner) l k =
      revoke_all_with-Kept s owner (delete_by_owner database s.state_db owner) k

  pub run-Kept :
      (s : PreviewStore D) (evs : List Event)
      → All (Leaves id) evs
      → Kept database P lasting id s
      → Kept database P lasting id (run database s evs)
  unfolding run
  run-Kept s [] l k = k
  run-Kept s (ev ∷ evs) l k = run-Kept (step database s ev) evs l.1 (step-Kept s ev l.0 k)
