-- ===== src/Tests/Previews.antt =====
-- A store with one preview in use, and a database that holds one lease.
use mcp_hugo_server_go.Base.{
  All, ◌≡◌, ◌≢◌, ◌⊎◌, refl, true, false, not, List, [], ◌∷◌, none, some, length,
}
use mcp_hugo_server_go.Base.Keys.{text_eq}
use mcp_hugo_server_go.Base.Map.{lookup, insert, keep_if}
use mcp_hugo_server_go.Base.Text.{
  Text, codes, trim_space, trim_prefix, has_prefix, before_first, text_beq,
}
use mcp_hugo_server_go.Previews.{
  PreviewEntry, PreviewStore, Lease, LeaseDb, is_expired, lookup_preview, find_active,
  get_by_session, by_session, delete_lease, remove_dir,
}
use mcp_hugo_server_go.Previews.Manage.{sweep, sweep_loop, count_by_owner, list_owned}
use mcp_hugo_server_go.Previews.Serve.{
  handle, find_session, reply_to, path_id, clean_path, after_slash, segments, clean_segments,
  join_segments, path_clean, ends_in_slash, serve_files, redirect_with_session, not_found,
  unavailable,
}
use mcp_hugo_server_go.Previews.Restart.{
  Progress, recovered_entry, new_persistent, reconcile_leases, reconcile_lease, remove_orphans,
  has_slash, elem,
}
use mcp_hugo_server_go.Previews.Events.{list_entries, run, Leaves}
use mcp_hugo_server_go.Previews.Sessions.{ServedTo, handle_serves}
use mcp_hugo_server_go.Previews.Spent.{spent_link}
use mcp_hugo_server_go.Previews.Lockout.{restart_locks_out}
use mcp_hugo_server_go.Previews.Owned.{IsOwn, count_by_owner-list_owned}
use mcp_hugo_server_go.Previews.Sweeps.{sweep_exact}

abbrev leases : LeaseDb (List Lease)
leases = record {
  list_preview_leases = λ d. some d;
  put_preview_lease = λ d l. some (l ∷ d);
  delete_preview_lease = λ d id. some [];
  delete_leases_by_owner = λ d owner. some [];
}

abbrev in_use : PreviewEntry
in_use = record {
  dir = codes "/tmp/mcp-preview-1";
  token = codes "tok";
  session_token = codes "ses";
  expires_at = 100;
  build_status = codes "ok";
  created_at = 10;
  owner = codes "ann";
  recovered = false;
  session_activated = false;
}

abbrev with_preview : PreviewStore (List Lease)
with_preview = record {
  entries = (codes "p1", in_use) ∷ [];
  state_db = none;
  dirs = in_use.dir ∷ [];
}

abbrev page : Text
page = codes "/preview/p1/posts/a.html"

clean_path_test : clean_path (codes "p1") (codes "/posts//../b/./") ≡ codes "/preview/p1/b/"
unfolding clean_path path_clean trim_space trim_prefix has_prefix ends_in_slash segments
    clean_segments join_segments text_beq
clean_path_test = refl

served :
    (handle leases with_preview page (some (codes "ses")) 50 none).1
    ≡ serve_files (codes "/tmp/mcp-preview-1") (codes "/posts/a.html")
unfolding handle find_session reply_to path_id after_slash trim_space trim_prefix has_prefix
    before_first get_by_session lookup_preview find_active by_session lookup text_beq
served = refl

handle_serves_example :
    ServedTo leases with_preview
      (path_id page)
      (some (codes "ses"))
      50
      (codes "/tmp/mcp-preview-1")
      (handle leases with_preview page (some (codes "ses")) 50 none).0
handle_serves_example =
    handle_serves leases with_preview page (codes "/tmp/mcp-preview-1") (codes "/posts/a.html")
      (some (codes "ses")) 50 none served

spent_link_example :
    (handle leases
      (run leases
        (handle leases with_preview page (some (codes "ses")) 50 none).0
        (list_entries (codes "ann") 60 ∷ []))
      page
      none
      70
      (some (codes "new"))).1
    ≢ redirect_with_session (codes "/") (codes "new") 100
spent_link_example =
    spent_link leases with_preview page (codes "/tmp/mcp-preview-1") (codes "/posts/a.html")
      (some (codes "ses")) 50 none (list_entries (codes "ann") 60 ∷ []) page (codes "/")
      (codes "new") none 70 100 (some (codes "new")) (unfold lookup in (refl, tt)) served
      (unfold Leaves in (tt, tt)) refl

abbrev kept_lease : Lease
kept_lease = record {
  lease_id = codes "p1";
  lease_owner = codes "ann";
  dir_name = codes "mcp-preview-1";
  lease_status = codes "ok";
  lease_created = 10;
  lease_expires = 100;
}

abbrev after_restart : Progress (List Lease)
after_restart = record {
  store = record {
    entries = (codes "p1", recovered_entry (codes "/tmp") kept_lease) ∷ [];
    state_db = some (kept_lease ∷ []);
    dirs = codes "/tmp/mcp-preview-1" ∷ [];
  };
  report = record {
    restored = 1;
    expired_leases = 0;
    missing_dirs = 0;
    unsafe_leases = 0;
    orphans_removed = 1;
  };
  active_names = codes "mcp-preview-1" ∷ [];
}

restarted :
    new_persistent leases
      (codes "/tmp")
      50
      (kept_lease ∷ [])
      (codes "/tmp/mcp-preview-1" ∷ [])
      (λ d. true)
      (some ((codes "mcp-preview-2", true) ∷ []))
    ≡ some after_restart
unfolding new_persistent reconcile_leases reconcile_lease remove_orphans has_slash elem trim_space
    has_prefix text_beq insert remove_dir
restarted = refl

restart_locks_out_example :
    ((handle leases
        (run leases after_restart.store (list_entries (codes "ann") 60 ∷ []))
        page
        (some (codes "ses"))
        70
        none).1
      ≡ not_found)
    ⊎ ((handle leases
          (run leases after_restart.store (list_entries (codes "ann") 60 ∷ []))
          page
          (some (codes "ses"))
          70
          none).1
        ≡ unavailable)
restart_locks_out_example =
    restart_locks_out leases (codes "/tmp") 50 (kept_lease ∷ []) (codes "/tmp/mcp-preview-1" ∷ [])
      (λ d. true) (some ((codes "mcp-preview-2", true) ∷ [])) after_restart
      (list_entries (codes "ann") 60 ∷ []) page (some (codes "ses")) 70 none restarted
      (unfold Leaves in (tt, tt))

count_by_owner-list_owned_example :
    (count_by_owner leases with_preview (codes "ann") 50
      ≡ length (list_owned leases with_preview (codes "ann") 50).1)
    × All (IsOwn (codes "ann") 50) (list_owned leases with_preview (codes "ann") 50).1
count_by_owner-list_owned_example =
    count_by_owner-list_owned leases (codes "ann") 50 with_preview (λ e. cc e)

swept_all : (sweep leases with_preview 101).1 ≡ true
unfolding sweep sweep_loop delete_lease
swept_all = refl

sweep_exact_example :
    lookup (codes "p1") (sweep leases with_preview 101).0.entries
    ≡ keep_if (λ e. not (is_expired 101 e)) (lookup (codes "p1") with_preview.entries)
sweep_exact_example =
    sweep_exact leases 101 (codes "p1") with_preview (unfold lookup in (refl, tt)) (swept_all)
