-- ===== src/Previews/Serve.antt =====
-- `CleanPath` and `HTTPHandler` of internal/previewstore/store.go. The cookie with the name
-- `CookieName(id)` is an argument, `none` where the request has none. What the file server sends of a
-- directory is not modelled.
use mathlib.Core.List.{reverse}
use mcp_hugo_server_go.Base.{
  ℕ, Bool, true, false, not, ◌&&◌, List, [], ◌∷◌, ◌++◌, Option, none, some, if◌then◌else◌,
}
use mcp_hugo_server_go.Base.Keys.{text_eq, nat_eq, ◌==◌}
use mcp_hugo_server_go.Base.Text.{Text, codes, trim_space, trim_prefix, has_prefix, before_first}
use mcp_hugo_server_go.Previews.{
  PreviewEntry, PreviewStore, LeaseDb, get_by_session, establish_session,
}

abbrev pub slash : ℕ
slash = 0x2F

-- The text after the first `/`, empty where there is none
unfoldable pub after_slash : Text → Text
after_slash [] = []
after_slash (c ∷ s) = if c == slash then s else after_slash s

-- `strings.HasSuffix(s, "/")`
unfoldable pub ends_in_slash : Text → Bool
ends_in_slash [] = false
ends_in_slash (c ∷ []) = c == slash
ends_in_slash (c ∷ d ∷ s) = ends_in_slash (d ∷ s)

-- The elements of a path
unfoldable pub segments : Text → Text → List Text
segments cur [] = reverse cur ∷ []
segments cur (c ∷ s) =
    let stop = segments [] s in
    let go = segments (c ∷ cur) s in if c == slash then reverse cur ∷ stop else go

abbrev pub up : Bool → List Text → List Text
up true [] = []
up false [] = codes ".." ∷ []
up rooted (p ∷ done) = if p == codes ".." then codes ".." ∷ p ∷ done else done

-- `path.Clean` on the elements; those that are kept stand in reverse.
unfoldable pub clean_segments : Bool → List Text → List Text → List Text
clean_segments rooted done [] = done
clean_segments rooted done (p ∷ ps) =
    clean_segments rooted
      (if p == []
        then done
        else if p == codes "."
        then done
        else if p == codes ".."
        then up rooted done
        else p ∷ done)
      ps

unfoldable pub join_segments : List Text → Text
join_segments [] = []
join_segments (p ∷ []) = p
join_segments (p ∷ q ∷ ps) = p ++ (slash ∷ join_segments (q ∷ ps))

abbrev pub is_rooted : Text → Bool
is_rooted s = has_prefix s (codes "/")

abbrev pub dot_if_empty : Text → Text
dot_if_empty [] = codes "."
dot_if_empty (c ∷ s) = c ∷ s

-- `path.Clean`
unfoldable pub path_clean : Text → Text
path_clean s =
    if is_rooted s
    then slash ∷ join_segments (reverse (clean_segments true [] (segments [] s)))
    else dot_if_empty (join_segments (reverse (clean_segments false [] (segments [] s))))

abbrev pub asset_path : Text → Text
asset_path asset = trim_prefix (trim_space asset) (codes "/")

abbrev pub cleaned_asset : Text → Text
cleaned_asset asset =
    if ends_in_slash asset && not (path_clean asset == codes ".")
    then path_clean asset ++ codes "/"
    else path_clean asset

-- `CleanPath`
unfoldable pub clean_path : Text → Text → Text
clean_path id asset =
    codes "/preview/"
    ++ (trim_space id
        ++ (codes "/" ++ (if asset_path asset == [] then [] else cleaned_asset (asset_path asset))))

-- `parts[0]`, `parts[1]` and `parts[2]` of the path, empty where there are fewer parts
abbrev pub path_rest : Text → Text
path_rest path = trim_prefix path (codes "/preview/")

unfoldable pub path_id : Text → Text
path_id path = before_first slash (path_rest path)

abbrev pub path_token : Text → Text
path_token path = before_first slash (after_slash (path_rest path))

abbrev pub path_asset : Text → Text
path_asset path = after_slash (after_slash (path_rest path))

pub data Reply : Type 0 where
  -- `http.NotFound`, and the error "preview not found or expired"
  not_found unavailable : Reply
  redirect : Text → Reply
  -- the target, the session and its expiry
  redirect_with_session : Text → Text → ℕ → Reply
  -- the directory of the file server, and the path it gets
  serve_files : Text → Text → Reply

abbrev pub serve : PreviewEntry → Text → Text → Reply
serve e id path =
    if has_prefix path (codes "/preview/" ++ id)
    then serve_files e.dir (trim_prefix path (codes "/preview/" ++ id))
    else not_found

module _ {D : Type 0} (database : LeaseDb D) where
  -- The entry of the session
  unfoldable pub find_session :
      PreviewStore D → Text → Option Text → ℕ → PreviewStore D × Option PreviewEntry
  find_session s id none now = (s, none)
  find_session s id (some cookie) now =
      if trim_space cookie == [] then (s, none) else get_by_session database s id cookie now

  unfoldable pub session_reply :
      Text → PreviewStore D × Option (PreviewEntry × Text) → PreviewStore D × Reply
  session_reply path (s, none) = (s, unavailable)
  session_reply path (s, some (e, session)) =
      (s, redirect_with_session (clean_path (path_id path) (path_asset path)) session e.expires_at)

  unfoldable pub reply_to :
      Text → ℕ → Option Text → PreviewStore D × Option PreviewEntry → PreviewStore D × Reply
  reply_to path now random (s, some e) = (
    s,
    if not (path_token path == []) && (e.token == path_token path)
        then redirect (clean_path (path_id path) (path_asset path))
        else serve e (path_id path) path,
  )
  reply_to path now random (s, none) =
      if path_token path == []
      then (s, unavailable)
      else session_reply path
          (establish_session database s (path_id path) (path_token path) now random)

  -- `HTTPHandler`
  unfoldable pub handle :
      PreviewStore D → Text → Option Text → ℕ → Option Text → PreviewStore D × Reply
  handle s path cookie now random =
      if path_id path == []
      then (s, not_found)
      else reply_to path now random (find_session s (path_id path) cookie now)
