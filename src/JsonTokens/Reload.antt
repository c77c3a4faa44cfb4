-- ===== src/JsonTokens/Reload.antt =====
-- A store that is loaded again from its file goes on as if it had never stopped.
use mathlib.Core.Option
use mathlib.Core.Path.{subst}
use mcp_hugo_server_go.Base.{
  ◌≡◌, refl, sym, ap, ◌∙◌, true, false, List, [], ◌∷◌, ◌++◌, map, Option, none, some,
}
use mcp_hugo_server_go.Base.Keys.{text_eq}
use mcp_hugo_server_go.Base.Map.{Map, lookup, Unique}
use mcp_hugo_server_go.Base.Result.{ok}
use mcp_hugo_server_go.Base.Text.{Text}
use mcp_hugo_server_go.Tokens.{TokenStore, NewTokens, new_memory}
use mcp_hugo_server_go.JsonTokens
use mcp_hugo_server_go.JsonTokens.{
  JsonEntry, JsonRefreshEntry, JsonState, JsonStore, Codec, StoreError, load, load_state,
  map_or_empty, empty_store, save, next_store, exchange_found, if_saved, state_of, details,
}
use mcp_hugo_server_go.JsonTokens.Steps.{
  Call, memory_call, json_call, memory_run, json_run, rounded, save_answer, json_exchange_answer,
}
use mcp_hugo_server_go.JsonTokens.Refines.{Simulates, IsTotal, call-Agrees, refresh_details}

-- A map that was read holds what the map that was written held.
abbrev pub SameMap : {V : Type 0} → Map Text V → Map Text V → Type 0
SameMap read_map written =
    (Unique written → Unique read_map) × ((k : Text) → lookup k read_map ≡ lookup k written)

-- What is read from the encoding of a store's maps; an empty map of refresh tokens may be left out.
abbrev pub ReadsBack :
    {B : Type 0} → Codec B → Map Text JsonEntry → Map Text JsonRefreshEntry → B → Type 0
ReadsBack codec tokens refresh b =
    (codec.is_empty b ≡ false)
    × ((tokens' : Map Text JsonEntry) × (refresh' : Option (Map Text JsonRefreshEntry))
        × (codec.unmarshal_state b
            ≡ some (record { access_map = some tokens'; refresh_map = refresh' }))
        × SameMap tokens' tokens
        × SameMap (map_or_empty refresh') refresh)

-- JSON encodes every state, and what it encodes it decodes.
pub record IsFaithful {B : Type 0} (codec : Codec B) : Type 0 where
  pub total : IsTotal codec
  pub reads_back :
      (tokens : Map Text JsonEntry) (refresh : Map Text JsonRefreshEntry) (b : B)
      → codec.marshal (record { access_map = some tokens; refresh_map = some refresh }) ≡ some b
      → ReadsBack codec tokens refresh b

-- Loading the file gives the same maps.
abbrev Saved : {B : Type 0} → Codec B → JsonStore B → Type 0
Saved {B} codec s =
    (t : JsonStore B) × (load codec (ok s.file) ≡ ok t)
    × SameMap t.json_tokens s.json_tokens
    × SameMap t.json_refresh_tokens s.json_refresh_tokens

module _ {B : Type 0} (codec : Codec B) (faithful : IsFaithful codec) where
  stored-Saved :
      (s : JsonStore B) (b : B)
      → codec.marshal (state_of codec s) ≡ some b
      → Saved codec (record s { file = some b })
  unfolding load
  stored-Saved s b e =
      let (some_data, (tokens, refresh, r, same, same')) =
        faithful.reads_back s.json_tokens s.json_refresh_tokens b e in
      (
        record { json_tokens = tokens; json_refresh_tokens = map_or_empty refresh; file = some b },
        rw (some_data, load) (ap (load_state codec b) r),
        same,
        same',
      )

  stored :
      (s : JsonStore B)
      → (b : B) × (save codec s true ≡ (record s { file = some b }, ok tt))
        × Saved codec (record s { file = some b })
  unfolding save
  stored s = let (b, e) = faithful.total (state_of codec s) in (b, rw e, stored-Saved s b e)

  save-Saved : (s : JsonStore B) → Saved codec (save_answer (save codec s true)).0
  save-Saved s = let (b, e, r) = stored s in subst (λ q. Saved codec (save_answer q).0) (sym e) r

  found-Saved :
      (s : JsonStore B) (old client : Text) (n : NewTokens) (found : Option JsonRefreshEntry)
      → Saved codec s
      → Saved codec (json_exchange_answer (exchange_found codec s old client n true found)).0
  found-Saved s old client n none h = h
  found-Saved s old client n (some e) h =
      let (b, k, r) = stored (next_store codec s old client n e) in
      subst (λ q. Saved codec (json_exchange_answer (if_saved codec s e.json_refresh_scope q)).0)
        (sym k) r

  call-Saved : (s : JsonStore B) (c : Call) → Saved codec s → Saved codec (json_call codec s c).0
  unfolding JsonTokens.add_access_token JsonTokens.add_refresh_token
      JsonTokens.exchange_refresh_token JsonTokens.purge_expired_tokens
  call-Saved s (Call.add_access token scope principal expires) h = save-Saved _
  call-Saved s (Call.add_refresh token client scope expires) h = save-Saved _
  call-Saved s (Call.exchange old client n now) h = found-Saved s old client n _ h
  call-Saved s (Call.purge now) h = save-Saved _
  call-Saved s (Call.check_access_scope token now) h = h
  call-Saved s (Call.check_access token now) h = h
  call-Saved s (Call.check_refresh token client now) h = h

  run-Saved :
      (s : JsonStore B) (cs : List Call) → Saved codec s → Saved codec (json_run codec s cs).0
  unfolding json_run
  run-Saved s [] h = h
  run-Saved s (c ∷ cs) h = run-Saved (json_call codec s c).0 cs (call-Saved s c h)

  run-Agrees :
      (m : TokenStore) (j : JsonStore B) (cs : List Call)
      → Simulates m j
      → ((memory_run m (map rounded cs)).1 ≡ (json_run codec j cs).1)
        × Simulates (memory_run m (map rounded cs)).0 (json_run codec j cs).0
  unfolding memory_run json_run
  run-Agrees m j [] h = (refl, h)
  run-Agrees m j (c ∷ cs) h =
      let (same, k) = call-Agrees codec faithful.total m j h c in
      let (rest, l) = run-Agrees (memory_call m (rounded c)).0 (json_call codec j c).0 cs k in
      (cc (same, rest), l)

  -- The store that is loaded holds what the store in memory holds.
  loaded-Simulates :
      (m : TokenStore) (s t : JsonStore B)
      → Simulates m s
      → SameMap t.json_tokens s.json_tokens
      → SameMap t.json_refresh_tokens s.json_refresh_tokens
      → Simulates m t
  loaded-Simulates m s t h (u, e) (u', e') = record {
    access = λ k. h.access k ∙ ap (Option.map details) (sym (e k));
    refresh = λ k. h.refresh k ∙ ap (Option.map refresh_details) (sym (e' k));
    unique_access = h.unique_access;
    unique_refresh = h.unique_refresh;
    unique_json = u h.unique_json;
    unique_json_refresh = u' h.unique_json_refresh;
  }

  memory_run-append :
      (m : TokenStore) (cs ds : List Call)
      → (memory_run m (map rounded (cs ++ ds))).1
        ≡ (memory_run m (map rounded cs)).1
          ++ (memory_run (memory_run m (map rounded cs)).0 (map rounded ds)).1
  unfolding memory_run
  memory_run-append m [] ds = refl
  memory_run-append m (c ∷ cs) ds = cc (memory_run-append (memory_call m (rounded c)).0 cs ds)

  empty-Simulates : Simulates {B = B} new_memory (empty_store none)
  unfolding lookup
  empty-Simulates = record {
    access = λ k. refl;
    refresh = λ k. refl;
    unique_access = tt;
    unique_refresh = tt;
    unique_json = tt;
    unique_json_refresh = tt;
  }

  empty-Saved : Saved codec (empty_store none)
  unfolding load
  empty-Saved = (empty_store none, refl, (λ u. u, λ k. refl), (λ u. u, λ k. refl))

  -- A store in a file that is new, whose saves succeed, and that is loaded again from its file
  -- between any two lists of calls, answers them all as one store in memory that never stopped and
  -- whose times of expiry are cut to whole seconds; JSON decodes what it encodes.
  pub restart_refines :
      (cs ds : List Call)
      → (s : JsonStore B) × (load codec (ok (json_run codec (empty_store none) cs).0.file) ≡ ok s)
        × ((memory_run new_memory (map rounded (cs ++ ds))).1
            ≡ (json_run codec (empty_store none) cs).1 ++ (json_run codec s ds).1)
  restart_refines cs ds =
      let (same, k) = run-Agrees new_memory (empty_store none) cs empty-Simulates in
      let (s, loads, t, r) = run-Saved (empty_store none) cs empty-Saved in
      let (same', _) = run-Agrees _ s ds (loaded-Simulates _ _ s k t r) in
      (s, loads, memory_run-append new_memory cs ds ∙ cc (same, same'))
