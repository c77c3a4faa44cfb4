-- ===== src/JsonTokens.antt =====
-- internal/storage/json.go: the store of tokens in a file. Times are in nanoseconds, as in the store
-- in memory, and `Time.Unix` cuts them to seconds. The encoding of JSON is an interface; whether the
-- directory, the temporary file and the renaming succeed is an argument. Since the file is replaced
-- by renaming, a save that fails leaves it as it was.
pub mod Steps
pub mod Mirrors
pub mod Refines
pub mod Reload
use mathlib.Core.Option
use mcp_hugo_server_go.Base.{
  ℕ, ◌*◌, ◌/◌, Bool, true, false, not, ◌&&◌, List, [], Option, none, some, ltb, if◌then◌else◌,
}
use mcp_hugo_server_go.Base.Keys.{text_eq, ◌==◌}
use mcp_hugo_server_go.Base.Map.{Map, lookup, insert, remove, keep, keep_if}
use mcp_hugo_server_go.Base.Result.{Result, ok, err, ◌>>=◌}
use mcp_hugo_server_go.Base.Text.{Text}
use mcp_hugo_server_go.Tokens.{AccessEntry, NewTokens}

abbrev pub second : ℕ
second = 1000000000

-- `t.Unix()`
abbrev pub unix : ℕ → ℕ
unix t = t / second

-- `jsonEntry`
pub record JsonEntry : Type 0 where
  pub json_principal : Text
  pub json_scope : Text
  pub json_expires : ℕ

-- `jsonRefreshEntry`
pub record JsonRefreshEntry : Type 0 where
  pub json_client : Text
  pub json_refresh_scope : Text
  pub json_refresh_expires : ℕ

-- `jsonState`, where a nil map is `none`
pub record JsonState : Type 0 where
  pub access_map : Option (Map Text JsonEntry)
  pub refresh_map : Option (Map Text JsonRefreshEntry)

-- `jsonStore`, with the contents of its file if there is one; `B` is the type of contents.
pub record JsonStore (B : Type 0) : Type 0 where
  pub json_tokens : Map Text JsonEntry
  pub json_refresh_tokens : Map Text JsonRefreshEntry
  pub file : Option B

pub data StoreError : Type 0 where
  read_failed not_json not_saved : StoreError

-- A legacy map is not nil: a file that holds `null` is left out.
-- `json.MarshalIndent` of a state, `len(data) == 0`, and `json.Unmarshal` into a state and into the legacy map
pub record Codec (B : Type 0) : Type 0 where
  pub marshal : JsonState → Option B
  pub is_empty : B → Bool
  pub unmarshal_state : B → Option JsonState
  pub unmarshal_legacy : B → Option (Map Text JsonEntry)

-- The maps of `NewJSON` before it loads
abbrev pub empty_store : {B : Type 0} → Option B → JsonStore B
empty_store file = record { json_tokens = []; json_refresh_tokens = []; file = file }

abbrev pub map_or_empty : {V : Type 0} → Option (Map Text V) → Map Text V
map_or_empty none = []
map_or_empty (some m) = m

module _ {B : Type 0} (codec : Codec B) where
  open codec use {marshal, is_empty, unmarshal_state, unmarshal_legacy}

  abbrev pub load_legacy : B → Option (Map Text JsonEntry) → Result StoreError (JsonStore B)
  load_legacy text none = err not_json
  load_legacy text (some tokens) =
      ok (record { json_tokens = tokens; json_refresh_tokens = []; file = some text })

  abbrev pub load_access :
      B
      → Option (Map Text JsonEntry)
      → Option (Map Text JsonRefreshEntry)
      → Result StoreError (JsonStore B)
  load_access text none refresh = load_legacy text (unmarshal_legacy text)
  load_access text (some tokens) refresh = ok (record {
    json_tokens = tokens;
    json_refresh_tokens = map_or_empty refresh;
    file = some text;
  })

  abbrev pub load_state : B → Option JsonState → Result StoreError (JsonStore B)
  load_state text none = load_legacy text (unmarshal_legacy text)
  load_state text (some state) = load_access text state.access_map state.refresh_map

  -- `NewJSON` with `load`; the argument is the result of reading, `ok none` where there is no file.
  unfoldable pub load : Result StoreError (Option B) → Result StoreError (JsonStore B)
  load (err e) = err read_failed
  load (ok none) = ok (empty_store none)
  load (ok (some text)) =
      if is_empty text then ok (empty_store (some text)) else load_state text (unmarshal_state text)

  abbrev pub state_of : JsonStore B → JsonState
  state_of s = record { access_map = some s.json_tokens; refresh_map = some s.json_refresh_tokens }

  abbrev pub written_file : Bool → Option B → Result StoreError B
  written_file saved none = err not_saved
  written_file saved (some text) = if saved then ok text else err not_saved

  abbrev pub with_file : JsonStore B → Result StoreError B → JsonStore B × Result StoreError Unit
  with_file s (err e) = (s, err e)
  with_file s (ok text) = (record s { file = some text }, ok tt)

  -- `save`, with `saveJSONState`
  unfoldable pub save : JsonStore B → Bool → JsonStore B × Result StoreError Unit
  save s saved = with_file s (written_file saved (marshal (state_of s)))

  -- `AddAccessToken`
  unfoldable pub add_access_token :
      JsonStore B → Text → Text → Text → ℕ → Bool → JsonStore B × Result StoreError Unit
  add_access_token s token scope principal expires saved =
      save
        (record s {
          json_tokens =
              insert token
                (record {
                  json_principal = principal;
                  json_scope = scope;
                  json_expires = unix expires;
                })
                s.json_tokens;
        })
        saved

  -- `AddRefreshToken`
  unfoldable pub add_refresh_token :
      JsonStore B → Text → Text → Text → ℕ → Bool → JsonStore B × Result StoreError Unit
  add_refresh_token s token client scope expires saved =
      save
        (record s {
          json_refresh_tokens =
              insert token
                (record {
                  json_client = client;
                  json_refresh_scope = scope;
                  json_refresh_expires = unix expires;
                })
                s.json_refresh_tokens;
        })
        saved

  -- The maps that `ExchangeRefreshToken` saves, and only then takes over
  abbrev pub next_store : JsonStore B → Text → Text → NewTokens → JsonRefreshEntry → JsonStore B
  next_store s old client n e = record s {
    json_tokens =
        insert n.new_access_token
          (record {
            json_principal = client;
            json_scope = e.json_refresh_scope;
            json_expires = unix n.access_expires_at;
          })
          s.json_tokens;
    json_refresh_tokens =
        insert n.new_refresh_token
          (record {
            json_client = client;
            json_refresh_scope = e.json_refresh_scope;
            json_refresh_expires = unix n.refresh_expires_at;
          })
          (remove old s.json_refresh_tokens);
  }

  abbrev pub if_saved :
      JsonStore B
      → Text
      → JsonStore B × Result StoreError Unit
      → JsonStore B × Result StoreError (Option Text)
  if_saved s scope (s', err e) = (s, err e)
  if_saved s scope (s', ok x) = (s', ok (some scope))

  abbrev pub exchange_found :
      JsonStore B
      → Text
      → Text
      → NewTokens
      → Bool
      → Option JsonRefreshEntry
      → JsonStore B × Result StoreError (Option Text)
  exchange_found s old client n saved none = (s, ok none)
  exchange_found s old client n saved (some e) =
      if_saved s e.json_refresh_scope (save (next_store s old client n e) saved)

  -- `e.clientID != clientID || time.Now().Unix() >= e.ExpiresAt`, negated
  abbrev pub is_usable : Text → ℕ → JsonRefreshEntry → Bool
  is_usable client now e = e.json_client == client && ltb (unix now) e.json_refresh_expires

  -- `ExchangeRefreshToken`
  unfoldable pub exchange_refresh_token :
      JsonStore B
      → Text
      → Text
      → NewTokens
      → ℕ
      → Bool
      → JsonStore B × Result StoreError (Option Text)
  exchange_refresh_token s old client n now saved =
      exchange_found s old client n saved
        (keep_if (is_usable client now) (lookup old s.json_refresh_tokens))

  -- `PurgeExpiredTokens`
  unfoldable pub purge_expired_tokens :
      JsonStore B → ℕ → Bool → JsonStore B × Result StoreError Unit
  purge_expired_tokens s now saved =
      save
        (record s {
          json_tokens = keep (λ _ e. ltb (unix now) e.json_expires) s.json_tokens;
          json_refresh_tokens =
              keep (λ _ e. ltb (unix now) e.json_refresh_expires) s.json_refresh_tokens;
        })
        saved

-- `AccessTokenDetails`, with `time.Unix(e.ExpiresAt, 0)`
abbrev pub details : JsonEntry → AccessEntry
details e = record {
  principal = e.json_principal;
  scope = e.json_scope;
  expires = e.json_expires * second;
}

-- `!ok || time.Now().Unix() >= e.ExpiresAt`, negated
abbrev pub is_current : ℕ → JsonEntry → Bool
is_current now e = ltb (unix now) e.json_expires

-- `ValidateAccessTokenDetails`
unfoldable pub validate_access_token_details :
    {B : Type 0} → JsonStore B → Text → ℕ → Option AccessEntry
validate_access_token_details s token now =
    Option.map details (keep_if (is_current now) (lookup token s.json_tokens))

-- `ValidateAccessToken`
unfoldable pub validate_access_token : {B : Type 0} → JsonStore B → Text → ℕ → Option Text
validate_access_token s token now =
    Option.map (λ (e : JsonEntry). e.json_scope)
      (keep_if (is_current now) (lookup token s.json_tokens))

-- `ValidateRefreshToken`
unfoldable pub validate_refresh_token : {B : Type 0} → JsonStore B → Text → Text → ℕ → Option Text
validate_refresh_token s token client now =
    Option.map (λ (e : JsonRefreshEntry). e.json_refresh_scope)
      (keep_if (λ e. e.json_client == client && ltb (unix now) e.json_refresh_expires)
        (lookup token s.json_refresh_tokens))
