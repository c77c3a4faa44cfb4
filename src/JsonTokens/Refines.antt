-- ===== src/JsonTokens/Refines.antt =====
-- The store in a file answers as the one in memory whose times of expiry are whole seconds.
use mathlib.Core.Option
use mathlib.Core.Path.{subst}
use mcp_hugo_server_go.Base.{
  ℕ, ◌*◌, ◌≡◌, refl, sym, ap, ◌∙◌, true, ◌&&◌, Option, none, some, arith, ltb,
}
use mcp_hugo_server_go.Base.Keys.{text_eq, ◌==◌}
use mcp_hugo_server_go.Base.Map.{
  lookup, remove, keep_if, Unique, insert-Unique, remove-Unique, keep-Unique,
}
use mcp_hugo_server_go.Base.Result.{ok}
use mcp_hugo_server_go.Base.Text.{Text}
use mcp_hugo_server_go.Tokens
use mcp_hugo_server_go.Tokens.{TokenStore, AccessEntry, RefreshEntry, NewTokens}
use mcp_hugo_server_go.JsonTokens
use mcp_hugo_server_go.JsonTokens.{
  JsonEntry, JsonRefreshEntry, JsonState, JsonStore, Codec, StoreError, second, unix, details, save,
  next_store, state_of,
}
use mcp_hugo_server_go.JsonTokens.Mirrors.{
  Mirrors, Mirrors-insert, Mirrors-remove, keep_if-map, Mirrors-keep,
}
use mcp_hugo_server_go.JsonTokens.Steps.{
  save_answer, json_exchange_answer, exchange_answer, Call, Answer, memory_call, json_call, rounded,
  whole_tokens,
}

abbrev pub refresh_details : JsonRefreshEntry → RefreshEntry
refresh_details e = record {
  client_id = e.json_client;
  refresh_scope = e.json_refresh_scope;
  refresh_expires = e.json_refresh_expires * second;
}

-- The store in memory has the entries of the one in the file.
pub record Simulates {B : Type 0} (m : TokenStore) (j : JsonStore B) : Type 0 where
  pub access : Mirrors details m.tokens j.json_tokens
  pub refresh : Mirrors refresh_details m.refresh_tokens j.json_refresh_tokens
  pub unique_access : Unique m.tokens
  pub unique_refresh : Unique m.refresh_tokens
  pub unique_json : Unique j.json_tokens
  pub unique_json_refresh : Unique j.json_refresh_tokens

-- A time is before a whole second as its seconds are.
pub whole_test : (now expires : ℕ) → ltb now (expires * second) ≡ ltb (unix now) expires
whole_test now expires = ground arith

-- Every state has an encoding, as the states of the store have.
abbrev pub IsTotal : {B : Type 0} → Codec B → Type 0
IsTotal {B} codec = (state : JsonState) → (text : B) × (codec.marshal state ≡ some text)

scope_of_details :
    (o : Option JsonRefreshEntry)
    → Tokens.refresh_scope_of (Option.map refresh_details o)
      ≡ Option.map (λ (e : JsonRefreshEntry). e.json_refresh_scope) o
scope_of_details none = refl
scope_of_details (some e) = refl

scope_of_access :
    (o : Option JsonEntry)
    → Tokens.scope_of (Option.map details o) ≡ Option.map (λ (e : JsonEntry). e.json_scope) o
scope_of_access none = refl
scope_of_access (some e) = refl

-- The answers are equal, and the stores still hold the same.
abbrev pub Agrees : {B : Type 0} → TokenStore × Answer → JsonStore B × Answer → Type 0
Agrees (m, a) (j, b) = (a ≡ b) × Simulates m j

module _ {B : Type 0} (codec : Codec B) (total : IsTotal codec) where
  saved_store :
      (s : JsonStore B) → (text : B) × (save codec s true ≡ (record s { file = some text }, ok tt))
  unfolding save
  saved_store s = let (text, e) = total (state_of codec s) in (text, rw e)

  saved-Agrees :
      (m : TokenStore) (s : JsonStore B)
      → Simulates m s
      → Agrees (m, Answer.done) (save_answer (save codec s true))
  saved-Agrees m s h =
      let (text, e) = saved_store s in
      subst (λ q. Agrees (m, Answer.done) (save_answer q)) (sym e) (refl, with_file s text h)
    where
      with_file :
          (t : JsonStore B) (text : B) → Simulates m t → Simulates m (record t { file = some text })
      with_file t text k = record {
        access = k.access;
        refresh = k.refresh;
        unique_access = k.unique_access;
        unique_refresh = k.unique_refresh;
        unique_json = k.unique_json;
        unique_json_refresh = k.unique_json_refresh;
      }

  module _ (m : TokenStore) (j : JsonStore B) (h : Simulates m j) where
    add_access-Agrees :
        (token scope principal : Text) (expires : ℕ)
        → Agrees
            (memory_call m (rounded (Call.add_access token scope principal expires)))
            (json_call codec j (Call.add_access token scope principal expires))
    unfolding Tokens.add_access_token JsonTokens.add_access_token
    add_access-Agrees token scope principal expires = saved-Agrees _ _ (record {
      access = Mirrors-insert details m.tokens j.json_tokens token _ h.access;
      refresh = h.refresh;
      unique_access = insert-Unique token _ m.tokens h.unique_access;
      unique_refresh = h.unique_refresh;
      unique_json = insert-Unique token _ j.json_tokens h.unique_json;
      unique_json_refresh = h.unique_json_refresh;
    })

    add_refresh-Agrees :
        (token client scope : Text) (expires : ℕ)
        → Agrees
            (memory_call m (rounded (Call.add_refresh token client scope expires)))
            (json_call codec j (Call.add_refresh token client scope expires))
    unfolding Tokens.add_refresh_token JsonTokens.add_refresh_token
    add_refresh-Agrees token client scope expires = saved-Agrees _ _ (record {
      access = h.access;
      refresh =
          Mirrors-insert refresh_details m.refresh_tokens j.json_refresh_tokens token _ h.refresh;
      unique_access = h.unique_access;
      unique_refresh = insert-Unique token _ m.refresh_tokens h.unique_refresh;
      unique_json = h.unique_json;
      unique_json_refresh = insert-Unique token _ j.json_refresh_tokens h.unique_json_refresh;
    })

    purge-Agrees :
        (now : ℕ) → Agrees (memory_call m (Call.purge now)) (json_call codec j (Call.purge now))
    unfolding Tokens.purge_expired_tokens JsonTokens.purge_expired_tokens
    purge-Agrees now = saved-Agrees _ _ (record {
      access =
          Mirrors-keep details _ _ m.tokens j.json_tokens h.unique_access h.unique_json
            (λ e. whole_test now e.json_expires) h.access;
      refresh =
          Mirrors-keep refresh_details _ _ m.refresh_tokens j.json_refresh_tokens h.unique_refresh
            h.unique_json_refresh (λ e. whole_test now e.json_refresh_expires) h.refresh;
      unique_access = keep-Unique _ m.tokens h.unique_access;
      unique_refresh = keep-Unique _ m.refresh_tokens h.unique_refresh;
      unique_json = keep-Unique _ j.json_tokens h.unique_json;
      unique_json_refresh = keep-Unique _ j.json_refresh_tokens h.unique_json_refresh;
    })

    check_access_scope-Agrees :
        (token : Text) (now : ℕ)
        → Agrees
            (memory_call m (Call.check_access_scope token now))
            (json_call codec j (Call.check_access_scope token now))
    unfolding Tokens.validate_access_token JsonTokens.validate_access_token
    check_access_scope-Agrees token now = (
      ap Answer.access_scope (
          ap (λ o. Tokens.scope_of (keep_if (Tokens.is_current now) o)) (h.access token)
          ∙ ap Tokens.scope_of (
              keep_if-map details _ _ (lookup token j.json_tokens)
                (λ e. whole_test now e.json_expires))
          ∙ scope_of_access _),
      h,
    )

    check_access-Agrees :
        (token : Text) (now : ℕ)
        → Agrees
            (memory_call m (Call.check_access token now))
            (json_call codec j (Call.check_access token now))
    unfolding Tokens.validate_access_token_details JsonTokens.validate_access_token_details
    check_access-Agrees token now = (
      ap Answer.access_details (
          ap (keep_if (Tokens.is_current now)) (h.access token)
          ∙ keep_if-map details _ _ (lookup token j.json_tokens)
              (λ e. whole_test now e.json_expires)),
      h,
    )

    refresh_found :
        (token client : Text) (now : ℕ)
        → keep_if (Tokens.is_usable client now) (lookup token m.refresh_tokens)
          ≡ Option.map refresh_details
              (keep_if (JsonTokens.is_usable codec client now) (lookup token j.json_refresh_tokens))
    refresh_found token client now =
        ap (keep_if (Tokens.is_usable client now)) (h.refresh token)
        ∙ keep_if-map refresh_details _ _ (lookup token j.json_refresh_tokens)
            (λ e. ap (λ b. (e.json_client == client) && b) (whole_test now e.json_refresh_expires))

    check_refresh-Agrees :
        (token client : Text) (now : ℕ)
        → Agrees
            (memory_call m (Call.check_refresh token client now))
            (json_call codec j (Call.check_refresh token client now))
    unfolding Tokens.validate_refresh_token JsonTokens.validate_refresh_token
    check_refresh-Agrees token client now = (
      ap Answer.refresh_scope (
          ap Tokens.refresh_scope_of (refresh_found token client now)
          ∙ scope_of_details (
              keep_if (JsonTokens.is_usable codec client now)
                (lookup token j.json_refresh_tokens))),
      h,
    )

    found-Agrees :
        (old client : Text) (n : NewTokens) (found : Option JsonRefreshEntry)
        → Agrees
            (exchange_answer
              (Tokens.exchanged m old client (whole_tokens n) (Option.map refresh_details found)))
            (json_exchange_answer (JsonTokens.exchange_found codec j old client n true found))
    unfolding Tokens.exchanged Tokens.add_access_token Tokens.add_refresh_token
    found-Agrees old client n none = (refl, h)
    found-Agrees old client n (some e) =
        let next = next_store codec j old client n e in
        let (text, saved) = saved_store next in
        subst
          (λ q.
            Agrees
              (exchange_answer
                (Tokens.exchanged m old client (whole_tokens n) (some (refresh_details e))))
              (json_exchange_answer (JsonTokens.if_saved codec j e.json_refresh_scope q)))
          (sym saved)
          (
            refl,
            record {
              access = Mirrors-insert details m.tokens j.json_tokens n.new_access_token _ h.access;
              refresh =
                  Mirrors-insert refresh_details (remove old m.refresh_tokens)
                    (remove old j.json_refresh_tokens) n.new_refresh_token _
                    (Mirrors-remove refresh_details m.refresh_tokens j.json_refresh_tokens old
                      h.refresh);
              unique_access = insert-Unique n.new_access_token _ m.tokens h.unique_access;
              unique_refresh =
                  insert-Unique n.new_refresh_token _ (remove old m.refresh_tokens)
                    (remove-Unique old m.refresh_tokens h.unique_refresh);
              unique_json = insert-Unique n.new_access_token _ j.json_tokens h.unique_json;
              unique_json_refresh =
                  insert-Unique n.new_refresh_token _ (remove old j.json_refresh_tokens)
                    (remove-Unique old j.json_refresh_tokens h.unique_json_refresh);
            },
          )

    exchange-Agrees :
        (old client : Text) (n : NewTokens) (now : ℕ)
        → Agrees
            (memory_call m (rounded (Call.exchange old client n now)))
            (json_call codec j (Call.exchange old client n now))
    unfolding Tokens.exchange_refresh_token JsonTokens.exchange_refresh_token
    exchange-Agrees old client n now =
        subst
          (λ q. Agrees (exchange_answer (Tokens.exchanged m old client (whole_tokens n) q)) (
            json_exchange_answer (
              JsonTokens.exchange_found codec j old client n true (
                keep_if (JsonTokens.is_usable codec client now)
                  (lookup old j.json_refresh_tokens)))))
          (sym (refresh_found old client now))
          (found-Agrees old client n
            (keep_if (JsonTokens.is_usable codec client now) (lookup old j.json_refresh_tokens)))

    pub call-Agrees : (c : Call) → Agrees (memory_call m (rounded c)) (json_call codec j c)
    call-Agrees (Call.add_access token scope principal expires) =
        add_access-Agrees token scope principal expires
    call-Agrees (Call.add_refresh token client scope expires) =
        add_refresh-Agrees token client scope expires
    call-Agrees (Call.exchange old client n now) = exchange-Agrees old client n now
    call-Agrees (Call.purge now) = purge-Agrees now
    call-Agrees (Call.check_access_scope token now) = check_access_scope-Agrees token now
    call-Agrees (Call.check_access token now) = check_access-Agrees token now
    call-Agrees (Call.check_refresh token client now) = check_refresh-Agrees token client now
