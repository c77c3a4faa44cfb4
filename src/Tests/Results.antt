-- ===== src/Tests/Results.antt =====
-- A result of `create_page` that is remembered at time 5. Results are their own texts.
use mcp_hugo_server_go.Base.{◌≤◌, ◌<◌, ◌≡◌, ◌≢◌, refl, inr, [], ◌∷◌, none, some, arith, length}
use mcp_hugo_server_go.Base.Keys.{text_eq}
use mcp_hugo_server_go.Base.Map.{lookup, insert, keep, remove}
use mcp_hugo_server_go.Base.Result.{Result, ok, err}
use mcp_hugo_server_go.Base.Text.{Text, codes, text_beq, text_ne, trim_space, byte_length}
use mcp_hugo_server_go.Idempotency.{
  remember_cached, prune, trim, trim_loop, oldest_from, replay_journal, replay_cached, answer,
  Entry, IdemError, conflict, Journal, Json, Store, remember, replay, cache_key, validate_key,
  all_key_chars, is_key_char,
}
use mcp_hugo_server_go.Idempotency.Keys.{cache_key-injective}
use mcp_hugo_server_go.Idempotency.Recall.{replay-remember, length-remember, remember_isolated}

-- A database that never has anything.
abbrev silent : Journal (Unit {0})
silent = record {
  lookup_mutation = λ j c t k ttl. ok none;
  remember_mutation = λ j c t k h raw. ok tt;
}

abbrev plain : Json Text
plain = record { encode = λ a. some a; decode = λ s. some s }

abbrev empty : Store (Unit {0})
empty = record { ttl = 900; max_entries = 2; entries = []; persistent = none }

nothing_older : (j : Text) (f : Entry) → lookup j empty.entries ≡ some f → f.created_at < 5
unfolding lookup
nothing_older j f h = absurd (cc)

abbrev tool : Text
tool = codes "create_page"

other_hash : codes "h2" ≢ codes "h1"
other_hash = text_ne (codes "h2") (codes "h1") (unfold text_beq in refl)

replay-remember_example :
    (s' : Store (Unit {0})) × (remember silent plain empty
        (codes "alice")
        tool
        (codes "k1")
        (codes "h1")
        (codes "done")
        5
      ≡ ok s')
    × ((replay silent plain s' (codes "alice") tool (codes "k1") (codes "h1") 600).1
        ≡ ok (some (codes "done")))
    × ((replay silent plain s' (codes "alice") tool (codes "k1") (codes "h2") 600).1 ≡ err conflict)
replay-remember_example =
    replay-remember silent plain empty (codes "alice") tool (codes "k1") (codes "h1") (codes "h2")
      (codes "done") (codes "done") 5 600 refl tt nothing_older (λ e. cc) refl refl
      (inr (omega arith)) other_hash

abbrev busy : Store (Unit {0})
busy = record {
  ttl = 900;
  max_entries = 2;
  entries =
      (codes "x", record { request_hash = []; result_json = []; created_at = 1 })
      ∷ (codes "y", record { request_hash = []; result_json = []; created_at = 2 })
      ∷ [];
  persistent = none;
}

abbrev after : Result IdemError (Store (Unit {0}))
after = remember silent plain busy (codes "alice") tool (codes "k1") (codes "h1") (codes "done") 5

abbrev trimmed : Store (Unit {0})
trimmed = record {
  ttl = 900;
  max_entries = 2;
  entries =
      (codes "y", record { request_hash = []; result_json = []; created_at = 2 })
      ∷ (
        cache_key (codes "alice") tool (codes "k1"),
        record { request_hash = codes "h1"; result_json = codes "done"; created_at = 5 },
      )
      ∷ [];
  persistent = none;
}

after_lem : after ≡ ok trimmed
unfolding remember remember_cached prune trim trim_loop oldest_from insert keep remove cache_key
    text_beq
after_lem = refl

length-remember_example : length trimmed.entries ≤ 2
length-remember_example =
    length-remember silent plain busy trimmed (codes "alice") tool (codes "k1") (codes "h1")
      (codes "done") 5 (unfold lookup text_beq in (refl, (refl, tt))) (λ e. cc) (omega arith)
      after_lem

abbrev bob_store : Store (Unit {0})
bob_store = record {
  ttl = 900;
  max_entries = 2;
  entries =
      (
        cache_key (codes "bob") tool (codes "k1"),
        record { request_hash = codes "h1"; result_json = codes "bob's"; created_at = 2 },
      )
      ∷ [];
  persistent = none;
}

abbrev both : Store (Unit {0})
both = record {
  ttl = 900;
  max_entries = 2;
  entries =
      (
        cache_key (codes "bob") tool (codes "k1"),
        record { request_hash = codes "h1"; result_json = codes "bob's"; created_at = 2 },
      )
      ∷ (
        cache_key (codes "alice") tool (codes "k1"),
        record { request_hash = codes "h1"; result_json = codes "done"; created_at = 5 },
      )
      ∷ [];
  persistent = none;
}

both_lem :
    remember silent plain bob_store (codes "alice") tool (codes "k1") (codes "h1") (codes "done") 5
    ≡ ok both
unfolding remember remember_cached prune trim trim_loop oldest_from insert keep remove cache_key
    text_beq
both_lem = refl

bob_hit :
    (replay silent plain both (codes "bob") tool (codes "k1") (codes "h1") 7).1
    ≡ ok (some (codes "bob's"))
unfolding replay replay_journal replay_cached answer prune lookup keep cache_key text_beq
bob_hit = refl

apart : cache_key (codes "bob") tool (codes "k1") ≢ cache_key (codes "alice") tool (codes "k1")
unfolding cache_key
apart e = cc

remember_isolated_example :
    (replay silent plain bob_store (codes "bob") tool (codes "k1") (codes "h1") 7).1
    ≡ ok (some (codes "bob's"))
remember_isolated_example =
    remember_isolated silent plain bob_store both (codes "alice") tool (codes "k1") (codes "h1")
      (codes "done") (codes "done") 5 7 (codes "bob") tool (codes "k1") (codes "h1") (codes "bob's")
      refl (unfold lookup in (refl, tt)) (λ e. cc) (λ e. cc) refl apart both_lem bob_hit

cache_key-injective_example :
    (codes "a" ≡ codes "a") × (codes "t" ≡ codes "t") × (codes "k" ≡ codes "k")
cache_key-injective_example =
    cache_key-injective (codes "a") (codes "t") (codes "k") (codes "a") (codes "t") (codes "k")
      (omega arith) (omega arith) (omega arith) (omega arith) refl

accepted_key : validate_key (codes "a-1") ≡ none
unfolding validate_key trim_space byte_length all_key_chars is_key_char text_beq
accepted_key = refl
