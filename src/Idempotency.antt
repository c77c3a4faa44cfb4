-- ===== src/Idempotency.antt =====
-- internal/tools/write/idempotency.go: the store of results of mutations. The journal in the
-- database is an interface, whose state is `J`; results are texts of JSON, encoded and decoded by a
-- parameter. Times are natural numbers, so `now.Sub(created) > ttl` is `created + ttl < now`.
pub mod Keys
pub mod Trim
pub mod Recall
use mcp_hugo_server_go.Base.{
  ℕ, zero, suc, ◌+◌, Bool, true, false, not, ◌&&◌, ◌||◌, List, [], ◌∷◌, ◌++◌, Option, none, some,
  ltb, leb, nat_beq, length, any, if◌then◌else◌,
}
use mcp_hugo_server_go.Base.Keys.{text_eq, ◌==◌}
use mcp_hugo_server_go.Base.Map.{Map, lookup, insert, remove, keep}
use mcp_hugo_server_go.Base.Result.{Result, ok, err, ◌>>=◌}
use mcp_hugo_server_go.Base.Text.{Text, codes, trim_space, byte_length}

pub data KeyError : Type 0 where
  too_long bad_characters : KeyError

-- The character class of `idempotencyKeyPattern`
unfoldable pub is_key_char : ℕ → Bool
is_key_char c =
    (leb b'A' c && leb c b'Z')
    || (leb b'a' c && leb c b'z')
    || (leb b'0' c && leb c b'9')
    || nat_beq c b'_'
    || nat_beq c b'-'

-- `idempotencyKeyPattern.MatchString` on a text that is not empty
unfoldable pub all_key_chars : Text → Bool
all_key_chars [] = true
all_key_chars (c ∷ s) = is_key_char c && all_key_chars s

abbrev pub max_key_length : ℕ
max_key_length = 128

-- `validateIdempotencyKey`; `none` is the nil error.
unfoldable pub validate_key : Text → Option KeyError
validate_key key =
    if trim_space key == []
    then none
    else if ltb max_key_length (byte_length key)
    then some too_long
    else if not (all_key_chars key)
    then some bad_characters
    else none

-- `cacheKey`
unfoldable pub cache_key : Text → Text → Text → Text
cache_key caller tool key = caller ++ (0 ∷ (tool ++ (0 ∷ key)))

-- `idempotencyEntry`
pub record Entry : Type 0 where
  pub request_hash : Text
  pub result_json : Text
  pub created_at : ℕ

pub data IdemError : Type 0 where
  journal_error conflict json_error : IdemError

-- What the store uses of the database.
pub record Journal (J : Type 0) : Type 0 where
  pub lookup_mutation : J → Text → Text → Text → ℕ → Result IdemError (Option Entry)
  pub remember_mutation : J → Text → Text → Text → Text → Text → Result IdemError J

pub record Json (A : Type 0) : Type 0 where
  pub encode : A → Option Text
  pub decode : Text → Option A

-- `idempotencyStore`; a `ttl` or `max_entries` of 0 stands for one that is not positive.
pub record Store (J : Type 0) : Type 0 where
  pub ttl : ℕ
  pub max_entries : ℕ
  pub entries : Map Text Entry
  pub persistent : Option J

-- `pruneLocked`
unfoldable pub prune : ℕ → ℕ → Map Text Entry → Map Text Entry
prune ttl now m = if nat_beq ttl 0 then m else keep (λ _ e. not (ltb (e.created_at + ttl) now)) m

-- The inner loop of `trimLocked`: the key of the oldest entry
unfoldable pub oldest_from : Text → ℕ → Map Text Entry → Text
oldest_from oldest_key oldest [] = oldest_key
oldest_from oldest_key oldest ((k, e) ∷ m) =
    let older = ltb e.created_at oldest in
    oldest_from (if older then k else oldest_key) (if older then e.created_at else oldest) m

abbrev pub oldest_key : Map Text Entry → Text
oldest_key [] = []
oldest_key ((k, e) ∷ m) = oldest_from k e.created_at m

-- The outer loop, on fuel
unfoldable pub trim_loop : ℕ → ℕ → Map Text Entry → Map Text Entry
trim_loop zero max_entries m = m
trim_loop (suc fuel) max_entries m =
    let rest = trim_loop fuel max_entries (remove (oldest_key m) m) in
    if ltb max_entries (length m) then rest else m

-- `trimLocked`
unfoldable pub trim : ℕ → Map Text Entry → Map Text Entry
trim max_entries m =
    if nat_beq max_entries 0 || leb (length m) max_entries
    then m
    else trim_loop (length m) max_entries m

module _ {J A : Type 0} (journal : Journal J) (json : Json A) where
  open journal use {lookup_mutation, remember_mutation}
  open json use {encode, decode}

  abbrev pub decoded : Option A → Result IdemError (Option A)
  decoded none = err json_error
  decoded (some a) = ok (some a)

  -- The tests on an entry that was found
  unfoldable pub answer : Text → Entry → Result IdemError (Option A)
  answer request_hash e =
      if not (e.request_hash == request_hash) then err conflict else decoded (decode e.result_json)

  abbrev pub answer_option : Text → Option Entry → Result IdemError (Option A)
  answer_option request_hash none = ok none
  answer_option request_hash (some e) = answer request_hash e

  -- The part of `replay` behind the journal
  unfoldable pub replay_cached :
      Store J → Text → Text → Text → Text → ℕ → Store J × Result IdemError (Option A)
  replay_cached s caller tool key request_hash now =
      let entries = prune s.ttl now s.entries in
      (
        record s { entries = entries },
        answer_option request_hash (lookup (cache_key caller tool key) entries),
      )

  unfoldable pub replay_journal :
      Store J
      → Result IdemError (Option Entry)
      → Text
      → Text
      → Text
      → Text
      → ℕ
      → Store J × Result IdemError (Option A)
  replay_journal s (err e) caller tool key request_hash now = (s, err e)
  replay_journal s (ok none) caller tool key request_hash now =
      replay_cached s caller tool key request_hash now
  replay_journal s (ok (some e)) caller tool key request_hash now = (s, answer request_hash e)

  abbrev pub journal_entry : Store J → Text → Text → Text → Result IdemError (Option Entry)
  journal_entry s caller tool key = elim s.persistent [
    | none ↦ ok none
    | some j ↦ lookup_mutation j caller tool key s.ttl
  ]

  -- `replay`; `ok none` is a miss, `ok (some a)` a hit.
  unfoldable pub replay :
      Store J → Text → Text → Text → Text → ℕ → Store J × Result IdemError (Option A)
  replay s caller tool key request_hash now =
      if key == []
      then (s, ok none)
      else replay_journal s (journal_entry s caller tool key) caller tool key request_hash now

  -- The part of `remember` behind the journal
  unfoldable pub remember_cached : Store J → Text → Text → Text → Text → Text → ℕ → Store J
  remember_cached s caller tool key request_hash raw now =
      let entry : Entry = record {
        request_hash = request_hash;
        result_json = raw;
        created_at = now;
      } in
      record s {
        entries =
            trim s.max_entries
              (insert (cache_key caller tool key) entry (prune s.ttl now s.entries));
      }

  abbrev pub remember_journal :
      Store J → Text → Text → Text → Text → Text → Result IdemError (Store J)
  remember_journal s caller tool key request_hash raw = elim s.persistent [
    | none ↦ ok s
    | some j ↦ remember_mutation j caller tool key request_hash raw >>= λ j'.
        ok (record s { persistent = some j' })
  ]

  abbrev pub remember_raw :
      Store J → Text → Text → Text → Text → ℕ → Option Text → Result IdemError (Store J)
  remember_raw s caller tool key request_hash now none = err json_error
  remember_raw s caller tool key request_hash now (some raw) =
      remember_journal s caller tool key request_hash raw >>= λ s'.
      ok (remember_cached s' caller tool key request_hash raw now)

  -- `remember`
  unfoldable pub remember : Store J → Text → Text → Text → Text → A → ℕ → Result IdemError (Store J)
  remember s caller tool key request_hash out now =
      if key == [] then ok s else remember_raw s caller tool key request_hash now (encode out)
