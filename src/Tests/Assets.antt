-- ===== src/Tests/Assets.antt =====
-- A commit of an upload of three bytes.
use mcp_hugo_server_go.Base.{◌≡◌, refl, true, false, [], ◌∷◌, none, some}
use mcp_hugo_server_go.Base.Keys.{text_eq}
use mcp_hugo_server_go.Base.Map.{lookup, keep}
use mcp_hugo_server_go.Base.Result.{Result, ok}
use mcp_hugo_server_go.Base.Text.{
  has_prefix, Text, codes, trim_space, text_beq, byte_length, before_first,
}
use mcp_hugo_server_go.Caller.{Context, token_key, key, mutation_key}
use mcp_hugo_server_go.Upload.{
  staging_path_of, UploadStore, UploadEntry, get, begin, begin_at, new_store, prune_expired,
  remove_expired_files, find_owned,
}
use mcp_hugo_server_go.Changes.{Database, default_id, resolve, check_ownership}
use mcp_hugo_server_go.Idempotency.{
  Journal, Json, validate_key, all_key_chars, is_key_char, replay, replay_journal, replay_cached,
  prune, cache_key,
}
use mcp_hugo_server_go.Assets.{
  AssetEnv, validate_asset_bytes, validate_expected_sha256, validate_asset_filename, is_asset_name,
  all_name_chars, extension, to_lower, isolation_caller_key, idempotency_caller_key,
}
use mcp_hugo_server_go.Assets.Commit.{
  World, CommitRequest, CommitError, CommitOutput, Pending, Prepared, failed, pending, Before,
  Locked, prepare, prepare_as, check_entry, prepare_checked, output,
}
use mcp_hugo_server_go.Assets.Publish.{finish}
use mcp_hugo_server_go.Assets.Begin.{
  BeginInput, BeginOutput, BeginError, begin_upload, normalize_input_slug, trim_left_slashes,
}
use mcp_hugo_server_go.Assets.Started.{IsStarted, begin_upload-IsStarted}
use mcp_hugo_server_go.Assets.Finish.{commit_overwrites_nothing}
use mcp_hugo_server_go.Assets.Committed.{IsCommitted, commit_sound}
use mcp_hugo_server_go.Assets.Retry.{commit_retry_fails}

validate_asset_filename_test :
    validate_asset_filename (codes " Hero.PNG ")
    ≡ ok (codes "Hero.PNG", codes ".png", codes "image/png")
unfolding validate_asset_filename is_asset_name all_name_chars extension to_lower trim_space lookup
    text_beq
validate_asset_filename_test = refl

abbrev site : AssetEnv
site = record {
  revision = λ b. b;
  detect_content_type = λ b. codes "image/png";
  is_safe_svg = λ b. false;
  request_hash = λ slug name hash. some (codes "h");
  safe_join = λ slug name. some (codes "/c/post/a.png");
  safe_dir = λ slug. some (codes "/c/post");
  is_writable = λ p. true;
  bundle_error = λ slug. none;
}

abbrev no_database : Database Unit
no_database = record {
  get_change_set_owner = λ d id. ok none;
  create_change_set = λ d id p t. d;
  set_declared_untrusted = λ d id b n. d;
  touch_change_set = λ d id t. d;
  record_change_set_mutation = λ d m. d;
}

abbrev no_journal : Journal Unit
no_journal = record {
  lookup_mutation = λ j c t k ttl. ok none;
  remember_mutation = λ j c t k h r. ok j;
}

abbrev plain : Json CommitOutput
plain = record { encode = λ o. some o.out_sha256; decode = λ t. none }

abbrev ann : Context
ann = record {
  ctx_principal = some (codes "ann");
  ctx_token_id = some (codes "t1");
  ctx_caller_ip = none;
}

abbrev part : Text
part = codes "/c/post/.upload-u1.part"

abbrev whole : UploadEntry
whole = record {
  caller_key = codes "t1";
  slug = codes "post";
  dir = codes "/c/post";
  filename = codes "a.png";
  ext = codes ".png";
  want_mime = codes "image/png";
  size_bytes = 3;
  expected_sha256 = [];
  staging_path = part;
  received_bytes = 3;
  chunks = [];
  created_at = 10;
  expires_at = 910;
}

abbrev before : World Unit Unit
before = record {
  uploads = record {
    ttl = 900;
    entries = (codes "u1", whole) ∷ [];
    files = (part, 7 ∷ 8 ∷ 9 ∷ []) ∷ [];
  };
  registry = record { owners = []; mutations = []; persistent = none };
  results = record { ttl = 0; max_entries = 0; entries = []; persistent = none };
  assets = (codes "/c/post/b.png", 1 ∷ []) ∷ [];
}

abbrev request : CommitRequest
request = record {
  upload_id = codes "u1";
  commit_sha256 = [];
  idempotency_key = codes "k1";
  change_set = [];
  dry_run = false;
}

abbrev usual : Before
usual = record { allowed = true; can_read = true; can_stat = true }

abbrev calm : Locked
calm = record { locked = true; stat_works = true; rename_works = true; found_duplicate = [] }

abbrev handed : Pending
handed = record {
  set_id = codes "default:ann";
  entry = whole;
  staged = 7 ∷ 8 ∷ 9 ∷ [];
  idem_hash = codes "h";
  dest = codes "/c/post/a.png";
  at = 50;
}

abbrev first : World Unit Unit × Prepared
first = prepare site no_database no_journal plain ann before false request usual 50

abbrev second : World Unit Unit × Result CommitError CommitOutput
second = finish site no_database no_journal plain ann first.0 request handed calm 51

first_hands : first ≡ (first.0, pending handed)
unfolding prepare prepare_as check_entry prepare_checked validate_key all_key_chars is_key_char
    byte_length resolve check_ownership get prune_expired remove_expired_files find_owned lookup
    keep text_beq trim_space isolation_caller_key idempotency_caller_key token_key
    validate_asset_bytes validate_expected_sha256 before_first replay replay_journal replay_cached
    prune cache_key key default_id mutation_key
first_hands = refl

second_succeeds : second ≡ (second.0, ok (output site whole (7 ∷ 8 ∷ 9 ∷ []) [] false))
unfolding prepare prepare_as check_entry prepare_checked validate_key all_key_chars is_key_char
    byte_length resolve check_ownership get prune_expired remove_expired_files find_owned lookup
    keep text_beq trim_space isolation_caller_key idempotency_caller_key token_key
    validate_asset_bytes validate_expected_sha256 before_first replay replay_journal replay_cached
    prune cache_key key default_id mutation_key finish
second_succeeds = refl

commit_sound_example :
    IsCommitted site no_database no_journal plain ann before second.0 request handed 50
      (output site whole (7 ∷ 8 ∷ 9 ∷ []) [] false)
commit_sound_example =
    commit_sound site no_database no_journal plain ann before first.0 second.0 false request usual
      50 handed calm 51 (output site whole (7 ∷ 8 ∷ 9 ∷ []) [] false) (unfold lookup in (refl, tt))
      first_hands second_succeeds

commit_retry_fails_example :
    (e : CommitError) × ((prepare site no_database no_journal plain ann second.0 false request usual
        60).1
      ≡ failed e)
commit_retry_fails_example =
    commit_retry_fails site no_database no_journal plain ann before first.0 second.0 false request
      usual 50 handed calm 51 (output site whole (7 ∷ 8 ∷ 9 ∷ []) [] false) request usual 60
      (unfold lookup in (refl, tt)) first_hands second_succeeds refl

b_is_there : lookup (codes "/c/post/b.png") before.assets ≡ some (1 ∷ [])
unfolding lookup text_beq
b_is_there = refl

commit_overwrites_nothing_example :
    lookup
      (codes "/c/post/b.png")
      (finish site no_database no_journal plain ann before request handed calm 51).0.assets
    ≡ some (1 ∷ [])
commit_overwrites_nothing_example =
    commit_overwrites_nothing site no_database no_journal plain ann before request handed calm 51
      (codes "/c/post/b.png") (1 ∷ []) b_is_there

abbrev hero : BeginInput
hero = record {
  in_slug = codes "post/";
  in_filename = codes "hero.png";
  in_size = 3;
  in_sha256 = [];
}

abbrev begun_hero : UploadStore × Result BeginError BeginOutput
begun_hero = begin_upload site ann hero true (some (codes "u2")) true 10 (new_store 900)

hero_begins : begun_hero ≡ (
  begun_hero.0,
  ok (record {
    begun_id = codes "u2";
    begun_slug = codes "post";
    begun_filename = codes "hero.png";
    begun_type = codes "image/png";
  }),
)
unfolding begin_upload normalize_input_slug trim_left_slashes trim_space has_prefix text_beq
    validate_asset_filename is_asset_name all_name_chars extension to_lower lookup
    validate_expected_sha256 begin begin_at staging_path_of
hero_begins = refl

begin_upload-IsStarted_example :
    IsStarted site ann hero true (some (codes "u2")) true 10 begun_hero.0 (record {
      begun_id = codes "u2";
      begun_slug = codes "post";
      begun_filename = codes "hero.png";
      begun_type = codes "image/png";
    })
begin_upload-IsStarted_example =
    begin_upload-IsStarted site ann hero true (some (codes "u2")) true 10 (new_store 900)
      begun_hero.0
      (record {
        begun_id = codes "u2";
        begun_slug = codes "post";
        begun_filename = codes "hero.png";
        begun_type = codes "image/png";
      })
      hero_begins
