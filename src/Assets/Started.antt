-- ===== src/Assets/Started.antt =====
-- What an upload that has begun looks like.
use mathlib.Core.Path.{subst}
use mcp_hugo_server_go.Base.{
  All, ℕ, ◌<◌, ◌≤◌, ◌≡◌, ◌≢◌, refl, sym, ap, ◌∙◌, inl, inr, Bool, true, false, [], ◌∷◌, Option,
  none, some, ltb, nat_beq, arith, Bool-cases, Option-cases,
}
use mcp_hugo_server_go.Base.Keys.{text_eq, ◌==◌}
use mcp_hugo_server_go.Base.Map.{lookup, lookup-insert_self}
use mcp_hugo_server_go.Base.Result.{Result, ok, err}
use mcp_hugo_server_go.Base.Text.{Text, trim_space}
use mcp_hugo_server_go.Caller.{Context}
use mcp_hugo_server_go.Upload.{
  UploadStore, UploadEntry, UploadError, BeginRequest, begin, begin_at, staging_path_of, new_entry,
}
use mcp_hugo_server_go.Assets.{
  AssetEnv, AssetError, max_asset_bytes, allowed_asset_types, is_asset_name, all_name_chars,
  named_type, validate_asset_filename, isolation_caller_key,
}
use mcp_hugo_server_go.Assets.Begin.{
  BeginInput, BeginOutput, BeginError, slug, begin_request, begun, begin_in, begin_bundle,
  begin_hashed, begin_named, begin_upload,
}

-- One component of a path that is not hidden: no `/`, and no `.` at the front
abbrev pub IsPlainName : Text → Type 0
IsPlainName [] = ⊥
IsPlainName (c ∷ s) = (c ≢ 0x2E) × All (λ d. d ≢ 0x2F) (c ∷ s)

name_chars : (s : Text) → all_name_chars s ≡ true → All (λ d. d ≢ 0x2F) s
unfolding all_name_chars
name_chars [] h = tt
name_chars (c ∷ s) h = (λ e. ground arith, name_chars s (ground arith))

is_asset_name-IsPlainName : (s : Text) → is_asset_name s ≡ true → IsPlainName s
unfolding is_asset_name
is_asset_name-IsPlainName [] h = absurd (cc h)
is_asset_name-IsPlainName (c ∷ s) h =
    (λ e. ground arith, (λ e. ground arith, name_chars s (ground arith)))

-- The name is plain, and its type is allowed.
abbrev pub IsNamed : Result AssetError (Text × Text × Text) → Type 0
IsNamed (err x) = Unit
IsNamed (ok (name, ext, mime)) = IsPlainName name × (lookup ext allowed_asset_types ≡ some mime)

named_type-IsNamed :
    (name ext : Text) (o : Option Text)
    → IsPlainName name
    → lookup ext allowed_asset_types ≡ o
    → IsNamed (named_type name ext o)
named_type-IsNamed name ext none plain h = tt
named_type-IsNamed name ext (some mime) plain h = (plain, h)

validate_asset_filename-IsNamed : (name : Text) → IsNamed (validate_asset_filename name)
unfolding validate_asset_filename
validate_asset_filename-IsNamed name = elim (Bool-cases (is_asset_name (trim_space name))) [
  | inl x ↦ rw x (
      named_type-IsNamed (trim_space name) _ _ (is_asset_name-IsPlainName (trim_space name) x) refl)
  | inr x ↦ rw x tt
]

module _ (env : AssetEnv) (ctx : Context) (r : BeginInput) (allowed : Bool) (random : Option Text)
    (can_create : Bool) (now : ℕ) where
  -- The upload is the caller's, empty, of a size within the bounds, with a plain name and an allowed
  -- type.
  abbrev pub IsStarted : UploadStore → BeginOutput → Type 0
  IsStarted s out =
      (e : UploadEntry) × (lookup out.begun_id s.entries ≡ some e)
      × (e.caller_key ≡ isolation_caller_key ctx)
      × (e.received_bytes ≡ 0)
      × (0 < e.size_bytes)
      × (e.size_bytes ≤ max_asset_bytes)
      × IsPlainName e.filename
      × (lookup e.ext allowed_asset_types ≡ some e.want_mime)

  abbrev StartedOk : UploadStore × Result BeginError BeginOutput → Type 0
  StartedOk (s, err x) = Unit
  StartedOk (s, ok out) = IsStarted s out

  -- What `begin` of the store leaves
  abbrev Stored : BeginRequest → UploadStore × Result UploadError Text → Type 0
  Stored q (s, err x) = Unit
  Stored q (s, ok id) =
      (e : UploadEntry) × (lookup id s.entries ≡ some e)
      × (e.caller_key ≡ q.caller_key)
      × (e.received_bytes ≡ 0)
      × (e.size_bytes ≡ q.size_bytes)
      × (e.filename ≡ q.filename)
      × (e.ext ≡ q.ext)
      × (e.want_mime ≡ q.want_mime)

  begin-Stored :
      (s : UploadStore) (q : BeginRequest) (o : Option Text) → Stored q (begin s q o can_create now)
  unfolding begin begin_at
  begin-Stored s q none = tt
  begin-Stored s q (some id) = elim (Option-cases (lookup (staging_path_of q.dir id) s.files)) [
    | inr (b, x) ↦ rw x tt
    | inl x ↦ elim (Bool-cases can_create) [
      | inr y ↦ rw (x, y) tt
      | inl y ↦
          rw (x, y)
            (
              new_entry s q (staging_path_of q.dir id) now,
              lookup-insert_self id _ _,
              refl,
              refl,
              refl,
              refl,
              refl,
              refl,
            )
    ]
  ]

  begun-StartedOk :
      (dir name ext mime expected : Text) (x : UploadStore × Result UploadError Text)
      → 0 < r.in_size
      → r.in_size ≤ max_asset_bytes
      → IsPlainName name
      → lookup ext allowed_asset_types ≡ some mime
      → Stored (begin_request env ctx r allowed random can_create now dir name ext mime expected) x
      → StartedOk (begun env ctx r allowed random can_create now name mime x)
  begun-StartedOk dir name ext mime expected (s, err x) low high plain type h = tt
  begun-StartedOk dir name ext mime expected (s, ok id) low high plain type
        (e, found, mine, empty, size, named, as_ext, as_mime) =
      (
        e,
        found,
        mine,
        empty,
        subst (λ (n : ℕ). 0 < n) (sym size) low,
        subst (λ (n : ℕ). n ≤ max_asset_bytes) (sym size) high,
        subst IsPlainName (sym named) plain,
        ap (λ (t : Text). lookup t allowed_asset_types) as_ext ∙ type ∙ ap some (sym as_mime),
      )

  begin_in-StartedOk :
      (s : UploadStore) (name ext mime expected : Text) (o : Option Text)
      → 0 < r.in_size
      → r.in_size ≤ max_asset_bytes
      → IsPlainName name
      → lookup ext allowed_asset_types ≡ some mime
      → StartedOk (begin_in env ctx r allowed random can_create now s name ext mime expected o)
  begin_in-StartedOk s name ext mime expected none low high plain type = tt
  begin_in-StartedOk s name ext mime expected (some dir) low high plain type =
      elim (Bool-cases (env.is_writable dir)) [
        | inl x ↦ rw x (
            begun-StartedOk dir name ext mime expected _ low high plain type (
              begin-Stored s
                (begin_request env ctx r allowed random can_create now dir name ext mime expected)
                random))
        | inr x ↦ rw x tt
      ]

  begin_bundle-StartedOk :
      (s : UploadStore) (name ext mime expected : Text) (o : Option AssetError)
      → 0 < r.in_size
      → r.in_size ≤ max_asset_bytes
      → IsPlainName name
      → lookup ext allowed_asset_types ≡ some mime
      → StartedOk (begin_bundle env ctx r allowed random can_create now s name ext mime expected o)
  begin_bundle-StartedOk s name ext mime expected (some x) low high plain type = tt
  begin_bundle-StartedOk s name ext mime expected none low high plain type =
      elim (Bool-cases allowed) [
        | inl x ↦ rw x (begin_in-StartedOk s name ext mime expected _ low high plain type)
        | inr x ↦ rw x tt
      ]

  begin_hashed-StartedOk :
      (s : UploadStore) (name ext mime : Text) (o : Result AssetError Text)
      → 0 < r.in_size
      → r.in_size ≤ max_asset_bytes
      → IsPlainName name
      → lookup ext allowed_asset_types ≡ some mime
      → StartedOk (begin_hashed env ctx r allowed random can_create now s name ext mime o)
  begin_hashed-StartedOk s name ext mime (err x) low high plain type = tt
  begin_hashed-StartedOk s name ext mime (ok expected) low high plain type =
      begin_bundle-StartedOk s name ext mime expected _ low high plain type

  positive : nat_beq r.in_size 0 ≡ false → 0 < r.in_size
  positive h = ground arith

  small : ltb max_asset_bytes r.in_size ≡ false → r.in_size ≤ max_asset_bytes
  small h = ground arith

  begin_named-StartedOk :
      (s : UploadStore) (o : Result AssetError (Text × Text × Text))
      → IsNamed o
      → StartedOk (begin_named env ctx r allowed random can_create now s o)
  begin_named-StartedOk s (err x) h = tt
  begin_named-StartedOk s (ok (name, ext, mime)) (plain, type) =
      elim (Bool-cases (nat_beq r.in_size 0)) [
        | inl x ↦ rw x tt
        | inr x ↦ elim (Bool-cases (ltb max_asset_bytes r.in_size)) [
          | inl y ↦ rw (x, y) tt
          | inr y ↦
              rw (x, y) (begin_hashed-StartedOk s name ext mime _ (positive x) (small y) plain type)
        ]
      ]

  begin_upload-StartedOk :
      (s : UploadStore) → StartedOk (begin_upload env ctx r allowed random can_create now s)
  unfolding begin_upload
  begin_upload-StartedOk s =
      elim (Bool-cases (slug env ctx r allowed random can_create now == [])) [
        | inl x ↦ rw x tt
        | inr x ↦ rw x (begin_named-StartedOk s _ (validate_asset_filename-IsNamed r.in_filename))
      ]

  -- An upload that begins is on record as the caller's, empty, with a declared size above 0 and of at
  -- most 10 MiB, a type that is allowed, and a file name that is one component of a path and not
  -- hidden: it has no `/`, and no `.` at the front.
  pub begin_upload-IsStarted :
      (s s' : UploadStore) (out : BeginOutput)
      → begin_upload env ctx r allowed random can_create now s ≡ (s', ok out)
      → IsStarted s' out
  begin_upload-IsStarted s s' out done = subst StartedOk done (begin_upload-StartedOk s)
